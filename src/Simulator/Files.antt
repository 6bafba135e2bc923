-- ===== src/Simulator/Files.antt =====
-- arm_simulator.c: the files that the options debug.
use l3_info_simulateur_arm.Base.{
  ℕ, ◌≤◌, ◌≡◌, ◌↔◌, ◌∙◌, sym, ap, refl, Bool, true, false, ◌==◌, if◌then◌else◌, List, [], ◌∷◌,
  ==_iff,
}
use l3_info_simulateur_arm.Text.{Bytes}
use l3_info_simulateur_arm.Trace.{trace_add}
use l3_info_simulateur_arm.Debug.{DebuggedFiles, max_files_number, add_debug_to, is_debugged}
use l3_info_simulateur_arm.Debug.Files.{IsAmong, count, add_all, add_all-no_files}
use l3_info_simulateur_arm.Simulator.{Settings, default_settings, chosen, set_option, set_options}
use l3_info_simulateur_arm.Simulator.Options.{
  IfChosen, holds, over, IfChosen-if, IfChosen-map, then_choose-IfChosen, of_chosen,
}

-- The arguments of the options `-d`.
unfoldable pub names_of : List (ℕ × Bytes) → List Bytes
names_of [] = []
names_of ((opt, optarg) ∷ more) =
    let rest = names_of more in if opt == b'd' then optarg ∷ rest else rest

abbrev added : Settings → ℕ → Bytes → DebuggedFiles
added s opt optarg = if opt == b'd' then add_debug_to s.debugged optarg else s.debugged

module _ (s : Settings) (opt : ℕ) (optarg : Bytes) where
  HasFile : Settings → Type 0
  HasFile q = q.debugged ≡ added s opt optarg

  other_option : (c : ℕ) → (c == b'd') ≡ false → (opt == c) ≡ true → s.debugged ≡ added s opt optarg
  other_option c differs e = sym (
      ap (λ b. if b then add_debug_to s.debugged optarg else s.debugged)
        (ap (λ o. o == b'd') ((==_iff opt c).0 e) ∙ differs))

  set_option-HasFile : (opens : Bytes → Bool) → IfChosen HasFile (set_option opens s opt optarg)
  unfolding set_option trace_add HasFile
  set_option-HasFile opens =
      IfChosen-if HasFile (opt == b'g') (λ e. holds (other_option b'g' refl e))
        (IfChosen-if HasFile (opt == b'i') (λ e. holds (other_option b'i' refl e))
          (IfChosen-if HasFile (opt == b'h') (λ e. over)
            (IfChosen-if HasFile (opt == b't')
              (λ e. IfChosen-if HasFile (opens optarg) (λ o. holds (other_option b't' refl e)) over)
              (IfChosen-if HasFile (opt == b'r') (λ e. holds (other_option b'r' refl e))
                (IfChosen-if HasFile (opt == b'm') (λ e. holds (other_option b'm' refl e))
                  (IfChosen-if HasFile (opt == b's') (λ e. holds (other_option b's' refl e))
                    (IfChosen-if HasFile (opt == b'p') (λ e. holds (other_option b'p' refl e))
                      (IfChosen-if HasFile (opt == b'd')
                        (λ e. holds (
                          sym
                            (ap (λ b. if b then add_debug_to s.debugged optarg else s.debugged) e)))
                        over))))))))

HasFiles : List (ℕ × Bytes) → Settings → Settings → Type 0
HasFiles opts s q = q.debugged ≡ add_all s.debugged (names_of opts)

add_all-names_of :
    (s : Settings) (opt : ℕ) (optarg : Bytes) (more : List (ℕ × Bytes))
    → add_all (added s opt optarg) (names_of more)
      ≡ add_all s.debugged (names_of ((opt, optarg) ∷ more))
unfolding names_of add_all
add_all-names_of s opt optarg more = either (opt == b'd')
  where
    either :
        (b : Bool)
        → add_all (if b then add_debug_to s.debugged optarg else s.debugged) (names_of more)
          ≡ add_all s.debugged (if b then optarg ∷ names_of more else names_of more)
    either true = refl
    either false = refl

set_options-HasFiles :
    (opens : Bytes → Bool) (opts : List (ℕ × Bytes)) (s : Settings)
    → IfChosen (HasFiles opts s) (set_options opens opts s)
unfolding set_options HasFiles HasFile names_of add_all
set_options-HasFiles opens [] s = holds refl
set_options-HasFiles opens ((opt, optarg) ∷ more) s =
    then_choose-IfChosen (set_options opens more) (set_option-HasFile s opt optarg opens) (λ q one.
      IfChosen-map
        (λ r all.
          all ∙ ap (λ d. add_all d (names_of more)) one ∙ add_all-names_of s opt optarg more)
        (set_options-HasFiles opens more q))

-- After options that leave the program running, with at most 64 names of files to debug, the search
-- finds exactly the names that were given with -d, in whichever order they were given.
pub set_options-is_debugged :
    (opens : Bytes → Bool) (opts : List (ℕ × Bytes)) (s : Settings) (name : Bytes)
    → set_options opens opts default_settings ≡ chosen s
    → count (names_of opts) ≤ max_files_number
    → (is_debugged s.debugged name ≡ true) ↔ IsAmong name (names_of opts)
unfolding default_settings HasFiles
set_options-is_debugged opens opts s name e room =
    let all : IfChosen (HasFiles opts default_settings) (chosen s) =
      rw (sym e) (set_options-HasFiles opens opts default_settings) in
    rw (of_chosen all) (add_all-no_files (names_of opts) name room)
