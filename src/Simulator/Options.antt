-- ===== src/Simulator/Options.antt =====
-- arm_simulator.c: what the options turn on.
use native.Mathlib.Nat.{div-div-eq-div-mul, pow-succ'}
use l3_info_simulateur_arm.Base.{
  ℕ, zero, suc, ◌/◌, ◌^◌, ◌≡◌, ◌∙◌, sym, ap, refl, arith, Bool, true, false, ◌||◌, ◌==◌,
  if◌then◌else◌, List, [], ◌∷◌, bit_or, bit_or_step, bit_or-zero, ==_iff,
}
use l3_info_simulateur_arm.Util.{get_bit, bit_set}
use l3_info_simulateur_arm.Text.{Bytes}
use l3_info_simulateur_arm.Trace.{
  trace_init, trace_add, memory_flag, registers_flag, state_flag, position_flag,
}
use l3_info_simulateur_arm.Simulator.{
  Settings, default_settings, Chosen, chosen, exits, set_option, set_options, then_choose,
}

get_bit-suc : (x k : ℕ) → get_bit x (suc k) ≡ get_bit (x / 2) k
unfolding get_bit
get_bit-suc x k = rw (pow-succ' 2 k, sym (div-div-eq-div-mul x 2 (2 ^ k))) refl

bit_set-bit_or : (k x y : ℕ) → bit_set (bit_or x y) k ≡ (bit_set x k || bit_set y k)
unfolding get_bit
bit_set-bit_or zero x y = ground (arith, bit_or_step x y)
bit_set-bit_or (suc k) x y =
    let higher : bit_or x y / 2 ≡ bit_or (x / 2) (y / 2) = omega (arith, bit_or_step x y) in
    rw (get_bit-suc (bit_or x y) k, get_bit-suc x k, get_bit-suc y k, higher)
      (bit_set-bit_or k (x / 2) (y / 2))

-- The flags that an option adds.
abbrev flags_of : ℕ → ℕ
flags_of opt =
    if opt == b'r'
    then 2 ^ registers_flag
    else if opt == b'm'
    then 2 ^ memory_flag
    else if opt == b's'
    then 2 ^ state_flag
    else if opt == b'p'
    then 2 ^ position_flag
    else 0

-- What holds of the settings where the program goes on.
pub data IfChosen (P : Settings → Type 0) : Chosen → Type 0 where
  holds : {s : Settings} → P s → IfChosen P (chosen s)
  over : {code : ℕ} → IfChosen P (exits code)

pub IfChosen-if :
    (P : Settings → Type 0) (b : Bool) {x y : Chosen}
    → (b ≡ true → IfChosen P x)
    → IfChosen P y
    → IfChosen P (if b then x else y)
IfChosen-if P true h k = h refl
IfChosen-if P false h k = k

IsAdded : Settings → ℕ → Settings → Type 0
IsAdded s opt q = q.trace.trace_flags ≡ bit_or s.trace.trace_flags (flags_of opt)

other_option :
    (s : Settings) (opt c : ℕ)
    → flags_of c ≡ 0
    → (opt == c) ≡ true
    → s.trace.trace_flags ≡ bit_or s.trace.trace_flags (flags_of opt)
other_option s opt c none_of e =
    let is : opt ≡ c = (==_iff opt c).0 e in
    sym
      (ap (bit_or s.trace.trace_flags) (ap flags_of is ∙ none_of) ∙ bit_or-zero s.trace.trace_flags)

flag_option :
    (s : Settings) (opt c : ℕ)
    → (opt == c) ≡ true
    → bit_or s.trace.trace_flags (flags_of c) ≡ bit_or s.trace.trace_flags (flags_of opt)
flag_option s opt c e = ap (λ o. bit_or s.trace.trace_flags (flags_of o)) (sym ((==_iff opt c).0 e))

set_option-IsAdded :
    (opens : Bytes → Bool) (s : Settings) (opt : ℕ) (optarg : Bytes)
    → IfChosen (IsAdded s opt) (set_option opens s opt optarg)
unfolding set_option trace_add IsAdded
set_option-IsAdded opens s opt optarg =
    IfChosen-if (IsAdded s opt) (opt == b'g') (λ e. holds (other_option s opt b'g' refl e))
      (IfChosen-if (IsAdded s opt) (opt == b'i') (λ e. holds (other_option s opt b'i' refl e))
        (IfChosen-if (IsAdded s opt) (opt == b'h') (λ e. over)
          (IfChosen-if (IsAdded s opt) (opt == b't')
            (λ e.
              IfChosen-if (IsAdded s opt) (opens optarg)
                (λ o. holds (other_option s opt b't' refl e)) over)
            (IfChosen-if (IsAdded s opt) (opt == b'r') (λ e. holds (flag_option s opt b'r' e))
              (IfChosen-if (IsAdded s opt) (opt == b'm') (λ e. holds (flag_option s opt b'm' e))
                (IfChosen-if (IsAdded s opt) (opt == b's') (λ e. holds (flag_option s opt b's' e))
                  (IfChosen-if (IsAdded s opt) (opt == b'p') (λ e. holds (flag_option s opt b'p' e))
                    (IfChosen-if (IsAdded s opt) (opt == b'd')
                      (λ e. holds (other_option s opt b'd' refl e)) over))))))))

-- The letter of each flag.
pub data IsSwitch : ℕ → ℕ → Type 0 where
  trace_registers : IsSwitch b'r' registers_flag
  trace_memory_accesses : IsSwitch b'm' memory_flag
  trace_state : IsSwitch b's' state_flag
  trace_position : IsSwitch b'p' position_flag

bit_set-flags_of :
    {c flag : ℕ} (opt : ℕ) → IsSwitch c flag → bit_set (flags_of opt) flag ≡ (opt == c)
unfolding get_bit
bit_set-flags_of opt trace_registers = ground arith
bit_set-flags_of opt trace_memory_accesses = ground arith
bit_set-flags_of opt trace_state = ground arith
bit_set-flags_of opt trace_position = ground arith

-- Whether an option stands in the list.
abbrev pub is_given : ℕ → List (ℕ × Bytes) → Bool
is_given c [] = false
is_given c ((opt, optarg) ∷ more) = opt == c || is_given c more

IsTurned : ℕ → ℕ → List (ℕ × Bytes) → Settings → Settings → Type 0
IsTurned c flag opts s q =
    bit_set q.trace.trace_flags flag ≡ (bit_set s.trace.trace_flags flag || is_given c opts)

or-false : (b : Bool) → (b || false) ≡ b
or-false true = refl
or-false false = refl

or_assoc : (a b c : Bool) → ((a || b) || c) ≡ (a || (b || c))
or_assoc true b c = refl
or_assoc false b c = refl

pub then_choose-IfChosen :
    {P Q : Settings → Type 0} (f : Settings → Chosen) {x : Chosen}
    → IfChosen P x
    → ((s : Settings) → P s → IfChosen Q (f s))
    → IfChosen Q (then_choose f x)
then_choose-IfChosen f (holds {s} h) k = k s h
then_choose-IfChosen f over k = over

pub IfChosen-map :
    {P Q : Settings → Type 0} {x : Chosen}
    → ((s : Settings) → P s → Q s)
    → IfChosen P x
    → IfChosen Q x
IfChosen-map f (holds {s} h) = holds (f s h)
IfChosen-map f over = over

IsAdded-bit_set :
    {c flag : ℕ} (s q : Settings) (opt : ℕ)
    → IsSwitch c flag
    → IsAdded s opt q
    → bit_set q.trace.trace_flags flag ≡ (bit_set s.trace.trace_flags flag || (opt == c))
unfolding IsAdded
IsAdded-bit_set {c} {flag} s q opt h added =
    ap (λ n. bit_set n flag) added
    ∙ bit_set-bit_or flag s.trace.trace_flags (flags_of opt)
    ∙ ap (λ b. bit_set s.trace.trace_flags flag || b) (bit_set-flags_of opt h)

starts_off : {c flag : ℕ} {b : Bool} → IsSwitch c flag → (bit_set 0 flag || b) ≡ b
unfolding get_bit
starts_off trace_registers = refl
starts_off trace_memory_accesses = refl
starts_off trace_state = refl
starts_off trace_position = refl

set_options-IsTurned :
    {c flag : ℕ} (opens : Bytes → Bool) (opts : List (ℕ × Bytes)) (s : Settings)
    → IsSwitch c flag
    → IfChosen (IsTurned c flag opts s) (set_options opens opts s)
unfolding set_options IsTurned
set_options-IsTurned {c} {flag} opens [] s h = holds (sym (or-false _))
set_options-IsTurned {c} {flag} opens ((opt, optarg) ∷ more) s h =
    then_choose-IfChosen (set_options opens more) (set_option-IsAdded opens s opt optarg)
      (λ q added.
        IfChosen-map
          (λ r turned.
            turned
            ∙ ap (λ b. b || is_given c more) (IsAdded-bit_set s q opt h added)
            ∙ or_assoc (bit_set s.trace.trace_flags flag) (opt == c) (is_given c more))
          (set_options-IsTurned opens more q h))

pub of_chosen : {P : Settings → Type 0} {s : Settings} → IfChosen P (chosen s) → P s
of_chosen (holds h) = h

-- Where the options leave the program running, it traces registers, memory accesses, the state or
-- positions exactly if the option of that kind, -r, -m, -s or -p, is among them, in whichever order and
-- however often the options are given.
pub set_options-bit_set :
    {c flag : ℕ} (opens : Bytes → Bool) (opts : List (ℕ × Bytes)) (s : Settings)
    → IsSwitch c flag
    → set_options opens opts default_settings ≡ chosen s
    → bit_set s.trace.trace_flags flag ≡ is_given c opts
unfolding default_settings trace_init IsTurned
set_options-bit_set {c} {flag} opens opts s h e =
    let turned : IfChosen (IsTurned c flag opts default_settings) (chosen s) =
      rw (sym e) (set_options-IsTurned opens opts default_settings h) in
    of_chosen turned ∙ starts_off h
