-- ===== src/Gdb/Loop.antt =====
-- The loop of `cont` up to the first breakpoint.
use mathlib.Core.Path.{subst}
use mathlib.Core.Option.{some_inj}
use l3_info_simulateur_arm.Base.{
  ◌⊎◌, ℕ, zero, suc, ◌+◌, ◌*◌, ◌/◌, ◌%◌, ◌^◌, ◌≤◌, ◌<◌, ◌≡◌, ◌↔◌, ◌∙◌, ap, sym, refl, arith, Bool,
  true, false, inl, inr, Option, none, some, bit_and, bit_and_split, bit_and_mask, bit_and-zero,
  ==_iff,
}
use l3_info_simulateur_arm.Util.{sub32}
use l3_info_simulateur_arm.Registers.{read_register}
use l3_info_simulateur_arm.Memory.{memory_read_word, memory_get_size}
use l3_info_simulateur_arm.Core.{ArmCore, pc_ahead, arm_read_register, arm_read_word}
use l3_info_simulateur_arm.Core.Fetch.{pc_ahead_back}
use l3_info_simulateur_arm.Branch.{Outcome, returned, exited}
use l3_info_simulateur_arm.Instruction.{arm_step}
use l3_info_simulateur_arm.Gdb.{Gdb, running, gdb_send_stop_reason}
use l3_info_simulateur_arm.Gdb.Commands.{
  Unset, stepped, next_instruction, is_breakpoint, cont_loop, cont,
}

-- The encoding of a breakpoint of gdb: bits 31 to 20 and bits 7 to 4 of an undefined instruction.
abbrev pub IsBreakpoint : ℕ → Type 0
IsBreakpoint word = (word / 2 ^ 20 % 2 ^ 12 ≡ 0xE7F) × (word / 2 ^ 4 % 2 ^ 4 ≡ 0xF)

breakpoint_bits :
    (w : ℕ) → bit_and w 0xFFF000F0 ≡ w / 2 ^ 20 % 2 ^ 12 * 2 ^ 20 + w / 2 ^ 4 % 2 ^ 4 * 2 ^ 4
breakpoint_bits w =
    let r = w % 2 ^ 20 in
    let split : w ≡ w / 2 ^ 20 * 2 ^ 20 + r = omega arith in
    let split' : r ≡ r / 2 ^ 4 * 2 ^ 4 + r % 2 ^ 4 = omega arith in
    ap (λ x. bit_and x 0xFFF000F0) split
    ∙ bit_and_split 20 (w / 2 ^ 20) 0xFFF r 0xF0 (omega arith) (omega arith)
    ∙ ap (λ x. bit_and (w / 2 ^ 20) 0xFFF * 2 ^ 20 + bit_and x 0xF0) split'
    ∙ omega (
      arith,
      bit_and_split 4 (r / 2 ^ 4) 0xF (r % 2 ^ 4) 0 (omega arith) (omega arith),
      bit_and_mask 12 (w / 2 ^ 20),
      bit_and_mask 4 (r / 2 ^ 4),
      bit_and-zero (r % 2 ^ 4),
    )

is_breakpoint_iff : (w : ℕ) → (is_breakpoint w ≡ true) ↔ IsBreakpoint w
is_breakpoint_iff w = ground (arith, breakpoint_bits w, ==_iff (bit_and w 0xFFF000F0) 0xE7F000F0)

-- A program counter at which a word of the memory stands, and that word.
pub record IsReadable (p : ArmCore) : Type 0 where
  pub aligned : read_register p.reg 15 % 4 ≡ 0
  pub inside : read_register p.reg 15 < p.mem.size
  pub small : p.mem.size ≤ 2 ^ 32

abbrev pub instruction_at : ArmCore → ℕ
instruction_at p = (memory_read_word p.mem (read_register p.reg 15) 0).1

instruction_read :
    (i : ℕ) (gdb : Gdb) → IsReadable gdb.arm → next_instruction i gdb ≡ instruction_at gdb.arm
unfolding arm_read_word arm_read_register memory_read_word memory_get_size
instruction_read i gdb h =
    let back : sub32 (pc_ahead (read_register gdb.arm.reg 15)) 4 ≡ read_register gdb.arm.reg 15 =
      pc_ahead_back (read_register gdb.arm.reg 15) h.aligned (omega (arith, h.inside, h.small)) in
    rw (next_instruction, back) (ground (arith, h.inside, h.aligned))

-- The processor and the code of the last step, after a number of steps; nothing where a step ends
-- the program.
unfoldable pub after_steps : Unset → ℕ → ℕ → ArmCore → Option (ℕ × ArmCore)
after_steps unset zero code p = some (code, p)
after_steps unset (suc n) code p = elim (arm_step (unset.step p.cycle_count) p) [
  | exited ↦ none
  | returned next_code q ↦ after_steps unset n next_code q
]

-- Every state that is reached in fewer steps is one where the loop goes on.
unfoldable pub GoesOn : Unset → ℕ → ℕ → ArmCore → Type 0
GoesOn unset n code p =
    (k c : ℕ) (q : ArmCore)
    → k < n
    → after_steps unset k code p ≡ some (c, q)
    → IsReadable q × ¬ IsBreakpoint (instruction_at q)

outcome_cases : (o : Outcome) → ((code : ℕ) × (q : ArmCore) × (o ≡ returned code q)) ⊎ (o ≡ exited)
outcome_cases exited = inr refl
outcome_cases (returned code q) = inl (code, q, refl)

is_false : {b : Bool} → ¬ (b ≡ true) → b ≡ false
is_false {b = true} h = absurd (h refl)
is_false {b = false} h = refl

some_ne_none : {s : ℕ × ArmCore} → ¬ (some s ≡ none)
some_ne_none e = cc

module _ (unset : Unset) where
  stops_here :
      (fuel i : ℕ) (gdb : Gdb)
      → IsReadable gdb.arm
      → IsBreakpoint (instruction_at gdb.arm)
      → cont_loop unset (suc fuel) i gdb ≡ some (running gdb)
  unfolding cont_loop
  stops_here fuel i gdb readable h =
      let word = instruction_read i gdb readable in
      let found : is_breakpoint (next_instruction i gdb) ≡ true =
        ap is_breakpoint word ∙ (is_breakpoint_iff (instruction_at gdb.arm)).1 h in
      rw (cont_loop, found) refl

  goes_past :
      (fuel i code : ℕ) (gdb : Gdb) (q : ArmCore)
      → IsReadable gdb.arm
      → ¬ IsBreakpoint (instruction_at gdb.arm)
      → arm_step (unset.step gdb.arm.cycle_count) gdb.arm ≡ returned code q
      → cont_loop unset (suc fuel) i gdb
        ≡ cont_loop unset fuel
            (next_instruction i gdb)
            (record gdb { arm = q; target_exception = code })
  unfolding cont_loop stepped
  goes_past fuel i code gdb q readable other h =
      let word = instruction_read i gdb readable in
      let passed : is_breakpoint (next_instruction i gdb) ≡ false =
        ap is_breakpoint word
        ∙ is_false (λ e. other ((is_breakpoint_iff (instruction_at gdb.arm)).0 e)) in
      rw (cont_loop, passed, h) refl

  pub after_first_step :
      (n code next_code : ℕ) (p q : ArmCore)
      → arm_step (unset.step p.cycle_count) p ≡ returned next_code q
      → after_steps unset (suc n) code p ≡ after_steps unset n next_code q
  unfolding after_steps
  after_first_step n code next_code p q h = rw (after_steps, h) refl

  no_first_step :
      (n code : ℕ) (p : ArmCore)
      → arm_step (unset.step p.cycle_count) p ≡ exited
      → after_steps unset (suc n) code p ≡ none
  unfolding after_steps
  no_first_step n code p h = rw (after_steps, h) refl

  cont_loop-after_steps :
      (n fuel i code : ℕ) (gdb : Gdb) (q : ArmCore)
      → n < fuel
      → after_steps unset n gdb.target_exception gdb.arm ≡ some (code, q)
      → GoesOn unset n gdb.target_exception gdb.arm
      → IsReadable q
      → IsBreakpoint (instruction_at q)
      → cont_loop unset fuel i gdb
        ≡ some (running (record gdb { arm = q; target_exception = code }))
  unfolding after_steps GoesOn
  cont_loop-after_steps n zero i code gdb q h e on readable found = absurd (omega (arith, h))
  cont_loop-after_steps zero (suc fuel) i code gdb q h e on readable found =
      let same : (gdb.target_exception, gdb.arm) ≡ (code, q) = some_inj.0 e in
      let core : gdb.arm ≡ q = ap (λ (s : ℕ × ArmCore). s.1) same in
      stops_here fuel i gdb (subst IsReadable (sym core) readable)
        (subst (λ p. IsBreakpoint (instruction_at p)) (sym core) found)
      ∙ ap (λ (s : ℕ × ArmCore). some (running (record gdb { arm = s.1; target_exception = s.0 })))
          same
  cont_loop-after_steps (suc n) (suc fuel) i code gdb q h e on readable found =
      elim (outcome_cases (arm_step (unset.step gdb.arm.cycle_count) gdb.arm)) [
        | inl (next_code, next, step) ↦
            let at_start = on 0 gdb.target_exception gdb.arm (omega arith) refl in
            let after = record gdb { arm = next; target_exception = next_code } in
            let first = after_first_step n gdb.target_exception next_code gdb.arm next step in
            goes_past fuel i next_code gdb next at_start.0 at_start.1 step
            ∙ cont_loop-after_steps n fuel (next_instruction i gdb) code after q (omega (arith, h))
                (sym first ∙ e)
                (λ k c r hk reached.
                  on (suc k) c r (omega (arith, hk))
                    (after_first_step k gdb.target_exception next_code gdb.arm next step ∙ reached))
                readable found
        | inr step ↦
            elim (some_ne_none (sym e ∙ no_first_step n gdb.target_exception gdb.arm step)) [ ]
      ]

  -- `c` makes the steps up to the first breakpoint and then sends its answer: where the processor
  -- reaches a breakpoint in a number of steps, none of which ends the program, with no breakpoint
  -- before, the answer is sent from the state behind these steps, with the code of the last one,
  -- and the breakpoint is not executed. More rounds than steps are enough. At each of these states
  -- a word of the memory stands at the program counter.
  pub cont-after_steps :
      (n fuel code : ℕ) (gdb : Gdb) (q : ArmCore)
      → n < fuel
      → after_steps unset n gdb.target_exception gdb.arm ≡ some (code, q)
      → GoesOn unset n gdb.target_exception gdb.arm
      → IsReadable q
      → IsBreakpoint (instruction_at q)
      → cont unset fuel gdb
        ≡ some (running (gdb_send_stop_reason (record gdb { arm = q; target_exception = code })))
  unfolding cont
  cont-after_steps n fuel code gdb q h e on readable found =
      rw (cont_loop-after_steps n fuel unset.instruction code gdb q h e on readable found) refl
