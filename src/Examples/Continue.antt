-- ===== src/Examples/Continue.antt =====
-- `c` at a concrete processor: one step, and the breakpoint behind it.
use mathlib.Core.Option.{some_inj}
use mathlib.Core.Path.{subst}
use l3_info_simulateur_arm.Base.{
  ℕ, zero, suc, ◌≡◌, refl, arith, true, false, some, ◌==◌, if◌then◌else◌, ap, [],
}
use l3_info_simulateur_arm.Util.{get_bit, get_bits}
use l3_info_simulateur_arm.Memory.{memory_read_word, memory_get_size}
use l3_info_simulateur_arm.Registers.{
  read_register, write_register, get_register, cell_of, get_mode, read_cpsr,
}
use l3_info_simulateur_arm.Core.{
  ArmCore, pc_ahead, arm_fetch, arm_write_register, arm_read_register, arm_read_cpsr,
}
use l3_info_simulateur_arm.Branch.{returned}
use l3_info_simulateur_arm.Condition.{condition, condition_of}
use l3_info_simulateur_arm.Instruction.{arm_step}
use l3_info_simulateur_arm.Instruction.Skipped.{is_conditional, arm_step_skipped}
use l3_info_simulateur_arm.Gdb.{running, gdb_init_data, gdb_send_stop_reason}
use l3_info_simulateur_arm.Gdb.Commands.{cont}
use l3_info_simulateur_arm.Gdb.Loop.{
  IsBreakpoint, IsReadable, instruction_at, after_steps, GoesOn, after_first_step, cont-after_steps,
}
use l3_info_simulateur_arm.Examples.{machine, stale}
use l3_info_simulateur_arm.Examples.Protocol.{unset}

-- SUBNE r0, r0, #1 with Z set at the program counter, and a breakpoint of gdb behind it.
abbrev skipping : ArmCore
skipping = record machine {
  mem = record machine.mem { words = λ i. if i == 15 then 0x12400001 else 0xE7F000F0; size = 68 };
}

abbrev behind : ArmCore
behind = (arm_fetch skipping stale.fetched).2

fetched :
    let (result, val, fetched) = arm_fetch skipping stale.fetched in
    (is_conditional val ≡ true) × (condition fetched val ≡ false)
unfolding arm_fetch arm_read_register memory_read_word memory_get_size pc_ahead read_register
    get_register cell_of get_mode read_cpsr get_bits is_conditional condition condition_of
    arm_read_cpsr arm_write_register write_register get_bit
fetched = (refl, refl)

one_step : arm_step stale skipping ≡ returned 0 behind
one_step = arm_step_skipped stale skipping fetched.0 fetched.1 (omega arith)

reached : after_steps unset 1 0 skipping ≡ some (0, behind)
unfolding after_steps
reached = after_first_step unset 0 0 0 skipping behind one_step

skipping-IsReadable : IsReadable skipping
unfolding read_register get_register cell_of get_mode read_cpsr get_bits
skipping-IsReadable = record { aligned = refl; inside = omega arith; small = omega arith }

skipping_instruction : instruction_at skipping ≡ 0x12400001
unfolding memory_read_word memory_get_size read_register get_register cell_of get_mode read_cpsr
    get_bits
skipping_instruction = refl

behind-IsReadable : IsReadable behind
unfolding arm_fetch arm_read_register memory_read_word memory_get_size pc_ahead read_register
    get_register cell_of get_mode read_cpsr get_bits arm_write_register write_register
behind-IsReadable = record { aligned = refl; inside = omega arith; small = omega arith }

behind-IsBreakpoint : IsBreakpoint (instruction_at behind)
unfolding arm_fetch arm_read_register memory_read_word memory_get_size pc_ahead read_register
    get_register cell_of get_mode read_cpsr get_bits arm_write_register write_register
behind-IsBreakpoint = (refl, refl)

goes_on : GoesOn unset 1 0 skipping
unfolding GoesOn after_steps
goes_on zero c q h e =
    let same : skipping ≡ q = ap (λ (s : ℕ × ArmCore). s.1) (some_inj.0 e) in
    subst (λ p. IsReadable p × ¬ IsBreakpoint (instruction_at p)) same
      (skipping-IsReadable, λ b. omega (arith, b.0, skipping_instruction))
goes_on (suc k) c q h e = absurd (omega (arith, h))

cont-after_steps_example :
    cont unset 2 (gdb_init_data skipping [])
    ≡ some (
        running (
          gdb_send_stop_reason
            (record (gdb_init_data skipping []) { arm = behind; target_exception = 0 })))
unfolding gdb_init_data
cont-after_steps_example =
    cont-after_steps unset 1 2 0 (gdb_init_data skipping []) behind (omega arith) reached goes_on
      behind-IsReadable behind-IsBreakpoint
