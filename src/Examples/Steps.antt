-- ===== src/Examples/Steps.antt =====
-- A fetch, exceptions and a whole step of a concrete processor.
use l3_info_simulateur_arm.Base.{◌%◌, ◌≡◌, true, false, refl, arith, inl, inr}
use l3_info_simulateur_arm.Constants.{interrupt, irq}
use l3_info_simulateur_arm.Util.{add32, get_bit, get_bits}
use l3_info_simulateur_arm.Registers.{
  get_mode, read_register, read_cpsr, get_register, cell_of, write_register,
}
use l3_info_simulateur_arm.Memory.{memory_read_word, memory_get_size}
use l3_info_simulateur_arm.Core.{
  ArmCore, pc_ahead, arm_fetch, arm_write_register, arm_read_register, arm_read_cpsr, arm_read_spsr,
}
use l3_info_simulateur_arm.Core.Fetch.{arm_fetch_lem}
use l3_info_simulateur_arm.Exception.{arm_exception}
use l3_info_simulateur_arm.Exception.Vectors.{IsException, IsEntered}
use l3_info_simulateur_arm.Exception.Effects.{arm_exception_enters, arm_exception_pc}
use l3_info_simulateur_arm.Branch.{returned}
use l3_info_simulateur_arm.Condition.{condition, condition_of}
use l3_info_simulateur_arm.Instruction.Skipped.{is_conditional, arm_step_skipped}
use l3_info_simulateur_arm.Branch.Keeps.{Returns}
use l3_info_simulateur_arm.Instruction.{arm_step}
use l3_info_simulateur_arm.Instruction.Ends.{is_exit, is_exit-arm_step}
use l3_info_simulateur_arm.Instruction.Invariant.{counted, arm_step-Returns}
use l3_info_simulateur_arm.Examples.{
  machine, stale, register_file, register_file-IsMode, register_file-IsWordFile, machine-IsWordCore,
  stale-IsWordStale,
}

aligned : read_register register_file 15 % 4 ≡ 0
unfolding read_register get_register cell_of get_mode read_cpsr get_bits
aligned = refl

arm_fetch_example :
    let q = (arm_fetch machine 0).2 in
    let pc = read_register register_file 15 in
    (((arm_fetch machine 0).0, (arm_fetch machine 0).1) ≡ memory_read_word machine.mem pc 0)
    × (arm_read_register q 15 ≡ add32 pc 8)
    × (read_register q.reg 15 ≡ add32 pc 4)
    × (read_register q.reg 3 ≡ read_register register_file 3)
    × (q.cycle_count ≡ 8)
arm_fetch_example =
    arm_fetch_lem machine 0 3 register_file-IsMode register_file-IsWordFile aligned (omega arith)

interrupt-IsException : IsException interrupt
interrupt-IsException = inr (inr (inr (inr (inr (inl refl)))))

arm_exception_enters_example :
    let q = arm_exception machine interrupt in
    (get_mode q.reg ≡ irq)
    × IsEntered interrupt (arm_read_cpsr machine) (arm_read_cpsr q)
    × (arm_read_spsr q ≡ arm_read_cpsr machine)
    × (read_register q.reg 14 ≡ add32 (arm_read_register machine 15) 4)
arm_exception_enters_example =
    arm_exception_enters machine interrupt register_file-IsMode register_file-IsWordFile
      interrupt-IsException (omega arith)

arm_exception_pc_example :
    read_register (arm_exception machine interrupt).reg 15 ≡ read_register register_file 15
arm_exception_pc_example =
    arm_exception_pc machine interrupt register_file-IsMode register_file-IsWordFile
      interrupt-IsException

arm_step-Returns_example : Returns (counted machine) (arm_step stale machine)
arm_step-Returns_example = arm_step-Returns stale stale-IsWordStale machine machine-IsWordCore

-- SWINE 0x123456 with Z set: the condition fails.
abbrev ending : ArmCore
ending = record machine { mem = record machine.mem { words = λ i. 0x1F123456 } }

is_exit-arm_step_example : is_exit (arm_step stale ending) ≡ true
unfolding arm_fetch arm_read_register memory_read_word memory_get_size pc_ahead read_register
    get_register cell_of get_mode read_cpsr get_bits
is_exit-arm_step_example = is_exit-arm_step stale ending

-- SUBNE r0, r0, #1 with Z set: the condition fails.
abbrev skipping : ArmCore
skipping = record machine { mem = record machine.mem { words = λ i. 0x12400001 } }

skipping_fetch :
    let (result, val, fetched) = arm_fetch skipping stale.fetched in
    (is_conditional val ≡ true) × (condition fetched val ≡ false)
unfolding arm_fetch arm_read_register memory_read_word memory_get_size pc_ahead read_register
    get_register cell_of get_mode read_cpsr get_bits is_conditional condition condition_of
    arm_read_cpsr arm_write_register write_register get_bit
skipping_fetch = (refl, refl)

arm_step_skipped_example : arm_step stale skipping ≡ returned 0 (arm_fetch skipping stale.fetched).2
arm_step_skipped_example =
    arm_step_skipped stale skipping skipping_fetch.0 skipping_fetch.1 (omega arith)
