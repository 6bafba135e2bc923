-- ===== src/Branch.antt =====
-- arm_branch_other.c: branches, software interrupts, and the move of a status register.
pub mod Target
pub mod Keeps
use l3_info_simulateur_arm.Base.{ℕ, ◌%◌, ◌*◌, ◌/◌, ◌^◌, ◌+◌, Bool, ◌&&◌, ◌==◌, if◌then◌else◌}
use l3_info_simulateur_arm.Constants.{software_interrupt, undefined_instruction}
use l3_info_simulateur_arm.Util.{u32, add32, sub32, bit_not, get_bit, get_bits, set_bits, bit_set}
use l3_info_simulateur_arm.Core.{
  ArmCore, arm_read_register, arm_write_register, arm_read_cpsr, arm_read_spsr,
}
use l3_info_simulateur_arm.Condition.{condition}

-- What a handler returns: a code and the processor, or the end of the whole program by `exit(0)`.
pub data Outcome : Type 0 where
  returned : ℕ → ArmCore → Outcome
  exited : Outcome

-- The number that is taken from the program counter: the offset negated on 24 bits, extended by
-- its sign to 30 bits and shifted by two.
unfoldable pub branch_offset : ℕ → ℕ
branch_offset ins =
    let offset = get_bits ins 23 0 in
    let negated = u32 (add32 (bit_not offset) 1 * 2 ^ 8) / 2 ^ 8 in
    let extended =
      if bit_set negated 23 then set_bits negated 29 24 0x3F else set_bits negated 29 24 0 in
    u32 (extended * 2 ^ 2)

unfoldable pub arm_branch : ArmCore → ℕ → ArmCore
arm_branch p ins =
    let pc = arm_read_register p 15 in
    let linked = if bit_set ins 24 then arm_write_register p 14 (sub32 pc 4) else p in
    if condition linked ins
    then arm_write_register linked 15 (sub32 pc (branch_offset ins))
    else linked

unfoldable pub arm_coprocessor_others_swi : ArmCore → ℕ → Outcome
arm_coprocessor_others_swi p ins =
    if bit_set ins 24
    then if ins % 2 ^ 24 == 0x123456 then exited else returned software_interrupt p
    else returned undefined_instruction p

-- The register that MRS reads.
unfoldable pub status_word : ArmCore → ℕ → ℕ
status_word p ins = if get_bit ins 22 == 1 then arm_read_spsr p else arm_read_cpsr p

unfoldable pub arm_miscellaneous : ArmCore → ℕ → Outcome
arm_miscellaneous p ins =
    if get_bit ins 21 == 0 && get_bits ins 19 16 == 0xF && get_bits ins 11 0 == 0 && condition p ins
    then returned 0 (arm_write_register p (get_bits ins 15 12) (status_word p ins))
    else returned undefined_instruction p
