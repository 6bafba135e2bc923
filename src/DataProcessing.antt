-- ===== src/DataProcessing.antt =====
-- arm_data_processing.c: the data processing instructions.
pub mod Operand
pub mod Shifter
pub mod Flags
pub mod Results
pub mod Keeps
pub mod Registers
pub mod Subtraction
use l3_info_simulateur_arm.Base.{
  ℕ, ◌+◌, ◌-◌, ◌%◌, Bool, true, false, not, ◌&&◌, ◌||◌, ◌==◌, if◌then◌else◌,
}
use l3_info_simulateur_arm.Constants.{flag_n, flag_z, flag_c, flag_v, undefined_instruction}
use l3_info_simulateur_arm.Util.{
  add32, sub32, bit_not, get_bit, get_bits, set_bit, clr_bit, bit_set,
}
use l3_info_simulateur_arm.Core.{
  ArmCore, arm_read_register, arm_write_register, arm_read_cpsr, arm_read_spsr,
}
use l3_info_simulateur_arm.Core.{arm_write_cpsr, arm_current_mode_has_spsr}
use Operand.{Computed, data_processing_operand, data_processing_immediate_operand}
use Operand.{logical_and, logical_eor, sub, rsb, add, logical_or, mov, bic}

-- An `int` as a condition.
abbrev pub truth : ℕ → Bool
truth x = not (x == 0)

unfoldable pub update_z : ℕ → ℕ → ℕ
update_z value status = if value == 0 then set_bit status flag_z else clr_bit status flag_z

unfoldable pub update_n : ℕ → ℕ → ℕ
update_n value status = if bit_set value 31 then set_bit status flag_n else clr_bit status flag_n

-- A flag that is set, cleared or, with `wanted` 0, left alone.
unfoldable pub update_flag : ℕ → ℕ → ℕ → ℕ → ℕ
update_flag flag given wanted status =
    if truth given && truth wanted
    then set_bit status flag
    else if truth wanted
    then clr_bit status flag
    else status

-- `ZNCV_update` without its last line, which writes the status word that it built.
unfoldable pub zncv : ℕ → ℕ → ℕ → ℕ → ℕ → ℕ → ℕ
zncv overflow carry value o_v ca cpsr_value =
    update_flag flag_v overflow o_v
      (update_flag flag_c carry ca (update_n value (update_z value cpsr_value)))

unfoldable pub zncv_update : ArmCore → ℕ → ℕ → ℕ → ℕ → ℕ → ℕ → ArmCore
zncv_update p overflow carry value o_v ca cpsr_value =
    arm_write_cpsr p (zncv overflow carry value o_v ca cpsr_value)

-- What follows the write of `rd` in every instruction that has a result.
unfoldable pub update_status : ArmCore → ℕ → Bool → ℕ → ℕ → ℕ → ℕ → ℕ → ArmCore
update_status p rd s overflow carry value o_v cpsr_value =
    if s
    then if not (rd == 15)
      then zncv_update p overflow carry value o_v 1 cpsr_value
      else if arm_current_mode_has_spsr p
      then arm_write_cpsr p (arm_read_spsr p)
      else p
    else p

-- The operand that bit 25 selects.
unfoldable pub operand_type : ArmCore → ℕ → (ℕ → ℕ → ℕ) → ℕ → Computed
operand_type p ins operateur carry =
    if get_bit ins 25 == 0
    then data_processing_operand p ins operateur carry
    else data_processing_immediate_operand p ins operateur

-- A case with a result: the value that is written to `rd`, then the flags from `value`, the carry
-- and, where `o_v` is 1, the overflow.
unfoldable pub with_result : ArmCore → ℕ → ℕ → ℕ → ℕ → ℕ → ℕ → ArmCore
with_result p ins written value overflow carry o_v =
    let rd = get_bits ins 15 12 in
    update_status (arm_write_register p rd written) rd (bit_set ins 20) overflow carry value o_v
      (arm_read_cpsr p)

-- The 16 cases of the `switch` on the opcode.
unfoldable pub by_opcode : ArmCore → ℕ → ℕ → (((ℕ → ℕ → ℕ)) → Computed) → ArmCore
by_opcode p ins opcode operand =
    let c = get_bit (arm_read_cpsr p) flag_c in
    let logical = λ (r : Computed). with_result p ins r.value r.value r.overflow r.carry 0 in
    let added = λ (r : Computed). with_result p ins r.value r.value r.overflow r.carry_from 1 in
    let taken =
      λ (r : Computed). with_result p ins r.value r.value r.overflow (bit_not r.carry_from) 1 in
    let carried = λ (r : Computed).
      let value = add32 r.value c in with_result p ins value value r.overflow r.carry_from 1 in
    let borrowed = λ (r : Computed).
      let value = sub32 r.value (bit_not c) in
      with_result p ins value value r.overflow (bit_not r.carry_from) 1 in
    let negated =
      λ (r : Computed). with_result p ins (bit_not r.value) r.value r.overflow r.carry 0 in
    let tested = λ (r : Computed). zncv_update p r.overflow r.carry r.value 0 1 (arm_read_cpsr p) in
    let compared =
      λ (r : Computed) (carry : ℕ). zncv_update p r.overflow carry r.value 1 1 (arm_read_cpsr p) in
    if opcode == 0
    then logical (operand logical_and)
    else if opcode == 1
    then logical (operand logical_eor)
    else if opcode == 2
    then taken (operand sub)
    else if opcode == 3
    then taken (operand rsb)
    else if opcode == 4
    then added (operand add)
    else if opcode == 5
    then carried (operand add)
    else if opcode == 6
    then borrowed (operand sub)
    else if opcode == 7
    then borrowed (operand rsb)
    else if opcode == 8
    then tested (operand logical_and)
    else if opcode == 9
    then tested (operand logical_eor)
    else if opcode == 10
    then compared (operand sub) (bit_not (operand sub).carry_from)
    else if opcode == 11
    then compared (operand add) (operand add).carry_from
    else if opcode == 12
    then logical (operand logical_or)
    else if opcode == 13
    then logical (operand mov)
    else if opcode == 14
    then logical (operand bic)
    else negated (operand mov)

-- The opcode has four bits, so `default` is not reached and the code returned is 0.
unfoldable pub arm_data_processing_shift : ArmCore → ℕ → ArmCore
arm_data_processing_shift p ins =
    by_opcode p ins (get_bits ins 24 21)
      (λ operateur. operand_type p ins operateur (get_bit (arm_read_cpsr p) flag_c))
