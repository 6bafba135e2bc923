-- ===== src/Examples/Instructions.antt =====
-- Instructions of each class on a concrete processor.
use l3_info_simulateur_arm.Base.{
  ℕ, ◌+◌, ◌%◌, ◌^◌, ◌<◌, ◌≡◌, refl, arith, inl, inr, true, not, ◌&&◌, ◌-◌, if◌then◌else◌, ◌||◌,
  ◌==◌,
}
use l3_info_simulateur_arm.Constants.{flag_n, flag_z, flag_c, flag_v}
use l3_info_simulateur_arm.Util.{get_bit, get_bits, bit_set, add32, sub32, minus_one}
use l3_info_simulateur_arm.Registers.{read_register}
use l3_info_simulateur_arm.Core.{arm_read_register, arm_read_cpsr}
use l3_info_simulateur_arm.Core.Keeps.{arm_read_register-lt}
use l3_info_simulateur_arm.Condition.{condition, condition_of}
use l3_info_simulateur_arm.Branch.{arm_branch}
use l3_info_simulateur_arm.Branch.Target.{signed_offset, arm_branch_pc, arm_branch_link}
use l3_info_simulateur_arm.DataProcessing.{arm_data_processing_shift}
use l3_info_simulateur_arm.DataProcessing.Operand.{compute, data_processing_operand, add}
use l3_info_simulateur_arm.DataProcessing.Shifter.{
  shift_of, last_out, data_processing_operand_shifts,
}
use l3_info_simulateur_arm.DataProcessing.Subtraction.{subtraction_carry, cmp_flags}
use l3_info_simulateur_arm.Condition.Compared.{CodesAfter, condition_of-cmp}
use l3_info_simulateur_arm.DataProcessing.Results.{first_operand, second_operand}
use l3_info_simulateur_arm.DataProcessing.Registers.{arm_data_processing_registers}
use l3_info_simulateur_arm.LoadStore.{arm_load_store_multiple}
use l3_info_simulateur_arm.LoadStore.Address.{get_address_mode_multi}
use l3_info_simulateur_arm.LoadStore.Multiple.{arm_load_store_multiple_code}
use l3_info_simulateur_arm.Examples.{
  machine, stale, add_5, register_file, register_file-IsMode, machine-IsWordCore,
}

add_fields : (get_bits add_5 15 12 ≡ 0) × (get_bits add_5 24 21 ≡ 4)
unfolding get_bits
add_fields = (refl, refl)

arm_data_processing_registers_example :
    read_register (arm_data_processing_shift machine add_5).reg 0
    ≡ (first_operand machine add_5 + second_operand machine add_5) % 2 ^ 32
unfolding get_bits
arm_data_processing_registers_example =
    arm_data_processing_registers machine add_5 0 register_file-IsMode machine-IsWordCore
      (omega arith) (omega arith)

-- SUBS r0, r1, r2 and CMP r1, r2, both with a borrow.
abbrev subs : ℕ
subs = 0xE0510002

abbrev cmp : ℕ
cmp = 0xE1510002

subs_fields : (get_bit subs 20 ≡ 1) × (get_bits subs 15 12 ≡ 0) × (get_bits subs 24 21 ≡ 2)
unfolding get_bit get_bits
subs_fields = (refl, refl, refl)

cmp_opcode : get_bits cmp 24 21 ≡ 10
unfolding get_bits
cmp_opcode = refl

subtraction_carry_example :
    get_bit (arm_read_cpsr (arm_data_processing_shift machine subs)) flag_c ≡ 1
subtraction_carry_example =
    subtraction_carry machine subs machine-IsWordCore
      (inr (subs_fields.0, omega (arith, subs_fields.1), inl subs_fields.2))

cmp_flags_example :
    let x = first_operand machine cmp in
    let y = second_operand machine cmp in
    let value = (x + 2 ^ 32 - y) % 2 ^ 32 in
    let w = arm_read_cpsr (arm_data_processing_shift machine cmp) in
    (get_bit w flag_z ≡ (if x == y then 1 else 0))
    × (get_bit w flag_n ≡ get_bit value 31)
    × (get_bit w flag_c ≡ 1)
    × (get_bit w flag_v
        ≡ (if get_bit x 31 == get_bit y 31 && not (get_bit value 31 == get_bit y 31) then 1 else 0))
    × (w % 2 ^ 28 ≡ arm_read_cpsr machine % 2 ^ 28)
cmp_flags_example = cmp_flags machine cmp machine-IsWordCore cmp_opcode

condition_of-cmp_example :
    CodesAfter
      (first_operand machine cmp)
      (second_operand machine cmp)
      (arm_read_cpsr (arm_data_processing_shift machine cmp))
condition_of-cmp_example = condition_of-cmp machine cmp machine-IsWordCore cmp_opcode

pc-lt : arm_read_register machine 15 < 2 ^ 32
pc-lt = arm_read_register-lt machine 15 machine-IsWordCore

-- B to eight bytes before itself, the same offset word with the lowest offset, and BL.
arm_branch_pc_example : read_register (arm_branch machine 0xEAFFFFFC).reg 15 ≡ (
    if condition machine 0xEAFFFFFC
    then add32 (arm_read_register machine 15) (signed_offset 0xEAFFFFFC)
    else read_register register_file 15)
arm_branch_pc_example = arm_branch_pc machine 0xEAFFFFFC register_file-IsMode pc-lt (omega arith)

always : condition machine 0xEA800000 ≡ true
unfolding condition condition_of get_bits
always = refl

link : bit_set 0x1B000004 24 ≡ true
unfolding get_bit
link = refl

-- BLNE with Z set.
arm_branch_link_example :
    read_register (arm_branch machine 0x1B000004).reg 14 ≡ sub32 (arm_read_register machine 15) 4
arm_branch_link_example = arm_branch_link machine 0x1B000004 register_file-IsMode link

arm_load_store_multiple_code_example :
    let mode = get_address_mode_multi machine 0xE8B1000C in
    (arm_load_store_multiple stale machine 0xE8B1000C).0
    ≡ (if mode.start_address == minus_one || mode.end_address == minus_one then minus_one else 0)
arm_load_store_multiple_code_example =
    arm_load_store_multiple_code stale machine 0xE8B1000C machine-IsWordCore

-- ADD r0, r1, r2, ROR #4.
abbrev add_ror : ℕ
add_ror = 0xE0810262

add_ror_fields : (get_bit add_ror 4 ≡ 0) × (get_bits add_ror 11 7 ≡ 4)
unfolding get_bit get_bits
add_ror_fields = (refl, refl)

data_processing_operand_shifts_example :
    let kind = get_bits add_ror 6 5 in
    let n = get_bits add_ror 11 7 in
    let rm = arm_read_register machine (get_bits add_ror 3 0) in
    let rn = arm_read_register machine (get_bits add_ror 19 16) in
    data_processing_operand machine add_ror add 0 ≡ (
      if n == 0
      then compute add rn rm
          (if kind == 0 then get_bit (arm_read_cpsr machine) flag_c else get_bit rm 31)
      else compute add rn (shift_of kind n rm) (last_out kind n rm))
data_processing_operand_shifts_example =
    data_processing_operand_shifts machine add_ror 0 add machine-IsWordCore add_ror_fields.0
      (λ e. omega (arith, e, add_ror_fields.1))
