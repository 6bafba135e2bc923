-- ===== src/DataProcessing/Results.antt =====
-- What the sixteen data processing instructions leave in the registers.
use mathlib.Core.Path.{subst}
use l3_info_simulateur_arm.Base.{
  ℕ, ◌+◌, ◌-◌, ◌%◌, ◌^◌, ◌<◌, ◌≡◌, ◌≢◌, ◌∙◌, sym, refl, arith, Bool, true, false, ◌||◌,
  if◌then◌else◌, ◌==◌, bit_and, bit_or, bit_xor,
}
use l3_info_simulateur_arm.Constants.{flag_c}
use l3_info_simulateur_arm.Util.{get_bit, get_bits, bit_set}
use l3_info_simulateur_arm.Registers.{read_register, write_register, read_cpsr, get_mode}
use l3_info_simulateur_arm.Registers.Banks.{IsMode}
use l3_info_simulateur_arm.Registers.Access.{read_register-write_register, get_mode-write_register}
use l3_info_simulateur_arm.Registers.Entry.{read_register-write_cpsr_same}
use l3_info_simulateur_arm.Core.{
  ArmCore, arm_read_register, arm_write_register, arm_read_cpsr, arm_write_cpsr,
}
use l3_info_simulateur_arm.DataProcessing.{
  zncv, zncv_update, update_status, with_result, operand_type,
}
use l3_info_simulateur_arm.DataProcessing.Operand.{
  Computed, mov, data_processing_operand, data_processing_immediate_operand, compute,
}
use l3_info_simulateur_arm.DataProcessing.Flags.{zncv_lem}

-- The first operand, and the second as the shifter gives it.
unfoldable pub first_operand : ArmCore → ℕ → ℕ
first_operand p ins = arm_read_register p (get_bits ins 19 16)

unfoldable pub second_operand : ArmCore → ℕ → ℕ
second_operand p ins = (operand_type p ins mov (get_bit (arm_read_cpsr p) flag_c)).value

-- The result of each opcode on the two operands and the carry flag.
abbrev pub result_of : ℕ → ℕ → ℕ → ℕ → ℕ
result_of opcode a b c =
    if opcode == 0 || opcode == 8
    then bit_and a b
    else if opcode == 1 || opcode == 9
    then bit_xor a b
    else if opcode == 2 || opcode == 10
    then (a + 2 ^ 32 - b) % 2 ^ 32
    else if opcode == 3
    then (b + 2 ^ 32 - a) % 2 ^ 32
    else if opcode == 4 || opcode == 11
    then (a + b) % 2 ^ 32
    else if opcode == 5
    then (a + b + c) % 2 ^ 32
    else if opcode == 6
    then (a + 2 ^ 32 - b + 1 + c) % 2 ^ 32
    else if opcode == 7
    then (b + 2 ^ 32 - a + 1 + c) % 2 ^ 32
    else if opcode == 12
    then bit_or a b
    else if opcode == 13
    then b
    else if opcode == 14
    then bit_and a (2 ^ 32 - 1 - b)
    else 2 ^ 32 - 1 - b

value-if :
    (g : ℕ → ℕ) (b : Bool) (x y x' y' : Computed)
    → x.value ≡ g x'.value
    → y.value ≡ g y'.value
    → (if b then x else y).value ≡ g (if b then x' else y').value
value-if g true x y x' y' h k = h
value-if g false x y x' y' h k = k

pub operand_type_value :
    (p : ArmCore) (ins : ℕ) (f : ℕ → ℕ → ℕ)
    → (operand_type p ins f (get_bit (arm_read_cpsr p) flag_c)).value
      ≡ f (first_operand p ins) (second_operand p ins)
unfolding operand_type data_processing_operand data_processing_immediate_operand compute
    first_operand second_operand mov
operand_type_value p ins f =
    let c = get_bit (arm_read_cpsr p) flag_c in
    value-if (f (first_operand p ins)) (get_bit ins 25 == 0) (data_processing_operand p ins f c)
      (data_processing_immediate_operand p ins f) (data_processing_operand p ins mov c)
      (data_processing_immediate_operand p ins mov) refl refl

-- A write of the flags leaves the registers 0 to 15.
pub read_register-zncv_update :
    (p : ArmCore) (overflow carry value o_v status reg : ℕ)
    → IsMode (get_mode p.reg)
    → status < 2 ^ 32
    → value < 2 ^ 32
    → get_bits status 4 0 ≡ get_mode p.reg
    → reg < 16
    → read_register (zncv_update p overflow carry value o_v 1 status).reg reg
      ≡ read_register p.reg reg
unfolding zncv_update arm_write_cpsr
read_register-zncv_update p overflow carry value o_v status reg mode hs hv same h =
    read_register-write_cpsr_same p.reg (zncv overflow carry value o_v 1 status) reg mode
      (kept ∙ same) h
  where
    kept : get_bits (zncv overflow carry value o_v 1 status) 4 0 ≡ get_bits status 4 0
    kept = unfold get_bits in omega (arith, (zncv_lem overflow carry value o_v status hs hv).4)

read_register-update_status :
    (p : ArmCore) (rd : ℕ) (s : Bool) (overflow carry value o_v status reg : ℕ)
    → IsMode (get_mode p.reg)
    → status < 2 ^ 32
    → value < 2 ^ 32
    → get_bits status 4 0 ≡ get_mode p.reg
    → rd ≢ 15
    → reg < 16
    → read_register (update_status p rd s overflow carry value o_v status).reg reg
      ≡ read_register p.reg reg
unfolding update_status
read_register-update_status p rd s overflow carry value o_v status reg mode hs hv same ne h =
    ground (arith, read_register-zncv_update p overflow carry value o_v status reg mode hs hv same)

-- A case with a result writes `rd`, where that is not the program counter, and no other register.
pub read_register-with_result :
    (p : ArmCore) (ins written value overflow carry o_v reg : ℕ)
    → IsMode (get_mode p.reg)
    → arm_read_cpsr p < 2 ^ 32
    → value < 2 ^ 32
    → get_bits ins 15 12 < 15
    → reg < 16
    → read_register (with_result p ins written value overflow carry o_v).reg reg
      ≡ (if reg == get_bits ins 15 12 then written else read_register p.reg reg)
unfolding with_result arm_write_register arm_read_cpsr get_mode
read_register-with_result p ins written value overflow carry o_v reg mode hs hv hd h =
    let rd = get_bits ins 15 12 in
    read_register-update_status (arm_write_register p rd written) rd (bit_set ins 20) overflow carry
      value o_v (read_cpsr p.reg) reg (subst IsMode (sym written_mode) mode) hs hv
      (sym written_mode) (omega arith) h
    ∙ read_register-write_register p.reg rd reg written mode (omega arith) h
  where
    written_mode : get_mode (write_register p.reg (get_bits ins 15 12) written) ≡ get_mode p.reg
    written_mode = get_mode-write_register p.reg (get_bits ins 15 12) written mode (omega arith)
