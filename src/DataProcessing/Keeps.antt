-- ===== src/DataProcessing/Keeps.antt =====
-- What the data processing instructions keep.
use l3_info_simulateur_arm.Base.{
  ℕ, ◌+◌, ◌-◌, ◌*◌, ◌%◌, ◌^◌, ◌<◌, arith, Bool, true, false, not, if◌then◌else◌, ◌==◌,
}
use l3_info_simulateur_arm.Base.{bit_and-le, bit_or-lt, bit_xor-lt}
use l3_info_simulateur_arm.Constants.{flag_n, flag_z, flag_c, flag_v}
use l3_info_simulateur_arm.Util.{bit_not, ror, u8, get_bit, get_bits, set_bit, clr_bit, bit_set}
use l3_info_simulateur_arm.Util.Bounds.{set_bit-lt, clr_bit-lt, shl-lt, shr-lt, asr-lt, ror-lt}
use l3_info_simulateur_arm.Core.{
  ArmCore, arm_read_register, arm_write_register, arm_read_cpsr, arm_read_spsr,
  arm_current_mode_has_spsr,
}
use l3_info_simulateur_arm.Core.Keeps.{IsWordCore, Keeps, Keeps-refl, Keeps-trans, Keeps-if}
use l3_info_simulateur_arm.Core.Keeps.{arm_read_cpsr-lt, arm_read_spsr-lt, arm_read_register-lt}
use l3_info_simulateur_arm.Core.Keeps.{arm_write_register-Keeps, arm_write_cpsr-Keeps}
use l3_info_simulateur_arm.DataProcessing.{
  update_z, update_n, update_flag, zncv, zncv_update, update_status,
}
use l3_info_simulateur_arm.DataProcessing.{
  operand_type, with_result, by_opcode, arm_data_processing_shift,
}
use l3_info_simulateur_arm.DataProcessing.Operand.{Computed, shifted, compute}
use l3_info_simulateur_arm.DataProcessing.Operand.{
  data_processing_operand, data_processing_immediate_operand,
}
use l3_info_simulateur_arm.DataProcessing.Operand.{
  logical_and, logical_eor, sub, rsb, add, logical_or, mov, bic,
}

-- An operator whose result is a 32-bit word.
abbrev pub IsWordOperator : (ℕ → ℕ → ℕ) → Type 0
IsWordOperator f = (a b : ℕ) → a < 2 ^ 32 → b < 2 ^ 32 → f a b < 2 ^ 32

pub logical_and-lt : IsWordOperator logical_and
unfolding logical_and
logical_and-lt a b ha hb = omega (arith, bit_and-le a b)

pub logical_eor-lt : IsWordOperator logical_eor
unfolding logical_eor
logical_eor-lt a b ha hb = bit_xor-lt 32 a b ha hb

pub logical_or-lt : IsWordOperator logical_or
unfolding logical_or
logical_or-lt a b ha hb = bit_or-lt 32 a b ha hb

pub bic-lt : IsWordOperator bic
unfolding bic
bic-lt a b ha hb = omega (arith, bit_and-le a (bit_not b))

pub sub-lt : IsWordOperator sub
unfolding sub
sub-lt a b ha hb = omega arith

pub rsb-lt : IsWordOperator rsb
unfolding rsb
rsb-lt a b ha hb = omega arith

pub add-lt : IsWordOperator add
unfolding add
add-lt a b ha hb = omega arith

pub mov-lt : IsWordOperator mov
unfolding mov
mov-lt a b ha hb = hb

-- The shifted operand is a word.
operand-lt :
    (champ val_rm shift_value val_rs flag carry : ℕ)
    → val_rm < 2 ^ 32
    → (shifted champ val_rm shift_value val_rs flag carry).operand < 2 ^ 32
unfolding shifted
operand-lt champ val_rm shift_value val_rs flag carry h = ground (
  arith,
  shl-lt val_rm shift_value,
  shl-lt val_rm val_rs,
  shr-lt val_rm shift_value,
  shr-lt val_rm val_rs,
  asr-lt val_rm shift_value,
  asr-lt val_rm (u8 val_rs),
  ror-lt val_rm shift_value,
  ror-lt val_rm (u8 val_rs),
)

get_bits_byte-lt : (x : ℕ) → get_bits x 7 0 < 2 ^ 32
unfolding get_bits
get_bits_byte-lt x = omega arith

value-if :
    (b : Bool) (x y : Computed)
    → x.value < 2 ^ 32
    → y.value < 2 ^ 32
    → (if b then x else y).value < 2 ^ 32
value-if true x y h k = h
value-if false x y h k = k

pub operand_type-lt :
    (p : ArmCore) (ins : ℕ) (f : ℕ → ℕ → ℕ) (carry : ℕ)
    → IsWordCore p
    → IsWordOperator f
    → (operand_type p ins f carry).value < 2 ^ 32
unfolding operand_type data_processing_operand data_processing_immediate_operand compute
operand_type-lt p ins f carry h hf =
    let val_rn = arm_read_register p (get_bits ins 19 16) in
    let val_rn-lt = arm_read_register-lt p (get_bits ins 19 16) h in
    let val_rm = arm_read_register p (get_bits ins 3 0) in
    let immediate = ror (get_bits ins 7 0) (get_bits ins 11 8 * 2) in
    let s =
      shifted (get_bits ins 6 4) val_rm (get_bits ins 11 7)
        (arm_read_register p (get_bits ins 11 8)) (get_bit (arm_read_cpsr p) flag_c) carry in
    value-if (get_bit ins 25 == 0) (data_processing_operand p ins f carry)
      (data_processing_immediate_operand p ins f)
      (hf val_rn s.operand val_rn-lt (
        operand-lt (get_bits ins 6 4) val_rm (get_bits ins 11 7)
          (arm_read_register p (get_bits ins 11 8)) (get_bit (arm_read_cpsr p) flag_c) carry
          (arm_read_register-lt p (get_bits ins 3 0) h)))
      (hf val_rn immediate val_rn-lt
        (ror-lt (get_bits ins 7 0) (get_bits ins 11 8 * 2) (get_bits_byte-lt ins)))

update_flag-lt :
    (flag given wanted status : ℕ)
    → flag < 32
    → 2 ^ flag < 2 ^ 32
    → status < 2 ^ 32
    → update_flag flag given wanted status < 2 ^ 32
unfolding update_flag
update_flag-lt flag given wanted status hf hp h =
    ground (arith, set_bit-lt status flag h hp, clr_bit-lt status flag)

zncv-lt :
    (overflow carry value o_v ca status : ℕ)
    → status < 2 ^ 32
    → zncv overflow carry value o_v ca status < 2 ^ 32
unfolding zncv
zncv-lt overflow carry value o_v ca status h =
    update_flag-lt flag_v overflow o_v _ (omega arith) (omega arith)
      (update_flag-lt flag_c carry ca _ (omega arith) (omega arith) (updates value status h))
  where
    updates : (value status : ℕ) → status < 2 ^ 32 → update_n value (update_z value status) < 2 ^ 32
    updates value status h =
        unfold update_n update_z in
        ground (
          arith,
          set_bit-lt status flag_z h,
          clr_bit-lt status flag_z,
          set_bit-lt (set_bit status flag_z) flag_n,
          set_bit-lt (clr_bit status flag_z) flag_n,
          clr_bit-lt (set_bit status flag_z) flag_n,
          clr_bit-lt (clr_bit status flag_z) flag_n,
        )

zncv_update-Keeps :
    (p : ArmCore) (overflow carry value o_v ca status : ℕ)
    → IsWordCore p
    → status < 2 ^ 32
    → Keeps p (zncv_update p overflow carry value o_v ca status)
unfolding zncv_update
zncv_update-Keeps p overflow carry value o_v ca status h hs =
    arm_write_cpsr-Keeps p (zncv overflow carry value o_v ca status) h
      (zncv-lt overflow carry value o_v ca status hs)

update_status-Keeps :
    (p : ArmCore) (rd : ℕ) (s : Bool) (overflow carry value o_v status : ℕ)
    → IsWordCore p
    → status < 2 ^ 32
    → Keeps p (update_status p rd s overflow carry value o_v status)
unfolding update_status
update_status-Keeps p rd s overflow carry value o_v status h hs =
    Keeps-if s
      (Keeps-if (not (rd == 15)) (zncv_update-Keeps p overflow carry value o_v 1 status h hs) (
        Keeps-if (arm_current_mode_has_spsr p)
          (arm_write_cpsr-Keeps p (arm_read_spsr p) h (arm_read_spsr-lt p h)) (Keeps-refl h)))
      (Keeps-refl h)

with_result-Keeps :
    (p : ArmCore) (ins written value overflow carry o_v : ℕ)
    → IsWordCore p
    → written < 2 ^ 32
    → Keeps p (with_result p ins written value overflow carry o_v)
unfolding with_result
with_result-Keeps p ins written value overflow carry o_v h hw =
    let first = arm_write_register-Keeps p (get_bits ins 15 12) written h hw in
    Keeps-trans first (
      update_status-Keeps (arm_write_register p (get_bits ins 15 12) written) (get_bits ins 15 12)
        (bit_set ins 20) overflow carry value o_v (arm_read_cpsr p) first.word
        (arm_read_cpsr-lt p h))

-- The cases of the `switch`, one for each way to use the operand.
module _ (p : ArmCore) (ins : ℕ) (operand : (ℕ → ℕ → ℕ) → Computed) (h : IsWordCore p)
    (bound : (f : ℕ → ℕ → ℕ) → IsWordOperator f → (operand f).value < 2 ^ 32) where
  logical :
      (f : ℕ → ℕ → ℕ)
      → IsWordOperator f
      → let r = operand f in Keeps p (with_result p ins r.value r.value r.overflow r.carry 0)
  logical f hf =
      let r = operand f in
      with_result-Keeps p ins r.value r.value r.overflow r.carry 0 h (bound f hf)

  added :
      let r = operand add in Keeps p (with_result p ins r.value r.value r.overflow r.carry_from 1)
  added =
      let r = operand add in
      with_result-Keeps p ins r.value r.value r.overflow r.carry_from 1 h (bound add add-lt)

  taken :
      (f : ℕ → ℕ → ℕ)
      → IsWordOperator f
      → let r = operand f in
        Keeps p (with_result p ins r.value r.value r.overflow (bit_not r.carry_from) 1)
  taken f hf =
      let r = operand f in
      with_result-Keeps p ins r.value r.value r.overflow (bit_not r.carry_from) 1 h (bound f hf)

  with_carry :
      (sum overflow carry : ℕ)
      → Keeps p (with_result p ins (sum % 2 ^ 32) (sum % 2 ^ 32) overflow carry 1)
  with_carry sum overflow carry =
      with_result-Keeps p ins (sum % 2 ^ 32) (sum % 2 ^ 32) overflow carry 1 h (omega arith)

  negated :
      let r = operand mov in
      Keeps p (with_result p ins (bit_not r.value) r.value r.overflow r.carry 0)
  negated =
      let r = operand mov in
      with_result-Keeps p ins (bit_not r.value) r.value r.overflow r.carry 0 h (omega arith)

  flags :
      (overflow carry value o_v : ℕ)
      → Keeps p (zncv_update p overflow carry value o_v 1 (arm_read_cpsr p))
  flags overflow carry value o_v =
      zncv_update-Keeps p overflow carry value o_v 1 (arm_read_cpsr p) h (arm_read_cpsr-lt p h)

  carried :
      (f : ℕ → ℕ → ℕ) (carry : ℕ)
      → Keeps p (zncv_update p (operand f).overflow carry (operand f).value 1 1 (arm_read_cpsr p))
  carried f carry = flags (operand f).overflow carry (operand f).value 1

  tested :
      (f : ℕ → ℕ → ℕ)
      → let r = operand f in
        Keeps p (zncv_update p r.overflow r.carry r.value 0 1 (arm_read_cpsr p))
  tested f = let r = operand f in flags r.overflow r.carry r.value 0

  by_opcode-Keeps : (opcode : ℕ) → Keeps p (by_opcode p ins opcode operand)
  unfolding by_opcode
  by_opcode-Keeps opcode =
      let c = get_bit (arm_read_cpsr p) flag_c in
      let back = λ (f : ℕ → ℕ → ℕ).
        let r = operand f in
        with_carry (r.value + 2 ^ 32 - bit_not c) r.overflow (bit_not r.carry_from) in
      let sum = operand add in
      Keeps-if (opcode == 0) (logical logical_and logical_and-lt) (
        Keeps-if (opcode == 1) (logical logical_eor logical_eor-lt) (
          Keeps-if (opcode == 2) (taken sub sub-lt) (
            Keeps-if (opcode == 3) (taken rsb rsb-lt) (
              Keeps-if (opcode == 4) added (
                Keeps-if (opcode == 5) (with_carry (sum.value + c) sum.overflow sum.carry_from) (
                  Keeps-if (opcode == 6) (back sub) (
                    Keeps-if (opcode == 7) (back rsb) (
                      Keeps-if (opcode == 8) (tested logical_and) (
                        Keeps-if (opcode == 9) (tested logical_eor) (
                          Keeps-if (opcode == 10) (carried sub (bit_not (operand sub).carry_from)) (
                            Keeps-if (opcode == 11) (carried add sum.carry_from) (
                              Keeps-if (opcode == 12) (logical logical_or logical_or-lt) (
                                Keeps-if (opcode == 13) (logical mov mov-lt) (
                                  Keeps-if (opcode == 14) (logical bic bic-lt) negated))))))))))))))

-- A data processing instruction, whichever its opcode, operand and destination, leaves 32-bit words
-- in every cell, the size and the byte order of the memory and the cycle count, where the cells held 32-bit
-- words.
pub arm_data_processing_shift-Keeps :
    (p : ArmCore) (ins : ℕ) → IsWordCore p → Keeps p (arm_data_processing_shift p ins)
unfolding arm_data_processing_shift
arm_data_processing_shift-Keeps p ins h =
    let carry = get_bit (arm_read_cpsr p) flag_c in
    by_opcode-Keeps p ins (λ f. operand_type p ins f carry) h
      (λ f hf. operand_type-lt p ins f carry h hf) (get_bits ins 24 21)
