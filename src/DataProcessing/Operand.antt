-- ===== src/DataProcessing/Operand.antt =====
-- arm_data_processing.c: the operators, and the two forms of the second operand.
use l3_info_simulateur_arm.Base.{ℕ, ◌-◌, ◌*◌, ◌&&◌, ◌||◌, not, ◌==◌, ltb, leb, if◌then◌else◌}
use l3_info_simulateur_arm.Base.{bit_and, bit_or, bit_xor}
use l3_info_simulateur_arm.Constants.{flag_c}
use l3_info_simulateur_arm.Util.{u8, add32, bit_not, shl, shr, get_bit, get_bits, asr, ror}
use l3_info_simulateur_arm.Core.{ArmCore, arm_read_register, arm_read_cpsr}

unfoldable pub logical_and : ℕ → ℕ → ℕ
logical_and val_rn shifter_operand = bit_and val_rn shifter_operand

unfoldable pub logical_eor : ℕ → ℕ → ℕ
logical_eor val_rn shifter_operand = bit_xor val_rn shifter_operand

unfoldable pub sub : ℕ → ℕ → ℕ
sub val_rn shifter_operand = add32 val_rn (add32 (bit_not shifter_operand) 1)

unfoldable pub rsb : ℕ → ℕ → ℕ
rsb val_rn shifter_operand = add32 shifter_operand (add32 (bit_not val_rn) 1)

unfoldable pub add : ℕ → ℕ → ℕ
add val_rn shifter_operand = add32 val_rn shifter_operand

unfoldable pub logical_or : ℕ → ℕ → ℕ
logical_or val_rn shifter_operand = bit_or val_rn shifter_operand

unfoldable pub mov : ℕ → ℕ → ℕ
mov val_rn shifter_operand = shifter_operand

unfoldable pub bic : ℕ → ℕ → ℕ
bic val_rn shifter_operand = bit_and val_rn (bit_not shifter_operand)

-- The value that is returned and what is stored through the three pointers.
pub record Computed : Type 0 where
  pub value : ℕ
  pub overflow : ℕ
  pub carry : ℕ
  pub carry_from : ℕ

-- The end that both forms share.
unfoldable pub compute : (ℕ → ℕ → ℕ) → ℕ → ℕ → ℕ → Computed
compute operateur val_rn shifter_operand carry =
    let value = operateur val_rn shifter_operand in
    record {
      value = value;
      overflow =
          if get_bit shifter_operand 31 == get_bit val_rn 31
            && not (get_bit value 31 == get_bit shifter_operand 31)
          then 1
          else 0;
      carry = carry;
      carry_from = if ltb value shifter_operand || ltb value val_rn then 1 else 0;
    }

unfoldable pub data_processing_immediate_operand : ArmCore → ℕ → (ℕ → ℕ → ℕ) → Computed
unfolding compute
data_processing_immediate_operand p ins operateur =
    let immediate = get_bits ins 7 0 in
    let rotate = get_bits ins 11 8 in
    let val_rn = arm_read_register p (get_bits ins 19 16) in
    let shifter_operand = ror immediate (rotate * 2) in
    compute operateur val_rn shifter_operand
      (if rotate == 0 then get_bit (arm_read_cpsr p) flag_c else get_bit shifter_operand 31)

-- The carry and the operand of each of the eight shifts, from the value of `rm`, the count in the
-- instruction, the value of `rs` and the carry flag. `carry` is what `*Carry` held before.
pub record Shifted : Type 0 where
  pub operand : ℕ
  pub carry_out : ℕ

unfoldable pub shifted : ℕ → ℕ → ℕ → ℕ → ℕ → ℕ → Shifted
shifted champ val_rm shift_value val_rs flag carry =
    let low = get_bits val_rs 7 0 in
    let right_out =
      if shift_value == 0 then get_bit val_rm 31 else get_bit val_rm (shift_value - 1) in
    let right_reg_out =
      if low == 0 then flag else if leb low 32 then get_bit val_rm (low - 1) else 0 in
    if champ == 0
    then record {
      operand = shl val_rm shift_value;
      carry_out = if shift_value == 0 then flag else get_bit val_rm (32 - shift_value);
    }
    else if champ == 1
    then record {
      operand = shl val_rm val_rs;
      carry_out = if low == 0 then flag else if leb low 32 then get_bit val_rm (32 - low) else 0;
    }
    else if champ == 2
    then record { operand = shr val_rm shift_value; carry_out = right_out }
    else if champ == 3
    then record { operand = shr val_rm val_rs; carry_out = right_reg_out }
    else if champ == 4
    then record { operand = asr val_rm shift_value; carry_out = right_out }
    else if champ == 5
    then record { operand = asr val_rm (u8 val_rs); carry_out = right_reg_out }
    else if champ == 6
    then record {
      operand = ror val_rm shift_value;
      carry_out = if shift_value == 0 then carry else get_bit val_rm (shift_value - 1);
    }
    else record {
      operand = ror val_rm (u8 val_rs);
      carry_out =
          if low == 0
          then flag
          else if get_bits val_rs 4 0 == 0
          then get_bit val_rm 31
          else get_bit val_rm (get_bits val_rs 4 0 - 1);
    }

unfoldable pub data_processing_operand : ArmCore → ℕ → (ℕ → ℕ → ℕ) → ℕ → Computed
unfolding compute shifted
data_processing_operand p ins operateur carry =
    let val_rm = arm_read_register p (get_bits ins 3 0) in
    let val_rs = arm_read_register p (get_bits ins 11 8) in
    let s =
      shifted (get_bits ins 6 4) val_rm (get_bits ins 11 7) val_rs
        (get_bit (arm_read_cpsr p) flag_c) carry in
    compute operateur (arm_read_register p (get_bits ins 19 16)) s.operand s.carry_out
