-- ===== src/DataProcessing/Shifter.antt =====
-- The second operand of data processing where it is a register shifted by a constant.
use l3_info_simulateur_arm.Base.{
  ℕ, ◌-◌, ◌*◌, ◌/◌, ◌%◌, ◌^◌, ◌≤◌, ◌<◌, ◌≡◌, refl, arith, if◌then◌else◌, ◌==◌, false, Bool-cases,
  inl, inr,
}
use l3_info_simulateur_arm.Constants.{flag_c}
use l3_info_simulateur_arm.Util.{get_bit, get_bits, shl, shr}
use l3_info_simulateur_arm.Util.Shifts.{
  rotated, shifted_signed, shr-divided, shl-moved, ror-rotated, asr-shifted_signed,
}
use l3_info_simulateur_arm.Memory.Bytes.{each_byte}
use l3_info_simulateur_arm.Core.{ArmCore, arm_read_register, arm_read_cpsr}
use l3_info_simulateur_arm.Core.Keeps.{IsWordCore, arm_read_register-lt}
use l3_info_simulateur_arm.DataProcessing.Operand.{compute, shifted, data_processing_operand}

-- The shifts as bits that move: LSL, LSR, ASR and ROR, and the last bit that leaves.
unfoldable pub shift_of : ℕ → ℕ → ℕ → ℕ
shift_of kind n x =
    if kind == 0
    then x % 2 ^ (32 - n) * 2 ^ n
    else if kind == 1
    then x / 2 ^ n
    else if kind == 2
    then shifted_signed n x
    else rotated n x

unfoldable pub last_out : ℕ → ℕ → ℕ → ℕ
last_out kind n x = if kind == 0 then get_bit x (32 - n) else get_bit x (n - 1)

module _ (n x rs flag carry : ℕ) (some_shift : 1 ≤ n) (below : n < 32) (word : x < 2 ^ 32) where
  counted : (n == 0) ≡ false
  counted = ground (arith, some_shift)

  abbrev IsReference : ℕ → Type 0
  IsReference kind =
      shifted (kind * 2) x n rs flag carry
      ≡ record { operand = shift_of kind n x; carry_out = last_out kind n x }

  lsl : IsReference 0
  unfolding shifted shift_of last_out
  lsl = rw (counted, shl-moved n x some_shift below word) refl

  lsr : IsReference 1
  unfolding shifted shift_of last_out
  lsr = rw (counted, shr-divided n x some_shift below word) refl

  asr_kind : IsReference 2
  unfolding shifted shift_of last_out
  asr_kind = rw (counted, asr-shifted_signed n x some_shift below word) refl

  ror_kind : IsReference 3
  unfolding shifted shift_of last_out
  ror_kind = rw (counted, ror-rotated n x some_shift below word) refl

  shifted_lem : (kind : ℕ) → kind < 4 → IsReference kind
  shifted_lem kind h = each_byte IsReference lsl lsr asr_kind ror_kind kind h

-- A count of 0 moves nothing in LSL and LSR.
shifted_zero :
    (x rs flag carry kind : ℕ)
    → x < 2 ^ 32
    → kind < 2
    → shifted (kind * 2) x 0 rs flag carry
      ≡ record { operand = x; carry_out = if kind == 0 then flag else get_bit x 31 }
unfolding shifted shl shr
shifted_zero x rs flag carry kind word h = elim (Bool-cases (kind == 0)) [
  | inl e ↦
      let zero_kind : kind ≡ 0 = ground (arith, e) in
      let same : x * 1 % 2 ^ 32 ≡ x = omega (arith, word) in rw (zero_kind, same) refl
  | inr e ↦
      let one_kind : kind ≡ 1 = ground (arith, e, h) in
      let same : x / 1 ≡ x = omega arith in rw (one_kind, same) refl
]

champ-kind : (ins : ℕ) → get_bit ins 4 ≡ 0 → get_bits ins 6 4 ≡ get_bits ins 6 5 * 2
unfolding get_bits get_bit
champ-kind ins h = omega (arith, h)

kind-lt : (ins : ℕ) → get_bits ins 6 5 < 4
unfolding get_bits
kind-lt ins = omega arith

count-lt : (ins : ℕ) → get_bits ins 11 7 < 32
unfolding get_bits
count-lt ins = omega arith

module _ (p : ArmCore) (ins carry : ℕ) (operateur : ℕ → ℕ → ℕ) (word : IsWordCore p)
    (constant : get_bit ins 4 ≡ 0) where
  abbrev rm : ℕ
  rm = arm_read_register p (get_bits ins 3 0)

  abbrev rn : ℕ
  rn = arm_read_register p (get_bits ins 19 16)

  -- Where the second operand is a register with a shift by a constant, any operator is applied to
  -- the first operand and the shifted register. For a constant from 1 to 31 the four shifts are LSL,
  -- LSR, ASR and ROR, given by the parts of the word that move, and the carry is the last bit that
  -- leaves the word. For the constant 0, LSL and LSR both leave the register as it is; the carry is
  -- the flag for LSL and bit 31 for LSR. ASR and ROR by 0 are excluded, and the processor holds
  -- 32-bit words.
  pub data_processing_operand_shifts :
      let kind = get_bits ins 6 5 in
      let n = get_bits ins 11 7 in
      (n ≡ 0 → kind < 2)
      → data_processing_operand p ins operateur carry ≡ (
          if n == 0
          then compute operateur rn rm
              (if kind == 0 then get_bit (arm_read_cpsr p) flag_c else get_bit rm 31)
          else compute operateur rn (shift_of kind n rm) (last_out kind n rm))
  unfolding data_processing_operand
  data_processing_operand_shifts low =
      let kind = get_bits ins 6 5 in
      let n = get_bits ins 11 7 in
      let rs = arm_read_register p (get_bits ins 11 8) in
      let flag = get_bit (arm_read_cpsr p) flag_c in
      let small = arm_read_register-lt p (get_bits ins 3 0) word in
      elim (Bool-cases (n == 0)) [
        | inl e ↦
            let none : n ≡ 0 = ground (arith, e) in
            rw (champ-kind ins constant, none, shifted_zero rm rs flag carry kind small (low none))
              refl
        | inr e ↦
            let some_shift : 1 ≤ n = ground (arith, e) in
            rw
              (
                champ-kind ins constant,
                shifted_lem n rm rs flag carry some_shift (count-lt ins) small kind (kind-lt ins),
                e,
              )
              refl
      ]
