-- ===== src/Util/Bounds.antt =====
-- The results of the bit macros fit 32 bits.
use native.Mathlib.Nat.{div-le_self}
use l3_info_simulateur_arm.Base.{ℕ, ◌+◌, ◌-◌, ◌*◌, ◌/◌, ◌%◌, ◌^◌, ◌≤◌, ◌<◌, arith, if◌then◌else◌}
use l3_info_simulateur_arm.Base.{bit_or-lt, bit_and-le}
use native.Mathlib.Nat.{mod-le, div-mul-le_self}
use l3_info_simulateur_arm.Util.{
  shl, shr, get_bit, set_bit, clr_bit, set_bits, asr, ror, bit_set, minus_one, sub32,
}

pub set_bit-lt : (x i : ℕ) → x < 2 ^ 32 → 2 ^ i < 2 ^ 32 → set_bit x i < 2 ^ 32
unfolding set_bit
set_bit-lt x i h hi = bit_or-lt 32 x (2 ^ i) h hi

pub clr_bit-lt : (x i : ℕ) → clr_bit x i < 2 ^ 32
unfolding clr_bit
clr_bit-lt x i = omega (arith, bit_and-le x (2 ^ 32 - 1 - 2 ^ i))

pub shl-lt : (x k : ℕ) → shl x k < 2 ^ 32
unfolding shl
shl-lt x k = omega arith

pub shr-lt : (x k : ℕ) → x < 2 ^ 32 → shr x k < 2 ^ 32
unfolding shr
shr-lt x k h = omega (arith, div-le_self x (2 ^ (k % 32)))

pub asr-lt : (x k : ℕ) → x < 2 ^ 32 → asr x k < 2 ^ 32
unfolding asr
asr-lt x k h =
    bit_or-lt 32 (shr x k) (if bit_set x 31 then shl minus_one (sub32 32 k) else 0) (shr-lt x k h)
      (ground (arith, shl-lt minus_one (sub32 32 k)))

pub ror-lt : (x k : ℕ) → x < 2 ^ 32 → ror x k < 2 ^ 32
unfolding ror
ror-lt x k h = bit_or-lt 32 (shr x k) (shl x (sub32 32 k)) (shr-lt x k h) (shl-lt x (sub32 32 k))

pub set_bits-lt : (x h l bits : ℕ) → x < 2 ^ 32 → set_bits x h l bits < 2 ^ 32
unfolding set_bits
set_bits-lt x h l bits hx =
    bit_or-lt 32 _ _
      (bit_or-lt 32 (x % 2 ^ l) (x / 2 ^ (h + 1) * 2 ^ (h + 1)) (omega (arith, mod-le x (2 ^ l)))
        (omega (arith, div-mul-le_self x (2 ^ (h + 1)))))
      (omega arith)

pub get_bit-le : (x i : ℕ) → get_bit x i ≤ 1
unfolding get_bit
get_bit-le x i = omega arith
