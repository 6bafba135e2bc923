-- ===== src/Util/Laws.antt =====
-- The bit macros as arithmetic.
use l3_info_simulateur_arm.Base.{ℕ, suc, ◌+◌, ◌-◌, ◌*◌, ◌/◌, ◌%◌, ◌^◌, ◌≤◌, ◌<◌, bit_and, bit_or}
use l3_info_simulateur_arm.Base.{◌≡◌, arith, bit_or_pow, bit_and_pow, bit_or_split, bit_or_fields}
use l3_info_simulateur_arm.Base.{fields_bit_or, bit_or-zero}
use mathlib.Core.Path.{subst}
use native.Mathlib.Nat.{pow-le-pow_right, mod-lt, mod-eq_of_lt, one-le-pow}
use l3_info_simulateur_arm.Base.{sym}
use l3_info_simulateur_arm.Util.{get_bit, set_bit, clr_bit, set_bits, reverse_2, reverse_4, u32}

pub set_bit_lem : (x i : ℕ) → set_bit x i ≡ x + (1 - get_bit x i) * 2 ^ i
unfolding set_bit get_bit
set_bit_lem x i = bit_or_pow i x

-- `clr_bit` on a 32-bit word and a bit below 32 takes the bit away where it is set, and nothing
-- where it is not.
pub clr_bit_lem : (x i : ℕ) → i < 32 → x < 2 ^ 32 → clr_bit x i ≡ x - get_bit x i * 2 ^ i
unfolding clr_bit get_bit
clr_bit_lem x i h hx =
    let whole : i + suc (31 - i) ≡ 32 = omega arith in
    subst (λ w. bit_and x (2 ^ w - 1 - 2 ^ i) ≡ x - x / 2 ^ i % 2 * 2 ^ i) whole
      (bit_and_pow i (31 - i) x (subst (λ w. x < 2 ^ w) (sym whole) hx))

-- A low field, a middle field over it and a high field, put together by `|`.
bit_or_three :
    (m l top bits low : ℕ)
    → low < 2 ^ l
    → bits * 2 ^ l < 2 ^ m
    → low < 2 ^ m
    → bit_or (bit_or low (top * 2 ^ m)) (bits * 2 ^ l) ≡ top * 2 ^ m + bits * 2 ^ l + low
bit_or_three m l top bits low hl hb hm = ground (
  arith,
  fields_bit_or m top low,
  bit_or_split m top 0 low (bits * 2 ^ l),
  bit_or-zero top,
  fields_bit_or l bits low,
)

-- `set_bits` replaces the bits from `l` to `h` and keeps the others, where `l` is at most `h`, `h` is
-- below 32 and the new bits fit the field.
pub set_bits_lem :
    (x h l bits : ℕ)
    → l ≤ h
    → h < 32
    → bits * 2 ^ l < 2 ^ (h + 1)
    → set_bits x h l bits ≡ x / 2 ^ (h + 1) * 2 ^ (h + 1) + bits * 2 ^ l + x % 2 ^ l
unfolding set_bits
set_bits_lem x h l bits lh hh hb =
    let powers : 2 ^ (h + 1) ≤ 2 ^ 32 = pow-le-pow_right (omega arith) {j = 32} (omega arith) in
    let below : 2 ^ l ≤ 2 ^ (h + 1) = pow-le-pow_right (omega arith) (omega arith) in
    let low : x % 2 ^ l < 2 ^ l = mod-lt x (one-le-pow l 2 (omega arith)) in
    let fits : u32 (bits * 2 ^ l) ≡ bits * 2 ^ l = mod-eq_of_lt (omega arith) in
    rw fits (bit_or_three (h + 1) l (x / 2 ^ (h + 1)) bits (x % 2 ^ l) low hb (omega arith))

-- Where nothing stands above the field, the new bits may be longer than it.
pub set_bits_over :
    (x h l bits : ℕ)
    → x / 2 ^ (h + 1) ≡ 0
    → bits * 2 ^ l < 2 ^ 32
    → set_bits x h l bits ≡ bits * 2 ^ l + x % 2 ^ l
unfolding set_bits
set_bits_over x h l bits above hb =
    let low : x % 2 ^ l < 2 ^ l = mod-lt x (one-le-pow l 2 (omega arith)) in
    let fits : u32 (bits * 2 ^ l) ≡ bits * 2 ^ l = mod-eq_of_lt (omega arith) in
    rw (fits, above) (ground (arith, bit_or-zero (x % 2 ^ l), fields_bit_or l bits (x % 2 ^ l)))

pub reverse_2_lem : (x : ℕ) → reverse_2 x ≡ x % 256 * 256 + x / 256 % 256
unfolding reverse_2
reverse_2_lem x = bit_or_fields 8 (x % 2 ^ 8) (x / 2 ^ 8 % 2 ^ 8) (omega arith)

-- `reverse_4` gives the four low bytes in the opposite order.
pub reverse_4_lem :
    (x : ℕ)
    → reverse_4 x
      ≡ x % 256 * 16777216 + x / 256 % 256 * 65536 + x / 65536 % 256 * 256 + x / 16777216 % 256
unfolding reverse_4
reverse_4_lem x = ground (
  arith,
  bit_or_fields 24 (x % 2 ^ 8) (x / 2 ^ 8 % 2 ^ 8 * 2 ^ 16),
  bit_or_fields 16 (x % 2 ^ 8 * 2 ^ 8 + x / 2 ^ 8 % 2 ^ 8) (x / 2 ^ 16 % 2 ^ 8 * 2 ^ 8),
  bit_or_fields 8 (x % 2 ^ 8 * 2 ^ 16 + x / 2 ^ 8 % 2 ^ 8 * 2 ^ 8 + x / 2 ^ 16 % 2 ^ 8)
      (x / 2 ^ 24 % 2 ^ 8),
)
