-- ===== src/Util/Shifts.antt =====
-- The shifts of util.h by a computed count from 1 to 31, as arithmetic.
use l3_info_simulateur_arm.Base.{
  ℕ, ◌+◌, ◌-◌, ◌*◌, ◌/◌, ◌%◌, ◌^◌, ◌≤◌, ◌<◌, ◌≡◌, ◌∙◌, refl, sym, ap, arith, if◌then◌else◌, ◌==◌,
  Bool-cases, inl, inr, bit_or-zero, fields_bit_or, pow-add,
}
use native.Mathlib.Nat.{
  mod-lt, one-le-pow, add-mul, mul_assoc, div-add-mod', add-mul-mod_self_right, mod-eq_of_lt,
  mul-lt-mul_of_pos_right, pow-le-pow_right, div-lt_iff_lt-mul,
}
use l3_info_simulateur_arm.Util.{sub32, shl, shr, asr, ror, get_bit, bit_set}

-- A word in two parts, of which the low one has `n` bits.
module _ (n m x : ℕ) (whole : n + m ≡ 32) (word : x < 2 ^ 32) where
  powers : 2 ^ n * 2 ^ m ≡ 2 ^ 32
  powers = sym (pow-add n m) ∙ ap (λ k. 2 ^ k) whole

  quotient-lt : x / 2 ^ n < 2 ^ m
  quotient-lt =
      let turned : m + n ≡ 32 = omega (arith, whole) in
      let product : 2 ^ m * 2 ^ n ≡ 2 ^ 32 = sym (pow-add m n) ∙ ap (λ k. 2 ^ k) turned in
      (div-lt_iff_lt-mul (one-le-pow n 2 (omega arith))).1 (omega (arith, word, product))

  shl_low : x * 2 ^ m % 2 ^ 32 ≡ x % 2 ^ n * 2 ^ m
  shl_low =
      let q = x / 2 ^ n in
      let r = x % 2 ^ n in
      let high : q * 2 ^ n * 2 ^ m ≡ q * 2 ^ 32 =
        mul_assoc q (2 ^ n) (2 ^ m) ∙ ap (λ (k : ℕ). q * k) powers in
      let split : x * 2 ^ m ≡ r * 2 ^ m + q * 2 ^ 32 =
        ap (λ (t : ℕ). t * 2 ^ m) (sym (div-add-mod' x (2 ^ n)))
        ∙ add-mul (q * 2 ^ n) r (2 ^ m)
        ∙ omega (arith, high) in
      let small : r * 2 ^ m < 2 ^ n * 2 ^ m =
        mul-lt-mul_of_pos_right (mod-lt x (one-le-pow n 2 (omega arith)))
          (one-le-pow m 2 (omega arith)) in
      ap (λ t. t % 2 ^ 32) split
      ∙ add-mul-mod_self_right (r * 2 ^ m) q (2 ^ 32)
      ∙ mod-eq_of_lt (omega (arith, small, powers))

  ones : (2 ^ n - 1) * 2 ^ m ≡ 2 ^ 32 - 2 ^ m
  ones =
      let pos : 1 ≤ 2 ^ n = one-le-pow n 2 (omega arith) in
      let whole_n : 2 ^ n - 1 + 1 ≡ 2 ^ n = omega (arith, pos) in
      omega (arith, add-mul (2 ^ n - 1) 1 (2 ^ m), ap (λ (k : ℕ). k * 2 ^ m) whole_n, powers)

  minus_one_low : (2 ^ 32 - 1) * 2 ^ m % 2 ^ 32 ≡ (2 ^ n - 1) * 2 ^ m
  minus_one_low =
      let pos : 1 ≤ 2 ^ m = one-le-pow m 2 (omega arith) in
      let pos' : 1 ≤ 2 ^ n = one-le-pow n 2 (omega arith) in
      let le : 2 ^ m ≤ 2 ^ 32 = pow-le-pow_right (omega arith) {j = 32} (omega (arith, whole)) in
      omega (arith, pos, ones, le)

-- The references: a rotation to the right, and a shift to the right that the sign fills.
unfoldable pub rotated : ℕ → ℕ → ℕ
rotated n x = x / 2 ^ n + x % 2 ^ n * 2 ^ (32 - n)

unfoldable pub shifted_signed : ℕ → ℕ → ℕ
shifted_signed n x = x / 2 ^ n + (if bit_set x 31 then (2 ^ n - 1) * 2 ^ (32 - n) else 0)

module _ (n x : ℕ) (some_shift : 1 ≤ n) (below : n < 32) (word : x < 2 ^ 32) where
  count : n % 32 ≡ n
  count = omega (arith, below)

  rest : sub32 32 n % 32 ≡ 32 - n
  rest = omega (arith, below, some_shift)

  whole : n + (32 - n) ≡ 32
  whole = omega (arith, below)

  pub shr-divided : shr x n ≡ x / 2 ^ n
  unfolding shr
  shr-divided = rw count refl

  pub shl-moved : shl x n ≡ x % 2 ^ (32 - n) * 2 ^ n
  unfolding shl
  shl-moved = rw count (shl_low (32 - n) n x (omega (arith, below)) word)

  pub ror-rotated : ror x n ≡ rotated n x
  unfolding ror shl shr rotated
  ror-rotated =
      rw (count, rest, shl_low n (32 - n) x whole word)
        (fields_bit_or (32 - n) (x % 2 ^ n) (x / 2 ^ n) (quotient-lt n (32 - n) x whole word)
          ∙ omega arith)

  pub asr-shifted_signed : asr x n ≡ shifted_signed n x
  unfolding asr shl shr shifted_signed
  asr-shifted_signed =
      rw (count, rest, minus_one_low n (32 - n) x whole word)
        (elim (Bool-cases (get_bit x 31 == 1)) [
          | inl e ↦ rw e (
              fields_bit_or (32 - n) (2 ^ n - 1) (x / 2 ^ n) (quotient-lt n (32 - n) x whole word)
              ∙ omega arith)
          | inr e ↦ rw e (bit_or-zero (x / 2 ^ n) ∙ omega arith)
        ])
