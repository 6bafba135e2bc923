-- ===== src/Base/Digits.antt =====
-- The bitwise operations digit by digit: what they do to the lowest bit, and to two fields.
use Prim.Native.Nat.{ℕ, zero, suc, ◌+◌, ◌-◌, ◌*◌, ◌/◌, ◌%◌, ◌^◌, ◌≤◌, ◌<◌, min, max}
use Prim.Native.Nat.{
  differ, bit_and, bit_or, bit_xor, digits, bitwise, bit_and-bitwise, bit_or-bitwise,
  bit_xor-bitwise,
}
use mathlib.Core.Path.{◌≡◌, ◌∙◌, refl, sym, ap, subst}
use native.Mathlib.Nat.{
  pow-suc, one-le-pow, div-add-mod', mod-lt, div-lt_iff_lt-mul, add-zero, add-suc,
}
use mathlib.Core.Logic.{◌⊎◌, inl, inr}
use native.Mathlib.Omega.{arith}

-- `rest` is the value on what is left of the second word where the first is 0, and `digit` the
-- operation on two digits.
module _ (rest : ℕ → ℕ) (digit : ℕ → ℕ → ℕ) where
  last_round : {x rounds : ℕ} → x ≤ suc rounds → (x < suc rounds) ⊎ (x ≡ suc rounds)
  last_round fits = ground arith

  -- A round beyond the first word's own value changes nothing.
  one_round :
      (rounds x y : ℕ)
      → x ≤ rounds
      → digits rest digit rounds x y ≡ digits rest digit (suc rounds) x y
  one_round zero x y fits = let none : x ≡ 0 = omega arith in rw none
  one_round (suc rounds) zero y fits = refl
  one_round (suc rounds) (suc x) y fits =
      ap (λ high. high * 2 + digit (suc x % 2) (y % 2))
        (one_round rounds (suc x / 2) (y / 2) (omega arith))

  more_rounds :
      (rounds x y : ℕ) → x ≤ rounds → digits rest digit x x y ≡ digits rest digit rounds x y
  more_rounds zero x y fits = let none : x ≡ 0 = omega arith in rw none
  more_rounds (suc rounds) x y fits = elim (last_round fits) [
    | inl below ↦ more_rounds rounds x y (omega arith) ∙ one_round rounds x y (omega arith)
    | inr all ↦ rw all refl
  ]

  lowest_digit :
      ((y : ℕ) → rest y ≡ rest (y / 2) * 2 + digit 0 (y % 2))
      → (x y : ℕ)
      → bitwise rest digit x y ≡ bitwise rest digit (x / 2) (y / 2) * 2 + digit (x % 2) (y % 2)
  lowest_digit base zero y = base y
  lowest_digit base (suc x) y =
      ap (λ high. high * 2 + digit (suc x % 2) (y % 2))
        (sym (more_rounds x (suc x / 2) (y / 2) (omega arith)))

pub bit_or_step : (x y : ℕ) → bit_or x y ≡ bit_or (x / 2) (y / 2) * 2 + max (x % 2) (y % 2)
bit_or_step x y = omega (
  arith,
  lowest_digit (λ y. y) max (λ y. omega arith) x y,
  bit_or-bitwise x y,
  bit_or-bitwise (x / 2) (y / 2),
)

pub bit_and_step : (x y : ℕ) → bit_and x y ≡ bit_and (x / 2) (y / 2) * 2 + min (x % 2) (y % 2)
bit_and_step x y = omega (
  arith,
  lowest_digit (λ y. 0) min (λ y. omega arith) x y,
  bit_and-bitwise x y,
  bit_and-bitwise (x / 2) (y / 2),
)

pub bit_xor_step : (x y : ℕ) → bit_xor x y ≡ bit_xor (x / 2) (y / 2) * 2 + differ (x % 2) (y % 2)
bit_xor_step x y = omega (
  arith,
  lowest_digit (λ y. y) differ (λ y. omega arith) x y,
  bit_xor-bitwise x y,
  bit_xor-bitwise (x / 2) (y / 2),
)

zero-bit_or : (b : ℕ) → bit_or 0 b ≡ b
zero-bit_or b = bit_or-bitwise 0 b

-- A second word of 0, by rounds on the digits of the first.
no_digits : (bound x : ℕ) → x ≤ bound → (bit_or x 0 ≡ x) × (bit_and x 0 ≡ 0)
no_digits bound zero within = (refl, refl)
no_digits zero (suc x) within = absurd (omega arith)
no_digits (suc bound) (suc x) within =
    let higher = no_digits bound (suc x / 2) (omega arith) in
    (
      omega (arith, bit_or_step (suc x) 0, higher.0),
      omega (arith, bit_and_step (suc x) 0, higher.1),
    )

pub bit_or-zero : (x : ℕ) → bit_or x 0 ≡ x
bit_or-zero x = (no_digits x x (omega arith)).0

pub bit_and-zero : (x : ℕ) → bit_and x 0 ≡ 0
bit_and-zero x = (no_digits x x (omega arith)).1

pub mul-pow-suc : (q k : ℕ) → q * 2 ^ suc k ≡ 2 * (q * 2 ^ k)
mul-pow-suc q k = omega (arith, ap (λ (t : ℕ). q * t) (pow-suc 2 k))

-- `|` works on a high and a low field apart.
pub bit_or_split :
    (k a b r s : ℕ)
    → r < 2 ^ k
    → s < 2 ^ k
    → bit_or (a * 2 ^ k + r) (b * 2 ^ k + s) ≡ bit_or a b * 2 ^ k + bit_or r s
bit_or_split zero a b r s hr hs =
    let no_r : r ≡ 0 = omega arith in
    let no_s : s ≡ 0 = omega arith in ground (arith, bit_or-zero 0)
bit_or_split (suc k) a b r s hr hs = ground (
  arith,
  bit_or_step (a * 2 ^ suc k + r) (b * 2 ^ suc k + s),
  bit_or_step r s,
  mul-pow-suc a k,
  mul-pow-suc b k,
  mul-pow-suc (bit_or a b) k,
  pow-suc 2 k,
  bit_or_split k a b (r / 2) (s / 2) (omega (arith, pow-suc 2 k)) (omega (arith, pow-suc 2 k)),
)

-- A value whose bits lie above those of the other is added.
pub bit_or_fields : (k q r : ℕ) → r < 2 ^ k → bit_or (q * 2 ^ k) r ≡ q * 2 ^ k + r
bit_or_fields k q r h =
    ground (arith, one-le-pow k 2, bit_or_split k q 0 0 r, bit_or-zero q, zero-bit_or r)

pub fields_bit_or : (k q r : ℕ) → r < 2 ^ k → bit_or r (q * 2 ^ k) ≡ q * 2 ^ k + r
fields_bit_or k q r h =
    ground (arith, one-le-pow k 2, bit_or_split k 0 q r 0, bit_or-zero r, zero-bit_or q)

-- A value that fits `k` bits keeps within them under `|`.
pub bit_or-lt : (k r s : ℕ) → r < 2 ^ k → s < 2 ^ k → bit_or r s < 2 ^ k
bit_or-lt zero r s hr hs =
    let no_r : r ≡ 0 = omega arith in
    let no_s : s ≡ 0 = omega arith in ground (arith, bit_or-zero 0)
bit_or-lt (suc k) r s hr hs =
    let less : bit_or (r / 2) (s / 2) < 2 ^ k =
      bit_or-lt k (r / 2) (s / 2) (omega (arith, pow-suc 2 k)) (omega (arith, pow-suc 2 k)) in
    omega (arith, bit_or_step r s, pow-suc 2 k)

-- `&` gives no more than either side.
bit_and-le_fuel : (n a b : ℕ) → a ≤ n → bit_and a b ≤ b
bit_and-le_fuel n zero b h = rw (bit_and-bitwise 0 b) (omega arith)
bit_and-le_fuel zero (suc a) b h = absurd (omega arith)
bit_and-le_fuel (suc n) (suc a) b h =
    omega (arith, bit_and_step (suc a) b, bit_and-le_fuel n (suc a / 2) (b / 2) (omega arith))

pub bit_and-le : (a b : ℕ) → bit_and a b ≤ b
bit_and-le a b = bit_and-le_fuel a a b (omega arith)

-- `&` works on a high and a low field apart.
pub bit_and_split :
    (k a b r s : ℕ)
    → r < 2 ^ k
    → s < 2 ^ k
    → bit_and (a * 2 ^ k + r) (b * 2 ^ k + s) ≡ bit_and a b * 2 ^ k + bit_and r s
bit_and_split zero a b r s hr hs =
    let no_r : r ≡ 0 = omega arith in
    let no_s : s ≡ 0 = omega arith in ground (arith, bit_and-zero 0)
bit_and_split (suc k) a b r s hr hs = ground (
  arith,
  bit_and_step (a * 2 ^ suc k + r) (b * 2 ^ suc k + s),
  bit_and_step r s,
  mul-pow-suc a k,
  mul-pow-suc b k,
  mul-pow-suc (bit_and a b) k,
  pow-suc 2 k,
  bit_and_split k a b (r / 2) (s / 2) (omega (arith, pow-suc 2 k)) (omega (arith, pow-suc 2 k)),
)

-- A mask of `k` ones keeps what fits `k` bits, and is the remainder by `2 ^ k`.
pub bit_and_ones : (k r : ℕ) → r < 2 ^ k → bit_and r (2 ^ k - 1) ≡ r
bit_and_ones zero r h = rw (bit_and-zero r) (omega arith)
bit_and_ones (suc k) r h = ground (
  arith,
  bit_and_step r (2 ^ suc k - 1),
  pow-suc 2 k,
  one-le-pow k 2,
  bit_and_ones k (r / 2) (omega (arith, pow-suc 2 k)),
)

pub bit_and_mask : (k a : ℕ) → bit_and a (2 ^ k - 1) ≡ a % 2 ^ k
bit_and_mask k a = ground (
  arith,
  one-le-pow k 2,
  bit_and_split k (a / 2 ^ k) 0 (a % 2 ^ k) (2 ^ k - 1),
  bit_and-zero (a / 2 ^ k),
  bit_and_ones k (a % 2 ^ k),
)

bit_or-one : (q : ℕ) → bit_or q 1 ≡ q + (1 - q % 2)
bit_or-one q = omega (arith, bit_or_step q 1, bit_or-zero (q / 2))

bit_or_pow_fields :
    (i q r : ℕ) → r < 2 ^ i → bit_or (q * 2 ^ i + r) (2 ^ i) ≡ q * 2 ^ i + r + (1 - q % 2) * 2 ^ i
bit_or_pow_fields i q r h = ground (
  arith,
  one-le-pow i 2,
  bit_or_split i q 1 r 0,
  bit_or-zero r,
  ap (λ (t : ℕ). t * 2 ^ i) (bit_or-one q),
)

-- Setting bit `i` adds it where it is missing.
pub bit_or_pow : (i x : ℕ) → bit_or x (2 ^ i) ≡ x + (1 - x / 2 ^ i % 2) * 2 ^ i
bit_or_pow i x =
    subst (λ y. bit_or y (2 ^ i) ≡ y + (1 - x / 2 ^ i % 2) * 2 ^ i) (div-add-mod' x (2 ^ i))
      (bit_or_pow_fields i (x / 2 ^ i) (x % 2 ^ i) (mod-lt x (one-le-pow i 2 (omega arith))))

pub pow-add : (a b : ℕ) → 2 ^ (a + b) ≡ 2 ^ a * 2 ^ b
pow-add a zero = rw add-zero (omega arith)
pow-add a (suc b) = rw (add-suc, pow-suc 2 (a + b), pow-suc 2 b, pow-add a b) (omega arith)

bit_and_even : (v q : ℕ) → q < 2 ^ suc v → bit_and q (2 ^ suc v - 2) + q % 2 ≡ q
bit_and_even v q h =
    ground
      (arith, pow-suc 2 v, one-le-pow v 2, bit_and_step q (2 ^ suc v - 2), bit_and_ones v (q / 2))

bit_and_pow_fields :
    (i v q r : ℕ)
    → r < 2 ^ i
    → q < 2 ^ suc v
    → bit_and (q * 2 ^ i + r) ((2 ^ suc v - 2) * 2 ^ i + (2 ^ i - 1))
      ≡ q * 2 ^ i + r - q % 2 * 2 ^ i
bit_and_pow_fields i v q r hr hq = ground (
  arith,
  one-le-pow i 2,
  bit_and_split i q (2 ^ suc v - 2) r (2 ^ i - 1),
  bit_and_ones i r,
  ap (λ (t : ℕ). t * 2 ^ i) (bit_and_even v q hq),
)

-- Clearing bit `i` of a word of `w` bits takes it away where it is there.
pub bit_and_pow :
    (i v x : ℕ)
    → x < 2 ^ (i + suc v)
    → bit_and x (2 ^ (i + suc v) - 1 - 2 ^ i) ≡ x - x / 2 ^ i % 2 * 2 ^ i
bit_and_pow i v x hx =
    subst (λ y. bit_and y (2 ^ (i + suc v) - 1 - 2 ^ i) ≡ y - x / 2 ^ i % 2 * 2 ^ i)
      (div-add-mod' x (2 ^ i))
      (rw mask (bit_and_pow_fields i v (x / 2 ^ i) (x % 2 ^ i) (mod-lt x pos) top))
  where
    pos : 0 < 2 ^ i
    pos = one-le-pow i 2 (omega arith)

    mask : 2 ^ (i + suc v) - 1 - 2 ^ i ≡ (2 ^ suc v - 2) * 2 ^ i + (2 ^ i - 1)
    mask =
        let big : 2 ^ suc v ≡ (2 ^ suc v - 2) + 2 = omega (arith, pow-suc 2 v, one-le-pow v 2) in
        omega (arith, pos, pow-add i (suc v), ap (λ (t : ℕ). t * 2 ^ i) big)

    top : x / 2 ^ i < 2 ^ suc v
    top = (div-lt_iff_lt-mul pos).1 (omega (arith, pow-add i (suc v)))

differ_bit : (x y : ℕ) → x < 2 → y < 2 → differ x y < 2
differ_bit zero y hx hy = hy
differ_bit (suc zero) zero hx hy = omega arith
differ_bit (suc zero) (suc y) hx hy = omega arith
differ_bit (suc (suc x)) y hx hy = absurd (omega arith)

pub bit_xor-lt : (k r s : ℕ) → r < 2 ^ k → s < 2 ^ k → bit_xor r s < 2 ^ k
bit_xor-lt zero r s hr hs =
    let no_r : r ≡ 0 = omega arith in
    let no_s : s ≡ 0 = omega arith in rw (no_r, no_s) (omega arith)
bit_xor-lt (suc k) r s hr hs =
    let less : bit_xor (r / 2) (s / 2) < 2 ^ k =
      bit_xor-lt k (r / 2) (s / 2) (omega (arith, pow-suc 2 k)) (omega (arith, pow-suc 2 k)) in
    omega
      (arith, bit_xor_step r s, pow-suc 2 k, differ_bit (r % 2) (s % 2) (omega arith) (omega arith))

differ_lem : (x y : ℕ) → x < 2 → y < 2 → differ x y ≡ (x + y) % 2
differ_lem zero y hx hy = omega arith
differ_lem (suc x) zero hx hy = omega arith
differ_lem (suc x) (suc y) hx hy =
    let no_x : x ≡ 0 = omega arith in let no_y : y ≡ 0 = omega arith in rw (no_x, no_y) refl

-- An exclusive or with the same word twice.
bit_xor_twice_fuel : (n a b : ℕ) → a ≤ n → b ≤ n → bit_xor (bit_xor a b) b ≡ a
bit_xor_twice_fuel zero a b ha hb =
    let no_a : a ≡ 0 = omega arith in let no_b : b ≡ 0 = omega arith in rw (no_a, no_b) refl
bit_xor_twice_fuel (suc n) a b ha hb = ground (
  arith,
  bit_xor_step (bit_xor a b) b,
  bit_xor_step a b,
  differ_lem (a % 2) (b % 2),
  differ_lem (bit_xor a b % 2) (b % 2),
  bit_xor_twice_fuel n (a / 2) (b / 2) (omega arith) (omega arith),
)

pub bit_xor_twice : (a b : ℕ) → bit_xor (bit_xor a b) b ≡ a
bit_xor_twice a b = bit_xor_twice_fuel (a + b) a b (omega arith) (omega arith)
