-- ===== src/Condition/Laws.antt =====
-- The condition codes.
use l3_info_simulateur_arm.Base.{
  ℕ, ◌+◌, ◌-◌, ◌*◌, ◌/◌, ◌%◌, ◌^◌, ◌≤◌, ◌<◌, ◌≡◌, ◌≢◌, ◌↔◌, arith, refl, true, false, not,
}
use l3_info_simulateur_arm.Constants.{flag_n, flag_z, flag_c, flag_v}
use l3_info_simulateur_arm.Util.{get_bit}
use l3_info_simulateur_arm.Util.Bounds.{get_bit-le}
use l3_info_simulateur_arm.Condition.{condition_of}

-- A status word whose flags are those of a comparison of `a` with `b`: of the difference, with the
-- carry set where there is no borrow, and the overflow of the signed difference.
abbrev pub IsCompared : ℕ → ℕ → ℕ → Type 0
IsCompared a b w =
    let value = (a + 2 ^ 32 - b) % 2 ^ 32 in
    (get_bit w flag_n ≡ value / 2 ^ 31)
    × ((get_bit w flag_z ≡ 1) ↔ (a ≡ b))
    × ((get_bit w flag_c ≡ 1) ↔ (b ≤ a))
    × ((get_bit w flag_v ≡ 1) ↔ ((a / 2 ^ 31 ≢ b / 2 ^ 31) × (value / 2 ^ 31 ≢ a / 2 ^ 31)))

-- The value of a word as a signed number, moved up by 2 ^ 31.
abbrev pub signed_rank : ℕ → ℕ
signed_rank a = (a + 2 ^ 31) % 2 ^ 32

-- Codes 0 to 13 come in pairs: an odd code is the negation of the even code below it.
condition_of_pairs : (k w : ℕ) → k < 7 → condition_of (2 * k + 1) w ≡ not (condition_of (2 * k) w)
unfolding condition_of
condition_of_pairs k w h =
    ground
      (arith, get_bit-le w flag_n, get_bit-le w flag_z, get_bit-le w flag_c, get_bit-le w flag_v)

signed_order :
    (a b n v : ℕ)
    → a < 2 ^ 32
    → b < 2 ^ 32
    → n ≤ 1
    → v ≤ 1
    → let value = (a + 2 ^ 32 - b) % 2 ^ 32 in
      n ≡ value / 2 ^ 31
      → ((v ≡ 1) ↔ ((a / 2 ^ 31 ≢ b / 2 ^ 31) × (value / 2 ^ 31 ≢ a / 2 ^ 31)))
      → (n ≡ v) ↔ (signed_rank b ≤ signed_rank a)
signed_order a b n v ha hb hn hv en ev = (λ e. ground arith, λ l. ground arith)

-- What each condition code asks of two words that were compared and of the flags, from EQ to NV.
abbrev pub CodesMean : ℕ → ℕ → ℕ → Type 0
CodesMean a b w =
    ((condition_of 0 w ≡ true) ↔ (a ≡ b))
    × ((condition_of 1 w ≡ true) ↔ (a ≢ b))
    × ((condition_of 2 w ≡ true) ↔ (b ≤ a))
    × ((condition_of 3 w ≡ true) ↔ (a < b))
    × ((condition_of 4 w ≡ true) ↔ (get_bit w flag_n ≡ 1))
    × ((condition_of 5 w ≡ true) ↔ (get_bit w flag_n ≡ 0))
    × ((condition_of 6 w ≡ true) ↔ (get_bit w flag_v ≡ 1))
    × ((condition_of 7 w ≡ true) ↔ (get_bit w flag_v ≡ 0))
    × ((condition_of 8 w ≡ true) ↔ (b < a))
    × ((condition_of 9 w ≡ true) ↔ (a ≤ b))
    × ((condition_of 10 w ≡ true) ↔ (signed_rank b ≤ signed_rank a))
    × ((condition_of 11 w ≡ true) ↔ (signed_rank a < signed_rank b))
    × ((condition_of 12 w ≡ true) ↔ (signed_rank b < signed_rank a))
    × ((condition_of 13 w ≡ true) ↔ (signed_rank a ≤ signed_rank b))
    × (condition_of 14 w ≡ true)
    × (condition_of 15 w ≡ false)

-- On a status word with the flags of a comparison as the architecture defines them, each of the
-- sixteen codes means what its name says: the equality and its negation, the four unsigned and the
-- four signed orders, the two values of N and of V, always and never. Whether an instruction of the
-- program leaves such a status word is not part of this.
pub condition_of_compared :
    (a b w : ℕ) → a < 2 ^ 32 → b < 2 ^ 32 → IsCompared a b w → CodesMean a b w
unfolding condition_of
condition_of_compared a b w ha hb c =
    let n = get_bit-le w flag_n in
    let z = get_bit-le w flag_z in
    let carry = get_bit-le w flag_c in
    let v = get_bit-le w flag_v in
    let signed = signed_order a b (get_bit w flag_n) (get_bit w flag_v) ha hb n v c.0 c.3 in
    (
      ground arith,
      ground arith,
      ground arith,
      ground arith,
      ground arith,
      ground arith,
      ground arith,
      ground arith,
      ground arith,
      ground arith,
      ground arith,
      ground arith,
      ground arith,
      ground arith,
      refl,
      refl,
    )
