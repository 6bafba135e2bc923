-- ===== src/Memory/Halves.antt =====
-- Halfword writes, and what every write of the memory keeps.
use l3_info_simulateur_arm.Base.{
  ◌⊎◌, inl, inr, Bool-cases, update, ◌↔◌, ℕ, zero, suc, ◌+◌, ◌-◌, ◌*◌, ◌/◌, ◌%◌, ◌^◌, ◌<◌, ◌≤◌, ◌≡◌,
  ◌≢◌, refl, arith, Bool, true, false, ◌==◌, leb, ltb, ◌&&◌, if◌then◌else◌,
}
use l3_info_simulateur_arm.Util.{u16, get_bit, clr_bit, reverse_2}
use l3_info_simulateur_arm.Util.Laws.{
  set_bits_lem, set_bits_over, clr_bit_lem, reverse_2_lem, reverse_4_lem,
}
use l3_info_simulateur_arm.Memory.{Memory, failure, success, set_field, memory_get_size}
use l3_info_simulateur_arm.Memory.{
  memory_read_half, memory_write_half, memory_read_word, memory_write_word,
}
use l3_info_simulateur_arm.Memory.{memory_write_byte}
use l3_info_simulateur_arm.Memory.Bytes.{byte_of, byte_at, each_byte, IsWordMemory}
use l3_info_simulateur_arm.Memory.Words.{half_of, nth_byte, memory_read_half_lem}

-- A halfword stands at offset 0 or 2 of its word.
each_half {ℓ} : (P : ℕ → Type ℓ) → P 0 → P 2 → (k : ℕ) → k < 4 → k % 2 ≡ 0 → P k
each_half P a b zero h e = a
each_half P a b (suc zero) h e = absurd (omega arith)
each_half P a b (suc (suc zero)) h e = b
each_half P a b (suc (suc (suc zero))) h e = absurd (omega arith)
each_half P a b (suc (suc (suc (suc k)))) h e = absurd (omega arith)

abbrev half_put : ℕ → ℕ → ℕ → ℕ
half_put word value k =
    word / 2 ^ (k * 8 + 16) * 2 ^ (k * 8 + 16) + value * 2 ^ (k * 8) + word % 2 ^ (k * 8)

set_field_half_lem :
    (word value k : ℕ)
    → word < 2 ^ 32
    → value < 2 ^ 16
    → k < 4
    → k % 2 ≡ 0
    → set_field word (k * 8 + 15) (k * 8) value ≡ half_put word value k
unfolding set_field get_bit
set_field_half_lem word value k hw hv hk he =
    each_half (λ k. set_field word (k * 8 + 15) (k * 8) value ≡ half_put word value k)
      (omega (arith, set_bits_lem word 15 0 value))
      (omega (arith, clr_bit_lem word 31, set_bits_over (clr_bit word 31) 30 16 value)) k hk he

set_field_half :
    (word value k j : ℕ)
    → word < 2 ^ 32
    → value < 2 ^ 16
    → k < 4
    → k % 2 ≡ 0
    → j < 4
    → byte_of (set_field word (k * 8 + 15) (k * 8) value) j
      ≡ (if leb k j && ltb j (k + 2) then byte_of value (j - k) else byte_of word j)
set_field_half word value k j hw hv hk he hj = rw (set_field_half_lem word value k hw hv hk he) (
    each_half (λ k. Put k j)
      (each_byte (Put 0) (omega arith) (omega arith) (omega arith) (omega arith) j hj)
      (each_byte (Put 2) (omega arith) (omega arith) (omega arith) (omega arith) j hj) k hk he)
  where
    Put : ℕ → ℕ → Type 0
    Put k j =
        byte_of (half_put word value k) j
        ≡ (if leb k j && ltb j (k + 2) then byte_of value (j - k) else byte_of word j)

set_field_half-lt :
    (word value k : ℕ)
    → word < 2 ^ 32
    → value < 2 ^ 16
    → k < 4
    → k % 2 ≡ 0
    → set_field word (k * 8 + 15) (k * 8) value < 2 ^ 32
set_field_half-lt word value k hw hv hk he =
    rw (set_field_half_lem word value k hw hv hk he)
      (each_half (λ k. half_put word value k < 2 ^ 32) (omega arith) (omega arith) k hk he)

abbrev kept_half : Bool → ℕ → ℕ
kept_half big value = if big then u16 (reverse_2 value) else value

kept_half-lt : (big : Bool) (value : ℕ) → value < 2 ^ 16 → kept_half big value < 2 ^ 16
kept_half-lt true value h = omega arith
kept_half-lt false value h = h

nth_byte_half :
    (big : Bool) (value j : ℕ)
    → value < 2 ^ 16
    → j < 2
    → byte_of (kept_half big value) j ≡ nth_byte big 2 value j
nth_byte_half true value zero hv h = omega (arith, reverse_2_lem value)
nth_byte_half true value (suc zero) hv h = omega (arith, reverse_2_lem value)
nth_byte_half true value (suc (suc j)) hv h = absurd (omega arith)
nth_byte_half false value j hv h = refl

memory_write_half_lem :
    (mem : Memory) (address value : ℕ)
    → address < mem.size
    → address % 2 ≡ 0
    → memory_write_half mem address value ≡ (
      success,
      record mem {
        words = update mem.words (address / 4) (
            set_field
              (mem.words (address / 4))
              (address % 4 * 8 + 15)
              (address % 4 * 8)
              (kept_half mem.is_big_endian value));
      },
    )
unfolding memory_write_half memory_get_size
memory_write_half_lem mem address value h even = ground arith

-- The test of the two addresses within a word, and in another word.
half_place :
    (address other : ℕ)
    → address % 2 ≡ 0
    → other / 4 ≡ address / 4
    → ((leb address other && ltb other (address + 2))
        ≡ (leb (address % 4) (other % 4) && ltb (other % 4) (address % 4 + 2)))
      × (other - address ≡ other % 4 - address % 4)
half_place address other even same = ground arith

half_apart :
    (address other : ℕ)
    → address % 2 ≡ 0
    → (other / 4 == address / 4) ≡ false
    → (leb address other && ltb other (address + 2)) ≡ false
half_apart address other even apart = ground arith

-- In a memory of 32-bit words, a 16-bit halfword written at an even address below the size puts its bytes at the two addresses in the
-- order of the memory, and changes no other byte.
pub byte_at-memory_write_half :
    (mem : Memory) (address value other : ℕ)
    → IsWordMemory mem
    → value < 2 ^ 16
    → address < mem.size
    → address % 2 ≡ 0
    → byte_at (memory_write_half mem address value).1 other ≡ (
        if leb address other && ltb other (address + 2)
        then nth_byte mem.is_big_endian 2 value (other - address)
        else byte_at mem other)
byte_at-memory_write_half mem address value other hm hv h even =
    let half = kept_half mem.is_big_endian value in
    elim (Bool-cases (other / 4 == address / 4)) [
      | inl same ↦
          rw (memory_write_half_lem mem address value h even, same)
            (ground (
              arith,
              hm (address / 4),
              kept_half-lt mem.is_big_endian value hv,
              half_place address other,
              set_field_half (mem.words (address / 4)) half (address % 4) (other % 4),
              nth_byte_half mem.is_big_endian value (other - address),
            ))
      | inr apart ↦
          rw (memory_write_half_lem mem address value h even, apart)
            (ground (arith, half_apart address other even))
    ]

-- Writes keep the words in range.
pub memory_write_half-IsWordMemory :
    (mem : Memory) (address value : ℕ)
    → IsWordMemory mem
    → value < 2 ^ 16
    → IsWordMemory (memory_write_half mem address value).1
unfolding memory_write_half memory_get_size
memory_write_half-IsWordMemory mem address value hm hv i = ground (
  arith,
  hm i,
  hm (address / 4),
  kept_half-lt mem.is_big_endian value,
  set_field_half-lt (mem.words (address / 4)) (kept_half mem.is_big_endian value) (address % 4),
)

pub memory_write_word-IsWordMemory :
    (mem : Memory) (address value : ℕ)
    → IsWordMemory mem
    → value < 2 ^ 32
    → IsWordMemory (memory_write_word mem address value).1
unfolding memory_write_word memory_get_size
memory_write_word-IsWordMemory mem address value hm hv i = ground (arith, hm i, reverse_4_lem value)

half_of-nth_byte :
    (big : Bool) (value : ℕ)
    → value < 2 ^ 16
    → half_of big (nth_byte big 2 value 0) (nth_byte big 2 value 1) ≡ value
half_of-nth_byte true value h = omega arith
half_of-nth_byte false value h = omega arith

-- In a memory of 32-bit words, a 16-bit halfword that is written at an even address below the size
-- reads back.
memory_read_half-memory_write_half :
    (mem : Memory) (address value old : ℕ)
    → IsWordMemory mem
    → value < 2 ^ 16
    → address < mem.size
    → address % 2 ≡ 0
    → memory_read_half (memory_write_half mem address value).1 address old ≡ (success, value)
memory_read_half-memory_write_half mem address value old hm hv h even =
    rw
      (
        memory_read_half_lem (memory_write_half mem address value).1 address old,
        byte_at-memory_write_half mem address value address hm hv h even,
        byte_at-memory_write_half mem address value (address + 1) hm hv h even,
        memory_write_half_lem mem address value h even,
      )
      (let here : address - address ≡ 0 = omega arith in
        let next : address + 1 - address ≡ 1 = omega arith in
        rw (here, next) (ground (arith, half_of-nth_byte mem.is_big_endian value hv)))

-- A write fails and leaves the memory exactly where the address is past the end or, for a halfword
-- or a word, not a multiple of the width.
pub memory_write_refused :
    (mem : Memory) (address value : ℕ)
    → ((memory_write_byte mem address value ≡ (failure, mem)) ↔ (mem.size ≤ address))
      × ((memory_write_half mem address value ≡ (failure, mem))
          ↔ ((mem.size ≤ address) ⊎ (address % 2 ≢ 0)))
      × ((memory_write_word mem address value ≡ (failure, mem))
          ↔ ((mem.size ≤ address) ⊎ (address % 4 ≢ 0)))
unfolding memory_write_byte memory_write_half memory_write_word memory_get_size
memory_write_refused mem address value = ground arith

pub memory_write_half-shape :
    (mem : Memory) (address value : ℕ)
    → let mem' = (memory_write_half mem address value).1 in
      (mem'.size ≡ mem.size) × (mem'.is_big_endian ≡ mem.is_big_endian)
unfolding memory_write_half
memory_write_half-shape mem address value = ground arith

pub memory_write_word-shape :
    (mem : Memory) (address value : ℕ)
    → let mem' = (memory_write_word mem address value).1 in
      (mem'.size ≡ mem.size) × (mem'.is_big_endian ≡ mem.is_big_endian)
unfolding memory_write_word
memory_write_word-shape mem address value = ground arith

half_of-lt : (big : Bool) (b0 b1 : ℕ) → b0 < 256 → b1 < 256 → half_of big b0 b1 < 2 ^ 16
half_of-lt true b0 b1 h0 h1 = omega arith
half_of-lt false b0 b1 h0 h1 = omega arith

-- Every read gives a value of its width, if what `value` points to is one.
pub memory_read_half-lt :
    (mem : Memory) (address value : ℕ)
    → value < 2 ^ 16
    → (memory_read_half mem address value).1 < 2 ^ 16
memory_read_half-lt mem address value h =
    rw (memory_read_half_lem mem address value) (
      ground
        (arith, half_of-lt mem.is_big_endian (byte_at mem address) (byte_at mem (address + 1))))

pub memory_read_word-lt :
    (mem : Memory) (address value : ℕ)
    → IsWordMemory mem
    → value < 2 ^ 32
    → (memory_read_word mem address value).1 < 2 ^ 32
unfolding memory_read_word
memory_read_word-lt mem address value hm h =
    ground (arith, hm (address / 4), reverse_4_lem (mem.words (address / 4)))
