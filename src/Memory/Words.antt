-- ===== src/Memory/Words.antt =====
-- Halfwords and words as the bytes at consecutive addresses, in the order that the memory keeps.
use l3_info_simulateur_arm.Base.{
  ℕ, zero, suc, ◌+◌, ◌-◌, ◌*◌, ◌/◌, ◌%◌, ◌^◌, ◌<◌, ◌≤◌, ◌≡◌, refl, arith, Bool, true, false, ◌==◌,
  leb, ltb, ◌&&◌, if◌then◌else◌,
}
use l3_info_simulateur_arm.Util.{u16, get_bits, reverse_2, reverse_4}
use l3_info_simulateur_arm.Util.Laws.{reverse_2_lem, reverse_4_lem}
use l3_info_simulateur_arm.Memory.{Memory, failure, success, memory_get_size}
use l3_info_simulateur_arm.Memory.{memory_read_half, memory_read_word, memory_write_word}
use l3_info_simulateur_arm.Memory.Bytes.{byte_of, byte_at, each_byte, IsWordMemory}

-- The bytes of a value of two or four bytes, in the order of the memory.
abbrev pub half_of : Bool → ℕ → ℕ → ℕ
half_of true b0 b1 = b0 * 256 + b1
half_of false b0 b1 = b0 + b1 * 256

abbrev pub word_of : Bool → ℕ → ℕ → ℕ → ℕ → ℕ
word_of true b0 b1 b2 b3 = b0 * 16777216 + b1 * 65536 + b2 * 256 + b3
word_of false b0 b1 b2 b3 = b0 + b1 * 256 + b2 * 65536 + b3 * 16777216

-- The byte of a value that is kept at offset `j` of `size` bytes.
abbrev pub nth_byte : Bool → ℕ → ℕ → ℕ → ℕ
nth_byte big size value j = byte_of value (if big then size - 1 - j else j)

byte_at_aligned :
    (mem : Memory) (address k : ℕ)
    → address % 4 ≡ 0
    → k < 4
    → byte_at mem (address + k) ≡ byte_of (mem.words (address / 4)) k
byte_at_aligned mem address k h hk =
    let index : (address + k) / 4 ≡ address / 4 = omega arith in
    let place : (address + k) % 4 ≡ k = omega arith in rw (index, place)

word_of-bytes :
    (big : Bool) (w : ℕ)
    → w < 2 ^ 32
    → (if big then reverse_4 w else w)
      ≡ word_of big (byte_of w 0) (byte_of w 1) (byte_of w 2) (byte_of w 3)
word_of-bytes true w h = omega (arith, reverse_4_lem w)
word_of-bytes false w h = omega arith

-- In a memory of 32-bit words, a word read at an aligned address below the size puts the four bytes together in the order of
-- the memory; any other is refused, and what `value` points to is left as it was.
pub memory_read_word_lem :
    (mem : Memory) (address value : ℕ)
    → IsWordMemory mem
    → memory_read_word mem address value ≡ (
        if ltb address mem.size && address % 4 == 0
        then (
          success,
          word_of mem.is_big_endian
              (byte_at mem address)
              (byte_at mem (address + 1))
              (byte_at mem (address + 2))
              (byte_at mem (address + 3)),
        )
        else (failure, value))
unfolding memory_read_word memory_get_size
memory_read_word_lem mem address value hm = ground (
  arith,
  hm (address / 4),
  byte_at_aligned mem address 1,
  byte_at_aligned mem address 2,
  byte_at_aligned mem address 3,
  word_of-bytes mem.is_big_endian (mem.words (address / 4)),
)

get_bits_half :
    (w k : ℕ)
    → k < 3
    → u16 (get_bits w (k * 8 + 15) (k * 8)) ≡ byte_of w k + byte_of w (k + 1) * 256
unfolding get_bits
get_bits_half w zero h = omega arith
get_bits_half w (suc zero) h = omega arith
get_bits_half w (suc (suc zero)) h = omega arith
get_bits_half w (suc (suc (suc k))) h = absurd (omega arith)

half_of-bytes :
    (big : Bool) (b0 b1 : ℕ)
    → b0 < 256
    → b1 < 256
    → (if big then u16 (reverse_2 (b0 + b1 * 256)) else b0 + b1 * 256) ≡ half_of big b0 b1
half_of-bytes true b0 b1 h0 h1 = omega (arith, reverse_2_lem (b0 + b1 * 256))
half_of-bytes false b0 b1 h0 h1 = omega arith

byte_at_even :
    (mem : Memory) (address : ℕ)
    → address % 2 ≡ 0
    → byte_at mem (address + 1) ≡ byte_of (mem.words (address / 4)) (address % 4 + 1)
byte_at_even mem address h =
    let index : (address + 1) / 4 ≡ address / 4 = omega arith in
    let place : (address + 1) % 4 ≡ address % 4 + 1 = omega arith in rw (index, place)

-- A halfword read at an even address below the size puts the two bytes together in the order of
-- the memory; any other is refused, and what `value` points to is left as it was.
pub memory_read_half_lem :
    (mem : Memory) (address value : ℕ)
    → memory_read_half mem address value ≡ (
        if ltb address mem.size && address % 2 == 0
        then (success, half_of mem.is_big_endian (byte_at mem address) (byte_at mem (address + 1)))
        else (failure, value))
unfolding memory_read_half memory_get_size
memory_read_half_lem mem address value = ground (
  arith,
  byte_at_even mem address,
  get_bits_half (mem.words (address / 4)) (address % 4),
  half_of-bytes mem.is_big_endian (byte_at mem address) (byte_at mem (address + 1)),
)

nth_byte_word :
    (big : Bool) (w j : ℕ) → j < 4 → byte_of (if big then reverse_4 w else w) j ≡ nth_byte big 4 w j
nth_byte_word true w j h = rw (reverse_4_lem w) (
    each_byte
      (λ j.
        byte_of
          (w % 256 * 16777216 + w / 256 % 256 * 65536 + w / 65536 % 256 * 256 + w / 16777216 % 256)
          j
        ≡ nth_byte true 4 w j)
      (omega arith) (omega arith) (omega arith) (omega arith) j h)
nth_byte_word false w j h = refl

offset_aligned :
    (address other : ℕ)
    → address % 4 ≡ 0
    → address ≤ other
    → other < address + 4
    → (other / 4 ≡ address / 4) × (other % 4 ≡ other - address)
offset_aligned address other h lo hi = (omega arith, omega arith)

-- A word written at an aligned address below the size puts its bytes at the four addresses in the
-- order of the memory, and changes no other byte.
pub byte_at-memory_write_word :
    (mem : Memory) (address value other : ℕ)
    → address < mem.size
    → address % 4 ≡ 0
    → byte_at (memory_write_word mem address value).1 other ≡ (
        if leb address other && ltb other (address + 4)
        then nth_byte mem.is_big_endian 4 value (other - address)
        else byte_at mem other)
unfolding memory_write_word memory_get_size
byte_at-memory_write_word mem address value other h aligned = ground (
  arith,
  nth_byte_word mem.is_big_endian value (other - address),
  offset_aligned address other aligned,
)

reverse_4-reverse_4 : (v : ℕ) → v < 2 ^ 32 → reverse_4 (reverse_4 v) ≡ v
reverse_4-reverse_4 v h = omega (arith, reverse_4_lem v, reverse_4_lem (reverse_4 v))

-- A 32-bit word that is written at an aligned address below the size reads back.
pub memory_read_word-memory_write_word :
    (mem : Memory) (address value old : ℕ)
    → address < mem.size
    → address % 4 ≡ 0
    → value < 2 ^ 32
    → memory_read_word (memory_write_word mem address value).1 address old ≡ (success, value)
unfolding memory_read_word memory_write_word memory_get_size
memory_read_word-memory_write_word mem address value old h aligned hv =
    ground (arith, reverse_4-reverse_4 value hv)
