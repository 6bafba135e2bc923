-- ===== src/Memory/Bytes.antt =====
-- The memory as an array of bytes.
use l3_info_simulateur_arm.Base.{
  ℕ, zero, suc, ◌+◌, ◌-◌, ◌*◌, ◌/◌, ◌%◌, ◌^◌, ◌<◌, ◌≡◌, ap, arith, ◌==◌, leb, if◌then◌else◌,
}
use l3_info_simulateur_arm.Util.{get_bit, get_bits, clr_bit}
use l3_info_simulateur_arm.Util.Laws.{set_bits_lem, set_bits_over, clr_bit_lem}
use l3_info_simulateur_arm.Memory.{
  Memory, failure, success, set_field, memory_read_byte, memory_write_byte, allocated,
}

-- The byte `k` of a word, the lowest first, and the byte at an address.
abbrev pub byte_of : ℕ → ℕ → ℕ
byte_of word k = word / 2 ^ (k * 8) % 256

abbrev pub byte_at : Memory → ℕ → ℕ
byte_at mem address = byte_of (mem.words (address / 4)) (address % 4)

-- A statement about the four bytes of a word, byte by byte.
pub each_byte {ℓ} : (P : ℕ → Type ℓ) → P 0 → P 1 → P 2 → P 3 → (k : ℕ) → k < 4 → P k
each_byte P a b c d zero h = a
each_byte P a b c d (suc zero) h = b
each_byte P a b c d (suc (suc zero)) h = c
each_byte P a b c d (suc (suc (suc zero))) h = d
each_byte P a b c d (suc (suc (suc (suc k)))) h = absurd (omega arith)

-- `set_field` on a byte, as arithmetic.
set_field_byte_lem :
    (word value k : ℕ)
    → word < 2 ^ 32
    → value < 256
    → k < 4
    → set_field word (k * 8 + 7) (k * 8) value
      ≡ word / 2 ^ (k * 8 + 8) * 2 ^ (k * 8 + 8) + value * 2 ^ (k * 8) + word % 2 ^ (k * 8)
unfolding set_field get_bit
set_field_byte_lem word value k hw hv =
    each_byte
      (λ k.
        set_field word (k * 8 + 7) (k * 8) value
        ≡ word / 2 ^ (k * 8 + 8) * 2 ^ (k * 8 + 8) + value * 2 ^ (k * 8) + word % 2 ^ (k * 8))
      (omega (arith, set_bits_lem word 7 0 value)) (omega (arith, set_bits_lem word 15 8 value))
      (omega (arith, set_bits_lem word 23 16 value))
      (omega (arith, clr_bit_lem word 31, set_bits_over (clr_bit word 31) 30 24 value)) k

set_field_byte-lt :
    (word value k : ℕ)
    → word < 2 ^ 32
    → value < 256
    → k < 4
    → set_field word (k * 8 + 7) (k * 8) value < 2 ^ 32
set_field_byte-lt word value k hw hv hk = rw (set_field_byte_lem word value k hw hv hk) (
    each_byte
      (λ k.
        word / 2 ^ (k * 8 + 8) * 2 ^ (k * 8 + 8) + value * 2 ^ (k * 8) + word % 2 ^ (k * 8)
        < 2 ^ 32)
      (omega arith) (omega arith) (omega arith) (omega arith) k hk)

-- It puts the byte there and keeps the other three.
pub set_field_byte :
    (word value k j : ℕ)
    → word < 2 ^ 32
    → value < 256
    → k < 4
    → j < 4
    → byte_of (set_field word (k * 8 + 7) (k * 8) value) j
      ≡ (if j == k then value else byte_of word j)
set_field_byte word value k j hw hv hk hj = rw (set_field_byte_lem word value k hw hv hk) (
    each_byte (λ k. Put k j)
      (each_byte (Put 0) (omega arith) (omega arith) (omega arith) (omega arith) j hj)
      (each_byte (Put 1) (omega arith) (omega arith) (omega arith) (omega arith) j hj)
      (each_byte (Put 2) (omega arith) (omega arith) (omega arith) (omega arith) j hj)
      (each_byte (Put 3) (omega arith) (omega arith) (omega arith) (omega arith) j hj) k hk)
  where
    Put : ℕ → ℕ → Type 0
    Put k j =
        byte_of
          (word / 2 ^ (k * 8 + 8) * 2 ^ (k * 8 + 8) + value * 2 ^ (k * 8) + word % 2 ^ (k * 8)) j
        ≡ (if j == k then value else byte_of word j)

-- Every word of the memory is a 32-bit word.
abbrev pub IsWordMemory : Memory → Type 0
IsWordMemory mem = (i : ℕ) → mem.words i < 2 ^ 32

-- An address that is not refused lies in the allocated words.
address-lt-allocated : (size address : ℕ) → address < size → address / 4 < allocated size
unfolding allocated
address-lt-allocated size address h = ground arith

get_bits_byte : (word k : ℕ) → get_bits word (k * 8 + 7) (k * 8) ≡ byte_of word k
unfolding get_bits
get_bits_byte word k =
    let width : k * 8 + 7 + 1 - k * 8 ≡ 8 = omega arith in
    ap (λ w. word / 2 ^ (k * 8) % 2 ^ w) width

-- A byte read below the size gives the byte at the address; any other is refused, and what
-- `value` points to is left as it was.
pub memory_read_byte_lem :
    (mem : Memory) (address value : ℕ)
    → memory_read_byte mem address value
      ≡ (if leb mem.size address then (failure, value) else (success, byte_at mem address))
unfolding memory_read_byte
memory_read_byte_lem mem address value =
    ground (arith, get_bits_byte (mem.words (address / 4)) (address % 4))

-- In a memory of 32-bit words, a byte written below the size is at its address afterwards, and every
-- other byte is as before.
pub byte_at-memory_write_byte :
    (mem : Memory) (address value other : ℕ)
    → IsWordMemory mem
    → value < 256
    → address < mem.size
    → byte_at (memory_write_byte mem address value).1 other
      ≡ (if other == address then value else byte_at mem other)
unfolding memory_write_byte
byte_at-memory_write_byte mem address value other hm hv h = ground (
  arith,
  hm (address / 4),
  set_field_byte (mem.words (address / 4)) value (address % 4) (other % 4),
)

-- A write keeps the size, the byte order and the words in range.
pub memory_write_byte-IsWordMemory :
    (mem : Memory) (address value : ℕ)
    → IsWordMemory mem
    → value < 256
    → IsWordMemory (memory_write_byte mem address value).1
unfolding memory_write_byte
memory_write_byte-IsWordMemory mem address value hm hv i =
    ground (
      arith,
      hm i,
      hm (address / 4),
      set_field_byte-lt (mem.words (address / 4)) value (address % 4),
    )

pub memory_write_byte-shape :
    (mem : Memory) (address value : ℕ)
    → let mem' = (memory_write_byte mem address value).1 in
      (mem'.size ≡ mem.size) × (mem'.is_big_endian ≡ mem.is_big_endian)
unfolding memory_write_byte
memory_write_byte-shape mem address value = ground arith

-- Every read gives a value of its width, if what `value` points to is one.
pub memory_read_byte-lt :
    (mem : Memory) (address value : ℕ) → value < 256 → (memory_read_byte mem address value).1 < 256
memory_read_byte-lt mem address value h = rw (memory_read_byte_lem mem address value) (ground arith)
