-- ===== src/Memory.antt =====
-- memory.c: the simulated memory, kept as 32-bit words. An access returns its status beside the
-- new value of what `value` points to, or beside the new memory.
pub mod Bytes
pub mod Words
pub mod Halves
use l3_info_simulateur_arm.Base.{
  ℕ, ◌+◌, ◌*◌, ◌/◌, ◌%◌, ◌^◌, Bool, true, false, not, ◌||◌, ltb, leb, ◌==◌, if◌then◌else◌, update,
}
use l3_info_simulateur_arm.Util.{u8, u16, get_bits, set_bits, clr_bit, reverse_2, reverse_4}

pub data Status : Type 0 where
  failure success : Status

-- `data` is a function of the index, as large as the checks on the address let it be read.
pub record Memory : Type 0 where
  pub size : ℕ
  pub is_big_endian : Bool
  pub words : ℕ → ℕ

-- `malloc` leaves the words as they are: `initial` stands for what they hold.
unfoldable pub memory_create : ℕ → Bool → (ℕ → ℕ) → Memory
memory_create size is_big_endian initial = record {
  size = size;
  is_big_endian = is_big_endian;
  words = initial;
}

-- The number of words that are allocated.
unfoldable pub allocated : ℕ → ℕ
allocated size = size / 4 + (if ltb 0 (size % 4) then 1 else 0)

unfoldable pub memory_get_size : Memory → ℕ
memory_get_size mem = mem.size

unfoldable pub memory_read_byte : Memory → ℕ → ℕ → Status × ℕ
unfolding memory_get_size
memory_read_byte mem address value =
    if leb (memory_get_size mem) address
    then (failure, value)
    else let word = mem.words (address / 4) in
      let addr = address % 4 in (success, u8 (get_bits word (addr * 8 + 7) (addr * 8)))

unfoldable pub memory_read_half : Memory → ℕ → ℕ → Status × ℕ
unfolding memory_get_size
memory_read_half mem address value =
    if leb (memory_get_size mem) address || not (address % 2 == 0)
    then (failure, value)
    else let word = mem.words (address / 4) in
      let addr = address % 4 in
      let half = u16 (get_bits word (addr * 8 + 15) (addr * 8)) in
      (success, if mem.is_big_endian then u16 (reverse_2 half) else half)

unfoldable pub memory_read_word : Memory → ℕ → ℕ → Status × ℕ
unfolding memory_get_size
memory_read_word mem address value =
    if leb (memory_get_size mem) address || not (address % 4 == 0)
    then (failure, value)
    else let word = mem.words (address / 4) in
      (success, if mem.is_big_endian then reverse_4 word else word)

abbrev store : Memory → ℕ → ℕ → Memory
store mem address word = record mem { words = update mem.words (address / 4) word }

-- A field that ends at bit 31 is written with bit 31 cleared first and the field cut to bit 30.
unfoldable pub set_field : ℕ → ℕ → ℕ → ℕ → ℕ
set_field word fin deb value =
    if fin == 31 then set_bits (clr_bit word 31) 30 deb value else set_bits word fin deb value

unfoldable pub memory_write_byte : Memory → ℕ → ℕ → Status × Memory
unfolding memory_get_size
memory_write_byte mem address value =
    if leb (memory_get_size mem) address
    then (failure, mem)
    else let addr = address % 4 in
      (
        success,
        store mem address (set_field (mem.words (address / 4)) (addr * 8 + 7) (addr * 8) value),
      )

unfoldable pub memory_write_half : Memory → ℕ → ℕ → Status × Memory
unfolding memory_get_size
memory_write_half mem address value =
    if leb (memory_get_size mem) address || not (address % 2 == 0)
    then (failure, mem)
    else let half = if mem.is_big_endian then u16 (reverse_2 value) else value in
      let addr = address % 4 in
      (
        success,
        store mem address (set_field (mem.words (address / 4)) (addr * 8 + 15) (addr * 8) half),
      )

unfoldable pub memory_write_word : Memory → ℕ → ℕ → Status × Memory
unfolding memory_get_size
memory_write_word mem address value =
    if leb (memory_get_size mem) address || not (address % 4 == 0)
    then (failure, mem)
    else (success, store mem address (if mem.is_big_endian then reverse_4 value else value))
