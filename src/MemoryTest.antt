-- ===== src/MemoryTest.antt =====
-- memory_test.c: the test of the memory, as a function of the two values that it writes, of the byte
-- order of the host, of what `malloc` leaves in the two memories, and of what the variables hold that
-- are read into. The result is the arguments of `print_test` in their order.
pub mod Compare
pub mod Passes
use l3_info_simulateur_arm.Base.{
  ℕ, zero, suc, ◌+◌, ◌-◌, ◌*◌, ◌/◌, ◌%◌, ◌^◌, Bool, true, false, not, ◌==◌, if◌then◌else◌, List, [],
  ◌∷◌,
}
use l3_info_simulateur_arm.Util.{add32, minus_one}
use l3_info_simulateur_arm.Memory.{
  Memory, memory_create, memory_read_byte, memory_read_half, memory_read_word, memory_write_byte,
  memory_write_half, memory_write_word,
}

-- The byte `i` of an object of `size` bytes on the host.
unfoldable pub host_byte : Bool → ℕ → ℕ → ℕ → ℕ
host_byte is_big_endian size value i =
    (if is_big_endian then value / 2 ^ ((size - 1 - i) * 8) else value / 2 ^ (i * 8)) % 2 ^ 8

-- The loop of `compare` with `left` rounds left; `j` and `j_step` are 32-bit patterns.
unfoldable pub compare_loop : ℕ → ℕ → ℕ → ℕ → (ℕ → ℕ) → (ℕ → ℕ) → Bool
compare_loop zero i j j_step a b = true
compare_loop (suc left) i j j_step a b =
    let rest = compare_loop left (i + 1) (add32 j j_step) j_step a b in
    if not (a i == b j) then false else rest

unfoldable pub compare : (ℕ → ℕ) → (ℕ → ℕ) → ℕ → Bool → Bool
compare a b size reverse =
    if reverse then compare_loop size 0 (size - 1) minus_one a b else compare_loop size 0 0 1 a b

-- The loop of `compare_with_sim`; a read that fails leaves `value` as it was.
unfoldable pub sim_loop : ℕ → ℕ → ℕ → ℕ → (ℕ → ℕ) → Memory → ℕ → Bool
sim_loop zero i j j_step a m value = true
sim_loop (suc left) i j j_step a m value =
    let value' = (memory_read_byte m j value).1 in
    let rest = sim_loop left (i + 1) (add32 j j_step) j_step a m value' in
    if not (a i == value') then false else rest

unfoldable pub compare_with_sim : (ℕ → ℕ) → Memory → ℕ → Bool → ℕ → Bool
compare_with_sim a m size reverse value =
    if reverse
    then sim_loop size 0 (size - 1) minus_one a m value
    else sim_loop size 0 0 1 a m value

-- The loop that writes the bytes of the word, at byte `i`.
unfoldable pub write_bytes : ℕ → ℕ → (ℕ → ℕ) → Memory → Memory
write_bytes zero i position m = m
write_bytes (suc left) i position m =
    write_bytes left (i + 1) position (memory_write_byte m i (position i)).1

-- What is read into before it is assigned.
pub record Before : Type 0 where
  pub little : ℕ → ℕ
  pub big : ℕ → ℕ
  pub word : ℕ
  pub half : ℕ
  pub byte : ℕ

-- `main`; the memory of an index is that of the byte order.
unfoldable pub memory_test : Bool → ℕ → ℕ → Before → List Bool
memory_test host word_value half_value before =
    let m = λ (big : Bool).
      write_bytes 4 0 (host_byte host 4 word_value)
        (memory_create 4 big (if big then before.big else before.little)) in
    let same = m host in
    let other = m (not host) in
    let word_read = (memory_read_word same 0 before.word).1 in
    let half_read = (memory_read_half same 0 before.half).1 in
    let word_read' = (memory_read_word other 0 word_read).1 in
    let half_read' = (memory_read_half other 0 half_read).1 in
    let same_word = (memory_write_word same 0 word_value).1 in
    let same_half = (memory_write_half same_word 0 half_value).1 in
    let other_word = (memory_write_word other 0 word_value).1 in
    let other_half = (memory_write_half other_word 0 half_value).1 in
    let word_byte = host_byte host 4 word_value in
    let half_byte = host_byte host 2 half_value in
    compare word_byte (host_byte host 4 word_read) 4 false
    ∷ compare word_byte (host_byte host 2 half_read) 2 false
    ∷ compare word_byte (host_byte host 4 word_read') 4 true
    ∷ compare word_byte (host_byte host 2 half_read') 2 true
    ∷ compare_with_sim word_byte same_word 4 false before.byte
    ∷ compare_with_sim half_byte same_half 2 false before.byte
    ∷ compare_with_sim word_byte other_word 4 true before.byte
    ∷ compare_with_sim half_byte other_half 2 true before.byte
    ∷ []
