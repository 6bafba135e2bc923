-- ===== src/MemoryTest/Passes.antt =====
-- The test of the memory on all values and hosts.
use l3_info_simulateur_arm.Base.{
  ℕ, ◌^◌, ◌<◌, ◌≡◌, ◌∙◌, refl, sym, arith, Bool, true, false, not, if◌then◌else◌, [], ◌∷◌,
}
use l3_info_simulateur_arm.Memory.{
  Memory, memory_create, memory_read_half, memory_read_word, memory_write_half, memory_write_word,
}
use l3_info_simulateur_arm.Memory.Bytes.{byte_at}
use l3_info_simulateur_arm.Memory.Words.{
  half_of, word_of, nth_byte, memory_read_word_lem, memory_read_half_lem, byte_at-memory_write_word,
}
use l3_info_simulateur_arm.Memory.Halves.{
  byte_at-memory_write_half, memory_write_word-IsWordMemory, memory_write_word-shape,
  memory_write_half-shape,
}
use l3_info_simulateur_arm.MemoryTest.{
  host_byte, compare, compare_with_sim, write_bytes, Before, memory_test,
}
use l3_info_simulateur_arm.MemoryTest.Compare.{
  Holds, compare_4, compare_4_reverse, compare_2, compare_2_reverse, sim_4, sim_4_reverse, sim_2,
  sim_2_reverse, write_bytes_lem, host_byte-lt, host_bytes_word, host_bytes_half,
  nth_byte-host_byte,
}

module _ (big : Bool) (f : ℕ → ℕ) (m : Memory) (holds : Holds big f m) where
  word_read : (old : ℕ) → (memory_read_word m 0 old).1 ≡ word_of big (f 0) (f 1) (f 2) (f 3)
  word_read old =
      rw
        (
          memory_read_word_lem m 0 old holds.word,
          holds.size,
          holds.order,
          holds.bytes 0 (omega arith),
          holds.bytes 1 (omega arith),
          holds.bytes 2 (omega arith),
          holds.bytes 3 (omega arith),
        )
        refl

  half_read : (old : ℕ) → (memory_read_half m 0 old).1 ≡ half_of big (f 0) (f 1)
  half_read old =
      rw
        (
          memory_read_half_lem m 0 old,
          holds.size,
          holds.order,
          holds.bytes 0 (omega arith),
          holds.bytes 1 (omega arith),
        )
        refl

  word_written : (w : ℕ) → w < 2 ^ 32 → Holds big (nth_byte big 4 w) (memory_write_word m 0 w).1
  word_written w h =
      let inside : 0 < m.size = omega (arith, holds.size) in
      let shape = memory_write_word-shape m 0 w in
      record {
        size = shape.0 ∙ holds.size;
        order = shape.1 ∙ holds.order;
        word = memory_write_word-IsWordMemory m 0 w holds.word h;
        bytes = λ i hi.
            byte_at-memory_write_word m 0 w i inside refl ∙ rw holds.order (ground (arith, hi));
      }

  half_written :
      (v : ℕ)
      → v < 2 ^ 16
      → let m' = (memory_write_half m 0 v).1 in
        (m'.size ≡ 4) × (byte_at m' 0 ≡ nth_byte big 2 v 0) × (byte_at m' 1 ≡ nth_byte big 2 v 1)
  half_written v h =
      let inside : 0 < m.size = omega (arith, holds.size) in
      (
        (memory_write_half-shape m 0 v).0 ∙ holds.size,
        byte_at-memory_write_half m 0 v 0 holds.word h inside refl ∙ rw holds.order refl,
        byte_at-memory_write_half m 0 v 1 holds.word h inside refl ∙ rw holds.order refl,
      )

-- The eight comparisons, with the memory in the byte order of the host and the other.
module _ (host : Bool) (w v : ℕ) (hw : w < 2 ^ 32) (hv : v < 2 ^ 16) (same other : Memory)
    (is_same : Holds host (host_byte host 4 w) same)
    (is_other : Holds (not host) (host_byte host 4 w) other) where
  abbrev a : ℕ → ℕ
  a = host_byte host 4 w

  word_same :
      (old : ℕ) → compare a (host_byte host 4 (memory_read_word same 0 old).1) 4 false ≡ true
  word_same old = rw (word_read host a same is_same old) (compare_4 a _ (host_bytes_word host w).0)

  half_same :
      (old : ℕ) → compare a (host_byte host 2 (memory_read_half same 0 old).1) 2 false ≡ true
  half_same old = rw (half_read host a same is_same old) (compare_2 a _ (host_bytes_half host w).0)

  word_other :
      (old : ℕ) → compare a (host_byte host 4 (memory_read_word other 0 old).1) 4 true ≡ true
  word_other old =
      rw (word_read (not host) a other is_other old)
        (compare_4_reverse a _ (host_bytes_word host w).1)

  half_other :
      (old : ℕ) → compare a (host_byte host 2 (memory_read_half other 0 old).1) 2 true ≡ true
  half_other old =
      rw (half_read (not host) a other is_other old)
        (compare_2_reverse a _ (host_bytes_half host w).1)

  same_written : Holds host (nth_byte host 4 w) (memory_write_word same 0 w).1
  same_written = word_written host a same is_same w hw

  other_written : Holds (not host) (nth_byte (not host) 4 w) (memory_write_word other 0 w).1
  other_written = word_written (not host) a other is_other w hw

  word_to_same : (old : ℕ) → compare_with_sim a (memory_write_word same 0 w).1 4 false old ≡ true
  word_to_same old =
      let m = (memory_write_word same 0 w).1 in
      let at = (nth_byte-host_byte host w).0 in
      sim_4 a m old same_written.size
      ∙ compare_4 a (byte_at m) (
        at.0 ∙ sym (same_written.bytes 0 (omega arith)),
        at.1 ∙ sym (same_written.bytes 1 (omega arith)),
        at.2 ∙ sym (same_written.bytes 2 (omega arith)),
        at.3 ∙ sym (same_written.bytes 3 (omega arith)),
      )

  word_to_other : (old : ℕ) → compare_with_sim a (memory_write_word other 0 w).1 4 true old ≡ true
  word_to_other old =
      let m = (memory_write_word other 0 w).1 in
      let at = (nth_byte-host_byte host w).1 in
      sim_4_reverse a m old other_written.size
      ∙ compare_4_reverse a (byte_at m) (
        at.0 ∙ sym (other_written.bytes 3 (omega arith)),
        at.1 ∙ sym (other_written.bytes 2 (omega arith)),
        at.2 ∙ sym (other_written.bytes 1 (omega arith)),
        at.3 ∙ sym (other_written.bytes 0 (omega arith)),
      )

  half_to_same :
      (old : ℕ)
      → compare_with_sim
          (host_byte host 2 v)
          (memory_write_half (memory_write_word same 0 w).1 0 v).1
          2
          false
          old
        ≡ true
  half_to_same old =
      let m = (memory_write_half (memory_write_word same 0 w).1 0 v).1 in
      let at = (nth_byte-host_byte host v).2 in
      let half =
        half_written host (nth_byte host 4 w) (memory_write_word same 0 w).1 same_written v hv in
      sim_2 (host_byte host 2 v) m old half.0
      ∙ compare_2 (host_byte host 2 v) (byte_at m) (at.0 ∙ sym half.1, at.1 ∙ sym half.2)

  half_to_other :
      (old : ℕ)
      → compare_with_sim
          (host_byte host 2 v)
          (memory_write_half (memory_write_word other 0 w).1 0 v).1
          2
          true
          old
        ≡ true
  half_to_other old =
      let m = (memory_write_half (memory_write_word other 0 w).1 0 v).1 in
      let at = (nth_byte-host_byte host v).3 in
      let half =
        half_written (not host) (nth_byte (not host) 4 w) (memory_write_word other 0 w).1
          other_written v hv in
      sim_2_reverse (host_byte host 2 v) m old half.0
      ∙ compare_2_reverse (host_byte host 2 v) (byte_at m) (at.0 ∙ sym half.2, at.1 ∙ sym half.1)

made-Holds :
    (host big : Bool) (w : ℕ) (init : ℕ → ℕ)
    → ((i : ℕ) → init i < 2 ^ 32)
    → Holds big
        (host_byte host 4 w)
        (write_bytes 4 0 (host_byte host 4 w) (memory_create 4 big init))
unfolding memory_create
made-Holds host big w init h =
    write_bytes_lem 4 0 (host_byte host 4 w) big (memory_create 4 big init) refl refl h
      (host_byte-lt host 4 w) refl (λ k hk. absurd (omega (arith, hk)))

chosen_lt :
    (b : Bool) (f g : ℕ → ℕ)
    → ((i : ℕ) → f i < 2 ^ 32)
    → ((i : ℕ) → g i < 2 ^ 32)
    → (i : ℕ) → (if b then f else g) i < 2 ^ 32
chosen_lt true f g h k = h
chosen_lt false f g h k = k

-- The test of memory_test.c prints eight times that it succeeded, not only for its two values: for
-- every 32-bit word and every 16-bit halfword, on hosts of both byte orders, and whatever the
-- variables held before and the memories, whose words have 32 bits.
pub memory_test_passes :
    (host : Bool) (word_value half_value : ℕ) (before : Before)
    → word_value < 2 ^ 32
    → half_value < 2 ^ 16
    → ((i : ℕ) → before.little i < 2 ^ 32)
    → ((i : ℕ) → before.big i < 2 ^ 32)
    → memory_test host word_value half_value before
      ≡ true ∷ true ∷ true ∷ true ∷ true ∷ true ∷ true ∷ true ∷ []
unfolding memory_test
memory_test_passes host w v before hw hv small small' =
    let m = λ (big : Bool).
      write_bytes 4 0 (host_byte host 4 w)
        (memory_create 4 big (if big then before.big else before.little)) in
    let made : (big : Bool) → Holds big (host_byte host 4 w) (m big) =
      λ big. made-Holds host big w _ (chosen_lt big before.big before.little small' small) in
    let same = m host in
    let other = m (not host) in
    let is_same = made host in
    let is_other = made (not host) in
    rw
      (
        word_same host w v hw hv same other is_same is_other before.word,
        half_same host w v hw hv same other is_same is_other before.half,
        word_other host w v hw hv same other is_same is_other
            (memory_read_word same 0 before.word).1,
        half_other host w v hw hv same other is_same is_other
            (memory_read_half same 0 before.half).1,
        word_to_same host w v hw hv same other is_same is_other before.byte,
        half_to_same host w v hw hv same other is_same is_other before.byte,
        word_to_other host w v hw hv same other is_same is_other before.byte,
        half_to_other host w v hw hv same other is_same is_other before.byte,
      )
      refl
