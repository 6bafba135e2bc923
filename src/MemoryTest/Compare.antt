-- ===== src/MemoryTest/Compare.antt =====
-- The comparisons of the test, and the bytes of a value on the host and in a memory.
use l3_info_simulateur_arm.Base.{
  ℕ, zero, suc, ◌+◌, ◌<◌, ◌≡◌, ◌∙◌, refl, ap, arith, Bool, true, false, not,
}
use l3_info_simulateur_arm.Memory.{Memory, memory_read_byte, memory_write_byte}
use l3_info_simulateur_arm.Memory.Bytes.{
  IsWordMemory, byte_at, byte_at-memory_write_byte, memory_write_byte-IsWordMemory,
  memory_write_byte-shape, memory_read_byte_lem,
}
use l3_info_simulateur_arm.Memory.Words.{half_of, word_of, nth_byte}
use l3_info_simulateur_arm.MemoryTest.{
  host_byte, compare_loop, compare, sim_loop, compare_with_sim, write_bytes,
}

-- A memory of four bytes in a byte order that holds the bytes `f`.
pub record Holds (big : Bool) (f : ℕ → ℕ) (m : Memory) : Type 0 where
  pub size : m.size ≡ 4
  pub order : m.is_big_endian ≡ big
  pub word : IsWordMemory m
  pub bytes : (i : ℕ) → i < 4 → byte_at m i ≡ f i

-- What a comparison reads, from both ends.
module _ (a b : ℕ → ℕ) where
  pub compare_4 : (a 0 ≡ b 0) × (a 1 ≡ b 1) × (a 2 ≡ b 2) × (a 3 ≡ b 3) → compare a b 4 false ≡ true
  unfolding compare compare_loop
  compare_4 (h0, h1, h2, h3) = ground arith

  pub compare_4_reverse :
      (a 0 ≡ b 3) × (a 1 ≡ b 2) × (a 2 ≡ b 1) × (a 3 ≡ b 0) → compare a b 4 true ≡ true
  unfolding compare compare_loop
  compare_4_reverse (h0, h1, h2, h3) = ground arith

  pub compare_2 : (a 0 ≡ b 0) × (a 1 ≡ b 1) → compare a b 2 false ≡ true
  unfolding compare compare_loop
  compare_2 (h0, h1) = ground arith

  pub compare_2_reverse : (a 0 ≡ b 1) × (a 1 ≡ b 0) → compare a b 2 true ≡ true
  unfolding compare compare_loop
  compare_2_reverse (h0, h1) = ground arith

read_inside :
    (m : Memory) (address value : ℕ)
    → m.size ≡ 4
    → address < 4
    → (memory_read_byte m address value).1 ≡ byte_at m address
read_inside m address value e h = rw (memory_read_byte_lem m address value) (ground (arith, e, h))

-- A memory is compared as its bytes are.
module _ (a : ℕ → ℕ) (m : Memory) (value : ℕ) (e : m.size ≡ 4) where
  pub sim_4 : compare_with_sim a m 4 false value ≡ compare a (byte_at m) 4 false
  unfolding compare compare_loop compare_with_sim sim_loop
  sim_4 =
      rw
        (
          read_inside m 0 value e (omega arith),
          read_inside m 1 (byte_at m 0) e (omega arith),
          read_inside m 2 (byte_at m 1) e (omega arith),
          read_inside m 3 (byte_at m 2) e (omega arith),
        )
        refl

  pub sim_4_reverse : compare_with_sim a m 4 true value ≡ compare a (byte_at m) 4 true
  unfolding compare compare_loop compare_with_sim sim_loop
  sim_4_reverse =
      rw
        (
          read_inside m 3 value e (omega arith),
          read_inside m 2 (byte_at m 3) e (omega arith),
          read_inside m 1 (byte_at m 2) e (omega arith),
          read_inside m 0 (byte_at m 1) e (omega arith),
        )
        refl

  pub sim_2 : compare_with_sim a m 2 false value ≡ compare a (byte_at m) 2 false
  unfolding compare compare_loop compare_with_sim sim_loop
  sim_2 =
      rw (read_inside m 0 value e (omega arith), read_inside m 1 (byte_at m 0) e (omega arith)) refl

  pub sim_2_reverse : compare_with_sim a m 2 true value ≡ compare a (byte_at m) 2 true
  unfolding compare compare_loop compare_with_sim sim_loop
  sim_2_reverse =
      rw (read_inside m 1 value e (omega arith), read_inside m 0 (byte_at m 1) e (omega arith)) refl

pub write_bytes_lem :
    (left i : ℕ) (position : ℕ → ℕ) (big : Bool) (m : Memory)
    → m.size ≡ 4
    → m.is_big_endian ≡ big
    → IsWordMemory m
    → ((k : ℕ) → position k < 256)
    → i + left ≡ 4
    → ((k : ℕ) → k < i → byte_at m k ≡ position k)
    → Holds big position (write_bytes left i position m)
unfolding write_bytes
write_bytes_lem zero i position big m e order word small full done = record {
  size = e;
  order = order;
  word = word;
  bytes = λ k h. done k (omega (arith, full));
}
write_bytes_lem (suc left) i position big m e order word small full done =
    let next = (memory_write_byte m i (position i)).1 in
    let inside : i < m.size = omega (arith, e, full) in
    let shape = memory_write_byte-shape m i (position i) in
    write_bytes_lem left (i + 1) position big next (shape.0 ∙ e) (shape.1 ∙ order)
      (memory_write_byte-IsWordMemory m i (position i) word (small i)) small (omega (arith, full))
      (λ k h. ground (
        arith,
        done k,
        ap position,
        byte_at-memory_write_byte m i (position i) k word (small i) inside,
      ))

pub host_byte-lt : (host : Bool) (size v i : ℕ) → host_byte host size v i < 256
unfolding host_byte
host_byte-lt host size v i = omega arith

-- A word that is put together from the bytes of the host, or in the other order.
pub host_bytes_word :
    (host : Bool) (w : ℕ)
    → let f = host_byte host 4 w in
      let v = word_of host (f 0) (f 1) (f 2) (f 3) in
      let v' = word_of (not host) (f 0) (f 1) (f 2) (f 3) in
      let g = host_byte host 4 v in
      let g' = host_byte host 4 v' in
      ((f 0 ≡ g 0) × (f 1 ≡ g 1) × (f 2 ≡ g 2) × (f 3 ≡ g 3))
      × ((f 0 ≡ g' 3) × (f 1 ≡ g' 2) × (f 2 ≡ g' 1) × (f 3 ≡ g' 0))
unfolding host_byte
host_bytes_word true w = omega arith
host_bytes_word false w = omega arith

pub host_bytes_half :
    (host : Bool) (w : ℕ)
    → let f = host_byte host 4 w in
      let g = host_byte host 2 (half_of host (f 0) (f 1)) in
      let g' = host_byte host 2 (half_of (not host) (f 0) (f 1)) in
      ((f 0 ≡ g 0) × (f 1 ≡ g 1)) × ((f 0 ≡ g' 1) × (f 1 ≡ g' 0))
unfolding host_byte
host_bytes_half true w = omega arith
host_bytes_half false w = omega arith

-- The bytes of a value in a memory.
pub nth_byte-host_byte :
    (host : Bool) (v : ℕ)
    → ((host_byte host 4 v 0 ≡ nth_byte host 4 v 0)
        × (host_byte host 4 v 1 ≡ nth_byte host 4 v 1)
        × (host_byte host 4 v 2 ≡ nth_byte host 4 v 2)
        × (host_byte host 4 v 3 ≡ nth_byte host 4 v 3))
      × ((host_byte host 4 v 0 ≡ nth_byte (not host) 4 v 3)
          × (host_byte host 4 v 1 ≡ nth_byte (not host) 4 v 2)
          × (host_byte host 4 v 2 ≡ nth_byte (not host) 4 v 1)
          × (host_byte host 4 v 3 ≡ nth_byte (not host) 4 v 0))
      × ((host_byte host 2 v 0 ≡ nth_byte host 2 v 0)
          × (host_byte host 2 v 1 ≡ nth_byte host 2 v 1))
      × ((host_byte host 2 v 0 ≡ nth_byte (not host) 2 v 1)
          × (host_byte host 2 v 1 ≡ nth_byte (not host) 2 v 0))
unfolding host_byte
nth_byte-host_byte true v = omega arith
nth_byte-host_byte false v = omega arith
