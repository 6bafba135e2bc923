-- ===== src/Examples/Accesses.antt =====
-- Reads and writes of memories of 64 bytes in both byte orders.
use l3_info_simulateur_arm.Base.{[], ◌∷◌, ◌≡◌, ◌≤◌, ◌↔◌, ◌⊎◌, ◌≢◌, ◌%◌, refl, arith, true, false}
use l3_info_simulateur_arm.Memory.{failure, memory_write_byte, memory_write_half, memory_write_word}
use l3_info_simulateur_arm.Memory.Bytes.{byte_at}
use l3_info_simulateur_arm.Memory.Words.{nth_byte, byte_at-memory_write_word}
use l3_info_simulateur_arm.Memory.Halves.{memory_write_refused}
use l3_info_simulateur_arm.MemoryTest.{Before, memory_test}
use l3_info_simulateur_arm.MemoryTest.Passes.{memory_test_passes}
use l3_info_simulateur_arm.Examples.{little, big}

byte_at-memory_write_word_example :
    byte_at (memory_write_word big 12 0x11223344).1 13 ≡ nth_byte true 4 0x11223344 1
byte_at-memory_write_word_example =
    byte_at-memory_write_word big 12 0x11223344 13 (omega arith) refl

memory_write_refused_example :
    ((memory_write_byte little 63 9 ≡ (failure, little)) ↔ (64 ≤ 63))
    × ((memory_write_half little 63 9 ≡ (failure, little)) ↔ ((64 ≤ 63) ⊎ (63 % 2 ≢ 0)))
    × ((memory_write_word little 63 9 ≡ (failure, little)) ↔ ((64 ≤ 63) ⊎ (63 % 4 ≢ 0)))
memory_write_refused_example = memory_write_refused little 63 9

abbrev before : Before
before = record { little = λ i. 0x5A5A5A5A; big = λ i. 7; word = 1; half = 2; byte = 3 }

memory_test_passes_example :
    memory_test false 0x11223344 0x5566 before
    ≡ true ∷ true ∷ true ∷ true ∷ true ∷ true ∷ true ∷ true ∷ []
memory_test_passes_example =
    memory_test_passes false 0x11223344 0x5566 before (omega arith) (omega arith) (λ i. omega arith)
      (λ i. omega arith)
