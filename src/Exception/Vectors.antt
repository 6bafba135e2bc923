-- ===== src/Exception/Vectors.antt =====
-- The state in which an exception is entered.
use l3_info_simulateur_arm.Base.{
  ℕ, ◌+◌, ◌*◌, ◌/◌, ◌%◌, ◌^◌, ◌<◌, ◌≡◌, ◌⊎◌, arith, if◌then◌else◌, ◌==◌, ◌||◌,
}
use l3_info_simulateur_arm.Util.{get_bit, get_bits, set_bit, clr_bit, set_bits}
use l3_info_simulateur_arm.Util.Laws.{set_bit_lem, clr_bit_lem, set_bits_lem}
use l3_info_simulateur_arm.Constants.{
  svc, abt, und, irq, fiq, reset, undefined_instruction, software_interrupt, prefetch_abort,
  data_abort, interrupt, fast_interrupt,
}
use l3_info_simulateur_arm.Exception.{entry, masked}

-- The mode in which each exception is handled.
abbrev pub mode_of : ℕ → ℕ
mode_of exception =
    if exception == undefined_instruction
    then und
    else if exception == prefetch_abort || exception == data_abort
    then abt
    else if exception == interrupt
    then irq
    else if exception == fast_interrupt
    then fiq
    else svc

masked_lem :
    (v : ℕ)
    → v < 2 ^ 32
    → (masked v < 2 ^ 32)
      × (masked v % 32 ≡ v % 32)
      × (masked v / 2 ^ 5 % 2 ≡ 0)
      × (masked v / 2 ^ 7 % 2 ≡ 1)
      × (masked v / 2 ^ 9 % 2 ≡ 0)
      × (masked v / 2 ^ 10 ≡ v / 2 ^ 10)
unfolding masked get_bit
masked_lem v h =
    let a = clr_bit v 5 in
    let b = set_bit a 7 in omega (arith, clr_bit_lem v 5, set_bit_lem a 7, clr_bit_lem b 9)

-- What holds of the status word in which an exception is entered.
abbrev pub IsEntered : ℕ → ℕ → ℕ → Type 0
IsEntered exception v c =
    (get_bits c 4 0 ≡ mode_of exception)
    × (get_bit c 5 ≡ 0)
    × (get_bit c 7 ≡ 1)
    × (get_bit c 9 ≡ 0)
    × (get_bits c 31 10 ≡ get_bits v 31 10)

abbrev pub IsException : ℕ → Type 0
IsException e =
    (e ≡ reset)
    ⊎ (e ≡ undefined_instruction)
    ⊎ (e ≡ software_interrupt)
    ⊎ (e ≡ prefetch_abort)
    ⊎ (e ≡ data_abort)
    ⊎ (e ≡ interrupt)
    ⊎ (e ≡ fast_interrupt)

-- The mode bits of a word `m` are set, and those from bit 9 on are kept.
moded_lem : (m mode : ℕ) → mode < 32 → m < 2 ^ 32 → set_bits m 4 0 mode ≡ m / 32 * 32 + mode
moded_lem m mode h hm = omega (arith, set_bits_lem m 4 0 mode)

entered :
    (v mode : ℕ)
    → mode < 32
    → v < 2 ^ 32
    → let c = set_bits (masked v) 4 0 mode in
      let Entered = λ (c : ℕ).
        (get_bits c 4 0 ≡ mode)
        × (get_bit c 5 ≡ 0)
        × (get_bit c 7 ≡ 1)
        × (get_bit c 9 ≡ 0)
        × (get_bits c 31 10 ≡ get_bits v 31 10) in
      (Entered c × Entered (set_bit c 8) × Entered (set_bit (set_bit c 6) 8))
unfolding get_bit get_bits
entered v mode h hv =
    let m = masked v in
    let c = set_bits m 4 0 mode in
    (
      omega (arith, masked_lem v hv, moded_lem m mode),
      omega (arith, masked_lem v hv, moded_lem m mode, set_bit_lem c 8),
      omega
          (arith, masked_lem v hv, moded_lem m mode, set_bit_lem c 6, set_bit_lem (set_bit c 6) 8),
    )

-- Every exception is entered in its mode, with interrupts off, in ARM state and with the flags kept.
pub entry-IsEntered :
    (e v : ℕ) → IsException e → v < 2 ^ 32 → IsEntered e v (entry e (masked v)).cpsr_value
unfolding entry
entry-IsEntered e v he hv = ground (
  arith,
  entered v svc (omega arith) hv,
  entered v und (omega arith) hv,
  entered v abt (omega arith) hv,
  entered v irq (omega arith) hv,
  entered v fiq (omega arith) hv,
)
