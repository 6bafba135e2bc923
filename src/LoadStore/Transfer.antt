-- ===== src/LoadStore/Transfer.antt =====
-- What the loops of LDM and STM transfer.
use l3_info_simulateur_arm.Base.{
  ℕ, zero, suc, ◌+◌, ◌-◌, ◌*◌, ◌%◌, ◌^◌, ◌≤◌, ◌<◌, ◌≡◌, ◌≢◌, ◌∙◌, refl, ap, arith, false,
  if◌then◌else◌, ◌==◌, Bool-cases, inl, inr, ==_iff,
}
use l3_info_simulateur_arm.Util.{get_bit, add32}
use l3_info_simulateur_arm.Memory.{
  Memory, success, memory_read_word, memory_write_word, memory_get_size,
}
use l3_info_simulateur_arm.Memory.Words.{memory_read_word-memory_write_word}
use l3_info_simulateur_arm.Core.{ArmCore, arm_read_register, arm_write_word}
use l3_info_simulateur_arm.Core.Keeps.{IsWordCore, arm_read_register-lt, arm_write_word-Keeps}
use l3_info_simulateur_arm.LoadStore.{store_registers}

-- The number of registers from `i` on, of `left`, that an instruction lists.
unfoldable pub listed : ℕ → ℕ → ℕ → ℕ
listed ins i zero = 0
listed ins i (suc left) = (if get_bit ins i == 1 then 1 else 0) + listed ins (i + 1) left

memory_read_word-other :
    (mem : Memory) (address value other old : ℕ)
    → address % 4 ≡ 0
    → other % 4 ≡ 0
    → other ≢ address
    → memory_read_word (memory_write_word mem address value).1 other old
      ≡ memory_read_word mem other old
unfolding memory_read_word memory_write_word memory_get_size
memory_read_word-other mem address value other old h k ne = ground arith

size-memory_write_word :
    (mem : Memory) (address value : ℕ) → (memory_write_word mem address value).1.size ≡ mem.size
unfolding memory_write_word
size-memory_write_word mem address value = ground arith

-- The processor after a round of STM.
abbrev stored : ArmCore → ℕ → ℕ → ArmCore
stored p address i = (arm_write_word p address (arm_read_register p i)).1

size-stored : (p : ArmCore) (address i : ℕ) → (stored p address i).mem.size ≡ p.mem.size
unfolding arm_write_word
size-stored p address i = size-memory_write_word p.mem address (arm_read_register p i)

stored-IsWordCore : (p : ArmCore) (address i : ℕ) → IsWordCore p → IsWordCore (stored p address i)
stored-IsWordCore p address i h =
    (arm_write_word-Keeps p address (arm_read_register p i) h (arm_read_register-lt p i h)).word

module _ (ins : ℕ) where
  -- A round of STM with and without the register.
  store_round :
      (left i address : ℕ) (p : ArmCore)
      → get_bit ins i ≡ 1
      → store_registers ins (suc left) i address p
        ≡ store_registers ins left (i + 1) (add32 address 4) (stored p address i)
  unfolding store_registers
  store_round left i address p h = rw h refl

  store_skip :
      (left i address : ℕ) (p : ArmCore)
      → (get_bit ins i == 1) ≡ false
      → store_registers ins (suc left) i address p ≡ store_registers ins left (i + 1) address p
  unfolding store_registers
  store_skip left i address p h = rw h refl

  pub listed_after : (i j : ℕ) → (get_bit ins i == 1) ≡ false → get_bit ins j ≡ 1 → i ≤ j → i < j
  listed_after i j e bit lo = elim (Bool-cases (i == j)) [
    | inl same ↦ ground (arith, ap (get_bit ins) ((==_iff i j).0 same))
    | inr apart ↦ ground (arith, apart)
  ]

  pub listed_none : (i j : ℕ) → i ≡ j → listed ins i (j - i) ≡ 0
  unfolding listed
  listed_none i j e = let none : j - i ≡ 0 = omega arith in ap (listed ins i) none

  pub listed_from :
      (i j : ℕ)
      → i < j
      → listed ins i (j - i)
        ≡ (if get_bit ins i == 1 then 1 else 0) + listed ins (i + 1) (j - (i + 1))
  unfolding listed
  listed_from i j h = let one : j - i ≡ suc (j - (i + 1)) = omega arith in ap (listed ins i) one

  -- The processor after a loop of STM: words from the address on hold the registers that are listed.
  pub record Stored (left i address : ℕ) (p q : ArmCore) : Type 0 where
    pub reg : q.reg ≡ p.reg
    pub size : q.mem.size ≡ p.mem.size
    pub below :
        (b old : ℕ)
        → b % 4 ≡ 0
        → b < address
        → memory_read_word q.mem b old ≡ memory_read_word p.mem b old
    pub holds :
        (j old : ℕ)
        → i ≤ j
        → j < i + left
        → get_bit ins j ≡ 1
        → memory_read_word q.mem (address + 4 * listed ins i (j - i)) old
          ≡ (success, arm_read_register p j)

  module _ (left i address : ℕ) (p q : ArmCore) where
    Stored-skip :
        (get_bit ins i == 1) ≡ false
        → Stored left (i + 1) address p q
        → Stored (suc left) i address p q
    Stored-skip e h = record {
      reg = h.reg;
      size = h.size;
      below = h.below;
      holds = λ j old lo hi bit.
          let next = listed_after i j e bit lo in
          let same : listed ins i (j - i) ≡ listed ins (i + 1) (j - (i + 1)) =
            ground (arith, e, listed_from i j next) in
          ap (λ n. memory_read_word q.mem (address + 4 * n) old) same
          ∙ h.holds j old (omega arith) (omega arith) bit;
    }

    Stored-round :
        get_bit ins i ≡ 1
        → address % 4 ≡ 0
        → address < p.mem.size
        → IsWordCore p
        → Stored left (i + 1) (address + 4) (stored p address i) q
        → Stored (suc left) i address p q
    unfolding arm_write_word arm_read_register
    Stored-round e aligned inside word h = record {
      reg = h.reg;
      size = h.size ∙ size-memory_write_word p.mem address (arm_read_register p i);
      below = λ b old k lt.
          h.below b old k (omega arith)
          ∙ memory_read_word-other p.mem address (arm_read_register p i) b old aligned k
              (omega arith);
      holds = λ j old lo hi bit. elim (Bool-cases (i == j)) [
        | inl same ↦
            let here = (==_iff i j).0 same in
            let place : address + 4 * listed ins i (j - i) ≡ address =
              omega (arith, listed_none i j here) in
            ap (λ a. memory_read_word q.mem a old) place
            ∙ h.below address old aligned (omega arith)
            ∙ memory_read_word-memory_write_word p.mem address (arm_read_register p i) old inside
                aligned (arm_read_register-lt p i word)
            ∙ ap (λ k. (success, arm_read_register p k)) here
        | inr apart ↦
            let next : i < j = ground (arith, apart) in
            let place : address + 4 * listed ins i (j - i)
                ≡ address + 4 + 4 * listed ins (i + 1) (j - (i + 1)) =
              ground (arith, e, listed_from i j next) in
            ap (λ a. memory_read_word q.mem a old) place
            ∙ h.holds j old (omega arith) (omega arith) bit
      ];
    }

  -- STM from an aligned address on, where the words fit the memory.
  pub store_registers-Stored :
      (left i address : ℕ) (p : ArmCore)
      → IsWordCore p
      → p.mem.size < 2 ^ 32
      → address % 4 ≡ 0
      → address + 4 * listed ins i left ≤ p.mem.size
      → Stored left i address p (store_registers ins left i address p).1
  unfolding store_registers listed
  store_registers-Stored zero i address p word small aligned fits = record {
    reg = refl;
    size = refl;
    below = λ b old k lt. refl;
    holds = λ j old lo hi bit. absurd (omega arith);
  }
  store_registers-Stored (suc left) i address p word small aligned fits =
      elim (Bool-cases (get_bit ins i == 1)) [
        | inl yes_bit ↦
            let bit : get_bit ins i ≡ 1 = (==_iff _ 1).0 yes_bit in
            let room : address + 4 + 4 * listed ins (i + 1) left ≤ p.mem.size =
              ground (arith, bit) in
            let next : add32 address 4 ≡ address + 4 = omega arith in
            let same = size-stored p address i in
            Stored-round left i address p _ bit aligned (omega arith) word (
              rw (store_round left i address p bit, next)
                (store_registers-Stored left (i + 1) (address + 4) (stored p address i)
                  (stored-IsWordCore p address i word) (omega (arith, same)) (omega arith)
                  (omega (arith, same))))
        | inr no_bit ↦ Stored-skip left i address p _ no_bit (
            rw (store_skip left i address p no_bit) (
              store_registers-Stored left (i + 1) address p word small aligned
                (ground (arith, no_bit))))
      ]
