-- ===== src/LoadStore/Loads.antt =====
-- What the loop of LDM loads.
use l3_info_simulateur_arm.Base.{
  ℕ, zero, suc, ◌+◌, ◌-◌, ◌*◌, ◌^◌, ◌≤◌, ◌<◌, ◌≡◌, ◌≢◌, ◌∙◌, refl, sym, ap, arith, true, false,
  if◌then◌else◌, ◌==◌, Bool-cases, inl, inr, ==_iff, ==_ne,
}
use l3_info_simulateur_arm.Util.{get_bit, add32}
use l3_info_simulateur_arm.Registers.{get_mode, read_register}
use l3_info_simulateur_arm.Registers.Banks.{IsMode}
use l3_info_simulateur_arm.Registers.Access.{read_register-write_register, get_mode-write_register}
use l3_info_simulateur_arm.Memory.{memory_read_word}
use l3_info_simulateur_arm.Core.{ArmCore, arm_write_register, arm_read_word}
use l3_info_simulateur_arm.LoadStore.{Stale, load_registers}
use l3_info_simulateur_arm.LoadStore.Transfer.{listed, listed_after, listed_none, listed_from}

-- The processor after a round of LDM.
abbrev loaded : Stale → ArmCore → ℕ → ℕ → ArmCore
loaded stale p address i = arm_write_register p i (arm_read_word p address (stale.loaded i)).1

module _ (stale : Stale) (ins : ℕ) where
  loaded-IsMode :
      (p : ArmCore) (address i : ℕ)
      → IsMode (get_mode p.reg)
      → i < 16
      → IsMode (get_mode (loaded stale p address i).reg)
  unfolding arm_write_register
  loaded-IsMode p address i valid h = rw (get_mode-write_register p.reg i _ valid h) valid

  load_round :
      (left i address : ℕ) (p : ArmCore)
      → get_bit ins i ≡ 1
      → load_registers stale ins (suc left) i address p
        ≡ load_registers stale ins left (i + 1) (add32 address 4) (loaded stale p address i)
  unfolding load_registers
  load_round left i address p h = rw h refl

  load_skip :
      (left i address : ℕ) (p : ArmCore)
      → (get_bit ins i == 1) ≡ false
      → load_registers stale ins (suc left) i address p
        ≡ load_registers stale ins left (i + 1) address p
  unfolding load_registers
  load_skip left i address p h = rw h refl

  -- The processor after a loop of LDM: the registers that are listed hold the words from the address
  -- on, and the others are as before.
  pub record Loaded (left i address : ℕ) (p q : ArmCore) : Type 0 where
    pub mem : q.mem ≡ p.mem
    pub mode : get_mode q.reg ≡ get_mode p.reg
    pub kept :
        (j : ℕ)
        → j < 16
        → (i ≤ j → j < i + left → get_bit ins j ≢ 1)
        → read_register q.reg j ≡ read_register p.reg j
    pub holds :
        (j : ℕ)
        → i ≤ j
        → j < i + left
        → get_bit ins j ≡ 1
        → read_register q.reg j
          ≡ (memory_read_word p.mem (address + 4 * listed ins i (j - i)) (stale.loaded j)).1

  module _ (left i address : ℕ) (p q : ArmCore) where
    Loaded-skip :
        (get_bit ins i == 1) ≡ false
        → Loaded left (i + 1) address p q
        → Loaded (suc left) i address p q
    Loaded-skip e h = record {
      mem = h.mem;
      mode = h.mode;
      kept = λ j lt out. h.kept j lt (λ lo hi. out (omega arith) (omega arith));
      holds = λ j lo hi bit.
          let next = listed_after ins i j e bit lo in
          let same : listed ins i (j - i) ≡ listed ins (i + 1) (j - (i + 1)) =
            ground (arith, e, listed_from ins i j next) in
          h.holds j (omega arith) (omega arith) bit
          ∙ ap (λ n. (memory_read_word p.mem (address + 4 * n) (stale.loaded j)).1) (sym same);
    }

    Loaded-round :
        get_bit ins i ≡ 1
        → i < 16
        → IsMode (get_mode p.reg)
        → Loaded left (i + 1) (address + 4) (loaded stale p address i) q
        → Loaded (suc left) i address p q
    unfolding arm_write_register arm_read_word
    Loaded-round e small valid h =
        let value = (memory_read_word p.mem address (stale.loaded i)).1 in
        let kept_value : (j : ℕ) (v : ℕ)
            → (i ≤ j → j < i + suc left → get_bit ins j ≢ 1)
            → (if j == i then v else read_register p.reg j) ≡ read_register p.reg j =
          λ j v out.
            rw (==_ne j i (λ same. out (omega arith) (omega arith) (ap (get_bit ins) same ∙ e)))
              refl in
        record {
          mem = h.mem;
          mode = h.mode ∙ get_mode-write_register p.reg i value valid small;
          kept = λ j lt out.
              h.kept j lt (λ lo hi. out (omega arith) (omega arith))
              ∙ read_register-write_register p.reg i j value valid small lt
              ∙ kept_value j value out;
          holds = λ j lo hi bit. elim (Bool-cases (i == j)) [
            | inl same ↦
                let here = (==_iff i j).0 same in
                let there : (j == i) ≡ true = (==_iff j i).1 (sym here) in
                let place : address ≡ address + 4 * listed ins i (j - i) =
                  omega (arith, listed_none ins i j here) in
                h.kept j (omega arith) (λ low. absurd (omega arith))
                ∙ read_register-write_register p.reg i j value valid small (omega arith)
                ∙ rw there refl
                ∙ ap (λ k. (memory_read_word p.mem address (stale.loaded k)).1) here
                ∙ ap (λ a. (memory_read_word p.mem a (stale.loaded j)).1) place
            | inr apart ↦
                let next : i < j = ground (arith, apart) in
                let place : address + 4 + 4 * listed ins (i + 1) (j - (i + 1))
                    ≡ address + 4 * listed ins i (j - i) =
                  ground (arith, e, listed_from ins i j next) in
                h.holds j (omega arith) (omega arith) bit
                ∙ ap (λ a. (memory_read_word p.mem a (stale.loaded j)).1) place
          ];
        }

  pub load_registers-Loaded :
      (left i address : ℕ) (p : ArmCore)
      → IsMode (get_mode p.reg)
      → i + left ≤ 16
      → address + 4 * listed ins i left < 2 ^ 32
      → Loaded left i address p (load_registers stale ins left i address p).1
  unfolding load_registers listed
  load_registers-Loaded zero i address p valid few small = record {
    mem = refl;
    mode = refl;
    kept = λ j lt out. refl;
    holds = λ j lo hi bit. absurd (omega arith);
  }
  load_registers-Loaded (suc left) i address p valid few small =
      elim (Bool-cases (get_bit ins i == 1)) [
        | inl yes_bit ↦
            let bit : get_bit ins i ≡ 1 = (==_iff _ 1).0 yes_bit in
            let room : address + 4 + 4 * listed ins (i + 1) left < 2 ^ 32 = ground (arith, bit) in
            let next : add32 address 4 ≡ address + 4 = omega arith in
            Loaded-round left i address p _ bit (omega arith) valid (
              rw (load_round left i address p bit, next)
                (load_registers-Loaded left (i + 1) (address + 4) (loaded stale p address i)
                  (loaded-IsMode p address i valid (omega arith)) (omega arith) room))
        | inr no_bit ↦ Loaded-skip left i address p _ no_bit (
            rw (load_skip left i address p no_bit) (
              load_registers-Loaded left (i + 1) address p valid (omega arith)
                (ground (arith, no_bit))))
      ]
