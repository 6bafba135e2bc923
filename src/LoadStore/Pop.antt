-- ===== src/LoadStore/Pop.antt =====
-- A push and a pop of the same registers.
use l3_info_simulateur_arm.Base.{
  ℕ, zero, suc, ◌+◌, ◌*◌, ◌%◌, ◌^◌, ◌≤◌, ◌<◌, ◌≡◌, ◌≢◌, ◌∙◌, refl, sym, ap, arith, true, false,
  ◌==◌, Bool-cases, inl, inr, ==_ne,
}
use l3_info_simulateur_arm.Util.{get_bit, get_bits, add32, sub32, minus_one}
use l3_info_simulateur_arm.Registers.{get_mode, read_register}
use l3_info_simulateur_arm.Registers.Banks.{IsMode}
use l3_info_simulateur_arm.Registers.Access.{read_register-write_register, get_mode-write_register}
use l3_info_simulateur_arm.Core.{ArmCore, arm_write_register}
use l3_info_simulateur_arm.Condition.{condition}
use l3_info_simulateur_arm.LoadStore.Address.{get_address_mode_multi}
use l3_info_simulateur_arm.LoadStore.Multiple.{field_bit}
use l3_info_simulateur_arm.LoadStore.Transfer.{listed}
use l3_info_simulateur_arm.LoadStore.Loads.{Loaded, load_registers-Loaded}
use l3_info_simulateur_arm.LoadStore.Stack.{IsPop, number-listed, plain_register, condition-write}
use l3_info_simulateur_arm.LoadStore.{Stale, load_registers, load_pc, arm_load_store_multiple}

pub same_bit : (a b i : ℕ) → get_bits a 15 0 ≡ get_bits b 15 0 → i < 16 → get_bit a i ≡ get_bit b i
same_bit a b i e h = sym (field_bit a i h) ∙ ap (λ w. get_bit w i) e ∙ field_bit b i h

pub same_list :
    (a b i left : ℕ)
    → get_bits a 15 0 ≡ get_bits b 15 0
    → i + left ≤ 16
    → listed a i left ≡ listed b i left
unfolding listed
same_list a b i zero e h = refl
same_list a b i (suc left) e h =
    ground (arith, same_bit a b i e (omega arith), same_list a b (i + 1) left e (omega arith))

listed_fewer : (ins i left : ℕ) → listed ins i left ≤ listed ins i (suc left)
unfolding listed
listed_fewer ins i zero = omega arith
listed_fewer ins i (suc left) = omega (arith, listed_fewer ins (i + 1) left)

-- The loaded program counter leaves the other registers alone.
load_pc-other :
    (stale : Stale) (ins address : ℕ) (q : ArmCore) (j : ℕ)
    → IsMode (get_mode q.reg)
    → j < 15
    → read_register (load_pc stale ins address q).1.reg j ≡ read_register q.reg j
unfolding load_pc arm_write_register
load_pc-other stale ins address q j valid h = elim (Bool-cases (get_bit ins 15 == 1)) [
  | inl e ↦ rw e (
      read_register-write_register q.reg 15 j _ valid (omega arith) (omega arith)
      ∙ rw (==_ne j 15 (λ same. omega (arith, same))) refl)
  | inr e ↦ rw e refl
]

module _ (stale : Stale) (q : ArmCore) (ins rn top : ℕ) (pop : IsPop ins rn) (low : rn < 15)
    (valid : IsMode (get_mode q.reg)) (holds : condition q ins ≡ true)
    (here : read_register q.reg rn ≡ top) (aligned : top % 4 ≡ 0)
    (fits : top + 4 * listed ins 0 16 < 2 ^ 32) where
  abbrev pub raised : ArmCore
  raised = arm_write_register q rn (top + 4 * listed ins 0 16)

  pop_mode : get_address_mode_multi q ins ≡ record {
    start_address = top;
    end_address = sub32 (top + 4 * listed ins 0 16) 4;
    core = raised;
  }
  unfolding get_address_mode_multi
  pop_mode =
      let up : add32 top (listed ins 0 16 * 4) ≡ top + 4 * listed ins 0 16 = omega arith in
      rw
        (
          pop.after,
          pop.up,
          pop.back,
          pop.base,
          plain_register q rn low,
          holds,
          number-listed ins,
          here,
        )
        (ap
          (λ (t : ℕ). record {
            start_address = top;
            end_address = sub32 t 4;
            core = arm_write_register q rn t;
          })
          up)

  last_known : (sub32 (top + 4 * listed ins 0 16) 4 == minus_one) ≡ false
  last_known = ==_ne _ _ (λ e. omega (arith, e))

  first_known : (top == minus_one) ≡ false
  first_known = ==_ne _ _ (λ e. omega (arith, e))

  abbrev pub loop : ℕ × ArmCore
  loop = load_registers stale ins 15 0 top raised

  pops : (arm_load_store_multiple stale q ins).1 ≡ (load_pc stale ins loop.0 loop.1).1
  unfolding arm_load_store_multiple
  pops =
      let still : condition raised ins ≡ true =
        condition-write q rn (top + 4 * listed ins 0 16) ins valid (omega arith) ∙ holds in
      rw (pop_mode, first_known, last_known, pop.plain, pop.loads, still) refl

  raised-IsMode : IsMode (get_mode raised.reg)
  unfolding arm_write_register
  raised-IsMode = rw (get_mode-write_register q.reg rn _ valid (omega arith)) valid

  pub loop-Loaded : Loaded stale ins 15 0 top raised loop.1
  loop-Loaded =
      load_registers-Loaded stale ins 15 0 top raised raised-IsMode (omega arith)
        (omega (arith, fewer))
    where
      fewer : listed ins 0 15 ≤ listed ins 0 16
      fewer = listed_fewer ins 0 15

  -- A register below 15 after a pop is what the loop leaves.
  pub pop_register :
      (j : ℕ)
      → j < 15
      → read_register (arm_load_store_multiple stale q ins).1.reg j ≡ read_register loop.1.reg j
  pop_register j h = rw pops (load_pc-other stale ins loop.0 loop.1 j loop-IsMode h)
    where
      loop-IsMode : IsMode (get_mode loop.1.reg)
      loop-IsMode = rw loop-Loaded.mode raised-IsMode

  pub raised_other : (j : ℕ) → j < 16 → j ≢ rn → read_register raised.reg j ≡ read_register q.reg j
  unfolding arm_write_register
  raised_other j h ne = ground (
    arith,
    read_register-write_register q.reg rn j (top + 4 * listed ins 0 16) valid (omega arith) h,
  )

  pub raised_base : read_register raised.reg rn ≡ top + 4 * listed ins 0 16
  unfolding arm_write_register
  raised_base = ground (
    arith,
    read_register-write_register q.reg rn rn (top + 4 * listed ins 0 16) valid (omega arith),
  )
