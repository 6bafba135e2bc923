-- ===== src/LoadStore/Stack.antt =====
-- STMDB and LDMIA with write-back: registers that are pushed on a stack and popped again.
use l3_info_simulateur_arm.Base.{
  ℕ, zero, suc, ◌+◌, ◌-◌, ◌*◌, ◌%◌, ◌^◌, ◌≤◌, ◌<◌, ◌≡◌, ◌≢◌, ◌∙◌, refl, ap, arith, true, false,
  ◌==◌, ==_ne,
}
use l3_info_simulateur_arm.Util.{get_bit, get_bits, sub32, minus_one}
use l3_info_simulateur_arm.Registers.{get_mode, read_register}
use l3_info_simulateur_arm.Registers.Banks.{IsMode}
use l3_info_simulateur_arm.Registers.Access.{
  read_register-write_register, read_cpsr-write_register, read_register-lt,
}
use l3_info_simulateur_arm.Core.{ArmCore, arm_read_register, arm_write_register, arm_read_cpsr}
use l3_info_simulateur_arm.Core.Keeps.{IsWordCore, arm_write_register-Keeps}
use l3_info_simulateur_arm.Condition.{condition}
use l3_info_simulateur_arm.LoadStore.Address.{
  count_bits, number_of_set_bits, get_address_mode_multi,
}
use l3_info_simulateur_arm.LoadStore.Multiple.{field_bit}
use l3_info_simulateur_arm.LoadStore.Transfer.{listed, Stored, store_registers-Stored}
use l3_info_simulateur_arm.LoadStore.{Stale, store_registers, arm_load_store_multiple}

-- The bits of an instruction that stores below a base register, which it then moves down.
pub record IsPush (ins rn : ℕ) : Type 0 where
  pub base : get_bits ins 19 16 ≡ rn
  pub before : get_bit ins 24 ≡ 1
  pub down : get_bit ins 23 ≡ 0
  pub plain : get_bit ins 22 ≡ 0
  pub back : get_bit ins 21 ≡ 1
  pub stores : get_bit ins 20 ≡ 0

-- And of one that loads from the base register on, which it then moves up.
pub record IsPop (ins rn : ℕ) : Type 0 where
  pub base : get_bits ins 19 16 ≡ rn
  pub after : get_bit ins 24 ≡ 0
  pub up : get_bit ins 23 ≡ 1
  pub plain : get_bit ins 22 ≡ 0
  pub back : get_bit ins 21 ≡ 1
  pub loads : get_bit ins 20 ≡ 1

count_bits-listed :
    (ins left i count : ℕ)
    → i + left ≤ 16
    → count_bits (get_bits ins 15 0) left i count ≡ count + listed ins i left
unfolding count_bits listed
count_bits-listed ins zero i count h = omega arith
count_bits-listed ins (suc left) i count h = ground (
  arith,
  field_bit ins i (omega arith),
  count_bits-listed ins left (i + 1) (count + 1) (omega arith),
  count_bits-listed ins left (i + 1) count (omega arith),
)

pub number-listed : (ins : ℕ) → number_of_set_bits (get_bits ins 15 0) ≡ listed ins 0 16
unfolding number_of_set_bits
number-listed ins = omega (arith, count_bits-listed ins 16 0 0)

pub plain_register :
    (p : ArmCore) (rn : ℕ) → rn < 15 → arm_read_register p rn ≡ read_register p.reg rn
unfolding arm_read_register
plain_register p rn h = ground arith

pub condition-write :
    (p : ArmCore) (rn v ins : ℕ)
    → IsMode (get_mode p.reg)
    → rn < 16
    → condition (arm_write_register p rn v) ins ≡ condition p ins
unfolding condition arm_write_register arm_read_cpsr
condition-write p rn v ins valid h = rw (read_cpsr-write_register p.reg rn v valid h) refl

-- What the stack must be: aligned, with room for the registers, and inside of the memory.
pub record HasRoom (p : ArmCore) (ins rn : ℕ) : Type 0 where
  pub valid : IsMode (get_mode p.reg)
  pub word : IsWordCore p
  pub small : p.mem.size < 2 ^ 32
  pub aligned : read_register p.reg rn % 4 ≡ 0
  pub room : 4 * listed ins 0 16 ≤ read_register p.reg rn
  pub inside : read_register p.reg rn ≤ p.mem.size

module _ (stale : Stale) (p : ArmCore) (ins rn : ℕ) (push : IsPush ins rn) (low : rn < 15)
    (stack : HasRoom p ins rn) (holds : condition p ins ≡ true) where
  abbrev pub top : ℕ
  top = read_register p.reg rn - 4 * listed ins 0 16

  pub base-lt : read_register p.reg rn < 2 ^ 32
  base-lt = read_register-lt p.reg rn stack.word.registers

  push_mode : get_address_mode_multi p ins ≡ record {
    start_address = top;
    end_address = sub32 (read_register p.reg rn) 4;
    core = arm_write_register p rn top;
  }
  unfolding get_address_mode_multi
  push_mode =
      let down : sub32 (read_register p.reg rn) (listed ins 0 16 * 4) ≡ top =
        omega (arith, stack.room, base-lt) in
      rw
        (
          push.before,
          push.down,
          push.back,
          push.base,
          plain_register p rn low,
          holds,
          number-listed ins,
        )
        (ap
          (λ (t : ℕ). record {
            start_address = t;
            end_address = sub32 (read_register p.reg rn) 4;
            core = arm_write_register p rn t;
          })
          down)

  -- The last address, and the mark of no address.
  last_known : (sub32 (read_register p.reg rn) 4 == minus_one) ≡ false
  last_known = ==_ne _ _ (λ e. omega (arith, e, stack.aligned, base-lt))

  first_known : (top == minus_one) ≡ false
  first_known = ==_ne _ _ (λ e. omega (arith, e, stack.aligned, stack.room, base-lt))

  abbrev pub moved : ArmCore
  moved = arm_write_register p rn top

  pub pushes : (arm_load_store_multiple stale p ins).1 ≡ (store_registers ins 16 0 top moved).1
  unfolding arm_load_store_multiple
  pushes =
      let still : condition moved ins ≡ true =
        condition-write p rn top ins stack.valid (omega arith) ∙ holds in
      rw (push_mode, first_known, last_known, push.plain, push.stores, still) refl

  -- What a push leaves: the base register stands at the top, and the words from there on are the
  -- registers that are listed.
  pub push-Stored : Stored ins 16 0 top moved (arm_load_store_multiple stale p ins).1
  unfolding arm_write_register
  push-Stored = rw pushes (
      store_registers-Stored ins 16 0 top moved moved-word moved-small
        (omega (arith, stack.aligned, stack.room)) (omega (arith, stack.room, moved-inside)))
    where
      moved-word : IsWordCore moved
      moved-word = (arm_write_register-Keeps p rn top stack.word (omega (arith, base-lt))).word

      moved-small : moved.mem.size < 2 ^ 32
      moved-small = stack.small

      moved-inside : read_register p.reg rn ≤ moved.mem.size
      moved-inside = stack.inside

  pub moved_other : (j : ℕ) → j < 16 → j ≢ rn → arm_read_register moved j ≡ arm_read_register p j
  unfolding arm_read_register arm_write_register
  moved_other j h ne =
      ground (arith, read_register-write_register p.reg rn j top stack.valid (omega arith) h)

  pub moved_base : read_register moved.reg rn ≡ top
  unfolding arm_write_register
  moved_base =
      ground (arith, read_register-write_register p.reg rn rn top stack.valid (omega arith))
