-- ===== src/LoadStore/Restore.antt =====
-- Registers that are pushed and popped again.
use l3_info_simulateur_arm.Base.{
  ℕ, ◌+◌, ◌-◌, ◌*◌, ◌%◌, ◌^◌, ◌<◌, ◌≡◌, ◌≢◌, ◌∙◌, sym, ap, arith, true, ◌||◌, if◌then◌else◌, ◌==◌,
  Bool-cases, inl, inr, ==_iff,
}
use l3_info_simulateur_arm.Util.{get_bit, get_bits}
use l3_info_simulateur_arm.Registers.{get_mode, read_register}
use l3_info_simulateur_arm.Registers.Banks.{IsMode}
use l3_info_simulateur_arm.Memory.{memory_read_word}
use l3_info_simulateur_arm.Core.{ArmCore, arm_write_register}
use l3_info_simulateur_arm.Condition.{condition}
use l3_info_simulateur_arm.LoadStore.Transfer.{listed, Stored}
use l3_info_simulateur_arm.LoadStore.Loads.{Loaded}
use l3_info_simulateur_arm.LoadStore.Stack.{
  IsPush, IsPop, HasRoom, plain_register, base-lt, push-Stored, moved_other, moved_base,
}
use l3_info_simulateur_arm.LoadStore.Pop.{
  same_bit, same_list, raised, loop, loop-Loaded, pop_register, raised_other, raised_base,
}
use l3_info_simulateur_arm.LoadStore.{Stale, arm_load_store_multiple}

module _ (stale stale' : Stale) (p q : ArmCore) (push pop rn j : ℕ) (is_push : IsPush push rn)
    (is_pop : IsPop pop rn) (low : rn < 15) (same : get_bits pop 15 0 ≡ get_bits push 15 0)
    (apart : get_bit push rn ≡ 0) (stack : HasRoom p push rn) (holds : condition p push ≡ true)
    (valid : IsMode (get_mode q.reg))
    (memory : q.mem ≡ (arm_load_store_multiple stale p push).1.mem)
    (base : read_register q.reg rn ≡ read_register (arm_load_store_multiple stale p push).1.reg rn)
    (holds' : condition q pop ≡ true) where
  abbrev start : ℕ
  start = read_register p.reg rn - 4 * listed push 0 16

  push_result :
      Stored push 16 0 start
        (arm_write_register p rn start)
        (arm_load_store_multiple stale p push).1
  push_result = push-Stored stale p push rn is_push low stack holds

  at_start : read_register q.reg rn ≡ start
  at_start =
      base
      ∙ ap (λ r. read_register r rn) push_result.reg
      ∙ moved_base stale p push rn is_push low stack holds

  count_same : listed pop 0 16 ≡ listed push 0 16
  count_same = same_list pop push 0 16 same (omega arith)

  back_up : start + 4 * listed pop 0 16 ≡ read_register p.reg rn
  back_up = omega (arith, count_same, stack.room)

  base-small : read_register p.reg rn < 2 ^ 32
  base-small = base-lt stale p push rn is_push low stack holds

  aligned : start % 4 ≡ 0
  aligned = omega (arith, stack.aligned, stack.room)

  fits : start + 4 * listed pop 0 16 < 2 ^ 32
  fits = omega (arith, back_up, base-small)

  popped : ArmCore
  popped = (loop stale' q pop rn start is_pop low valid holds' at_start aligned fits).1

  pop_result :
      Loaded stale' pop 15 0 start (arm_write_register q rn (start + 4 * listed pop 0 16)) popped
  unfolding popped
  pop_result = loop-Loaded stale' q pop rn start is_pop low valid holds' at_start aligned fits

  is_popped :
      j < 15
      → read_register (arm_load_store_multiple stale' q pop).1.reg j ≡ read_register popped.reg j
  unfolding popped
  is_popped h = pop_register stale' q pop rn start is_pop low valid holds' at_start aligned fits j h

  restored : j < 15 → get_bit push j ≡ 1 → read_register popped.reg j ≡ read_register p.reg j
  unfolding arm_write_register
  restored h bit =
      let bit' : get_bit pop j ≡ 1 = same_bit pop push j same (omega arith) ∙ bit in
      let ne : j ≢ rn = λ e. omega (arith, bit, apart, ap (get_bit push) e) in
      let old = stale'.loaded j in
      let place : start + 4 * listed pop 0 (j - 0) ≡ start + 4 * listed push 0 (j - 0) =
        ap (λ n. start + 4 * n) (same_list pop push 0 (j - 0) same (omega arith)) in
      pop_result.holds j (omega arith) (omega arith) bit'
      ∙ ap (λ a. (memory_read_word q.mem a old).1) place
      ∙ ap (λ m. (memory_read_word m (start + 4 * listed push 0 (j - 0)) old).1) memory
      ∙ ap (λ r. r.1) (push_result.holds j old (omega arith) (omega arith) bit)
      ∙ moved_other stale p push rn is_push low stack holds j (omega arith) ne
      ∙ plain_register p j h

  unlisted : get_bit push j ≢ 1 → j < 16 → get_bit pop j ≢ 1
  unlisted no_bit h e = no_bit (sym (same_bit pop push j same h) ∙ e)

  base_back : j ≡ rn → read_register popped.reg j ≡ read_register p.reg rn
  base_back e =
      let bit : get_bit push j ≢ 1 = λ one. omega (arith, one, apart, ap (get_bit push) e) in
      pop_result.kept j (omega (arith, e)) (λ lo hi. unlisted bit (omega arith))
      ∙ ap
          (read_register
            (raised stale' q pop rn start is_pop low valid holds' at_start aligned fits).reg)
          e
      ∙ raised_base stale' q pop rn start is_pop low valid holds' at_start aligned fits
      ∙ back_up

  untouched :
      j < 15 → j ≢ rn → get_bit push j ≢ 1 → read_register popped.reg j ≡ read_register q.reg j
  untouched h ne bit =
      pop_result.kept j (omega arith) (λ lo hi. unlisted bit (omega arith))
      ∙ raised_other stale' q pop rn start is_pop low valid holds' at_start aligned fits j
          (omega arith) ne

  -- A push of registers on the stack, code that leaves the memory and the base register as the push
  -- left them and may change all other registers and the mode, and a pop of the same registers:
  -- each register below 15 that is listed holds what it held before the push, the base register is
  -- back where it stood, and every other is as the pop found it. The base register is below 15 and
  -- not listed, the stack is aligned, inside of the memory and with room for the registers, which
  -- hold 32-bit words, both modes are of the seven, and both conditions hold.
  pub pop-push :
      j < 15
      → read_register (arm_load_store_multiple stale' q pop).1.reg j
        ≡ (if j == rn || get_bit push j == 1 then read_register p.reg j else read_register q.reg j)
  pop-push h = is_popped h ∙ by_case
    where
      by_case : read_register popped.reg j ≡ (
          if j == rn || get_bit push j == 1 then read_register p.reg j else read_register q.reg j)
      by_case = elim (Bool-cases (j == rn)) [
        | inl e ↦
            let here = (==_iff j rn).0 e in
            rw e (base_back here ∙ ap (read_register p.reg) (sym here))
        | inr e ↦ elim (Bool-cases (get_bit push j == 1)) [
          | inl b ↦ rw (e, b) (restored h ((==_iff _ 1).0 b))
          | inr b ↦ rw (e, b) (untouched h (ground (arith, e)) (ground (arith, b)))
        ]
      ]
