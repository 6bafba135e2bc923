-- ===== src/DataProcessing/Subtraction.antt =====
-- The flags that the subtractions leave in the status word.
use mathlib.Core.Path.{subst}
use l3_info_simulateur_arm.Base.{
  ℕ, ◌+◌, ◌-◌, ◌%◌, ◌^◌, ◌≤◌, ◌<◌, ◌≡◌, ◌⊎◌, ◌∙◌, refl, sym, ap, arith, Bool, true, false, not,
  ◌&&◌, if◌then◌else◌, ◌==◌, inl, inr,
}
use l3_info_simulateur_arm.Constants.{flag_n, flag_z, flag_c, flag_v}
use l3_info_simulateur_arm.Util.{get_bit, get_bits, bit_not, sub32}
use l3_info_simulateur_arm.Registers.{read_cpsr, write_cpsr}
use l3_info_simulateur_arm.Core.{ArmCore, arm_read_cpsr, arm_write_cpsr}
use l3_info_simulateur_arm.Core.Keeps.{IsWordCore, arm_read_register-lt, arm_read_cpsr-lt}
use l3_info_simulateur_arm.DataProcessing.{
  truth, zncv, zncv_update, update_status, with_result, by_opcode, operand_type,
  arm_data_processing_shift,
}
use l3_info_simulateur_arm.DataProcessing.Flags.{zncv_lem}
use l3_info_simulateur_arm.DataProcessing.Operand.{
  Computed, compute, sub, rsb, mov, data_processing_operand, data_processing_immediate_operand,
}
use l3_info_simulateur_arm.DataProcessing.Results.{first_operand, second_operand}
use l3_info_simulateur_arm.DataProcessing.Keeps.{
  operand_type-lt, sub-lt, rsb-lt, mov-lt, IsWordOperator,
}

computed_if :
    (f : ℕ → ℕ → ℕ) (n : ℕ) (t : Bool) (x y x' y' : Computed)
    → x ≡ compute f n x'.value x.carry
    → y ≡ compute f n y'.value y.carry
    → (if t then x else y) ≡ compute f n (if t then x' else y').value (if t then x else y).carry
computed_if f n true x y x' y' h k = h
computed_if f n false x y x' y' h k = k

module _ (p : ArmCore) (ins : ℕ) (word : IsWordCore p) where
  abbrev carry : ℕ
  carry = get_bit (arm_read_cpsr p) flag_c

  abbrev a : ℕ
  a = first_operand p ins

  abbrev b : ℕ
  b = second_operand p ins

  abbrev q : ArmCore
  q = arm_data_processing_shift p ins

  abbrev r : (ℕ → ℕ → ℕ) → Computed
  r f = operand_type p ins f carry

  a-lt : a < 2 ^ 32
  a-lt = unfold first_operand in arm_read_register-lt p (get_bits ins 19 16) word

  b-lt : b < 2 ^ 32
  b-lt = unfold second_operand in operand_type-lt p ins mov carry word mov-lt

  -- What the operands compute, but for the carry of the shifter.
  computed : (f : ℕ → ℕ → ℕ) → r f ≡ compute f a b (r f).carry
  unfolding operand_type data_processing_operand data_processing_immediate_operand compute
      first_operand second_operand mov
  computed f =
      computed_if f a (get_bit ins 25 == 0) (data_processing_operand p ins f carry)
        (data_processing_immediate_operand p ins f) (data_processing_operand p ins mov carry)
        (data_processing_immediate_operand p ins mov) refl refl

  carry_from-le : (f : ℕ → ℕ → ℕ) → (r f).carry_from ≤ 1
  carry_from-le f = rw (computed f) (unfold compute in ground arith)

  inverted : (f : ℕ → ℕ → ℕ) → truth (bit_not (r f).carry_from) ≡ true
  inverted f = ground (arith, carry_from-le f)

  read_cpsr-zncv_update :
      (p' : ArmCore) (overflow c value : ℕ)
      → value < 2 ^ 32
      → truth c ≡ true
      → get_bit (arm_read_cpsr (zncv_update p' overflow c value 1 1 (arm_read_cpsr p))) flag_c ≡ 1
  unfolding zncv_update arm_read_cpsr arm_write_cpsr read_cpsr write_cpsr
  read_cpsr-zncv_update p' overflow c value hv hc =
      (zncv_lem overflow c value 1 (read_cpsr p.reg) (arm_read_cpsr-lt p word) hv).2 ∙ rw hc refl

  module _ (no_pc : get_bits ins 15 12 < 15) (flags : get_bit ins 20 ≡ 1) where
    of_result :
        (written value overflow c : ℕ)
        → value < 2 ^ 32
        → truth c ≡ true
        → get_bit (arm_read_cpsr (with_result p ins written value overflow c 1)) flag_c ≡ 1
    unfolding with_result update_status
    of_result written value overflow c hv hc =
        let other : (get_bits ins 15 12 == 15) ≡ false = ground (arith, no_pc) in
        rw (flags, other) (read_cpsr-zncv_update _ overflow c value hv hc)

  carry_of :
      (n : ℕ)
      → get_bits ins 24 21 ≡ n
      → get_bit (arm_read_cpsr (by_opcode p ins n r)) flag_c ≡ 1
      → get_bit (arm_read_cpsr q) flag_c ≡ 1
  unfolding arm_data_processing_shift
  carry_of n opcode h =
      subst (λ k. get_bit (arm_read_cpsr (by_opcode p ins k r)) flag_c ≡ 1) (sym opcode) h

  value-lt : (f : ℕ → ℕ → ℕ) → IsWordOperator f → (r f).value < 2 ^ 32
  value-lt f h = operand_type-lt p ins f carry word h

  back-lt : (v : ℕ) → sub32 v (bit_not carry) < 2 ^ 32
  back-lt v = omega arith

  -- After CMP, and after SUB, RSB, SBC and RSC with the S bit and a destination that is not the
  -- program counter, in a processor whose cells are 32-bit words, the carry flag is set, whatever
  -- the operands are, with a borrow or without one.
  pub subtraction_carry :
      (get_bits ins 24 21 ≡ 10)
        ⊎ ((get_bit ins 20 ≡ 1)
            × (get_bits ins 15 12 < 15)
            × ((get_bits ins 24 21 ≡ 2)
                ⊎ (get_bits ins 24 21 ≡ 3)
                ⊎ (get_bits ins 24 21 ≡ 6)
                ⊎ (get_bits ins 24 21 ≡ 7)))
      → get_bit (arm_read_cpsr (arm_data_processing_shift p ins)) flag_c ≡ 1
  unfolding by_opcode
  subtraction_carry (inl cmp) = carry_of 10 cmp (
      read_cpsr-zncv_update p (r sub).overflow (bit_not (r sub).carry_from) (r sub).value
        (value-lt sub sub-lt) (inverted sub))
  subtraction_carry (inr (flags, no_pc, inl two)) = carry_of 2 two (
      of_result no_pc flags (r sub).value (r sub).value (r sub).overflow
        (bit_not (r sub).carry_from) (value-lt sub sub-lt) (inverted sub))
  subtraction_carry (inr (flags, no_pc, inr (inl three))) = carry_of 3 three (
      of_result no_pc flags (r rsb).value (r rsb).value (r rsb).overflow
        (bit_not (r rsb).carry_from) (value-lt rsb rsb-lt) (inverted rsb))
  subtraction_carry (inr (flags, no_pc, inr (inr (inl six)))) =
      let value = sub32 (r sub).value (bit_not carry) in
      carry_of 6 six (
        of_result no_pc flags value value (r sub).overflow (bit_not (r sub).carry_from)
          (back-lt (r sub).value) (inverted sub))
  subtraction_carry (inr (flags, no_pc, inr (inr (inr seven)))) =
      let value = sub32 (r rsb).value (bit_not carry) in
      carry_of 7 seven (
        of_result no_pc flags value value (r rsb).overflow (bit_not (r rsb).carry_from)
          (back-lt (r rsb).value) (inverted rsb))

  sub_as : sub a b ≡ (a + 2 ^ 32 - b) % 2 ^ 32
  sub_as = unfold sub in omega (arith, b-lt)

  compared : (r sub).value ≡ (a + 2 ^ 32 - b) % 2 ^ 32
  compared = rw (computed sub) (unfold compute in sub_as)

  overflown : (r sub).overflow ≡ (
      if get_bit a 31 == get_bit b 31
        && not (get_bit ((a + 2 ^ 32 - b) % 2 ^ 32) 31 == get_bit b 31)
      then 1
      else 0)
  overflown = rw (computed sub) (unfold compute in rw sub_as (ground arith))

  difference_zero : ((a + 2 ^ 32 - b) % 2 ^ 32 == 0) ≡ (a == b)
  difference_zero = ground (arith, a-lt, b-lt)

  compared_status :
      get_bits ins 24 21 ≡ 10
      → arm_read_cpsr q
        ≡ zncv (r sub).overflow (bit_not (r sub).carry_from) (r sub).value 1 1 (arm_read_cpsr p)
  unfolding arm_data_processing_shift by_opcode zncv_update arm_read_cpsr arm_write_cpsr read_cpsr
      write_cpsr
  compared_status opcode = ap (λ k. arm_read_cpsr (by_opcode p ins k r)) opcode

  -- After CMP, in a processor whose cells are 32-bit words, Z says that the two operands are equal,
  -- N is bit 31 of the difference, C is 1, and V is 1 exactly where the two operands have the same
  -- bit 31 and the difference has the other; the bits of the status word below 28 are as before.
  pub cmp_flags :
      get_bits ins 24 21 ≡ 10
      → let x = first_operand p ins in
        let y = second_operand p ins in
        let value = (x + 2 ^ 32 - y) % 2 ^ 32 in
        let w = arm_read_cpsr (arm_data_processing_shift p ins) in
        (get_bit w flag_z ≡ (if x == y then 1 else 0))
        × (get_bit w flag_n ≡ get_bit value 31)
        × (get_bit w flag_c ≡ 1)
        × (get_bit w flag_v ≡ (
            if get_bit x 31 == get_bit y 31 && not (get_bit value 31 == get_bit y 31)
            then 1
            else 0))
        × (w % 2 ^ 28 ≡ arm_read_cpsr p % 2 ^ 28)
  cmp_flags opcode =
      let flags =
        zncv_lem (r sub).overflow (bit_not (r sub).carry_from) (r sub).value 1 (arm_read_cpsr p)
          (arm_read_cpsr-lt p word) (value-lt sub sub-lt) in
      rw (compared_status opcode) (
        flags.0 ∙ rw (compared, difference_zero) refl,
        flags.1 ∙ rw compared refl,
        flags.2 ∙ rw (inverted sub) refl,
        flags.3 ∙ rw overflown (ground arith),
        flags.4,
      )
