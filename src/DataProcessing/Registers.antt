-- ===== src/DataProcessing/Registers.antt =====
-- The registers after each of the sixteen data processing instructions.
use mathlib.Core.Bool.{false≢true}
use mathlib.Core.Path.{subst}
use l3_info_simulateur_arm.Base.{
  ℕ, ◌+◌, ◌-◌, ◌%◌, ◌^◌, ◌<◌, ◌≡◌, ◌≢◌, ◌∙◌, sym, ap, refl, arith, Bool, true, false, ◌&&◌, ◌||◌,
  if◌then◌else◌, ltb, leb, ◌==◌, Bool-cases, inl, inr, ==_iff,
}
use l3_info_simulateur_arm.Constants.{flag_c}
use l3_info_simulateur_arm.Util.{get_bit, get_bits, bit_not, add32, sub32}
use l3_info_simulateur_arm.Registers.{read_register, get_mode}
use l3_info_simulateur_arm.Registers.Banks.{IsMode}
use l3_info_simulateur_arm.Core.{ArmCore, arm_read_cpsr}
use l3_info_simulateur_arm.Core.Keeps.{IsWordCore, arm_read_register-lt, arm_read_cpsr-lt}
use l3_info_simulateur_arm.DataProcessing.{
  zncv_update, with_result, by_opcode, operand_type, arm_data_processing_shift,
}
use l3_info_simulateur_arm.DataProcessing.Operand.{
  Computed, logical_and, logical_eor, sub, rsb, add, logical_or, mov, bic,
}
use l3_info_simulateur_arm.DataProcessing.Results.{
  result_of, first_operand, second_operand, operand_type_value, read_register-zncv_update,
  read_register-with_result,
}
use l3_info_simulateur_arm.DataProcessing.Keeps.{
  operand_type-lt, logical_and-lt, logical_eor-lt, logical_or-lt, bic-lt, sub-lt, rsb-lt, add-lt,
  mov-lt,
}

-- The opcodes that have a result: all but the four tests and comparisons.
abbrev pub writes : ℕ → Bool
writes opcode = ltb opcode 8 || leb 12 opcode

sub_lem : (a b : ℕ) → b < 2 ^ 32 → sub a b ≡ (a + 2 ^ 32 - b) % 2 ^ 32
unfolding sub
sub_lem a b h = omega arith

rsb_lem : (a b : ℕ) → a < 2 ^ 32 → rsb a b ≡ (b + 2 ^ 32 - a) % 2 ^ 32
unfolding rsb
rsb_lem a b h = omega arith

-- The last step of `SBC` and of `RSC`.
sbc_lem :
    (a b c : ℕ)
    → b < 2 ^ 32
    → c < 2
    → sub32 (sub a b) (bit_not c) ≡ (a + 2 ^ 32 - b + 1 + c) % 2 ^ 32
unfolding sub
sbc_lem a b c h hc = omega arith

rsc_lem :
    (a b c : ℕ)
    → a < 2 ^ 32
    → c < 2
    → sub32 (rsb a b) (bit_not c) ≡ (b + 2 ^ 32 - a + 1 + c) % 2 ^ 32
unfolding rsb
rsc_lem a b c h hc = omega arith

module _ (p : ArmCore) (ins : ℕ) (reg : ℕ) (mode : IsMode (get_mode p.reg)) (word : IsWordCore p)
    (no_pc : get_bits ins 15 12 < 15) (h : reg < 16) where
  abbrev opcode : ℕ
  opcode = get_bits ins 24 21

  abbrev carry : ℕ
  carry = get_bit (arm_read_cpsr p) flag_c

  abbrev result : ℕ
  result = result_of opcode (first_operand p ins) (second_operand p ins) carry

  data Wrote : ArmCore → Type 0 where
    wrote :
        {q : ArmCore}
        → read_register q.reg reg
          ≡ (if reg == get_bits ins 15 12 && writes opcode then result else read_register p.reg reg)
        → Wrote q

  read-Wrote :
      {q : ArmCore}
      → Wrote q
      → read_register q.reg reg
        ≡ (if reg == get_bits ins 15 12 && writes opcode then result else read_register p.reg reg)
  read-Wrote (wrote e) = e

  Wrote-if :
      (n : ℕ) {x y : ArmCore}
      → (opcode ≡ n → Wrote x)
      → (opcode ≢ n → Wrote y)
      → Wrote (if opcode == n then x else y)
  Wrote-if n {x} {y} yes_n no_n = elim (Bool-cases (opcode == n)) [
    | inl e ↦ subst Wrote (sym (ap (λ b. if b then x else y) e)) (yes_n ((==_iff opcode n).0 e))
    | inr e ↦
        subst Wrote (sym (ap (λ b. if b then x else y) e))
          (no_n (λ k. false≢true (sym e ∙ (==_iff opcode n).1 k)))
  ]

  abbrev operand : (ℕ → ℕ → ℕ) → Computed
  operand f = operand_type p ins f carry

  operand_value :
      (f : ℕ → ℕ → ℕ) → (operand f).value ≡ f (first_operand p ins) (second_operand p ins)
  operand_value f = operand_type_value p ins f

  first-lt : first_operand p ins < 2 ^ 32
  first-lt = unfold first_operand in arm_read_register-lt p (get_bits ins 19 16) word

  second-lt : second_operand p ins < 2 ^ 32
  second-lt = unfold second_operand in operand_type-lt p ins mov carry word mov-lt

  of_result :
      (written value overflow flag o_v : ℕ)
      → value < 2 ^ 32
      → writes opcode ≡ true
      → written ≡ result
      → Wrote (with_result p ins written value overflow flag o_v)
  of_result written value overflow flag o_v hv hw e = wrote (
      ground (
        arith,
        read_register-with_result p ins written value overflow flag o_v reg mode
            (arm_read_cpsr-lt p word) hv no_pc h,
      ))

  of_flags :
      (value overflow flag o_v : ℕ)
      → value < 2 ^ 32
      → writes opcode ≡ false
      → Wrote (zncv_update p overflow flag value o_v 1 (arm_read_cpsr p))
  of_flags value overflow flag o_v hv hw = wrote (
      ground (
        arith,
        read_register-zncv_update p overflow flag value o_v (arm_read_cpsr p) reg mode
            (arm_read_cpsr-lt p word) hv (unfold get_mode arm_read_cpsr in refl) h,
      ))

  by_result :
      {n : ℕ} (written value overflow flag o_v : ℕ)
      → opcode ≡ n
      → writes n ≡ true
      → value < 2 ^ 32
      → written ≡ result_of n (first_operand p ins) (second_operand p ins) carry
      → Wrote (with_result p ins written value overflow flag o_v)
  by_result written value overflow flag o_v e hw hv hr =
      of_result written value overflow flag o_v hv (ap writes e ∙ hw)
        (hr ∙ sym (ap (λ o. result_of o (first_operand p ins) (second_operand p ins) carry) e))

  direct :
      {n : ℕ} (f : ℕ → ℕ → ℕ) (flag o_v : ℕ)
      → opcode ≡ n
      → writes n ≡ true
      → f (first_operand p ins) (second_operand p ins) < 2 ^ 32
      → f (first_operand p ins) (second_operand p ins)
        ≡ result_of n (first_operand p ins) (second_operand p ins) carry
      → Wrote (with_result p ins (operand f).value (operand f).value (operand f).overflow flag o_v)
  direct f flag o_v e hw hv hr =
      by_result (operand f).value (operand f).value (operand f).overflow flag o_v e hw
        (subst (λ v. v < 2 ^ 32) (sym (operand_value f)) hv) (operand_value f ∙ hr)

  flags :
      {n : ℕ} (f : ℕ → ℕ → ℕ) (flag o_v : ℕ)
      → opcode ≡ n
      → writes n ≡ false
      → f (first_operand p ins) (second_operand p ins) < 2 ^ 32
      → Wrote (zncv_update p (operand f).overflow flag (operand f).value o_v 1 (arm_read_cpsr p))
  flags f flag o_v e hw hv =
      of_flags (operand f).value (operand f).overflow flag o_v
        (subst (λ v. v < 2 ^ 32) (sym (operand_value f)) hv) (ap writes e ∙ hw)

  carry-lt : carry < 2
  carry-lt = unfold get_bit in omega arith

  by_carry :
      {n : ℕ} (f : ℕ → ℕ → ℕ) (g : ℕ → ℕ) (flag : ℕ)
      → opcode ≡ n
      → writes n ≡ true
      → ((v : ℕ) → g v < 2 ^ 32)
      → g (f (first_operand p ins) (second_operand p ins))
        ≡ result_of n (first_operand p ins) (second_operand p ins) carry
      → Wrote (
          with_result p ins (g (operand f).value) (g (operand f).value) (operand f).overflow flag 1)
  by_carry f g flag e hw hv hr =
      by_result (g (operand f).value) (g (operand f).value) (operand f).overflow flag 1 e hw
        (hv (operand f).value) (ap g (operand_value f) ∙ hr)

  by_opcode-Wrote : opcode < 16 → Wrote (by_opcode p ins opcode operand)
  unfolding by_opcode logical_and logical_eor sub rsb add logical_or mov bic first_operand
      second_operand
  by_opcode-Wrote small =
      let a = first_operand p ins in
      let b = second_operand p ins in
      Wrote-if 0
        (λ e.
          direct logical_and (operand logical_and).carry 0 e refl
            (logical_and-lt a b first-lt second-lt) refl)
        (λ n0.
          Wrote-if 1
            (λ e.
              direct logical_eor (operand logical_eor).carry 0 e refl
                (logical_eor-lt a b first-lt second-lt) refl)
            (λ n1.
              Wrote-if 2
                (λ e.
                  direct sub (bit_not (operand sub).carry_from) 1 e refl
                    (sub-lt a b first-lt second-lt) (sub_lem a b second-lt))
                (λ n2.
                  Wrote-if 3
                    (λ e.
                      direct rsb (bit_not (operand rsb).carry_from) 1 e refl
                        (rsb-lt a b first-lt second-lt) (rsb_lem a b first-lt))
                    (λ n3.
                      Wrote-if 4
                        (λ e.
                          direct add (operand add).carry_from 1 e refl
                            (add-lt a b first-lt second-lt) refl)
                        (λ n4.
                          Wrote-if 5
                            (λ e.
                              by_carry add (λ v. add32 v carry) (operand add).carry_from e refl
                                (λ v. omega arith) (omega arith))
                            (λ n5.
                              Wrote-if 6
                                (λ e.
                                  by_carry sub (λ v. sub32 v (bit_not carry))
                                    (bit_not (operand sub).carry_from) e refl (λ v. omega arith)
                                    (sbc_lem a b carry second-lt carry-lt))
                                (λ n6.
                                  Wrote-if 7
                                    (λ e.
                                      by_carry rsb (λ v. sub32 v (bit_not carry))
                                        (bit_not (operand rsb).carry_from) e refl (λ v. omega arith)
                                        (rsc_lem a b carry first-lt carry-lt))
                                    (λ n7.
                                      Wrote-if 8
                                        (λ e.
                                          flags logical_and (operand logical_and).carry 0 e refl
                                            (logical_and-lt a b first-lt second-lt))
                                        (λ n8.
                                          Wrote-if 9
                                            (λ e.
                                              flags logical_eor (operand logical_eor).carry 0 e refl
                                                (logical_eor-lt a b first-lt second-lt))
                                            (λ n9.
                                              Wrote-if 10
                                                (λ e.
                                                  flags sub (bit_not (operand sub).carry_from) 1 e
                                                    refl (sub-lt a b first-lt second-lt))
                                                (λ n10.
                                                  Wrote-if 11
                                                    (λ e.
                                                      flags add (operand add).carry_from 1 e refl
                                                        (add-lt a b first-lt second-lt))
                                                    (λ n11.
                                                      Wrote-if 12
                                                        (λ e.
                                                          direct logical_or
                                                            (operand logical_or).carry 0 e refl
                                                            (logical_or-lt a b first-lt second-lt)
                                                            refl)
                                                        (λ n12.
                                                          Wrote-if 13
                                                            (λ e.
                                                            direct mov (operand mov).carry 0 e refl
                                                            (mov-lt a b first-lt second-lt) refl)
                                                            (λ n13.
                                                            Wrote-if 14
                                                            (λ e.
                                                            direct bic (operand bic).carry 0 e refl
                                                            (bic-lt a b first-lt second-lt) refl)
                                                            (λ n14.
                                                            by_result {n = 15}
                                                            (bit_not (operand mov).value)
                                                            (operand mov).value
                                                            (operand mov).overflow
                                                            (operand mov).carry 0
                                                            (omega (
                                                            arith, small, n0, n1, n2, n3, n4, n5,
                                                            n6, n7, n8, n9, n10, n11, n12, n13, n14,
                                                            ))
                                                            refl second-lt refl)))))))))))))))

-- After a data processing instruction whose destination is not the program counter, in a valid mode
-- and with 32-bit words in every cell, the destination holds the result that the opcode has on the
-- two operands and the carry flag, unless the instruction is TST, TEQ, CMP or CMN; every other
-- register is as before. The result of SBC and of RSC is the difference plus 1 plus the carry, which
-- is two more than the architecture gives.
pub arm_data_processing_registers :
    (p : ArmCore) (ins reg : ℕ)
    → IsMode (get_mode p.reg)
    → IsWordCore p
    → get_bits ins 15 12 < 15
    → reg < 16
    → read_register (arm_data_processing_shift p ins).reg reg ≡ (
        if reg == get_bits ins 15 12 && writes (get_bits ins 24 21)
        then result_of
            (get_bits ins 24 21)
            (first_operand p ins)
            (second_operand p ins)
            (get_bit (arm_read_cpsr p) flag_c)
        else read_register p.reg reg)
unfolding arm_data_processing_shift
arm_data_processing_registers p ins reg mode word no_pc h =
    read-Wrote p ins reg mode word no_pc h
      (by_opcode-Wrote p ins reg mode word no_pc h (unfold get_bits in omega arith))
