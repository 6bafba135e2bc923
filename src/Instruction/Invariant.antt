-- ===== src/Instruction/Invariant.antt =====
-- What one step keeps.
use l3_info_simulateur_arm.Base.{ℕ, ◌+◌, ◌%◌, ◌/◌, ◌^◌, arith, ◌&&◌, ◌||◌, ◌==◌}
use l3_info_simulateur_arm.Util.{u32, add32, sub32, get_bit}
use l3_info_simulateur_arm.Core.{ArmCore, arm_read_register, arm_fetch}
use l3_info_simulateur_arm.Core.Keeps.{
  IsWordCore, Keeps, Keeps-refl, Keeps-trans, Keeps-if, arm_write_register-Keeps,
}
use l3_info_simulateur_arm.Exception.Keeps.{arm_exception-Keeps}
use l3_info_simulateur_arm.Condition.{condition}
use l3_info_simulateur_arm.DataProcessing.Keeps.{arm_data_processing_shift-Keeps}
use l3_info_simulateur_arm.Branch.{Outcome}
use l3_info_simulateur_arm.Branch.Keeps.{
  Returns, ends, back, Returns-if, Returns-after, arm_branch-Keeps, arm_miscellaneous-Returns,
  arm_coprocessor_others_swi-Returns,
}
use l3_info_simulateur_arm.LoadStore.{Stale}
use l3_info_simulateur_arm.LoadStore.Keeps.{IsWordStale, KeepsPair, pair}
use l3_info_simulateur_arm.LoadStore.Preserve.{arm_load_store-Keeps, arm_load_store_multiple-Keeps}
use l3_info_simulateur_arm.Instruction.{
  process, with_code, is_miscellaneous, decode, after_exception, arm_execute_instruction, arm_step,
}

-- The processor with one cycle more.
abbrev pub counted : ArmCore → ArmCore
counted p = record p { cycle_count = u32 (p.cycle_count + 1) }

module _ (stale : Stale) (s : IsWordStale stale) where
  process-Returns : (p : ArmCore) (val : ℕ) → IsWordCore p → Returns p (process p val)
  process-Returns p val h =
      Returns-if (condition p val) (back (arm_data_processing_shift-Keeps p val h))
        (back (Keeps-refl h))

  with_code-Returns : {p : ArmCore} {r : ℕ × ArmCore} → KeepsPair p r → Returns p (with_code r)
  with_code-Returns (pair k) = back k

  decode-Returns : (p : ArmCore) (val : ℕ) → IsWordCore p → Returns p (decode stale p val)
  unfolding decode
  decode-Returns p val h =
      let champ = val / 2 ^ 25 % 2 ^ 3 in
      let kept = Keeps-refl h in
      let single = arm_load_store-Keeps stale s p val h in
      let several = arm_load_store_multiple-Keeps stale s p val h in
      Returns-if (val / 2 ^ 28 % 2 ^ 4 == 0xF) (back kept) (
        Returns-if (champ == 0)
          (Returns-if (get_bit val 4 == 1 && get_bit val 7 == 1) (back single) (
            Returns-if (is_miscellaneous val) (arm_miscellaneous-Returns p val h)
              (process-Returns p val h)))
          (Returns-if (champ == 1) (process-Returns p val h) (
            Returns-if (champ == 2 || champ == 3) (back single) (
              Returns-if (champ == 4) (with_code-Returns several) (
                Returns-if (champ == 5) (back (arm_branch-Keeps p val h)) (
                  Returns-if (champ == 6) (back kept)
                    (arm_coprocessor_others_swi-Returns p val h)))))))

  exception-Returns : {p : ArmCore} {r : Outcome} → Returns p r → Returns p (after_exception r)
  unfolding after_exception
  exception-Returns ends = ends
  exception-Returns (back {code = code} {q = q} k) =
      back (Keeps-if (code == 0) k (Keeps-trans k (arm_exception-Keeps q (code % 2 ^ 8) k.word)))

  arm_fetch-Keeps : (p : ArmCore) (v : ℕ) → IsWordCore p → Keeps (counted p) (arm_fetch p v).2
  unfolding arm_fetch
  arm_fetch-Keeps p v h =
      let now : IsWordCore (counted p) = record { registers = h.registers; words = h.words } in
      arm_write_register-Keeps (counted p) 15 (add32 (sub32 (arm_read_register (counted p) 15) 4) 4)
        now (omega arith)

  -- A step of a processor whose cells hold 32-bit words either ends the program, or gives a
  -- processor whose cells hold 32-bit words, whose memory has the size and the byte order it had,
  -- and whose cycle count is one more, modulo 2 ^ 32. A variable that a failed read leaves alone
  -- holds a 32-bit word.
  pub arm_step-Returns : (p : ArmCore) → IsWordCore p → Returns (counted p) (arm_step stale p)
  unfolding arm_step arm_execute_instruction
  arm_step-Returns p h =
      let fetched = arm_fetch-Keeps p stale.fetched h in
      let q = (arm_fetch p stale.fetched).2 in
      exception-Returns
        (Returns-after fetched (decode-Returns q (arm_fetch p stale.fetched).1 fetched.word))
