-- ===== src/Instruction/Skipped.antt =====
-- Instructions whose condition fails.
use l3_info_simulateur_arm.Base.{
  ℕ, ◌^◌, ◌<◌, ◌≡◌, refl, ap, arith, Bool, true, false, not, ◌&&◌, ◌||◌, if◌then◌else◌, ◌==◌,
}
use l3_info_simulateur_arm.Util.{get_bit, get_bits, minus_one, u8, u16}
use l3_info_simulateur_arm.Memory.{
  memory_write_byte, memory_write_half, memory_write_word, memory_get_size,
}
use l3_info_simulateur_arm.Core.{
  ArmCore, arm_read_register, arm_write_register, arm_fetch, arm_write_word, arm_write_half,
  arm_write_byte,
}
use l3_info_simulateur_arm.Condition.{condition}
use l3_info_simulateur_arm.Branch.{returned, arm_branch}
use l3_info_simulateur_arm.LoadStore.Address.{get_address_mode_bw, get_address_mode_half}
use l3_info_simulateur_arm.LoadStore.{
  Stale, load_word, load_half, load_byte, store_byte, store_half, store_word, arm_load_store,
}
use l3_info_simulateur_arm.Instruction.{
  decode, is_miscellaneous, arm_execute_instruction, after_exception, arm_step,
}

-- A transfer of one register that writes its base register or moves it afterwards.
abbrev is_indexed : ℕ → Bool
is_indexed val = get_bit val 24 == 0 || get_bit val 21 == 1

-- The instructions that look at their condition first: data processing, indexed transfers of one
-- register, and branches without a link.
unfoldable pub is_conditional : ℕ → Bool
is_conditional val =
    let class = get_bits val 27 25 in
    if get_bits val 31 28 == 0xF
    then false
    else if class == 0
    then if get_bit val 4 == 1 && get_bit val 7 == 1
      then is_indexed val
      else not (is_miscellaneous val)
    else if class == 1
    then true
    else if class == 2 || class == 3
    then is_indexed val
    else class == 5 && get_bit val 24 == 0

-- A store at the address that stands for none is refused by any memory.
module _ (p : ArmCore) (v : ℕ) (small : p.mem.size < 2 ^ 32) where
  no_byte : (arm_write_byte p minus_one v).1 ≡ p
  unfolding arm_write_byte memory_write_byte memory_get_size
  no_byte = ground arith

  no_half : (arm_write_half p minus_one v).1 ≡ p
  unfolding arm_write_half memory_write_half memory_get_size
  no_half = ground arith

  no_word : (arm_write_word p minus_one v).1 ≡ p
  unfolding arm_write_word memory_write_word memory_get_size
  no_word = ground arith

module _ (p : ArmCore) (val : ℕ) (fails : condition p val ≡ false) where
  no_address_bw : is_indexed val ≡ true → get_address_mode_bw p val ≡ (minus_one, p)
  unfolding get_address_mode_bw get_bit
  no_address_bw h = rw fails (ground (arith, h))

  no_address_half : is_indexed val ≡ true → get_address_mode_half p val ≡ (minus_one, p)
  unfolding get_address_mode_half get_bit get_bits
  no_address_half h = rw fails (ground (arith, h))

  branch_skipped : get_bit val 24 ≡ 0 → arm_branch p val ≡ p
  unfolding arm_branch
  branch_skipped h = rw (h, fails) refl

  transfer_skipped :
      (stale : Stale) → is_indexed val ≡ true → p.mem.size < 2 ^ 32 → arm_load_store stale p val ≡ p
  unfolding arm_load_store load_word load_half load_byte store_byte store_half store_word
  transfer_skipped stale h small =
      let v = arm_read_register p (get_bits val 15 12) in
      rw
        (
          no_address_bw h,
          no_address_half h,
          no_byte p (u8 v) small,
          no_half p (u16 v) small,
          no_word p v small,
        )
        (ground arith)

  decode_skipped :
      (stale : Stale)
      → is_conditional val ≡ true
      → p.mem.size < 2 ^ 32
      → decode stale p val ≡ returned 0 p
  unfolding decode is_conditional get_bits
  decode_skipped stale h small =
      let transfers : is_indexed val ≡ true
          → returned 0 (arm_load_store stale p val) ≡ returned 0 p =
        λ e. ap (returned 0) (transfer_skipped stale e small) in
      let branches : get_bit val 24 ≡ 0 → returned 0 (arm_branch p val) ≡ returned 0 p =
        λ e. ap (returned 0) (branch_skipped e) in
      rw fails (ground (arith, h, transfers, branches))

size-fetched : (p : ArmCore) (v : ℕ) → (arm_fetch p v).2.mem.size ≡ p.mem.size
unfolding arm_fetch arm_write_register
size-fetched p v = refl

-- A step on an instruction that looks at its condition first, when the condition fails on the
-- processor after the fetch: the code is 0 and the processor is the one that the fetch left.
-- These are data processing, transfers of one register that write the base register or move it
-- afterwards, and branches without a link, none with the condition field 15. The memory has
-- fewer than 2 ^ 32 bytes.
pub arm_step_skipped :
    (stale : Stale) (p : ArmCore)
    → let (result, val, fetched) = arm_fetch p stale.fetched in
      is_conditional val ≡ true
      → condition fetched val ≡ false
      → p.mem.size < 2 ^ 32
      → arm_step stale p ≡ returned 0 fetched
unfolding arm_step arm_execute_instruction after_exception
arm_step_skipped stale p conditional fails small =
    let (result, val, fetched) = arm_fetch p stale.fetched in
    ap after_exception (
      decode_skipped fetched val fails stale conditional
        (omega (arith, small, size-fetched p stale.fetched)))
