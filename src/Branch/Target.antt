-- ===== src/Branch/Target.antt =====
-- Where a branch goes.
use l3_info_simulateur_arm.Base.{
  ◌&&◌, ℕ, ◌+◌, ◌-◌, ◌*◌, ◌/◌, ◌%◌, ◌^◌, ◌<◌, ◌≡◌, ◌≢◌, arith, if◌then◌else◌, ◌==◌, Bool-cases, inl,
  inr, true,
}
use l3_info_simulateur_arm.Util.{u32, add32, sub32, bit_not, bit_set, get_bit, get_bits}
use l3_info_simulateur_arm.Util.Laws.{set_bits_lem}
use l3_info_simulateur_arm.Registers.{read_register, get_mode}
use l3_info_simulateur_arm.Registers.Banks.{IsMode}
use l3_info_simulateur_arm.Registers.Access.{
  read_register-write_register, get_mode-write_register, read_cpsr-write_register,
}
use l3_info_simulateur_arm.Core.{ArmCore, arm_read_register, arm_write_register, arm_read_cpsr}
use l3_info_simulateur_arm.Condition.{condition}
use l3_info_simulateur_arm.Branch.{branch_offset, arm_branch}

-- The offset field as the architecture reads it: 24 bits signed, four bytes to a unit, on 32 bits.
abbrev pub signed_offset : ℕ → ℕ
signed_offset ins =
    let field = ins % 2 ^ 24 in
    if field / 2 ^ 23 == 1 then (field + (2 ^ 30 - 2 ^ 24)) * 4 else field * 4

branch_offset_lem :
    (ins : ℕ) → ins % 2 ^ 24 ≢ 2 ^ 23 → (branch_offset ins + signed_offset ins) % 2 ^ 32 ≡ 0
unfolding branch_offset get_bit get_bits
branch_offset_lem ins h =
    let field = ins % 2 ^ 24 in
    let negated = (2 ^ 24 - field) % 2 ^ 24 in
    let same : u32 (add32 (bit_not (ins / 2 ^ 0 % 2 ^ 24)) 1 * 2 ^ 8) / 2 ^ 8 ≡ negated =
      omega arith in
    let ext1 = set_bits_lem negated 29 24 0x3F (omega arith) (omega arith) (omega arith) in
    let ext0 = set_bits_lem negated 29 24 0 (omega arith) (omega arith) (omega arith) in
    rw same (ground (arith, ext1, ext0))

branch_offset-lt : (ins : ℕ) → branch_offset ins < 2 ^ 32
unfolding branch_offset
branch_offset-lt ins = omega arith

branch_offset_lowest : (ins : ℕ) → ins % 2 ^ 24 ≡ 2 ^ 23 → branch_offset ins ≡ 2 ^ 32 - 2 ^ 25
unfolding branch_offset get_bit get_bits
branch_offset_lowest ins h =
    let same : u32 (add32 (bit_not (ins / 2 ^ 0 % 2 ^ 24)) 1 * 2 ^ 8) / 2 ^ 8 ≡ 2 ^ 23 =
      omega arith in
    let ext1 = set_bits_lem (2 ^ 23) 29 24 0x3F (omega arith) (omega arith) (omega arith) in
    rw same (ground (arith, ext1))

-- The register 14 or 15 after a write of the other, in one of the seven modes.
module _ (p : ArmCore) (ins : ℕ) (mode : IsMode (get_mode p.reg)) where
  abbrev linked : ArmCore
  linked = if bit_set ins 24 then arm_write_register p 14 (sub32 (arm_read_register p 15) 4) else p

  linked_mode : get_mode linked.reg ≡ get_mode p.reg
  unfolding arm_write_register
  linked_mode =
      ground (arith, get_mode-write_register p.reg 14 (sub32 (arm_read_register p 15) 4) mode)

  condition-linked : condition linked ins ≡ condition p ins
  unfolding condition arm_read_cpsr arm_write_register
  condition-linked =
      ground (arith, read_cpsr-write_register p.reg 14 (sub32 (arm_read_register p 15) 4) mode)

  linked_pc : read_register linked.reg 15 ≡ read_register p.reg 15
  unfolding arm_write_register
  linked_pc =
      ground
        (arith, read_register-write_register p.reg 14 15 (sub32 (arm_read_register p 15) 4) mode)

  linked_link :
      bit_set ins 24 ≡ true → read_register linked.reg 14 ≡ sub32 (arm_read_register p 15) 4
  unfolding arm_write_register
  linked_link h =
      ground
        (arith, read_register-write_register p.reg 14 14 (sub32 (arm_read_register p 15) 4) mode)

  registers_after :
      (reg : ℕ)
      → reg < 16
      → read_register (arm_branch p ins).reg reg ≡ (
          if condition p ins && reg == 15
          then sub32 (arm_read_register p 15) (branch_offset ins)
          else read_register linked.reg reg)
  unfolding arm_branch arm_write_register
  registers_after reg h =
      let target = sub32 (arm_read_register p 15) (branch_offset ins) in
      elim (Bool-cases (condition p ins)) [
        | inl holds ↦
            rw (condition-linked, holds)
              (ground (arith, linked_mode, read_register-write_register linked.reg 15 reg target))
        | inr fails ↦ rw (condition-linked, fails)
      ]

-- A branch whose condition holds goes to the program counter as read plus the signed offset, for
-- every offset field but 0x800000; one whose condition fails leaves the program counter. The mode
-- is one of the seven.
pub arm_branch_pc :
    (p : ArmCore) (ins : ℕ)
    → IsMode (get_mode p.reg)
    → arm_read_register p 15 < 2 ^ 32
    → ins % 2 ^ 24 ≢ 2 ^ 23
    → read_register (arm_branch p ins).reg 15 ≡ (
        if condition p ins
        then add32 (arm_read_register p 15) (signed_offset ins)
        else read_register p.reg 15)
arm_branch_pc p ins mode word h =
    let offset = branch_offset_lem ins h in
    let pc = arm_read_register p 15 in
    let small = branch_offset-lt ins in
    let taken : sub32 pc (branch_offset ins) ≡ add32 pc (signed_offset ins) = omega arith in
    ground (arith, registers_after p ins mode 15, linked_pc p ins mode)

-- A branch whose condition holds, with the offset field 0x800000, which stands for -2 ^ 25, goes
-- 2 ^ 25 forward. The mode is one of the seven.
arm_branch_lowest :
    (p : ArmCore) (ins : ℕ)
    → IsMode (get_mode p.reg)
    → arm_read_register p 15 < 2 ^ 32
    → ins % 2 ^ 24 ≡ 2 ^ 23
    → condition p ins ≡ true
    → read_register (arm_branch p ins).reg 15 ≡ add32 (arm_read_register p 15) (2 ^ 25)
arm_branch_lowest p ins mode word h c =
    let offset = branch_offset_lowest ins h in
    let taken : sub32 (arm_read_register p 15) (branch_offset ins)
        ≡ add32 (arm_read_register p 15) (2 ^ 25) =
      omega arith in
    ground (arith, registers_after p ins mode 15)

-- The link register is written before the condition is looked at: a branch with link whose
-- condition fails still replaces it. The mode is one of the seven.
pub arm_branch_link :
    (p : ArmCore) (ins : ℕ)
    → IsMode (get_mode p.reg)
    → bit_set ins 24 ≡ true
    → read_register (arm_branch p ins).reg 14 ≡ sub32 (arm_read_register p 15) 4
arm_branch_link p ins mode l = ground (arith, registers_after p ins mode 14, linked_link p ins mode)
