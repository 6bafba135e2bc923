-- ===== src/Condition/Compared.antt =====
-- The condition codes behind the CMP of arm_data_processing.c.
use l3_info_simulateur_arm.Base.{
  ℕ, ◌+◌, ◌-◌, ◌%◌, ◌^◌, ◌≤◌, ◌≡◌, refl, arith, Bool, true, false, not, ◌&&◌, ◌||◌, if◌then◌else◌,
  ◌==◌,
}
use l3_info_simulateur_arm.Constants.{flag_n, flag_z, flag_c, flag_v}
use l3_info_simulateur_arm.Util.{get_bit, get_bits}
use l3_info_simulateur_arm.Util.Bounds.{get_bit-le}
use l3_info_simulateur_arm.Core.{ArmCore, arm_read_cpsr}
use l3_info_simulateur_arm.Core.Keeps.{IsWordCore}
use l3_info_simulateur_arm.Condition.{condition_of}
use l3_info_simulateur_arm.DataProcessing.{arm_data_processing_shift}
use l3_info_simulateur_arm.DataProcessing.Results.{first_operand, second_operand}
use l3_info_simulateur_arm.DataProcessing.Subtraction.{cmp_flags}

-- What the conditions that are orders give behind the comparison of two words: EQ, NE, CS, CC, HI,
-- LS, GE, LT, GT and LE.
abbrev pub CodesAfter : ℕ → ℕ → ℕ → Type 0
CodesAfter x y w =
    let ge =
      if get_bit x 31 == get_bit y 31
      then get_bit x 31 == 0
      else get_bit ((x + 2 ^ 32 - y) % 2 ^ 32) 31 == 0 in
    (condition_of 0 w ≡ (x == y))
    × (condition_of 1 w ≡ not (x == y))
    × (condition_of 2 w ≡ true)
    × (condition_of 3 w ≡ false)
    × (condition_of 8 w ≡ not (x == y))
    × (condition_of 9 w ≡ (x == y))
    × (condition_of 10 w ≡ ge)
    × (condition_of 11 w ≡ not ge)
    × (condition_of 12 w ≡ ge && not (x == y))
    × (condition_of 13 w ≡ not ge || (x == y))

-- A flag that is 1 where a test holds.
flag_of : (f : ℕ) (t : Bool) → f ≡ (if t then 1 else 0) → (f == 1) ≡ t
flag_of f true e = ground arith
flag_of f false e = ground arith

-- N is V.
same_flags :
    (x y n v : ℕ)
    → x ≤ 1
    → y ≤ 1
    → n ≤ 1
    → v ≡ (if x == y && not (n == y) then 1 else 0)
    → (n == v) ≡ (if x == y then x == 0 else n == 0)
same_flags x y n v hx hy hn e = ground arith

codes_of_flags :
    (x y w : ℕ)
    → let n = get_bit ((x + 2 ^ 32 - y) % 2 ^ 32) 31 in
      get_bit w flag_z ≡ (if x == y then 1 else 0)
      → get_bit w flag_n ≡ n
      → get_bit w flag_c ≡ 1
      → get_bit w flag_v
        ≡ (if get_bit x 31 == get_bit y 31 && not (n == get_bit y 31) then 1 else 0)
      → CodesAfter x y w
unfolding condition_of
codes_of_flags x y w hz hn hc hv =
    let n = get_bit ((x + 2 ^ 32 - y) % 2 ^ 32) 31 in
    let zero_flag = flag_of (get_bit w flag_z) (x == y) hz in
    let same =
      same_flags (get_bit x 31) (get_bit y 31) n (get_bit w flag_v) (get_bit-le x 31)
        (get_bit-le y 31) (get_bit-le ((x + 2 ^ 32 - y) % 2 ^ 32) 31) hv in
    rw (zero_flag, hn, hc, same) (refl, refl, refl, refl, refl, refl, refl, refl, refl, refl)

-- Behind CMP, in a processor whose cells are 32-bit words, the conditions do not all have their
-- meaning: EQ and NE decide whether the operands are equal, but CS always holds and CC never, so
-- that HI is NE and LS is EQ, whichever operand is the greater. GE holds of two operands without bit 31, never of two operands with it,
-- and otherwise where the difference has no bit 31; LT is its negation, GT is GE and NE, and LE is LT or EQ.
pub condition_of-cmp :
    (p : ArmCore) (ins : ℕ)
    → IsWordCore p
    → get_bits ins 24 21 ≡ 10
    → CodesAfter
        (first_operand p ins)
        (second_operand p ins)
        (arm_read_cpsr (arm_data_processing_shift p ins))
condition_of-cmp p ins word opcode =
    let flags = cmp_flags p ins word opcode in
    codes_of_flags (first_operand p ins) (second_operand p ins)
      (arm_read_cpsr (arm_data_processing_shift p ins)) flags.0 flags.1 flags.2 flags.3
