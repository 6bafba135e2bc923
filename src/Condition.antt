-- ===== src/Condition.antt =====
-- `condition` of arm_instruction.c: the condition field of an instruction against the flags.
pub mod Laws
pub mod Compared
use l3_info_simulateur_arm.Base.{ℕ, Bool, true, false, not, ◌&&◌, ◌||◌, ◌==◌, if◌then◌else◌}
use l3_info_simulateur_arm.Constants.{flag_n, flag_z, flag_c, flag_v}
use l3_info_simulateur_arm.Util.{get_bit, get_bits, bit_set}
use l3_info_simulateur_arm.Core.{ArmCore, arm_read_cpsr}

-- The `switch` on the condition field.
unfoldable pub condition_of : ℕ → ℕ → Bool
condition_of cond cpsr_value =
    let n = bit_set cpsr_value flag_n in
    let z = bit_set cpsr_value flag_z in
    let c = bit_set cpsr_value flag_c in
    let v = bit_set cpsr_value flag_v in
    let same = get_bit cpsr_value flag_n == get_bit cpsr_value flag_v in
    if cond == 0
    then z
    else if cond == 1
    then not z
    else if cond == 2
    then c
    else if cond == 3
    then not c
    else if cond == 4
    then n
    else if cond == 5
    then not n
    else if cond == 6
    then v
    else if cond == 7
    then not v
    else if cond == 8
    then c && not z
    else if cond == 9
    then not c || z
    else if cond == 10
    then same
    else if cond == 11
    then not same
    else if cond == 12
    then same && not z
    else if cond == 13
    then not same || z
    else if cond == 14
    then true
    else false

unfoldable pub condition : ArmCore → ℕ → Bool
condition p ins = condition_of (get_bits ins 31 28) (arm_read_cpsr p)
