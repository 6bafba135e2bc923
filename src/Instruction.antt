-- ===== src/Instruction.antt =====
-- arm_instruction.c: fetch, decode and execute one instruction, and enter an exception.
pub mod Invariant
pub mod Ends
pub mod Skipped
use l3_info_simulateur_arm.Base.{ℕ, ◌/◌, ◌%◌, ◌^◌, Bool, ◌&&◌, ◌||◌, ◌==◌, if◌then◌else◌}
use l3_info_simulateur_arm.Util.{minus_one, get_bit, get_bits}
use l3_info_simulateur_arm.Core.{ArmCore, arm_fetch}
use l3_info_simulateur_arm.Exception.{arm_exception}
use l3_info_simulateur_arm.Condition.{condition}
use l3_info_simulateur_arm.DataProcessing.{arm_data_processing_shift}
use l3_info_simulateur_arm.Branch.{Outcome, returned, exited, arm_branch, arm_miscellaneous}
use l3_info_simulateur_arm.Branch.{arm_coprocessor_others_swi}
use l3_info_simulateur_arm.LoadStore.{Stale, arm_load_store, arm_load_store_multiple}
use l3_info_simulateur_arm.LoadStore.{arm_coprocessor_load_store}

-- Data processing, or nothing where the condition fails.
abbrev process : ArmCore → ℕ → Outcome
process p val =
    if condition p val then returned 0 (arm_data_processing_shift p val) else returned 0 p

abbrev with_code : ℕ × ArmCore → Outcome
with_code (code, p) = returned code p

abbrev pub is_miscellaneous : ℕ → Bool
is_miscellaneous val =
    (get_bits val 24 23 == 2 && get_bit val 20 == 0)
    && (get_bit val 4 == 0 || (get_bit val 7 == 0 && get_bit val 4 == 1))

-- The `switch` on bits 25 to 27.
unfoldable pub decode : Stale → ArmCore → ℕ → Outcome
decode stale p val =
    let champ = val / 2 ^ 25 % 2 ^ 3 in
    if val / 2 ^ 28 % 2 ^ 4 == 0xF
    then returned minus_one p
    else if champ == 0
    then if get_bit val 4 == 1 && get_bit val 7 == 1
      then returned 0 (arm_load_store stale p val)
      else if is_miscellaneous val
      then arm_miscellaneous p val
      else process p val
    else if champ == 1
    then process p val
    else if champ == 2 || champ == 3
    then returned 0 (arm_load_store stale p val)
    else if champ == 4
    then with_code (arm_load_store_multiple stale p val)
    else if champ == 5
    then returned 0 (arm_branch p val)
    else if champ == 6
    then returned arm_coprocessor_load_store p
    else arm_coprocessor_others_swi p val

unfoldable pub arm_execute_instruction : Stale → ArmCore → Outcome
arm_execute_instruction stale p =
    let (result, val, q) = arm_fetch p stale.fetched in decode stale q val

-- The second half of `arm_step`; the code is passed on as an `unsigned char`.
unfoldable pub after_exception : Outcome → Outcome
after_exception exited = exited
after_exception (returned result q) =
    returned result (if result == 0 then q else arm_exception q (result % 2 ^ 8))

unfoldable pub arm_step : Stale → ArmCore → Outcome
arm_step stale p = after_exception (arm_execute_instruction stale p)
