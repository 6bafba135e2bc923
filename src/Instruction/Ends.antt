-- ===== src/Instruction/Ends.antt =====
-- The instruction that ends the program.
use mathlib.Core.Path.{subst}
use l3_info_simulateur_arm.Base.{
  ℕ, ◌/◌, ◌%◌, ◌^◌, ◌≡◌, refl, arith, Bool, true, false, not, ◌&&◌, ◌||◌, ◌==◌, if◌then◌else◌,
}
use l3_info_simulateur_arm.Util.{get_bit, get_bits, bit_set}
use l3_info_simulateur_arm.Core.{ArmCore, arm_fetch}
use l3_info_simulateur_arm.Condition.{condition}
use l3_info_simulateur_arm.Branch.{
  Outcome, returned, exited, arm_miscellaneous, arm_coprocessor_others_swi,
}
use l3_info_simulateur_arm.LoadStore.{Stale, arm_load_store_multiple}
use l3_info_simulateur_arm.Instruction.{
  with_code, is_miscellaneous, process, decode, after_exception, arm_execute_instruction, arm_step,
}

abbrev pub is_exit : Outcome → Bool
is_exit exited = true
is_exit (returned code p) = false

-- The outcome, and whether it is the end of the program.
data Exits : Bool → Outcome → Type 0 where
  ends : Exits true exited
  goes : {code : ℕ} {p : ArmCore} → Exits false (returned code p)

Exits-is_exit : {b : Bool} {r : Outcome} → Exits b r → is_exit (after_exception r) ≡ b
unfolding after_exception
Exits-is_exit ends = refl
Exits-is_exit goes = refl

Exits-if :
    (b : Bool) {x y : Outcome} {n m : Bool}
    → Exits n x
    → Exits m y
    → Exits (if b then n else m) (if b then x else y)
Exits-if true h k = h
Exits-if false h k = k

stays-if :
    (b : Bool) {x y : Outcome} → Exits false x → Exits false y → Exits false (if b then x else y)
stays-if true h k = h
stays-if false h k = k

with_code-Exits : (r : ℕ × ArmCore) → Exits false (with_code r)
with_code-Exits (code, p) = goes

process-Exits : (p : ArmCore) (val : ℕ) → Exits false (process p val)
process-Exits p val = stays-if (condition p val) goes goes

arm_miscellaneous-Exits : (p : ArmCore) (val : ℕ) → Exits false (arm_miscellaneous p val)
unfolding arm_miscellaneous
arm_miscellaneous-Exits p val =
    stays-if
      (get_bit val 21 == 0
        && get_bits val 19 16 == 0xF
        && get_bits val 11 0 == 0
        && condition p val)
      goes goes

is_swi : ℕ → Bool
is_swi val =
    let champ = val / 2 ^ 25 % 2 ^ 3 in
    if val / 2 ^ 28 % 2 ^ 4 == 0xF
    then false
    else if champ == 0
    then false
    else if champ == 1
    then false
    else if champ == 2 || champ == 3
    then false
    else if champ == 4
    then false
    else if champ == 5
    then false
    else if champ == 6
    then false
    else if bit_set val 24
    then (if val % 2 ^ 24 == 0x123456 then true else false)
    else false

is_swi_lem :
    (val : ℕ) → is_swi val ≡ (val % 2 ^ 28 == 0xF123456 && not (val / 2 ^ 28 % 2 ^ 4 == 0xF))
unfolding is_swi get_bit
is_swi_lem val = ground arith

decode-Exits : (stale : Stale) (p : ArmCore) (val : ℕ) → Exits (is_swi val) (decode stale p val)
unfolding decode is_swi arm_coprocessor_others_swi
decode-Exits stale p val =
    let champ = val / 2 ^ 25 % 2 ^ 3 in
    let first =
      stays-if (get_bit val 4 == 1 && get_bit val 7 == 1) goes
        (stays-if (is_miscellaneous val) (arm_miscellaneous-Exits p val) (process-Exits p val)) in
    let swi = Exits-if (bit_set val 24) (Exits-if (val % 2 ^ 24 == 0x123456) ends goes) goes in
    Exits-if (val / 2 ^ 28 % 2 ^ 4 == 0xF) goes (
      Exits-if (champ == 0) first (
        Exits-if (champ == 1) (process-Exits p val) (
          Exits-if (champ == 2 || champ == 3) goes (
            Exits-if (champ == 4) (with_code-Exits (arm_load_store_multiple stale p val))
              (Exits-if (champ == 5) goes (Exits-if (champ == 6) goes swi))))))

-- A step ends the program exactly where the word that is fetched is `swi 0x123456` under any
-- condition field but 0xF, whether or not the condition holds.
pub is_exit-arm_step :
    (stale : Stale) (p : ArmCore)
    → let val = (arm_fetch p stale.fetched).1 in
      is_exit (arm_step stale p) ≡ (val % 2 ^ 28 == 0xF123456 && not (val / 2 ^ 28 % 2 ^ 4 == 0xF))
unfolding arm_step arm_execute_instruction
is_exit-arm_step stale p =
    let fetched = arm_fetch p stale.fetched in
    subst (λ b. is_exit (after_exception (decode stale fetched.2 fetched.1)) ≡ b)
      (is_swi_lem fetched.1) (Exits-is_exit (decode-Exits stale fetched.2 fetched.1))
