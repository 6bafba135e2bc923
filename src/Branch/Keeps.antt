-- ===== src/Branch/Keeps.antt =====
-- What branches and the move of a status register keep.
use l3_info_simulateur_arm.Base.{
  ℕ, ◌%◌, ◌^◌, ◌<◌, ◌&&◌, arith, ◌==◌, if◌then◌else◌, Bool, true, false,
}
use l3_info_simulateur_arm.Util.{sub32, get_bit, get_bits, bit_set}
use l3_info_simulateur_arm.Core.{ArmCore, arm_read_register, arm_write_register}
use l3_info_simulateur_arm.Core.Keeps.{IsWordCore, Keeps, Keeps-refl, Keeps-trans, Keeps-if}
use l3_info_simulateur_arm.Core.Keeps.{arm_read_cpsr-lt, arm_read_spsr-lt, arm_write_register-Keeps}
use l3_info_simulateur_arm.Condition.{condition}
use l3_info_simulateur_arm.Branch.{
  Outcome, returned, exited, branch_offset, arm_branch, status_word,
}
use l3_info_simulateur_arm.Branch.{arm_miscellaneous, arm_coprocessor_others_swi}

-- What an outcome keeps: the processor that is returned, where one is.
pub data Returns (p : ArmCore) : Outcome → Type 0 where
  ends : Returns p exited
  back : {code : ℕ} {q : ArmCore} → Keeps p q → Returns p (returned code q)

pub Returns-if :
    (b : Bool) {p : ArmCore} {x y : Outcome}
    → Returns p x
    → Returns p y
    → Returns p (if b then x else y)
Returns-if true h k = h
Returns-if false h k = k

pub Returns-after : {p q : ArmCore} {r : Outcome} → Keeps p q → Returns q r → Returns p r
Returns-after h ends = ends
Returns-after h (back k) = back (Keeps-trans h k)

pub arm_branch-Keeps : (p : ArmCore) (ins : ℕ) → IsWordCore p → Keeps p (arm_branch p ins)
unfolding arm_branch
arm_branch-Keeps p ins h =
    let pc = arm_read_register p 15 in
    let linked =
      Keeps-if (bit_set ins 24) (arm_write_register-Keeps p 14 (sub32 pc 4) h (omega arith))
        (Keeps-refl h) in
    let q = if bit_set ins 24 then arm_write_register p 14 (sub32 pc 4) else p in
    Keeps-if (condition q ins)
      (Keeps-trans linked
        (arm_write_register-Keeps q 15 (sub32 pc (branch_offset ins)) linked.word (omega arith)))
      linked

status_word-lt : (p : ArmCore) (ins : ℕ) → IsWordCore p → status_word p ins < 2 ^ 32
unfolding status_word
status_word-lt p ins h = ground (arith, arm_read_cpsr-lt p h, arm_read_spsr-lt p h)

pub arm_miscellaneous-Returns :
    (p : ArmCore) (ins : ℕ) → IsWordCore p → Returns p (arm_miscellaneous p ins)
unfolding arm_miscellaneous
arm_miscellaneous-Returns p ins h =
    Returns-if
      (get_bit ins 21 == 0
        && get_bits ins 19 16 == 0xF
        && get_bits ins 11 0 == 0
        && condition p ins)
      (back (
        arm_write_register-Keeps p (get_bits ins 15 12) (status_word p ins) h
          (status_word-lt p ins h)))
      (back (Keeps-refl h))

pub arm_coprocessor_others_swi-Returns :
    (p : ArmCore) (ins : ℕ) → IsWordCore p → Returns p (arm_coprocessor_others_swi p ins)
unfolding arm_coprocessor_others_swi
arm_coprocessor_others_swi-Returns p ins h =
    Returns-if (bit_set ins 24) (Returns-if (ins % 2 ^ 24 == 0x123456) ends (back (Keeps-refl h)))
      (back (Keeps-refl h))
