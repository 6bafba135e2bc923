-- ===== src/Debug/Order.antt =====
-- The order of `strcmp`.
use Prim.Native.Nat.{Ordering}
use l3_info_simulateur_arm.Base.{◌≡◌, ◌≢◌, refl, arith, [], ◌∷◌}
use l3_info_simulateur_arm.Text.{Bytes}
use l3_info_simulateur_arm.Debug.{strcmp}

pub strcmp_self : (x : Bytes) → strcmp x x ≡ Ordering.eq
unfolding strcmp
strcmp_self [] = refl
strcmp_self (c ∷ x) = ground (arith, strcmp_self x)

pub eq_of_strcmp : (x y : Bytes) → strcmp x y ≡ Ordering.eq → x ≡ y
unfolding strcmp
eq_of_strcmp [] [] e = refl
eq_of_strcmp [] (d ∷ y) e = cc
eq_of_strcmp (c ∷ x) [] e = cc
eq_of_strcmp (c ∷ x) (d ∷ y) e = ground (arith, eq_of_strcmp x y)

-- The other way round the sign turns.
pub strcmp_turned : (x y : Bytes) → strcmp x y ≡ Ordering.lt → strcmp y x ≡ Ordering.gt
unfolding strcmp
strcmp_turned [] [] e = cc
strcmp_turned [] (d ∷ y) e = refl
strcmp_turned (c ∷ x) [] e = cc
strcmp_turned (c ∷ x) (d ∷ y) e = ground (arith, strcmp_turned x y)

pub strcmp_turned_gt : (x y : Bytes) → strcmp x y ≡ Ordering.gt → strcmp y x ≡ Ordering.lt
unfolding strcmp
strcmp_turned_gt [] [] e = cc
strcmp_turned_gt [] (d ∷ y) e = cc
strcmp_turned_gt (c ∷ x) [] e = refl
strcmp_turned_gt (c ∷ x) (d ∷ y) e = ground (arith, strcmp_turned_gt x y)

-- At most: not greater.
abbrev pub IsAtMost : Bytes → Bytes → Type 0
IsAtMost x y = strcmp x y ≢ Ordering.gt

pub IsAtMost-trans : (x y z : Bytes) → IsAtMost x y → IsAtMost y z → IsAtMost x z
unfolding strcmp
IsAtMost-trans [] y [] h k = cc
IsAtMost-trans [] y (c ∷ z) h k = cc
IsAtMost-trans (a ∷ x) [] z h k = absurd (h refl)
IsAtMost-trans (a ∷ x) (b ∷ y) [] h k = absurd (k refl)
IsAtMost-trans (a ∷ x) (b ∷ y) (c ∷ z) h k = ground (arith, IsAtMost-trans x y z)
