-- ===== src/Debug/Insert.antt =====
-- The insertion of `add_debug_to`.
use Prim.Native.Nat.{Ordering}
use mathlib.Core.Path.{subst}
use l3_info_simulateur_arm.Base.{
  ℕ, zero, suc, ◌+◌, ◌-◌, ◌≤◌, ◌<◌, ◌≡◌, ◌≢◌, ◌↔◌, ap, refl, arith, Bool, true, false, ◌⊎◌, inl,
  inr, Bool-cases, ◌&&◌, ltb, leb, ◌==◌, if◌then◌else◌,
}
use l3_info_simulateur_arm.Text.{Bytes}
use l3_info_simulateur_arm.Debug.{
  strcmp, is_lt, max_files_number, DebuggedFiles, position_loop, shift_loop, add_debug_to,
  is_debugged,
}
use l3_info_simulateur_arm.Debug.Order.{strcmp_turned_gt, IsAtMost, IsAtMost-trans}
use l3_info_simulateur_arm.Debug.Search.{IsSorted, Holds, is_debugged_iff}

shift_loop_lem :
    (left j : ℕ) (files : ℕ → Bytes) (k : ℕ)
    → left ≤ j
    → shift_loop left j files k ≡ (if ltb (j - left) k && leb k j then files (k - 1) else files k)
unfolding shift_loop
shift_loop_lem zero j files k h = ground arith
shift_loop_lem (suc left) j files k h = ground (
  arith,
  shift_loop_lem left (j - 1) (λ k. if k == j then files (j - 1) else files k) k (omega arith),
)

-- The names below an index come before the name, and the one at the index does not.
record IsPosition (d : DebuggedFiles) (name : Bytes) (from i : ℕ) : Type 0 where
  least : from ≤ i
  most : i ≤ d.number
  before : (k : ℕ) → from ≤ k → k < i → strcmp (d.files k) name ≡ Ordering.lt
  here : i < d.number → strcmp (d.files i) name ≢ Ordering.lt

IsPosition-if :
    {d : DebuggedFiles} {name : Bytes} {from i j : ℕ} (b : Bool)
    → (b ≡ true → IsPosition d name from i)
    → (b ≡ false → IsPosition d name from j)
    → IsPosition d name from (if b then i else j)
IsPosition-if true h k = h refl
IsPosition-if false h k = k refl

position_loop-IsPosition :
    (d : DebuggedFiles) (name : Bytes) (left from : ℕ)
    → from + left ≡ d.number
    → d.number ≤ max_files_number
    → IsPosition d name from (position_loop d name left from)
unfolding position_loop
position_loop-IsPosition d name zero from e small = record {
  least = omega arith;
  most = omega arith;
  before = λ k a b. absurd (omega arith);
  here = λ h. absurd (omega arith);
}
position_loop-IsPosition d name (suc left) from e small =
    let before_name = ltb from max_files_number && is_lt (strcmp (d.files from) name) in
    let rest = position_loop-IsPosition d name left (from + 1) (omega arith) small in
    IsPosition-if before_name
      (λ b. record {
        least = omega (arith, rest.least);
        most = rest.most;
        before = λ k h l. ground (arith, b, rest.before k);
        here = rest.here;
      })
      (λ b. record {
        least = omega arith;
        most = omega arith;
        before = λ k h l. absurd (omega arith);
        here = λ h. ground (arith, b);
      })

-- The array after an insertion where there is room.
inserted : DebuggedFiles → Bytes → ℕ → DebuggedFiles
inserted d name i = record {
  files = λ k.
      if k == i then name else if ltb i k && leb k d.number then d.files (k - 1) else d.files k;
  number = d.number + 1;
}

add_debug_to-files :
    (d : DebuggedFiles) (name : Bytes) (k : ℕ)
    → d.number < max_files_number
    → let i = position_loop d name d.number 0 in
      (IsPosition d name 0 i)
      × ((add_debug_to d name).files k ≡ (inserted d name i).files k)
      × ((add_debug_to d name).number ≡ d.number + 1)
unfolding add_debug_to inserted
add_debug_to-files d name k room =
    let i = position_loop d name d.number 0 in
    let p = position_loop-IsPosition d name d.number 0 (omega arith) (omega arith) in
    let small : leb max_files_number i ≡ false = ground (arith, p.most) in
    let back : d.number - (d.number - i) ≡ i = omega (arith, p.most) in
    (
      p,
      ground (arith, small, back, shift_loop_lem (d.number - i) d.number d.files k (omega arith)),
      ground (arith, small),
    )

module _ (d : DebuggedFiles) (name : Bytes) (i : ℕ) (p : IsPosition d name 0 i)
    (sorted : IsSorted d) where
  name_first : (k : ℕ) → i ≤ k → k < d.number → IsAtMost name (d.files k)
  name_first k h l =
      let at_i : IsAtMost name (d.files i) =
        λ e. p.here (omega arith) (strcmp_turned_gt name (d.files i) e) in
      elim (Bool-cases (k == i)) [
        | inl e ↦ subst (λ m. IsAtMost name (d.files m)) (ground (arith, e)) at_i
        | inr e ↦
            IsAtMost-trans name (d.files i) (d.files k) at_i (sorted i k (ground (arith, e)) l)
      ]

  name_last : (k : ℕ) → k < i → IsAtMost (d.files k) name
  name_last k h = ground (arith, p.before k (omega arith) h)

  inserted-IsSorted : IsSorted (inserted d name i)
  unfolding inserted
  inserted-IsSorted a b h l = ground (
    arith,
    p.most,
    name_last a,
    name_first (b - 1),
    sorted a b,
    sorted a (b - 1),
    sorted (a - 1) (b - 1),
  )

  inserted-Holds : (x : Bytes) → Holds (inserted d name i) x ↔ ((x ≡ name) ⊎ Holds d x)
  unfolding inserted
  inserted-Holds x = (
    λ held.
        let (k, h, e) = held in
        elim (Bool-cases (k == i)) [
          | inl c ↦ inl (ground (arith, c, e))
          | inr c ↦ elim (Bool-cases (ltb i k && leb k d.number)) [
            | inl r ↦ inr (k - 1, ground (arith, r), ground (arith, c, r, e))
            | inr r ↦ inr (k, ground (arith, r, c, p.most), ground (arith, c, r, e))
          ]
        ],
    λ given. elim given [
      | inl e ↦ (i, omega (arith, p.most), ground (arith, e))
      | inr (k, h, e) ↦ elim (Bool-cases (ltb k i)) [
        | inl c ↦ (k, omega arith, ground (arith, c, e))
        | inr c ↦
            let index : k + 1 - 1 ≡ k = omega arith in
            (k + 1, omega arith, ground (arith, c, e, ap d.files index))
      ]
    ],
  )

-- An insertion into a sorted array of fewer than 64 names leaves it sorted, with one name more, and
-- the search then finds the new name and the names that it found before, and no others.
pub add_debug_to_lem :
    (d : DebuggedFiles) (name other : Bytes)
    → IsSorted d
    → d.number < max_files_number
    → let d' = add_debug_to d name in
      (IsSorted d')
      × (d'.number ≡ d.number + 1)
      × ((is_debugged d' other ≡ true) ↔ ((other ≡ name) ⊎ (is_debugged d other ≡ true)))
unfolding inserted
add_debug_to_lem d name other sorted room =
    let i = position_loop d name d.number 0 in
    let at = λ (k : ℕ). add_debug_to-files d name k room in
    let same : add_debug_to d name ≡ inserted d name i =
      λ t. record { files = λ k. (at k).1 t; number = (at 0).2 t } in
    let sorted' = inserted-IsSorted d name i (at 0).0 sorted in
    let holds = inserted-Holds d name i (at 0).0 sorted other in
    let old = is_debugged_iff d other sorted in
    let new = is_debugged_iff (inserted d name i) other sorted' in
    rw same (
      sorted',
      refl,
      (
        λ e. elim (holds.0 (new.0 e)) [ inl x ↦ inl x | inr h ↦ inr (old.1 h) ],
        λ g. new.1 (holds.1 (elim g [ inl x ↦ inl x | inr e ↦ inr (old.0 e) ])),
      ),
    )
