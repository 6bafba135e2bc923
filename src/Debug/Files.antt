-- ===== src/Debug/Files.antt =====
-- The names that are in the array after several insertions.
use l3_info_simulateur_arm.Base.{
  ℕ, suc, ◌+◌, ◌≤◌, ◌≡◌, ◌⊎◌, ◌↔◌, refl, inl, inr, arith, true, List, [], ◌∷◌,
}
use l3_info_simulateur_arm.Text.{Bytes}
use l3_info_simulateur_arm.Debug.{
  DebuggedFiles, max_files_number, no_files, add_debug_to, is_debugged,
}
use l3_info_simulateur_arm.Debug.Search.{IsSorted, is_debugged_iff}
use l3_info_simulateur_arm.Debug.Insert.{add_debug_to_lem}

-- The name stands in the list.
pub data IsAmong (name : Bytes) : List Bytes → Type 0 where
  at_front : {more : List Bytes} → IsAmong name (name ∷ more)
  behind : {other : Bytes} {more : List Bytes} → IsAmong name more → IsAmong name (other ∷ more)

unfoldable pub count : List Bytes → ℕ
count [] = 0
count (name ∷ more) = suc (count more)

-- The insertions of a list of names, the first one first.
unfoldable pub add_all : DebuggedFiles → List Bytes → DebuggedFiles
add_all d [] = d
add_all d (name ∷ more) = add_all (add_debug_to d name) more

front-IsAmong :
    {name other : Bytes} {more : List Bytes} → other ≡ name → IsAmong other (name ∷ more)
front-IsAmong {name} {other} {more} e = rw e at_front

split-IsAmong :
    {name other : Bytes} {more : List Bytes}
    → IsAmong other (name ∷ more)
    → (other ≡ name) ⊎ IsAmong other more
split-IsAmong at_front = inl refl
split-IsAmong (behind h) = inr h

pub add_all_lem :
    (d : DebuggedFiles) (names : List Bytes) (other : Bytes)
    → IsSorted d
    → d.number + count names ≤ max_files_number
    → (is_debugged (add_all d names) other ≡ true)
      ↔ (IsAmong other names ⊎ (is_debugged d other ≡ true))
unfolding add_all count
add_all_lem d [] other sorted room = (λ e. inr e, λ g. elim g [ inl h ↦ elim h [ ] | inr e ↦ e ])
add_all_lem d (name ∷ more) other sorted room =
    let (sorted', number, one) = add_debug_to_lem d name other sorted (omega arith) in
    let rest = add_all_lem (add_debug_to d name) more other sorted' (omega (arith, number)) in
    (
      λ e. elim (rest.0 e) [
        | inl h ↦ inl (behind h)
        | inr f ↦ elim (one.0 f) [ inl s ↦ inl (front-IsAmong s) | inr o ↦ inr o ]
      ],
      λ g. elim g [
        | inl h ↦ elim (split-IsAmong h) [
          | inl s ↦ rest.1 (inr (one.1 (inl s)))
          | inr m ↦ rest.1 (inl m)
        ]
        | inr o ↦ rest.1 (inr (one.1 (inr o)))
      ],
    )

no_files-IsSorted : IsSorted no_files
unfolding no_files
no_files-IsSorted i j h l = absurd (omega arith)

no_files-is_debugged : (other : Bytes) → (is_debugged no_files other ≡ true) → IsAmong other []
unfolding no_files
no_files-is_debugged other e =
    let (i, below, found) = (is_debugged_iff no_files other no_files-IsSorted).0 e in
    absurd (omega (arith, below))

-- From an empty array on.
pub add_all-no_files :
    (names : List Bytes) (other : Bytes)
    → count names ≤ max_files_number
    → (is_debugged (add_all no_files names) other ≡ true) ↔ IsAmong other names
unfolding no_files
add_all-no_files names other room =
    let after = add_all_lem no_files names other no_files-IsSorted (omega arith) in
    (
      λ e. elim (after.0 e) [ inl h ↦ h | inr o ↦ elim (no_files-is_debugged other o) [ ] ],
      λ h. after.1 (inl h),
    )
