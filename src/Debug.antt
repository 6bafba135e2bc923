-- ===== src/Debug.antt =====
-- debug.c: the names of the files whose debug messages are printed.
-- A name is the list of its bytes before the byte 0. The array is a function of the index; with 64
-- names in it, `add_debug_to` moves the last one to index 64, behind its end.
pub mod Order
pub mod Search
pub mod Insert
pub mod Files
use Prim.Native.Nat.{compare, Ordering}
use l3_info_simulateur_arm.Base.{
  ℕ, zero, suc, ◌+◌, ◌-◌, ◌/◌, Bool, true, false, ◌&&◌, ltb, leb, ◌==◌, if◌then◌else◌, [], ◌∷◌,
  update,
}
use l3_info_simulateur_arm.Text.{Bytes}

-- The sign of `strcmp`.
unfoldable pub strcmp : Bytes → Bytes → Ordering
strcmp [] [] = Ordering.eq
strcmp [] (y ∷ ys) = Ordering.lt
strcmp (x ∷ xs) [] = Ordering.gt
strcmp (x ∷ xs) (y ∷ ys) = elim (compare x y) [
  | Ordering.lt ↦ Ordering.lt
  | Ordering.gt ↦ Ordering.gt
  | Ordering.eq ↦ strcmp xs ys
]

abbrev pub is_lt : Ordering → Bool
is_lt Ordering.lt = true
is_lt _ = false

abbrev pub is_eq : Ordering → Bool
is_eq Ordering.eq = true
is_eq _ = false

abbrev pub max_files_number : ℕ
max_files_number = 64

pub record DebuggedFiles : Type 0 where
  pub files : ℕ → Bytes
  pub number : ℕ

unfoldable pub no_files : DebuggedFiles
no_files = record { files = λ i. []; number = 0 }

-- The `while` at index `i`, with `left` names behind it.
unfoldable pub position_loop : DebuggedFiles → Bytes → ℕ → ℕ → ℕ
position_loop d name zero i = i
position_loop d name (suc left) i =
    let rest = position_loop d name left (i + 1) in
    if ltb i max_files_number && is_lt (strcmp (d.files i) name) then rest else i

-- The `for`, with `left` rounds left at index `j`.
unfoldable pub shift_loop : ℕ → ℕ → (ℕ → Bytes) → (ℕ → Bytes)
shift_loop zero j files = files
shift_loop (suc left) j files =
    shift_loop left (j - 1) (λ k. if k == j then files (j - 1) else files k)

unfoldable pub add_debug_to : DebuggedFiles → Bytes → DebuggedFiles
add_debug_to d name =
    let i = position_loop d name d.number 0 in
    if leb max_files_number i
    then d
    else let moved = shift_loop (d.number - i) d.number d.files in
      record { files = λ k. if k == i then name else moved k; number = d.number + 1 }

-- The binary search between `from` and `to`; `past` is `to + 1`, since `to` can be -1. The number
-- of rounds is bounded by `fuel`.
unfoldable pub search_loop : DebuggedFiles → Bytes → ℕ → ℕ → ℕ → Bool
search_loop d name zero from past = false
search_loop d name (suc fuel) from past =
    let middle = (from + (past - 1)) / 2 in
    if ltb (from + 1) past
    then elim (strcmp (d.files middle) name) [
      | Ordering.lt ↦ search_loop d name fuel (middle + 1) past
      | Ordering.gt ↦ search_loop d name fuel from middle
      | Ordering.eq ↦ true
    ]
    else from + 1 == past && is_eq (strcmp (d.files from) name)

unfoldable pub is_debugged : DebuggedFiles → Bytes → Bool
is_debugged d name = search_loop d name (d.number + 1) 0 d.number
