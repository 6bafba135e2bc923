-- ===== src/Debug/Search.antt =====
-- The binary search of `__is_debugged`.
use Prim.Native.Nat.{Ordering}
use l3_info_simulateur_arm.Base.{
  ℕ, zero, suc, ◌+◌, ◌-◌, ◌/◌, ◌≤◌, ◌<◌, ◌≡◌, ◌↔◌, ◌∙◌, sym, ap, refl, arith, true, false, ltb,
  ◌==◌, ◌⊎◌, inl, inr, Bool-cases, ◌&&◌,
}
use l3_info_simulateur_arm.Text.{Bytes}
use l3_info_simulateur_arm.Debug.{strcmp, is_eq, DebuggedFiles, search_loop, is_debugged}
use l3_info_simulateur_arm.Debug.Order.{strcmp_self, eq_of_strcmp, strcmp_turned, IsAtMost}

-- The names are in ascending order, a name that was given twice among them.
abbrev pub IsSorted : DebuggedFiles → Type 0
IsSorted d = (i j : ℕ) → i < j → j < d.number → IsAtMost (d.files i) (d.files j)

abbrev pub Holds : DebuggedFiles → Bytes → Type 0
Holds d name = (i : ℕ) × (i < d.number) × (d.files i ≡ name)

ordering_cases : (o : Ordering) → (o ≡ Ordering.lt) ⊎ (o ≡ Ordering.eq) ⊎ (o ≡ Ordering.gt)
ordering_cases Ordering.lt = inl refl
ordering_cases Ordering.eq = inr (inl refl)
ordering_cases Ordering.gt = inr (inr refl)

module _ (d : DebuggedFiles) (name : Bytes) where
  abbrev middle : ℕ → ℕ → ℕ
  middle from past = (from + (past - 1)) / 2

  -- A round of the search, in its four cases.
  module _ (fuel from past : ℕ) where
    search_up :
        ltb (from + 1) past ≡ true
        → strcmp (d.files (middle from past)) name ≡ Ordering.lt
        → search_loop d name (suc fuel) from past
          ≡ search_loop d name fuel (middle from past + 1) past
    unfolding search_loop
    search_up h o = rw (search_loop, h, o) refl

    search_down :
        ltb (from + 1) past ≡ true
        → strcmp (d.files (middle from past)) name ≡ Ordering.gt
        → search_loop d name (suc fuel) from past ≡ search_loop d name fuel from (middle from past)
    unfolding search_loop
    search_down h o = rw (search_loop, h, o) refl

    search_hit :
        ltb (from + 1) past ≡ true
        → strcmp (d.files (middle from past)) name ≡ Ordering.eq
        → search_loop d name (suc fuel) from past ≡ true
    unfolding search_loop
    search_hit h o = rw (search_loop, h, o) refl

    search_last :
        ltb (from + 1) past ≡ false
        → search_loop d name (suc fuel) from past
          ≡ (from + 1 == past && is_eq (strcmp (d.files from) name))
    unfolding search_loop
    search_last h = rw (search_loop, h) refl

  hit : (i : ℕ) → is_eq (strcmp (d.files i) name) ≡ true → d.files i ≡ name
  hit i e = eq_of_strcmp (d.files i) name (ground (arith, e))

  -- A result `true` comes from an index below the end of the range.
  search_sound :
      (fuel from past : ℕ)
      → search_loop d name fuel from past ≡ true
      → (i : ℕ) × (i < past) × (d.files i ≡ name)
  unfolding search_loop
  search_sound zero from past e = cc
  search_sound (suc fuel) from past e =
      let mid = middle from past in
      elim (Bool-cases (ltb (from + 1) past)) [
        | inl h ↦ elim (ordering_cases (strcmp (d.files mid) name)) [
          | inl o ↦ search_sound fuel (mid + 1) past (sym (search_up fuel from past h o) ∙ e)
          | inr (inl o) ↦ (mid, ground (arith, h), eq_of_strcmp (d.files mid) name o)
          | inr (inr o) ↦
              let (i, below, found) =
                search_sound fuel from mid (sym (search_down fuel from past h o) ∙ e) in
              (i, ground (arith, h), found)
        ]
        | inr h ↦
            let last : (from + 1 == past && is_eq (strcmp (d.files from) name)) ≡ true =
              sym (search_last fuel from past h) ∙ e in
            (from, ground (arith, last), hit from (ground (arith, last)))
      ]

  module _ (sorted : IsSorted d) (k : ℕ) (found : d.files k ≡ name) where
    above : (m : ℕ) → k < d.number → m < d.number → strcmp (d.files m) name ≡ Ordering.lt → m < k
    above m hk hm o =
        let o' : strcmp (d.files m) (d.files k) ≡ Ordering.lt = ap (strcmp (d.files m)) found ∙ o in
        ground (
          arith,
          strcmp_self (d.files k),
          strcmp_turned (d.files m) (d.files k) o',
          sorted k m,
          sorted m k,
        )

    below : (m : ℕ) → k < d.number → m < d.number → strcmp (d.files m) name ≡ Ordering.gt → k < m
    below m hk hm o =
        let o' : strcmp (d.files m) (d.files k) ≡ Ordering.gt = ap (strcmp (d.files m)) found ∙ o in
        ground (arith, strcmp_self (d.files k), sorted m k, o')

    last :
        (from past : ℕ)
        → from ≡ k
        → past ≡ from + 1
        → (from + 1 == past && is_eq (strcmp (d.files from) name)) ≡ true
    last from past e p = ground (
      arith,
      ap d.files e ∙ found,
      strcmp_self name,
      ap (λ x. strcmp x name) (ap d.files e ∙ found),
    )

    -- The name is found where it stands in the range.
    search_complete :
        (fuel from past : ℕ)
        → past ≤ d.number
        → from ≤ k
        → k < past
        → past < from + fuel
        → search_loop d name fuel from past ≡ true
    search_complete zero from past hp lo hi enough = absurd (omega arith)
    search_complete (suc fuel) from past hp lo hi enough =
        let mid = middle from past in
        elim (Bool-cases (ltb (from + 1) past)) [
          | inl h ↦ elim (ordering_cases (strcmp (d.files mid) name)) [
            | inl o ↦
                search_up fuel from past h o
                ∙ search_complete fuel (mid + 1) past hp
                    (let a = above mid (omega arith) (ground (arith, h)) o in omega arith) hi
                    (ground (arith, h))
            | inr (inl o) ↦ search_hit fuel from past h o
            | inr (inr o) ↦
                search_down fuel from past h o
                ∙ search_complete fuel from mid (ground (arith, h)) lo
                    (below mid (omega arith) (ground (arith, h)) o) (ground (arith, h))
          ]
          | inr h ↦
              search_last fuel from past h ∙ last from past (ground (arith, h)) (ground (arith, h))
        ]

-- Where the names are sorted, the binary search says `true` exactly for the names that the array
-- holds.
pub is_debugged_iff :
    (d : DebuggedFiles) (name : Bytes) → IsSorted d → (is_debugged d name ≡ true) ↔ Holds d name
unfolding is_debugged
is_debugged_iff d name sorted = (
  λ e. search_sound d name (d.number + 1) 0 d.number e,
  λ h.
      search_complete d name sorted h.0 h.2 (d.number + 1) 0 d.number (omega arith) (omega arith)
        h.1 (omega arith),
)
