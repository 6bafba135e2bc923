-- ===== src/Registers/Banks.antt =====
-- Which cell a register number names in each mode.
use l3_info_simulateur_arm.Base.{
  ℕ, ◌-◌, ◌≤◌, ◌<◌, ◌≡◌, ◌≢◌, ◌⊎◌, ◌↔◌, ◌∙◌, sym, ap, arith, not, ltb,
}
use l3_info_simulateur_arm.Base.{◌==◌, ◌&&◌, ◌||◌, if◌then◌else◌}
use l3_info_simulateur_arm.Constants.{usr, fiq, irq, svc, abt, und, sys, spsr}
use l3_info_simulateur_arm.Registers.{Registers, cell_of, get_register, get_mode}

-- The seven modes of the processor.
abbrev pub IsMode : ℕ → Type 0
IsMode m = (m ≡ usr) ⊎ (m ≡ fiq) ⊎ (m ≡ irq) ⊎ (m ≡ svc) ⊎ (m ≡ abt) ⊎ (m ≡ und) ⊎ (m ≡ sys)

-- In each of the seven modes, the registers 0 to 17 lie within the 38 cells.
get_register-lt :
    (r : Registers) (reg : ℕ) → IsMode (get_mode r) → reg ≤ spsr → get_register r reg < 38
unfolding get_register cell_of
get_register-lt r reg m h = ground arith

-- Two modes see the same register: it has one cell, or the modes are in one bank.
-- User and system mode form one bank; r8 to r12 have a second cell in fast interrupt mode only.
abbrev pub Shared : ℕ → ℕ → ℕ → Type 0
Shared m n reg =
    (reg < 8)
    ⊎ (reg ≡ 15)
    ⊎ (m ≡ n)
    ⊎ (((m ≡ usr) ⊎ (m ≡ sys)) × ((n ≡ usr) ⊎ (n ≡ sys)))
    ⊎ ((reg < 13) × (m ≢ fiq) × (n ≢ fiq))

cell_of-Shared :
    (m n i : ℕ) → IsMode m → IsMode n → i < 16 → Shared m n i → cell_of m i ≡ cell_of n i
unfolding cell_of
cell_of-Shared m n i hm hn hi s = ground arith

-- The register number that a cell belongs to, and the mode that owns the cell (0 for none).
number_of : ℕ → ℕ
number_of c =
    if ltb c 18
    then c
    else if ltb c 23
    then c - 10
    else if ltb c 28
    then 13
    else if ltb c 33
    then 14
    else 17

owner_of : ℕ → ℕ
owner_of c =
    if ltb c 8 || c == 15 || c == 16
    then 0
    else if ltb c 18
    then usr
    else if ltb c 23
    then fiq
    else if c == 23 || c == 28
    then svc
    else if c == 24 || c == 29
    then abt
    else if c == 25 || c == 30
    then und
    else if c == 26 || c == 31
    then irq
    else fiq

number_of-cell_of : (m i : ℕ) → IsMode m → i < 17 → number_of (cell_of m i) ≡ i
unfolding number_of cell_of
number_of-cell_of m i hm hi = ground arith

owner : ℕ → ℕ → ℕ
owner m i =
    if ltb i 8 || i == 15 || i == 16
    then 0
    else if m == usr || m == sys
    then usr
    else if ltb i 13 && not (m == fiq)
    then usr
    else m

owner_of-cell_of : (m i : ℕ) → IsMode m → i < 17 → owner_of (cell_of m i) ≡ owner m i
unfolding owner_of owner cell_of
owner_of-cell_of m i hm hi = ground arith

Shared-owner : (m n i : ℕ) → IsMode m → IsMode n → i < 16 → owner m i ≡ owner n i → Shared m n i
unfolding owner
Shared-owner m n i hm hn hi e = ground arith

cell_of-injective :
    (m n i j : ℕ)
    → IsMode m
    → IsMode n
    → i < 17
    → j < 17
    → cell_of m i ≡ cell_of n j
    → (i ≡ j) × (owner m i ≡ owner n j)
cell_of-injective m n i j hm hn hi hj e = ground (
  arith,
  number_of-cell_of m i hm hi,
  number_of-cell_of n j hn hj,
  owner_of-cell_of m i hm hi,
  owner_of-cell_of n j hn hj,
)

-- Two of the registers 0 to 15, each in one of the seven modes, have the same cell exactly when
-- their numbers are equal and the modes share the register of that number.
pub cell_of-eq_iff :
    (m n i j : ℕ)
    → IsMode m
    → IsMode n
    → i < 16
    → j < 16
    → (cell_of m i ≡ cell_of n j) ↔ ((i ≡ j) × Shared m n i)
cell_of-eq_iff m n i j hm hn hi hj = (
  λ e.
      let same = cell_of-injective m n i j hm hn (omega arith) (omega arith) e in
      (same.0, Shared-owner m n i hm hn hi (same.1 ∙ ap (owner n) (sym same.0))),
  λ s. cell_of-Shared m n i hm hn hi s.1 ∙ ap (cell_of n) s.0,
)

-- In one mode different registers have different cells, the status register among them.
pub cell_of-ne : (m i j : ℕ) → IsMode m → i < 17 → j < 17 → i ≢ j → cell_of m i ≢ cell_of m j
cell_of-ne m i j hm hi hj ne e = ne (cell_of-injective m m i j hm hm hi hj e).0
