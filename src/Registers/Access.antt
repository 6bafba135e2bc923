-- ===== src/Registers/Access.antt =====
-- What a write of the register file does to every later read.
use l3_info_simulateur_arm.Base.{
  ℕ, ◌^◌, ◌<◌, ◌≡◌, ◌≢◌, refl, arith, ap, ◌||◌, not, ◌==◌, if◌then◌else◌,
}
use l3_info_simulateur_arm.Constants.{usr, sys, cpsr, spsr}
use l3_info_simulateur_arm.Util.{get_bits, minus_one}
use l3_info_simulateur_arm.Registers.{
  Registers, read_register, write_register, read_cpsr, write_cpsr, get_mode, get_register, cell_of,
}
use l3_info_simulateur_arm.Registers.{
  read_spsr, write_spsr, write_usr_register, current_mode_has_spsr,
}
use l3_info_simulateur_arm.Registers.Banks.{IsMode, Shared, cell_of-eq_iff, cell_of-ne}

pub cell_of-cpsr : (m : ℕ) → cell_of m cpsr ≡ cpsr
cell_of-cpsr m = unfold cell_of in ground arith

pub cells-read_register :
    (r : Registers) (reg : ℕ) → read_register r reg ≡ r.cells (cell_of (get_mode r) reg)
unfolding read_register get_register
cells-read_register r reg = refl

pub cells-write_register :
    (r : Registers) (reg v j : ℕ)
    → (write_register r reg v).cells j ≡ (if j == cell_of (get_mode r) reg then v else r.cells j)
unfolding write_register get_register
cells-write_register r reg v j = refl

pub cells-write_cpsr :
    (r : Registers) (w j : ℕ) → (write_cpsr r w).cells j ≡ (if j == cpsr then w else r.cells j)
unfolding write_cpsr
cells-write_cpsr r w j = refl

-- A write of one of the registers 0 to 15 leaves the status register alone.
pub read_cpsr-write_register :
    (r : Registers) (reg v : ℕ)
    → IsMode (get_mode r)
    → reg < 16
    → read_cpsr (write_register r reg v) ≡ read_cpsr r
unfolding read_cpsr write_register get_register
read_cpsr-write_register r reg v m h =
    ground (arith, cell_of-ne (get_mode r) reg cpsr m, cell_of-cpsr (get_mode r))

pub get_mode-write_register :
    (r : Registers) (reg v : ℕ)
    → IsMode (get_mode r)
    → reg < 16
    → get_mode (write_register r reg v) ≡ get_mode r
unfolding get_mode
get_mode-write_register r reg v m h =
    ap (λ w. get_bits w 4 0) (read_cpsr-write_register r reg v m h)

-- In each of the seven modes, a register of 0 to 15 reads as it was last written, and the write
-- changes no other of these registers.
pub read_register-write_register :
    (r : Registers) (reg other v : ℕ)
    → IsMode (get_mode r)
    → reg < 16
    → other < 16
    → read_register (write_register r reg v) other
      ≡ (if other == reg then v else read_register r other)
read_register-write_register r reg other v m h ho = ground (
  arith,
  get_mode-write_register r reg v m h,
  cells-read_register (write_register r reg v) other,
  cells-read_register r other,
  cells-write_register r reg v (cell_of (get_mode r) other),
  cell_of-ne (get_mode r) other reg m,
)

pub read_cpsr-write_cpsr : (r : Registers) (w : ℕ) → read_cpsr (write_cpsr r w) ≡ w
unfolding read_cpsr write_cpsr
read_cpsr-write_cpsr r w = refl

pub get_mode-write_cpsr : (r : Registers) (w : ℕ) → get_mode (write_cpsr r w) ≡ get_bits w 4 0
unfolding get_mode
get_mode-write_cpsr r w = ap (λ t. get_bits t 4 0) (read_cpsr-write_cpsr r w)

read_register-write_cpsr_cell :
    (r : Registers) (reg other v w : ℕ)
    → IsMode (get_mode r)
    → IsMode (get_bits w 4 0)
    → other < 16
    → let c = cell_of (get_bits w 4 0) other in
      read_register (write_cpsr (write_register r reg v) w) other
      ≡ (if c == cell_of (get_mode r) reg then v else read_register (write_cpsr r w) other)
read_register-write_cpsr_cell r reg other v w m n ho =
    let c = cell_of (get_bits w 4 0) other in
    ground (
      arith,
      get_mode-write_cpsr (write_register r reg v) w,
      get_mode-write_cpsr r w,
      cells-read_register (write_cpsr (write_register r reg v) w) other,
      cells-read_register (write_cpsr r w) other,
      cells-write_cpsr (write_register r reg v) w c,
      cells-write_cpsr r w c,
      cells-write_register r reg v c,
      cell_of-ne (get_bits w 4 0) other cpsr n,
      cell_of-cpsr (get_bits w 4 0),
    )

-- A register of 0 to 15 is written in one of the seven modes and read in another, after a write of
-- the status register has changed the mode. Where the two modes share the register, the value that
-- was written is read.
read_register-write_cpsr-Shared :
    (r : Registers) (reg v w : ℕ)
    → IsMode (get_mode r)
    → IsMode (get_bits w 4 0)
    → reg < 16
    → Shared (get_mode r) (get_bits w 4 0) reg
    → read_register (write_cpsr (write_register r reg v) w) reg ≡ v
read_register-write_cpsr-Shared r reg v w m n h s = ground (
  arith,
  read_register-write_cpsr_cell r reg reg v w m n h,
  (cell_of-eq_iff (get_mode r) (get_bits w 4 0) reg reg m n h h).1 (refl, s),
)

-- A register of 0 to 15 is written in one of the seven modes, and a register of 0 to 15 is read
-- after a write of the status register has changed the mode. Unless it is the same register and the
-- two modes share it, the read gives what it would give without the write.
pub read_register-write_cpsr_banked :
    (r : Registers) (reg other v w : ℕ)
    → IsMode (get_mode r)
    → IsMode (get_bits w 4 0)
    → reg < 16
    → other < 16
    → ¬ ((reg ≡ other) × Shared (get_mode r) (get_bits w 4 0) reg)
    → read_register (write_cpsr (write_register r reg v) w) other
      ≡ read_register (write_cpsr r w) other
read_register-write_cpsr_banked r reg other v w m n h ho apart = ground (
  arith,
  read_register-write_cpsr_cell r reg other v w m n ho,
  cell_of-eq_iff (get_mode r) (get_bits w 4 0) reg other m n h ho,
)

cell_of-spsr : (m : ℕ) → IsMode m → cell_of m spsr ≢ cpsr
cell_of-spsr m h = unfold cell_of in ground arith

pub read_cpsr-write_spsr :
    (r : Registers) (v : ℕ) → IsMode (get_mode r) → read_cpsr (write_spsr r v) ≡ read_cpsr r
unfolding read_cpsr write_spsr current_mode_has_spsr get_register
read_cpsr-write_spsr r v m = ground (arith, cell_of-spsr (get_mode r) m)

pub get_mode-write_spsr :
    (r : Registers) (v : ℕ) → IsMode (get_mode r) → get_mode (write_spsr r v) ≡ get_mode r
unfolding get_mode
get_mode-write_spsr r v m = ap (λ w. get_bits w 4 0) (read_cpsr-write_spsr r v m)

pub cells-read_spsr :
    (r : Registers)
    → read_spsr r ≡ (
        if not (get_mode r == usr || get_mode r == sys)
        then r.cells (cell_of (get_mode r) spsr)
        else minus_one)
unfolding read_spsr current_mode_has_spsr get_register
cells-read_spsr r = refl

cells-write_spsr :
    (r : Registers) (v j : ℕ)
    → (write_spsr r v).cells j ≡ (
        if not (get_mode r == usr || get_mode r == sys)
        then if j == cell_of (get_mode r) spsr then v else r.cells j
        else r.cells j)
unfolding write_spsr current_mode_has_spsr get_register
cells-write_spsr r v j = ground arith

-- The saved status register reads back in the modes that have one; in user and system mode the
-- write is dropped and the read gives the word of all ones.
pub read_spsr-write_spsr :
    (r : Registers) (v : ℕ)
    → IsMode (get_mode r)
    → read_spsr (write_spsr r v) ≡ (if get_mode r == usr || get_mode r == sys then minus_one else v)
read_spsr-write_spsr r v m = ground (
  arith,
  get_mode-write_spsr r v m,
  cells-read_spsr (write_spsr r v),
  cells-write_spsr r v (cell_of (get_mode r) spsr),
)

-- The saved status register is none of the registers 0 to 15.
pub cell_of-spsr_ne :
    (m i : ℕ) → IsMode m → i < 16 → (m ≢ usr) → (m ≢ sys) → cell_of m i ≢ cell_of m spsr
cell_of-spsr_ne m i h hi u s = unfold cell_of in ground arith

pub read_register-write_spsr :
    (r : Registers) (v reg : ℕ)
    → IsMode (get_mode r)
    → reg < 16
    → read_register (write_spsr r v) reg ≡ read_register r reg
read_register-write_spsr r v reg m h = ground (
  arith,
  get_mode-write_spsr r v m,
  cells-read_register (write_spsr r v) reg,
  cells-read_register r reg,
  cells-write_spsr r v (cell_of (get_mode r) reg),
  cell_of-spsr_ne (get_mode r) reg m h,
)

-- Every cell holds a 32-bit word.
abbrev pub IsWordFile : Registers → Type 0
IsWordFile r = (i : ℕ) → r.cells i < 2 ^ 32

pub write_register-IsWordFile :
    (r : Registers) (reg v : ℕ) → IsWordFile r → v < 2 ^ 32 → IsWordFile (write_register r reg v)
write_register-IsWordFile r reg v h hv j = ground (arith, h j, cells-write_register r reg v j)

pub write_cpsr-IsWordFile :
    (r : Registers) (v : ℕ) → IsWordFile r → v < 2 ^ 32 → IsWordFile (write_cpsr r v)
write_cpsr-IsWordFile r v h hv j = ground (arith, h j, cells-write_cpsr r v j)

pub write_spsr-IsWordFile :
    (r : Registers) (v : ℕ) → IsWordFile r → v < 2 ^ 32 → IsWordFile (write_spsr r v)
write_spsr-IsWordFile r v h hv j = ground (arith, h j, cells-write_spsr r v j)

pub write_usr_register-IsWordFile :
    (r : Registers) (reg v : ℕ)
    → IsWordFile r
    → v < 2 ^ 32
    → IsWordFile (write_usr_register r reg v)
unfolding write_usr_register
write_usr_register-IsWordFile r reg v h hv j = ground (arith, h j)

pub read_register-lt : (r : Registers) (reg : ℕ) → IsWordFile r → read_register r reg < 2 ^ 32
unfolding read_register
read_register-lt r reg h = h _

pub read_spsr-lt : (r : Registers) → IsWordFile r → read_spsr r < 2 ^ 32
read_spsr-lt r h = ground (arith, cells-read_spsr r, h (cell_of (get_mode r) spsr))

pub read_cpsr-lt : (r : Registers) → IsWordFile r → read_cpsr r < 2 ^ 32
unfolding read_cpsr
read_cpsr-lt r h = h _
