-- ===== src/Registers/Entry.antt =====
-- The register file after the writes of an exception entry.
use l3_info_simulateur_arm.Base.{ℕ, ◌<◌, ◌≡◌, ◌≢◌, ◌∙◌, arith}
use l3_info_simulateur_arm.Constants.{usr, sys, cpsr, spsr}
use l3_info_simulateur_arm.Util.{get_bits}
use l3_info_simulateur_arm.Registers.{
  Registers, read_register, write_register, read_cpsr, write_cpsr,
}
use l3_info_simulateur_arm.Registers.{read_spsr, write_spsr, write_usr_register, get_mode, cell_of}
use l3_info_simulateur_arm.Registers.Banks.{IsMode, cell_of-ne}
use l3_info_simulateur_arm.Registers.Access.{
  read_cpsr-write_register, get_mode-write_register, read_register-write_register,
  read_cpsr-write_cpsr, get_mode-write_cpsr, read_cpsr-write_spsr, get_mode-write_spsr,
  read_spsr-write_spsr, read_register-write_spsr, cells-read_register, cells-write_cpsr,
  cells-read_spsr, cells-write_register, cell_of-spsr_ne, cell_of-cpsr,
}

-- The program counter has one cell in every mode.
cell_of_pc : (m : ℕ) → IsMode m → cell_of m 15 ≡ 15
cell_of_pc m h = unfold cell_of in ground arith

pub read_pc-write_cpsr :
    (r : Registers) (w : ℕ)
    → IsMode (get_mode r)
    → IsMode (get_bits w 4 0)
    → read_register (write_cpsr r w) 15 ≡ read_register r 15
read_pc-write_cpsr r w m n = ground (
  arith,
  cells-read_register (write_cpsr r w) 15,
  cells-read_register r 15,
  get_mode-write_cpsr r w,
  cell_of_pc (get_mode r) m,
  cell_of_pc (get_bits w 4 0) n,
  cells-write_cpsr r w 15,
)

read_spsr-write_register :
    (r : Registers) (reg v : ℕ)
    → IsMode (get_mode r)
    → reg < 16
    → read_spsr (write_register r reg v) ≡ read_spsr r
read_spsr-write_register r reg v m h = ground (
  arith,
  get_mode-write_register r reg v m h,
  cells-read_spsr (write_register r reg v),
  cells-read_spsr r,
  cells-write_register r reg v (cell_of (get_mode r) spsr),
  cell_of-spsr_ne (get_mode r) reg m h,
)

-- Outside user mode a write to a user register is dropped.
pub write_usr_register_dropped :
    (r : Registers) (reg v : ℕ) → get_mode r ≢ usr → write_usr_register r reg v ≡ r
unfolding write_usr_register
write_usr_register_dropped r reg v h = ground arith

module _ (r : Registers) (c s lr v : ℕ) (before : IsMode (get_mode r))
    (after : IsMode (get_bits c 4 0)) (no_usr : get_bits c 4 0 ≢ usr)
    (no_sys : get_bits c 4 0 ≢ sys) where
  abbrev saved : Registers
  saved = write_spsr (write_cpsr r c) s

  abbrev linked : Registers
  linked = write_register saved 14 lr

  mode_cpsr : get_mode (write_cpsr r c) ≡ get_bits c 4 0
  mode_cpsr = get_mode-write_cpsr r c

  mode_saved : get_mode saved ≡ get_bits c 4 0
  mode_saved = get_mode-write_spsr (write_cpsr r c) s (ground (arith, mode_cpsr)) ∙ mode_cpsr

  -- The mode, the two status words, the link register and the program counter.
  pub entered_registers :
      (get_mode linked ≡ get_bits c 4 0)
      × (read_cpsr linked ≡ c)
      × (read_spsr linked ≡ s)
      × (read_register linked 14 ≡ lr)
      × (read_register linked 15 ≡ read_register r 15)
  entered_registers =
      let m1 : IsMode (get_mode (write_cpsr r c)) = ground (arith, mode_cpsr) in
      let m2 : IsMode (get_mode saved) = ground (arith, mode_saved) in
      ground (
        arith,
        mode_cpsr,
        mode_saved,
        get_mode-write_register saved 14 lr m2,
        read_cpsr-write_register saved 14 lr m2,
        read_cpsr-write_spsr (write_cpsr r c) s m1,
        read_cpsr-write_cpsr r c,
        read_spsr-write_register saved 14 lr m2,
        read_spsr-write_spsr (write_cpsr r c) s m1,
        read_register-write_register saved 14 14 lr m2,
        read_register-write_register saved 14 15 lr m2,
        read_register-write_spsr (write_cpsr r c) s 15 m1,
        read_pc-write_cpsr r c before after,
      )

-- A status word with the mode that is in force leaves the registers 0 to 15 as they are read.
pub read_register-write_cpsr_same :
    (r : Registers) (w reg : ℕ)
    → IsMode (get_mode r)
    → get_bits w 4 0 ≡ get_mode r
    → reg < 16
    → read_register (write_cpsr r w) reg ≡ read_register r reg
read_register-write_cpsr_same r w reg m same h = ground (
  arith,
  get_mode-write_cpsr r w,
  cells-read_register (write_cpsr r w) reg,
  cells-read_register r reg,
  cells-write_cpsr r w (cell_of (get_mode r) reg),
  cell_of-ne (get_mode r) reg cpsr m,
  cell_of-cpsr (get_mode r),
)
