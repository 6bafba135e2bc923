-- ===== src/Registers.antt =====
-- registers.c: the 38 cells of the register file and the bank that the mode selects.
-- The array `data` is a function of the index. C leaves an index outside the 38 cells undefined;
-- here it names a cell of its own, and Registers/Banks shows when such an index does not arise.
pub mod Banks
pub mod Access
pub mod Entry
use l3_info_simulateur_arm.Base.{
  ℕ, ◌+◌, Bool, true, false, not, ◌&&◌, ◌||◌, ltb, ◌==◌, if◌then◌else◌, update,
}
use l3_info_simulateur_arm.Constants.{usr, fiq, irq, svc, abt, und, sys, cpsr, spsr}
use l3_info_simulateur_arm.Util.{get_bits, minus_one}

pub record Registers : Type 0 where
  pub cells : ℕ → ℕ

abbrev pub r13_svc : ℕ
r13_svc = 23

abbrev pub r13_abt : ℕ
r13_abt = 24

abbrev pub r13_und : ℕ
r13_und = 25

abbrev pub r13_irq : ℕ
r13_irq = 26

abbrev pub r13_fiq : ℕ
r13_fiq = 27

abbrev pub r14_svc : ℕ
r14_svc = 28

abbrev pub r14_abt : ℕ
r14_abt = 29

abbrev pub r14_und : ℕ
r14_und = 30

abbrev pub r14_irq : ℕ
r14_irq = 31

abbrev pub r14_fiq : ℕ
r14_fiq = 32

abbrev pub spsr_svc : ℕ
spsr_svc = 33

abbrev pub spsr_abt : ℕ
spsr_abt = 34

abbrev pub spsr_und : ℕ
spsr_und = 35

abbrev pub spsr_irq : ℕ
spsr_irq = 36

abbrev pub spsr_fiq : ℕ
spsr_fiq = 37

-- One case of the `switch` of `getRegister`: the cells for 13, 14 and any other number.
abbrev pub bank_of : ℕ → ℕ → ℕ → ℕ → ℕ
bank_of reg r13 r14 saved = if reg == 13 then r13 else if reg == 14 then r14 else saved

-- `getRegister` for a given mode. In a mode that is none of the seven it is 255, `(uint8_t) -1`,
-- which is behind the 38 cells of the program; here it is a cell of its own.
unfoldable pub cell_of : ℕ → ℕ → ℕ
cell_of mode reg =
    if mode == usr || mode == sys
    then reg
    else if ltb reg 8 || reg == 15 || reg == 16
    then reg
    else if not (mode == fiq) && ltb reg 13
    then reg
    else if ltb reg 13
    then reg + 10
    else if mode == svc
    then bank_of reg r13_svc r14_svc spsr_svc
    else if mode == abt
    then bank_of reg r13_abt r14_abt spsr_abt
    else if mode == und
    then bank_of reg r13_und r14_und spsr_und
    else if mode == irq
    then bank_of reg r13_irq r14_irq spsr_irq
    else if mode == fiq
    then bank_of reg r13_fiq r14_fiq spsr_fiq
    else 255

unfoldable pub read_cpsr : Registers → ℕ
read_cpsr r = r.cells cpsr

unfoldable pub get_mode : Registers → ℕ
get_mode r = get_bits (read_cpsr r) 4 0

unfoldable pub get_register : Registers → ℕ → ℕ
get_register r reg = cell_of (get_mode r) reg

-- `calloc` clears the cells.
unfoldable pub registers_create : Registers
registers_create = record { cells = λ i. 0 }

unfoldable pub current_mode_has_spsr : Registers → Bool
current_mode_has_spsr r = not (get_mode r == usr || get_mode r == sys)

unfoldable pub in_a_privileged_mode : Registers → Bool
in_a_privileged_mode r = not (get_mode r == usr)

unfoldable pub read_register : Registers → ℕ → ℕ
read_register r reg = r.cells (get_register r reg)

unfoldable pub read_usr_register : Registers → ℕ → ℕ
read_usr_register r reg = r.cells reg

unfoldable pub read_spsr : Registers → ℕ
unfolding current_mode_has_spsr
read_spsr r = if current_mode_has_spsr r then r.cells (get_register r spsr) else minus_one

-- `data[i] &= ~0xFFFFFFFF; data[i] |= value` clears the cell and stores the value.
abbrev pub store : Registers → ℕ → ℕ → Registers
store r i value = record r { cells = update r.cells i value }

unfoldable pub write_register : Registers → ℕ → ℕ → Registers
write_register r reg value = store r (get_register r reg) value

unfoldable pub write_usr_register : Registers → ℕ → ℕ → Registers
write_usr_register r reg value = if get_mode r == usr then store r reg value else r

unfoldable pub write_cpsr : Registers → ℕ → Registers
write_cpsr r value = store r cpsr value

unfoldable pub write_spsr : Registers → ℕ → Registers
unfolding current_mode_has_spsr
write_spsr r value = if current_mode_has_spsr r then store r (get_register r spsr) value else r
