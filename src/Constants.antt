-- ===== src/Constants.antt =====
-- arm_constants.h and the register numbers of trace.h and registers.h.
use l3_info_simulateur_arm.Base.{ℕ}

-- Processor modes.
abbrev pub usr : ℕ
usr = 0x10

abbrev pub fiq : ℕ
fiq = 0x11

abbrev pub irq : ℕ
irq = 0x12

abbrev pub svc : ℕ
svc = 0x13

abbrev pub abt : ℕ
abt = 0x17

abbrev pub und : ℕ
und = 0x1b

abbrev pub sys : ℕ
sys = 0x1f

-- Exceptions.
abbrev pub reset : ℕ
reset = 1

abbrev pub undefined_instruction : ℕ
undefined_instruction = 2

abbrev pub software_interrupt : ℕ
software_interrupt = 3

abbrev pub prefetch_abort : ℕ
prefetch_abort = 4

abbrev pub data_abort : ℕ
data_abort = 5

abbrev pub interrupt : ℕ
interrupt = 6

abbrev pub fast_interrupt : ℕ
fast_interrupt = 7

-- The flag bits of the status register: N, Z, C and V.
abbrev pub flag_n : ℕ
flag_n = 31

abbrev pub flag_z : ℕ
flag_z = 30

abbrev pub flag_c : ℕ
flag_c = 29

abbrev pub flag_v : ℕ
flag_v = 28

-- `CPSR` and `SPSR` of trace.h.
abbrev pub cpsr : ℕ
cpsr = 16

abbrev pub spsr : ℕ
spsr = 17
