-- ===== src/Examples/Modes.antt =====
-- The registers of supervisor mode, and a change to fast interrupt mode.
use l3_info_simulateur_arm.Base.{ℕ, ◌<◌, ◌≢◌, ◌≡◌, refl, arith, inl, inr}
use l3_info_simulateur_arm.Util.{get_bits}
use l3_info_simulateur_arm.Registers.{
  r13_irq, get_mode, read_cpsr, cell_of, read_register, write_register, write_cpsr,
}
use l3_info_simulateur_arm.Registers.Banks.{IsMode, Shared}
use l3_info_simulateur_arm.Registers.Access.{
  read_register-write_register, read_register-write_cpsr_banked,
}
use l3_info_simulateur_arm.Core.Print.{arm_print_state}
use l3_info_simulateur_arm.Core.Print.Banks.{with_cell, arm_print_state_banks}
use l3_info_simulateur_arm.Examples.{machine, register_file, register_file-IsMode}

read_register-write_register_example : read_register (write_register register_file 13 99) 13 ≡ 99
read_register-write_register_example =
    read_register-write_register register_file 13 13 99 register_file-IsMode (omega arith)
      (omega arith)

fast-IsMode : IsMode (get_bits 0x11 4 0)
unfolding get_bits
fast-IsMode = inr (inl refl)

banked_8 : ¬ ((◌≡◌ {A = ℕ} 8 8) × Shared (get_mode register_file) (get_bits 0x11 4 0) 8)
unfolding get_mode read_cpsr get_bits
banked_8 s = ground arith

read_register-write_cpsr_banked_example :
    read_register (write_cpsr (write_register register_file 8 99) 0x11) 8
    ≡ read_register (write_cpsr register_file 0x11) 8
read_register-write_cpsr_banked_example =
    read_register-write_cpsr_banked register_file 8 8 99 0x11 register_file-IsMode fast-IsMode
      (omega arith) (omega arith) banked_8

-- The stack pointer of interrupt mode, from supervisor mode.
hidden : (reg : ℕ) → reg < 16 → cell_of (get_mode register_file) reg ≢ r13_irq
unfolding get_mode read_cpsr get_bits cell_of
hidden reg h = ground arith

arm_print_state_banks_example :
    arm_print_state (with_cell machine r13_irq 0x1000) ≡ arm_print_state machine
arm_print_state_banks_example = arm_print_state_banks machine r13_irq 0x1000 (omega arith) hidden
