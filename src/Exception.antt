-- ===== src/Exception.antt =====
-- arm_exception.c: the entry into an exception, and `arm_create` of arm_core.c, which resets.
pub mod Vectors
pub mod Keeps
pub mod Effects
use l3_info_simulateur_arm.Base.{ℕ, ◌==◌, if◌then◌else◌}
use l3_info_simulateur_arm.Constants.{svc, abt, und, irq, fiq, reset, undefined_instruction}
use l3_info_simulateur_arm.Constants.{software_interrupt, prefetch_abort, data_abort, interrupt}
use l3_info_simulateur_arm.Constants.{fast_interrupt}
use l3_info_simulateur_arm.Util.{set_bit, clr_bit, set_bits, add32}
use l3_info_simulateur_arm.Registers.{registers_create}
use l3_info_simulateur_arm.Memory.{Memory}
use l3_info_simulateur_arm.Core.{ArmCore, arm_read_cpsr, arm_write_cpsr, arm_write_spsr}
use l3_info_simulateur_arm.Core.{arm_read_register, arm_write_register, arm_write_usr_register}

-- The variables that the `switch` sets.
pub record Entry : Type 0 where
  pub cpsr_value : ℕ
  pub pc_offset : ℕ
  pub pc_value : ℕ

-- The `switch`, on the status word with bits 5 and 9 cleared and bit 7 set.
unfoldable pub entry : ℕ → ℕ → Entry
entry exception value =
    if exception == reset
    then record {
      cpsr_value = set_bit (set_bit (set_bits value 4 0 svc) 6) 8;
      pc_offset = 0;
      pc_value = 0;
    }
    else if exception == undefined_instruction
    then record { cpsr_value = set_bits value 4 0 und; pc_offset = 0; pc_value = 4 }
    else if exception == software_interrupt
    then record { cpsr_value = set_bits value 4 0 svc; pc_offset = 0; pc_value = 8 }
    else if exception == prefetch_abort
    then record { cpsr_value = set_bit (set_bits value 4 0 abt) 8; pc_offset = 4; pc_value = 12 }
    else if exception == data_abort
    then record { cpsr_value = set_bit (set_bits value 4 0 abt) 8; pc_offset = 8; pc_value = 16 }
    else if exception == interrupt
    then record { cpsr_value = set_bit (set_bits value 4 0 irq) 8; pc_offset = 4; pc_value = 24 }
    else if exception == fast_interrupt
    then record {
      cpsr_value = set_bit (set_bit (set_bits value 4 0 fiq) 6) 8;
      pc_offset = 4;
      pc_value = 28;
    }
    else record { cpsr_value = value; pc_offset = 0; pc_value = 0 }

-- The status word that every exception starts from.
unfoldable pub masked : ℕ → ℕ
masked cpsr_value = clr_bit (set_bit (clr_bit cpsr_value 5) 7) 9

-- The saved status and the link register, which a reset does not write.
unfoldable pub save_return : ArmCore → ℕ → ℕ → ℕ → ArmCore
save_return p exception spsr pc_offset =
    if exception == reset
    then p
    else let saved = arm_write_spsr p spsr in
      arm_write_register saved 14 (add32 (arm_read_register saved 15) pc_offset)

-- `exception` is an `unsigned char`.
unfoldable pub arm_exception : ArmCore → ℕ → ArmCore
arm_exception p exception =
    let spsr = arm_read_cpsr p in
    let e = entry exception (masked spsr) in
    let moded = arm_write_cpsr p e.cpsr_value in
    arm_write_usr_register (save_return moded exception spsr e.pc_offset) 15 e.pc_value

unfoldable pub arm_create : Memory → ArmCore
arm_create mem =
    let p : ArmCore = record { cycle_count = 0; reg = registers_create; mem = mem } in
    record (arm_exception p reset) { cycle_count = 0 }
