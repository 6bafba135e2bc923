-- ===== src/Core.antt =====
-- arm_core.c: the processor, which is a register file, a memory and a cycle count.
-- The calls of trace.c are left out: they write to the trace file, and no operation of the
-- processor reads what they keep.
pub mod Keeps
pub mod Fetch
pub mod Print
use l3_info_simulateur_arm.Base.{
  ℕ, ◌+◌, ◌-◌, ◌*◌, ◌/◌, ◌%◌, ◌^◌, bit_and, Bool, ◌==◌, if◌then◌else◌,
}
use l3_info_simulateur_arm.Constants.{cpsr}
use l3_info_simulateur_arm.Util.{u32, add32, sub32}
use l3_info_simulateur_arm.Registers
use l3_info_simulateur_arm.Registers.{Registers}
use l3_info_simulateur_arm.Memory.{
  Memory, Status, memory_read_byte, memory_read_half, memory_read_word, memory_write_byte,
  memory_write_half, memory_write_word,
}

pub record ArmCore : Type 0 where
  pub cycle_count : ℕ
  pub reg : Registers
  pub mem : Memory

unfoldable pub arm_current_mode_has_spsr : ArmCore → Bool
arm_current_mode_has_spsr p = Registers.current_mode_has_spsr p.reg

unfoldable pub arm_in_a_privileged_mode : ArmCore → Bool
arm_in_a_privileged_mode p = Registers.in_a_privileged_mode p.reg

unfoldable pub arm_get_cycle_count : ArmCore → ℕ
arm_get_cycle_count p = p.cycle_count

-- `value += 4; value &= 0xFFFFFFFD`: the program counter reads 4 ahead, with bit 1 cleared.
unfoldable pub pc_ahead : ℕ → ℕ
pc_ahead value = bit_and (add32 value 4) 0xFFFFFFFD

unfoldable pub arm_read_register : ArmCore → ℕ → ℕ
arm_read_register p reg =
    let value = Registers.read_register p.reg reg in if reg == 15 then pc_ahead value else value

unfoldable pub arm_read_usr_register : ArmCore → ℕ → ℕ
arm_read_usr_register p reg =
    let value = Registers.read_usr_register p.reg reg in if reg == 15 then pc_ahead value else value

unfoldable pub arm_read_cpsr : ArmCore → ℕ
arm_read_cpsr p = Registers.read_cpsr p.reg

unfoldable pub arm_read_spsr : ArmCore → ℕ
arm_read_spsr p = Registers.read_spsr p.reg

unfoldable pub arm_write_register : ArmCore → ℕ → ℕ → ArmCore
arm_write_register p reg value = record p { reg = Registers.write_register p.reg reg value }

unfoldable pub arm_write_usr_register : ArmCore → ℕ → ℕ → ArmCore
arm_write_usr_register p reg value = record p { reg = Registers.write_usr_register p.reg reg value }

unfoldable pub arm_write_cpsr : ArmCore → ℕ → ArmCore
arm_write_cpsr p value = record p { reg = Registers.write_cpsr p.reg value }

unfoldable pub arm_write_spsr : ArmCore → ℕ → ArmCore
arm_write_spsr p value = record p { reg = Registers.write_spsr p.reg value }

-- A read returns its status beside what `value` points to, which a failed read leaves as it was.
unfoldable pub arm_read_byte : ArmCore → ℕ → ℕ → Status × ℕ
arm_read_byte p address value = memory_read_byte p.mem address value

unfoldable pub arm_read_half : ArmCore → ℕ → ℕ → Status × ℕ
arm_read_half p address value = memory_read_half p.mem address value

unfoldable pub arm_read_word : ArmCore → ℕ → ℕ → Status × ℕ
arm_read_word p address value = memory_read_word p.mem address value

abbrev with_memory : ArmCore → Status × Memory → Status × ArmCore
with_memory p (result, mem) = (result, record p { mem = mem })

unfoldable pub arm_write_byte : ArmCore → ℕ → ℕ → Status × ArmCore
arm_write_byte p address value = with_memory p (memory_write_byte p.mem address value)

unfoldable pub arm_write_half : ArmCore → ℕ → ℕ → Status × ArmCore
arm_write_half p address value = with_memory p (memory_write_half p.mem address value)

unfoldable pub arm_write_word : ArmCore → ℕ → ℕ → Status × ArmCore
arm_write_word p address value = with_memory p (memory_write_word p.mem address value)

-- The status, what `value` points to, and the processor after the fetch.
unfoldable pub arm_fetch : ArmCore → ℕ → Status × ℕ × ArmCore
arm_fetch p value =
    let counted = record p { cycle_count = u32 (p.cycle_count + 1) } in
    let address = sub32 (arm_read_register counted 15) 4 in
    let (result, word) = memory_read_word counted.mem address value in
    (result, word, arm_write_register counted 15 (add32 address 4))
