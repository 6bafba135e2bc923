-- ===== src/Exception/Keeps.antt =====
-- What the entry into an exception keeps.
use l3_info_simulateur_arm.Base.{ℕ, ◌^◌, ◌<◌, arith, ◌==◌}
use l3_info_simulateur_arm.Util.{set_bit, clr_bit, set_bits, add32}
use l3_info_simulateur_arm.Util.Bounds.{set_bit-lt, clr_bit-lt, set_bits-lt}
use l3_info_simulateur_arm.Constants.{svc, abt, und, irq, fiq, reset}
use l3_info_simulateur_arm.Core.{
  ArmCore, arm_read_register, arm_read_cpsr, arm_write_cpsr, arm_write_spsr,
}
use l3_info_simulateur_arm.Core.Keeps.{IsWordCore, Keeps, Keeps-refl, Keeps-trans, Keeps-if}
use l3_info_simulateur_arm.Core.Keeps.{
  arm_read_cpsr-lt, arm_write_register-Keeps, arm_write_cpsr-Keeps,
}
use l3_info_simulateur_arm.Core.Keeps.{arm_write_spsr-Keeps, arm_write_usr_register-Keeps}
use l3_info_simulateur_arm.Exception.{entry, masked, save_return, arm_exception}

masked-lt : (v : ℕ) → masked v < 2 ^ 32
unfolding masked
masked-lt v = clr_bit-lt (set_bit (clr_bit v 5) 7) 9

entry-lt :
    (exception v : ℕ)
    → v < 2 ^ 32
    → ((entry exception v).cpsr_value < 2 ^ 32) × ((entry exception v).pc_value < 2 ^ 32)
unfolding entry
entry-lt exception v h = ground (
  arith,
  set_bits-lt v 4 0 svc,
  set_bits-lt v 4 0 abt,
  set_bits-lt v 4 0 und,
  set_bits-lt v 4 0 irq,
  set_bits-lt v 4 0 fiq,
  set_bit-lt (set_bits v 4 0 svc) 6,
  set_bit-lt (set_bit (set_bits v 4 0 svc) 6) 8,
  set_bit-lt (set_bits v 4 0 abt) 8,
  set_bit-lt (set_bits v 4 0 irq) 8,
  set_bit-lt (set_bits v 4 0 fiq) 6,
  set_bit-lt (set_bit (set_bits v 4 0 fiq) 6) 8,
)

save_return-Keeps :
    (p : ArmCore) (exception spsr pc_offset : ℕ)
    → IsWordCore p
    → spsr < 2 ^ 32
    → Keeps p (save_return p exception spsr pc_offset)
unfolding save_return
save_return-Keeps p exception spsr pc_offset h hs =
    let saved = arm_write_spsr-Keeps p spsr h hs in
    Keeps-if (exception == reset) (Keeps-refl h) (
      Keeps-trans saved (
        arm_write_register-Keeps (arm_write_spsr p spsr) 14
          (add32 (arm_read_register (arm_write_spsr p spsr) 15) pc_offset) saved.word
          (omega arith)))

-- An exception of any number leaves 32-bit words in every cell, and the memory and the cycle count
-- as they were.
pub arm_exception-Keeps :
    (p : ArmCore) (exception : ℕ) → IsWordCore p → Keeps p (arm_exception p exception)
unfolding arm_exception
arm_exception-Keeps p exception h =
    let spsr = arm_read_cpsr p in
    let bounds = entry-lt exception (masked spsr) (masked-lt spsr) in
    let e = entry exception (masked spsr) in
    let moded = arm_write_cpsr-Keeps p e.cpsr_value h bounds.0 in
    let saved =
      save_return-Keeps (arm_write_cpsr p e.cpsr_value) exception spsr e.pc_offset moded.word
        (arm_read_cpsr-lt p h) in
    Keeps-trans moded (
      Keeps-trans saved (
        arm_write_usr_register-Keeps
          (save_return (arm_write_cpsr p e.cpsr_value) exception spsr e.pc_offset) 15 e.pc_value
          saved.word bounds.1))
