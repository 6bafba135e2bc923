-- ===== src/Core/Fetch.antt =====
-- The fetch of an instruction, and the program counter as an instruction reads it.
use l3_info_simulateur_arm.Base.{ℕ, ◌+◌, ◌-◌, ◌*◌, ◌/◌, ◌%◌, ◌^◌, ◌<◌, ◌≡◌, refl, arith}
use l3_info_simulateur_arm.Util.{u32, add32, sub32, clr_bit, get_bit}
use l3_info_simulateur_arm.Util.Laws.{clr_bit_lem}
use l3_info_simulateur_arm.Registers.{read_register, write_register, get_mode}
use l3_info_simulateur_arm.Registers.Banks.{IsMode}
use l3_info_simulateur_arm.Registers.Access.{
  read_register-write_register, read_register-lt, IsWordFile,
}
use l3_info_simulateur_arm.Memory.{memory_read_word}
use l3_info_simulateur_arm.Core.{
  ArmCore, pc_ahead, arm_read_register, arm_write_register, arm_fetch,
}

pub pc_ahead_lem : (v : ℕ) → pc_ahead v ≡ add32 v 4 - add32 v 4 / 2 % 2 * 2
unfolding pc_ahead get_bit clr_bit
pc_ahead_lem v = clr_bit_lem (add32 v 4) 1 (omega arith) (omega arith)

pub pc_ahead_back : (v : ℕ) → v % 4 ≡ 0 → v < 2 ^ 32 → sub32 (pc_ahead v) 4 ≡ v
pc_ahead_back v aligned h = omega (arith, pc_ahead_lem v)

-- At an aligned program counter, a fetch reads the word there, moves the program counter on by 4,
-- counts a cycle and changes none of the other registers 0 to 14. The instruction then reads a
-- program counter 8 past its own address. The mode is one of the seven.
pub arm_fetch_lem :
    (p : ArmCore) (value reg : ℕ)
    → IsMode (get_mode p.reg)
    → IsWordFile p.reg
    → read_register p.reg 15 % 4 ≡ 0
    → reg < 15
    → let pc = read_register p.reg 15 in
      let q = (arm_fetch p value).2 in
      (((arm_fetch p value).0, (arm_fetch p value).1) ≡ memory_read_word p.mem pc value)
      × (arm_read_register q 15 ≡ add32 pc 8)
      × (read_register q.reg 15 ≡ add32 pc 4)
      × (read_register q.reg reg ≡ read_register p.reg reg)
      × (q.cycle_count ≡ u32 (p.cycle_count + 1))
unfolding arm_fetch arm_read_register arm_write_register
arm_fetch_lem p value reg mode word aligned h =
    let pc = read_register p.reg 15 in
    let here : sub32 (pc_ahead pc) 4 ≡ pc =
      pc_ahead_back pc aligned (read_register-lt p.reg 15 word) in
    let written : read_register (write_register p.reg 15 (add32 pc 4)) 15 ≡ add32 pc 4 =
      ground (arith, read_register-write_register p.reg 15 15 (add32 pc 4) mode) in
    let other : read_register (write_register p.reg 15 (add32 pc 4)) reg ≡ read_register p.reg reg =
      ground (arith, read_register-write_register p.reg 15 reg (add32 pc 4) mode) in
    rw here (refl, rw written (omega (arith, pc_ahead_lem (add32 pc 4))), written, other, refl)
