-- ===== src/Core/Print/Banks.antt =====
-- What the printed state does not show.
use l3_info_simulateur_arm.Base.{
  ℕ, zero, suc, ◌+◌, ◌≤◌, ◌<◌, ◌≡◌, ◌≢◌, refl, arith, if◌then◌else◌, ◌==◌, update, Option, none,
  some, [], ◌++◌,
}
use l3_info_simulateur_arm.Constants.{usr}
use l3_info_simulateur_arm.Text.{Bytes}
use l3_info_simulateur_arm.Names.{arm_get_mode_name}
use l3_info_simulateur_arm.Registers.{
  get_mode, cell_of, read_register, read_usr_register, get_register, read_cpsr,
}
use l3_info_simulateur_arm.Core.{ArmCore, arm_read_register, arm_read_usr_register, arm_read_cpsr}
use l3_info_simulateur_arm.Core.Print.{register_loop, print_mode, mode_loop, arm_print_state}

-- The processor with another value in a cell of the register file.
abbrev pub with_cell : ArmCore → ℕ → ℕ → ArmCore
with_cell p i v = record p { reg = record p.reg { cells = update p.reg.cells i v } }

module _ (p : ArmCore) (i v : ℕ) (banked : 17 ≤ i)
    (hidden : (reg : ℕ) → reg < 16 → cell_of (get_mode p.reg) reg ≢ i) where
  same_cpsr : read_cpsr (with_cell p i v).reg ≡ read_cpsr p.reg
  unfolding read_cpsr
  same_cpsr = ground (arith, banked)

  same_usr :
      (reg : ℕ)
      → reg < 16
      → arm_read_usr_register (with_cell p i v) reg ≡ arm_read_usr_register p reg
  unfolding arm_read_usr_register read_usr_register
  same_usr reg h = ground (arith, banked)

  same_register :
      (reg : ℕ) → reg < 16 → arm_read_register (with_cell p i v) reg ≡ arm_read_register p reg
  unfolding arm_read_register read_register get_register get_mode
  same_register reg h = rw same_cpsr (ground (arith, hidden reg h))

  same_register_loop :
      (mode left reg count : ℕ)
      → reg + left ≤ 16
      → register_loop mode left reg count (with_cell p i v) ≡ register_loop mode left reg count p
  unfolding register_loop
  same_register_loop mode zero reg count h = refl
  same_register_loop mode (suc left) reg count h =
      rw
        (
          same_usr reg (omega (arith, h)),
          same_register reg (omega (arith, h)),
          same_register_loop mode left (reg + 1) (if mode == usr then count else count + 1)
              (omega (arith, h)),
        )
        refl

  same_mode :
      (mode : ℕ) (name : Bytes) → print_mode mode name (with_cell p i v) ≡ print_mode mode name p
  unfolding print_mode arm_read_cpsr
  same_mode mode name = rw (same_register_loop mode 16 0 0 (omega arith), same_cpsr) refl

  same_mode_loop : (left mode : ℕ) → mode_loop left mode (with_cell p i v) ≡ mode_loop left mode p
  unfolding mode_loop
  same_mode_loop zero mode = refl
  same_mode_loop (suc left) mode =
      rw (same_mode_loop left (mode + 1)) (of_name (arm_get_mode_name mode))
    where
      of_name :
          (found : Option Bytes)
          → elim found [ none ↦ [] | some name ↦ print_mode mode name (with_cell p i v) ]
              ++ mode_loop left (mode + 1) p
            ≡ elim found [ none ↦ [] | some name ↦ print_mode mode name p ]
              ++ mode_loop left (mode + 1) p
      of_name none = refl
      of_name (some name) = rw (same_mode mode name) refl

  -- A cell of the register file that is not one of the first 17, and not one of the registers 0 to
  -- 15 of the mode in force, can hold any value without a change of the printed state. So the
  -- banked registers of the other modes are never printed, not even under the names of these modes.
  pub arm_print_state_banks : arm_print_state (with_cell p i v) ≡ arm_print_state p
  unfolding arm_print_state
  arm_print_state_banks = same_mode_loop 32 0
