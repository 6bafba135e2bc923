-- ===== src/Exception/Effects.antt =====
-- The processor after an exception: what is saved, and where it goes on.
use mathlib.Core.Bool.{false≢true}
use mathlib.Core.Path.{subst}
use l3_info_simulateur_arm.Base.{
  ==_ne, ==_iff, Bool-cases, inl, inr, ℕ, ◌≡◌, ◌≢◌, ◌∙◌, sym, arith, if◌then◌else◌, ◌==◌, ◌||◌,
}
use l3_info_simulateur_arm.Util.{get_bits, add32}
use l3_info_simulateur_arm.Constants.{
  usr, sys, reset, prefetch_abort, data_abort, interrupt, fast_interrupt,
}
use l3_info_simulateur_arm.Registers.{
  Registers, read_register, write_register, get_mode, write_spsr, write_cpsr, read_cpsr, read_spsr,
}
use l3_info_simulateur_arm.Registers.Banks.{IsMode}
use l3_info_simulateur_arm.Registers.Access.{
  IsWordFile, read_register-write_spsr, read_cpsr-lt, get_mode-write_cpsr,
}
use l3_info_simulateur_arm.Registers.Entry.{
  entered_registers, write_usr_register_dropped, read_pc-write_cpsr,
}
use l3_info_simulateur_arm.Core.{
  ArmCore, arm_read_register, arm_read_cpsr, arm_read_spsr, arm_write_cpsr, arm_write_spsr,
  arm_write_register, arm_write_usr_register, pc_ahead,
}
use l3_info_simulateur_arm.Exception.{entry, masked, save_return, arm_exception}
use l3_info_simulateur_arm.Exception.Vectors.{mode_of, IsException, IsEntered, entry-IsEntered}

-- How far the saved return address stands from the program counter.
abbrev pub return_offset : ℕ → ℕ
return_offset e =
    if e == data_abort
    then 8
    else if e == prefetch_abort || e == interrupt || e == fast_interrupt
    then 4
    else 0

entry_offset : (e v : ℕ) → IsException e → (entry e v).pc_offset ≡ return_offset e
unfolding entry
entry_offset e v h = ground arith

mode_of-IsMode :
    (e : ℕ) → IsException e → IsMode (mode_of e) × (mode_of e ≢ usr) × (mode_of e ≢ sys)
mode_of-IsMode e h = ground arith

module _ (p : ArmCore) (e : ℕ) (mode : IsMode (get_mode p.reg)) (word : IsWordFile p.reg)
    (known : IsException e) where
  abbrev status : ℕ
  status = read_cpsr p.reg

  abbrev new_status : ℕ
  new_status = (entry e (masked status)).cpsr_value

  abbrev moded : Registers
  moded = write_cpsr p.reg new_status

  entered : IsEntered e status new_status
  entered = entry-IsEntered e status known (read_cpsr-lt p.reg word)

  new-IsMode : IsMode (get_bits new_status 4 0)
  new-IsMode = subst IsMode (sym entered.0) (mode_of-IsMode e known).0

  not_usr : get_bits new_status 4 0 ≢ usr
  not_usr = λ h. (mode_of-IsMode e known).1 (sym entered.0 ∙ h)

  not_sys : get_bits new_status 4 0 ≢ sys
  not_sys = λ h. (mode_of-IsMode e known).2 (sym entered.0 ∙ h)

  -- The link register: the program counter as read in the new mode, plus the offset.
  abbrev return_address : ℕ
  return_address =
      add32 (pc_ahead (read_register (write_spsr moded status) 15))
        (entry e (masked status)).pc_offset

  linked_facts :
      let linked = write_register (write_spsr moded status) 14 return_address in
      (get_mode linked ≡ get_bits new_status 4 0)
      × (read_cpsr linked ≡ new_status)
      × (read_spsr linked ≡ status)
      × (read_register linked 14 ≡ return_address)
      × (read_register linked 15 ≡ read_register p.reg 15)
  linked_facts =
      entered_registers p.reg new_status status return_address 0 mode new-IsMode not_usr not_sys

  registers_after :
      e ≢ reset
      → (arm_exception p e).reg ≡ write_register (write_spsr moded status) 14 return_address
  unfolding arm_exception save_return arm_read_cpsr arm_write_cpsr arm_write_spsr arm_write_register
      arm_write_usr_register arm_read_register
  registers_after h = rw (==_ne e reset h) (
      write_usr_register_dropped (write_register (write_spsr moded status) 14 return_address) 15
        (entry e (masked status)).pc_value (λ k. not_usr (sym linked_facts.0 ∙ k)))

  moded_mode : get_mode moded ≡ get_bits new_status 4 0
  moded_mode = get_mode-write_cpsr p.reg new_status

  pc_seen : read_register (write_spsr moded status) 15 ≡ read_register p.reg 15
  pc_seen =
      read_register-write_spsr moded status 15 (subst IsMode (sym moded_mode) new-IsMode)
        (omega arith)
      ∙ read_pc-write_cpsr p.reg new_status mode new-IsMode

  registers_reset : e ≡ reset → (arm_exception p e).reg ≡ moded
  unfolding arm_exception save_return arm_read_cpsr arm_write_cpsr arm_write_spsr arm_write_register
      arm_write_usr_register arm_read_register
  registers_reset h = rw ((==_iff e reset).1 h) (
      write_usr_register_dropped moded 15 (entry e (masked status)).pc_value
        (λ k. not_usr (sym moded_mode ∙ k)))

-- Every exception but a reset is entered in its mode, with interrupts off, in ARM state and with
-- the bits from 10 up kept. The status word from before is saved, and the link register of the mode
-- holds the program counter as the code reads it, plus 8 for a data abort, 4 for a prefetch abort
-- or an interrupt and 0 for the others. The mode from before is one of the seven.
pub arm_exception_enters :
    (p : ArmCore) (e : ℕ)
    → IsMode (get_mode p.reg)
    → IsWordFile p.reg
    → IsException e
    → e ≢ reset
    → let q = arm_exception p e in
      (get_mode q.reg ≡ mode_of e)
      × IsEntered e (arm_read_cpsr p) (arm_read_cpsr q)
      × (arm_read_spsr q ≡ arm_read_cpsr p)
      × (read_register q.reg 14 ≡ add32 (arm_read_register p 15) (return_offset e))
unfolding arm_read_cpsr arm_read_spsr arm_read_register
arm_exception_enters p e mode word known h =
    let facts = linked_facts p e mode word known in
    let enter = entered p e mode word known in
    rw (registers_after p e mode word known h) (
      facts.0 ∙ enter.0,
      subst (IsEntered e (read_cpsr p.reg)) (sym facts.1) enter,
      facts.2,
      facts.3
          ∙ ground
              (arith, pc_seen p e mode word known, entry_offset e (masked (read_cpsr p.reg)) known),
    )

-- No exception, the reset included, moves the program counter: the write of the vector address is
-- a write to a user register, which is dropped in every mode that an exception enters. The mode
-- from before is one of the seven.
pub arm_exception_pc :
    (p : ArmCore) (e : ℕ)
    → IsMode (get_mode p.reg)
    → IsWordFile p.reg
    → IsException e
    → read_register (arm_exception p e).reg 15 ≡ read_register p.reg 15
arm_exception_pc p e mode word known = elim (Bool-cases (e == reset)) [
  | inl is ↦ rw (registers_reset p e mode word known ((==_iff e reset).0 is)) (
      read_pc-write_cpsr p.reg (new_status p e mode word known) mode
        (new-IsMode p e mode word known))
  | inr other ↦
      rw (registers_after p e mode word known (λ h. false≢true (sym other ∙ (==_iff e reset).1 h)))
        (linked_facts p e mode word known).4
]
