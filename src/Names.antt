-- ===== src/Names.antt =====
-- arm_constants.c: the names of modes, registers and exceptions, and the choice of an exception by
-- its name in send_irq.c. A null pointer is `none`.
use l3_info_simulateur_arm.Base.{
  ℕ, zero, suc, ◌+◌, ◌/◌, ◌%◌, ◌^◌, [], ◌∷◌, ◌≡◌, refl, ltb, ◌==◌, if◌then◌else◌, Option, none,
  some,
}
use l3_info_simulateur_arm.Constants.{
  usr, fiq, irq, svc, abt, und, sys, reset, undefined_instruction, software_interrupt,
  prefetch_abort, data_abort, interrupt, fast_interrupt,
}
use l3_info_simulateur_arm.Text.{Bytes, codes}
use l3_info_simulateur_arm.Debug.{strcmp, is_eq}

-- Of the 32 entries of the table; the modes have five bits.
unfoldable pub arm_get_mode_name : ℕ → Option Bytes
arm_get_mode_name mode =
    if mode == usr
    then some (codes "USR")
    else if mode == fiq
    then some (codes "FIQ")
    else if mode == irq
    then some (codes "IRQ")
    else if mode == svc
    then some (codes "SVC")
    else if mode == abt
    then some (codes "ABT")
    else if mode == und
    then some (codes "UND")
    else if mode == sys
    then some (codes "SYS")
    else none

-- Of the 18 entries of the table; C leaves an index behind them undefined.
unfoldable pub arm_get_register_name : ℕ → Option Bytes
arm_get_register_name reg =
    if reg == 13
    then some (codes "SP")
    else if reg == 14
    then some (codes "LR")
    else if reg == 15
    then some (codes "PC")
    else if reg == 16
    then some (codes "CPSR")
    else if reg == 17
    then some (codes "SPSR")
    else if ltb reg 13
    then some (b'R' ∷ (b'0' + reg / 10) ∷ (b'0' + reg % 10) ∷ [])
    else none

unfoldable pub exception_entry : ℕ → Option Bytes
exception_entry exception =
    if exception == 1
    then some (codes "reset")
    else if exception == 2
    then some (codes "undefined instruction")
    else if exception == 3
    then some (codes "software interrupt")
    else if exception == 4
    then some (codes "prefetch abort")
    else if exception == 5
    then some (codes "data abort")
    else if exception == 6
    then some (codes "interrupt")
    else if exception == 7
    then some (codes "fast interrupt")
    else none

unfoldable pub arm_get_exception_name : ℕ → Option Bytes
arm_get_exception_name exception = if ltb exception 8 then exception_entry exception else none

-- The `while` of `main` of send_irq.c, over an `unsigned char`; nothing is the unknown name. There
-- is no name from 8 on, so that eight rounds are enough from 1.
unfoldable pub irq_loop : ℕ → ℕ → Bytes → Option ℕ
irq_loop zero e name = none
irq_loop (suc left) e name =
    let rest = irq_loop left ((e + 1) % 2 ^ 8) name in
    elim (arm_get_exception_name e) [
      | none ↦ none
      | some irq_name ↦ if is_eq (strcmp irq_name name) then some e else rest
    ]

unfoldable pub irq_of_name : Bytes → Option ℕ
irq_of_name name = irq_loop 8 reset name

names_back :
    (irq_of_name (codes "reset") ≡ some reset)
    × (irq_of_name (codes "undefined instruction") ≡ some undefined_instruction)
    × (irq_of_name (codes "software interrupt") ≡ some software_interrupt)
    × (irq_of_name (codes "prefetch abort") ≡ some prefetch_abort)
    × (irq_of_name (codes "data abort") ≡ some data_abort)
    × (irq_of_name (codes "interrupt") ≡ some interrupt)
    × (irq_of_name (codes "fast interrupt") ≡ some fast_interrupt)
    × (irq_of_name (codes "fiq") ≡ none)
unfolding irq_of_name irq_loop arm_get_exception_name exception_entry strcmp
names_back = (refl, refl, refl, refl, refl, refl, refl, refl)
