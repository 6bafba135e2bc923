-- ===== src/Core/Print.antt =====
-- arm_core.c: the text of the state of the processor, as `arm_print_state` writes it.
pub mod Banks
use l3_info_simulateur_arm.Base.{
  ℕ, zero, suc, ◌+◌, ◌-◌, ◌/◌, ◌%◌, ◌^◌, not, ◌&&◌, ◌||◌, ltb, ◌==◌, if◌then◌else◌, Option, none,
  some, [], ◌∷◌, ◌++◌,
}
use l3_info_simulateur_arm.Constants.{usr, fiq, irq, svc, abt, und, sys}
use l3_info_simulateur_arm.Text.{Bytes, codes, length}
use l3_info_simulateur_arm.Names.{arm_get_mode_name, arm_get_register_name}
use l3_info_simulateur_arm.Core.{ArmCore, arm_read_register, arm_read_usr_register, arm_read_cpsr}

-- The conversions `%08X` of a 32-bit word and `%3s`.
unfoldable pub print_digits : ℕ → ℕ → Bytes
print_digits zero v = []
print_digits (suc left) v =
    let d = v / 16 ^ left % 16 in
    (if ltb d 10 then b'0' + d else b'A' + (d - 10)) ∷ print_digits left v

unfoldable pub pad : ℕ → Bytes → Bytes
pad zero text = text
pad (suc missing) text = b' ' ∷ pad missing text

abbrev some_text : Option Bytes → Bytes
some_text none = []
some_text (some text) = text

-- `   %3s=%08X`; the names of the registers 0 to 15 are in the table.
unfoldable pub print_register : ℕ → ℕ → Bytes
print_register reg value =
    let name = some_text (arm_get_register_name reg) in
    codes "   " ++ (pad (3 - length name) name ++ (b'=' ∷ print_digits 8 value))

-- The loop over the registers from `reg` on, with `left` of them left.
unfoldable pub register_loop : ℕ → ℕ → ℕ → ℕ → ArmCore → Bytes
register_loop mode zero reg count p = []
register_loop mode (suc left) reg count p =
    let n = if mode == usr then reg else count in
    let line = if ltb 0 n && n % 5 == 0 then codes "\n    " else [] in
    let value = if mode == usr then arm_read_usr_register p reg else arm_read_register p reg in
    line
    ++ (print_register reg value
        ++ register_loop mode left (reg + 1) (if mode == usr then count else count + 1) p)

-- The `switch` behind the registers of a mode.
unfoldable pub mode_end : ℕ → Bytes
mode_end mode =
    if mode == usr || mode == fiq || mode == svc || mode == und
    then codes "\n"
    else if mode == irq || mode == abt
    then codes "          "
    else []

unfoldable pub print_mode : ℕ → Bytes → ArmCore → Bytes
print_mode mode name p =
    (if not (mode == sys) then name ++ codes ":" else [])
    ++ (register_loop mode 16 0 0 p
        ++ ((if mode == usr then codes "  CPSR=" ++ print_digits 8 (arm_read_cpsr p) else [])
            ++ mode_end mode))

-- The loop over the modes.
unfoldable pub mode_loop : ℕ → ℕ → ArmCore → Bytes
mode_loop zero mode p = []
mode_loop (suc left) mode p =
    elim (arm_get_mode_name mode) [ none ↦ [] | some name ↦ print_mode mode name p ]
    ++ mode_loop left (mode + 1) p

unfoldable pub arm_print_state : ArmCore → Bytes
arm_print_state p = mode_loop 32 0 p
