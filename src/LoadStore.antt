-- ===== src/LoadStore.antt =====
-- arm_load_store.c: loads and stores of one register and of several.
-- A local variable that a failed read leaves uninitialised holds what `Stale` says: C does not fix
-- the value, and every statement is for all of them.
pub mod Address
pub mod Keeps
pub mod Multiple
pub mod Transfer
pub mod Loads
pub mod Stack
pub mod Pop
pub mod Restore
pub mod Single
pub mod Preserve
use l3_info_simulateur_arm.Base.{
  ℕ, zero, suc, bit_and, ◌+◌, ◌*◌, ◌%◌, ◌^◌, Bool, not, ◌&&◌, ◌||◌, ◌==◌, ltb, leb, if◌then◌else◌,
}
use l3_info_simulateur_arm.Constants.{undefined_instruction}
use l3_info_simulateur_arm.Util.{
  u8, u16, add32, sub32, minus_one, get_bit, get_bits, set_bits, bit_set,
}
use l3_info_simulateur_arm.Core.{ArmCore, arm_read_register, arm_write_register}
use l3_info_simulateur_arm.Core.{arm_read_byte, arm_read_half, arm_read_word}
use l3_info_simulateur_arm.Core.{arm_write_byte, arm_write_half, arm_write_word}
use l3_info_simulateur_arm.Condition.{condition}
use Address.{get_address_mode_half, get_address_mode_bw, get_address_mode_multi}

pub record Stale : Type 0 where
  pub fetched : ℕ
  pub byte : ℕ
  pub half : ℕ
  pub word : ℕ
  pub loaded : ℕ → ℕ

-- The four tests on the instruction.
abbrev pub is_load : ℕ → Bool
is_load ins = get_bit ins 20 == 1

abbrev pub is_h : ℕ → Bool
is_h ins = get_bits ins 27 25 == 0 && get_bits ins 7 4 == 0xB

abbrev pub is_b : ℕ → Bool
is_b ins = get_bit ins 22 == 1

abbrev pub is_s : ℕ → Bool
is_s ins = get_bits ins 27 25 == 0 && leb 0xE (get_bits ins 7 4)

-- The word that a loaded halfword or byte becomes.
unfoldable pub extend_half : ℕ → ℕ → ℕ
extend_half ins value = if is_s ins && bit_set value 15 then set_bits value 30 16 0xFFFF else value

unfoldable pub extend_byte : ℕ → ℕ → ℕ
extend_byte ins value = if is_s ins && bit_set value 7 then set_bits value 30 8 0xFFFFFF else value

abbrev reg_dest : ℕ → ℕ
reg_dest ins = get_bits ins 15 12

-- The loads, from the address and the processor that the addressing mode gives.
unfoldable pub load_half : Stale → ℕ → ℕ × ArmCore → ArmCore
load_half stale ins (address, p) =
    if not (address == minus_one)
    then arm_write_register p (reg_dest ins)
        (extend_half ins (arm_read_half p address (u16 stale.half)).1)
    else p

unfoldable pub load_byte : Stale → ℕ → ℕ × ArmCore → ArmCore
load_byte stale ins (address, p) =
    if not (address == minus_one)
    then arm_write_register p (reg_dest ins)
        (extend_byte ins (arm_read_byte p address (u8 stale.byte)).1)
    else p

unfoldable pub load_word : Stale → ℕ → ℕ × ArmCore → ArmCore
load_word stale ins (address, p) =
    if not (address == minus_one)
    then arm_write_register p (reg_dest ins) (arm_read_word p address stale.word).1
    else p

-- The stores.
unfoldable pub store_half : ℕ → ℕ × ArmCore → ArmCore
store_half ins (address, p) =
    (arm_write_half p address (u16 (arm_read_register p (reg_dest ins)))).1

unfoldable pub store_byte : ℕ → ℕ × ArmCore → ArmCore
store_byte ins (address, p) = (arm_write_byte p address (u8 (arm_read_register p (reg_dest ins)))).1

unfoldable pub store_word : ℕ → ℕ × ArmCore → ArmCore
store_word ins (address, p) = (arm_write_word p address (arm_read_register p (reg_dest ins))).1

-- The code returned is 0.
unfoldable pub arm_load_store : Stale → ArmCore → ℕ → ArmCore
arm_load_store stale p ins =
    if is_load ins
    then if is_h ins
      then load_half stale ins (get_address_mode_half p ins)
      else if is_b ins
      then load_byte stale ins (get_address_mode_bw p ins)
      else load_word stale ins (get_address_mode_bw p ins)
    else if is_h ins
    then store_half ins (get_address_mode_half p ins)
    else if is_b ins
    then store_byte ins (get_address_mode_bw p ins)
    else store_word ins (get_address_mode_bw p ins)

-- The loop of LDM at register `i` with `left` rounds left: the address it ends at, and the
-- processor.
unfoldable pub load_registers : Stale → ℕ → ℕ → ℕ → ℕ → ArmCore → ℕ × ArmCore
load_registers stale ins zero i address p = (address, p)
load_registers stale ins (suc left) i address p =
    let listed = get_bit ins i == 1 in
    let loaded = arm_write_register p i (arm_read_word p address (stale.loaded i)).1 in
    load_registers stale ins left (i + 1) (if listed then add32 address 4 else address)
      (if listed then loaded else p)

-- Register 15 comes after the loop, with bit 0 of the word cleared.
unfoldable pub load_pc : Stale → ℕ → ℕ → ArmCore → ℕ × ArmCore
load_pc stale ins address p =
    let value = (arm_read_word p address (stale.loaded 15)).1 in
    if get_bit ins 15 == 1
    then (add32 address 4, arm_write_register p 15 (bit_and value 0xFFFFFFFE))
    else (address, p)

-- The loop of STM.
unfoldable pub store_registers : ℕ → ℕ → ℕ → ℕ → ArmCore → ℕ × ArmCore
store_registers ins zero i address p = (address, p)
store_registers ins (suc left) i address p =
    let listed = get_bit ins i == 1 in
    let stored = (arm_write_word p address (arm_read_register p i)).1 in
    store_registers ins left (i + 1) (if listed then add32 address 4 else address)
      (if listed then stored else p)

-- The code that the check of the last address returns.
abbrev check_end : ℕ → ℕ × ArmCore → ℕ × ArmCore
check_end end_address (address, p) =
    (if not (end_address == sub32 address 4) then minus_one else 0, p)

-- The code and the processor.
unfoldable pub arm_load_store_multiple : Stale → ArmCore → ℕ → ℕ × ArmCore
arm_load_store_multiple stale p ins =
    let mode = get_address_mode_multi p ins in
    let q = mode.core in
    let loaded = load_registers stale ins 15 0 mode.start_address q in
    if mode.start_address == minus_one || mode.end_address == minus_one
    then (minus_one, q)
    else if get_bit ins 22 == 0 && condition q ins
    then if is_load ins
      then check_end mode.end_address (load_pc stale ins loaded.0 loaded.1)
      else check_end mode.end_address (store_registers ins 16 0 mode.start_address q)
    else (0, q)

unfoldable pub arm_coprocessor_load_store : ℕ
arm_coprocessor_load_store = undefined_instruction
