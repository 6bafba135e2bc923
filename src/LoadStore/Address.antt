-- ===== src/LoadStore/Address.antt =====
-- arm_load_store.c: the addressing modes. Each gives an address and the processor after the
-- write of the base register, if it makes one; -1 stands for no address.
use l3_info_simulateur_arm.Base.{ℕ, zero, suc, ◌+◌, ◌*◌, ◌/◌, ◌^◌, not, ◌&&◌, ◌==◌, if◌then◌else◌}
use l3_info_simulateur_arm.Base.{bit_or}
use l3_info_simulateur_arm.Constants.{flag_c}
use l3_info_simulateur_arm.Util.{
  u8, u32, add32, sub32, minus_one, shl, shr, get_bit, get_bits, asr, ror,
}
use l3_info_simulateur_arm.Core.{ArmCore, arm_read_register, arm_write_register, arm_read_cpsr}
use l3_info_simulateur_arm.Condition.{condition}

-- `numberOfSetBits`: the loop at bit `i` with `left` rounds left.
unfoldable pub count_bits : ℕ → ℕ → ℕ → ℕ → ℕ
count_bits champ zero i count = count
count_bits champ (suc left) i count =
    count_bits champ left (i + 1) (if get_bit champ i == 1 then count + 1 else count)

unfoldable pub number_of_set_bits : ℕ → ℕ
unfolding count_bits
number_of_set_bits champ = count_bits champ 16 0 0

-- The shift type has two bits, so `default` is not reached.
unfoldable pub shift : ArmCore → ℕ → ℕ → ℕ
shift p ins val_rm =
    let shift_type = get_bits ins 6 5 in
    let shift_value = get_bits ins 11 7 in
    if shift_type == 0
    then shl val_rm shift_value
    else if shift_type == 1
    then if shift_value == 0 then 0 else shr val_rm shift_value
    else if shift_type == 2
    then if shift_value == 0
      then if get_bit val_rm 31 == 1 then 0xFFFFFFFF else 0
      else asr val_rm shift_value
    else if shift_value == 0
    then bit_or (u32 (get_bit (arm_read_cpsr p) flag_c * 2 ^ 31)) (val_rm / 2)
    else ror val_rm shift_value

-- `u == 1 ? base + offset : base - offset`
abbrev pub move_by : ℕ → ℕ → ℕ → ℕ
move_by ins base offset = if get_bit ins 23 == 1 then add32 base offset else sub32 base offset

-- The base register is written and the address returned, if the condition of the instruction holds.
abbrev pub write_back : ArmCore → ℕ → ℕ → ℕ → ℕ × ArmCore
write_back p ins base address =
    if condition p ins
    then (address, arm_write_register p (get_bits ins 19 16) base)
    else (minus_one, p)

unfoldable pub get_address_mode_half : ArmCore → ℕ → ℕ × ArmCore
get_address_mode_half p ins =
    let is_post = get_bit ins 24 == 0 in
    let type = get_bits ins 22 21 in
    let val_rn = arm_read_register p (get_bits ins 19 16) in
    let val_rm = arm_read_register p (get_bits ins 3 0) in
    let offset_8 = u8 (bit_or (get_bits ins 11 8 * 2 ^ 4) (get_bits ins 3 0)) in
    let by_rm = move_by ins val_rn val_rm in
    let by_offset = move_by ins val_rn offset_8 in
    if is_post && type == 0
    then write_back p ins by_rm val_rn
    else if is_post && type == 2
    then write_back p ins by_offset val_rn
    else if not is_post && type == 0
    then (by_rm, p)
    else if not is_post && type == 1
    then write_back p ins by_rm by_rm
    else if not is_post && type == 2
    then (by_offset, p)
    else if not is_post && type == 3
    then write_back p ins by_offset by_offset
    else (minus_one, p)

unfoldable pub get_address_mode_bw : ArmCore → ℕ → ℕ × ArmCore
unfolding shift
get_address_mode_bw p ins =
    let val_rn = arm_read_register p (get_bits ins 19 16) in
    let by_offset = move_by ins val_rn (get_bits ins 11 0) in
    let val_rm = arm_read_register p (get_bits ins 3 0) in
    let by_index = move_by ins val_rn (shift p ins val_rm) in
    let w = get_bit ins 21 in
    let before = get_bit ins 24 in
    if get_bit ins 25 == 0
    then if w == 0 && before == 1
      then (by_offset, p)
      else if w == 1 && before == 1
      then write_back p ins by_offset by_offset
      else if w == 0 && before == 0
      then if condition p ins then (by_offset, p) else (minus_one, p)
      else (minus_one, p)
    else if before == 0
    then if condition p ins then (by_index, p) else (minus_one, p)
    else if w == 1
    then write_back p ins by_index by_index
    else (by_index, p)

-- The two addresses, and the processor.
pub record Block : Type 0 where
  pub start_address : ℕ
  pub end_address : ℕ
  pub core : ArmCore

-- The base register after the instruction.
abbrev pub write_base : ArmCore → ℕ → ℕ → ArmCore
write_base p ins base =
    if condition p ins && get_bit ins 21 == 1
    then arm_write_register p (get_bits ins 19 16) base
    else p

unfoldable pub get_address_mode_multi : ArmCore → ℕ → Block
unfolding number_of_set_bits
get_address_mode_multi p ins =
    let val_rn = arm_read_register p (get_bits ins 19 16) in
    let after = get_bit ins 24 == 0 in
    let inc = get_bit ins 23 == 1 in
    let count = number_of_set_bits (get_bits ins 15 0) * 4 in
    let up = write_base p ins (add32 val_rn count) in
    let down = write_base p ins (sub32 val_rn count) in
    if inc && after
    then record { start_address = val_rn; end_address = sub32 (add32 val_rn count) 4; core = up }
    else if inc && not after
    then record { start_address = add32 val_rn 4; end_address = add32 val_rn count; core = up }
    else if not inc && after
    then record { start_address = add32 (sub32 val_rn count) 4; end_address = val_rn; core = down }
    else record { start_address = sub32 val_rn count; end_address = sub32 val_rn 4; core = down }
