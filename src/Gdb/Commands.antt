-- ===== src/Gdb/Commands.antt =====
-- gdb_protocol.c: the handlers of the commands.
use mathlib.Core.Option.{map}
use l3_info_simulateur_arm.Base.{
  leb, ℕ, zero, suc, ◌+◌, ◌*◌, Bool, true, false, not, ◌&&◌, ◌||◌, ltb, ◌==◌, if◌then◌else◌, Option,
  none, some, [], ◌++◌, bit_and, bit_xor,
}
use l3_info_simulateur_arm.Util.{u8, add32, sub32, minus_one}
use l3_info_simulateur_arm.Memory.{Status, failure, success, memory_get_size, memory_read_byte}
use l3_info_simulateur_arm.Memory.{memory_write_byte}
use l3_info_simulateur_arm.Core.{ArmCore, arm_read_register, arm_write_register, arm_read_cpsr}
use l3_info_simulateur_arm.Core.{arm_write_cpsr, arm_read_word}
use l3_info_simulateur_arm.Branch.{Outcome, returned, exited}
use l3_info_simulateur_arm.LoadStore.{Stale}
use l3_info_simulateur_arm.Instruction.{arm_step}
use l3_info_simulateur_arm.Text.{
  length, Bytes, codes, byte_in, drop, after_first, starts_with, is_text, print_byte, sscanf_x,
  sscanf_x_x, atoi,
}
use l3_info_simulateur_arm.Gdb.{
  max_packet_size, Gdb, Run, running, ended, aborted, faulted, shut, logged, gdb_send_buffer,
  gdb_send_data, gdb_send_stop_reason,
}
use l3_info_simulateur_arm.Gdb.Wire.{Order, read_uint32, write_uint32}

-- What the variables hold that a failed conversion or a failed read leaves uninitialised; the
-- locals of a step go by the cycle in which it starts.
pub record Unset : Type 0 where
  pub step : ℕ → Stale
  pub instruction : ℕ
  pub address : ℕ
  pub size : ℕ
  pub reg : ℕ
  pub value : ℕ
  pub given : ℕ

abbrev pub with_arm : Gdb → ArmCore → Gdb
with_arm gdb arm = record gdb { arm = arm }

-- `gdb->target_exception = arm_step(gdb->arm)`.
abbrev pub of_outcome : Gdb → Outcome → Run
of_outcome gdb exited = ended
of_outcome gdb (returned code arm) = running (record gdb { arm = arm; target_exception = code })

unfoldable pub stepped : Unset → Gdb → Run
stepped unset gdb = of_outcome gdb (arm_step (unset.step gdb.arm.cycle_count) gdb.arm)

-- The instruction at the program counter, or the one that was read before.
abbrev pub next_instruction : ℕ → Gdb → ℕ
next_instruction instruction gdb =
    (arm_read_word gdb.arm (sub32 (arm_read_register gdb.arm 15) 4) instruction).1

abbrev pub is_breakpoint : ℕ → Bool
is_breakpoint instruction = bit_and instruction 0xFFF000F0 == 0xE7F000F0

abbrev pub then_go_on : (Gdb → Option Run) → Run → Option Run
then_go_on f (running gdb) = f gdb
then_go_on f ended = some ended
then_go_on f aborted = some aborted
then_go_on f faulted = some faulted

-- The `while` of `cont`, nothing if `fuel` rounds do not end it.
unfoldable pub cont_loop : Unset → ℕ → ℕ → Gdb → Option Run
cont_loop unset zero instruction gdb = none
cont_loop unset (suc fuel) instruction gdb =
    let read = next_instruction instruction gdb in
    elim (is_breakpoint read) [
      | true ↦ some (running gdb)
      | false ↦ then_go_on (cont_loop unset fuel read) (stepped unset gdb)
    ]

abbrev pub then_send : (Gdb → Gdb) → Run → Run
then_send f (running gdb) = running (f gdb)
then_send f ended = ended
then_send f aborted = aborted
then_send f faulted = faulted

unfoldable pub cont : Unset → ℕ → Gdb → Option Run
cont unset fuel gdb =
    map (then_send gdb_send_stop_reason) (cont_loop unset fuel unset.instruction gdb)

unfoldable pub kill_request : Gdb → Gdb
kill_request gdb = logged gdb shut

unfoldable pub query : Gdb → Bytes → Gdb
query gdb text =
    if is_text (codes "Offsets") text
    then gdb_send_data gdb (codes "Text=0;Data=0;Bss=0")
    else if starts_with (codes "Supported") text
    then gdb_send_data gdb (codes "PacketSize=400")
    else if is_text (codes "TStatus") text
    then gdb_send_data gdb (codes "T0;tnotrun:0")
    else if is_text (codes "Symbol::") text
    then gdb_send_data gdb []
    else gdb_send_data gdb []

-- The loop over r0 to r14, at register `i`.
unfoldable pub registers_text : Order → ℕ → ℕ → ArmCore → Bytes
registers_text o zero i arm = []
registers_text o (suc left) i arm =
    write_uint32 o (arm_read_register arm i) ++ registers_text o left (i + 1) arm

-- `count` registers that are not implemented.
unfoldable pub no_registers_text : ℕ → Bytes
no_registers_text zero = []
no_registers_text (suc count) = codes "xxxxxxxx" ++ no_registers_text count

-- The text of the registers, that of the processor `arm`.
abbrev pub general_text : Order → ArmCore → Bytes
general_text o arm =
    registers_text o 15 0 arm
    ++ (write_uint32 o (sub32 (arm_read_register arm 15) 4)
        ++ (no_registers_text (8 * 3)
            ++ (no_registers_text 1 ++ write_uint32 o (arm_read_cpsr arm))))

unfoldable pub read_general_registers : Order → Gdb → Gdb
read_general_registers o gdb = gdb_send_buffer gdb (general_text o gdb.arm)

abbrev pub after_read : (ℕ → Bytes) → Status × ℕ → Bytes
after_read f (failure, byte) = []
after_read f (success, byte) = print_byte byte ++ f byte

-- The loop of `read_memory`; `value` is the byte that was read last.
unfoldable pub read_memory_loop : ArmCore → ℕ → ℕ → ℕ → Bytes
read_memory_loop arm zero address value = []
read_memory_loop arm (suc size) address value =
    after_read (read_memory_loop arm size (add32 address 1))
      (memory_read_byte arm.mem address value)

-- The packet of the digits has four more bytes and a byte 0. Where that is more than the array
-- `packet` has, the loop or `gdb_send_buffer` writes behind its end.
unfoldable pub read_memory : Unset → Gdb → Bytes → Run
read_memory unset gdb text =
    let (address, size) = sscanf_x_x text unset.address unset.size in
    let digits = read_memory_loop gdb.arm size address (u8 unset.value) in
    if leb (length digits + 5) max_packet_size
    then running (gdb_send_buffer gdb digits)
    else faulted

unfoldable pub read_register : Order → Gdb → Bytes → Run
read_register o gdb text =
    let reg = atoi text in
    if ltb reg 16
    then running (
        gdb_send_buffer gdb
          (write_uint32 o (sub32 (arm_read_register gdb.arm reg) (if reg == 15 then 4 else 0))))
    else aborted

unfoldable pub reason : Gdb → Gdb
reason gdb = gdb_send_stop_reason gdb

unfoldable pub set_thread : Gdb → Bytes → Gdb
set_thread gdb text =
    let type = byte_in text 0 in
    let value = atoi (drop 1 text) in
    if (type == b'c' || type == b'g') && (value == 0 || value == minus_one)
    then gdb_send_data gdb (codes "OK")
    else gdb_send_data gdb (codes "E01")

unfoldable pub step : Unset → Gdb → Run
step unset gdb = then_send gdb_send_stop_reason (stepped unset gdb)

-- The loop over r0 to r15, at register `i`.
unfoldable pub write_registers : Order → Unset → ℕ → ℕ → Bytes → ArmCore → ArmCore
write_registers o unset zero i position arm = arm
write_registers o unset (suc left) i position arm =
    write_registers o unset left (i + 1) (drop 8 position)
      (arm_write_register arm i (read_uint32 o unset.value position))

-- The words of the registers that are not implemented are read and left.
unfoldable pub write_general_registers : Order → Unset → Gdb → Bytes → Gdb
write_general_registers o unset gdb text =
    let arm = write_registers o unset 16 0 text gdb.arm in
    let status = drop (16 * 8 + 8 * 3 * 8 + 8) text in
    gdb_send_data (with_arm gdb (arm_write_cpsr arm (read_uint32 o unset.value status)))
      (codes "OK")

-- The loop of `write_memory_binary` with `left` bytes left: `write_ok` and the processor.
unfoldable pub write_memory_loop : ℕ → ℕ → Bool → Bytes → ArmCore → Bool × ArmCore
write_memory_loop zero address ok content arm = (ok, arm)
write_memory_loop (suc left) address ok content arm = elim ok [
  | false ↦ (false, arm)
  | true ↦
      let escaped = byte_in content 0 == 0x7D in
      let value = if escaped then bit_xor (byte_in content 1) 0x20 else byte_in content 0 in
      let (status, mem) = memory_write_byte arm.mem address (u8 value) in
      write_memory_loop left (add32 address 1) (elim status [ success ↦ true | failure ↦ false ])
        (drop (if escaped then 2 else 1) content) (record arm { mem = mem })
]

abbrev pub answer : Gdb → Bool × ArmCore → Gdb
answer gdb (ok, arm) = gdb_send_data (with_arm gdb arm) (if ok then codes "OK" else codes "E02")

abbrev pub where_found : Option Bytes → (Bytes → Run) → Run → Run
where_found (some text) f r = f text
where_found none f r = r

-- `content` is a null pointer plus 1 where there is no colon.
unfoldable pub write_memory_binary : Unset → Gdb → Bytes → Run
write_memory_binary unset gdb text =
    let (address, size) = sscanf_x_x text unset.address unset.size in
    let ok = ltb address (memory_get_size gdb.arm.mem) in
    where_found (after_first b':' text)
      (λ content. running (answer gdb (write_memory_loop size address ok content gdb.arm)))
      (if not (size == 0) && ok then faulted else running (answer gdb (ok, gdb.arm)))

unfoldable pub write_register : Order → Unset → Gdb → Bytes → Run
write_register o unset gdb text =
    let reg = sscanf_x text unset.reg in
    where_found (after_first b'=' text)
      (λ rest.
        if ltb reg 16
        then running (
            gdb_send_data
              (with_arm gdb (arm_write_register gdb.arm reg (read_uint32 o unset.value rest)))
              (codes "OK"))
        else aborted)
      faulted
