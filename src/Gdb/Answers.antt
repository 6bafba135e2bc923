-- ===== src/Gdb/Answers.antt =====
-- What the handlers send.
use l3_info_simulateur_arm.Base.{
  leb, ℕ, zero, suc, ◌+◌, ◌*◌, ◌≤◌, ◌≡◌, ◌⊎◌, refl, arith, Bool, true, false, Option, none, some,
  ◌∷◌, ◌++◌,
}
use l3_info_simulateur_arm.Core.{ArmCore, arm_read_register, arm_read_cpsr}
use l3_info_simulateur_arm.Memory.{Status, failure, success, memory_read_byte}
use l3_info_simulateur_arm.Util.{u8, add32, sub32}
use l3_info_simulateur_arm.Text.{
  Bytes, codes, length, length-append, print_byte, sscanf_x_x, is_text, starts_with,
}
use l3_info_simulateur_arm.Gdb.{Gdb, Run, running, ended, aborted, faulted, shut}
use l3_info_simulateur_arm.Gdb.Wire.{Order, write_uint32, write_loop, byte_of_integer}
use l3_info_simulateur_arm.Gdb.Commands.{
  Unset, query, registers_text, no_registers_text, read_general_registers, after_read,
  read_memory_loop, read_memory, set_thread, write_general_registers, answer,
}
use l3_info_simulateur_arm.Gdb.Sent.{
  Sent, Sent-if, Sent-from, gdb_send_buffer-Sent, gdb_send_data-Sent,
}

-- The size that the command `m` asks for.
abbrev pub asked : Unset → Bytes → ℕ
asked unset text = (sscanf_x_x text unset.address unset.size).1

-- What a command does: it sends one packet; or it shuts the connection; or it goes on for ever; or
-- the program ends, as only some commands make it do.
pub data Effect (c : ℕ) (gdb : Gdb) : Option Run → Type 0 where
  sends : {after : Gdb} → Sent gdb after → Effect c gdb (some (running after))
  kills :
      {after : Gdb}
      → c ≡ b'k'
      → after.events ≡ shut ∷ gdb.events
      → Effect c gdb (some (running after))
  waits : c ≡ b'c' → Effect c gdb none
  ends : (c ≡ b'c') ⊎ (c ≡ b's') → Effect c gdb (some ended)
  aborts : (c ≡ b'p') ⊎ (c ≡ b'P') → Effect c gdb (some aborted)
  faults : (c ≡ b'X') ⊎ (c ≡ b'P') → Effect c gdb (some faulted)

pub length-write_uint32 : (o : Order) (v : ℕ) → length (write_uint32 o v) ≡ 8
unfolding write_uint32 write_loop byte_of_integer print_byte
length-write_uint32 o v = of_bits o.target o.host
  where
    of_bits :
        (target host : Bool) → length (write_uint32 (record { target = target; host = host }) v) ≡ 8
    of_bits true true = refl
    of_bits true false = refl
    of_bits false true = refl
    of_bits false false = refl

length-registers_text :
    (o : Order) (left i : ℕ) (arm : ArmCore) → length (registers_text o left i arm) ≡ 8 * left
unfolding registers_text
length-registers_text o zero i arm = refl
length-registers_text o (suc left) i arm = omega (
  arith,
  length-append (write_uint32 o (arm_read_register arm i)) (registers_text o left (i + 1) arm),
  length-write_uint32 o (arm_read_register arm i),
  length-registers_text o left (i + 1) arm,
)

length-no_registers_text : (count : ℕ) → length (no_registers_text count) ≡ 8 * count
unfolding no_registers_text
length-no_registers_text zero = refl
length-no_registers_text (suc count) = omega (arith, length-no_registers_text count)

length-after_read :
    (f : ℕ → Bytes) (n : ℕ) (r : Status × ℕ)
    → ((byte : ℕ) → length (f byte) ≤ n)
    → length (after_read f r) ≤ n + 2
unfolding print_byte
length-after_read f n (failure, byte) h = omega arith
length-after_read f n (success, byte) h = omega (arith, h byte)

length-read_memory_loop :
    (arm : ArmCore) (size address value : ℕ)
    → length (read_memory_loop arm size address value) ≤ 2 * size
unfolding read_memory_loop
length-read_memory_loop arm zero address value = omega arith
length-read_memory_loop arm (suc size) address value = omega (
  arith,
  length-after_read (read_memory_loop arm size (add32 address 1)) (2 * size)
      (memory_read_byte arm.mem address value)
      (λ byte. length-read_memory_loop arm size (add32 address 1) byte),
)

pub query-Sent : (gdb : Gdb) (text : Bytes) → Sent gdb (query gdb text)
unfolding query
query-Sent gdb text =
    Sent-if (is_text (codes "Offsets") text) gdb _ _ (gdb_send_data-Sent gdb _ (omega arith)) (
      Sent-if (starts_with (codes "Supported") text) gdb _ _
        (gdb_send_data-Sent gdb _ (omega arith))
        (Sent-if (is_text (codes "TStatus") text) gdb _ _ (gdb_send_data-Sent gdb _ (omega arith)) (
          Sent-if (is_text (codes "Symbol::") text) gdb _ _ (gdb_send_data-Sent gdb _ (omega arith))
            (gdb_send_data-Sent gdb _ (omega arith)))))

pub read_general_registers-Sent : (o : Order) (gdb : Gdb) → Sent gdb (read_general_registers o gdb)
unfolding read_general_registers
read_general_registers-Sent o gdb =
    let status = write_uint32 o (arm_read_cpsr gdb.arm) in
    let behind = no_registers_text 1 ++ status in
    let pc = write_uint32 o (sub32 (arm_read_register gdb.arm 15) 4) in
    let others = no_registers_text (8 * 3) ++ behind in
    gdb_send_buffer-Sent gdb _ (
      omega (
        arith,
        length-append (registers_text o 15 0 gdb.arm) (pc ++ others),
        length-append pc others,
        length-append (no_registers_text (8 * 3)) behind,
        length-append (no_registers_text 1) status,
        length-registers_text o 15 0 gdb.arm,
        length-no_registers_text (8 * 3),
        length-no_registers_text 1,
        length-write_uint32 o (arm_read_cpsr gdb.arm),
        length-write_uint32 o (sub32 (arm_read_register gdb.arm 15) 4),
      ))

pub read_memory-Effect :
    (unset : Unset) (gdb : Gdb) (text : Bytes)
    → asked unset text ≤ 509
    → Effect b'm' gdb (some (read_memory unset gdb text))
unfolding read_memory
read_memory-Effect unset gdb text h =
    let (address, size) = sscanf_x_x text unset.address unset.size in
    let digits = read_memory_loop gdb.arm size address (u8 unset.value) in
    let short : length digits + 5 ≤ 1024 =
      omega (arith, h, length-read_memory_loop gdb.arm size address (u8 unset.value)) in
    let room : leb (length digits + 5) 1024 ≡ true = ground (arith, short) in
    rw room (sends (gdb_send_buffer-Sent gdb digits short))

pub set_thread-Sent : (gdb : Gdb) (text : Bytes) → Sent gdb (set_thread gdb text)
unfolding set_thread
set_thread-Sent gdb text =
    Sent-if _ gdb _ _ (gdb_send_data-Sent gdb _ (omega arith))
      (gdb_send_data-Sent gdb _ (omega arith))

pub write_general_registers-Sent :
    (o : Order) (unset : Unset) (gdb : Gdb) (text : Bytes)
    → Sent gdb (write_general_registers o unset gdb text)
unfolding write_general_registers
write_general_registers-Sent o unset gdb text =
    Sent-from refl (gdb_send_data-Sent _ _ (omega arith))

pub answer-Sent : (gdb : Gdb) (r : Bool × ArmCore) → Sent gdb (answer gdb r)
answer-Sent gdb (true, arm) = Sent-from refl (gdb_send_data-Sent _ _ (omega arith))
answer-Sent gdb (false, arm) = Sent-from refl (gdb_send_data-Sent _ _ (omega arith))
