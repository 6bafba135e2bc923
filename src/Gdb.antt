-- ===== src/Gdb.antt =====
-- gdb_protocol.c: the server side of the remote protocol of gdb.
-- `gdb->mem` is the memory of `gdb->arm`: arm_simulator.c makes one memory and gives it to both. The
-- calls that leave the program, of csapp.c, of sockets and of the lock, are kept in order in
-- `events`, the last one first. The texts that go through `gdb->buffer`, which is `packet + 1`, are
-- arguments of `gdb_send_buffer`. Only `read_memory` can write behind the array `packet`; it tests the bound, and the other texts are
-- short enough. The
-- calls of `debug` print only.
pub mod Wire
pub mod Commands
pub mod Packet
pub mod Digits
pub mod Check
pub mod Loop
pub mod Keeps
pub mod Handlers
pub mod Preserve
pub mod Transfer
pub mod Sent
pub mod Answers
pub mod Effects
pub mod Snapshot
pub mod Readback
use l3_info_simulateur_arm.Base.{ℕ, ◌+◌, ◌%◌, ◌^◌, List, [], ◌∷◌, ◌++◌, ◌||◌, ◌==◌, if◌then◌else◌}
use l3_info_simulateur_arm.Constants.{undefined_instruction, prefetch_abort, data_abort}
use l3_info_simulateur_arm.Core.{ArmCore}
use l3_info_simulateur_arm.Text.{Bytes, codes, first, length, print_byte}

-- The size of the array, MAX_PACKET_SIZE.
abbrev pub max_packet_size : ℕ
max_packet_size = 1024

pub data Event : Type 0 where
  written : Bytes → Event
  shut locked unlocked : Event

pub record Gdb : Type 0 where
  pub arm : ArmCore
  pub target_exception : ℕ
  pub packet : Bytes
  pub len : ℕ
  pub events : List Event

-- A handler gives the new state, or ends the program: `exit(0)`, a failed `assert`, or, in `faulted`, a
-- run that C leaves undefined: a read through a null pointer, or a write behind the array `packet`.
pub data Run : Type 0 where
  running : Gdb → Run
  ended aborted faulted : Run

abbrev pub logged : Gdb → Event → Gdb
logged gdb e = record gdb { events = e ∷ gdb.events }

unfoldable pub gdb_init_data : ArmCore → Bytes → Gdb
gdb_init_data arm packet = record {
  arm = arm;
  target_exception = 0;
  packet = packet;
  len = 0;
  events = [];
}

unfoldable pub gdb_transmit_packet : Gdb → Gdb
gdb_transmit_packet gdb = logged gdb (written (first gdb.len gdb.packet))

unfoldable pub gdb_require_retransmission : Gdb → Gdb
gdb_require_retransmission gdb = logged gdb (written (codes "-"))

unfoldable pub gdb_send_ack : Gdb → Gdb
gdb_send_ack gdb = logged gdb (written (codes "+"))

-- The `unsigned char` sum of a text behind `check`.
unfoldable pub sum_of : ℕ → Bytes → ℕ
sum_of check [] = check
sum_of check (c ∷ text) = sum_of ((check + c) % 2 ^ 8) text

-- The packet of a text without a byte 0.
unfoldable pub frame : Bytes → Bytes
frame text = (b'$' ∷ text) ++ (b'#' ∷ print_byte (sum_of 0 text))

-- `text` is what stands in `gdb->buffer`.
unfoldable pub gdb_send_buffer : Gdb → Bytes → Gdb
gdb_send_buffer gdb text =
    gdb_transmit_packet (record gdb { packet = frame text; len = length (frame text) })

unfoldable pub gdb_send_data : Gdb → Bytes → Gdb
gdb_send_data gdb text = gdb_send_buffer gdb text

unfoldable pub gdb_send_stop_reason : Gdb → Gdb
gdb_send_stop_reason gdb =
    let e = gdb.target_exception in
    if e == undefined_instruction
    then gdb_send_data gdb (codes "S04")
    else if e == prefetch_abort || e == data_abort
    then gdb_send_data gdb (codes "S10")
    else gdb_send_data gdb (codes "S05")
