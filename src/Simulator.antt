-- ===== src/Simulator.antt =====
-- arm_simulator.c: the options, and the processor that the two listeners share.
-- `getopt_long` gives the options in order, each with its letter and its argument. The listeners run
-- in two threads. `arm_exception` of one and the handler of a packet of the other hold one lock, and
-- what the scanner does outside of it touches no state of the processor, so that their steps come one
-- behind the other. A processor that takes an interrupt before gdb connects is the one with which
-- `gdb_init_data` starts, which only stores the pointer. Ports, threads and sockets are not kept.
pub mod Options
pub mod Files
pub mod Reach
use l3_info_simulateur_arm.Base.{
  ℕ, ◌%◌, ◌^◌, Bool, true, false, ◌==◌, if◌then◌else◌, Option, none, some, List, [], ◌∷◌, ◌<◌, ◌≡◌,
}
use l3_info_simulateur_arm.Memory.{memory_create}
use l3_info_simulateur_arm.Core.{ArmCore}
use l3_info_simulateur_arm.Exception.{arm_exception, arm_create}
use l3_info_simulateur_arm.Text.{Bytes, atoi}
use l3_info_simulateur_arm.Trace.{
  Trace, Stream, stdout, opened, set_trace_file, trace_init, trace_add, memory_flag, registers_flag,
  state_flag, position_flag,
}
use l3_info_simulateur_arm.Debug.{DebuggedFiles, no_files, add_debug_to}
use l3_info_simulateur_arm.Gdb.{Gdb, gdb_init_data}
use l3_info_simulateur_arm.Gdb.Wire.{Order}
use l3_info_simulateur_arm.Gdb.Commands.{Unset, with_arm}
use l3_info_simulateur_arm.Scanner.{Parser, Token, Scanned, scanned, action}

-- The variables that the options set.
pub record Settings : Type 0 where
  pub gdb_port : ℕ
  pub irq_port : ℕ
  pub trace_file : Stream
  pub trace : Trace
  pub debugged : DebuggedFiles

unfoldable pub default_settings : Settings
default_settings = record {
  gdb_port = 0;
  irq_port = 0;
  trace_file = stdout;
  trace = trace_init;
  debugged = no_files;
}

pub data Chosen : Type 0 where
  chosen : Settings → Chosen
  exits : ℕ → Chosen

abbrev adding : Settings → ℕ → Chosen
adding s flag = chosen (record s { trace = trace_add s.trace (2 ^ flag) })

-- The `switch`; `opens` says whether `fopen` opens a file for writing. A port is an `in_port_t` of 16
-- bits.
unfoldable pub set_option : (Bytes → Bool) → Settings → ℕ → Bytes → Chosen
set_option opens s opt optarg =
    if opt == b'g'
    then chosen (record s { gdb_port = atoi optarg % 2 ^ 16 })
    else if opt == b'i'
    then chosen (record s { irq_port = atoi optarg % 2 ^ 16 })
    else if opt == b'h'
    then exits 0
    else if opt == b't'
    then (if opens optarg then chosen (record s { trace_file = opened optarg }) else exits 1)
    else if opt == b'r'
    then adding s registers_flag
    else if opt == b'm'
    then adding s memory_flag
    else if opt == b's'
    then adding s state_flag
    else if opt == b'p'
    then adding s position_flag
    else if opt == b'd'
    then chosen (record s { debugged = add_debug_to s.debugged optarg })
    else exits 1

abbrev pub then_choose : (Settings → Chosen) → Chosen → Chosen
then_choose f (chosen s) = f s
then_choose f (exits code) = exits code

unfoldable pub set_options : (Bytes → Bool) → List (ℕ × Bytes) → Settings → Chosen
set_options opens [] s = chosen s
set_options opens ((opt, optarg) ∷ more) s =
    then_choose (set_options opens more) (set_option opens s opt optarg)

-- The trace with which the simulation starts.
unfoldable pub started_trace : Settings → Trace
started_trace s = set_trace_file s.trace s.trace_file

-- What the listeners start from; `big` says that BIG_ENDIAN_SIMULATOR is defined.
unfoldable pub start_parser : Bool → (ℕ → ℕ) → (ℕ → ℕ) → Bytes → Parser
start_parser big initial buffer packet =
    let arm = arm_create (memory_create 0x20000 big initial) in
    record { gdb = gdb_init_data arm packet; buffer = buffer; len = 0 }

-- The body of the inner loop of `irq_listener`.
abbrev pub interrupted : Parser → ℕ → Parser
interrupted s irq = record s { gdb = with_arm s.gdb (arm_exception s.gdb.arm irq) }

-- A step of one of the threads.
pub data Step (o : Order) (unset : Unset) (behind : Gdb → Bytes) : Parser → Parser → Type 0 where
  from_gdb :
      {s q : Parser} (fuel : ℕ) (t : Token)
      → action o unset fuel behind t s ≡ some (scanned q)
      → Step o unset behind s q
  from_irq : {s : Parser} (irq : ℕ) → irq < 2 ^ 8 → Step o unset behind s (interrupted s irq)

pub data Reaches (o : Order) (unset : Unset) (behind : Gdb → Bytes) (s : Parser)
    : Parser → Type 0 where
  at_start : Reaches o unset behind s s
  then_step :
      {q r : Parser}
      → Reaches o unset behind s q
      → Step o unset behind q r
      → Reaches o unset behind s r
