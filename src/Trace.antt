-- ===== src/Trace.antt =====
-- trace.c: what is traced, and the stack of source locations.
-- The lines that are printed to the stream `output` are kept in order in `lines`, the last one first, as
-- the values that are printed; ARM_TRACE_FORMAT is not defined. The two arrays of the stack are one
-- function of the index, and the `int` that points to the top is its 32-bit pattern.
pub mod Nesting
use l3_info_simulateur_arm.Base.{
  ℕ, zero, suc, ◌+◌, ◌*◌, ◌/◌, ◌%◌, ◌^◌, ◌-◌, ltb, Bool, true, false, ◌&&◌, ◌==◌, if◌then◌else◌,
  Option, none, some, List, [], ◌∷◌, bit_or,
}
use l3_info_simulateur_arm.Util.{add32, sub32, minus_one, bit_set}
use l3_info_simulateur_arm.Core.{ArmCore}
use l3_info_simulateur_arm.Text.{Bytes}

-- The numbers of the flag bits of trace.h.
abbrev pub memory_flag : ℕ
memory_flag = 0

abbrev pub registers_flag : ℕ
registers_flag = 1

abbrev pub state_flag : ℕ
state_flag = 2

abbrev pub position_flag : ℕ
position_flag = 3

pub record Location : Type 0 where
  pub file : Bytes
  pub line : ℕ

-- A line: the location, where it is printed, and the access.
pub data Access : Type 0 where
  memory_access : ℕ → ℕ → ℕ → ℕ → ℕ → ℕ → ℕ → Access
  register_access : ℕ → ℕ → ℕ → ℕ → ℕ → Access
  arm_state : ArmCore → Access

-- Where the lines go.
pub data Stream : Type 0 where
  null stdout : Stream
  opened : Bytes → Stream

pub record Trace : Type 0 where
  pub output : Stream
  pub last_address : ℕ
  pub enabled : Bool
  pub location_stack : ℕ → Location
  pub location_stack_top : ℕ
  pub trace_flags : ℕ
  pub lines : List (Option Location × Access)

-- The initial values of the static variables; the array holds null pointers.
unfoldable pub trace_init : Trace
trace_init = record {
  output = null;
  last_address = 0x12345678;
  enabled = true;
  location_stack = λ i. record { file = []; line = 0 };
  location_stack_top = minus_one;
  trace_flags = 0;
  lines = [];
}

unfoldable pub set_trace_file : Trace → Stream → Trace
set_trace_file t f = record t { output = f }

-- Entries of each of the two arrays.
abbrev pub max_locations : ℕ
max_locations = 128

-- Nothing where the new top is no index of the arrays, behind their end or before their start.
unfoldable pub trace_start_location : Trace → Bytes → ℕ → Option Trace
trace_start_location t file line =
    let top = add32 t.location_stack_top 1 in
    let here : Location = record { file = file; line = line } in
    if t.enabled
    then if ltb top max_locations
      then some (record t {
        location_stack_top = top;
        location_stack = λ i. if i == top then here else t.location_stack i;
      })
      else none
    else some t

unfoldable pub trace_end_location : Trace → Trace
trace_end_location t =
    if t.enabled then record t { location_stack_top = sub32 t.location_stack_top 1 } else t

-- What `trace_print_location` prints in front of a line.
unfoldable pub trace_print_location : Trace → Option Location
trace_print_location t =
    if t.enabled && bit_set t.trace_flags position_flag && ltb t.location_stack_top (2 ^ 31)
    then some (t.location_stack t.location_stack_top)
    else none

unfoldable pub trace_memory : Trace → ℕ → ℕ → ℕ → ℕ → ℕ → ℕ → Trace
trace_memory t cycle type size cause address value =
    let seq = if address == add32 t.last_address 4 then 1 else 0 in
    if t.enabled && bit_set t.trace_flags memory_flag
    then record t {
      last_address = address;
      lines =
          (trace_print_location t, memory_access cycle seq type size cause address value) ∷ t.lines;
    }
    else t

unfoldable pub trace_register : Trace → ℕ → ℕ → ℕ → ℕ → ℕ → Trace
trace_register t cycle type reg mode value =
    if t.enabled && bit_set t.trace_flags registers_flag
    then record t {
      lines = (trace_print_location t, register_access cycle type reg mode value) ∷ t.lines;
    }
    else t

unfoldable pub trace_arm_state : Trace → ArmCore → Trace
trace_arm_state t p =
    if t.enabled && bit_set t.trace_flags state_flag
    then record t { lines = (none, arm_state p) ∷ t.lines }
    else t

unfoldable pub trace_disable : Trace → Trace
trace_disable t = record t { enabled = false }

unfoldable pub trace_enable : Trace → Trace
trace_enable t = record t { enabled = true }

unfoldable pub trace_add : Trace → ℕ → Trace
trace_add t flags = record t { trace_flags = bit_or t.trace_flags flags }
