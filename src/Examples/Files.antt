-- ===== src/Examples/Files.antt =====
-- The names of debugged files, the trace and the options at concrete values.
use l3_info_simulateur_arm.Base.{
  some, ℕ, zero, suc, ◌^◌, ◌≡◌, ◌↔◌, refl, arith, true, ◌==◌, if◌then◌else◌, List, [], ◌∷◌,
}
use l3_info_simulateur_arm.Util.{bit_set}
use l3_info_simulateur_arm.Text.{Bytes, codes}
use l3_info_simulateur_arm.Debug.{DebuggedFiles, no_files, strcmp, is_debugged, add_debug_to}
use l3_info_simulateur_arm.Debug.Search.{IsSorted, Holds, is_debugged_iff}
use l3_info_simulateur_arm.Trace.{
  Trace, Location, trace_init, trace_start_location, trace_end_location, trace_memory, trace_add,
  memory_flag, registers_flag,
}
use l3_info_simulateur_arm.Trace.Nesting.{nothing, memory, call, IsSame, Nested-IsSame}
use l3_info_simulateur_arm.Simulator.{Settings, default_settings, chosen, set_options, set_option}
use l3_info_simulateur_arm.Debug.Files.{IsAmong, count}
use l3_info_simulateur_arm.Simulator.Files.{names_of, set_options-is_debugged}
use l3_info_simulateur_arm.Simulator.Options.{trace_memory_accesses, set_options-bit_set}

abbrev two_names : DebuggedFiles
two_names = record { files = λ i. if i == 0 then codes "memory.c" else codes "trace.c"; number = 2 }

two_names-IsSorted : IsSorted two_names
unfolding strcmp
two_names-IsSorted zero zero h l = absurd (omega arith)
two_names-IsSorted zero (suc zero) h l = cc
two_names-IsSorted zero (suc (suc j)) h l = absurd (omega arith)
two_names-IsSorted (suc i) j h l = absurd (omega arith)

is_debugged_iff_example :
    (is_debugged two_names (codes "trace.c") ≡ true) ↔ Holds two_names (codes "trace.c")
is_debugged_iff_example = is_debugged_iff two_names (codes "trace.c") two_names-IsSorted

abbrev tracing : Trace
tracing = record trace_init { trace_flags = 2 ^ memory_flag; location_stack_top = 0 }

abbrev here : Location
here = record { file = codes "a.c"; line = 5 }

abbrev inside : Trace
inside = record tracing {
  location_stack_top = 1;
  location_stack = λ i. if i == 1 then here else tracing.location_stack i;
}

tracing_inside : trace_start_location tracing (codes "a.c") 5 ≡ some inside
unfolding trace_start_location trace_init
tracing_inside = refl

Nested-IsSame_example : IsSame tracing (trace_end_location (trace_memory inside 1 0 4 0 64 7))
Nested-IsSame_example =
    Nested-IsSame (omega arith)
      (call (codes "a.c") 5 nothing tracing_inside (memory 1 0 4 0 64 7 nothing))

abbrev given_options : List (ℕ × Bytes)
given_options = (b'r', []) ∷ (b'd', codes "memory.c") ∷ (b'm', []) ∷ []

abbrev turned_on : Settings
turned_on = record default_settings {
  trace = trace_add (trace_add trace_init (2 ^ registers_flag)) (2 ^ memory_flag);
  debugged = add_debug_to no_files (codes "memory.c");
}

options_are_set : set_options (λ file. true) given_options default_settings ≡ chosen turned_on
unfolding set_options set_option default_settings
options_are_set = refl

set_options-bit_set_example : bit_set turned_on.trace.trace_flags memory_flag ≡ true
set_options-bit_set_example =
    set_options-bit_set (λ file. true) given_options turned_on trace_memory_accesses options_are_set

set_options-is_debugged_example :
    (is_debugged turned_on.debugged (codes "trace.c") ≡ true)
    ↔ IsAmong (codes "trace.c") (names_of given_options)
unfolding names_of count
set_options-is_debugged_example =
    set_options-is_debugged (λ file. true) given_options turned_on (codes "trace.c") options_are_set
      (omega arith)
