-- ===== src/Examples/Protocol.antt =====
-- Packets of gdb at a processor whose next instruction is a breakpoint.
use l3_info_simulateur_arm.Base.{
  leb, ◌↔◌, ℕ, zero, suc, ◌%◌, ◌^◌, ◌<◌, ◌≤◌, ◌≡◌, refl, arith, true, false, some, [], ◌∷◌, ◌++◌,
  ◌==◌, if◌then◌else◌,
}
use l3_info_simulateur_arm.Constants.{interrupt}
use l3_info_simulateur_arm.Registers.{read_register, get_register, cell_of, get_mode, read_cpsr}
use l3_info_simulateur_arm.Util.{get_bits}
use l3_info_simulateur_arm.Core.{ArmCore, arm_read_cpsr}
use l3_info_simulateur_arm.LoadStore.Keeps.{IsWordStale}
use l3_info_simulateur_arm.Text.{
  Bytes, codes, byte_in, drop, sscanf_x_x, scan_hex, scan_sign, scan_prefix, scan_digits, hex_value,
  hex_digits, skip_spaces, scan_second, sscanf_x, print_byte,
}
use l3_info_simulateur_arm.Gdb.{
  faulted, Gdb, running, gdb_init_data, gdb_send_ack, gdb_require_retransmission, gdb_send_buffer,
  sum_of, frame,
}
use l3_info_simulateur_arm.Gdb.Wire.{Order, read_uint32, write_uint32}
use l3_info_simulateur_arm.Gdb.Commands.{
  Unset, general_text, write_general_registers, read_memory, write_memory_loop,
}
use l3_info_simulateur_arm.Gdb.Packet.{dispatch, gdb_packet_analysis}
use l3_info_simulateur_arm.Gdb.Digits.{read_uint32-write_uint32}
use l3_info_simulateur_arm.Gdb.Check.{packet_of, cut_packet, gdb_packet_analysis_lem}
use l3_info_simulateur_arm.Gdb.Answers.{asked}
use l3_info_simulateur_arm.Gdb.Effects.{IsAnswer, dispatch-IsAnswer}
use l3_info_simulateur_arm.Gdb.Snapshot.{write_general_registers-general_text}
use l3_info_simulateur_arm.Gdb.Transfer.{
  memory_text, escape, Writes, read_memory_lem, write_memory_loop-escape,
}
use l3_info_simulateur_arm.Scanner.{
  Parser, any, handle_error, add_character_to_error, of_run, then_scan, tokens, yylex, action,
  next_token, packet,
}
use l3_info_simulateur_arm.Scanner.Packets.{IsPacket, next_token_iff}
use l3_info_simulateur_arm.Scanner.Frame.{nil, cons, yylex-frame}
use l3_info_simulateur_arm.Simulator.{
  start_parser, interrupted, from_gdb, from_irq, Reaches, at_start, then_step,
}
use l3_info_simulateur_arm.Simulator.Reach.{IsSound, Reaches-start_parser}
use l3_info_simulateur_arm.Examples.{
  machine, stale, register_file-IsMode, little, little-IsWordMemory, machine-IsWordCore,
  stale-IsWordStale,
}

abbrev pub order : Order
order = record { target = false; host = false }

abbrev pub unset : Unset
unset = record {
  step = λ n. stale;
  instruction = 1;
  address = 2;
  size = 3;
  reg = 4;
  value = 5;
  given = 6;
}

-- An undefined instruction of gdb at address 60, where the program counter stands.
abbrev pub stopping : ArmCore
stopping = record machine { mem = record little { words = λ i. if i == 15 then 0xE7F000F0 else 0 } }

abbrev server : Gdb
server = gdb_init_data stopping []

fits : (n : ℕ) → IsWordStale (unset.step n)
fits n = stale-IsWordStale

read_uint32-write_uint32_example :
    read_uint32 order 7 (write_uint32 order 0x12345678 ++ codes "xy") ≡ 0x12345678
read_uint32-write_uint32_example =
    read_uint32-write_uint32 order 7 0x12345678 (codes "xy") (omega arith)

gdb_packet_analysis_example :
    gdb_packet_analysis order unset 9 server (packet_of (codes "m0,4") 0 []) 8
    ≡ some (running (gdb_require_retransmission server))
unfolding sum_of
gdb_packet_analysis_example =
    gdb_packet_analysis_lem order unset 9 server (codes "m0,4") [] 0 (omega arith)

read_memory_example : read_memory unset (gdb_init_data machine []) (codes "3c,8") ≡ (
    if leb 4 509
    then running (gdb_send_buffer (gdb_init_data machine []) (memory_text little 60 4))
    else faulted)
unfolding gdb_init_data sscanf_x_x scan_hex scan_sign scan_prefix scan_digits hex_value hex_digits
    skip_spaces scan_second sscanf_x
read_memory_example =
    read_memory_lem unset (gdb_init_data machine []) (codes "3c,8") 60 8 refl (omega arith)

pub two_bytes-lt : (i : ℕ) → byte_in (0x7D ∷ 0x11 ∷ []) i < 256
two_bytes-lt zero = omega arith
two_bytes-lt (suc zero) = omega arith
two_bytes-lt (suc (suc i)) = omega arith

write_memory_loop-escape_example :
    Writes machine 8
      (0x7D ∷ 0x11 ∷ [])
      9
      (write_memory_loop 2 8 true (escape (λ c. c == 0x11) (0x7D ∷ 0x11 ∷ []) ++ codes "#") machine)
write_memory_loop-escape_example =
    write_memory_loop-escape (λ c. c == 0x11) (0x7D ∷ 0x11 ∷ []) (codes "#") 8 9 machine
      little-IsWordMemory (omega arith) (λ i. two_bytes-lt i) (omega arith)

-- An `s` packet behind `$`, with a digit in upper case, and a second packet.
next_token_iff_example :
    ((text rest : Bytes)
      → (next_token b'$' (codes "s#7A$s#73") ≡ (packet (b'$' ∷ text), rest))
        ↔ IsPacket (codes "s#7A$s#73") text rest)
    × (((text rest : Bytes) → ¬ IsPacket (codes "s#7A$s#73") text rest)
        → next_token b'$' (codes "s#7A$s#73") ≡ (any b'$', codes "s#7A$s#73"))
next_token_iff_example = next_token_iff (codes "s#7A$s#73")

abbrev errors : Parser
errors = record { gdb = server; buffer = λ i. 0; len = 3 }

yylex-frame_example :
    yylex order unset 9 (λ gdb. []) (tokens 6 (frame (codes "?") ++ codes "+")) errors
    ≡ then_scan (yylex order unset 9 (λ gdb. []) (tokens 1 (codes "+"))) (
        of_run (handle_error errors) (
          dispatch order unset 9
            (gdb_send_ack (handle_error errors).gdb)
            (cut_packet (codes "?") 63 [])))
unfolding frame sum_of print_byte
yylex-frame_example =
    yylex-frame order unset 9 (λ gdb. []) (codes "?") (codes "+") errors
      (cons (λ e. omega arith) (λ e. omega arith) nil)

abbrev start : Parser
start = start_parser false (λ i. i % 2 ^ 32) (λ i. 0) []

two_steps :
    Reaches order unset (λ gdb. []) start (add_character_to_error (interrupted start interrupt) 88)
unfolding action
two_steps =
    then_step (then_step at_start (from_irq interrupt (omega arith))) (from_gdb 0 (any 88) refl)

Reaches-start_parser_example :
    IsSound false (add_character_to_error (interrupted start interrupt) 88)
Reaches-start_parser_example =
    Reaches-start_parser order unset (λ gdb. []) false (λ i. i % 2 ^ 32) (λ i. 0) [] _ fits
      (λ i. omega arith) two_steps

answers_below : byte_in (codes "$m0,4") 1 ≡ b'm' → asked unset (drop 2 (codes "$m0,4")) ≤ 509
unfolding sscanf_x_x scan_hex scan_sign scan_prefix scan_digits hex_value hex_digits skip_spaces
    scan_second sscanf_x
answers_below e = omega arith

dispatch-IsAnswer_example :
    IsAnswer (byte_in (codes "$m0,4") 1) server (dispatch order unset 9 server (codes "$m0,4"))
dispatch-IsAnswer_example = dispatch-IsAnswer order unset 9 server (codes "$m0,4") answers_below

machine_aligned : read_register machine.reg 15 % 4 ≡ 0
unfolding read_register get_register cell_of get_mode read_cpsr get_bits
machine_aligned = refl

write_general_registers-general_text_example :
    let q = (write_general_registers order unset server (general_text order machine)).arm in
    (read_register q.reg 13 ≡ read_register machine.reg 13)
    × (arm_read_cpsr q ≡ arm_read_cpsr machine)
unfolding gdb_init_data
write_general_registers-general_text_example =
    write_general_registers-general_text order machine unset server 13 machine-IsWordCore
      register_file-IsMode refl machine_aligned (omega arith)
