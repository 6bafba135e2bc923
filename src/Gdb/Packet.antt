-- ===== src/Gdb/Packet.antt =====
-- gdb_protocol.c: the table of handlers, and the check and the dispatch of a packet.
use l3_info_simulateur_arm.Base.{
  ℕ, zero, suc, ◌+◌, ◌-◌, ◌%◌, ◌^◌, ◌==◌, if◌then◌else◌, Option, none, some,
}
use l3_info_simulateur_arm.Text.{Bytes, codes, byte_in, drop, set_byte, sscanf_x}
use l3_info_simulateur_arm.Gdb.{
  Gdb, Run, running, locked, unlocked, logged, gdb_send_ack, gdb_require_retransmission,
  gdb_send_data,
}
use l3_info_simulateur_arm.Gdb.Wire.{Order}
use l3_info_simulateur_arm.Gdb.Commands.{
  Unset, then_send, cont, kill_request, query, read_general_registers, read_memory, read_register,
  reason, set_thread, step, write_general_registers, write_memory_binary, write_register,
}

-- The entries of the table; all others are NULL.
unfoldable pub handler : Order → Unset → ℕ → ℕ → Option (Gdb → Bytes → Option Run)
handler o unset fuel index =
    if index == b'c'
    then some (λ gdb text. cont unset fuel gdb)
    else if index == b'k'
    then some (λ gdb text. some (running (kill_request gdb)))
    else if index == b'q'
    then some (λ gdb text. some (running (query gdb text)))
    else if index == b'g'
    then some (λ gdb text. some (running (read_general_registers o gdb)))
    else if index == b'm'
    then some (λ gdb text. some (read_memory unset gdb text))
    else if index == b'p'
    then some (λ gdb text. some (read_register o gdb text))
    else if index == b'?'
    then some (λ gdb text. some (running (reason gdb)))
    else if index == b'H'
    then some (λ gdb text. some (running (set_thread gdb text)))
    else if index == b's'
    then some (λ gdb text. some (step unset gdb))
    else if index == b'G'
    then some (λ gdb text. some (running (write_general_registers o unset gdb text)))
    else if index == b'X'
    then some (λ gdb text. some (write_memory_binary unset gdb text))
    else if index == b'P'
    then some (λ gdb text. some (write_register o unset gdb text))
    else none

-- The sum of `left` bytes from index `i` on.
unfoldable pub check_loop : ℕ → ℕ → Bytes → ℕ → ℕ
check_loop zero i packet check = check
check_loop (suc left) i packet check =
    check_loop left (i + 1) packet ((check + byte_in packet i) % 2 ^ 8)

abbrev pub unlock : Option Run → Option Run
unlock none = none
unlock (some r) = some (then_send (λ gdb. logged gdb unlocked) r)

-- The second half: the handler runs under the lock.
abbrev pub run_handler : Option (Gdb → Bytes → Option Run) → Gdb → Bytes → Option Run
run_handler (some run) gdb packet = unlock (run (logged gdb locked) (drop 2 packet))
run_handler none gdb packet = some (running (gdb_send_data gdb (codes "")))

unfoldable pub dispatch : Order → Unset → ℕ → Gdb → Bytes → Option Run
dispatch o unset fuel gdb packet = run_handler (handler o unset fuel (byte_in packet 1)) gdb packet

-- `packet` has the `length` bytes of the packet and what stands behind them. Nothing is the result
-- where `fuel` rounds do not end `cont`.
unfoldable pub gdb_packet_analysis : Order → Unset → ℕ → Gdb → Bytes → ℕ → Option Run
gdb_packet_analysis o unset fuel gdb packet length =
    let i = 1 + (length - 4) in
    let check = check_loop (length - 4) 1 packet 0 in
    let given = sscanf_x (drop (i + 1) packet) unset.given in
    if check == given
    then dispatch o unset fuel (gdb_send_ack gdb) (set_byte packet i 0)
    else some (running (gdb_require_retransmission gdb))
