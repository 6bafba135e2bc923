-- ===== src/Gdb/Preserve.antt =====
-- What the analysis of a packet keeps.
use l3_info_simulateur_arm.Base.{
  ℕ, ◌+◌, ◌-◌, Bool, true, false, ◌==◌, if◌then◌else◌, Option, none, some,
}
use l3_info_simulateur_arm.Core.{ArmCore}
use l3_info_simulateur_arm.Core.Keeps.{IsWordCore}
use l3_info_simulateur_arm.LoadStore.Keeps.{IsWordStale}
use l3_info_simulateur_arm.Text.{Bytes, set_byte, drop, byte_in, sscanf_x}
use l3_info_simulateur_arm.Gdb.{Gdb, Run, locked, logged, gdb_send_ack, gdb_require_retransmission}
use l3_info_simulateur_arm.Gdb.Wire.{Order}
use l3_info_simulateur_arm.Gdb.Commands.{Unset, reason, kill_request}
use l3_info_simulateur_arm.Gdb.Keeps.{
  Stays, Stays-refl, runs, StaysResult, gives, gdb_send_data-StaysRun,
  gdb_send_stop_reason-StaysRun, unlock-StaysResult, cont-StaysResult, step-StaysRun,
}
use l3_info_simulateur_arm.Gdb.Packet.{
  check_loop, handler, dispatch, run_handler, gdb_packet_analysis,
}
use l3_info_simulateur_arm.Gdb.Handlers.{
  query-StaysRun, set_thread-StaysRun, write_general_registers-StaysRun,
  read_general_registers-StaysRun, read_memory-StaysRun, read_register-StaysRun,
  write_register-StaysRun, write_memory_binary-StaysRun,
}

-- Every entry of the table of handlers.
data StaysHandler (p : ArmCore) : Option (Gdb → Bytes → Option Run) → Type 0 where
  null : StaysHandler p none
  handles :
      {f : Gdb → Bytes → Option Run}
      → ((gdb : Gdb) (text : Bytes) → Stays p gdb.arm → StaysResult p (f gdb text))
      → StaysHandler p (some f)

StaysHandler-if :
    {p : ArmCore} (b : Bool) {x y : Option (Gdb → Bytes → Option Run)}
    → StaysHandler p x
    → StaysHandler p y
    → StaysHandler p (if b then x else y)
StaysHandler-if true h k = h
StaysHandler-if false h k = k

module _ (o : Order) (unset : Unset) (fits : (n : ℕ) → IsWordStale (unset.step n)) (fuel : ℕ)
    {p : ArmCore} where
  handler-StaysHandler : (index : ℕ) → StaysHandler p (handler o unset fuel index)
  unfolding handler kill_request reason
  handler-StaysHandler index =
      StaysHandler-if (index == b'c') (handles (λ g t h. cont-StaysResult unset fits fuel g h)) (
        StaysHandler-if (index == b'k') (handles (λ g t h. gives (runs h))) (
          StaysHandler-if (index == b'q') (handles (λ g t h. gives (query-StaysRun g t h))) (
            StaysHandler-if (index == b'g')
              (handles (λ g t h. gives (read_general_registers-StaysRun o g h)))
              (StaysHandler-if (index == b'm')
                (handles (λ g t h. gives (read_memory-StaysRun unset g t h)))
                (StaysHandler-if (index == b'p')
                  (handles (λ g t h. gives (read_register-StaysRun o g t h)))
                  (StaysHandler-if (index == b'?')
                    (handles (λ g t h. gives (gdb_send_stop_reason-StaysRun g h)))
                    (StaysHandler-if (index == b'H')
                      (handles (λ g t h. gives (set_thread-StaysRun g t h)))
                      (StaysHandler-if (index == b's')
                        (handles (λ g t h. gives (step-StaysRun unset fits g h)))
                        (StaysHandler-if (index == b'G')
                          (handles
                            (λ g t h. gives (write_general_registers-StaysRun o unset g t h)))
                          (StaysHandler-if (index == b'X')
                            (handles (λ g t h. gives (write_memory_binary-StaysRun unset g t h)))
                            (StaysHandler-if (index == b'P')
                              (handles (λ g t h. gives (write_register-StaysRun o unset g t h)))
                              null)))))))))))

  run_handler-StaysResult :
      (x : Option (Gdb → Bytes → Option Run)) (gdb : Gdb) (packet : Bytes)
      → StaysHandler p x
      → Stays p gdb.arm
      → StaysResult p (run_handler x gdb packet)
  run_handler-StaysResult (some run) gdb packet (handles k) h =
      unlock-StaysResult (k (logged gdb locked) (drop 2 packet) h)
  run_handler-StaysResult none gdb packet k h = gives (gdb_send_data-StaysRun gdb _ h)

  result_if :
      (b : Bool) {x y : Option Run}
      → StaysResult p x
      → StaysResult p y
      → StaysResult p (if b then x else y)
  result_if true h k = h
  result_if false h k = k

  analysis-StaysResult :
      (gdb : Gdb) (packet : Bytes) (length : ℕ)
      → Stays p gdb.arm
      → StaysResult p (gdb_packet_analysis o unset fuel gdb packet length)
  unfolding gdb_packet_analysis dispatch gdb_send_ack gdb_require_retransmission
  analysis-StaysResult gdb packet length h =
      let i = 1 + (length - 4) in
      let check = check_loop (length - 4) 1 packet 0 in
      let given = sscanf_x (drop (i + 1) packet) unset.given in
      let cut = set_byte packet i 0 in
      result_if (check == given)
        (run_handler-StaysResult (handler o unset fuel (byte_in cut 1)) (gdb_send_ack gdb) cut
          (handler-StaysHandler (byte_in cut 1)) h)
        (gives (runs h))

-- Whatever packet arrives, and whichever handler runs on it, the program ends or the processor still
-- has 32-bit words in every cell and a memory of the size and the byte order it had, where its cells
-- held 32-bit words and the variables of a step that a failed read leaves alone hold words.
pub gdb_packet_analysis-StaysResult :
    (o : Order) (unset : Unset) (fuel : ℕ) (gdb : Gdb) (packet : Bytes) (length : ℕ)
    → ((n : ℕ) → IsWordStale (unset.step n))
    → IsWordCore gdb.arm
    → StaysResult gdb.arm (gdb_packet_analysis o unset fuel gdb packet length)
gdb_packet_analysis-StaysResult o unset fuel gdb packet length fits word =
    analysis-StaysResult o unset fits fuel gdb packet length (Stays-refl word)
