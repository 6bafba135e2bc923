-- ===== src/Gdb/Effects.antt =====
-- What a command does to the connection.
use mathlib.Core.Option.{map}
use l3_info_simulateur_arm.Base.{
  ℕ, zero, suc, ◌+◌, ◌≤◌, ◌≡◌, ◌⊎◌, ◌∙◌, inl, inr, refl, ap, arith, Bool, true, false, not, ◌&&◌,
  if◌then◌else◌, ◌==◌, ◌||◌, ltb, Option, none, some, [], ◌∷◌, ==_iff, Bool-cases,
}
use l3_info_simulateur_arm.Core.{arm_read_register}
use l3_info_simulateur_arm.Memory.{memory_get_size}
use l3_info_simulateur_arm.Util.{sub32}
use l3_info_simulateur_arm.Branch.{Outcome, returned, exited}
use l3_info_simulateur_arm.Instruction.{arm_step}
use l3_info_simulateur_arm.Text.{
  Bytes, length, byte_in, drop, sscanf_x, sscanf_x_x, atoi, after_first,
}
use l3_info_simulateur_arm.Gdb.{
  max_packet_size, Gdb, Run, running, ended, aborted, faulted, written, shut, locked, unlocked,
  logged, frame, gdb_send_stop_reason,
}
use l3_info_simulateur_arm.Gdb.Wire.{Order}
use l3_info_simulateur_arm.Gdb.Commands
use l3_info_simulateur_arm.Gdb.Commands.{
  Unset, of_outcome, stepped, next_instruction, is_breakpoint, cont_loop, cont, then_send,
  then_go_on, kill_request, reason, step, where_found, write_memory_binary, write_memory_loop,
}
use l3_info_simulateur_arm.Gdb.Packet.{handler, unlock, run_handler, dispatch}
use l3_info_simulateur_arm.Gdb.Sent.{
  Sent-from, gdb_send_buffer-Sent, gdb_send_data-Sent, events-gdb_send_data,
  gdb_send_stop_reason-Sent,
}
use l3_info_simulateur_arm.Gdb.Answers.{
  Effect, sends, kills, waits, ends, aborts, faults, asked, query-Sent, read_general_registers-Sent,
  read_memory-Effect, set_thread-Sent, write_general_registers-Sent, answer-Sent,
  length-write_uint32,
}

-- A loop of steps sends nothing.
data IsQuiet (gdb : Gdb) : Option Run → Type 0 where
  stopped : {after : Gdb} → after.events ≡ gdb.events → IsQuiet gdb (some (running after))
  endless : IsQuiet gdb none
  gone : IsQuiet gdb (some ended)

IsQuiet-if :
    {gdb : Gdb} (b : Bool) {r s : Option Run}
    → IsQuiet gdb r
    → IsQuiet gdb s
    → IsQuiet gdb (elim b [ true ↦ r | false ↦ s ])
IsQuiet-if true h k = h
IsQuiet-if false h k = k

IsQuiet-from : {a b : Gdb} {r : Option Run} → b.events ≡ a.events → IsQuiet b r → IsQuiet a r
IsQuiet-from e (stopped h) = stopped (h ∙ e)
IsQuiet-from e endless = endless
IsQuiet-from e gone = gone

of_outcome-IsQuiet :
    (gdb : Gdb) (o : Outcome) (f : Gdb → Option Run)
    → ((after : Gdb) → IsQuiet after (f after))
    → IsQuiet gdb (then_go_on f (of_outcome gdb o))
of_outcome-IsQuiet gdb exited f h = gone
of_outcome-IsQuiet gdb (returned code arm) f h = IsQuiet-from refl (h _)

cont_loop-IsQuiet :
    (unset : Unset) (fuel i : ℕ) (gdb : Gdb) → IsQuiet gdb (cont_loop unset fuel i gdb)
unfolding cont_loop stepped
cont_loop-IsQuiet unset zero i gdb = endless
cont_loop-IsQuiet unset (suc fuel) i gdb =
    IsQuiet-if (is_breakpoint (next_instruction i gdb)) (stopped refl) (
      of_outcome-IsQuiet gdb (arm_step (unset.step gdb.arm.cycle_count) gdb.arm)
        (cont_loop unset fuel (next_instruction i gdb))
        (cont_loop-IsQuiet unset fuel (next_instruction i gdb)))

map-Effect :
    {gdb : Gdb} {r : Option Run}
    → IsQuiet gdb r
    → Effect b'c' gdb (map (then_send gdb_send_stop_reason) r)
map-Effect (stopped {after} e) = sends (Sent-from e (gdb_send_stop_reason-Sent after))
map-Effect endless = waits refl
map-Effect gone = ends (inl refl)

cont-Effect : (unset : Unset) (fuel : ℕ) (gdb : Gdb) → Effect b'c' gdb (cont unset fuel gdb)
unfolding cont
cont-Effect unset fuel gdb = map-Effect (cont_loop-IsQuiet unset fuel unset.instruction gdb)

step-Effect : (unset : Unset) (gdb : Gdb) → Effect b's' gdb (some (step unset gdb))
unfolding step stepped
step-Effect unset gdb = of_step (arm_step (unset.step gdb.arm.cycle_count) gdb.arm)
  where
    of_step :
        (o : Outcome) → Effect b's' gdb (some (then_send gdb_send_stop_reason (of_outcome gdb o)))
    of_step exited = ends (inr refl)
    of_step (returned code arm) = sends (Sent-from refl (gdb_send_stop_reason-Sent _))

Effect-if :
    {c : ℕ} {gdb : Gdb} (b : Bool) {r s : Run}
    → Effect c gdb (some r)
    → Effect c gdb (some s)
    → Effect c gdb (some (if b then r else s))
Effect-if true h k = h
Effect-if false h k = k

where_found-Effect :
    {c : ℕ} {gdb : Gdb} {f : Bytes → Run} {r : Run} (found : Option Bytes)
    → ((text : Bytes) → Effect c gdb (some (f text)))
    → Effect c gdb (some r)
    → Effect c gdb (some (where_found found f r))
where_found-Effect (some text) h k = h text
where_found-Effect none h k = k

read_register-Effect :
    (o : Order) (gdb : Gdb) (text : Bytes)
    → Effect b'p' gdb (some (Commands.read_register o gdb text))
unfolding Commands.read_register
read_register-Effect o gdb text =
    let reg = atoi text in
    let value = sub32 (arm_read_register gdb.arm reg) (if reg == 15 then 4 else 0) in
    Effect-if (ltb reg 16)
      (sends (gdb_send_buffer-Sent gdb _ (omega (arith, length-write_uint32 o value))))
      (aborts (inl refl))

write_register-Effect :
    (o : Order) (unset : Unset) (gdb : Gdb) (text : Bytes)
    → Effect b'P' gdb (some (Commands.write_register o unset gdb text))
unfolding Commands.write_register
write_register-Effect o unset gdb text =
    where_found-Effect (after_first b'=' text)
      (λ rest.
        Effect-if (ltb (sscanf_x text unset.reg) 16)
          (sends (Sent-from refl (gdb_send_data-Sent _ _ (omega arith)))) (aborts (inr refl)))
      (faults (inr refl))

write_memory_binary-Effect :
    (unset : Unset) (gdb : Gdb) (text : Bytes)
    → Effect b'X' gdb (some (write_memory_binary unset gdb text))
unfolding write_memory_binary
write_memory_binary-Effect unset gdb text =
    let (address, size) = sscanf_x_x text unset.address unset.size in
    let ok = ltb address (memory_get_size gdb.arm.mem) in
    where_found-Effect (after_first b':' text)
      (λ content. sends (answer-Sent gdb (write_memory_loop size address ok content gdb.arm)))
      (Effect-if (not (size == 0) && ok) (faults (inl refl))
        (sends (answer-Sent gdb (ok, gdb.arm))))

-- The letters that the table of handlers knows.
abbrev pub is_known : ℕ → Bool
is_known c =
    c == b'c'
    || (c == b'k'
        || (c == b'q'
            || (c == b'g'
                || (c == b'm'
                    || (c == b'p'
                        || (c == b'?'
                            || (c == b'H'
                                || (c == b's' || (c == b'G' || (c == b'X' || c == b'P'))))))))))

-- Every entry of the table of handlers, where `m` asks for what fits.
data EffectHandler (unset : Unset) (c : ℕ) : Option (Gdb → Bytes → Option Run) → Type 0 where
  null : is_known c ≡ false → EffectHandler unset c none
  handles :
      {f : Gdb → Bytes → Option Run}
      → ((gdb : Gdb) (text : Bytes)
          → (c ≡ b'm' → asked unset text ≤ 509)
          → Effect c gdb (f gdb text))
      → EffectHandler unset c (some f)

-- The entry of a letter.
EffectHandler-if :
    {unset : Unset} {c : ℕ} (letter : ℕ) {f : Gdb → Bytes → Option Run}
    {y : Option (Gdb → Bytes → Option Run)}
    → ((gdb : Gdb) (text : Bytes)
        → (letter ≡ b'm' → asked unset text ≤ 509)
        → Effect letter gdb (f gdb text))
    → ((c == letter) ≡ false → EffectHandler unset c y)
    → EffectHandler unset c (if c == letter then some f else y)
EffectHandler-if {unset} {c} letter {f} {y} h k = elim (Bool-cases (c == letter)) [
  | inl e ↦ rw e (
      handles (λ gdb text fits.
        rw ((==_iff c letter).0 e) (h gdb text (λ m. fits ((==_iff c letter).0 e ∙ m)))))
  | inr e ↦ rw e (k e)
]

handler-EffectHandler :
    (o : Order) (unset : Unset) (fuel c : ℕ) → EffectHandler unset c (handler o unset fuel c)
unfolding handler reason kill_request
handler-EffectHandler o unset fuel c =
    EffectHandler-if b'c' (λ g t f. cont-Effect unset fuel g)
      (λ e1.
        EffectHandler-if b'k' (λ g t f. kills refl refl)
          (λ e2.
            EffectHandler-if b'q' (λ g t f. sends (query-Sent g t))
              (λ e3.
                EffectHandler-if b'g' (λ g t f. sends (read_general_registers-Sent o g))
                  (λ e4.
                    EffectHandler-if b'm' (λ g t f. read_memory-Effect unset g t (f refl))
                      (λ e5.
                        EffectHandler-if b'p' (λ g t f. read_register-Effect o g t)
                          (λ e6.
                            EffectHandler-if b'?' (λ g t f. sends (gdb_send_stop_reason-Sent g))
                              (λ e7.
                                EffectHandler-if b'H' (λ g t f. sends (set_thread-Sent g t))
                                  (λ e8.
                                    EffectHandler-if b's' (λ g t f. step-Effect unset g)
                                      (λ e9.
                                        EffectHandler-if b'G'
                                          (λ g t f.
                                            sends (write_general_registers-Sent o unset g t))
                                          (λ e10.
                                            EffectHandler-if b'X'
                                              (λ g t f. write_memory_binary-Effect unset g t)
                                              (λ e11.
                                                EffectHandler-if b'P'
                                                  (λ g t f. write_register-Effect o unset g t)
                                                  (λ e12. null (
                                                    rw
                                                      (
                                                        e1, e2, e3, e4, e5, e6, e7, e8, e9, e10,
                                                        e11, e12,
                                                      )
                                                      refl)))))))))))))

-- What is heard of a command: the events that come before those from before, the last one first.
pub data IsAnswer (c : ℕ) (gdb : Gdb) : Option Run → Type 0 where
  replies :
      {after : Gdb} (text : Bytes)
      → after.events ≡ unlocked ∷ written (frame text) ∷ locked ∷ gdb.events
      → length text + 5 ≤ max_packet_size
      → IsAnswer c gdb (some (running after))
  unsupported :
      {after : Gdb}
      → is_known c ≡ false
      → after.events ≡ written (frame []) ∷ gdb.events
      → IsAnswer c gdb (some (running after))
  closes :
      {after : Gdb}
      → c ≡ b'k'
      → after.events ≡ unlocked ∷ shut ∷ locked ∷ gdb.events
      → IsAnswer c gdb (some (running after))
  runs_on : c ≡ b'c' → IsAnswer c gdb none
  exits : (c ≡ b'c') ⊎ (c ≡ b's') → IsAnswer c gdb (some ended)
  fails : (c ≡ b'p') ⊎ (c ≡ b'P') → IsAnswer c gdb (some aborted)
  crashes : (c ≡ b'X') ⊎ (c ≡ b'P') → IsAnswer c gdb (some faulted)

unlock-IsAnswer :
    {c : ℕ} {gdb : Gdb} {r : Option Run}
    → Effect c (logged gdb locked) r
    → IsAnswer c gdb (unlock r)
unlock-IsAnswer (sends h) = replies h.text (ap (λ es. unlocked ∷ es) h.event) h.room
unlock-IsAnswer (kills e h) = closes e (ap (λ es. unlocked ∷ es) h)
unlock-IsAnswer (waits e) = runs_on e
unlock-IsAnswer (ends e) = exits e
unlock-IsAnswer (aborts e) = fails e
unlock-IsAnswer (faults e) = crashes e

run_handler-IsAnswer :
    {unset : Unset} {c : ℕ} {x : Option (Gdb → Bytes → Option Run)} (gdb : Gdb) (packet : Bytes)
    → (c ≡ b'm' → asked unset (drop 2 packet) ≤ 509)
    → EffectHandler unset c x
    → IsAnswer c gdb (run_handler x gdb packet)
run_handler-IsAnswer gdb packet fits (null unknown) =
    unsupported unknown (events-gdb_send_data gdb [])
run_handler-IsAnswer gdb packet fits (handles h) =
    unlock-IsAnswer (h (logged gdb locked) (drop 2 packet) fits)

-- Each command is answered by exactly one packet, well-formed, sent under the lock, and short enough
-- for the array of 1024 bytes with its byte 0, where an `m` asks for at most 509 bytes. Only these
-- are not: an unknown command, whose empty answer is sent without the lock; `k`, which shuts the
-- connection; `c`, which may go on for ever; and the ends of the program, by `exit` in `c` and `s`,
-- by `assert` in `p` and `P`, and by a null pointer in `X` and `P`.
pub dispatch-IsAnswer :
    (o : Order) (unset : Unset) (fuel : ℕ) (gdb : Gdb) (packet : Bytes)
    → (byte_in packet 1 ≡ b'm' → asked unset (drop 2 packet) ≤ 509)
    → IsAnswer (byte_in packet 1) gdb (dispatch o unset fuel gdb packet)
unfolding dispatch
dispatch-IsAnswer o unset fuel gdb packet fits =
    run_handler-IsAnswer gdb packet fits (handler-EffectHandler o unset fuel (byte_in packet 1))
