-- ===== src/Gdb/Sent.antt =====
-- What is sent: one packet, which fits the array that holds it.
use l3_info_simulateur_arm.Base.{
  ◌+◌, ◌≤◌, ◌≡◌, ◌∙◌, refl, ap, arith, Bool, true, false, if◌then◌else◌, ◌==◌, ◌||◌, [], ◌∷◌,
}
use l3_info_simulateur_arm.Constants.{undefined_instruction, prefetch_abort, data_abort}
use l3_info_simulateur_arm.Text.{Bytes, first, length}
use l3_info_simulateur_arm.Gdb.{
  max_packet_size, Gdb, written, frame, gdb_send_buffer, gdb_send_data, gdb_send_stop_reason,
  gdb_transmit_packet,
}

pub first-length : (xs : Bytes) → first (length xs) xs ≡ xs
first-length [] = refl
first-length (x ∷ xs) = ap (λ ys. x ∷ ys) (first-length xs)

-- One packet was written, of a text that leaves room for `$`, `#`, two digits and the byte 0.
pub record Sent (before after : Gdb) : Type 0 where
  pub text : Bytes
  pub event : after.events ≡ written (frame text) ∷ before.events
  pub room : length text + 5 ≤ max_packet_size

pub gdb_send_buffer-Sent :
    (gdb : Gdb) (text : Bytes)
    → length text + 5 ≤ max_packet_size
    → Sent gdb (gdb_send_buffer gdb text)
unfolding gdb_send_buffer gdb_transmit_packet
gdb_send_buffer-Sent gdb text h = record {
  text = text;
  event = ap (λ xs. written xs ∷ gdb.events) (first-length (frame text));
  room = h;
}

pub events-gdb_send_data :
    (gdb : Gdb) (text : Bytes) → (gdb_send_data gdb text).events ≡ written (frame text) ∷ gdb.events
unfolding gdb_send_data gdb_send_buffer gdb_transmit_packet
events-gdb_send_data gdb text = ap (λ xs. written xs ∷ gdb.events) (first-length (frame text))

pub gdb_send_data-Sent :
    (gdb : Gdb) (text : Bytes)
    → length text + 5 ≤ max_packet_size
    → Sent gdb (gdb_send_data gdb text)
unfolding gdb_send_data
gdb_send_data-Sent gdb text h = gdb_send_buffer-Sent gdb text h

pub Sent-if : (b : Bool) (gdb x y : Gdb) → Sent gdb x → Sent gdb y → Sent gdb (if b then x else y)
Sent-if true gdb x y h k = h
Sent-if false gdb x y h k = k

pub gdb_send_stop_reason-Sent : (gdb : Gdb) → Sent gdb (gdb_send_stop_reason gdb)
unfolding gdb_send_stop_reason
gdb_send_stop_reason-Sent gdb =
    Sent-if (gdb.target_exception == undefined_instruction) gdb _ _
      (gdb_send_data-Sent gdb _ (omega arith))
      (Sent-if (gdb.target_exception == prefetch_abort || gdb.target_exception == data_abort) gdb _
        _ (gdb_send_data-Sent gdb _ (omega arith)) (gdb_send_data-Sent gdb _ (omega arith)))

-- A state with the same events.
pub Sent-from : {a b c : Gdb} → b.events ≡ a.events → Sent b c → Sent a c
Sent-from e h = record {
  text = h.text;
  event = h.event ∙ ap (λ es. written (frame h.text) ∷ es) e;
  room = h.room;
}
