-- ===== src/Gdb/Check.antt =====
-- The checksum of a packet.
use mathlib.Core.List.{append_assoc}
use l3_info_simulateur_arm.Base.{
  ℕ, zero, suc, ◌+◌, ◌-◌, ◌%◌, ◌^◌, ◌<◌, ◌≡◌, ◌∙◌, ap, refl, arith, ◌==◌, if◌then◌else◌, true,
  ==_self, some, [], ◌∷◌, ◌++◌,
}
use l3_info_simulateur_arm.Text.{
  Bytes, length, length-append, byte_in, drop, set_byte, print_byte, sscanf_x,
}
use l3_info_simulateur_arm.Gdb.{
  Gdb, running, gdb_send_ack, gdb_require_retransmission, sum_of, frame,
}
use l3_info_simulateur_arm.Gdb.Wire.{Order}
use l3_info_simulateur_arm.Gdb.Commands.{Unset}
use l3_info_simulateur_arm.Gdb.Packet.{check_loop, dispatch, gdb_packet_analysis}
use l3_info_simulateur_arm.Gdb.Digits.{sscanf_x-print_byte}

byte_in-drop : (i : ℕ) (xs : Bytes) → byte_in xs i ≡ byte_in (drop i xs) 0
byte_in-drop zero xs = refl
byte_in-drop (suc i) [] = refl
byte_in-drop (suc i) (x ∷ xs) = byte_in-drop i xs

drop-suc : (i : ℕ) (xs : Bytes) → drop (suc i) xs ≡ drop 1 (drop i xs)
drop-suc zero xs = refl
drop-suc (suc i) [] = refl
drop-suc (suc i) (x ∷ xs) = drop-suc i xs

drop-append : (xs ys : Bytes) (y : ℕ) → drop (suc (length xs)) (xs ++ (y ∷ ys)) ≡ ys
drop-append [] ys y = refl
drop-append (x ∷ xs) ys y = drop-append xs ys y

set_byte-append :
    (xs ys : Bytes) (y v : ℕ) → set_byte (xs ++ (y ∷ ys)) (length xs) v ≡ xs ++ (v ∷ ys)
set_byte-append [] ys y v = refl
set_byte-append (x ∷ xs) ys y v = ap (λ zs. x ∷ zs) (set_byte-append xs ys y v)

check_loop-sum_of :
    (text behind packet : Bytes) (i check : ℕ)
    → drop i packet ≡ text ++ behind
    → check_loop (length text) i packet check ≡ sum_of check text
unfolding check_loop sum_of
check_loop-sum_of [] behind packet i check e = refl
check_loop-sum_of (c ∷ text) behind packet i check e =
    let here : byte_in packet i ≡ c = byte_in-drop i packet ∙ ap (λ xs. byte_in xs 0) e in
    let one : i + 1 ≡ suc i = omega arith in
    let next : drop (i + 1) packet ≡ text ++ behind =
      ap (λ n. drop n packet) one ∙ drop-suc i packet ∙ ap (drop 1) e in
    ap (λ b. check_loop (length text) (i + 1) packet ((check + b) % 2 ^ 8)) here
    ∙ check_loop-sum_of text behind packet (i + 1) ((check + c) % 2 ^ 8) next

-- A text between `$` and `#`, the digits of a checksum, a byte 0 and what follows.
abbrev pub packet_of : Bytes → ℕ → Bytes → Bytes
packet_of text v rest = b'$' ∷ (text ++ (b'#' ∷ (print_byte v ++ (0 ∷ rest))))

-- The same with the byte 0 that the analysis puts in the place of `#`.
abbrev pub cut_packet : Bytes → ℕ → Bytes → Bytes
cut_packet text v rest = b'$' ∷ (text ++ (0 ∷ (print_byte v ++ (0 ∷ rest))))

-- A packet whose two digits, in lower case as `gdb_send_buffer` prints them, spell a checksum below
-- 256 is acknowledged and handed to its handler,
-- cut at `#`, exactly where the checksum is the sum of the bytes of its text modulo 256. Any other
-- checksum gives a request for retransmission, and nothing else changes.
pub gdb_packet_analysis_lem :
    (o : Order) (unset : Unset) (fuel : ℕ) (gdb : Gdb) (text rest : Bytes) (v : ℕ)
    → v < 256
    → gdb_packet_analysis o unset fuel gdb (packet_of text v rest) (length text + 4) ≡ (
        if sum_of 0 text == v
        then dispatch o unset fuel (gdb_send_ack gdb) (cut_packet text v rest)
        else some (running (gdb_require_retransmission gdb)))
unfolding gdb_packet_analysis
gdb_packet_analysis_lem o unset fuel gdb text rest v h =
    let behind = b'#' ∷ (print_byte v ++ (0 ∷ rest)) in
    let packet = packet_of text v rest in
    let short : length text + 4 - 4 ≡ length text = omega arith in
    let index : 1 + (length text + 4 - 4) ≡ suc (length text) = omega arith in
    let after : 1 + (length text + 4 - 4) + 1 ≡ suc (suc (length text)) = omega arith in
    let sum : check_loop (length text + 4 - 4) 1 packet 0 ≡ sum_of 0 text =
      ap (λ n. check_loop n 1 packet 0) short ∙ check_loop-sum_of text behind packet 1 0 refl in
    let given : sscanf_x (drop (1 + (length text + 4 - 4) + 1) packet) unset.given ≡ v =
      ap (λ n. sscanf_x (drop n packet) unset.given) after
      ∙ ap (λ xs. sscanf_x xs unset.given) (drop-append text (print_byte v ++ (0 ∷ rest)) b'#')
      ∙ sscanf_x-print_byte v unset.given rest h in
    let cut : set_byte packet (1 + (length text + 4 - 4)) 0 ≡ cut_packet text v rest =
      ap (λ n. set_byte packet n 0) index
      ∙ ap (λ xs. b'$' ∷ xs) (set_byte-append text (print_byte v ++ (0 ∷ rest)) b'#' 0) in
    rw (sum, given, cut) refl

pub frame_lem : (text rest : Bytes) → frame text ++ (0 ∷ rest) ≡ packet_of text (sum_of 0 text) rest
unfolding frame
frame_lem text rest =
    ap (λ xs. b'$' ∷ xs) (append_assoc text (b'#' ∷ print_byte (sum_of 0 text)) (0 ∷ rest))

pub length-frame : (text : Bytes) → length (frame text) ≡ length text + 4
unfolding frame print_byte
length-frame text = omega (arith, length-append text (b'#' ∷ print_byte (sum_of 0 text)))

pub sum_of-lt : (check : ℕ) (text : Bytes) → check < 256 → sum_of check text < 256
unfolding sum_of
sum_of-lt check [] h = h
sum_of-lt check (c ∷ text) h = sum_of-lt ((check + c) % 2 ^ 8) text (omega arith)

-- The packet that `gdb_send_buffer` makes of a text passes the check of `gdb_packet_analysis`: it is
-- acknowledged, and its handler runs on the text.
pub gdb_packet_analysis-frame :
    (o : Order) (unset : Unset) (fuel : ℕ) (gdb : Gdb) (text rest : Bytes)
    → gdb_packet_analysis o unset fuel gdb (frame text ++ (0 ∷ rest)) (length (frame text))
      ≡ dispatch o unset fuel (gdb_send_ack gdb) (cut_packet text (sum_of 0 text) rest)
gdb_packet_analysis-frame o unset fuel gdb text rest =
    let same : (sum_of 0 text == sum_of 0 text) ≡ true = ==_self (sum_of 0 text) in
    rw (frame_lem text rest, length-frame text)
      (gdb_packet_analysis_lem o unset fuel gdb text rest (sum_of 0 text)
          (sum_of-lt 0 text (omega arith))
        ∙ rw same refl)
