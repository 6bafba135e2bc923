-- ===== src/Scanner/Frame.antt =====
-- scanner.l: packets in the form in which gdb_protocol.c sends them.
use mathlib.Core.List.{append_assoc}
use l3_info_simulateur_arm.Base.{
  ℕ, ◌/◌, ◌%◌, ◌≤◌, ◌<◌, ◌≡◌, ◌≢◌, ap, refl, arith, true, some, [], ◌∷◌, ◌++◌, ==_ne,
}
use l3_info_simulateur_arm.Text.{Bytes, length, hex_char, print_byte}
use l3_info_simulateur_arm.Gdb.{Gdb, sum_of, frame, gdb_send_ack}
use l3_info_simulateur_arm.Gdb.Wire.{Order}
use l3_info_simulateur_arm.Gdb.Commands.{Unset}
use l3_info_simulateur_arm.Gdb.Packet.{dispatch}
use l3_info_simulateur_arm.Gdb.Digits.{hex_value-hex_char}
use l3_info_simulateur_arm.Gdb.Check.{sum_of-lt, cut_packet, gdb_packet_analysis-frame}
use l3_info_simulateur_arm.Scanner.{
  packet, is_hex, check_digits, packet_end, next_token, tokens, Parser, handle_error, of_run,
  then_scan, action, yylex,
}
use l3_info_simulateur_arm.Scanner.Tokens.{tokens-enough, length-le-append}

-- No byte of the text is `$` or `#`.
pub data IsPlain : Bytes → Type 0 where
  nil : IsPlain []
  cons : {c : ℕ} {text : Bytes} → c ≢ b'$' → c ≢ b'#' → IsPlain text → IsPlain (c ∷ text)

is_hex-hex_char : (d : ℕ) → d < 16 → is_hex (hex_char d) ≡ true
is_hex-hex_char d h = rw (is_hex, hex_value-hex_char d h) refl

check_digits-print_byte :
    (v : ℕ) (rest : Bytes)
    → v < 256
    → check_digits (print_byte v ++ rest) ≡ some (print_byte v, rest)
unfolding check_digits print_byte
check_digits-print_byte v rest h =
    rw (is_hex-hex_char (v / 16) (omega (arith, h)), is_hex-hex_char (v % 16) (omega arith)) refl

packet_end-print_byte :
    (text rest : Bytes) (v : ℕ)
    → IsPlain text
    → v < 256
    → packet_end (text ++ (b'#' ∷ (print_byte v ++ rest)))
      ≡ some (text ++ (b'#' ∷ print_byte v), rest)
unfolding packet_end
packet_end-print_byte [] rest v nil h = rw (check_digits-print_byte v rest h) refl
packet_end-print_byte (c ∷ text) rest v (cons a b plain) h =
    rw (==_ne c b'$' a, ==_ne c b'#' b, packet_end-print_byte text rest v plain h) refl

next_token-frame :
    (text rest : Bytes)
    → IsPlain text
    → next_token b'$' (text ++ (b'#' ∷ (print_byte (sum_of 0 text) ++ rest)))
      ≡ (packet (frame text), rest)
unfolding next_token frame
next_token-frame text rest plain =
    rw (packet_end-print_byte text rest (sum_of 0 text) plain (sum_of-lt 0 text (omega arith))) refl

frame-append :
    (text rest : Bytes)
    → frame text ++ rest ≡ b'$' ∷ (text ++ (b'#' ∷ (print_byte (sum_of 0 text) ++ rest)))
unfolding frame
frame-append text rest =
    ap (λ xs. b'$' ∷ xs) (append_assoc text (b'#' ∷ print_byte (sum_of 0 text)) rest)

-- The first token is the packet.
tokens-frame :
    (text rest : Bytes)
    → IsPlain text
    → tokens (length (frame text ++ rest)) (frame text ++ rest)
      ≡ packet (frame text) ∷ tokens (length rest) rest
unfolding tokens
tokens-frame text rest plain =
    let behind = b'#' ∷ (print_byte (sum_of 0 text) ++ rest) in
    let long : length rest ≤ length (text ++ behind) = omega (
      arith,
      length-le-append text behind,
      length-le-append (b'#' ∷ print_byte (sum_of 0 text)) rest,
    ) in
    rw (frame-append text rest, next_token-frame text rest plain)
      (ap (λ ts. packet (frame text) ∷ ts)
        (tokens-enough (length (text ++ behind)) (length rest) rest long (omega arith)))

-- The packet that `gdb_send_buffer` makes of a text without `$` and `#`, when it stands at the front of
-- the input of the scanner, is found as one packet: what is pending as an error is handled first, the
-- packet is acknowledged, its handler runs on the text, and the scanner goes on with the input behind it.
pub yylex-frame :
    (o : Order) (unset : Unset) (fuel : ℕ) (behind : Gdb → Bytes) (text rest : Bytes)
    (errors : Parser)
    → IsPlain text
    → yylex o unset fuel behind (tokens (length (frame text ++ rest)) (frame text ++ rest)) errors
      ≡ then_scan (yylex o unset fuel behind (tokens (length rest) rest)) (
          of_run (handle_error errors) (
            dispatch o unset fuel
              (gdb_send_ack (handle_error errors).gdb)
              (cut_packet text (sum_of 0 text) (behind (handle_error errors).gdb))))
unfolding yylex action
yylex-frame o unset fuel behind text rest errors plain =
    rw
      (
        tokens-frame text rest plain,
        gdb_packet_analysis-frame o unset fuel (handle_error errors).gdb text
            (behind (handle_error errors).gdb),
      )
      refl
