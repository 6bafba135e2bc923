-- ===== src/Scanner.antt =====
-- scanner.l: the rules that cut the input of gdb into packets, and `gdb_scanner`.
-- The rules have no start conditions, so that the tokens do not depend on the actions: `tokens` is
-- what flex finds in the whole input, by the longest match, and `yylex` runs the actions. `yytext`
-- is a packet, a byte 0, and what stands in the buffer of flex behind it, which is the argument
-- `behind`. Newlines outside packets are copied to the standard output, which is not kept.
pub mod Tokens
pub mod Frame
pub mod Packets
use l3_info_simulateur_arm.Base.{
  ℕ, zero, suc, ◌+◌, ◌-◌, Bool, true, false, ◌&&◌, ltb, ◌==◌, if◌then◌else◌, Option, none, some,
  List, [], ◌∷◌, ◌++◌, update,
}
use l3_info_simulateur_arm.Core.{ArmCore}
use l3_info_simulateur_arm.Text.{Bytes, length, hex_value}
use l3_info_simulateur_arm.Gdb.{
  Gdb, Run, running, ended, aborted, faulted, gdb_init_data, gdb_transmit_packet,
  gdb_require_retransmission,
}
use l3_info_simulateur_arm.Gdb.Wire.{Order}
use l3_info_simulateur_arm.Gdb.Commands.{Unset}
use l3_info_simulateur_arm.Gdb.Packet.{gdb_packet_analysis}

-- One constructor for each rule, and `echoed` for the default rule.
pub data Token : Type 0 where
  ack request echoed : Token
  packet : Bytes → Token
  any : ℕ → Token

abbrev pub is_hex : ℕ → Bool
is_hex c = elim (hex_value c) [ none ↦ false | some d ↦ true ]

abbrev pub keeping : ℕ → Option (Bytes × Bytes) → Option (Bytes × Bytes)
keeping c none = none
keeping c (some (text, rest)) = some (c ∷ text, rest)

-- `{HEX}{HEX}`: the text that matches and what is left.
unfoldable pub check_digits : Bytes → Option (Bytes × Bytes)
check_digits (x ∷ y ∷ rest) = if is_hex x && is_hex y then some (x ∷ y ∷ [], rest) else none
check_digits _ = none

-- `[^$#]*"#"{HEX}{HEX}`.
unfoldable pub packet_end : Bytes → Option (Bytes × Bytes)
packet_end [] = none
packet_end (c ∷ input) =
    let more = packet_end input in
    if c == b'#' then keeping c (check_digits input) else if c == b'$' then none else keeping c more

abbrev pub packet_or_any : ℕ → Bytes → Option (Bytes × Bytes) → Token × Bytes
packet_or_any c input none = (any c, input)
packet_or_any c input (some (text, rest)) = (packet (c ∷ text), rest)

-- The rule that matches at `c`, and the input behind the match.
unfoldable pub next_token : ℕ → Bytes → Token × Bytes
next_token c input =
    if c == b'+'
    then (ack, input)
    else if c == b'-'
    then (request, input)
    else if c == b'$'
    then packet_or_any c input (packet_end input)
    else if c == 10
    then (echoed, input)
    else (any c, input)

-- At most `left` tokens.
unfoldable pub tokens : ℕ → Bytes → List Token
tokens zero input = []
tokens (suc left) [] = []
tokens (suc left) (c ∷ input) = let (t, rest) = next_token c input in t ∷ tokens left rest

abbrev pub max_error_size : ℕ
max_error_size = 1024

-- `struct parser_data`.
pub record Parser : Type 0 where
  pub gdb : Gdb
  pub buffer : ℕ → ℕ
  pub len : ℕ

unfoldable pub handle_error : Parser → Parser
handle_error errors = if errors.len == 0 then errors else record {
  gdb = gdb_require_retransmission errors.gdb;
  buffer = update errors.buffer errors.len 0;
  len = 0;
}

unfoldable pub add_character_to_error : Parser → ℕ → Parser
add_character_to_error errors c =
    let q = if ltb (max_error_size - 2) errors.len then handle_error errors else errors in
    record q { buffer = update q.buffer q.len c; len = q.len + 1 }

-- The scanner goes on, or the program is over: the run is not `running` then.
pub data Scanned : Type 0 where
  scanned : Parser → Scanned
  stopped : Run → Scanned

abbrev pub of_run : Parser → Option Run → Option Scanned
of_run q none = none
of_run q (some (running gdb)) = some (scanned (record q { gdb = gdb }))
of_run q (some ended) = some (stopped ended)
of_run q (some aborted) = some (stopped aborted)
of_run q (some faulted) = some (stopped faulted)

abbrev pub then_scan : (Parser → Option Scanned) → Option Scanned → Option Scanned
then_scan f none = none
then_scan f (some (scanned q)) = f q
then_scan f (some (stopped r)) = some (stopped r)

module _ (o : Order) (unset : Unset) (fuel : ℕ) (behind : Gdb → Bytes) where
  unfoldable pub action : Token → Parser → Option Scanned
  action ack errors = some (scanned (handle_error errors))
  action request errors =
      let q = handle_error errors in some (scanned (record q { gdb = gdb_transmit_packet q.gdb }))
  action echoed errors = some (scanned errors)
  action (packet yytext) errors =
      let q = handle_error errors in
      of_run q
        (gdb_packet_analysis o unset fuel q.gdb (yytext ++ (0 ∷ behind q.gdb)) (length yytext))
  action (any c) errors = some (scanned (add_character_to_error errors c))

  unfoldable pub yylex : List Token → Parser → Option Scanned
  yylex [] errors = some (scanned (handle_error errors))
  yylex (t ∷ more) errors = then_scan (yylex more) (action t errors)

  -- `input` is all that gdb sends before it closes the connection; `buffer` and `text` are what
  -- the two arrays hold before.
  unfoldable pub gdb_scanner : ArmCore → (ℕ → ℕ) → Bytes → Bytes → Option Scanned
  gdb_scanner arm buffer text input =
      yylex (tokens (length input) input)
        (record { gdb = gdb_init_data arm text; buffer = buffer; len = 0 })
