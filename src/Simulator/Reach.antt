-- ===== src/Simulator/Reach.antt =====
-- arm_simulator.c: what holds in every state that packets and interrupts reach.
use l3_info_simulateur_arm.Base.{
  ℕ, ◌-◌, ◌^◌, ◌<◌, ◌≡◌, ◌∙◌, sym, arith, Bool, true, false, ltb, ◌==◌, if◌then◌else◌, Option, none,
  some, ◌∷◌, ◌++◌,
}
use l3_info_simulateur_arm.Memory.{memory_create}
use l3_info_simulateur_arm.Registers.{registers_create}
use l3_info_simulateur_arm.Core.{ArmCore}
use l3_info_simulateur_arm.Core.Keeps.{IsWordCore}
use l3_info_simulateur_arm.Constants.{reset}
use l3_info_simulateur_arm.Exception.{arm_create}
use l3_info_simulateur_arm.Exception.Keeps.{arm_exception-Keeps}
use l3_info_simulateur_arm.LoadStore.Keeps.{IsWordStale}
use l3_info_simulateur_arm.Text.{Bytes, length}
use l3_info_simulateur_arm.Gdb.{
  Gdb, Run, running, ended, aborted, faulted, gdb_init_data, gdb_transmit_packet,
  gdb_require_retransmission,
}
use l3_info_simulateur_arm.Gdb.Wire.{Order}
use l3_info_simulateur_arm.Gdb.Commands.{Unset}
use l3_info_simulateur_arm.Gdb.Keeps.{
  Stays, Stays-refl, Stays-Keeps, StaysResult, runs, ends_program, aborts, faults, waits, gives,
}
use l3_info_simulateur_arm.Gdb.Preserve.{gdb_packet_analysis-StaysResult}
use l3_info_simulateur_arm.Scanner.{
  Parser, Token, ack, request, echoed, packet, any, Scanned, scanned, stopped, of_run,
  max_error_size, handle_error, add_character_to_error, action,
}
use l3_info_simulateur_arm.Simulator.{
  start_parser, interrupted, Step, from_gdb, from_irq, Reaches, at_start, then_step,
}

-- The cells of the processor hold 32-bit words, its memory has 0x20000 bytes in the byte order that was
-- chosen, and the next byte that is kept of an error stands inside of the array.
pub record IsSound (big : Bool) (s : Parser) : Type 0 where
  pub word : IsWordCore s.gdb.arm
  pub size : s.gdb.arm.mem.size ≡ 0x20000
  pub order : s.gdb.arm.mem.is_big_endian ≡ big
  pub inside : s.len < max_error_size

IsSound-Stays :
    {big : Bool} {s : Parser} {gdb : Gdb} {n : ℕ} {buffer : ℕ → ℕ}
    → IsSound big s
    → Stays s.gdb.arm gdb.arm
    → n < max_error_size
    → IsSound big (record { gdb = gdb; buffer = buffer; len = n })
IsSound-Stays h k lt = record {
  word = k.word;
  size = k.size ∙ h.size;
  order = k.order ∙ h.order;
  inside = lt;
}

abbrev created : Bool → (ℕ → ℕ) → ArmCore
created big initial = record {
  cycle_count = 0;
  reg = registers_create;
  mem = memory_create 0x20000 big initial;
}

arm_create-Stays :
    (big : Bool) (initial : ℕ → ℕ)
    → ((i : ℕ) → initial i < 2 ^ 32)
    → Stays (created big initial) (arm_create (memory_create 0x20000 big initial))
unfolding arm_create registers_create memory_create
arm_create-Stays big initial h =
    let words : IsWordCore (created big initial) = record {
      registers = λ i. omega arith;
      words = h;
    } in
    let k = arm_exception-Keeps (created big initial) reset words in
    record {
      word = record { registers = k.word.registers; words = k.word.words };
      size = k.size;
      order = k.order;
    }

start_parser-IsSound :
    (big : Bool) (initial buffer : ℕ → ℕ) (text : Bytes)
    → ((i : ℕ) → initial i < 2 ^ 32)
    → IsSound big (start_parser big initial buffer text)
unfolding start_parser gdb_init_data memory_create
start_parser-IsSound big initial buffer text h =
    let k = arm_create-Stays big initial h in
    record { word = k.word; size = k.size; order = k.order; inside = omega arith }

IsSound-if :
    {big : Bool} (b : Bool) (s q : Parser)
    → IsSound big s
    → IsSound big q
    → IsSound big (if b then s else q)
IsSound-if true s q h k = h
IsSound-if false s q h k = k

handle_error-IsSound : {big : Bool} (s : Parser) → IsSound big s → IsSound big (handle_error s)
unfolding handle_error gdb_require_retransmission
handle_error-IsSound s h =
    IsSound-if (s.len == 0) s _ h (IsSound-Stays h (Stays-refl h.word) (omega arith))

handle_error-len : (s : Parser) → (handle_error s).len ≡ 0
unfolding handle_error
handle_error-len s = ground arith

-- Where there is no room for another byte, the bytes before are handled.
add_character_to_error-IsSound :
    {big : Bool} (s : Parser) (c : ℕ) → IsSound big s → IsSound big (add_character_to_error s c)
unfolding add_character_to_error
add_character_to_error-IsSound s c h =
    let q = if ltb (max_error_size - 2) s.len then handle_error s else s in
    let k =
      IsSound-if (ltb (max_error_size - 2) s.len) (handle_error s) s (handle_error-IsSound s h) h in
    IsSound-Stays k (Stays-refl k.word) (ground (arith, handle_error-len s))

data IsSoundScan (big : Bool) : Option Scanned → Type 0 where
  pending : IsSoundScan big none
  goes_on : {s : Parser} → IsSound big s → IsSoundScan big (some (scanned s))
  stands : {r : Run} → IsSoundScan big (some (stopped r))

of_run-IsSoundScan :
    {big : Bool} (s : Parser) (r : Option Run)
    → IsSound big s
    → StaysResult s.gdb.arm r
    → IsSoundScan big (of_run s r)
of_run-IsSoundScan s none h waits = pending
of_run-IsSoundScan s (some (running gdb)) h (gives (runs k)) = goes_on (IsSound-Stays h k h.inside)
of_run-IsSoundScan s (some ended) h (gives ends_program) = stands
of_run-IsSoundScan s (some aborted) h (gives aborts) = stands
of_run-IsSoundScan s (some faulted) h (gives faults) = stands

of_scanned : {big : Bool} {s : Parser} → IsSoundScan big (some (scanned s)) → IsSound big s
of_scanned (goes_on h) = h

module _ (o : Order) (unset : Unset) (behind : Gdb → Bytes)
    (fits : (n : ℕ) → IsWordStale (unset.step n)) {big : Bool} where
  action-IsSoundScan :
      (fuel : ℕ) (t : Token) (s : Parser)
      → IsSound big s
      → IsSoundScan big (action o unset fuel behind t s)
  unfolding action gdb_transmit_packet
  action-IsSoundScan fuel ack s h = goes_on (handle_error-IsSound s h)
  action-IsSoundScan fuel request s h =
      let k = handle_error-IsSound s h in goes_on (IsSound-Stays k (Stays-refl k.word) k.inside)
  action-IsSoundScan fuel echoed s h = goes_on h
  action-IsSoundScan fuel (packet yytext) s h =
      let q = handle_error s in
      let k = handle_error-IsSound s h in
      of_run-IsSoundScan q _ k (
        gdb_packet_analysis-StaysResult o unset fuel q.gdb (yytext ++ (0 ∷ behind q.gdb))
          (length yytext) fits k.word)
  action-IsSoundScan fuel (any c) s h = goes_on (add_character_to_error-IsSound s c h)

  action-IsSound :
      (fuel : ℕ) (t : Token) (s u : Parser)
      → IsSound big s
      → action o unset fuel behind t s ≡ some (scanned u)
      → IsSound big u
  action-IsSound fuel t s u h e = of_scanned (rw (sym e) (action-IsSoundScan fuel t s h))

  interrupted-IsSound : (s : Parser) (irq : ℕ) → IsSound big s → IsSound big (interrupted s irq)
  interrupted-IsSound s irq h =
      IsSound-Stays h (Stays-Keeps (arm_exception-Keeps s.gdb.arm irq h.word)) h.inside

  Step-IsSound : {s q : Parser} → IsSound big s → Step o unset behind s q → IsSound big q
  Step-IsSound h (from_gdb fuel t e) = action-IsSound fuel t _ _ h e
  Step-IsSound h (from_irq {s} irq lt) = interrupted-IsSound s irq h

  Reaches-IsSound : {s q : Parser} → IsSound big s → Reaches o unset behind s q → IsSound big q
  Reaches-IsSound h at_start = h
  Reaches-IsSound h (then_step r e) = Step-IsSound (Reaches-IsSound h r) e

-- In every state that the simulator reaches from its start, by packets and other bytes from gdb and
-- by interrupts in any order, all registers and memory words hold 32 bits, the memory has 0x20000
-- bytes in the byte order that was chosen at compile time, and fewer bytes of an error are kept than
-- the 1024 of their buffer. The words that `malloc` gives and the variables of a step that a failed
-- read leaves alone hold 32 bits.
pub Reaches-start_parser :
    (o : Order) (unset : Unset) (behind : Gdb → Bytes) (big : Bool) (initial buffer : ℕ → ℕ)
    (text : Bytes) (s : Parser)
    → ((n : ℕ) → IsWordStale (unset.step n))
    → ((i : ℕ) → initial i < 2 ^ 32)
    → Reaches o unset behind (start_parser big initial buffer text) s
    → IsSound big s
Reaches-start_parser o unset behind big initial buffer text s fits words r =
    Reaches-IsSound o unset behind fits (start_parser-IsSound big initial buffer text words) r
