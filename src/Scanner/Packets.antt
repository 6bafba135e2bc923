-- ===== src/Scanner/Packets.antt =====
-- scanner.l: the rule of a packet, against a description of the packets.
use mathlib.Core.Option.{some_inj}
use mathlib.Core.Path.{subst}
use l3_info_simulateur_arm.Base.{
  ℕ, ◌≤◌, ◌≡◌, ◌≢◌, ◌⊎◌, ◌↔◌, sym, ap, refl, arith, Bool, true, false, ◌&&◌, ◌==◌, if◌then◌else◌,
  Option, none, some, [], ◌∷◌, ◌++◌, ==_iff, ==_ne,
}
use l3_info_simulateur_arm.Text.{Bytes, hex_value}
use l3_info_simulateur_arm.Scanner.{
  Token, packet, any, is_hex, keeping, check_digits, packet_end, packet_or_any, next_token,
}
use l3_info_simulateur_arm.Scanner.Frame.{IsPlain, nil, cons}

-- A digit of a number in base 16, in either case.
abbrev pub IsHexDigit : ℕ → Type 0
IsHexDigit c = (b'0' ≤ c) × (c ≤ b'9') ⊎ (b'A' ≤ c) × (c ≤ b'F') ⊎ (b'a' ≤ c) × (c ≤ b'f')

-- What stands behind `$` in a packet, and what stands behind the packet: a body without `$` and
-- `#`, then `#` and two digits.
pub data IsPacket : Bytes → Bytes → Bytes → Type 0 where
  framed :
      {body : Bytes} {x y : ℕ} {rest : Bytes}
      → IsPlain body
      → IsHexDigit x
      → IsHexDigit y
      → IsPacket (body ++ (b'#' ∷ x ∷ y ∷ rest)) (body ++ (b'#' ∷ x ∷ y ∷ [])) rest

is_hex_iff : (c : ℕ) → (is_hex c ≡ true) ↔ IsHexDigit c
unfolding hex_value
is_hex_iff c = ground arith

is_hex_both : (x y : ℕ) → ((is_hex x && is_hex y) ≡ true) ↔ (IsHexDigit x × IsHexDigit y)
is_hex_both x y = ground (arith, is_hex_iff x, is_hex_iff y)

-- The outcome of `packet_end`: a packet, where there is one.
data Finds (input : Bytes) : Option (Bytes × Bytes) → Type 0 where
  nowhere : Finds input none
  there : {text rest : Bytes} → IsPacket input text rest → Finds input (some (text, rest))

longer :
    {c : ℕ} {input text rest : Bytes}
    → c ≢ b'$'
    → c ≢ b'#'
    → IsPacket input text rest
    → IsPacket (c ∷ input) (c ∷ text) rest
longer no_dollar no_hash (framed plain x y) = framed (cons no_dollar no_hash plain) x y

keeping-Finds :
    {c : ℕ} {input : Bytes} {found : Option (Bytes × Bytes)}
    → c ≢ b'$'
    → c ≢ b'#'
    → Finds input found
    → Finds (c ∷ input) (keeping c found)
keeping-Finds no_dollar no_hash nowhere = nowhere
keeping-Finds no_dollar no_hash (there h) = there (longer no_dollar no_hash h)

Finds-if :
    (t : Bool) {input : Bytes} {x y : Option (Bytes × Bytes)}
    → (t ≡ true → Finds input x)
    → (t ≡ false → Finds input y)
    → Finds input (if t then x else y)
Finds-if true h k = h refl
Finds-if false h k = k refl

keeping-if :
    (t : Bool) {c : ℕ} {input text rest : Bytes}
    → (t ≡ true → Finds input (keeping c (some (text, rest))))
    → Finds input (keeping c (if t then some (text, rest) else none))
keeping-if true h = h refl
keeping-if false h = nowhere

check_digits-Finds : (input : Bytes) → Finds (b'#' ∷ input) (keeping b'#' (check_digits input))
unfolding check_digits
check_digits-Finds [] = nowhere
check_digits-Finds (x ∷ []) = nowhere
check_digits-Finds (x ∷ y ∷ rest) =
    keeping-if (is_hex x && is_hex y)
      (λ e. let digits = (is_hex_both x y).0 e in there (framed nil digits.0 digits.1))

packet_end-Finds : (input : Bytes) → Finds input (packet_end input)
unfolding packet_end
packet_end-Finds [] = nowhere
packet_end-Finds (c ∷ input) =
    Finds-if (c == b'#')
      (λ e.
        let hash : b'#' ≡ c = sym ((==_iff c b'#').0 e) in
        subst (λ d. Finds (d ∷ input) (keeping d (check_digits input))) hash
          (check_digits-Finds input))
      (λ no_hash.
        Finds-if (c == b'$') (λ e. nowhere)
          (λ no_dollar.
            keeping-Finds (ground (arith, no_dollar)) (ground (arith, no_hash))
              (packet_end-Finds input)))

-- The packet that is there is found.
packet_end_plain :
    {body : Bytes} (x y : ℕ) (rest : Bytes)
    → IsPlain body
    → IsHexDigit x
    → IsHexDigit y
    → packet_end (body ++ (b'#' ∷ x ∷ y ∷ rest)) ≡ some (body ++ (b'#' ∷ x ∷ y ∷ []), rest)
unfolding packet_end check_digits
packet_end_plain x y rest nil hx hy = rw ((is_hex_both x y).1 (hx, hy)) refl
packet_end_plain x y rest (cons {c} a b plain) hx hy =
    rw (==_ne c b'$' a, ==_ne c b'#' b, packet_end_plain x y rest plain hx hy) refl

packet_end-framed :
    {input text rest : Bytes} → IsPacket input text rest → packet_end input ≡ some (text, rest)
packet_end-framed (framed {x} {y} {rest} plain hx hy) = packet_end_plain x y rest plain hx hy

found-IsPacket :
    {input text rest : Bytes} {found : Option (Bytes × Bytes)}
    → Finds input found
    → found ≡ some (text, rest)
    → IsPacket input text rest
found-IsPacket nowhere e = cc
found-IsPacket {input} (there h) e =
    let same = some_inj.0 e in subst (λ (s : Bytes × Bytes). IsPacket input s.0 s.1) same h

behind_dollar : Token → Bytes
behind_dollar (packet (c ∷ text)) = text
behind_dollar t = []

taken-packet :
    (c : ℕ) (input text rest : Bytes) (found : Option (Bytes × Bytes))
    → packet_or_any c input found ≡ (packet (c ∷ text), rest)
    → found ≡ some (text, rest)
unfolding behind_dollar
taken-packet c input text rest none e = cc
taken-packet c input text rest (some (t, r)) e =
    let same_text : t ≡ text = ap (λ (s : Token × Bytes). behind_dollar s.0) e in
    let same_rest : r ≡ rest = ap (λ (s : Token × Bytes). s.1) e in cc

not_found :
    (c : ℕ) (input : Bytes) (found : Option (Bytes × Bytes))
    → Finds input found
    → ((text rest : Bytes) → ¬ IsPacket input text rest)
    → packet_or_any c input found ≡ (any c, input)
not_found c input none h none_there = refl
not_found c input (some (text, rest)) (there h) none_there = absurd (none_there text rest h)

-- At `$` the scanner takes a packet exactly where a body without `$` and `#`, then `#` and two
-- digits in base 16 of either case stand behind it: the token is all of these bytes and the input
-- goes on behind the second digit, however the input goes on. Where no packet stands there, `$` alone is taken as an error.
pub next_token_iff :
    (input : Bytes)
    → ((text rest : Bytes)
        → (next_token b'$' input ≡ (packet (b'$' ∷ text), rest)) ↔ IsPacket input text rest)
      × (((text rest : Bytes) → ¬ IsPacket input text rest)
          → next_token b'$' input ≡ (any b'$', input))
unfolding next_token
next_token_iff input = (
  λ text rest. (
    λ e.
        found-IsPacket (packet_end-Finds input)
          (taken-packet b'$' input text rest (packet_end input) e),
    λ h. ap (λ found. packet_or_any b'$' input found) (packet_end-framed h),
  ),
  λ none_there. not_found b'$' input (packet_end input) (packet_end-Finds input) none_there,
)
