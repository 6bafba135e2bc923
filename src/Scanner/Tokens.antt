-- ===== src/Scanner/Tokens.antt =====
-- scanner.l: the tokens of an input.
use l3_info_simulateur_arm.Base.{
  ℕ, zero, suc, ◌≤◌, ◌≡◌, sym, ap, refl, arith, Bool, true, false, ◌&&◌, ◌==◌, if◌then◌else◌,
  Option, none, some, [], ◌∷◌, ◌++◌, ==_iff,
}
use l3_info_simulateur_arm.Text.{Bytes, length}
use l3_info_simulateur_arm.Scanner.{
  Token, ack, request, echoed, packet, any, is_hex, keeping, check_digits, packet_end,
  packet_or_any, next_token, tokens,
}

-- The bytes of a token.
abbrev text_of : Token → Bytes
text_of ack = b'+' ∷ []
text_of request = b'-' ∷ []
text_of echoed = 10 ∷ []
text_of (packet text) = text
text_of (any c) = c ∷ []

-- What is found are the first bytes of the input.
pub data Splits (input : Bytes) : Option (Bytes × Bytes) → Type 0 where
  nowhere : Splits input none
  there : {text rest : Bytes} → text ++ rest ≡ input → Splits input (some (text, rest))

keeping-Splits :
    (c : ℕ) {input : Bytes} {x : Option (Bytes × Bytes)}
    → Splits input x
    → Splits (c ∷ input) (keeping c x)
keeping-Splits c nowhere = nowhere
keeping-Splits c (there e) = there (ap (λ xs. c ∷ xs) e)

Splits-if :
    (b : Bool) {input : Bytes} {x y : Option (Bytes × Bytes)}
    → Splits input x
    → Splits input y
    → Splits input (if b then x else y)
Splits-if true h k = h
Splits-if false h k = k

check_digits-Splits : (input : Bytes) → Splits input (check_digits input)
unfolding check_digits
check_digits-Splits [] = nowhere
check_digits-Splits (x ∷ []) = nowhere
check_digits-Splits (x ∷ y ∷ rest) = Splits-if (is_hex x && is_hex y) (there refl) nowhere

packet_end-Splits : (input : Bytes) → Splits input (packet_end input)
unfolding packet_end
packet_end-Splits [] = nowhere
packet_end-Splits (c ∷ input) =
    Splits-if (c == b'#') (keeping-Splits c (check_digits-Splits input))
      (Splits-if (c == b'$') nowhere (keeping-Splits c (packet_end-Splits input)))

-- A token takes the first byte at least.
data Takes (c : ℕ) (input : Bytes) : Token × Bytes → Type 0 where
  takes :
      {t : Token} {rest : Bytes}
      → text_of t ++ rest ≡ c ∷ input
      → length rest ≤ length input
      → Takes c input (t, rest)

Takes-if :
    (c : ℕ) (input : Bytes) (b : Bool) {x y : Token × Bytes}
    → (b ≡ true → Takes c input x)
    → Takes c input y
    → Takes c input (if b then x else y)
Takes-if c input true h k = h refl
Takes-if c input false h k = k

one_byte : (c d : ℕ) (input : Bytes) → (c == d) ≡ true → d ∷ input ≡ c ∷ input
one_byte c d input e = ap (λ x. x ∷ input) (sym ((==_iff c d).0 e))

pub length-le-append : (xs ys : Bytes) → length ys ≤ length (xs ++ ys)
length-le-append [] ys = omega arith
length-le-append (x ∷ xs) ys = omega (arith, length-le-append xs ys)

packet_or_any-Takes :
    (c : ℕ) (input : Bytes) (x : Option (Bytes × Bytes))
    → Splits input x
    → Takes c input (packet_or_any c input x)
packet_or_any-Takes c input none h = takes refl (omega arith)
packet_or_any-Takes c input (some (text, rest)) (there e) =
    takes (ap (λ xs. c ∷ xs) e) (rw (sym e) (length-le-append text rest))

next_token-Takes : (c : ℕ) (input : Bytes) → Takes c input (next_token c input)
unfolding next_token
next_token-Takes c input =
    let long : length input ≤ length input = omega arith in
    Takes-if c input (c == b'+') (λ e. takes (one_byte c b'+' input e) long)
      (Takes-if c input (c == b'-') (λ e. takes (one_byte c b'-' input e) long)
        (Takes-if c input (c == b'$') (λ e. packet_or_any-Takes c input _ (packet_end-Splits input))
          (Takes-if c input (c == 10) (λ e. takes (one_byte c 10 input e) long) (takes refl long))))

-- What holds behind a token that is shorter than the input by a byte at least.
from_token :
    {c : ℕ} {input : Bytes} {found : Token × Bytes} {P : Token → Bytes → Type 0}
    → Takes c input found
    → ((t : Token) (rest : Bytes)
        → text_of t ++ rest ≡ c ∷ input
        → length rest ≤ length input
        → P t rest)
    → P found.0 found.1
from_token (takes same short) k = k _ _ same short

-- Any two numbers of rounds that are enough find the same.
pub tokens-enough :
    (left right : ℕ) (input : Bytes)
    → length input ≤ left
    → length input ≤ right
    → tokens left input ≡ tokens right input
unfolding tokens
tokens-enough zero zero [] h k = refl
tokens-enough (suc left) zero [] h k = refl
tokens-enough zero (suc right) [] h k = refl
tokens-enough (suc left) (suc right) [] h k = refl
tokens-enough (suc left) zero (c ∷ input) h k = elim k [ ]
tokens-enough zero right (c ∷ input) h k = elim h [ ]
tokens-enough (suc left) (suc right) (c ∷ input) h k =
    from_token {P = λ t rest. t ∷ tokens left rest ≡ t ∷ tokens right rest}
      (next_token-Takes c input)
      (λ t rest same short.
        ap (λ ts. t ∷ ts)
          (tokens-enough left right rest (omega (arith, h, short)) (omega (arith, k, short))))
