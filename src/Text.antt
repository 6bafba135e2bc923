-- ===== src/Text.antt =====
-- Text as C passes it: the bytes from a pointer on, and the parts of the C library that the program
-- uses on them. The end of the text is the end of the list or a byte 0, whichever comes first.
use Prim.Native.Char.{code}
use Prim.Native.String.{String}
use l3_info_simulateur_arm.Base.{
  ℕ, zero, suc, ◌+◌, ◌-◌, ◌*◌, ◌/◌, ◌%◌, ◌^◌, Bool, true, false, ◌&&◌, ◌||◌, ltb, leb, ◌==◌,
  if◌then◌else◌, Option, none, some, List, [], ◌∷◌, ◌++◌, ◌≡◌, refl, arith,
}

abbrev pub Bytes : Type 0
Bytes = List ℕ

-- The bytes of a literal, all of whose characters are ASCII.
abbrev pub codes : String → Bytes
codes String.[] = []
codes (String.◌∷◌ c s) = code c ∷ codes s

abbrev pub length : Bytes → ℕ
length [] = 0
length (x ∷ xs) = suc (length xs)

pub length-append : (xs ys : Bytes) → length (xs ++ ys) ≡ length xs + length ys
length-append [] ys = omega arith
length-append (x ∷ xs) ys = omega (arith, length-append xs ys)

-- The byte at an index, and the text from an index on. Behind the last byte that is known stand
-- bytes 0.
abbrev pub byte_in : Bytes → ℕ → ℕ
byte_in [] i = 0
byte_in (x ∷ xs) zero = x
byte_in (x ∷ xs) (suc i) = byte_in xs i

abbrev pub drop : ℕ → Bytes → Bytes
drop zero xs = xs
drop (suc n) [] = []
drop (suc n) (x ∷ xs) = drop n xs

abbrev pub first : ℕ → Bytes → Bytes
first zero xs = []
first (suc n) [] = []
first (suc n) (x ∷ xs) = x ∷ first n xs

abbrev pub set_byte : Bytes → ℕ → ℕ → Bytes
set_byte [] i v = []
set_byte (x ∷ xs) zero v = v ∷ xs
set_byte (x ∷ xs) (suc i) v = x ∷ set_byte xs i v

-- `index(text, c) + 1`, or nothing where `index` gives NULL.
unfoldable pub after_first : ℕ → Bytes → Option Bytes
after_first c [] = none
after_first c (x ∷ xs) =
    let rest = after_first c xs in if x == c then some xs else if x == 0 then none else rest

-- `strncmp(text, word, length of word) == 0`, for a word without a byte 0.
unfoldable pub starts_with : Bytes → Bytes → Bool
starts_with [] text = true
starts_with (w ∷ word) [] = false
starts_with (w ∷ word) (x ∷ text) = x == w && starts_with word text

-- `strcmp(text, word) == 0`, for a word without a byte 0.
unfoldable pub is_text : Bytes → Bytes → Bool
is_text [] [] = true
is_text [] (x ∷ text) = x == 0
is_text (w ∷ word) [] = false
is_text (w ∷ word) (x ∷ text) = x == w && is_text word text

-- `sprintf("%02x")` of a byte.
abbrev pub hex_char : ℕ → ℕ
hex_char d = if ltb d 10 then b'0' + d else b'a' + (d - 10)

unfoldable pub print_byte : ℕ → Bytes
print_byte v = hex_char (v / 16) ∷ hex_char (v % 16) ∷ []

abbrev pub is_space : ℕ → Bool
is_space c = c == 32 || leb 9 c && leb c 13

unfoldable pub skip_spaces : Bytes → Bytes
skip_spaces [] = []
skip_spaces (c ∷ text) = let rest = skip_spaces text in if is_space c then rest else c ∷ text

unfoldable pub hex_value : ℕ → Option ℕ
hex_value c =
    if leb b'0' c && leb c b'9'
    then some (c - b'0')
    else if leb b'a' c && leb c b'f'
    then some (c - b'a' + 10)
    else if leb b'A' c && leb c b'F'
    then some (c - b'A' + 10)
    else none

-- At most `width` more digits behind the number `n`.
unfoldable pub hex_digits : ℕ → ℕ → Bytes → ℕ × Bytes
hex_digits zero n text = (n, text)
hex_digits (suc width) n [] = (n, [])
hex_digits (suc width) n (c ∷ text) = elim (hex_value c) [
  | none ↦ (n, c ∷ text)
  | some d ↦ hex_digits width (n * 16 + d) text
]

-- The number as `strtoul` of 64 bits gives it, cut to an `unsigned int`.
abbrev pub as_unsigned : Bool → ℕ → ℕ
as_unsigned negative n =
    if leb (2 ^ 64) n then 2 ^ 32 - 1 else if negative then (2 ^ 64 - n) % 2 ^ 32 else n % 2 ^ 32

unfoldable pub scan_digits : Bool → ℕ → Bytes → Option (ℕ × Bytes)
scan_digits negative zero text = none
scan_digits negative (suc width) [] = none
scan_digits negative (suc width) (c ∷ text) = elim (hex_value c) [
  | none ↦ none
  | some d ↦ let (n, rest) = hex_digits width d text in some (as_unsigned negative n, rest)
]

-- Behind an optional `0x`.
unfoldable pub scan_prefix : Bool → ℕ → Bytes → Option (ℕ × Bytes)
scan_prefix negative (suc (suc width)) (c ∷ d ∷ text) =
    if c == b'0' && (d == b'x' || d == b'X')
    then scan_digits negative width text
    else scan_digits negative (suc (suc width)) (c ∷ d ∷ text)
scan_prefix negative width text = scan_digits negative width text

-- Behind an optional sign.
unfoldable pub scan_sign : ℕ → Bytes → Option (ℕ × Bytes)
scan_sign width [] = none
scan_sign width (c ∷ text) =
    if c == b'-'
    then scan_prefix true (width - 1) text
    else if c == b'+'
    then scan_prefix false (width - 1) text
    else scan_prefix false width (c ∷ text)

-- The conversion `x` of `sscanf` with a width: the number and the text that is left, or nothing
-- where no number stands there.
unfoldable pub scan_hex : ℕ → Bytes → Option (ℕ × Bytes)
scan_hex width text = scan_sign width (skip_spaces text)

-- `sscanf(text, "%x", &value)`, and the same with `%02x`, where `value` holds `old` before.
unfoldable pub sscanf_x : Bytes → ℕ → ℕ
sscanf_x text old = elim (scan_hex (length text) text) [ none ↦ old | some (n, rest) ↦ n ]

unfoldable pub sscanf_02x : Bytes → ℕ → ℕ
sscanf_02x text old = elim (scan_hex 2 text) [ none ↦ old | some (n, rest) ↦ n ]

-- `sscanf(text, "%x,%x", &a, &b)`.
unfoldable pub scan_second : ℕ → Bytes → ℕ → ℕ × ℕ
scan_second a [] b = (a, b)
scan_second a (c ∷ text) b = (a, if c == b',' then sscanf_x text b else b)

unfoldable pub sscanf_x_x : Bytes → ℕ → ℕ → ℕ × ℕ
sscanf_x_x text a b = elim (scan_hex (length text) text) [
  | none ↦ (a, b)
  | some (n, rest) ↦ scan_second n rest b
]

-- `atoi`, as the 32-bit pattern of its `int`.
unfoldable pub decimal : ℕ → Bytes → ℕ
decimal n [] = n
decimal n (c ∷ text) =
    let more = decimal (n * 10 + (c - b'0')) text in if leb b'0' c && leb c b'9' then more else n

abbrev pub as_int : Bool → ℕ → ℕ
as_int negative n =
    if negative
    then (if leb (2 ^ 63) n then 0 else (2 ^ 64 - n) % 2 ^ 32)
    else if leb (2 ^ 63) n
    then 2 ^ 32 - 1
    else n % 2 ^ 32

unfoldable pub atoi_sign : Bytes → ℕ
atoi_sign [] = 0
atoi_sign (c ∷ text) =
    if c == b'-'
    then as_int true (decimal 0 text)
    else if c == b'+'
    then as_int false (decimal 0 text)
    else as_int false (decimal 0 (c ∷ text))

unfoldable pub atoi : Bytes → ℕ
atoi text = atoi_sign (skip_spaces text)

scans : sscanf_x_x (codes " 0x1F,2a:") 0 0 ≡ (0x1F, 0x2A)
unfolding sscanf_x_x scan_hex scan_sign scan_prefix scan_digits hex_value hex_digits skip_spaces
    scan_second sscanf_x
scans = refl

scans_width : sscanf_02x (codes "7fff") 0 ≡ 0x7F
unfolding sscanf_02x scan_hex scan_sign scan_prefix scan_digits hex_value hex_digits skip_spaces
scans_width = refl

scans_int : atoi (codes "-1") ≡ 2 ^ 32 - 1
unfolding atoi atoi_sign decimal skip_spaces
scans_int = refl
