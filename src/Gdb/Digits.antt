-- ===== src/Gdb/Digits.antt =====
-- Hexadecimal digits that are printed and scanned again.
use l3_info_simulateur_arm.Base.{
  ℕ, zero, suc, ◌+◌, ◌*◌, ◌/◌, ◌%◌, ◌^◌, ◌<◌, ◌≡◌, ◌∙◌, ap, refl, arith, Bool, true, false, ltb,
  if◌then◌else◌, some, ◌∷◌, ◌++◌, update,
}
use l3_info_simulateur_arm.Util.{add32, minus_one}
use l3_info_simulateur_arm.Text.{
  Bytes, length, drop, hex_char, hex_value, is_space, print_byte, skip_spaces, hex_digits,
  as_unsigned, scan_digits, scan_prefix, scan_sign, scan_hex, sscanf_x, sscanf_02x,
}
use l3_info_simulateur_arm.Gdb.Wire.{
  Order, byte_of_integer, integer_of_bytes, read_loop, write_loop, read_uint32, write_uint32,
}

-- A digit is read back, and is none of the characters that a scan treats in another way.
pub hex_value-hex_char : (d : ℕ) → d < 16 → hex_value (hex_char d) ≡ some d
unfolding hex_value
hex_value-hex_char d h = ground arith

is_space-hex_char : (d : ℕ) → d < 16 → is_space (hex_char d) ≡ false
is_space-hex_char d h = ground arith

skip_spaces-hex_char :
    (d : ℕ) (text : Bytes) → d < 16 → skip_spaces (hex_char d ∷ text) ≡ hex_char d ∷ text
unfolding skip_spaces
skip_spaces-hex_char d text h = rw (is_space-hex_char d h) refl

scan_sign-hex_char :
    (width d : ℕ) (text : Bytes)
    → d < 16
    → scan_sign width (hex_char d ∷ text) ≡ scan_prefix false width (hex_char d ∷ text)
unfolding scan_sign
scan_sign-hex_char width d text h = ground arith

scan_prefix-hex_char :
    (width d e : ℕ) (text : Bytes)
    → d < 16
    → e < 16
    → scan_prefix false (suc (suc width)) (hex_char d ∷ hex_char e ∷ text)
      ≡ scan_digits false (suc (suc width)) (hex_char d ∷ hex_char e ∷ text)
unfolding scan_prefix
scan_prefix-hex_char width d e text h k = ground arith

scan_digits-hex_char :
    (width d e : ℕ) (text : Bytes)
    → d < 16
    → e < 16
    → scan_digits false (suc (suc width)) (hex_char d ∷ hex_char e ∷ text)
      ≡ (let (n, rest) = hex_digits width (d * 16 + e) text in some (as_unsigned false n, rest))
unfolding scan_digits hex_digits
scan_digits-hex_char width d e text h k =
    rw (scan_digits, hex_value-hex_char d h, hex_digits, hex_value-hex_char e k) refl

-- Two digits at the front of a text, with a width of two and more.
scan_hex-print_byte :
    (width v : ℕ) (text : Bytes)
    → v < 256
    → scan_hex (suc (suc width)) (print_byte v ++ text)
      ≡ (let (n, rest) = hex_digits width v text in some (as_unsigned false n, rest))
unfolding scan_hex print_byte
scan_hex-print_byte width v text h =
    let d = v / 16 in
    let e = v % 16 in
    let whole : d * 16 + e ≡ v = omega arith in
    ap (scan_sign (suc (suc width))) (skip_spaces-hex_char d (hex_char e ∷ text) (omega arith))
    ∙ scan_sign-hex_char (suc (suc width)) d (hex_char e ∷ text) (omega arith)
    ∙ scan_prefix-hex_char width d e text (omega arith) (omega arith)
    ∙ scan_digits-hex_char width d e text (omega arith) (omega arith)
    ∙ ap (λ n. some (as_unsigned false (hex_digits width n text).0, (hex_digits width n text).1))
        whole

pub sscanf_02x-print_byte :
    (v old : ℕ) (text : Bytes) → v < 256 → sscanf_02x (print_byte v ++ text) old ≡ v
unfolding sscanf_02x hex_digits
sscanf_02x-print_byte v old text h = rw (sscanf_02x, scan_hex-print_byte 0 v text h) (ground arith)

pub sscanf_x-print_byte :
    (v old : ℕ) (text : Bytes) → v < 256 → sscanf_x (print_byte v ++ (0 ∷ text)) old ≡ v
unfolding sscanf_x hex_digits hex_value scan_hex scan_sign skip_spaces print_byte
sscanf_x-print_byte v old text h =
    rw (sscanf_x, scan_hex-print_byte (suc (length text)) v (0 ∷ text) h) (ground arith)

drop-print_byte : (v : ℕ) (text : Bytes) → drop 2 (print_byte v ++ text) ≡ text
unfolding print_byte
drop-print_byte v text = refl

-- A round of the two loops.
read_round :
    (left step i old v : ℕ) (bytes : ℕ → ℕ) (text : Bytes)
    → i < 4
    → v < 256
    → read_loop (suc left) step i old bytes (print_byte v ++ text)
      ≡ read_loop left step (add32 i step) v (update bytes i v) text
unfolding read_loop
read_round left step i old v bytes text hi hv =
    let inside : ltb i 4 ≡ true = ground arith in
    let byte : v % 256 ≡ v = omega arith in
    rw (read_loop, inside, sscanf_02x-print_byte v old text hv, drop-print_byte v text, byte) refl

abbrev four : ℕ → ℕ → ℕ → ℕ → Bytes → Bytes
four a b c d text = print_byte a ++ (print_byte b ++ (print_byte c ++ (print_byte d ++ text)))

read_upwards :
    (old a b c d : ℕ) (bytes : ℕ → ℕ) (text : Bytes)
    → a < 256
    → b < 256
    → c < 256
    → d < 256
    → read_loop 5 1 0 old bytes (four a b c d text)
      ≡ update (update (update (update bytes 0 a) 1 b) 2 c) 3 d
unfolding read_loop
read_upwards old a b c d bytes text ha hb hc hd =
    read_round 4 1 0 old a bytes _ (omega arith) ha
    ∙ read_round 3 1 1 a b _ _ (omega arith) hb
    ∙ read_round 2 1 2 b c _ _ (omega arith) hc
    ∙ read_round 1 1 3 c d _ text (omega arith) hd

read_downwards :
    (old a b c d : ℕ) (bytes : ℕ → ℕ) (text : Bytes)
    → a < 256
    → b < 256
    → c < 256
    → d < 256
    → read_loop 5 minus_one 3 old bytes (four a b c d text)
      ≡ update (update (update (update bytes 3 a) 2 b) 1 c) 0 d
unfolding read_loop
read_downwards old a b c d bytes text ha hb hc hd =
    read_round 4 minus_one 3 old a bytes _ (omega arith) ha
    ∙ read_round 3 minus_one 2 a b _ _ (omega arith) hb
    ∙ read_round 2 minus_one 1 b c _ _ (omega arith) hc
    ∙ read_round 1 minus_one 0 c d _ text (omega arith) hd

abbrev pub nth_byte : ℕ → ℕ → ℕ
nth_byte v k = v / 2 ^ (k * 8) % 2 ^ 8

-- The digits that a word is written as: the bytes from the highest where the target is big-endian,
-- and from the lowest where it is not, whatever the order of the host is.
abbrev pub digits_of : Bool → ℕ → Bytes → Bytes
digits_of target v text =
    if target
    then four (nth_byte v 3) (nth_byte v 2) (nth_byte v 1) (nth_byte v 0) text
    else four (nth_byte v 0) (nth_byte v 1) (nth_byte v 2) (nth_byte v 3) text

pub write_uint32-digits_of :
    (target host : Bool) (v : ℕ) (text : Bytes)
    → write_uint32 (record { target = target; host = host }) v ++ text ≡ digits_of target v text
unfolding write_uint32 write_loop byte_of_integer print_byte
write_uint32-digits_of true true v text = refl
write_uint32-digits_of true false v text = refl
write_uint32-digits_of false true v text = refl
write_uint32-digits_of false false v text = refl

read_uint32-digits_of :
    (target host : Bool) (old v : ℕ) (text : Bytes)
    → v < 2 ^ 32
    → read_uint32 (record { target = target; host = host }) old (digits_of target v text) ≡ v
unfolding read_uint32 integer_of_bytes
read_uint32-digits_of true true old v text h =
    ap (integer_of_bytes true) (
      read_upwards old (nth_byte v 3) (nth_byte v 2) (nth_byte v 1) (nth_byte v 0) _ text
        (omega arith) (omega arith) (omega arith) (omega arith))
    ∙ omega arith
read_uint32-digits_of true false old v text h =
    ap (integer_of_bytes false) (
      read_downwards old (nth_byte v 3) (nth_byte v 2) (nth_byte v 1) (nth_byte v 0) _ text
        (omega arith) (omega arith) (omega arith) (omega arith))
    ∙ omega arith
read_uint32-digits_of false true old v text h =
    ap (integer_of_bytes true) (
      read_downwards old (nth_byte v 0) (nth_byte v 1) (nth_byte v 2) (nth_byte v 3) _ text
        (omega arith) (omega arith) (omega arith) (omega arith))
    ∙ omega arith
read_uint32-digits_of false false old v text h =
    ap (integer_of_bytes false) (
      read_upwards old (nth_byte v 0) (nth_byte v 1) (nth_byte v 2) (nth_byte v 3) _ text
        (omega arith) (omega arith) (omega arith) (omega arith))
    ∙ omega arith

-- A 32-bit word that is written as digits reads back, whatever text follows, in each byte order of
-- the target and of the host.
pub read_uint32-write_uint32 :
    (o : Order) (old v : ℕ) (text : Bytes)
    → v < 2 ^ 32
    → read_uint32 o old (write_uint32 o v ++ text) ≡ v
read_uint32-write_uint32 o old v text h =
    ap (read_uint32 o old) (write_uint32-digits_of o.target o.host v text)
    ∙ read_uint32-digits_of o.target o.host old v text h

integer_of_bytes-lt :
    (host : Bool) (bytes : ℕ → ℕ) → ((i : ℕ) → bytes i < 256) → integer_of_bytes host bytes < 2 ^ 32
unfolding integer_of_bytes
integer_of_bytes-lt true bytes h = omega (arith, h 0, h 1, h 2, h 3)
integer_of_bytes-lt false bytes h = omega (arith, h 0, h 1, h 2, h 3)

read_loop-lt :
    (left step i old : ℕ) (bytes : ℕ → ℕ) (text : Bytes)
    → ((j : ℕ) → bytes j < 256)
    → (j : ℕ) → read_loop left step i old bytes text j < 256
unfolding read_loop
read_loop-lt zero step i old bytes text h j = h j
read_loop-lt (suc left) step i old bytes text h j =
    let v = sscanf_02x text old in
    ground (
      arith,
      h j,
      read_loop-lt left step (add32 i step) v (update bytes i (v % 2 ^ 8)) (drop 2 text)
          (λ k. ground (arith, h k)) j,
    )

pub read_uint32-lt : (o : Order) (old : ℕ) (text : Bytes) → read_uint32 o old text < 2 ^ 32
unfolding read_uint32
read_uint32-lt o old text =
    integer_of_bytes-lt o.host _ (λ j. read_loop-lt 5 _ _ old (λ i. 0) text (λ k. omega arith) j)
