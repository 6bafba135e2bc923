-- ===== src/Gdb/Wire.antt =====
-- gdb_protocol.c: 32-bit words as eight hexadecimal digits, in the byte order of the target.
use l3_info_simulateur_arm.Base.{
  ℕ, zero, suc, ◌+◌, ◌-◌, ◌*◌, ◌/◌, ◌%◌, ◌^◌, Bool, not, ltb, if◌then◌else◌, [], ◌++◌, update,
}
use l3_info_simulateur_arm.Util.{add32, minus_one}
use l3_info_simulateur_arm.Text.{Bytes, drop, print_byte, sscanf_02x}

-- `target` says that BIG_ENDIAN_SIMULATOR is defined, `host` that `is_big_endian()` is 1.
pub record Order : Type 0 where
  pub target : Bool
  pub host : Bool

abbrev same : Order → Bool
same o = if o.target then o.host else not o.host

abbrev start : Order → ℕ
start o = if same o then 0 else 3

abbrev step : Order → ℕ
step o = if same o then 1 else minus_one

-- The union of a word and its four bytes.
unfoldable pub byte_of_integer : Bool → ℕ → ℕ → ℕ
byte_of_integer host value i =
    (if host then value / 2 ^ ((3 - i) * 8) else value / 2 ^ (i * 8)) % 2 ^ 8

unfoldable pub integer_of_bytes : Bool → (ℕ → ℕ) → ℕ
integer_of_bytes host bytes =
    if host
    then bytes 0 * 2 ^ 24 + bytes 1 * 2 ^ 16 + bytes 2 * 2 ^ 8 + bytes 3
    else bytes 3 * 2 ^ 24 + bytes 2 * 2 ^ 16 + bytes 1 * 2 ^ 8 + bytes 0

-- The two loops, over an unsigned `i`; `left` bounds the rounds, of which the guard lets four run.
unfoldable pub read_loop : ℕ → ℕ → ℕ → ℕ → (ℕ → ℕ) → Bytes → (ℕ → ℕ)
read_loop zero step i value bytes text = bytes
read_loop (suc left) step i value bytes text =
    let value' = sscanf_02x text value in
    let rest =
      read_loop left step (add32 i step) value' (update bytes i (value' % 2 ^ 8)) (drop 2 text) in
    if ltb i 4 then rest else bytes

unfoldable pub write_loop : ℕ → ℕ → ℕ → (ℕ → ℕ) → Bytes
write_loop zero step i bytes = []
write_loop (suc left) step i bytes =
    let rest = write_loop left step (add32 i step) bytes in
    if ltb i 4 then print_byte (bytes i) ++ rest else []

-- `stale` is what the variable `value` holds before the first conversion. All four bytes are assigned, so that the zeros are not seen.
unfoldable pub read_uint32 : Order → ℕ → Bytes → ℕ
read_uint32 o stale text =
    integer_of_bytes o.host (read_loop 5 (step o) (start o) stale (λ i. 0) text)

unfoldable pub write_uint32 : Order → ℕ → Bytes
write_uint32 o value = write_loop 5 (step o) (start o) (byte_of_integer o.host value)
