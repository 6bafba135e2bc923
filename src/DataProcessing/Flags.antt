-- ===== src/DataProcessing/Flags.antt =====
-- The flags: `ZNCV_update`, and the overflow and carry that the operands compute.
use l3_info_simulateur_arm.Base.{
  ℕ, ◌+◌, ◌-◌, ◌*◌, ◌/◌, ◌%◌, ◌^◌, ◌≤◌, ◌<◌, ◌≡◌, ◌↔◌, ◌⊎◌, refl, arith, Bool, if◌then◌else◌, ◌==◌,
}
use l3_info_simulateur_arm.Constants.{flag_n, flag_z, flag_c, flag_v}
use l3_info_simulateur_arm.Util.{get_bit}
use l3_info_simulateur_arm.Util.Laws.{set_bit_lem, clr_bit_lem}
use l3_info_simulateur_arm.DataProcessing.{truth, update_z, update_n, update_flag, zncv}
use l3_info_simulateur_arm.DataProcessing.Operand.{compute, add}

-- The word with bit `i` replaced by `v`.
abbrev put : ℕ → ℕ → ℕ → ℕ
put x i v = x - x / 2 ^ i % 2 * 2 ^ i + v * 2 ^ i

abbrev bit_of : Bool → ℕ
bit_of b = if b then 1 else 0

put_z : (value x : ℕ) → x < 2 ^ 32 → update_z value x ≡ put x flag_z (bit_of (value == 0))
unfolding update_z get_bit
put_z value x h = ground (arith, set_bit_lem x flag_z, clr_bit_lem x flag_z)

put_n : (value x : ℕ) → x < 2 ^ 32 → update_n value x ≡ put x flag_n (get_bit value 31)
unfolding update_n get_bit
put_n value x h = ground (arith, set_bit_lem x flag_n, clr_bit_lem x flag_n)

put_c :
    (carry x : ℕ) → x < 2 ^ 32 → update_flag flag_c carry 1 x ≡ put x flag_c (bit_of (truth carry))
unfolding update_flag get_bit
put_c carry x h = ground (arith, set_bit_lem x flag_c, clr_bit_lem x flag_c)

put_v :
    (overflow o_v x : ℕ)
    → x < 2 ^ 32
    → update_flag flag_v overflow o_v x
      ≡ put x flag_v (if truth o_v then bit_of (truth overflow) else get_bit x flag_v)
unfolding update_flag get_bit
put_v overflow o_v x h = ground (arith, set_bit_lem x flag_v, clr_bit_lem x flag_v)

update_z-lt : (value x : ℕ) → x < 2 ^ 32 → update_z value x < 2 ^ 32
update_z-lt value x h =
    let small : bit_of (value == 0) ≤ 1 = ground arith in omega (arith, put_z value x h)

update_n-lt : (value x : ℕ) → x < 2 ^ 32 → update_n value x < 2 ^ 32
unfolding get_bit
update_n-lt value x h = omega (arith, put_n value x h)

update_c-lt : (carry x : ℕ) → x < 2 ^ 32 → update_flag flag_c carry 1 x < 2 ^ 32
update_c-lt carry x h =
    let small : bit_of (truth carry) ≤ 1 = ground arith in omega (arith, put_c carry x h)

-- Four bits put in turn.
put_four :
    (x a b c w z n carry v : ℕ)
    → x < 2 ^ 32
    → z ≤ 1
    → n ≤ 1
    → carry ≤ 1
    → v ≤ 1
    → a ≡ put x flag_z z
    → b ≡ put a flag_n n
    → c ≡ put b flag_c carry
    → w ≡ put c flag_v v
    → (w / 2 ^ flag_z % 2 ≡ z)
      × (w / 2 ^ flag_n % 2 ≡ n)
      × (w / 2 ^ flag_c % 2 ≡ carry)
      × (w / 2 ^ flag_v % 2 ≡ v)
      × (w % 2 ^ 28 ≡ x % 2 ^ 28)
put_four x a b c w z n carry v hx hz hn hc hv ea eb ec ew = omega arith

flag_v_kept :
    (x a b c z n carry : ℕ)
    → x < 2 ^ 32
    → z ≤ 1
    → n ≤ 1
    → carry ≤ 1
    → a ≡ put x flag_z z
    → b ≡ put a flag_n n
    → c ≡ put b flag_c carry
    → c / 2 ^ flag_v % 2 ≡ x / 2 ^ flag_v % 2
flag_v_kept x a b c z n carry hx hz hn hc ea eb ec = omega arith

-- After an update of a 32-bit status word from a 32-bit value, Z says that the value is 0, N is its bit 31, C is the carry, V is the overflow
-- where it is asked for and is kept otherwise, and the bits below 28 are kept.
pub zncv_lem :
    (overflow carry value o_v status : ℕ)
    → status < 2 ^ 32
    → value < 2 ^ 32
    → let w = zncv overflow carry value o_v 1 status in
      (get_bit w flag_z ≡ (if value == 0 then 1 else 0))
      × (get_bit w flag_n ≡ get_bit value 31)
      × (get_bit w flag_c ≡ (if truth carry then 1 else 0))
      × (get_bit w flag_v
          ≡ (if truth o_v then (if truth overflow then 1 else 0) else get_bit status flag_v))
      × (w % 2 ^ 28 ≡ status % 2 ^ 28)
unfolding zncv get_bit
zncv_lem overflow carry value o_v status hs hv =
    (ground (arith, four.0), four.1, ground (arith, four.2), ground (arith, four.3, kept), four.4)
  where
    a : ℕ
    a = update_z value status

    b : ℕ
    b = update_n value a

    c : ℕ
    c = update_flag flag_c carry 1 b

    v : ℕ
    v = if truth o_v then bit_of (truth overflow) else c / 2 ^ flag_v % 2

    in_b : b < 2 ^ 32
    in_b = update_n-lt value a (update_z-lt value status hs)

    kept : c / 2 ^ flag_v % 2 ≡ status / 2 ^ flag_v % 2
    kept =
        flag_v_kept status a b c (bit_of (value == 0)) (value / 2 ^ 31 % 2) (bit_of (truth carry))
          hs (ground arith) (omega arith) (ground arith) (put_z value status hs)
          (put_n value a (update_z-lt value status hs)) (put_c carry b in_b)

    four :
        let w = update_flag flag_v overflow o_v c in
        (w / 2 ^ flag_z % 2 ≡ bit_of (value == 0))
        × (w / 2 ^ flag_n % 2 ≡ value / 2 ^ 31 % 2)
        × (w / 2 ^ flag_c % 2 ≡ bit_of (truth carry))
        × (w / 2 ^ flag_v % 2 ≡ v)
        × (w % 2 ^ 28 ≡ status % 2 ^ 28)
    four =
        put_four status a b c (update_flag flag_v overflow o_v c) (bit_of (value == 0))
          (value / 2 ^ 31 % 2) (bit_of (truth carry)) v hs (ground arith) (omega arith)
          (ground arith) (ground arith) (put_z value status hs)
          (put_n value a (update_z-lt value status hs)) (put_c carry b in_b)
          (put_v overflow o_v c (update_c-lt carry b in_b))

-- An addition of two 32-bit words gives the sum modulo 2 ^ 32; its carry is 1 exactly where the sum
-- reaches 2 ^ 32, and its overflow is 1 exactly where two operands of one sign have a sum of the
-- other sign.
add_flags :
    (a b carry : ℕ)
    → a < 2 ^ 32
    → b < 2 ^ 32
    → let r = compute add a b carry in
      (r.value ≡ (a + b) % 2 ^ 32)
      × ((r.carry_from ≡ 1) ↔ (2 ^ 32 ≤ a + b))
      × ((r.overflow ≡ 1) ↔ (
          (a < 2 ^ 31) × (b < 2 ^ 31) × (2 ^ 31 ≤ a + b)
          ⊎ (2 ^ 31 ≤ a) × (2 ^ 31 ≤ b) × (a + b < 2 ^ 32 + 2 ^ 31)))
unfolding compute add get_bit
add_flags a b carry ha hb = (refl, ground arith, ground arith)
