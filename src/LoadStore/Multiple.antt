-- ===== src/LoadStore/Multiple.antt =====
-- The addresses of the loops of LDM and STM.
use native.Mathlib.Nat.{add-mul-div_left, one-le-pow, pow-suc, mul_assoc}
use l3_info_simulateur_arm.Base.{
  ℕ, zero, suc, ◌+◌, ◌-◌, ◌*◌, ◌/◌, ◌%◌, ◌^◌, ◌≤◌, ◌<◌, ◌≡◌, ◌∙◌, refl, sym, ap, arith, Bool, true,
  false, not, ◌&&◌, ◌||◌, if◌then◌else◌, ◌==◌,
}
use l3_info_simulateur_arm.Base.{pow-add}
use l3_info_simulateur_arm.Util.{get_bit, get_bits, add32, sub32, minus_one}
use l3_info_simulateur_arm.Core.{
  ArmCore, arm_read_register, arm_write_register, arm_read_word, arm_write_word,
}
use l3_info_simulateur_arm.Core.Keeps.{IsWordCore, arm_read_register-lt}
use l3_info_simulateur_arm.Condition.{condition}
use l3_info_simulateur_arm.LoadStore.Address.{
  Block, count_bits, number_of_set_bits, get_address_mode_multi,
}
use l3_info_simulateur_arm.LoadStore.{
  Stale, is_load, load_registers, load_pc, store_registers, check_end, arm_load_store_multiple,
}

-- Bit `i` of the low halfword of an instruction, the register list.
pub field_bit : (x i : ℕ) → i < 16 → get_bit (get_bits x 15 0) i ≡ get_bit x i
unfolding get_bit get_bits
field_bit x i h =
    let q = x / 2 ^ 16 in
    let r = x % 2 ^ 16 in
    let t = 2 ^ (15 - i) in
    let twice : 2 * t ≡ 2 ^ suc (15 - i) = omega (arith, pow-suc 2 (15 - i)) in
    let whole_width : i + suc (15 - i) ≡ 16 = omega arith in
    let factors : 2 ^ i * (2 * t) ≡ 2 ^ 16 =
      ap (λ u. 2 ^ i * u) twice ∙ sym (pow-add i (suc (15 - i))) ∙ ap (λ n. 2 ^ n) whole_width in
    let shifted : (r + 2 ^ i * (2 * t * q)) / 2 ^ i ≡ r / 2 ^ i + 2 * t * q =
      add-mul-div_left r (2 * t * q) (omega (arith, one-le-pow i 2)) in
    let whole : r + 2 ^ i * (2 * t * q) ≡ x =
      omega (arith, mul_assoc (2 ^ i) (2 * t) q, ap (λ u. u * q) factors) in
    let low : x / 2 ^ 0 % 2 ^ (15 + 1 - 0) ≡ r = omega arith in
    ap (λ y. y / 2 ^ i % 2) low
    ∙ omega (arith, ap (λ y. y / 2 ^ i) (sym whole) ∙ shifted, mul_assoc 2 t q)

count_bits_last :
    (champ left i count : ℕ)
    → let before = count_bits champ left i count in
      count_bits champ (suc left) i count
      ≡ (if get_bit champ (i + left) == 1 then before + 1 else before)
unfolding count_bits
count_bits_last champ zero i count = ground arith
count_bits_last champ (suc left) i count =
    ground (
      arith,
      count_bits_last champ left (i + 1) (if get_bit champ i == 1 then count + 1 else count),
    )

module _ (stale : Stale) (ins start : ℕ) where
  -- The address stands four bytes after `start` for each register that is listed below.
  load_registers_address :
      (left i count address : ℕ) (p : ArmCore)
      → i + left ≤ 16
      → address ≡ (start + 4 * count) % 2 ^ 32
      → (load_registers stale ins left i address p).0
        ≡ (start + 4 * count_bits (get_bits ins 15 0) left i count) % 2 ^ 32
  unfolding load_registers count_bits
  load_registers_address zero i count address p h e = e
  load_registers_address (suc left) i count address p h e = ground (
    arith,
    field_bit ins i (omega arith),
    load_registers_address left (i + 1) (count + 1) (add32 address 4)
        (arm_write_register p i (arm_read_word p address (stale.loaded i)).1) (omega arith)
        (omega arith),
    load_registers_address left (i + 1) count address p (omega arith) e,
  )

  store_registers_address :
      (left i count address : ℕ) (p : ArmCore)
      → i + left ≤ 16
      → address ≡ (start + 4 * count) % 2 ^ 32
      → (store_registers ins left i address p).0
        ≡ (start + 4 * count_bits (get_bits ins 15 0) left i count) % 2 ^ 32
  unfolding store_registers count_bits
  store_registers_address zero i count address p h e = e
  store_registers_address (suc left) i count address p h e = ground (
    arith,
    field_bit ins i (omega arith),
    store_registers_address left (i + 1) (count + 1) (add32 address 4)
        (arm_write_word p address (arm_read_register p i)).1 (omega arith) (omega arith),
    store_registers_address left (i + 1) count address p (omega arith) e,
  )

  -- The last address is the one that `addresses[1]` holds.
  loaded_address :
      (p : ArmCore)
      → start < 2 ^ 32
      → let loaded = load_registers stale ins 15 0 start p in
        (load_pc stale ins loaded.0 loaded.1).0
        ≡ (start + 4 * number_of_set_bits (get_bits ins 15 0)) % 2 ^ 32
  unfolding load_pc number_of_set_bits
  loaded_address p h = ground (
    arith,
    load_registers_address 15 0 0 start p (omega arith) (omega arith),
    count_bits_last (get_bits ins 15 0) 15 0 0,
    field_bit ins 15 (omega arith),
  )

count_bits-le : (champ left i count : ℕ) → count_bits champ left i count ≤ count + left
unfolding count_bits
count_bits-le champ zero i count = omega arith
count_bits-le champ (suc left) i count =
    ground
      (arith, count_bits-le champ left (i + 1) count, count_bits-le champ left (i + 1) (count + 1))

number_of_set_bits-le : (champ : ℕ) → number_of_set_bits champ ≤ 16
unfolding number_of_set_bits
number_of_set_bits-le champ = count_bits-le champ 16 0 0

-- The last address fits the number of registers.
record Ends (count : ℕ) (mode : Block) : Type 0 where
  first : mode.start_address < 2 ^ 32
  last : mode.end_address ≡ sub32 ((mode.start_address + 4 * count) % 2 ^ 32) 4

Ends-if :
    {count : ℕ} (b : Bool) {x y : Block}
    → Ends count x
    → Ends count y
    → Ends count (if b then x else y)
Ends-if true h k = h
Ends-if false h k = k

get_address_mode_multi-Ends :
    (p : ArmCore) (ins : ℕ)
    → IsWordCore p
    → Ends (number_of_set_bits (get_bits ins 15 0)) (get_address_mode_multi p ins)
unfolding get_address_mode_multi
get_address_mode_multi-Ends p ins word =
    let after = get_bit ins 24 == 0 in
    let inc = get_bit ins 23 == 1 in
    let fits = arm_read_register-lt p (get_bits ins 19 16) word in
    let few = number_of_set_bits-le (get_bits ins 15 0) in
    Ends-if (inc && after) (record { first = fits; last = omega arith })
      (Ends-if (inc && not after) (record { first = omega arith; last = omega arith })
        (Ends-if (not inc && after) (record { first = omega arith; last = omega arith })
          (record { first = omega arith; last = omega arith })))

check_end_code :
    (end : ℕ) (r : ℕ × ArmCore) (address : ℕ)
    → r.0 ≡ address
    → end ≡ sub32 address 4
    → (check_end end r).0 ≡ 0
check_end_code end (a, p) address e h = ground arith

code-if :
    (b : Bool) (x y : ℕ × ArmCore) {n m : ℕ}
    → x.0 ≡ n
    → y.0 ≡ m
    → (if b then x else y).0 ≡ (if b then n else m)
code-if true x y h k = h
code-if false x y h k = k

same-if : (b : Bool) {n : ℕ} → (if b then n else n) ≡ n
same-if true = refl
same-if false = refl

-- The check of the last address never fails: a load or a store of several registers returns 0,
-- unless the first or the last address is 0xFFFFFFFF, the mark of an addressing mode that is not
-- known, when it returns -1. The cells hold 32-bit words.
pub arm_load_store_multiple_code :
    (stale : Stale) (p : ArmCore) (ins : ℕ)
    → IsWordCore p
    → let mode = get_address_mode_multi p ins in
      (arm_load_store_multiple stale p ins).0
      ≡ (if mode.start_address == minus_one || mode.end_address == minus_one then minus_one else 0)
unfolding arm_load_store_multiple number_of_set_bits
arm_load_store_multiple_code stale p ins word =
    let mode = get_address_mode_multi p ins in
    let ends = get_address_mode_multi-Ends p ins word in
    let loaded = loaded_address stale ins mode.start_address mode.core ends.first in
    let stored =
      store_registers_address stale ins mode.start_address 16 0 0 mode.start_address mode.core
        (omega arith) (omega (arith, ends.first)) in
    let load = load_registers stale ins 15 0 mode.start_address mode.core in
    let loads = load_pc stale ins load.0 load.1 in
    let stores = store_registers ins 16 0 mode.start_address mode.core in
    let address = (mode.start_address + 4 * number_of_set_bits (get_bits ins 15 0)) % 2 ^ 32 in
    let transfer =
      if is_load ins then check_end mode.end_address loads else check_end mode.end_address stores in
    let whole = get_bit ins 22 == 0 && condition mode.core ins in
    let code : transfer.0 ≡ 0 =
      code-if (is_load ins) (check_end mode.end_address loads) (check_end mode.end_address stores)
        (check_end_code mode.end_address loads address loaded ends.last)
        (check_end_code mode.end_address stores address stored ends.last)
      ∙ same-if (is_load ins) in
    code-if (mode.start_address == minus_one || mode.end_address == minus_one)
      (minus_one, mode.core) (if whole then transfer else (0, mode.core)) refl
      (code-if whole transfer (0, mode.core) code refl ∙ same-if whole)
