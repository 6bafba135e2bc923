-- ===== src/LoadStore/Keeps.antt =====
-- What loads and stores keep.
use l3_info_simulateur_arm.Base.{
  ℕ, ◌*◌, ◌^◌, ◌<◌, arith, Bool, true, false, not, ◌&&◌, if◌then◌else◌, ◌==◌,
}
use l3_info_simulateur_arm.Base.{bit_or}
use l3_info_simulateur_arm.Util.{u8, u16, add32, sub32, minus_one, get_bit, get_bits}
use l3_info_simulateur_arm.Util.Bounds.{set_bits-lt}
use l3_info_simulateur_arm.Memory.Bytes.{memory_read_byte-lt}
use l3_info_simulateur_arm.Memory.Halves.{memory_read_half-lt, memory_read_word-lt}
use l3_info_simulateur_arm.Core.{ArmCore, arm_read_register}
use l3_info_simulateur_arm.Core.{arm_read_byte, arm_read_half, arm_read_word}
use l3_info_simulateur_arm.Core.Keeps.{IsWordCore, Keeps, Keeps-refl, Keeps-trans, Keeps-if}
use l3_info_simulateur_arm.Core.Keeps.{arm_read_register-lt, arm_write_register-Keeps}
use l3_info_simulateur_arm.Core.Keeps.{
  arm_write_byte-Keeps, arm_write_half-Keeps, arm_write_word-Keeps,
}
use l3_info_simulateur_arm.Condition.{condition}
use l3_info_simulateur_arm.LoadStore.Address.{
  move_by, write_back, write_base, Block, shift, number_of_set_bits,
}
use l3_info_simulateur_arm.LoadStore.Address.{
  get_address_mode_half, get_address_mode_bw, get_address_mode_multi,
}
use l3_info_simulateur_arm.LoadStore.{
  Stale, extend_half, extend_byte, load_half, load_byte, load_word,
}
use l3_info_simulateur_arm.LoadStore.{store_half, store_byte, store_word}

-- The uninitialised words are 32-bit words.
pub record IsWordStale (s : Stale) : Type 0 where
  pub word : s.word < 2 ^ 32
  pub loaded : (i : ℕ) → s.loaded i < 2 ^ 32

-- An address or a code, beside a processor that keeps what `p` has.
pub data KeepsPair (p : ArmCore) : ℕ × ArmCore → Type 0 where
  pair : {a : ℕ} {q : ArmCore} → Keeps p q → KeepsPair p (a, q)

pub second : {p : ArmCore} {r : ℕ × ArmCore} → KeepsPair p r → Keeps p r.1
second (pair h) = h

pub pair-if :
    (b : Bool) {p : ArmCore} {x y : ℕ × ArmCore}
    → KeepsPair p x
    → KeepsPair p y
    → KeepsPair p (if b then x else y)
pair-if true h k = h
pair-if false h k = k

pub data KeepsBlock (p : ArmCore) : Block → Type 0 where
  block :
      {a b : ℕ} {q : ArmCore}
      → Keeps p q
      → KeepsBlock p (record { start_address = a; end_address = b; core = q })

pub core_of : {p : ArmCore} {b : Block} → KeepsBlock p b → Keeps p b.core
core_of (block h) = h

block-if :
    (b : Bool) {p : ArmCore} {x y : Block}
    → KeepsBlock p x
    → KeepsBlock p y
    → KeepsBlock p (if b then x else y)
block-if true h k = h
block-if false h k = k

module _ (p : ArmCore) (ins : ℕ) (h : IsWordCore p) where
  kept : {a : ℕ} → KeepsPair p (a, p)
  kept = pair (Keeps-refl h)

  back :
      (base offset address : ℕ) → KeepsPair p (write_back p ins (move_by ins base offset) address)
  back base offset address =
      let moved = move_by ins base offset in
      let fits : moved < 2 ^ 32 = ground arith in
      pair-if (condition p ins)
        (pair (arm_write_register-Keeps p (get_bits ins 19 16) moved h fits)) kept

  base-Keeps : (base : ℕ) → base < 2 ^ 32 → Keeps p (write_base p ins base)
  base-Keeps base fits =
      Keeps-if (condition p ins && get_bit ins 21 == 1)
        (arm_write_register-Keeps p (get_bits ins 19 16) base h fits) (Keeps-refl h)

  pub get_address_mode_half-Keeps : KeepsPair p (get_address_mode_half p ins)
  unfolding get_address_mode_half
  get_address_mode_half-Keeps =
      let is_post = get_bit ins 24 == 0 in
      let type = get_bits ins 22 21 in
      let val_rn = arm_read_register p (get_bits ins 19 16) in
      let val_rm = arm_read_register p (get_bits ins 3 0) in
      let offset_8 = u8 (bit_or (get_bits ins 11 8 * 2 ^ 4) (get_bits ins 3 0)) in
      pair-if (is_post && type == 0) (back val_rn val_rm val_rn) (
        pair-if (is_post && type == 2) (back val_rn offset_8 val_rn) (
          pair-if (not is_post && type == 0) kept (
            pair-if (not is_post && type == 1) (back val_rn val_rm (move_by ins val_rn val_rm)) (
              pair-if (not is_post && type == 2) kept (
                pair-if (not is_post && type == 3)
                  (back val_rn offset_8 (move_by ins val_rn offset_8)) kept)))))

  pub get_address_mode_bw-Keeps : KeepsPair p (get_address_mode_bw p ins)
  unfolding get_address_mode_bw
  get_address_mode_bw-Keeps =
      let val_rn = arm_read_register p (get_bits ins 19 16) in
      let offset = get_bits ins 11 0 in
      let index = shift p ins (arm_read_register p (get_bits ins 3 0)) in
      let w = get_bit ins 21 in
      let before = get_bit ins 24 in
      pair-if (get_bit ins 25 == 0)
        (pair-if (w == 0 && before == 1) kept (
          pair-if (w == 1 && before == 1) (back val_rn offset (move_by ins val_rn offset))
            (pair-if (w == 0 && before == 0) (pair-if (condition p ins) kept kept) kept)))
        (pair-if (before == 0) (pair-if (condition p ins) kept kept)
          (pair-if (w == 1) (back val_rn index (move_by ins val_rn index)) kept))

  pub get_address_mode_multi-Keeps : KeepsBlock p (get_address_mode_multi p ins)
  unfolding get_address_mode_multi
  get_address_mode_multi-Keeps =
      let val_rn = arm_read_register p (get_bits ins 19 16) in
      let count = number_of_set_bits (get_bits ins 15 0) * 4 in
      let after = get_bit ins 24 == 0 in
      let inc = get_bit ins 23 == 1 in
      let up = base-Keeps (add32 val_rn count) (omega arith) in
      let down = base-Keeps (sub32 val_rn count) (omega arith) in
      block-if (inc && after) (block up) (
        block-if (inc && not after) (block up)
          (block-if (not inc && after) (block down) (block down)))

extend_half-lt : (ins v : ℕ) → v < 2 ^ 16 → extend_half ins v < 2 ^ 32
unfolding extend_half
extend_half-lt ins v h = ground (arith, set_bits-lt v 30 16 0xFFFF)

extend_byte-lt : (ins v : ℕ) → v < 2 ^ 8 → extend_byte ins v < 2 ^ 32
unfolding extend_byte
extend_byte-lt ins v h = ground (arith, set_bits-lt v 30 8 0xFFFFFF)

pub arm_read_word-lt :
    (q : ArmCore) (a v : ℕ) → IsWordCore q → v < 2 ^ 32 → (arm_read_word q a v).1 < 2 ^ 32
unfolding arm_read_word
arm_read_word-lt q a v h hv = memory_read_word-lt q.mem a v h.words hv

module _ (stale : Stale) (ins : ℕ) (s : IsWordStale stale) {p : ArmCore} where
  pub load_half-Keeps : {r : ℕ × ArmCore} → KeepsPair p r → Keeps p (load_half stale ins r)
  unfolding load_half
  load_half-Keeps (pair {a = a} {q = q} k) =
      Keeps-if (not (a == minus_one))
        (Keeps-trans k (
          arm_write_register-Keeps q (get_bits ins 15 12)
            (extend_half ins (arm_read_half q a (u16 stale.half)).1) k.word
            (extend_half-lt ins (arm_read_half q a (u16 stale.half)).1 (
              unfold arm_read_half in memory_read_half-lt q.mem a (u16 stale.half) (omega arith)))))
        k

  pub load_byte-Keeps : {r : ℕ × ArmCore} → KeepsPair p r → Keeps p (load_byte stale ins r)
  unfolding load_byte
  load_byte-Keeps (pair {a = a} {q = q} k) =
      Keeps-if (not (a == minus_one))
        (Keeps-trans k (
          arm_write_register-Keeps q (get_bits ins 15 12)
            (extend_byte ins (arm_read_byte q a (u8 stale.byte)).1) k.word
            (extend_byte-lt ins (arm_read_byte q a (u8 stale.byte)).1
              (unfold arm_read_byte in memory_read_byte-lt q.mem a (u8 stale.byte) (omega arith)))))
        k

  pub load_word-Keeps : {r : ℕ × ArmCore} → KeepsPair p r → Keeps p (load_word stale ins r)
  unfolding load_word
  load_word-Keeps (pair {a = a} {q = q} k) =
      Keeps-if (not (a == minus_one))
        (Keeps-trans k (
          arm_write_register-Keeps q (get_bits ins 15 12) (arm_read_word q a stale.word).1 k.word
            (arm_read_word-lt q a stale.word k.word s.word)))
        k

  pub store_half-Keeps : {r : ℕ × ArmCore} → KeepsPair p r → Keeps p (store_half ins r)
  unfolding store_half
  store_half-Keeps (pair {a = a} {q = q} k) = Keeps-trans k (
      arm_write_half-Keeps q a (u16 (arm_read_register q (get_bits ins 15 12))) k.word
        (omega arith))

  pub store_byte-Keeps : {r : ℕ × ArmCore} → KeepsPair p r → Keeps p (store_byte ins r)
  unfolding store_byte
  store_byte-Keeps (pair {a = a} {q = q} k) = Keeps-trans k (
      arm_write_byte-Keeps q a (u8 (arm_read_register q (get_bits ins 15 12))) k.word (omega arith))

  pub store_word-Keeps : {r : ℕ × ArmCore} → KeepsPair p r → Keeps p (store_word ins r)
  unfolding store_word
  store_word-Keeps (pair {a = a} {q = q} k) = Keeps-trans k (
      arm_write_word-Keeps q a (arm_read_register q (get_bits ins 15 12)) k.word
        (arm_read_register-lt q (get_bits ins 15 12) k.word))
