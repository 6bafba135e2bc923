-- ===== src/LoadStore/Single.antt =====
-- STR and LDR with an immediate offset.
use l3_info_simulateur_arm.Base.{
  ℕ, ◌%◌, ◌<◌, ◌≡◌, ◌≢◌, ◌∙◌, refl, sym, arith, if◌then◌else◌, ◌==◌, ==_ne,
}
use l3_info_simulateur_arm.Util.{get_bit, get_bits, minus_one}
use l3_info_simulateur_arm.Registers.{get_mode, read_register}
use l3_info_simulateur_arm.Registers.Banks.{IsMode}
use l3_info_simulateur_arm.Registers.Access.{read_register-write_register}
use l3_info_simulateur_arm.Memory.Words.{memory_read_word-memory_write_word}
use l3_info_simulateur_arm.Core.{
  ArmCore, arm_read_register, arm_write_register, arm_read_word, arm_write_word,
}
use l3_info_simulateur_arm.Core.Keeps.{IsWordCore, arm_read_register-lt}
use l3_info_simulateur_arm.LoadStore.Address.{move_by, get_address_mode_bw}
use l3_info_simulateur_arm.LoadStore.{Stale, load_word, store_word, arm_load_store}

-- The bits of a transfer of a word at an immediate offset from the base register, with no write-back.
pub record IsOffset (ins : ℕ) : Type 0 where
  pub class : get_bits ins 27 25 ≡ 2
  pub before : get_bit ins 24 ≡ 1
  pub word : get_bit ins 22 ≡ 0
  pub no_back : get_bit ins 21 ≡ 0

abbrev pub offset_address : ArmCore → ℕ → ℕ
offset_address p ins = move_by ins (arm_read_register p (get_bits ins 19 16)) (get_bits ins 11 0)

-- Bit 25 of the class.
class_bit : (ins : ℕ) → get_bits ins 27 25 ≡ 2 → get_bit ins 25 ≡ 0
unfolding get_bits get_bit
class_bit ins h = omega (arith, h)

offset_mode :
    (p : ArmCore) (ins : ℕ) → IsOffset ins → get_address_mode_bw p ins ≡ (offset_address p ins, p)
unfolding get_address_mode_bw
offset_mode p ins h = rw (class_bit ins h.class, h.before, h.no_back) refl

store_offset :
    (stale : Stale) (p : ArmCore) (ins : ℕ)
    → IsOffset ins
    → get_bit ins 20 ≡ 0
    → arm_load_store stale p ins
      ≡ (arm_write_word p (offset_address p ins) (arm_read_register p (get_bits ins 15 12))).1
unfolding arm_load_store store_word
store_offset stale p ins h store = rw (store, h.class, h.word, offset_mode p ins h) refl

load_offset :
    (stale : Stale) (p : ArmCore) (ins : ℕ)
    → IsOffset ins
    → get_bit ins 20 ≡ 1
    → offset_address p ins ≢ minus_one
    → arm_load_store stale p ins
      ≡ arm_write_register p
          (get_bits ins 15 12)
          (arm_read_word p (offset_address p ins) stale.word).1
unfolding arm_load_store load_word
load_offset stale p ins h load known =
    rw (load, h.class, h.word, offset_mode p ins h, ==_ne _ minus_one known) refl

field_lt : (ins : ℕ) → get_bits ins 15 12 < 16
unfolding get_bits
field_lt ins = omega arith

module _ (stale stale' : Stale) (p : ArmCore) (str ldr : ℕ) (is_str : IsOffset str)
    (stores : get_bit str 20 ≡ 0) (is_ldr : IsOffset ldr) (loads : get_bit ldr 20 ≡ 1)
    (base : get_bits ldr 19 16 ≡ get_bits str 19 16) (up : get_bit ldr 23 ≡ get_bit str 23)
    (offset : get_bits ldr 11 0 ≡ get_bits str 11 0) (valid : IsMode (get_mode p.reg))
    (word : IsWordCore p) (aligned : offset_address p str % 4 ≡ 0)
    (inside : offset_address p str < p.mem.size) where
  abbrev after : ArmCore
  after = arm_load_store stale p str

  same_address : offset_address after ldr ≡ offset_address p str
  unfolding arm_read_register arm_write_word
  same_address = rw (store_offset stale p str is_str stores, base, up, offset) refl

  -- A word stored at an immediate offset from the base register and then loaded from the same
  -- offset: the register that the load names holds what the store read from its own register, and
  -- all others are as they were. The address is aligned and inside of the memory, the
  -- mode is one of the seven, and registers and memory hold 32-bit words. The two
  -- condition fields are arbitrary: neither instruction looks at its own.
  pub load-store :
      (j : ℕ)
      → j < 16
      → read_register (arm_load_store stale' after ldr).reg j ≡ (
          if j == get_bits ldr 15 12
          then arm_read_register p (get_bits str 15 12)
          else read_register p.reg j)
  unfolding arm_write_register arm_write_word arm_read_word
  load-store j h =
      let value = arm_read_register p (get_bits str 15 12) in
      let known : offset_address after ldr ≢ minus_one =
        λ e. omega (arith, aligned, sym same_address ∙ e) in
      rw
        (
          load_offset stale' after ldr is_ldr loads known,
          same_address,
          store_offset stale p str is_str stores,
          memory_read_word-memory_write_word p.mem (offset_address p str) value stale'.word inside
              aligned (arm_read_register-lt p (get_bits str 15 12) word),
        )
        (read_register-write_register p.reg (get_bits ldr 15 12) j value valid (field_lt ldr) h)
