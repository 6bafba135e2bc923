-- ===== src/LoadStore/Preserve.antt =====
-- What `arm_load_store` and `arm_load_store_multiple` keep as a whole.
use l3_info_simulateur_arm.Base.{
  ℕ, zero, suc, ◌+◌, ◌^◌, ◌<◌, arith, ◌&&◌, ◌||◌, if◌then◌else◌, ◌==◌, bit_and, bit_and-le,
}
use l3_info_simulateur_arm.Util.{add32, minus_one, get_bit}
use l3_info_simulateur_arm.Core.{
  ArmCore, arm_read_register, arm_write_register, arm_read_word, arm_write_word,
}
use l3_info_simulateur_arm.Core.Keeps.{IsWordCore, Keeps, Keeps-refl, Keeps-trans, Keeps-if}
use l3_info_simulateur_arm.Core.Keeps.{
  arm_read_register-lt, arm_write_register-Keeps, arm_write_word-Keeps,
}
use l3_info_simulateur_arm.Condition.{condition}
use l3_info_simulateur_arm.LoadStore.Address.{get_address_mode_multi}
use l3_info_simulateur_arm.LoadStore.{Stale, is_load, is_h, is_b, arm_load_store, load_registers}
use l3_info_simulateur_arm.LoadStore.{load_pc, store_registers, check_end, arm_load_store_multiple}
use l3_info_simulateur_arm.LoadStore.Keeps.{
  IsWordStale, KeepsPair, pair, pair-if, second, core_of, arm_read_word-lt,
}
use l3_info_simulateur_arm.LoadStore.Keeps.{get_address_mode_half-Keeps, get_address_mode_bw-Keeps}
use l3_info_simulateur_arm.LoadStore.Keeps.{
  get_address_mode_multi-Keeps, load_half-Keeps, load_byte-Keeps,
}
use l3_info_simulateur_arm.LoadStore.Keeps.{
  load_word-Keeps, store_half-Keeps, store_byte-Keeps, store_word-Keeps,
}

module _ (stale : Stale) (s : IsWordStale stale) where
  -- A load or a store of one register, in any addressing mode and at any address, leaves 32-bit
  -- words in every cell, the size and the byte order of the memory and the cycle count, where the
  -- cells held 32-bit words and a variable that a failed read leaves alone holds one.
  pub arm_load_store-Keeps :
      (p : ArmCore) (ins : ℕ) → IsWordCore p → Keeps p (arm_load_store stale p ins)
  unfolding arm_load_store
  arm_load_store-Keeps p ins h =
      let half = get_address_mode_half-Keeps p ins h in
      let bw = get_address_mode_bw-Keeps p ins h in
      Keeps-if (is_load ins)
        (Keeps-if (is_h ins) (load_half-Keeps stale ins s half)
          (Keeps-if (is_b ins) (load_byte-Keeps stale ins s bw) (load_word-Keeps stale ins s bw)))
        (Keeps-if (is_h ins) (store_half-Keeps stale ins s half)
          (Keeps-if (is_b ins) (store_byte-Keeps stale ins s bw) (store_word-Keeps stale ins s bw)))

  load_registers-Keeps :
      (left ins i address : ℕ) (p : ArmCore)
      → IsWordCore p
      → Keeps p (load_registers stale ins left i address p).1
  unfolding load_registers
  load_registers-Keeps zero ins i address p h = Keeps-refl h
  load_registers-Keeps (suc left) ins i address p h =
      let value = (arm_read_word p address (stale.loaded i)).1 in
      let fits = arm_read_word-lt p address (stale.loaded i) h (s.loaded i) in
      let loaded = arm_write_register-Keeps p i value h fits in
      let one = Keeps-if (get_bit ins i == 1) loaded (Keeps-refl h) in
      Keeps-trans one (
        load_registers-Keeps left ins (i + 1)
          (if get_bit ins i == 1 then add32 address 4 else address)
          (if get_bit ins i == 1 then arm_write_register p i value else p) one.word)

  load_pc-Keeps :
      (ins address : ℕ) (p : ArmCore) → IsWordCore p → KeepsPair p (load_pc stale ins address p)
  unfolding load_pc
  load_pc-Keeps ins address p h =
      let value = (arm_read_word p address (stale.loaded 15)).1 in
      let fits : bit_and value 0xFFFFFFFE < 2 ^ 32 = omega (arith, bit_and-le value 0xFFFFFFFE) in
      pair-if (get_bit ins 15 == 1)
        (pair (arm_write_register-Keeps p 15 (bit_and value 0xFFFFFFFE) h fits))
        (pair (Keeps-refl h))

  store_registers-Keeps :
      (left ins i address : ℕ) (p : ArmCore)
      → IsWordCore p
      → Keeps p (store_registers ins left i address p).1
  unfolding store_registers
  store_registers-Keeps zero ins i address p h = Keeps-refl h
  store_registers-Keeps (suc left) ins i address p h =
      let value = arm_read_register p i in
      let stored = arm_write_word-Keeps p address value h (arm_read_register-lt p i h) in
      let one = Keeps-if (get_bit ins i == 1) stored (Keeps-refl h) in
      Keeps-trans one (
        store_registers-Keeps left ins (i + 1)
          (if get_bit ins i == 1 then add32 address 4 else address)
          (if get_bit ins i == 1 then (arm_write_word p address value).1 else p) one.word)

  check_end-Keeps :
      (end_address : ℕ) {p : ArmCore} (r : ℕ × ArmCore)
      → Keeps p r.1
      → KeepsPair p (check_end end_address r)
  check_end-Keeps end_address (address, q) k = pair k

  -- A load or a store of several registers leaves 32-bit words in every cell, the size and the byte
  -- order of the memory and the cycle count, where the cells held 32-bit words and a variable that a
  -- failed read leaves alone holds one.
  pub arm_load_store_multiple-Keeps :
      (p : ArmCore) (ins : ℕ) → IsWordCore p → KeepsPair p (arm_load_store_multiple stale p ins)
  unfolding arm_load_store_multiple
  arm_load_store_multiple-Keeps p ins h =
      let mode = get_address_mode_multi p ins in
      let based = core_of (get_address_mode_multi-Keeps p ins h) in
      let loaded = load_registers stale ins 15 0 mode.start_address mode.core in
      let loads = load_registers-Keeps 15 ins 0 mode.start_address mode.core based.word in
      let last = second (load_pc-Keeps ins loaded.0 loaded.1 loads.word) in
      let stores = store_registers-Keeps 16 ins 0 mode.start_address mode.core based.word in
      pair-if (mode.start_address == minus_one || mode.end_address == minus_one) (pair based) (
        pair-if (get_bit ins 22 == 0 && condition mode.core ins)
          (pair-if (is_load ins)
            (check_end-Keeps mode.end_address (load_pc stale ins loaded.0 loaded.1)
              (Keeps-trans based (Keeps-trans loads last)))
            (check_end-Keeps mode.end_address
              (store_registers ins 16 0 mode.start_address mode.core) (Keeps-trans based stores)))
          (pair based))
