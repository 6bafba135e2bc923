-- ===== src/Examples/Stack.antt =====
-- A push and a pop, and a store and a load, of a concrete processor.
use mathlib.Core.Path.{subst}
use l3_info_simulateur_arm.Registers.Banks.{IsMode}
use l3_info_simulateur_arm.Base.{ℕ, ◌≡◌, refl, sym, ap, arith, true, if◌then◌else◌, ◌||◌, ◌==◌}
use l3_info_simulateur_arm.Util.{get_bit, get_bits}
use l3_info_simulateur_arm.Registers.{
  get_mode, read_register, write_register, get_register, cell_of, read_cpsr,
}
use l3_info_simulateur_arm.Memory.{memory_write_word, memory_get_size}
use l3_info_simulateur_arm.Core.{
  ArmCore, arm_read_register, arm_write_register, arm_write_word, arm_read_cpsr,
}
use l3_info_simulateur_arm.Condition.{condition, condition_of}
use l3_info_simulateur_arm.LoadStore.{arm_load_store, arm_load_store_multiple, store_registers}
use l3_info_simulateur_arm.LoadStore.Address.{
  get_address_mode_multi, number_of_set_bits, count_bits,
}
use l3_info_simulateur_arm.LoadStore.Transfer.{listed}
use l3_info_simulateur_arm.LoadStore.Stack.{IsPush, IsPop, HasRoom}
use l3_info_simulateur_arm.LoadStore.Restore.{pop-push}
use l3_info_simulateur_arm.LoadStore.Single.{IsOffset, offset_address, load-store}
use l3_info_simulateur_arm.Examples.{
  machine, stale, status, register_file-IsMode, machine-IsWordCore,
}

-- STMDB r8!, {r1, r2, r3} at a stack that ends at 32, and LDMIA r8!, {r1, r2, r3}.
abbrev push : ℕ
push = 0xE928000E

abbrev pop : ℕ
pop = 0xE8B8000E

push-IsPush : IsPush push 8
unfolding get_bits get_bit
push-IsPush = record {
  base = refl;
  before = refl;
  down = refl;
  plain = refl;
  back = refl;
  stores = refl;
}

pop-IsPop : IsPop pop 8
unfolding get_bits get_bit
pop-IsPop = record { base = refl; after = refl; up = refl; plain = refl; back = refl; loads = refl }

machine-HasRoom : HasRoom machine push 8
unfolding listed get_bit get_bits read_register get_register cell_of get_mode read_cpsr
machine-HasRoom = record {
  valid = register_file-IsMode;
  word = machine-IsWordCore;
  small = omega arith;
  aligned = refl;
  room = omega arith;
  inside = omega arith;
}

-- The processor after the push, and the same with another r2.
abbrev pushed : ArmCore
pushed = (arm_load_store_multiple stale machine push).1

abbrev changed : ArmCore
changed = arm_write_register pushed 2 99

condition-push : condition machine push ≡ true
unfolding condition condition_of get_bits arm_read_cpsr read_cpsr
condition-push = refl

changed_base : read_register changed.reg 8 ≡ read_register pushed.reg 8
unfolding read_register get_register cell_of get_mode read_cpsr get_bits get_bit write_register
    arm_write_register arm_read_register arm_load_store_multiple store_registers arm_write_word
    memory_write_word memory_get_size get_address_mode_multi number_of_set_bits count_bits condition
    condition_of arm_read_cpsr
changed_base = refl

changed_memory : changed.mem ≡ pushed.mem
unfolding arm_write_register
changed_memory = refl

read_cpsr-changed : read_cpsr changed.reg ≡ status
unfolding read_register get_register cell_of get_mode read_cpsr get_bits get_bit write_register
    arm_write_register arm_read_register arm_load_store_multiple store_registers arm_write_word
    memory_write_word memory_get_size get_address_mode_multi number_of_set_bits count_bits condition
    condition_of arm_read_cpsr
read_cpsr-changed = refl

get_mode-changed : get_mode changed.reg ≡ get_mode machine.reg
unfolding get_mode read_cpsr
get_mode-changed = ap (λ w. get_bits w 4 0) read_cpsr-changed

condition-changed : condition changed pop ≡ true
unfolding condition condition_of get_bits
condition-changed = refl

changed-IsMode : IsMode (get_mode changed.reg)
changed-IsMode = subst IsMode (sym get_mode-changed) register_file-IsMode

same_list : get_bits pop 15 0 ≡ get_bits push 15 0
unfolding get_bits
same_list = refl

base_apart : get_bit push 8 ≡ 0
unfolding get_bit
base_apart = refl

pop-push_example : read_register (arm_load_store_multiple stale changed pop).1.reg 2 ≡ (
    if 2 == 8 || get_bit push 2 == 1
    then read_register machine.reg 2
    else read_register changed.reg 2)
pop-push_example =
    pop-push stale stale machine changed push pop 8 2 push-IsPush pop-IsPop (omega arith) same_list
      base_apart machine-HasRoom condition-push changed-IsMode changed_memory changed_base
      condition-changed (omega arith)

-- STR r3, [r8, #4] and LDRNE r5, [r8, #4], whose condition fails.
abbrev str : ℕ
str = 0xE5883004

abbrev ldrne : ℕ
ldrne = 0x15985004

str-IsOffset : IsOffset str
unfolding get_bits get_bit
str-IsOffset = record { class = refl; before = refl; word = refl; no_back = refl }

ldrne-IsOffset : IsOffset ldrne
unfolding get_bits get_bit
ldrne-IsOffset = record { class = refl; before = refl; word = refl; no_back = refl }

fields :
    (get_bit str 20 ≡ 0)
    × (get_bit ldrne 20 ≡ 1)
    × (get_bits ldrne 19 16 ≡ get_bits str 19 16)
    × (get_bit ldrne 23 ≡ get_bit str 23)
    × (get_bits ldrne 11 0 ≡ get_bits str 11 0)
unfolding get_bits get_bit
fields = (refl, refl, refl, refl, refl)

address : offset_address machine str ≡ 36
unfolding get_bits get_bit arm_read_register read_register get_register cell_of get_mode read_cpsr
address = refl

load-store_example :
    read_register (arm_load_store stale (arm_load_store stale machine str) ldrne).reg 5 ≡ (
      if 5 == get_bits ldrne 15 12
      then arm_read_register machine (get_bits str 15 12)
      else read_register machine.reg 5)
load-store_example =
    load-store stale stale machine str ldrne str-IsOffset fields.0 ldrne-IsOffset fields.1 fields.2
      fields.3 fields.4 register_file-IsMode machine-IsWordCore (omega (arith, address))
      (omega (arith, address)) 5 (omega arith)
