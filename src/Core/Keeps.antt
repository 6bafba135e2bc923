-- ===== src/Core/Keeps.antt =====
-- What the operations of the processor keep: 32-bit words in every cell, the shape of the memory,
-- and the cycle count.
use l3_info_simulateur_arm.Base.{
  ℕ, ◌^◌, ◌<◌, ◌≡◌, ◌∙◌, refl, arith, Bool, true, false, if◌then◌else◌,
}
use l3_info_simulateur_arm.Base.{bit_and-le}
use l3_info_simulateur_arm.Util.{add32}
use l3_info_simulateur_arm.Registers.{Registers, read_register}
use l3_info_simulateur_arm.Registers.Access.{
  IsWordFile, write_register-IsWordFile, write_cpsr-IsWordFile,
}
use l3_info_simulateur_arm.Registers.Access.{write_spsr-IsWordFile, write_usr_register-IsWordFile}
use l3_info_simulateur_arm.Registers.Access.{read_register-lt, read_spsr-lt, read_cpsr-lt}
use l3_info_simulateur_arm.Memory.Bytes.{
  IsWordMemory, memory_write_byte-IsWordMemory, memory_write_byte-shape,
}
use l3_info_simulateur_arm.Memory.Halves.{
  memory_write_half-IsWordMemory, memory_write_word-IsWordMemory,
}
use l3_info_simulateur_arm.Memory.Halves.{memory_write_half-shape, memory_write_word-shape}
use l3_info_simulateur_arm.Core.{ArmCore, arm_read_register, arm_read_cpsr, arm_read_spsr, pc_ahead}
use l3_info_simulateur_arm.Core.{
  arm_write_register, arm_write_usr_register, arm_write_cpsr, arm_write_spsr,
}
use l3_info_simulateur_arm.Core.{arm_write_byte, arm_write_half, arm_write_word}

-- Every register and every word of the memory holds 32 bits.
pub record IsWordCore (p : ArmCore) : Type 0 where
  pub registers : IsWordFile p.reg
  pub words : IsWordMemory p.mem

-- The result of an operation on `p`.
pub record Keeps (p q : ArmCore) : Type 0 where
  pub word : IsWordCore q
  pub size : q.mem.size ≡ p.mem.size
  pub order : q.mem.is_big_endian ≡ p.mem.is_big_endian
  pub cycles : q.cycle_count ≡ p.cycle_count

pub Keeps-refl : {p : ArmCore} → IsWordCore p → Keeps p p
Keeps-refl h = record { word = h; size = refl; order = refl; cycles = refl }

pub Keeps-trans : {p q r : ArmCore} → Keeps p q → Keeps q r → Keeps p r
Keeps-trans h k = record {
  word = k.word;
  size = k.size ∙ h.size;
  order = k.order ∙ h.order;
  cycles = k.cycles ∙ h.cycles;
}

pub Keeps-if : (b : Bool) {p q r : ArmCore} → Keeps p q → Keeps p r → Keeps p (if b then q else r)
Keeps-if true h k = h
Keeps-if false h k = k

pub Keeps-registers :
    {p : ArmCore} {r : Registers} → IsWordCore p → IsWordFile r → Keeps p (record p { reg = r })
Keeps-registers h k = record {
  word = record { registers = k; words = h.words };
  size = refl;
  order = refl;
  cycles = refl;
}

pub arm_read_register-lt : (p : ArmCore) (reg : ℕ) → IsWordCore p → arm_read_register p reg < 2 ^ 32
unfolding arm_read_register pc_ahead
arm_read_register-lt p reg h = ground (
  arith,
  read_register-lt p.reg reg h.registers,
  bit_and-le (add32 (read_register p.reg reg) 4) 0xFFFFFFFD,
)

pub arm_read_cpsr-lt : (p : ArmCore) → IsWordCore p → arm_read_cpsr p < 2 ^ 32
unfolding arm_read_cpsr
arm_read_cpsr-lt p h = read_cpsr-lt p.reg h.registers

pub arm_read_spsr-lt : (p : ArmCore) → IsWordCore p → arm_read_spsr p < 2 ^ 32
unfolding arm_read_spsr
arm_read_spsr-lt p h = read_spsr-lt p.reg h.registers

pub arm_write_register-Keeps :
    (p : ArmCore) (reg v : ℕ) → IsWordCore p → v < 2 ^ 32 → Keeps p (arm_write_register p reg v)
unfolding arm_write_register
arm_write_register-Keeps p reg v h hv =
    Keeps-registers h (write_register-IsWordFile p.reg reg v h.registers hv)

pub arm_write_usr_register-Keeps :
    (p : ArmCore) (reg v : ℕ) → IsWordCore p → v < 2 ^ 32 → Keeps p (arm_write_usr_register p reg v)
unfolding arm_write_usr_register
arm_write_usr_register-Keeps p reg v h hv =
    Keeps-registers h (write_usr_register-IsWordFile p.reg reg v h.registers hv)

pub arm_write_cpsr-Keeps :
    (p : ArmCore) (v : ℕ) → IsWordCore p → v < 2 ^ 32 → Keeps p (arm_write_cpsr p v)
unfolding arm_write_cpsr
arm_write_cpsr-Keeps p v h hv = Keeps-registers h (write_cpsr-IsWordFile p.reg v h.registers hv)

pub arm_write_spsr-Keeps :
    (p : ArmCore) (v : ℕ) → IsWordCore p → v < 2 ^ 32 → Keeps p (arm_write_spsr p v)
unfolding arm_write_spsr
arm_write_spsr-Keeps p v h hv = Keeps-registers h (write_spsr-IsWordFile p.reg v h.registers hv)

pub arm_write_byte-Keeps :
    (p : ArmCore) (address v : ℕ)
    → IsWordCore p
    → v < 2 ^ 8
    → Keeps p (arm_write_byte p address v).1
unfolding arm_write_byte
arm_write_byte-Keeps p address v h hv = record {
  word = record {
    registers = h.registers;
    words = memory_write_byte-IsWordMemory p.mem address v h.words hv;
  };
  size = (memory_write_byte-shape p.mem address v).0;
  order = (memory_write_byte-shape p.mem address v).1;
  cycles = refl;
}

pub arm_write_half-Keeps :
    (p : ArmCore) (address v : ℕ)
    → IsWordCore p
    → v < 2 ^ 16
    → Keeps p (arm_write_half p address v).1
unfolding arm_write_half
arm_write_half-Keeps p address v h hv = record {
  word = record {
    registers = h.registers;
    words = memory_write_half-IsWordMemory p.mem address v h.words hv;
  };
  size = (memory_write_half-shape p.mem address v).0;
  order = (memory_write_half-shape p.mem address v).1;
  cycles = refl;
}

pub arm_write_word-Keeps :
    (p : ArmCore) (address v : ℕ)
    → IsWordCore p
    → v < 2 ^ 32
    → Keeps p (arm_write_word p address v).1
unfolding arm_write_word
arm_write_word-Keeps p address v h hv = record {
  word = record {
    registers = h.registers;
    words = memory_write_word-IsWordMemory p.mem address v h.words hv;
  };
  size = (memory_write_word-shape p.mem address v).0;
  order = (memory_write_word-shape p.mem address v).1;
  cycles = refl;
}
