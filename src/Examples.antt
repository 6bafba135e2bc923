-- ===== src/Examples.antt =====
-- The theorems at concrete inputs: a processor in supervisor mode, over 64 bytes of memory.
pub mod Bits
pub mod Modes
pub mod Accesses
pub mod Stack
pub mod Steps
pub mod Instructions
pub mod Protocol
pub mod Readback
pub mod Continue
pub mod Files
use l3_info_simulateur_arm.Base.{
  ℕ, ◌+◌, ◌*◌, ◌%◌, ◌<◌, ◌^◌, ◌≡◌, refl, arith, inl, inr, Bool, true, false, if◌then◌else◌, ltb,
  ◌==◌,
}
use l3_info_simulateur_arm.Constants.{svc, fiq}
use l3_info_simulateur_arm.Util.{get_bits}
use l3_info_simulateur_arm.Registers.{Registers, get_mode, read_cpsr, read_register}
use l3_info_simulateur_arm.Registers.Banks.{IsMode}
use l3_info_simulateur_arm.Registers.Access.{IsWordFile}
use l3_info_simulateur_arm.Memory.{Memory}
use l3_info_simulateur_arm.Memory.Bytes.{IsWordMemory}
use l3_info_simulateur_arm.Core.{ArmCore}
use l3_info_simulateur_arm.Core.Keeps.{IsWordCore}
use l3_info_simulateur_arm.LoadStore.{Stale}
use l3_info_simulateur_arm.LoadStore.Keeps.{IsWordStale}

-- Flags Z and C, supervisor mode.
abbrev pub status : ℕ
status = 0x60000013

-- Register `i` holds `4 * i`.
abbrev pub register_file : Registers
register_file = record { cells = λ i. if i == 16 then status else if ltb i 38 then 4 * i else 0 }

-- ADD r0, r1, #5 at address 60.
abbrev pub add_5 : ℕ
add_5 = 0xE2810005

abbrev pub little : Memory
little = record {
  size = 64;
  is_big_endian = false;
  words = λ i. if i == 15 then add_5 else if ltb i 16 then i * 0x01020304 else 0;
}

abbrev pub big : Memory
big = record little { is_big_endian = true }

abbrev pub machine : ArmCore
machine = record { cycle_count = 7; reg = register_file; mem = little }

abbrev pub stale : Stale
stale = record { fetched = 1; byte = 2; half = 3; word = 4; loaded = λ i. 5 }

pub register_file-IsMode : IsMode (get_mode register_file)
unfolding get_mode read_cpsr get_bits
register_file-IsMode = inr (inr (inr (inl refl)))

pub register_file-IsWordFile : IsWordFile register_file
register_file-IsWordFile i = ground arith

pub little-IsWordMemory : IsWordMemory little
little-IsWordMemory i = ground arith

pub big-IsWordMemory : IsWordMemory big
big-IsWordMemory i = ground arith

pub machine-IsWordCore : IsWordCore machine
machine-IsWordCore = record { registers = register_file-IsWordFile; words = little-IsWordMemory }

pub stale-IsWordStale : IsWordStale stale
stale-IsWordStale = record { word = omega arith; loaded = λ i. omega arith }
