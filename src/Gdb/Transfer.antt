-- ===== src/Gdb/Transfer.antt =====
-- The bytes that the commands `m` and `X` read and write.
use Prim.Native.Nat.{min}
use l3_info_simulateur_arm.Base.{
  ℕ, zero, suc, ◌+◌, ◌-◌, ◌*◌, ◌%◌, ◌^◌, ◌≤◌, ◌<◌, ◌≡◌, ◌≢◌, ◌∙◌, ap, refl, arith, Bool, true,
  false, ◌&&◌, ◌||◌, ◌⊎◌, ◌*◌, ltb, leb, ◌==◌, ==_ne, if◌then◌else◌, [], ◌∷◌, ◌++◌, Bool-cases, inl,
  inr, bit_xor, bit_xor_twice,
}
use l3_info_simulateur_arm.Util.{u8, add32}
use l3_info_simulateur_arm.Memory.{
  Memory, failure, success, memory_read_byte, memory_write_byte, memory_get_size,
}
use l3_info_simulateur_arm.Memory.Bytes.{
  byte_at, IsWordMemory, memory_read_byte_lem, byte_at-memory_write_byte,
  memory_write_byte-IsWordMemory, memory_write_byte-shape,
}
use l3_info_simulateur_arm.Core.{ArmCore}
use l3_info_simulateur_arm.Text.{Bytes, length, byte_in, print_byte, sscanf_x_x}
use l3_info_simulateur_arm.Gdb.{running, faulted, Gdb, gdb_send_buffer}
use l3_info_simulateur_arm.Gdb.Commands.{
  Unset, after_read, read_memory_loop, read_memory, write_memory_loop,
}

-- The digits of `count` bytes from an address on.
unfoldable pub memory_text : Memory → ℕ → ℕ → Bytes
memory_text mem address zero = []
memory_text mem address (suc count) =
    print_byte (byte_at mem address) ++ memory_text mem (address + 1) count

read_memory_loop_count :
    (arm : ArmCore) (size count address value : ℕ)
    → arm.mem.size < 2 ^ 32
    → count ≤ size
    → count ≡ 0 ⊎ (address + count ≤ arm.mem.size)
    → (count ≡ size) ⊎ (arm.mem.size ≤ address + count)
    → read_memory_loop arm size address value ≡ memory_text arm.mem address count
unfolding read_memory_loop memory_text
read_memory_loop_count arm zero zero address value small le fits all = refl
read_memory_loop_count arm zero (suc count) address value small le fits all = absurd (omega arith)
read_memory_loop_count arm (suc size) zero address value small le fits all =
    let refused : leb arm.mem.size address ≡ true = ground arith in
    let e : memory_read_byte arm.mem address value ≡ (failure, value) =
      memory_read_byte_lem arm.mem address value ∙ rw refused refl in
    ap (after_read (read_memory_loop arm size (add32 address 1))) e
read_memory_loop_count arm (suc size) (suc count) address value small le fits all =
    let byte = byte_at arm.mem address in
    let granted : leb arm.mem.size address ≡ false = ground arith in
    let e : memory_read_byte arm.mem address value ≡ (success, byte) =
      memory_read_byte_lem arm.mem address value ∙ rw granted refl in
    let next : add32 address 1 ≡ address + 1 = omega arith in
    ap (after_read (read_memory_loop arm size (add32 address 1))) e
    ∙ ap (λ a. print_byte byte ++ read_memory_loop arm size a byte) next
    ∙ ap (λ text. print_byte byte ++ text)
        (read_memory_loop_count arm size count (address + 1) byte small (omega arith) (ground arith)
          (ground arith))

pub length-memory_text :
    (mem : Memory) (address count : ℕ) → length (memory_text mem address count) ≡ 2 * count
unfolding memory_text print_byte
length-memory_text mem address zero = refl
length-memory_text mem address (suc count) =
    omega (arith, length-memory_text mem (address + 1) count)

-- `m` sends the bytes from the address on as digits, as many as are asked for or as the memory still
-- has, and nothing where the address lies behind its end; but where these are more than 509, the
-- digits do not fit the array of a packet, and the run is one that C leaves undefined. The two
-- numbers of the text are the address and the size, and the memory has fewer than 2 ^ 32 bytes.
pub read_memory_lem :
    (unset : Unset) (gdb : Gdb) (text : Bytes) (address size : ℕ)
    → sscanf_x_x text unset.address unset.size ≡ (address, size)
    → gdb.arm.mem.size < 2 ^ 32
    → let count = min size (gdb.arm.mem.size - address) in
      read_memory unset gdb text ≡ (
        if leb count 509
        then running (gdb_send_buffer gdb (memory_text gdb.arm.mem address count))
        else faulted)
unfolding read_memory
read_memory_lem unset gdb text address size e small =
    let count = min size (gdb.arm.mem.size - address) in
    let bytes = memory_text gdb.arm.mem address count in
    let sent : read_memory_loop gdb.arm size address (u8 unset.value) ≡ bytes =
      read_memory_loop_count gdb.arm size count address (u8 unset.value) small (omega arith)
        (omega arith) (omega arith) in
    let bound : leb (length bytes + 5) 1024 ≡ leb count 509 =
      ground (arith, length-memory_text gdb.arm.mem address count) in
    rw (e, sent, bound) refl

-- The binary form of bytes: the byte 0x7D and every other byte that `special` says is written as
-- 0x7D and the byte with bit 5 turned.
unfoldable pub escape : (ℕ → Bool) → Bytes → Bytes
escape special [] = []
escape special (c ∷ text) =
    let rest = escape special text in
    if c == 0x7D || special c then 0x7D ∷ bit_xor c 0x20 ∷ rest else c ∷ rest

abbrev stored : ArmCore → ℕ → ℕ → ArmCore
stored arm address value = record arm { mem = (memory_write_byte arm.mem address value).1 }

write_granted :
    (mem : Memory) (address value : ℕ)
    → address < mem.size
    → (memory_write_byte mem address value).0 ≡ success
unfolding memory_write_byte memory_get_size
write_granted mem address value h = ground arith

write_plain :
    (left address c : ℕ) (rest : Bytes) (arm : ArmCore)
    → c ≢ 0x7D
    → c < 256
    → address < arm.mem.size
    → write_memory_loop (suc left) address true (c ∷ rest) arm
      ≡ write_memory_loop left (add32 address 1) true rest (stored arm address c)
unfolding write_memory_loop
write_plain left address c rest arm ne hc h =
    let plain : (c == 0x7D) ≡ false = ==_ne c 0x7D ne in
    let byte : c % 256 ≡ c = omega arith in rw (plain, byte, write_granted arm.mem address c h) refl

write_escaped :
    (left address c : ℕ) (rest : Bytes) (arm : ArmCore)
    → c < 256
    → address < arm.mem.size
    → write_memory_loop (suc left) address true (0x7D ∷ bit_xor c 0x20 ∷ rest) arm
      ≡ write_memory_loop left (add32 address 1) true rest (stored arm address c)
unfolding write_memory_loop
write_escaped left address c rest arm hc h =
    let byte : c % 256 ≡ c = omega arith in
    rw (bit_xor_twice c 0x20, byte, write_granted arm.mem address c h) refl

-- One stored byte, and then the bytes behind it.
abbrev pub over : Memory → ℕ → Bytes → ℕ → ℕ
over mem address text other =
    if leb address other && ltb other (address + length text)
    then byte_in text (other - address)
    else byte_at mem other

over_step :
    (arm : ArmCore) (address c : ℕ) (text : Bytes) (other : ℕ)
    → IsWordMemory arm.mem
    → c < 256
    → address < arm.mem.size
    → over (stored arm address c).mem (address + 1) text other
      ≡ over arm.mem address (c ∷ text) other
over_step arm address c text other word hc h =
    ground (arith, byte_at-memory_write_byte arm.mem address c other word hc h)

-- The result of the loop, at one byte of the memory.
abbrev pub Writes : ArmCore → ℕ → Bytes → ℕ → Bool × ArmCore → Type 0
Writes arm address text other r =
    (r.0 ≡ true) × (byte_at r.1.mem other ≡ over arm.mem address text other) × (r.1.reg ≡ arm.reg)

-- Bytes in their binary form, whatever else they escape and whatever follows, that fit the memory
-- behind an address are all written by `X`: each stands at its address, every other byte is as
-- before, and so are the registers. The memory holds 32-bit words, and fewer than 2 ^ 32 bytes.
pub write_memory_loop-escape :
    (special : ℕ → Bool) (text rest : Bytes) (address other : ℕ) (arm : ArmCore)
    → IsWordMemory arm.mem
    → arm.mem.size < 2 ^ 32
    → ((i : ℕ) → byte_in text i < 256)
    → address + length text ≤ arm.mem.size
    → Writes arm address text other
        (write_memory_loop (length text) address true (escape special text ++ rest) arm)
unfolding write_memory_loop escape
write_memory_loop-escape special [] rest address other arm word small bytes fits =
    (refl, ground arith, refl)
write_memory_loop-escape special (c ∷ text) rest address other arm word small bytes fits =
    let hc : c < 256 = bytes 0 in
    let inside : address < arm.mem.size = omega arith in
    let next = stored arm address c in
    let shape = memory_write_byte-shape arm.mem address c in
    let tail = escape special text ++ rest in
    let one : add32 address 1 ≡ address + 1 = omega arith in
    let ih : Writes next (address + 1) text other
        (write_memory_loop (length text) (address + 1) true tail next) =
      write_memory_loop-escape special text rest (address + 1) other next
        (memory_write_byte-IsWordMemory arm.mem address c word hc) (omega (arith, shape.0))
        (λ i. bytes (suc i)) (omega (arith, shape.0)) in
    let done : Writes arm address (c ∷ text) other
        (write_memory_loop (length text) (add32 address 1) true tail next) =
      rw one (ih.0, ih.1 ∙ over_step arm address c text other word hc inside, ih.2) in
    elim (Bool-cases (c == 0x7D || special c)) [
      | inl e ↦ rw e (rw (write_escaped (length text) address c tail arm hc inside) done)
      | inr e ↦
          rw e
            (rw (write_plain (length text) address c tail arm (ground (arith, e)) hc inside) done)
    ]
