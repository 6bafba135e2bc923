-- ===== src/Gdb/Readback.antt =====
-- gdb_protocol.c: what X and P write and m and p read again.
use Prim.Native.Nat.{min}
use l3_info_simulateur_arm.Base.{
  leb, ℕ, suc, ◌+◌, ◌-◌, ◌%◌, ◌^◌, ◌<◌, ◌≤◌, ◌≡◌, ◌∙◌, refl, ap, arith, Bool, true, ltb, ◌==◌,
  if◌then◌else◌, [], ◌∷◌, ◌++◌, some,
}
use l3_info_simulateur_arm.Util.{sub32}
use l3_info_simulateur_arm.Memory.{Memory, memory_get_size}
use l3_info_simulateur_arm.Memory.Bytes.{byte_at}
use l3_info_simulateur_arm.Registers.{get_mode}
use l3_info_simulateur_arm.Registers.Banks.{IsMode}
use l3_info_simulateur_arm.Registers.Access.{read_register-write_register}
use l3_info_simulateur_arm.Core.{ArmCore, arm_read_register, arm_write_register}
use l3_info_simulateur_arm.Core.Keeps.{IsWordCore}
use l3_info_simulateur_arm.Gdb.Keeps.{Stays-refl}
use l3_info_simulateur_arm.Gdb.Handlers.{write_memory_loop-Stays}
use l3_info_simulateur_arm.Core.Fetch.{pc_ahead_back}
use l3_info_simulateur_arm.Text.{
  Bytes, length, byte_in, print_byte, sscanf_x_x, sscanf_x, atoi, after_first, codes,
}
use l3_info_simulateur_arm.Gdb.{
  Gdb, Run, running, gdb_send_buffer, gdb_send_data, gdb_transmit_packet,
}
use l3_info_simulateur_arm.Gdb.Wire.{Order, write_uint32}
use l3_info_simulateur_arm.Gdb.Digits.{read_uint32-write_uint32}
use l3_info_simulateur_arm.Gdb.Transfer.{
  memory_text, read_memory_lem, escape, write_memory_loop-escape,
}
use l3_info_simulateur_arm.Gdb.Commands
use l3_info_simulateur_arm.Gdb.Commands.{
  Unset, with_arm, answer, write_memory_loop, write_memory_binary, read_memory,
}

-- A run that leaves a state from which `reply` sends a text and changes nothing else.
pub data Replies (reply : Gdb → Run) (text : Bytes) : Run → Type 0 where
  replies :
      (gdb : Gdb)
      → reply gdb ≡ running (gdb_send_buffer gdb text)
      → Replies reply text (running gdb)

-- The digits of bytes.
unfoldable pub hex_text : Bytes → Bytes
hex_text [] = []
hex_text (c ∷ text) = print_byte c ++ hex_text text

memory_text-hex_text :
    (mem : Memory) (address : ℕ) (text : Bytes)
    → ((i : ℕ) → i < length text → byte_at mem (address + i) ≡ byte_in text i)
    → memory_text mem address (length text) ≡ hex_text text
unfolding memory_text hex_text
memory_text-hex_text mem address [] h = refl
memory_text-hex_text mem address (c ∷ text) h =
    let here : byte_at mem address ≡ c = ap (byte_at mem) (omega arith) ∙ h 0 (omega arith) in
    rw
      (
        here,
        memory_text-hex_text mem (address + 1) text
            (λ i hi. ap (byte_at mem) (omega arith) ∙ h (suc i) (omega (arith, hi))),
      )
      refl

module _ (unset : Unset) (gdb : Gdb) (write read : Bytes) (address : ℕ) (text rest : Bytes)
    (special : ℕ → Bool) (word : IsWordCore gdb.arm) (small : gdb.arm.mem.size < 2 ^ 32)
    (bytes : (i : ℕ) → byte_in text i < 256) (nonempty : 0 < length text)
    (short : length text ≤ 509) (fits : address + length text ≤ gdb.arm.mem.size) where
  abbrev result : Bool × ArmCore
  result = write_memory_loop (length text) address true (escape special text ++ rest) gdb.arm

  size-result : result.1.mem.size ≡ gdb.arm.mem.size
  size-result =
      (write_memory_loop-Stays (length text) address true (escape special text ++ rest) gdb.arm
        (Stays-refl word)).size

  text-result : memory_text result.1.mem address (length text) ≡ hex_text text
  text-result = memory_text-hex_text result.1.mem address text (λ i hi.
      (write_memory_loop-escape special text rest address (address + i) gdb.arm word.words small
        bytes fits).1
      ∙ ground (arith, hi))

  read-result :
      sscanf_x_x read unset.address unset.size ≡ (address, length text)
      → read_memory unset (answer gdb result) read
        ≡ running (gdb_send_buffer (answer gdb result) (hex_text text))
  unfolding gdb_send_data gdb_send_buffer gdb_transmit_packet
  read-result e =
      let all : min (length text) (result.1.mem.size - address) ≡ length text =
        omega (arith, size-result, fits) in
      let size_small : result.1.mem.size < 2 ^ 32 = omega (arith, size-result, small) in
      let room : leb (length text) 509 ≡ true = ground (arith, short) in
      read_memory_lem unset (answer gdb result) read address (length text) e size_small
      ∙ rw (all, room) (ap (λ t. running (gdb_send_buffer (answer gdb result) t)) text-result)

  -- Bytes that X writes are the ones that m reads again: X runs and leaves a state from which an m
  -- with the same address and size sends their digits. The text of X has the address, the size and
  -- behind its colon the bytes in their binary form, which lie inside of the memory and are at
  -- least one and at most 509, as many as fit the array of a packet as digits; the memory has fewer than 2 ^ 32 bytes, and the processor holds 32-bit words.
  pub read_memory-write_memory_binary :
      sscanf_x_x write unset.address unset.size ≡ (address, length text)
      → after_first b':' write ≡ some (escape special text ++ rest)
      → sscanf_x_x read unset.address unset.size ≡ (address, length text)
      → Replies
          (λ g. read_memory unset g read)
          (hex_text text)
          (write_memory_binary unset gdb write)
  unfolding write_memory_binary memory_get_size
  read_memory-write_memory_binary e colon e' =
      let inside : ltb address gdb.arm.mem.size ≡ true = ground (arith, fits, nonempty) in
      rw (e, colon, inside) (replies (answer gdb result) (read-result e'))

module _ (o : Order) (unset : Unset) (gdb : Gdb) (write read : Bytes) (reg v : ℕ) (rest : Bytes)
    (low : reg < 16) (small : v < 2 ^ 32) (valid : IsMode (get_mode gdb.arm.reg)) where
  sent-read_register :
      (reg ≡ 15 → v % 4 ≡ 0)
      → sub32
          (arm_read_register (arm_write_register gdb.arm reg v) reg)
          (if reg == 15 then 4 else 0)
        ≡ v
  unfolding arm_read_register arm_write_register
  sent-read_register aligned =
      rw (read_register-write_register gdb.arm.reg reg reg v valid low low)
        (ground (arith, pc_ahead_back v, aligned, small))

  -- A word that P writes to a register is the one that p reads again: P runs and leaves a state
  -- from which a p of the same register sends the word. The number that P reads in hexadecimal and
  -- the one that p reads in decimal are the same one below 16; behind the equals sign stand the
  -- digits of the 32-bit word; a word for the program counter is a multiple of 4; the mode is one of the
  -- seven.
  pub read_register-write_register_text :
      sscanf_x write unset.reg ≡ reg
      → after_first b'=' write ≡ some (write_uint32 o v ++ rest)
      → atoi read ≡ reg
      → (reg ≡ 15 → v % 4 ≡ 0)
      → Replies
          (λ g. Commands.read_register o g read)
          (write_uint32 o v)
          (Commands.write_register o unset gdb write)
  unfolding Commands.write_register Commands.read_register gdb_send_data gdb_send_buffer
      gdb_transmit_packet
  read_register-write_register_text e equals e' aligned =
      let inside : ltb reg 16 ≡ true = ground (arith, low) in
      let after = gdb_send_data (with_arm gdb (arm_write_register gdb.arm reg v)) (codes "OK") in
      rw (e, equals, inside, read_uint32-write_uint32 o unset.value v rest small)
        (replies after (
          rw (e', inside)
            (ap (λ n. running (gdb_send_buffer after (write_uint32 o n)))
              (sent-read_register aligned))))
