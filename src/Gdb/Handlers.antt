-- ===== src/Gdb/Handlers.antt =====
-- What each handler of a command keeps.
use l3_info_simulateur_arm.Base.{
  leb, ℕ, zero, suc, ◌+◌, ◌*◌, ◌<◌, ◌∙◌, arith, Bool, true, false, not, ◌&&◌, ◌||◌, ltb, ◌==◌,
  if◌then◌else◌, Option, none, some, bit_xor,
}
use l3_info_simulateur_arm.Util.{u8, u8, add32, minus_one}
use l3_info_simulateur_arm.Memory.{memory_get_size, memory_write_byte}
use l3_info_simulateur_arm.Memory.Bytes.{memory_write_byte-IsWordMemory, memory_write_byte-shape}
use l3_info_simulateur_arm.Core.{ArmCore, arm_write_register}
use l3_info_simulateur_arm.Core.Keeps.{arm_write_register-Keeps, arm_write_cpsr-Keeps}
use l3_info_simulateur_arm.Text.{
  length, Bytes, drop, byte_in, after_first, sscanf_x, sscanf_x_x, atoi, codes, is_text,
  starts_with,
}
use l3_info_simulateur_arm.Gdb.{max_packet_size, Gdb, Run, running}
use l3_info_simulateur_arm.Gdb.Wire.{Order, read_uint32}
use l3_info_simulateur_arm.Gdb.Digits.{read_uint32-lt}
use l3_info_simulateur_arm.Gdb.Commands
use l3_info_simulateur_arm.Gdb.Commands.{
  read_memory_loop, Unset, stepped, of_outcome, next_instruction, is_breakpoint, cont_loop, cont,
  then_send, then_go_on, with_arm, write_registers, write_memory_loop, write_memory_binary, answer,
  where_found, write_general_registers, step, query, set_thread, read_memory,
  read_general_registers, reason, kill_request,
}
use l3_info_simulateur_arm.Gdb.Keeps.{
  Stays, Stays-trans, Stays-Keeps, StaysRun, aborts, faults, gdb_send_data-StaysRun,
  gdb_send_buffer-StaysRun, send_if-StaysRun, StaysRun-if,
}

module _ {p : ArmCore} where
  pub query-StaysRun :
      (gdb : Gdb) (text : Bytes) → Stays p gdb.arm → StaysRun p (running (query gdb text))
  unfolding query
  query-StaysRun gdb text h =
      let data_sent = gdb_send_data-StaysRun gdb in
      send_if-StaysRun (is_text (codes "Offsets") text) _ _ (data_sent _ h) (
        send_if-StaysRun (starts_with (codes "Supported") text) _ _ (data_sent _ h) (
          send_if-StaysRun (is_text (codes "TStatus") text) _ _ (data_sent _ h) (
            send_if-StaysRun (is_text (codes "Symbol::") text) _ _ (data_sent _ h)
              (data_sent _ h))))

  pub set_thread-StaysRun :
      (gdb : Gdb) (text : Bytes) → Stays p gdb.arm → StaysRun p (running (set_thread gdb text))
  unfolding set_thread
  set_thread-StaysRun gdb text h =
      let type = byte_in text 0 in
      let value = atoi (drop 1 text) in
      send_if-StaysRun ((type == b'c' || type == b'g') && (value == 0 || value == minus_one)) _ _
        (gdb_send_data-StaysRun gdb _ h) (gdb_send_data-StaysRun gdb _ h)

  write_registers-Stays :
      (o : Order) (unset : Unset) (left i : ℕ) (position : Bytes) (arm : ArmCore)
      → Stays p arm
      → Stays p (write_registers o unset left i position arm)
  unfolding write_registers
  write_registers-Stays o unset zero i position arm h = h
  write_registers-Stays o unset (suc left) i position arm h =
      let value = read_uint32 o unset.value position in
      write_registers-Stays o unset left (i + 1) (drop 8 position) (arm_write_register arm i value)
        (Stays-trans h (
          Stays-Keeps
            (arm_write_register-Keeps arm i value h.word (read_uint32-lt o unset.value position))))

  pub write_general_registers-StaysRun :
      (o : Order) (unset : Unset) (gdb : Gdb) (text : Bytes)
      → Stays p gdb.arm
      → StaysRun p (running (write_general_registers o unset gdb text))
  unfolding write_general_registers
  write_general_registers-StaysRun o unset gdb text h =
      let arm = write_registers o unset 16 0 text gdb.arm in
      let status = drop (16 * 8 + 8 * 3 * 8 + 8) text in
      let written = write_registers-Stays o unset 16 0 text gdb.arm h in
      gdb_send_data-StaysRun _ _ (
        Stays-trans written (
          Stays-Keeps (
            arm_write_cpsr-Keeps arm (read_uint32 o unset.value status) written.word
              (read_uint32-lt o unset.value status))))

  write_byte-Stays :
      (arm : ArmCore) (address value : ℕ)
      → Stays p arm
      → Stays p (record arm { mem = (memory_write_byte arm.mem address (u8 value)).1 })
  write_byte-Stays arm address value h =
      let fits : u8 value < 256 = omega arith in
      let shape = memory_write_byte-shape arm.mem address (u8 value) in
      record {
        word = record {
          registers = h.word.registers;
          words = memory_write_byte-IsWordMemory arm.mem address (u8 value) h.word.words fits;
        };
        size = shape.0 ∙ h.size;
        order = shape.1 ∙ h.order;
      }

  pub write_memory_loop-Stays :
      (left address : ℕ) (ok : Bool) (content : Bytes) (arm : ArmCore)
      → Stays p arm
      → Stays p (write_memory_loop left address ok content arm).1
  unfolding write_memory_loop
  write_memory_loop-Stays zero address ok content arm h = h
  write_memory_loop-Stays (suc left) address false content arm h = h
  write_memory_loop-Stays (suc left) address true content arm h =
      let escaped = byte_in content 0 == 0x7D in
      let value = if escaped then bit_xor (byte_in content 1) 0x20 else byte_in content 0 in
      write_memory_loop-Stays left (add32 address 1) _ (drop (if escaped then 2 else 1) content)
        (record arm { mem = (memory_write_byte arm.mem address (u8 value)).1 })
        (write_byte-Stays arm address value h)

  answer-StaysRun :
      (gdb : Gdb) (r : Bool × ArmCore) → Stays p r.1 → StaysRun p (running (answer gdb r))
  answer-StaysRun gdb (ok, arm) h = gdb_send_data-StaysRun (with_arm gdb arm) _ h

  pub read_general_registers-StaysRun :
      (o : Order) (gdb : Gdb)
      → Stays p gdb.arm
      → StaysRun p (running (read_general_registers o gdb))
  unfolding read_general_registers
  read_general_registers-StaysRun o gdb h = gdb_send_buffer-StaysRun gdb _ h

  pub read_memory-StaysRun :
      (unset : Unset) (gdb : Gdb) (text : Bytes)
      → Stays p gdb.arm
      → StaysRun p (read_memory unset gdb text)
  unfolding read_memory
  read_memory-StaysRun unset gdb text h =
      let (address, size) = sscanf_x_x text unset.address unset.size in
      let digits = read_memory_loop gdb.arm size address (u8 unset.value) in
      StaysRun-if (leb (length digits + 5) max_packet_size) (gdb_send_buffer-StaysRun gdb digits h)
        faults

  pub read_register-StaysRun :
      (o : Order) (gdb : Gdb) (text : Bytes)
      → Stays p gdb.arm
      → StaysRun p (Commands.read_register o gdb text)
  unfolding Commands.read_register
  read_register-StaysRun o gdb text h =
      StaysRun-if (ltb (atoi text) 16) (gdb_send_buffer-StaysRun gdb _ h) aborts

  where_found-StaysRun :
      {f : Bytes → Run} {r : Run} (x : Option Bytes)
      → ((text : Bytes) → StaysRun p (f text))
      → StaysRun p r
      → StaysRun p (where_found x f r)
  where_found-StaysRun (some text) h k = h text
  where_found-StaysRun none h k = k

  pub write_register-StaysRun :
      (o : Order) (unset : Unset) (gdb : Gdb) (text : Bytes)
      → Stays p gdb.arm
      → StaysRun p (Commands.write_register o unset gdb text)
  unfolding Commands.write_register
  write_register-StaysRun o unset gdb text h =
      let reg = sscanf_x text unset.reg in
      where_found-StaysRun (after_first b'=' text)
        (λ rest.
          let value = read_uint32 o unset.value rest in
          StaysRun-if (ltb reg 16)
            (gdb_send_data-StaysRun (with_arm gdb (arm_write_register gdb.arm reg value))
              (codes "OK")
              (Stays-trans h (
                Stays-Keeps (
                  arm_write_register-Keeps gdb.arm reg value h.word
                    (read_uint32-lt o unset.value rest)))))
            aborts)
        faults

  pub write_memory_binary-StaysRun :
      (unset : Unset) (gdb : Gdb) (text : Bytes)
      → Stays p gdb.arm
      → StaysRun p (write_memory_binary unset gdb text)
  unfolding write_memory_binary
  write_memory_binary-StaysRun unset gdb text h =
      let (address, size) = sscanf_x_x text unset.address unset.size in
      let ok = ltb address (memory_get_size gdb.arm.mem) in
      where_found-StaysRun (after_first b':' text)
        (λ content.
          answer-StaysRun gdb (write_memory_loop size address ok content gdb.arm)
            (write_memory_loop-Stays size address ok content gdb.arm h))
        (StaysRun-if (not (size == 0) && ok) faults (answer-StaysRun gdb (ok, gdb.arm) h))
