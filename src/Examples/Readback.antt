-- ===== src/Examples/Readback.antt =====
-- A write by X or P and the read behind it.
use l3_info_simulateur_arm.Base.{◌≡◌, refl, arith, some, [], ◌∷◌, ◌++◌, ◌==◌}
use l3_info_simulateur_arm.Text.{
  Bytes, codes, after_first, atoi, atoi_sign, decimal, sscanf_x_x, scan_hex, scan_sign, scan_prefix,
  scan_digits, hex_value, hex_digits, skip_spaces, scan_second, sscanf_x,
}
use l3_info_simulateur_arm.Gdb.{gdb_init_data}
use l3_info_simulateur_arm.Gdb.Wire.{write_uint32}
use l3_info_simulateur_arm.Gdb.Commands.{
  Unset, write_memory_binary, general_text, write_general_registers, next_instruction,
  is_breakpoint, cont_loop, read_memory, write_memory_loop,
}
use l3_info_simulateur_arm.Gdb.Readback.{
  Replies, hex_text, read_memory-write_memory_binary, read_register-write_register_text,
}
use l3_info_simulateur_arm.Gdb.Commands
use l3_info_simulateur_arm.Gdb.Transfer.{escape}
use l3_info_simulateur_arm.Examples.{machine, register_file-IsMode, machine-IsWordCore}
use l3_info_simulateur_arm.Examples.Protocol.{order, unset, two_bytes-lt}

-- X at address 8 with the bytes 0x7D and 0x11, both of which are escaped, and m of the same two.
abbrev write_two : Bytes
write_two = codes "8,2:" ++ (0x7D ∷ 0x5D ∷ 0x7D ∷ 0x31 ∷ codes "#")

write_two_numbers : sscanf_x_x write_two 2 3 ≡ (8, 2)
unfolding sscanf_x_x scan_hex scan_sign scan_prefix scan_digits hex_value hex_digits skip_spaces
    scan_second sscanf_x
write_two_numbers = refl

read_two_numbers : sscanf_x_x (codes "8,2") 2 3 ≡ (8, 2)
unfolding sscanf_x_x scan_hex scan_sign scan_prefix scan_digits hex_value hex_digits skip_spaces
    scan_second sscanf_x
read_two_numbers = refl

write_two_bytes :
    after_first b':' write_two ≡ some (escape (λ c. c == 0x11) (0x7D ∷ 0x11 ∷ []) ++ codes "#")
unfolding after_first escape
write_two_bytes = refl

read_memory-write_memory_binary_example :
    Replies
      (λ g. read_memory unset g (codes "8,2"))
      (hex_text (0x7D ∷ 0x11 ∷ []))
      (write_memory_binary unset (gdb_init_data machine []) write_two)
unfolding gdb_init_data
read_memory-write_memory_binary_example =
    read_memory-write_memory_binary unset (gdb_init_data machine []) write_two (codes "8,2") 8
      (0x7D ∷ 0x11 ∷ []) (codes "#") (λ c. c == 0x11) machine-IsWordCore (omega arith)
      (λ i. two_bytes-lt i) (omega arith) (omega arith) (omega arith) write_two_numbers
      write_two_bytes read_two_numbers

-- P of register 3, and p of it.
abbrev write_3 : Bytes
write_3 = codes "3=" ++ (write_uint32 order 0x12345678 ++ codes "#")

write_3_number : sscanf_x write_3 4 ≡ 3
unfolding sscanf_x scan_hex scan_sign scan_prefix scan_digits hex_value hex_digits skip_spaces
write_3_number = refl

write_3_word : after_first b'=' write_3 ≡ some (write_uint32 order 0x12345678 ++ codes "#")
unfolding after_first
write_3_word = refl

read_3_number : atoi (codes "3#") ≡ 3
unfolding atoi atoi_sign decimal skip_spaces
read_3_number = refl

read_register-write_register_text_example :
    Replies
      (λ g. Commands.read_register order g (codes "3#"))
      (write_uint32 order 0x12345678)
      (Commands.write_register order unset (gdb_init_data machine []) write_3)
unfolding gdb_init_data
read_register-write_register_text_example =
    read_register-write_register_text order unset (gdb_init_data machine []) write_3 (codes "3#") 3
      0x12345678 (codes "#") (omega arith) (omega arith) register_file-IsMode write_3_number
      write_3_word read_3_number (λ e. omega (arith, e))
