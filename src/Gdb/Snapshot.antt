-- ===== src/Gdb/Snapshot.antt =====
-- gdb_protocol.c: the registers that g sends and G writes.
use mathlib.Core.List.{append_assoc, append-nil}
use mathlib.Core.Path.{subst}
use l3_info_simulateur_arm.Base.{
  ℕ, zero, suc, ◌+◌, ◌*◌, ◌%◌, ◌^◌, ◌<◌, ◌≤◌, ◌≡◌, ◌∙◌, refl, sym, ap, arith, true, ◌++◌, [], ◌∷◌,
  ◌&&◌, leb, ltb, ◌==◌, if◌then◌else◌,
}
use l3_info_simulateur_arm.Util.{sub32}
use l3_info_simulateur_arm.Text.{Bytes, drop, length}
use l3_info_simulateur_arm.Registers.{get_mode, read_register, read_cpsr}
use l3_info_simulateur_arm.Registers.Banks.{IsMode}
use l3_info_simulateur_arm.Registers.Access.{
  read_register-write_register, get_mode-write_register, read_register-lt, read_cpsr-write_cpsr,
}
use l3_info_simulateur_arm.Registers.Entry.{read_register-write_cpsr_same}
use l3_info_simulateur_arm.Core.{
  ArmCore, arm_read_register, arm_write_register, arm_read_cpsr, arm_write_cpsr,
}
use l3_info_simulateur_arm.Core.Keeps.{IsWordCore, arm_read_register-lt, arm_read_cpsr-lt}
use l3_info_simulateur_arm.Core.Fetch.{pc_ahead_back}
use l3_info_simulateur_arm.Gdb.{Gdb, gdb_send_data, gdb_send_buffer, gdb_transmit_packet}
use l3_info_simulateur_arm.Gdb.Wire.{Order, read_uint32, write_uint32}
use l3_info_simulateur_arm.Gdb.Digits.{read_uint32-write_uint32}
use l3_info_simulateur_arm.Gdb.Answers.{length-write_uint32}
use l3_info_simulateur_arm.Gdb.Commands.{
  Unset, registers_text, no_registers_text, general_text, write_registers, write_general_registers,
}

drop-append : (m n : ℕ) (xs ys : Bytes) → m ≡ length xs + n → drop m (xs ++ ys) ≡ drop n ys
drop-append m n [] ys e = ap (λ k. drop k ys) (omega (arith, e))
drop-append zero n (x ∷ xs) ys e = ground (arith, e)
drop-append (suc m) n (x ∷ xs) ys e = drop-append m n xs ys (omega (arith, e))

module _ (o : Order) where
  drop-word :
      (m n v : ℕ) (text : Bytes) → m ≡ n + 8 → drop m (write_uint32 o v ++ text) ≡ drop n text
  drop-word m n v text e =
      drop-append m n (write_uint32 o v) text (omega (arith, e, length-write_uint32 o v))

  module _ (word : ℕ → ℕ) (rest : Bytes) where
    -- Words from number `i` on, and a text behind them.
    words_text : ℕ → ℕ → Bytes
    words_text zero i = rest
    words_text (suc left) i = write_uint32 o (word i) ++ words_text left (i + 1)

    drop-words_text : (m n left i : ℕ) → m ≡ n + left * 8 → drop m (words_text left i) ≡ drop n rest
    unfolding words_text
    drop-words_text m n zero i e = ap (λ k. drop k rest) (omega (arith, e))
    drop-words_text m n (suc left) i e =
        drop-word m (n + left * 8) (word i) (words_text left (i + 1)) (omega (arith, e))
        ∙ drop-words_text (n + left * 8) n left (i + 1) refl

    -- The registers that G writes from the words.
    restored : ℕ → ℕ → ArmCore → ArmCore
    restored zero i q = q
    restored (suc left) i q = restored left (i + 1) (arm_write_register q i (word i))

    write_registers-words_text :
        (unset : Unset) (left i : ℕ) (q : ArmCore)
        → ((j : ℕ) → word j < 2 ^ 32)
        → write_registers o unset left i (words_text left i) q ≡ restored left i q
    unfolding write_registers words_text restored
    write_registers-words_text unset zero i q h = refl
    write_registers-words_text unset (suc left) i q h =
        let next = words_text left (i + 1) in
        rw
          (
            drop-word 8 0 (word i) next refl,
            read_uint32-write_uint32 o unset.value (word i) next (h i),
          )
          (write_registers-words_text unset left (i + 1) (arm_write_register q i (word i)) h)

    -- What G makes of a processor.
    record Restored (left i : ℕ) (q r : ArmCore) : Type 0 where
      mode : get_mode r.reg ≡ get_mode q.reg
      values :
          (j : ℕ)
          → j < 16
          → read_register r.reg j
            ≡ (if leb i j && ltb j (i + left) then word j else read_register q.reg j)

    restored-Restored :
        (left i : ℕ) (q : ArmCore)
        → IsMode (get_mode q.reg)
        → i + left ≤ 16
        → Restored left i q (restored left i q)
    unfolding restored arm_write_register
    restored-Restored zero i q valid h = record { mode = refl; values = λ j hj. ground arith }
    restored-Restored (suc left) i q valid h =
        let next = arm_write_register q i (word i) in
        let same : get_mode next.reg ≡ get_mode q.reg =
          get_mode-write_register q.reg i (word i) valid (omega (arith, h)) in
        let after =
          restored-Restored left (i + 1) next (subst IsMode (sym same) valid) (omega (arith, h)) in
        record {
          mode = after.mode ∙ same;
          values = λ j hj. ground (
            arith,
            after.values j hj,
            read_register-write_register q.reg i j (word i) valid (omega (arith, h)) hj,
          );
        }

-- The words of the registers as g gives them.
abbrev word_of : ArmCore → ℕ → ℕ
word_of p j = if j == 15 then sub32 (arm_read_register p 15) 4 else arm_read_register p j

word_of-read_register :
    (p : ArmCore) (j : ℕ)
    → IsWordCore p
    → read_register p.reg 15 % 4 ≡ 0
    → word_of p j ≡ read_register p.reg j
unfolding arm_read_register
word_of-read_register p j h aligned =
    ground (
      arith,
      pc_ahead_back (read_register p.reg 15) aligned (read_register-lt p.reg 15 h.registers),
    )

module _ (o : Order) (p : ArmCore) where
  abbrev behind : Bytes
  behind = no_registers_text (8 * 3) ++ (no_registers_text 1 ++ write_uint32 o (arm_read_cpsr p))

  registers-words_text :
      (left i : ℕ)
      → i + left ≡ 15
      → registers_text o left i p ++ (write_uint32 o (word_of p 15) ++ behind)
        ≡ words_text o (word_of p) behind (suc left) i
  unfolding registers_text words_text
  registers-words_text zero i e =
      let last : 15 ≡ i = omega (arith, e) in ap (λ k. write_uint32 o (word_of p k) ++ behind) last
  registers-words_text (suc left) i e =
      let this : word_of p i ≡ arm_read_register p i = ground (arith, e) in
      append_assoc (write_uint32 o (arm_read_register p i)) (registers_text o left (i + 1) p)
        (write_uint32 o (word_of p 15) ++ behind)
      ∙ rw this (
          ap (λ t. write_uint32 o (arm_read_register p i) ++ t)
            (registers-words_text left (i + 1) (omega (arith, e))))

  drop-behind : drop (8 * 3 * 8 + 8) behind ≡ write_uint32 o (arm_read_cpsr p)
  unfolding no_registers_text
  drop-behind = refl

  module _ (unset : Unset) (word : IsWordCore p) where
    word_of-lt : (j : ℕ) → word_of p j < 2 ^ 32
    word_of-lt j = ground (arith, arm_read_register-lt p j word)

    status_back :
        (text : Bytes)
        → text ≡ words_text o (word_of p) behind 16 0
        → read_uint32 o unset.value (drop (16 * 8 + 8 * 3 * 8 + 8) text) ≡ arm_read_cpsr p
    status_back text e =
        ap (λ t. read_uint32 o unset.value (drop (16 * 8 + 8 * 3 * 8 + 8) t)) e
        ∙ ap (read_uint32 o unset.value) (
            drop-words_text o (word_of p) behind (16 * 8 + 8 * 3 * 8 + 8) (8 * 3 * 8 + 8) 16 0 refl
            ∙ drop-behind
            ∙ sym (append-nil (write_uint32 o (arm_read_cpsr p))))
        ∙ read_uint32-write_uint32 o unset.value (arm_read_cpsr p) [] (arm_read_cpsr-lt p word)

    arm-write_general_registers :
        (gdb : Gdb)
        → (write_general_registers o unset gdb (general_text o p)).arm
          ≡ arm_write_cpsr (restored o (word_of p) behind 16 0 gdb.arm) (arm_read_cpsr p)
    unfolding write_general_registers gdb_send_data gdb_send_buffer gdb_transmit_packet
    arm-write_general_registers gdb =
        let text = registers-words_text 15 0 refl in
        rw
          (
            status_back (general_text o p) text,
            text,
            write_registers-words_text o (word_of p) behind unset 16 0 gdb.arm word_of-lt,
          )
          refl

  -- G with the text that g answers for `p` brings back what `p` held, on any processor in the same
  -- mode: each of the 16 registers reads as in `p`, and so does the status word. The mode is one of
  -- the seven, the program counter of `p` is aligned, and `p` holds 32-bit words. This holds in each
  -- byte order.
  pub write_general_registers-general_text :
      (unset : Unset) (gdb : Gdb) (j : ℕ)
      → IsWordCore p
      → IsMode (get_mode p.reg)
      → get_mode gdb.arm.reg ≡ get_mode p.reg
      → read_register p.reg 15 % 4 ≡ 0
      → j < 16
      → let q = (write_general_registers o unset gdb (general_text o p)).arm in
        (read_register q.reg j ≡ read_register p.reg j) × (arm_read_cpsr q ≡ arm_read_cpsr p)
  unfolding arm_write_cpsr arm_read_cpsr get_mode
  write_general_registers-general_text unset gdb j word valid same aligned h =
      let q = restored o (word_of p) behind 16 0 gdb.arm in
      let valid' : IsMode (get_mode gdb.arm.reg) = subst IsMode (sym same) valid in
      let back : Restored o (word_of p) behind 16 0 gdb.arm q =
        restored-Restored o (word_of p) behind 16 0 gdb.arm valid' (omega arith) in
      let kept : get_mode q.reg ≡ get_mode p.reg = back.mode ∙ same in
      let inside : (leb 0 j && ltb j (0 + 16)) ≡ true = ground (arith, h) in
      rw (arm-write_general_registers unset word gdb) (
        read_register-write_cpsr_same q.reg (read_cpsr p.reg) j (subst IsMode (sym kept) valid)
              (sym kept) h
            ∙ back.values j h
            ∙ rw inside (word_of-read_register p j word aligned),
        read_cpsr-write_cpsr q.reg (read_cpsr p.reg),
      )
