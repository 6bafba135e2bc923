-- ===== src/Gdb/Keeps.antt =====
-- What the handlers and the analysis of a packet keep.
use mathlib.Core.Option.{map}
use l3_info_simulateur_arm.Base.{
  ℕ, zero, suc, ◌≡◌, ◌∙◌, refl, Bool, true, false, ◌||◌, ◌==◌, if◌then◌else◌, Option, none, some,
}
use l3_info_simulateur_arm.Constants.{undefined_instruction, prefetch_abort, data_abort}
use l3_info_simulateur_arm.Core.{ArmCore}
use l3_info_simulateur_arm.Core.Keeps.{IsWordCore, Keeps}
use l3_info_simulateur_arm.Branch.{Outcome, returned, exited}
use l3_info_simulateur_arm.Branch.Keeps.{Returns, ends, back}
use l3_info_simulateur_arm.LoadStore.Keeps.{IsWordStale}
use l3_info_simulateur_arm.Instruction.{arm_step}
use l3_info_simulateur_arm.Instruction.Invariant.{counted, arm_step-Returns}
use l3_info_simulateur_arm.Text.{Bytes}
use l3_info_simulateur_arm.Gdb.{
  Gdb, Run, running, ended, aborted, faulted, gdb_send_data, gdb_send_buffer, gdb_send_stop_reason,
  gdb_transmit_packet,
}
use l3_info_simulateur_arm.Gdb.Commands.{
  Unset, stepped, of_outcome, next_instruction, is_breakpoint, cont_loop, cont, then_send,
  then_go_on, step,
}
use l3_info_simulateur_arm.Gdb.Packet.{unlock}

-- The cells of `q` hold 32-bit words, and its memory has the shape of that of `p`.
pub record Stays (p q : ArmCore) : Type 0 where
  pub word : IsWordCore q
  pub size : q.mem.size ≡ p.mem.size
  pub order : q.mem.is_big_endian ≡ p.mem.is_big_endian

pub Stays-refl : {p : ArmCore} → IsWordCore p → Stays p p
Stays-refl h = record { word = h; size = refl; order = refl }

pub Stays-trans : {p q r : ArmCore} → Stays p q → Stays q r → Stays p r
Stays-trans h k = record { word = k.word; size = k.size ∙ h.size; order = k.order ∙ h.order }

pub Stays-Keeps : {p q : ArmCore} → Keeps p q → Stays p q
Stays-Keeps h = record { word = h.word; size = h.size; order = h.order }

-- What is left of the program stays so, where the program goes on.
pub data StaysRun (p : ArmCore) : Run → Type 0 where
  runs : {gdb : Gdb} → Stays p gdb.arm → StaysRun p (running gdb)
  ends_program : StaysRun p ended
  aborts : StaysRun p aborted
  faults : StaysRun p faulted

pub data StaysResult (p : ArmCore) : Option Run → Type 0 where
  waits : StaysResult p none
  gives : {r : Run} → StaysRun p r → StaysResult p (some r)

pub gdb_send_data-StaysRun :
    {p : ArmCore} (gdb : Gdb) (text : Bytes)
    → Stays p gdb.arm
    → StaysRun p (running (gdb_send_data gdb text))
unfolding gdb_send_data gdb_send_buffer gdb_transmit_packet
gdb_send_data-StaysRun gdb text h = runs h

pub gdb_send_buffer-StaysRun :
    {p : ArmCore} (gdb : Gdb) (text : Bytes)
    → Stays p gdb.arm
    → StaysRun p (running (gdb_send_buffer gdb text))
unfolding gdb_send_buffer gdb_transmit_packet
gdb_send_buffer-StaysRun gdb text h = runs h

pub StaysRun-if :
    {p : ArmCore} (b : Bool) {r s : Run}
    → StaysRun p r
    → StaysRun p s
    → StaysRun p (if b then r else s)
StaysRun-if true h k = h
StaysRun-if false h k = k

pub send_if-StaysRun :
    {p : ArmCore} (b : Bool) (x y : Gdb)
    → StaysRun p (running x)
    → StaysRun p (running y)
    → StaysRun p (running (if b then x else y))
send_if-StaysRun true x y h k = h
send_if-StaysRun false x y h k = k

pub gdb_send_stop_reason-StaysRun :
    {p : ArmCore} (gdb : Gdb) → Stays p gdb.arm → StaysRun p (running (gdb_send_stop_reason gdb))
unfolding gdb_send_stop_reason
gdb_send_stop_reason-StaysRun gdb h =
    send_if-StaysRun (gdb.target_exception == undefined_instruction) _ _
      (gdb_send_data-StaysRun gdb _ h)
      (send_if-StaysRun
        (gdb.target_exception == prefetch_abort || gdb.target_exception == data_abort) _ _
        (gdb_send_data-StaysRun gdb _ h) (gdb_send_data-StaysRun gdb _ h))

then_send-StaysRun :
    {p : ArmCore} {r : Run} → StaysRun p r → StaysRun p (then_send gdb_send_stop_reason r)
then_send-StaysRun (runs {gdb} h) = gdb_send_stop_reason-StaysRun gdb h
then_send-StaysRun ends_program = ends_program
then_send-StaysRun aborts = aborts
then_send-StaysRun faults = faults

pub unlock-StaysResult : {p : ArmCore} {r : Option Run} → StaysResult p r → StaysResult p (unlock r)
unlock-StaysResult waits = waits
unlock-StaysResult (gives (runs h)) = gives (runs h)
unlock-StaysResult (gives ends_program) = gives ends_program
unlock-StaysResult (gives aborts) = gives aborts
unlock-StaysResult (gives faults) = gives faults

then_go_on-StaysResult :
    {p : ArmCore} {f : Gdb → Option Run} {r : Run}
    → ((gdb : Gdb) → Stays p gdb.arm → StaysResult p (f gdb))
    → StaysRun p r
    → StaysResult p (then_go_on f r)
then_go_on-StaysResult k (runs {gdb} h) = k gdb h
then_go_on-StaysResult k ends_program = gives ends_program
then_go_on-StaysResult k aborts = gives aborts
then_go_on-StaysResult k faults = gives faults

pub StaysResult-if :
    {p : ArmCore} (b : Bool) {r s : Option Run}
    → StaysResult p r
    → StaysResult p s
    → StaysResult p (elim b [ true ↦ r | false ↦ s ])
StaysResult-if true h k = h
StaysResult-if false h k = k

map-StaysResult :
    {p : ArmCore} {r : Option Run}
    → StaysResult p r
    → StaysResult p (map (then_send gdb_send_stop_reason) r)
map-StaysResult waits = waits
map-StaysResult (gives h) = gives (then_send-StaysRun h)

module _ (unset : Unset) (fits : (n : ℕ) → IsWordStale (unset.step n)) {p : ArmCore} where
  of_outcome-StaysRun :
      (gdb : Gdb) (o : Outcome)
      → Stays p gdb.arm
      → Returns (counted gdb.arm) o
      → StaysRun p (of_outcome gdb o)
  of_outcome-StaysRun gdb exited h ends = ends_program
  of_outcome-StaysRun gdb (returned code arm) h (back k) =
      runs (Stays-trans h (record { word = k.word; size = k.size; order = k.order }))

  stepped-StaysRun : (gdb : Gdb) → Stays p gdb.arm → StaysRun p (stepped unset gdb)
  unfolding stepped
  stepped-StaysRun gdb h =
      of_outcome-StaysRun gdb (arm_step (unset.step gdb.arm.cycle_count) gdb.arm) h
        (arm_step-Returns (unset.step gdb.arm.cycle_count) (fits _) gdb.arm h.word)

  cont_loop-StaysResult :
      (fuel i : ℕ) (gdb : Gdb) → Stays p gdb.arm → StaysResult p (cont_loop unset fuel i gdb)
  unfolding cont_loop
  cont_loop-StaysResult zero i gdb h = waits
  cont_loop-StaysResult (suc fuel) i gdb h =
      let read = next_instruction i gdb in
      StaysResult-if (is_breakpoint read) (gives (runs h))
        (then_go_on-StaysResult (cont_loop-StaysResult fuel read) (stepped-StaysRun gdb h))

  pub cont-StaysResult :
      (fuel : ℕ) (gdb : Gdb) → Stays p gdb.arm → StaysResult p (cont unset fuel gdb)
  unfolding cont
  cont-StaysResult fuel gdb h = map-StaysResult (cont_loop-StaysResult fuel unset.instruction gdb h)

  pub step-StaysRun : (gdb : Gdb) → Stays p gdb.arm → StaysRun p (step unset gdb)
  unfolding step
  step-StaysRun gdb h = then_send-StaysRun (stepped-StaysRun gdb h)
