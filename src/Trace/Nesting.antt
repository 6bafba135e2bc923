-- ===== src/Trace/Nesting.antt =====
-- Calls that bring their location with them, as the macros of trace_location.h do.
use mathlib.Core.Option.{some_inj}
use l3_info_simulateur_arm.Base.{
  ℕ, ◌^◌, ◌<◌, ◌≡◌, sym, refl, arith, Bool, true, false, ltb, if◌then◌else◌, none, some,
}
use l3_info_simulateur_arm.Util.{add32, sub32}
use l3_info_simulateur_arm.Core.{ArmCore}
use l3_info_simulateur_arm.Text.{Bytes}
use l3_info_simulateur_arm.Trace.{
  Trace, max_locations, trace_start_location, trace_end_location, trace_memory, trace_register,
  trace_arm_state,
}

-- Accesses that are traced, and calls between their location and its end, one in another.
pub data Nested : Trace → Trace → Type 0 where
  nothing : {t : Trace} → Nested t t
  memory :
      {t u : Trace} (cycle type size cause address value : ℕ)
      → Nested t u
      → Nested t (trace_memory u cycle type size cause address value)
  register :
      {t u : Trace} (cycle type reg mode value : ℕ)
      → Nested t u
      → Nested t (trace_register u cycle type reg mode value)
  state : {t u : Trace} (p : ArmCore) → Nested t u → Nested t (trace_arm_state u p)
  call :
      {t u w v : Trace} (file : Bytes) (line : ℕ)
      → Nested t u
      → trace_start_location u file line ≡ some w
      → Nested w v
      → Nested t (trace_end_location v)

-- The top of the stack and the flags.
pub IsSame : Trace → Trace → Type 0
IsSame t u =
    (u.location_stack_top ≡ t.location_stack_top)
    × ((u.enabled ≡ t.enabled) × (u.trace_flags ≡ t.trace_flags))

sub32-add32 : (n : ℕ) → n < 2 ^ 32 → sub32 (add32 n 1) 1 ≡ n
sub32-add32 n h = omega (arith, h)

entered :
    (b c : Bool) (x y w : Trace)
    → (if b then (if c then some x else none) else some y) ≡ some w
    → (if b then x else y) ≡ w
entered true true x y w e = some_inj.0 e
entered true false x y w e = cc
entered false c x y w e = some_inj.0 e

-- The state in which a call starts.
trace_start_location-top :
    (t w : Trace) (file : Bytes) (line : ℕ)
    → trace_start_location t file line ≡ some w
    → (w.location_stack_top
        ≡ (if t.enabled then add32 t.location_stack_top 1 else t.location_stack_top))
      × (w.enabled ≡ t.enabled)
      × (w.trace_flags ≡ t.trace_flags)
unfolding trace_start_location
trace_start_location-top t w file line e =
    let same = entered t.enabled (ltb (add32 t.location_stack_top 1) max_locations) _ t w e in
    rw (sym same) (ground arith, ground arith, ground arith)

-- A call that ends where its location stood.
call-IsSame :
    (t u w v : Trace) (file : Bytes) (line : ℕ)
    → t.location_stack_top < 2 ^ 32
    → IsSame t u
    → trace_start_location u file line ≡ some w
    → IsSame w v
    → IsSame t (trace_end_location v)
unfolding IsSame trace_end_location
call-IsSame t u w v file line h (top, (enabled, flags)) start (top_v, (enabled_v, flags_v)) =
    let (top_w, enabled_w, flags_w) = trace_start_location-top u w file line start in
    ground (arith, sub32-add32 _ h)

-- After calls that are nested, none of which runs over the arrays of the stack, the top of the stack
-- of locations stands where it stood, and what is traced is as before. The top is a 32-bit pattern.
pub Nested-IsSame : {t u : Trace} → t.location_stack_top < 2 ^ 32 → Nested t u → IsSame t u
unfolding IsSame trace_memory trace_register trace_arm_state
Nested-IsSame h nothing = (refl, (refl, refl))
Nested-IsSame h (memory {t} {u} cycle type size cause address value n) =
    let (top, (enabled, flags)) = Nested-IsSame h n in ground arith
Nested-IsSame h (register cycle type reg mode value n) =
    let (top, (enabled, flags)) = Nested-IsSame h n in ground arith
Nested-IsSame h (state p n) = let (top, (enabled, flags)) = Nested-IsSame h n in ground arith
Nested-IsSame h (call {t} {u} {w} {v} file line n start m) =
    let (top, (enabled, flags)) = Nested-IsSame h n in
    let (top_w, enabled_w, flags_w) = trace_start_location-top u w file line start in
    call-IsSame t u w v file line h (top, (enabled, flags)) start
      (Nested-IsSame (ground (arith, h, top, top_w)) m)
