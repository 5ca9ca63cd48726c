-- ===== src/Provider/Consistency.antt =====
-- The controller of a provider whose virtual functions only drive the device: the log of the calls
-- that the device gets, and what follows from it for sessions that share the provider.
use location_service.Base.{
  ℕ, suc, ◌+◌, ◌≤◌, ◌<◌, ◌≡◌, refl, subst, Bool, true, false, Option, none, some, List, [], ◌∷◌,
  arith, length, if◌then◌else◌,
}
use native.Mathlib.Nat.{add-zero, zero-add}
use location_service.Base.Int.{pos, ◌≤ℤ◌, ltb_ℤ, int_max}
use location_service.Provider.Controller.{
  Call, start_position, stop_position, start_heading, stop_heading, start_velocity, stop_velocity,
  Controller, fresh, Part, Request, ask_enable, ask_disable, ask, enable, disable, forward,
}

-- A controller and the calls that its device got, the newest first.
pub record Driven : Type 0 where
  pub controller : Controller
  pub calls : List Call

abbrev pub driven_part : Part Driven Controller
driven_part = record { get = λ d. d.controller; put = λ c d. record d { controller = c } }

abbrev pub log_call : Call → Driven → Driven
log_call c d = record d { calls = c ∷ d.calls }

unfoldable pub step : Driven → Request → Driven
unfolding enable disable forward
step d ask_enable = enable driven_part d
step d ask_disable = disable driven_part log_call d
step d (ask c) = forward driven_part log_call c d

unfoldable pub run : Driven → List Request → Driven
run d [] = d
run d (r ∷ rs) = run (step d r) rs

abbrev pub init : Driven
init = record { controller = fresh; calls = [] }

-- Which functions of a device run.
pub record Device : Type 0 where
  pub position : Bool
  pub heading : Bool
  pub velocity : Bool

-- A strict device: it refuses to start what runs, and to stop what does not.
abbrev pub obey : Call → Device → Option Device
obey start_position d = if d.position then none else some (record d { position = true })
obey stop_position d = if d.position then some (record d { position = false }) else none
obey start_heading d = if d.heading then none else some (record d { heading = true })
obey stop_heading d = if d.heading then some (record d { heading = false }) else none
obey start_velocity d = if d.velocity then none else some (record d { velocity = true })
obey stop_velocity d = if d.velocity then some (record d { velocity = false }) else none

abbrev pub and_then : Option Device → (Device → Option Device) → Option Device
and_then none f = none
and_then (some d) f = f d

abbrev pub replay : List Call → Option Device
replay [] = some (record { position = false; heading = false; velocity = false })
replay (c ∷ older) = and_then (replay older) (obey c)

abbrev pub running : Controller → Device
running c = record {
  position = ltb_ℤ (pos 0) c.position_updates_counter;
  heading = ltb_ℤ (pos 0) c.heading_updates_counter;
  velocity = ltb_ℤ (pos 0) c.velocity_updates_counter;
}

-- The device obeyed every call, and runs just what the counters say; no counter is above `n`.
pub record IsConsistent (n : ℕ) (d : Driven) : Type 0 where
  pub obeyed : replay d.calls ≡ some (running d.controller)
  pub position_le : d.controller.position_updates_counter ≤ℤ pos n
  pub heading_le : d.controller.heading_updates_counter ≤ℤ pos n
  pub velocity_le : d.controller.velocity_updates_counter ≤ℤ pos n

-- `enable` is asked for only while nothing runs.
abbrev pub IsPolite : Driven → Request → Type 0
IsPolite d ask_enable =
    running d.controller ≡ record { position = false; heading = false; velocity = false }
IsPolite d ask_disable = Unit {0}
IsPolite d (ask c) = Unit {0}

abbrev pub ArePolite : Driven → List Request → Type 0
ArePolite d [] = Unit {0}
ArePolite d (r ∷ rs) = IsPolite d r × ArePolite (step d r) rs

call-IsConsistent :
    (c : Call) (d : Driven) (n : ℕ)
    → n < int_max
    → IsConsistent n d
    → IsConsistent (suc n) (step d (ask c))
unfolding step
call-IsConsistent start_position d n h v = ground arith
call-IsConsistent stop_position d n h v = ground arith
call-IsConsistent start_heading d n h v = ground arith
call-IsConsistent stop_heading d n h v = ground arith
call-IsConsistent start_velocity d n h v = ground arith
call-IsConsistent stop_velocity d n h v = ground arith

pub step-IsConsistent :
    (r : Request) (d : Driven) (n : ℕ)
    → n < int_max
    → IsPolite d r
    → IsConsistent n d
    → IsConsistent (suc n) (step d r)
unfolding step
step-IsConsistent ask_enable d n h p v = ground arith
step-IsConsistent ask_disable d n h p v = ground arith
step-IsConsistent (ask c) d n h p v = call-IsConsistent c d n h v

run-IsConsistent_from :
    (rs : List Request) (d : Driven) (n : ℕ)
    → n + length rs ≤ int_max
    → ArePolite d rs
    → IsConsistent n d
    → IsConsistent (n + length rs) (run d rs)
unfolding run
run-IsConsistent_from [] d n h p v = rw add-zero v
run-IsConsistent_from (r ∷ rs) d n h p v =
    subst (λ m. IsConsistent m (run (step d r) rs)) (omega arith)
      (run-IsConsistent_from rs (step d r) (suc n) (omega arith) p.1
        (step-IsConsistent r d n (omega arith) p.0 v))

-- After any sequence of at most 2147483647 requests to a fresh controller in which `enable` is only
-- asked for while nothing runs, the device obeyed each call it got (none started what ran, none
-- stopped what did not), and each function of the device runs exactly if its counter is positive.
pub run-init-IsConsistent :
    (rs : List Request)
    → length rs ≤ int_max
    → ArePolite init rs
    → IsConsistent (length rs) (run init rs)
run-init-IsConsistent rs h p = rw (zero-add (length rs)) at (
    run-IsConsistent_from rs init 0 (omega arith) p (record {
      obeyed = refl;
      position_le = omega arith;
      heading_le = omega arith;
      velocity_le = omega arith;
    }))
