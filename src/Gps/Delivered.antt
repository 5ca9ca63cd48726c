-- ===== src/Gps/Delivered.antt =====
-- gps/provider.cpp: the provider on top of the layer, driven through its controller.
use location_service.Base.{
  ℕ, zero, suc, ◌+◌, ◌≤◌, ◌<◌, ltb, ◌≡◌, refl, Bool, true, false, Option, none, some, List, [], ◌∷◌,
  if◌then◌else◌, length, arith,
}
use location_service.Base.Int.{ℤ, pos, negsuc, int_max}
use location_service.Measure.{Position, Update}
use location_service.Provider.Controller.{
  Call, start_position, stop_position, start_heading, stop_heading, start_velocity, stop_velocity,
  Controller, fresh, Part, Request, ask_enable, ask_disable, ask, enable, disable, forward,
}
use location_service.Codec.Vehicles.{Key, SpaceVehicle}
use location_service.Gps.{
  Command, start, stop, Emission, position_updates, velocity_updates, heading_updates,
  space_vehicle_updates, Hal, start_positioning, stop_positioning, inject_reference_position, call,
}

-- What the provider updates.
pub data Updated (F Q : Type 0) : Type 0 where
  position : Update (Position Q) → Updated F Q
  velocity : Update Q → Updated F Q
  heading : Update Q → Updated F Q
  svs : Update (List (Key × SpaceVehicle F Q)) → Updated F Q

-- The slots that the constructor connects: `Update(value)` takes the time of the moment.
unfoldable pub updated : {F Q : Type 0} → ℤ → Emission F Q → Updated F Q
updated now (position_updates p) = position (record { value = p; when = now })
updated now (velocity_updates v) = velocity (record { value = v; when = now })
updated now (heading_updates h) = heading (record { value = h; when = now })
updated now (space_vehicle_updates s) = svs (record { value = s; when = now })

pub record Provider (F Q : Type 0) : Type 0 where
  pub controller : Controller
  pub hal : Hal F Q

module _ {F Q : Type 0} where
  abbrev pub part : Part (Provider F Q) Controller
  part = record { get = λ p. p.controller; put = λ c p. record p { controller = c } }

  abbrev pub with_hal : Bool × Hal F Q → Provider F Q → Provider F Q
  with_hal h p = record p { hal = h.1 }

module _ {F Q : Type 0} (answer : List (Command Q) → Bool) where
  -- The virtual functions: those for velocities and headings do nothing.
  unfoldable pub virtual : Call → Provider F Q → Provider F Q
  unfolding call
  virtual start_position p = with_hal (call answer start_positioning p.hal) p
  virtual stop_position p = with_hal (call answer stop_positioning p.hal) p
  virtual start_velocity p = p
  virtual stop_velocity p = p
  virtual start_heading p = p
  virtual stop_heading p = p

  unfoldable pub on_reference_location_updated : Update (Position Q) → Provider F Q → Provider F Q
  unfolding call
  on_reference_location_updated u p =
      with_hal (call answer (inject_reference_position u.value) p.hal) p

  unfoldable pub step : Request → Provider F Q → Provider F Q
  unfolding enable disable forward virtual
  step ask_enable p = enable part p
  step ask_disable p = disable part virtual p
  step (ask c) p = forward part virtual c p

  unfoldable pub run : List Request → Provider F Q → Provider F Q
  unfolding step
  run [] p = p
  run (r ∷ rs) p = run rs (step r p)

-- The position sessions that are open, `none` for a provider that is disabled: a stop without a session disables
-- it, too.
unfoldable pub open_after : Request → Option ℕ → Option ℕ
open_after ask_enable o = some 0
open_after ask_disable o = none
open_after (ask start_position) none = none
open_after (ask start_position) (some n) = some (suc n)
open_after (ask stop_position) none = none
open_after (ask stop_position) (some zero) = none
open_after (ask stop_position) (some (suc n)) = some n
open_after (ask start_heading) o = o
open_after (ask stop_heading) o = o
open_after (ask start_velocity) o = o
open_after (ask stop_velocity) o = o

unfoldable pub open_sessions : List Request → Option ℕ → Option ℕ
unfolding open_after
open_sessions [] o = o
open_sessions (r ∷ rs) o = open_sessions rs (open_after r o)

abbrev pub is_open : Option ℕ → Bool
is_open none = false
is_open (some n) = ltb 0 n

-- The provider is enabled only while no position session is open.
abbrev pub IsQuiet : Request → Option ℕ → Type 0
IsQuiet ask_enable o = is_open o ≡ false
IsQuiet ask_disable o = Unit {0}
IsQuiet (ask c) o = Unit {0}

abbrev pub AreQuiet : List Request → Option ℕ → Type 0
AreQuiet [] o = Unit {0}
AreQuiet (r ∷ rs) o = IsQuiet r o × AreQuiet rs (open_after r o)

-- Whether the chipset runs after commands, the newest first. A strict one: it refuses to start while it runs, and
-- to stop while it does not.
unfoldable pub powered : {Q : Type 0} → List (Command Q) → Option Bool
powered [] = some false
powered (c ∷ older) = elim (powered older) [
  | none ↦ none
  | some on ↦ elim c [
    | start ↦ if on then none else some true
    | stop ↦ if on then some false else none
    | _ ↦ some on
  ]
]

abbrev counter_of : Option ℕ → ℤ
counter_of none = negsuc 0
counter_of (some n) = pos n

abbrev number_of : Option ℕ → ℕ
number_of none = 0
number_of (some n) = n

module _ {F Q : Type 0} (answer : List (Command Q) → Bool) where
  -- The counter of positions is the number of open sessions, which is at most `k`, and the chipset runs while there
  -- is one.
  record IsPowered (k : ℕ) (o : Option ℕ) (p : Provider F Q) : Type 0 where
    counted : p.controller.position_updates_counter ≡ counter_of o
    chipset : powered p.hal.commands ≡ some (is_open o)
    number_le : number_of o ≤ k

  step-IsPowered :
      (r : Request) (k : ℕ) (o : Option ℕ) (p : Provider F Q)
      → k < int_max
      → IsQuiet r o
      → IsPowered k o p
      → IsPowered (suc k) (open_after r o) (step answer r p)
  unfolding step open_after powered call
  step-IsPowered ask_enable k o p l q h = ground arith
  step-IsPowered ask_disable k o p l q h = ground arith
  step-IsPowered (ask start_position) k o p l q h = ground arith
  step-IsPowered (ask stop_position) k o p l q h = ground arith
  step-IsPowered (ask start_heading) k o p l q h = ground arith
  step-IsPowered (ask stop_heading) k o p l q h = ground arith
  step-IsPowered (ask start_velocity) k o p l q h = ground arith
  step-IsPowered (ask stop_velocity) k o p l q h = ground arith

  run-IsPowered :
      (rs : List Request) (k : ℕ) (o : Option ℕ) (p : Provider F Q)
      → k + length rs ≤ int_max
      → AreQuiet rs o
      → IsPowered k o p
      → powered (run answer rs p).hal.commands ≡ some (is_open (open_sessions rs o))
  unfolding run open_sessions
  run-IsPowered [] k o p l q h = h.chipset
  run-IsPowered (r ∷ rs) k o p l q h =
      run-IsPowered rs (suc k) (open_after r o) (step answer r p) (omega arith) q.1
        (step-IsPowered r k o p (omega arith) q.0 h)

  -- After at most 2147483647 requests to the provider, with a chipset that does not run before, of which an enabling
  -- comes only while no position session is open, and whatever the driver answers: the chipset was started only
  -- where it did not run and stopped only where it ran, and it runs exactly while a position session is open.
  pub run-powered :
      (rs : List Request) (hal : Hal F Q)
      → length rs ≤ int_max
      → AreQuiet rs (some 0)
      → powered hal.commands ≡ some false
      → powered (run answer rs (record { controller = fresh; hal = hal })).hal.commands
        ≡ some (is_open (open_sessions rs (some 0)))
  run-powered rs hal l q h =
      run-IsPowered rs 0 (some 0) (record { controller = fresh; hal = hal }) (omega arith) q
        (record { counted = refl; chipset = h; number_le = omega arith })
