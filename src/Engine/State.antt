-- ===== src/Engine/State.antt =====
-- The configuration of the engine (engine.h), the providers that it tracks
-- (state_tracking_provider.h), and the properties by which it tells of changes.
use location_service.Base.{ℕ, ◌≡◌, ◌≢◌, ◌↔◌, Bool, true, List, update}
use location_service.Provider.Controller.{Call, Controller, Part}

-- `Engine::Status`
pub data Status : Type 0 where
  off on active : Status

-- `SatelliteBasedPositioningState`
pub data SatelliteState : Type 0 where
  on off : SatelliteState

-- `WifiAndCellIdReportingState`
pub data ReportingState : Type 0 where
  on off : ReportingState

-- `StateTrackingProvider::State`
pub data ProviderState : Type 0 where
  active enabled : ProviderState

-- `core::Property<T>`, which is not part of this repository: whether an assignment of the second
-- value over the first emits `changed()`. It is documented to do so exactly when the value changes.
pub record Property (T : Type 0) : Type 0 where
  pub emits : T → T → Bool
  pub emits_iff : (old new : T) → (emits old new ≡ true) ↔ (old ≢ new)

-- A `StateTrackingProvider`: its own controller, its state, and the provider that it wraps with the
-- controller of that provider and the calls that its virtual functions got, the newest first.
pub record Tracked : Type 0 where
  pub controller : Controller
  pub state : ProviderState
  pub requires_satellites : Bool
  pub impl_controller : Controller
  pub impl_calls : List Call

-- The engine. `providers` is the heap of tracked providers by address and `order` the keys of the
-- map of providers, which iterates by address; `connected` lists the same providers in the order in
-- which they were added, in which their slots run. `saved_states` and `saved_reporting` are the values
-- written to the settings and `told` the reporting states that providers were told, newest first.
pub record Engine : Type 0 where
  pub engine_state : Status
  pub satellite_state : SatelliteState
  pub reporting_state : ReportingState
  pub providers : ℕ → Tracked
  pub order : List ℕ
  pub connected : List ℕ
  pub saved_states : List Status
  pub saved_reporting : List ReportingState
  pub told : List (ℕ × ReportingState)

-- The properties, and what the slots do that others than the engine connect to `engine_state.changed()`, as the service
-- does: they run after those of the engine.
pub record Properties : Type 0 where
  pub status : Property Status
  pub satellite : Property SatelliteState
  pub reporting : Property ReportingState
  pub provider : Property ProviderState
  pub engine_state_slots : Status → Engine → Engine

abbrev pub set_tracked : ℕ → Tracked → Engine → Engine
set_tracked i t e = record e { providers = update e.providers i t }

-- The controller of the tracked provider at an address, and that of the provider which it wraps.
abbrev pub tracked_part : ℕ → Part Engine Controller
tracked_part i = record {
  get = λ e. (e.providers i).controller;
  put = λ c e. set_tracked i (record (e.providers i) { controller = c }) e;
}

abbrev pub impl_part : ℕ → Part Engine Controller
impl_part i = record {
  get = λ e. (e.providers i).impl_controller;
  put = λ c e. set_tracked i (record (e.providers i) { impl_controller = c }) e;
}
