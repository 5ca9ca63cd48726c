-- ===== src/Engine.antt =====
-- engine.cpp and state_tracking_provider.h: the engine, the providers that it enables and disables
-- as its configuration changes, and the changes of configuration that providers cause in turn.
-- The slots of a signal run in the order in which they were connected, before the assignment that
-- emits it returns: those of the engine first, then those that others connect.
pub mod State
pub mod Keeps
pub mod Run
pub mod Held
pub mod Gate
pub mod Updates
pub mod Told
use location_service.Base.{
  ℕ, ltb, Bool, true, false, ◌&&◌, not, Option, none, some, List, [], ◌∷◌, ◌++◌, if◌then◌else◌,
}
use location_service.Provider.Controller.{
  Call, start_position, stop_position, start_heading, stop_heading, start_velocity, stop_velocity,
  Controller, fresh, enable, disable, forward,
}
use location_service.Engine.State.{
  Status, SatelliteState, ReportingState, ProviderState, Properties, Tracked, Engine, set_tracked,
  tracked_part, impl_part,
}

abbrev pub is_active : ProviderState → Bool
is_active ProviderState.active = true
is_active ProviderState.enabled = false

abbrev pub satellites_off : Engine → Bool
satellites_off e = elim e.satellite_state [ SatelliteState.off ↦ true | SatelliteState.on ↦ false ]

abbrev pub is_on : Status → Bool
is_on Status.on = true
is_on Status.off = false
is_on Status.active = false

abbrev pub is_off : Status → Bool
is_off Status.off = true
is_off Status.on = false
is_off Status.active = false

-- `Engine::for_each_provider`
unfoldable pub for_each_provider : (ℕ → Engine → Engine) → List ℕ → Engine → Engine
for_each_provider f [] e = e
for_each_provider f (i ∷ is) e = for_each_provider f is (f i e)

-- A virtual function of a wrapped provider.
abbrev pub drive : ℕ → Call → Engine → Engine
drive i c e =
    set_tracked i (record (e.providers i) { impl_calls = c ∷ (e.providers i).impl_calls }) e

-- The slot of `engine_state.changed()` for the states on and active, which call nothing back.
unfoldable pub enable_one : ℕ → Engine → Engine
unfolding enable
enable_one i e =
    if (e.providers i).requires_satellites && satellites_off e then e else enable (tracked_part i) e

unfoldable pub on_engine_state_running : Status → Engine → Engine
unfolding enable_one
on_engine_state_running Status.on e = for_each_provider enable_one e.order e
on_engine_state_running Status.active e = e
on_engine_state_running Status.off e = e

-- The last slot that the engine connects: the state goes to the settings.
abbrev pub save_state : Status → Engine → Engine
save_state s e = record e { saved_states = s ∷ e.saved_states }

module _ (properties : Properties) where
  -- `configuration.engine_state = s` for the states that a provider's change leads to.
  unfoldable pub assign_running : Status → Engine → Engine
  assign_running s e =
      let e1 = record e { engine_state = s } in
      if properties.status.emits e.engine_state s
      then properties.engine_state_slots s (save_state s (on_engine_state_running s e1))
      else e1

  -- The loop of the slot of a provider's `state().changed()`: each round overwrites the variable.
  unfoldable pub is_any_active : Engine → List ℕ → Bool → Bool
  is_any_active e [] found = found
  is_any_active e (i ∷ is) found = is_any_active e is (is_active (e.providers i).state)

  unfoldable pub on_provider_state_changed : Engine → Engine
  on_provider_state_changed e =
      assign_running (if is_any_active e e.order false then Status.active else Status.on) e

  -- `state_ = s` in a tracked provider.
  unfoldable pub assign_state : ℕ → ProviderState → Engine → Engine
  assign_state i s e =
      let e1 = set_tracked i (record (e.providers i) { state = s }) e in
      if properties.provider.emits (e.providers i).state s then on_provider_state_changed e1 else e1

  -- The virtual functions of `StateTrackingProvider`.
  unfoldable pub tracked_call : ℕ → Call → Engine → Engine
  tracked_call i start_position e =
      forward (impl_part i) (drive i) start_position (assign_state i ProviderState.active e)
  tracked_call i stop_position e =
      forward (impl_part i) (drive i) stop_position (assign_state i ProviderState.enabled e)
  tracked_call i start_heading e =
      forward (impl_part i) (drive i) start_heading (assign_state i ProviderState.active e)
  tracked_call i stop_heading e =
      forward (impl_part i) (drive i) stop_heading (assign_state i ProviderState.enabled e)
  tracked_call i start_velocity e =
      forward (impl_part i) (drive i) start_velocity (assign_state i ProviderState.active e)
  tracked_call i stop_velocity e =
      forward (impl_part i) (drive i) stop_velocity (assign_state i ProviderState.enabled e)

  -- `provider->state_controller()->disable()`, and a start or stop that a client asks for.
  unfoldable pub disable_one : ℕ → Engine → Engine
  disable_one i e = disable (tracked_part i) (tracked_call i) e

  unfoldable pub request : ℕ → Call → Engine → Engine
  request i c e = forward (tracked_part i) (tracked_call i) c e

  -- The first slot of `engine_state.changed()`.
  unfoldable pub on_engine_state : Status → Engine → Engine
  on_engine_state Status.off e = for_each_provider disable_one e.order e
  on_engine_state Status.on e = on_engine_state_running Status.on e
  on_engine_state Status.active e = on_engine_state_running Status.active e

  -- `configuration.engine_state = s`
  unfoldable pub set_engine_state : Status → Engine → Engine
  set_engine_state s e =
      let e1 = record e { engine_state = s } in
      if properties.status.emits e.engine_state s
      then properties.engine_state_slots s (save_state s (on_engine_state s e1))
      else e1

  -- The slot of `satellite_based_positioning_state.changed()`.
  unfoldable pub sync_satellites : SatelliteState → ℕ → Engine → Engine
  unfolding enable
  sync_satellites SatelliteState.on i e =
      if (e.providers i).requires_satellites && is_on e.engine_state
      then enable (tracked_part i) e
      else e
  sync_satellites SatelliteState.off i e =
      if (e.providers i).requires_satellites then disable_one i e else e

  unfoldable pub set_satellite_state : SatelliteState → Engine → Engine
  set_satellite_state s e =
      let e1 = record e { satellite_state = s } in
      if properties.satellite.emits e.satellite_state s
      then for_each_provider (sync_satellites s) e.order e1
      else e1

  -- The reporting state is saved, and each provider is told of it.
  unfoldable pub tell : ReportingState → List ℕ → Engine → Engine
  tell s [] e = e
  tell s (i ∷ is) e = tell s is (record e { told = (i, s) ∷ e.told })

  unfoldable pub set_reporting_state : ReportingState → Engine → Engine
  unfolding tell
  set_reporting_state s e =
      let e1 = record e { reporting_state = s; saved_reporting = s ∷ e.saved_reporting } in
      if properties.reporting.emits e.reporting_state s
      then tell s e.connected e1
      else record e { reporting_state = s }

-- `std::map::emplace`: the map keeps its keys in order, and a key that it has stays as it is.
unfoldable pub emplace : ℕ → List ℕ → List ℕ
emplace i [] = i ∷ []
emplace i (j ∷ js) = if ltb i j then i ∷ j ∷ js else if ltb j i then j ∷ emplace i js else j ∷ js

-- `StateTrackingProvider::StateTrackingProvider` around a provider with its controller.
abbrev pub track : Bool → Controller → Tracked
track satellites impl = record {
  controller = fresh;
  state = ProviderState.enabled;
  requires_satellites = satellites;
  impl_controller = impl;
  impl_calls = [];
}

module _ (properties : Properties) where
  -- "We synchronize to the engine state."
  unfoldable pub sync_new_satellites : ℕ → Engine → Engine
  sync_new_satellites i e =
      if (e.providers i).requires_satellites && satellites_off e
      then disable_one properties i e
      else e

  unfoldable pub sync_new_state : ℕ → Engine → Engine
  sync_new_state i e = if is_off e.engine_state then disable_one properties i e else e

  -- `Engine::add_provider` for a provider that the new tracking provider at address `i` wraps: whether
  -- it requires satellites, and its controller. The engine refuses a null provider.
  unfoldable pub add_provider : ℕ → Option (Bool × Controller) → Engine → Option Engine
  unfolding emplace
  add_provider i none e = none
  add_provider i (some (satellites, impl)) e =
      let e' = sync_new_state i (sync_new_satellites i (set_tracked i (track satellites impl) e)) in
      some (record e' { order = emplace i e'.order; connected = e'.connected ++ i ∷ [] })

  unfoldable pub stop_all : ℕ → Engine → Engine
  stop_all i e =
      request properties i stop_velocity
        (request properties i stop_heading (request properties i stop_position e))

  -- `Engine::~Engine`
  unfoldable pub destroy : Engine → Engine
  unfolding stop_all
  destroy e = for_each_provider (stop_all) e.order (record e {
    saved_states = e.engine_state ∷ e.saved_states;
    saved_reporting = e.reporting_state ∷ e.saved_reporting;
  })

-- `Engine::Engine` with the values that the settings hold for the two states that are saved.
unfoldable pub init : Status → ReportingState → Engine
init s r = record {
  engine_state = s;
  satellite_state = SatelliteState.on;
  reporting_state = r;
  providers = λ i. track false fresh;
  order = [];
  connected = [];
  saved_states = [];
  saved_reporting = [];
  told = [];
}
