-- ===== src/Service/Mirror.antt =====
-- The properties of the service on the bus and the engine's configuration, each of which follows the other: the slots of
-- implementation.cpp and the signals of skeleton.cpp.
use location_service.Base.{
  ℕ, suc, zero, Bool, true, false, Option, none, some, List, [], ◌∷◌, if◌then◌else◌,
}
use location_service.Settings.{ServiceState, disabled, enabled, active}
use location_service.Engine.State.{Status, SatelliteState, ReportingState, Property}

-- The properties that the service tells clients of.
pub data Signal : Type 0 where
  state_changed : ServiceState → Signal
  does_satellite_based_positioning_changed : Bool → Signal
  does_report_cell_and_wifi_ids_changed : Bool → Signal
  is_online_changed : Bool → Signal

-- The service: its properties, the part of the engine's configuration that they mirror, whether the harvester runs,
-- what clients were told, and the states of the engine that were saved, the newest first.
pub record Service : Type 0 where
  pub state : ServiceState
  pub is_online : Bool
  pub does_satellite_based_positioning : Bool
  pub does_report_cell_and_wifi_ids : Bool
  pub engine_state : Status
  pub satellite_based_positioning_state : SatelliteState
  pub wifi_and_cell_id_reporting_state : ReportingState
  pub harvesting : Bool
  pub told : List Signal
  pub saved_states : List Status

-- The `core::Property` of each type, and what the providers do that the engine's own slots (engine.cpp) enable and disable,
-- which run before those of the service: the states that they lead the engine to assign to its state in turn, where they
-- change their own.
pub record Signals : Type 0 where
  pub flag : Property Bool
  pub state : Property ServiceState
  pub status : Property Status
  pub satellite : Property SatelliteState
  pub reporting : Property ReportingState
  pub reacts : Status → Service → List Status
  pub reacts_to_satellites : SatelliteState → Service → List Status

-- An assignment to one of the properties.
pub data Assignment : Type 0 where
  to_is_online : Bool → Assignment
  to_does_satellite_based_positioning : Bool → Assignment
  to_does_report_cell_and_wifi_ids : Bool → Assignment
  to_engine_state : Status → Assignment
  to_satellite_based_positioning_state : SatelliteState → Assignment

abbrev tell : Signal → Service → Service
tell v s = record s { told = v ∷ s.told }

-- `is_online().get()` and `state().get()` as the switches over the engine's state assign them.
abbrev pub online_of : Status → Bool
online_of Status.off = false
online_of Status.on = true
online_of Status.active = true

abbrev pub state_of : Status → ServiceState
state_of Status.off = disabled
state_of Status.on = enabled
state_of Status.active = active

abbrev pub status_of : Bool → Status
status_of b = if b then Status.on else Status.off

abbrev pub satellite_of : Bool → SatelliteState
satellite_of b = if b then SatelliteState.on else SatelliteState.off

abbrev pub reporting_of : Bool → ReportingState
reporting_of b = if b then ReportingState.on else ReportingState.off

abbrev pub is_satellite_on : SatelliteState → Bool
is_satellite_on SatelliteState.on = true
is_satellite_on SatelliteState.off = false

abbrev pub is_reporting_on : ReportingState → Bool
is_reporting_on ReportingState.on = true
is_reporting_on ReportingState.off = false

abbrev pub and_then : Option Service → (Service → Option Service) → Option Service
and_then none f = none
and_then (some s) f = f s

module _ (p : Signals) where
  -- `mutable_state() = state`, whose only slot tells clients.
  unfoldable pub set_state : ServiceState → Service → Service
  set_state v s =
      if p.state.emits s.state v
      then tell (state_changed v) (record s { state = v })
      else record s { state = v }

  unfoldable pub set_reporting : ReportingState → Service → Service
  set_reporting v s = record s { wifi_and_cell_id_reporting_state = v }

  -- What a slot assigns to the state after what it assigns before that.
  unfoldable pub then_state : ServiceState → Option Service → Option Service
  unfolding set_state
  then_state v none = none
  then_state v (some s) = some (set_state v s)

  -- Assigns, and runs the slots of what has changed, whose assignments are made by `assign`.
  module _ (assign : Assignment → Service → Option Service) where
    unfoldable pub on_is_online : Bool → Service → Option Service
    on_is_online value s =
        assign (to_engine_state (status_of value)) (tell (is_online_changed value) s)

    unfoldable pub on_does_report_cell_and_wifi_ids : Bool → Service → Option Service
    unfolding set_reporting
    on_does_report_cell_and_wifi_ids value s =
        some
          (record (set_reporting (reporting_of value)
            (tell (does_report_cell_and_wifi_ids_changed value) s)) { harvesting = value })

    unfoldable pub on_does_satellite_based_positioning : Bool → Service → Option Service
    on_does_satellite_based_positioning value s =
        assign (to_satellite_based_positioning_state (satellite_of value))
          (tell (does_satellite_based_positioning_changed value) s)

    unfoldable pub on_engine_state : Status → Service → Option Service
    unfolding then_state
    on_engine_state status s =
        then_state (state_of status) (assign (to_is_online (online_of status)) s)

    unfoldable pub on_satellite_based_positioning_state : SatelliteState → Service → Option Service
    on_satellite_based_positioning_state state s =
        assign (to_does_satellite_based_positioning (is_satellite_on state)) s

    -- The assignments that the providers lead to.
    unfoldable pub assign_each : List Status → Service → Option Service
    assign_each [] s = some s
    assign_each (v ∷ vs) s = and_then (assign (to_engine_state v) s) (assign_each vs)

    abbrev saved : Status → Service → Service
    saved v s = record s { saved_states = v ∷ s.saved_states }

    unfoldable pub assign_once : Assignment → Service → Option Service
    unfolding on_is_online on_does_report_cell_and_wifi_ids on_does_satellite_based_positioning
        on_engine_state on_satellite_based_positioning_state assign_each
    assign_once (to_is_online v) s =
        if p.flag.emits s.is_online v then on_is_online v (record s { is_online = v }) else some s
    assign_once (to_does_satellite_based_positioning v) s =
        if p.flag.emits s.does_satellite_based_positioning v
        then on_does_satellite_based_positioning v
            (record s { does_satellite_based_positioning = v })
        else some s
    assign_once (to_does_report_cell_and_wifi_ids v) s =
        if p.flag.emits s.does_report_cell_and_wifi_ids v
        then on_does_report_cell_and_wifi_ids v (record s { does_report_cell_and_wifi_ids = v })
        else some s
    assign_once (to_engine_state v) s =
        if p.status.emits s.engine_state v
        then (let t = record s { engine_state = v } in
            and_then (assign_each (p.reacts v t) t) (λ u. on_engine_state v (saved v u)))
        else some s
    assign_once (to_satellite_based_positioning_state v) s =
        if p.satellite.emits s.satellite_based_positioning_state v
        then (let t = record s { satellite_based_positioning_state = v } in
            and_then (assign_each (p.reacts_to_satellites v t) t)
              (on_satellite_based_positioning_state v))
        else some s

  -- The fuel bounds how deep slots run within slots.
  unfoldable pub assign : ℕ → Assignment → Service → Option Service
  unfolding assign_once
  assign zero a s = none
  assign (suc n) a s = assign_once (assign n) a s

  -- What the constructor assigns after the slots are connected; the switch reads the engine's state once.
  unfoldable pub initialise : ℕ → Service → Option Service
  unfolding assign set_state
  initialise n s = and_then (assign n (to_is_online (online_of s.engine_state)) s) (λ t.
      let u = set_state (state_of s.engine_state) t in
      and_then
        (assign n
          (to_does_report_cell_and_wifi_ids (is_reporting_on u.wifi_and_cell_id_reporting_state)) u)
        (λ v.
          assign n
            (to_does_satellite_based_positioning
              (is_satellite_on v.satellite_based_positioning_state))
            v))
