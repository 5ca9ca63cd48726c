-- ===== src/Engine/Run.antt =====
-- The engine under any sequence of what its clients and its owner do.
use location_service.Base.{ℕ, Bool, Option, none, some, List, [], ◌∷◌}
use location_service.Provider.Controller.{Call, Controller}
use location_service.Engine.State.{Status, SatelliteState, ReportingState, Properties, Engine}
use location_service.Engine.{
  request, set_engine_state, set_satellite_state, set_reporting_state, add_provider,
}

pub data Event : Type 0 where
  state_set : Status → Event
  satellite_set : SatelliteState → Event
  reporting_set : ReportingState → Event
  provider_added : ℕ → Option (Bool × Controller) → Event
  asked : ℕ → Call → Event

-- An engine that throws stays as it was.
abbrev pub or_as_was : Engine → Option Engine → Engine
or_as_was e none = e
or_as_was e (some f) = f

module _ (properties : Properties) where
  unfoldable pub step : Engine → Event → Engine
  step e (state_set s) = set_engine_state properties s e
  step e (satellite_set s) = set_satellite_state properties s e
  step e (reporting_set s) = set_reporting_state properties s e
  step e (provider_added i p) = or_as_was e (add_provider properties i p e)
  step e (asked i c) = request properties i c e

  unfoldable pub run : Engine → List Event → Engine
  run e [] = e
  run e (v ∷ vs) = run (step e v) vs
