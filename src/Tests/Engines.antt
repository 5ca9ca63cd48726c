-- ===== src/Tests/Engines.antt =====
-- Engines, as their own operations leave them.
use location_service.Base.{◌≡◌, refl, true, false, some, List, [], ◌∷◌}
use location_service.Base.Int.{increment, decrement}
use native.Mathlib.Decide.{ℕ_discrete}
use location_service.Provider.Controller.{
  start_position, fresh, switched_off, forward, are_heading_updates_running,
  are_position_updates_running, are_velocity_updates_running, disable, enable,
  start_heading_updates, start_position_updates, start_velocity_updates, stop_heading_updates,
  stop_if, stop_position_updates, stop_velocity_updates,
}
use location_service.Engine.State.{Status, SatelliteState, ReportingState, Properties, Engine}
use location_service.Engine.{
  init, add_provider, request, set_engine_state, set_satellite_state, on_provider_state_changed,
  sync_new_state, sync_new_satellites, tracked_call, assign_state, assign_running, is_any_active,
  for_each_provider, sync_satellites, disable_one, emplace, enable_one, on_engine_state,
  on_engine_state_running,
}
use location_service.Engine.Run.{Event, state_set, satellite_set, provider_added, asked, step, run}
use location_service.Engine.Gate.{satellites_gated}
use location_service.Engine.Keeps.{Keeps, keeps_refl, set_engine_state-Keeps}
use location_service.Base.{ℕ, none}
use location_service.Base.Int.{pos}
use location_service.Measure.{Position, Update}
use location_service.UpdatePolicy.{Policy}
use location_service.Connectivity
use location_service.Service.Harvester
use location_service.Engine.Updates.{Slot, provider, harvester, on_positions}
use location_service.Engine.Told.{AreTold, first_of, on_positions-AreTold}
use location_service.Tests.Samples.{properties, whole}

-- What the service's slot does to an engine that was on and turns off: it assigns off again.
abbrev assign_again : Status → Engine → Engine
assign_again Status.off e = set_engine_state properties Status.off e
assign_again Status.on e = e
assign_again Status.active e = e

abbrev with_service : Properties
with_service = record properties { engine_state_slots = assign_again }

assign_again-Keeps : (s : Status) (e : Engine) → Keeps e (assign_again s e)
assign_again-Keeps Status.off e =
    set_engine_state-Keeps properties (λ s f. keeps_refl _ f) Status.off e
assign_again-Keeps Status.on e = keeps_refl _ e
assign_again-Keeps Status.active e = keeps_refl _ e

-- A provider that needs satellites at 1, one that does not at 2, and a client that starts positions.
abbrev additions : List Event
additions = provider_added 1 (some (true, fresh)) ∷ provider_added 2 (some (false, fresh)) ∷ []

abbrev engine_after : List Event → Engine
engine_after vs = run with_service (init Status.on ReportingState.on) vs

abbrev switched : List Event
switched =
    provider_added 1 (some (true, fresh))
    ∷ provider_added 2 (some (false, fresh))
    ∷ asked 1 start_position
    ∷ state_set Status.off
    ∷ satellite_set SatelliteState.off
    ∷ []

satellites_gated_example :
    ((engine_after switched).providers 1).controller ≡ switched_off
    × request with_service 1 start_position (engine_after switched) ≡ engine_after switched
unfolding run step set_satellite_state request forward add_provider sync_new_state
    sync_new_satellites ℕ_discrete init tracked_call assign_state on_provider_state_changed
    assign_running is_any_active for_each_provider sync_satellites disable_one decrement increment
    emplace enable_one on_engine_state on_engine_state_running set_engine_state
    are_heading_updates_running are_position_updates_running are_velocity_updates_running disable
    enable start_heading_updates start_position_updates start_velocity_updates stop_heading_updates
    stop_if stop_position_updates stop_velocity_updates
satellites_gated_example =
    satellites_gated with_service assign_again-Keeps Status.on ReportingState.on switched 1
      start_position refl refl refl

abbrev at_time : ℕ → ℕ → Update (Position ℕ)
at_time latitude n = record {
  value = record {
    latitude = latitude;
    longitude = 7;
    altitude = none;
    accuracy = record { horizontal = none; vertical = none };
  };
  when = pos n;
}

abbrev policy : Policy ℕ
policy = record {
  last_position_update = at_time 0 0;
  last_heading_update = record { value = 0; when = pos 0 };
  last_velocity_update = record { value = 0; when = pos 0 };
  limit = pos 2;
}

abbrev nothing_visible : Harvester.Connectivity
nothing_visible = record { radio = Connectivity.Cells.empty; network = Connectivity.Networks.empty }

abbrev positions : List (Harvester.Connectivity × Update (Position ℕ))
positions =
    (nothing_visible, at_time 51 200000000000)
    ∷ (nothing_visible, at_time 50 1)
    ∷ (nothing_visible, at_time 52 200000000001)
    ∷ []

abbrev slots : List Slot
slots = provider 1 ∷ harvester ∷ provider 2 ∷ []

on_positions-AreTold_example : AreTold slots (on_positions positions (first_of policy slots))
on_positions-AreTold_example = on_positions-AreTold positions policy slots
