-- ===== src/Session.antt =====
-- service/session: the six methods that a client calls on its session over the bus (skeleton.cpp), the
-- session's status properties and what is done when they change (interface.h, implementation.cpp), and the
-- proxy provider whose controller a session drives (proxy_provider.cpp).
pub mod Aligned
pub mod Lifetime
pub mod Client
pub mod Matched
use location_service.Base.{Bool, true, false, if◌then◌else◌, List, [], ◌∷◌}
use location_service.Engine.State.{Property}
use location_service.Provider.Controller.{
  Call, start_position, stop_position, start_heading, stop_heading, start_velocity, stop_velocity,
  fresh, ask,
}
use location_service.Provider.Consistency.{Driven, step}

-- `Interface::Updates::Status`
pub data Status : Type 0 where
  enabled disabled : Status

-- A session. `proxy` is its own `ProxyProvider`: the controller, and the calls that the proxy passed on to
-- the controllers of the providers that were selected, the newest first.
pub record Session : Type 0 where
  pub position_status : Status
  pub heading_status : Status
  pub velocity_status : Status
  pub proxy : Driven

abbrev pub init : Session
init = record {
  position_status = disabled;
  heading_status = disabled;
  velocity_status = disabled;
  proxy = record { controller = fresh; calls = [] };
}

-- The slots of the three properties: `start_..._updates` and `stop_..._updates` of the implementation.
unfoldable pub on_position_status : Status → Driven → Driven
unfolding step
on_position_status enabled p = step p (ask start_position)
on_position_status disabled p = step p (ask stop_position)

unfoldable pub on_heading_status : Status → Driven → Driven
unfolding step
on_heading_status enabled p = step p (ask start_heading)
on_heading_status disabled p = step p (ask stop_heading)

unfoldable pub on_velocity_status : Status → Driven → Driven
unfolding step
on_velocity_status enabled p = step p (ask start_velocity)
on_velocity_status disabled p = step p (ask stop_velocity)

-- The methods of the bus.
pub data Method : Type 0 where
  start_position_updates stop_position_updates start_heading_updates : Method
  stop_heading_updates start_velocity_updates stop_velocity_updates : Method

module _ (status : Property Status) where
  unfoldable pub set_position_status : Status → Session → Session
  set_position_status b s =
      if status.emits s.position_status b
      then record s { position_status = b; proxy = on_position_status b s.proxy }
      else s

  unfoldable pub set_heading_status : Status → Session → Session
  set_heading_status b s =
      if status.emits s.heading_status b
      then record s { heading_status = b; proxy = on_heading_status b s.proxy }
      else s

  unfoldable pub set_velocity_status : Status → Session → Session
  set_velocity_status b s =
      if status.emits s.velocity_status b
      then record s { velocity_status = b; proxy = on_velocity_status b s.proxy }
      else s

  -- `Skeleton::on_start_position_updates` and the five others.
  unfoldable pub handle : Method → Session → Session
  unfolding set_position_status set_heading_status set_velocity_status
  handle start_position_updates s = set_position_status enabled s
  handle stop_position_updates s = set_position_status disabled s
  handle start_heading_updates s = set_position_status enabled s
  handle stop_heading_updates s = set_heading_status disabled s
  handle start_velocity_updates s = set_velocity_status enabled s
  handle stop_velocity_updates s = set_velocity_status disabled s

  unfoldable pub run : List Method → Session → Session
  unfolding handle
  run [] s = s
  run (m ∷ ms) s = run ms (handle m s)

-- The destructor.
unfoldable pub destroy : Session → Session
unfolding step
destroy s = record s {
  proxy = step (step (step s.proxy (ask stop_position)) (ask stop_heading)) (ask stop_velocity);
}
