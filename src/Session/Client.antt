-- ===== src/Session/Client.antt =====
-- service/session/stub.cpp: the client's side of a session, whose status properties start and stop updates by
-- transactions with the session of the service.
use location_service.Base.{Bool, true, false, List, [], ◌∷◌, if◌then◌else◌}
use location_service.Engine.State.{Property}
use location_service.Remote.{Outcome, answered, request_lost, answer_lost}
use location_service.Session
use location_service.Session.{
  Session, Status, enabled, disabled, Method, start_position_updates, stop_position_updates,
  start_heading_updates, stop_heading_updates, start_velocity_updates, stop_velocity_updates,
  handle,
}

-- The stub's three properties, the session on the other side, and whether the last assignment threw.
pub record Client : Type 0 where
  pub position : Status
  pub velocity : Status
  pub heading : Status
  pub session : Session
  pub threw : Bool

-- An assignment of a client to one of the properties.
pub data Assignment : Type 0 where
  position_status velocity_status heading_status : Status → Assignment

-- Whether `result.is_error()`; a start throws then, a stop does not.
abbrev pub is_error : Outcome → Bool
is_error answered = false
is_error request_lost = true
is_error answer_lost = true

abbrev pub throws : Status → Outcome → Bool
throws enabled outcome = is_error outcome
throws disabled outcome = false

module _ (status : Property Status) where
  -- `transact_method`, as far as the session is concerned.
  unfoldable pub transact : Method → Outcome → Session → Session
  unfolding handle
  transact m answered s = handle status m s
  transact m request_lost s = s
  transact m answer_lost s = handle status m s

  abbrev pub method_of : Method → Method → Status → Method
  method_of start stop enabled = start
  method_of start stop disabled = stop

  -- `updates().position_status = b` with the slot that the stub connects, and the two others. The property has
  -- its new value when the slot throws.
  unfoldable pub assign : Assignment → Outcome → Client → Client
  unfolding transact
  assign (position_status b) outcome c =
      if status.emits c.position b
      then record c {
        position = b;
        session =
            transact (method_of start_position_updates stop_position_updates b) outcome c.session;
        threw = throws b outcome;
      }
      else record c { threw = false }
  assign (velocity_status b) outcome c =
      if status.emits c.velocity b
      then record c {
        velocity = b;
        session =
            transact (method_of start_velocity_updates stop_velocity_updates b) outcome c.session;
        threw = throws b outcome;
      }
      else record c { threw = false }
  assign (heading_status b) outcome c =
      if status.emits c.heading b
      then record c {
        heading = b;
        session =
            transact (method_of start_heading_updates stop_heading_updates b) outcome c.session;
        threw = throws b outcome;
      }
      else record c { threw = false }

  unfoldable pub assign_all : List (Assignment × Outcome) → Client → Client
  unfolding assign
  assign_all [] c = c
  assign_all ((a, outcome) ∷ rest) c = assign_all rest (assign a outcome c)

-- The constructors.
abbrev pub connected : Client
connected = record {
  position = disabled;
  velocity = disabled;
  heading = disabled;
  session = Session.init;
  threw = false;
}
