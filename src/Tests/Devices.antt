-- ===== src/Tests/Devices.antt =====
-- Controllers and sessions.
use location_service.Base.{◌≡◌, refl, false, some, List, [], ◌∷◌, All, arith}
use location_service.Provider.Controller.{
  start_position, stop_position, start_heading, Request, ask, ask_enable, ask_disable,
}
use location_service.Provider.Consistency.{IsConsistent, run, init, replay, run-init-IsConsistent}
use location_service.Session
use location_service.Session.Client
use location_service.Session.Matched.{IsMatched, connected-IsMatched}
use location_service.Remote.{Outcome, answered, answer_lost}
use location_service.Session.Aligned.{IsNotHeading}
use location_service.Session.Lifetime.{destroy_stops_all, never_starts_heading}
use location_service.Tests.Samples.{session_status}

abbrev requests : List Request
requests =
    ask_enable
    ∷ ask start_position
    ∷ ask start_position
    ∷ ask stop_position
    ∷ ask_disable
    ∷ ask start_heading
    ∷ []

run-init-IsConsistent_example : IsConsistent 6 (run init requests)
run-init-IsConsistent_example =
    run-init-IsConsistent requests (omega arith) (refl, (tt, (tt, (tt, (tt, (tt, tt))))))

abbrev methods : List Session.Method
methods =
    Session.start_position_updates ∷ Session.start_velocity_updates ∷ Session.start_heading_updates
    ∷ Session.stop_velocity_updates ∷ []

destroy_stops_all_example :
    replay (Session.destroy (Session.run session_status methods Session.init)).proxy.calls
    ≡ some (record { position = false; heading = false; velocity = false })
destroy_stops_all_example = destroy_stops_all session_status methods

never_starts_heading_example :
    All IsNotHeading (Session.run session_status methods Session.init).proxy.calls
    × (Session.run session_status methods Session.init).heading_status ≡ Session.disabled
never_starts_heading_example = never_starts_heading session_status methods

abbrev assignments : List (Client.Assignment × Outcome)
assignments =
    (Client.Assignment.position_status Session.Status.enabled, answered)
    ∷ (Client.Assignment.velocity_status Session.Status.enabled, answer_lost)
    ∷ (Client.Assignment.position_status Session.Status.disabled, answered)
    ∷ []

connected-IsMatched_example :
    IsMatched (Client.assign_all session_status assignments Client.connected)
connected-IsMatched_example = connected-IsMatched session_status assignments (tt, (tt, (tt, tt)))
