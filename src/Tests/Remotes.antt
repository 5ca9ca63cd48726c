-- ===== src/Tests/Remotes.antt =====
-- A remote provider and a fused one.
use location_service.Base.{ℕ, ◌≡◌, refl, List, [], ◌∷◌, arith}
use location_service.Base.Int.{pos}
use location_service.Provider.Controller.{
  start_position, stop_position, start_heading, stop_heading, Request, ask,
}
use location_service.Provider.Consistency
use location_service.Provider.Consistency.{Driven, init, running}
use location_service.Provider.Controller.{fresh}
use location_service.Provider.Chained.{controller_of}
use location_service.Fusion.Forwarded
use location_service.Fusion.Forwarded.{copies, run-copies}
use location_service.Remote
use location_service.Remote.{
  Event, asked, emitted, task_runs, Operation, updates, reference_location, answered, request_lost,
  answer_lost, position_update, connected,
}
use location_service.Remote.Order.{direct, settle, run-settle}
use location_service.Remote.Driver.{driver, calls_of, settle-run}

-- The stub is asked to start headings and positions; a reference comes in between, and the other side updates.
abbrev exchange : List (Event ℕ ℕ ℕ)
exchange =
    asked (updates start_heading) answered
    ∷ emitted (position_update (record { value = 51; when = pos 1 }))
    ∷ task_runs (pos 2)
    ∷ asked (reference_location (record { value = 52; when = pos 2 })) answered
    ∷ asked (updates start_position) answered
    ∷ task_runs (pos 3)
    ∷ asked (updates stop_heading) answered
    ∷ []

abbrev failing : List (Event ℕ ℕ ℕ)
failing =
    asked (updates start_heading) request_lost
    ∷ asked (updates start_position) answer_lost
    ∷ task_runs (pos 2)
    ∷ asked (updates stop_position) answered
    ∷ []

run-settle_example :
    let m = Remote.run driver failing (connected init) in
    (settle driver (pos 9) m.tasks m).impl ≡ direct driver failing init
run-settle_example = run-settle driver (pos 9) failing init (tt, (tt, (tt, (tt, tt))))

abbrev requests : List Request
requests =
    ask start_heading
    ∷ ask start_position
    ∷ ask start_position
    ∷ ask stop_heading
    ∷ ask stop_position
    ∷ []

settle-run_example :
    let local = Consistency.run init requests in
    let m = Remote.run driver exchange (connected init) in
    (settle driver (pos 9) m.tasks m).impl
    ≡ record { controller = controller_of (running local.controller); calls = local.calls }
unfolding calls_of Consistency.run Consistency.step
settle-run_example =
    settle-run (pos 9) requests exchange (omega arith) (tt, (tt, (tt, (tt, (tt, tt)))))
      (refl, (tt, (tt, (refl, (refl, (tt, (refl, tt))))))) refl

abbrev fused_requests : List Request
fused_requests = ask start_position ∷ ask start_heading ∷ ask start_position ∷ ask stop_heading ∷ []

run-copies_example :
    let alone = Consistency.run init fused_requests in
    (Forwarded.run fused_requests
      (record { controller = fresh; providers = copies 3 init })).providers
    ≡ copies 3
        (record { controller = controller_of (running alone.controller); calls = alone.calls })
run-copies_example = run-copies 3 fused_requests (omega arith) (tt, (tt, (tt, (tt, tt))))
