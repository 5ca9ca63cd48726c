-- ===== src/Session/Lifetime.antt =====
-- A session from its creation to its end: the calls that reach the providers.
use location_service.Base.{◌≡◌, refl, subst, sym, false, List, [], ◌∷◌, some, All, ap, ◌∙◌}
use location_service.Engine.State.{Property}
use location_service.Provider.Controller.{Call, stop_position, stop_velocity}
use location_service.Provider.Consistency.{step, replay, and_then, obey}
use location_service.Session
use location_service.Session.Aligned.{IsNotHeading, device, shape, IsAligned, run-IsAligned}
use location_service.Session.{
  Status, enabled, disabled, init, set_position_status, set_heading_status, set_velocity_status,
  on_position_status, on_heading_status, on_velocity_status, Method, start_position_updates,
  stop_position_updates, start_heading_updates, stop_heading_updates, start_velocity_updates,
  stop_velocity_updates, handle, run, destroy,
}

init-IsAligned : IsAligned init
unfolding IsAligned
init-IsAligned = (disabled, disabled, [], refl, refl, tt)

-- What the providers are told to stop at the end.
ending : Status → Status → List Call → List Call
ending enabled enabled calls = stop_velocity ∷ stop_position ∷ calls
ending enabled disabled calls = stop_position ∷ calls
ending disabled enabled calls = stop_velocity ∷ calls
ending disabled disabled calls = calls

destroy-shape :
    (p v : Status) (calls : List Call) → (destroy (shape p v calls)).proxy.calls ≡ ending p v calls
unfolding destroy step ending
destroy-shape enabled enabled calls = refl
destroy-shape enabled disabled calls = refl
destroy-shape disabled enabled calls = refl
destroy-shape disabled disabled calls = refl

ending-replay :
    (p v : Status) (calls : List Call)
    → replay calls ≡ some (device p v)
    → replay (ending p v calls) ≡ some (device disabled disabled)
unfolding ending
ending-replay enabled enabled calls h =
    ap (λ o. and_then (and_then o (obey stop_position)) (obey stop_velocity)) h
ending-replay enabled disabled calls h = ap (λ o. and_then o (obey stop_position)) h
ending-replay disabled enabled calls h = ap (λ o. and_then o (obey stop_velocity)) h
ending-replay disabled disabled calls h = h

destroy-replay :
    (s : Session.Session)
    → IsAligned s
    → replay (destroy s).proxy.calls ≡ some (device disabled disabled)
unfolding IsAligned
destroy-replay s (p, v, calls, e, h, a) =
    ap (λ x. replay (destroy x).proxy.calls) e
    ∙ (ap replay (destroy-shape p v calls) ∙ ending-replay p v calls h)

-- Whatever methods a client calls on its session, after the session is destroyed each kind of updates that
-- it had started in the selected providers has been stopped: the calls that its proxy passed on start what
-- does not run, stop what runs, and leave nothing running.
pub destroy_stops_all :
    (status : Property Status) (ms : List Method)
    → replay (destroy (run status ms init)).proxy.calls
      ≡ some (record { position = false; heading = false; velocity = false })
destroy_stops_all status ms =
    destroy-replay (run status ms init) (run-IsAligned status ms init init-IsAligned)

aligned-calls :
    (s : Session.Session)
    → IsAligned s
    → All IsNotHeading s.proxy.calls × s.heading_status ≡ disabled
unfolding IsAligned
aligned-calls s (p, v, calls, e, h, a) =
    (subst (λ x. All IsNotHeading x.proxy.calls) (sym e) a, ap (λ x. x.heading_status) e)

-- Whatever methods a client calls on its session, the method that starts the heading updates among them,
-- no provider is ever told to start or stop its heading updates, and the session's heading status stays
-- disabled.
pub never_starts_heading :
    (status : Property Status) (ms : List Method)
    → All IsNotHeading (run status ms init).proxy.calls
      × (run status ms init).heading_status ≡ disabled
never_starts_heading status ms =
    aligned-calls (run status ms init) (run-IsAligned status ms init init-IsAligned)
