-- ===== src/Remote/Driver.antt =====
-- A remote provider whose implementation drives a device through a controller of its own, behind the
-- controller of the stub.
use location_service.Base.{◌≤◌, ◌≡◌, refl, ap, ◌∙◌, true, List, [], ◌∷◌, arith, All, length}
use location_service.Base.Int.{ℤ, int_max}
use location_service.Provider.Controller.{Call, Request}
use location_service.Provider.Consistency.{
  Driven, driven_part, log_call, init, step, run, running, ArePolite, run-init-IsConsistent,
}
use location_service.Remote.{
  Outcome, answered, request_lost, answer_lost, Operation, updates, reference_location,
  reference_velocity, reference_heading, Implementation, Event, asked, emitted, task_runs,
  destroyed, connected, handle,
}
use location_service.Remote
use location_service.Provider.Chained.{controller_of, deliver, replay-deliver}
use location_service.Remote.Order.{Lives, direct, settle, run-settle}

abbrev pub driver : {P V H : Type 0} → Implementation P V H Driven Unit Unit Unit Unit
driver = record {
  self = driven_part;
  call = log_call;
  on_reference_location_updated = λ u d. d;
  on_reference_velocity_updated = λ u d. d;
  on_reference_heading_updated = λ u d. d;
  on_wifi_and_cell_reporting_state_changed = λ w d. d;
  matches_criteria = λ c d. true;
  supports = λ f d. true;
  requires = λ r d. true;
}

abbrev pub IsAnswered : {P V H : Type 0} → Event P V H → Type 0
IsAnswered (asked o outcome) = outcome ≡ answered
IsAnswered (emitted m) = Unit
IsAnswered (task_runs now) = Unit
IsAnswered destroyed = ¬ Unit {0}

-- The calls that the stub's virtual functions get, the newest first, after those that it has got.
unfoldable pub calls_of : {P V H : Type 0} → List (Event P V H) → List Call → List Call
calls_of [] cs = cs
calls_of (asked (updates c) outcome ∷ es) cs = calls_of es (c ∷ cs)
calls_of (_ ∷ es) cs = calls_of es cs

module _ {P V H : Type 0} where
  direct-deliver :
      (es : List (Event P V H)) (cs : List Call)
      → All IsAnswered es
      → direct driver es (deliver cs) ≡ deliver (calls_of es cs)
  unfolding direct calls_of deliver step
  direct-deliver [] cs a = refl
  direct-deliver (asked (updates c) answered ∷ es) cs a = direct-deliver es (c ∷ cs) a.1
  direct-deliver (asked (reference_location u) answered ∷ es) cs a = direct-deliver es cs a.1
  direct-deliver (asked (reference_velocity u) answered ∷ es) cs a = direct-deliver es cs a.1
  direct-deliver (asked (reference_heading u) answered ∷ es) cs a = direct-deliver es cs a.1
  direct-deliver (asked o request_lost ∷ es) cs a = ground (arith, a.0)
  direct-deliver (asked o answer_lost ∷ es) cs a = ground (arith, a.0)
  direct-deliver (emitted m ∷ es) cs a = direct-deliver es cs a.1
  direct-deliver (task_runs now ∷ es) cs a = direct-deliver es cs a.1
  direct-deliver (destroyed ∷ es) cs a = elim (a.0 tt) [ ]

  IsAnswered-Lives : (es : List (Event P V H)) → All IsAnswered es → All Lives es
  IsAnswered-Lives [] a = tt
  IsAnswered-Lives (asked o outcome ∷ es) a = (tt, IsAnswered-Lives es a.1)
  IsAnswered-Lives (emitted m ∷ es) a = (tt, IsAnswered-Lives es a.1)
  IsAnswered-Lives (task_runs now ∷ es) a = (tt, IsAnswered-Lives es a.1)
  IsAnswered-Lives (destroyed ∷ es) a = elim (a.0 tt) [ ]

  -- Clients ask the controller of the stub, at most 2147483647 times and enabling it only while nothing runs,
  -- and the calls that it makes of the stub's functions go over the queue, interleaved with tasks, with updates
  -- and with reference updates. If every transaction is answered, then once the queue is empty the remote
  -- device has got exactly the calls that a device in the same process would have got, in their order, and
  -- the remote controller counts one user for each kind of updates that runs.
  pub settle-run :
      (now : ℤ) (rs : List Request) (es : List (Event P V H))
      → length rs ≤ int_max
      → ArePolite init rs
      → All IsAnswered es
      → calls_of es [] ≡ (run init rs).calls
      → let local = run init rs in
        let m = Remote.run driver es (connected init) in
        (settle driver now m.tasks m).impl
        ≡ record { controller = controller_of (running local.controller); calls = local.calls }
  unfolding deliver
  settle-run now rs es h p a e =
      Remote.Order.run-settle driver now es init (IsAnswered-Lives es a)
      ∙ direct-deliver es [] a
      ∙ ap deliver e
      ∙ replay-deliver (run init rs).calls _ (run-init-IsConsistent rs h p).obeyed
