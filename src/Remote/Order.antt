-- ===== src/Remote/Order.antt =====
-- What the queue between stub and skeleton does to the order of what is asked.
use location_service.Base.{
  ◌≡◌, refl, sym, ap, ◌∙◌, Bool, true, false, List, [], ◌∷◌, ◌++◌, if◌then◌else◌, arith, All,
}
use location_service.Base.Int.{ℤ}
use location_service.Provider.Controller.{
  start_position, stop_position, start_heading, stop_heading, start_velocity, stop_velocity,
  forward,
}
use location_service.Remote.{
  Operation, updates, reference_location, reference_velocity, reference_heading, Outcome, answered,
  request_lost, answer_lost, Task, transaction, changed, Implementation, Link, Event, asked,
  emitted, task_runs, destroyed, handle, transact, connected, run_task, run_oldest, step, run,
}

abbrev pub got_through : Outcome → Bool
got_through answered = true
got_through request_lost = false
got_through answer_lost = true

abbrev pub Lives : {P V H : Type 0} → Event P V H → Type 0
Lives (asked o outcome) = Unit
Lives (emitted m) = Unit
Lives (task_runs now) = Unit
Lives destroyed = ¬ Unit {0}

module _ {P V H S C F R W : Type 0} (p : Implementation P V H S C F R W) where
  -- What a program calls that has the implementation in its own process.
  unfoldable pub in_process : Operation P V H → S → S
  unfolding forward
  in_process (updates start_position) s = forward p.self p.call start_position s
  in_process (updates stop_position) s = forward p.self p.call stop_position s
  in_process (updates start_heading) s = forward p.self p.call start_heading s
  in_process (updates stop_heading) s = forward p.self p.call stop_heading s
  in_process (updates start_velocity) s = forward p.self p.call start_velocity s
  in_process (updates stop_velocity) s = forward p.self p.call stop_velocity s
  in_process (reference_location u) s = p.on_reference_location_updated u s
  in_process (reference_velocity u) s = p.on_reference_velocity_updated u s
  in_process (reference_heading u) s = p.on_reference_heading_updated u s

  -- The skeleton's handlers do what their names say.
  handle-in_process : (o : Operation P V H) (s : S) → handle p o s ≡ in_process o s
  unfolding handle in_process
  handle-in_process (updates start_position) s = refl
  handle-in_process (updates stop_position) s = refl
  handle-in_process (updates start_heading) s = refl
  handle-in_process (updates stop_heading) s = refl
  handle-in_process (updates start_velocity) s = refl
  handle-in_process (updates stop_velocity) s = refl
  handle-in_process (reference_location u) s = refl
  handle-in_process (reference_velocity u) s = refl
  handle-in_process (reference_heading u) s = refl

  -- The calls of such a program, those left out that do not get through.
  unfoldable pub direct : List (Event P V H) → S → S
  unfolding in_process
  direct [] s = s
  direct (asked o outcome ∷ es) s = direct es (if got_through outcome then in_process o s else s)
  direct (emitted m ∷ es) s = direct es s
  direct (task_runs now ∷ es) s = direct es s
  direct (destroyed ∷ es) s = direct es s

  -- The tasks that are left are run.
  unfoldable pub settle : ℤ → List (Task P V H) → Link P V H S → Link P V H S
  unfolding run_task
  settle now [] l = l
  settle now (t ∷ rest) l = settle now rest (run_task p now t (record l { tasks = rest }))

  perform : List (Task P V H) → S → S
  unfolding transact
  perform [] s = s
  perform (transaction o outcome ∷ rest) s = perform rest (transact p o outcome s)
  perform (changed v ∷ rest) s = perform rest s

  run_task-alive :
      (now : ℤ) (t : Task P V H) (l : Link P V H S) → (run_task p now t l).alive ≡ l.alive
  unfolding run_task
  run_task-alive now (transaction o outcome) l = ground arith
  run_task-alive now (changed v) l = ground arith

  run_task-perform :
      (now : ℤ) (t : Task P V H) (l : Link P V H S) (rest : List (Task P V H))
      → l.alive ≡ true
      → perform rest (run_task p now t l).impl ≡ perform (t ∷ rest) l.impl
  unfolding run_task perform
  run_task-perform now (transaction o outcome) l rest h = rw h refl
  run_task-perform now (changed v) l rest h = rw h refl

  settle-perform :
      (now : ℤ) (ts : List (Task P V H)) (l : Link P V H S)
      → l.alive ≡ true
      → (settle now ts l).impl ≡ perform ts l.impl
  unfolding settle perform
  settle-perform now [] l h = refl
  settle-perform now (t ∷ rest) l h =
      settle-perform now rest _ (run_task-alive now t (record l { tasks = rest }) ∙ h)
      ∙ run_task-perform now t (record l { tasks = rest }) rest h

  perform-append :
      (ts us : List (Task P V H)) (s : S) → perform (ts ++ us) s ≡ perform us (perform ts s)
  unfolding perform
  perform-append [] us s = refl
  perform-append (transaction o outcome ∷ ts) us s = perform-append ts us (transact p o outcome s)
  perform-append (changed v ∷ ts) us s = perform-append ts us s

  run_oldest-perform :
      (now : ℤ) (ts : List (Task P V H)) (l : Link P V H S)
      → l.tasks ≡ ts
      → l.alive ≡ true
      → let m = run_oldest p now ts l in
        (m.alive ≡ true) × (perform m.tasks m.impl ≡ perform ts l.impl)
  unfolding run_oldest run_task perform
  run_oldest-perform now [] l e h = (h, rw e refl)
  run_oldest-perform now (transaction o outcome ∷ ts) l e h = rw h (refl, refl)
  run_oldest-perform now (changed v ∷ ts) l e h = rw h (refl, refl)

  step-perform :
      (v : Event P V H) (l : Link P V H S)
      → Lives v
      → l.alive ≡ true
      → let m = step p v l in
        (m.alive ≡ true) × (perform m.tasks m.impl ≡ direct (v ∷ []) (perform l.tasks l.impl))
  unfolding step direct perform transact
  step-perform (asked o answered) l v h =
      rw h (refl, perform-append l.tasks _ l.impl ∙ handle-in_process o _)
  step-perform (asked o request_lost) l v h = rw h (refl, perform-append l.tasks _ l.impl)
  step-perform (asked o answer_lost) l v h =
      rw h (refl, perform-append l.tasks _ l.impl ∙ handle-in_process o _)
  step-perform (emitted m) l v h = (h, perform-append l.tasks _ l.impl)
  step-perform (task_runs now) l v h = run_oldest-perform now l.tasks l refl h
  step-perform destroyed l v h = elim (v tt) [ ]

  direct-cons :
      (v : Event P V H) (es : List (Event P V H)) (s : S)
      → direct (v ∷ es) s ≡ direct es (direct (v ∷ []) s)
  unfolding direct
  direct-cons (asked o outcome) es s = refl
  direct-cons (emitted m) es s = refl
  direct-cons (task_runs now) es s = refl
  direct-cons destroyed es s = refl

  run-perform :
      (es : List (Event P V H)) (l : Link P V H S)
      → All Lives es
      → l.alive ≡ true
      → let m = run p es l in
        (m.alive ≡ true) × (perform m.tasks m.impl ≡ direct es (perform l.tasks l.impl))
  unfolding run direct
  run-perform [] l v h = (h, refl)
  run-perform (e ∷ es) l v h =
      let k = step-perform e l v.0 h in
      let r = run-perform es (step p e l) v.1 k.0 in
      (r.0, r.1 ∙ ap (direct es) k.1 ∙ sym (direct-cons e es (perform l.tasks l.impl)))

  -- While the stub lives, and however its requests, the worker's tasks and the updates of the other side are
  -- interleaved: once the tasks that are left have run, the implementation is in the state that calls
  -- within the process, of the requests whose transactions get through and in their order, would have put it in. A
  -- transaction that does not get through has no effect on the others.
  pub run-settle :
      (now : ℤ) (es : List (Event P V H)) (s : S)
      → All Lives es
      → let m = run p es (connected s) in (settle now m.tasks m).impl ≡ direct es s
  unfolding perform
  run-settle now es s v =
      let m = run p es (connected s) in
      let k = run-perform es (connected s) v refl in settle-perform now m.tasks m k.0 ∙ k.1

  gone-Same : Link P V H S → Link P V H S → Type 0
  gone-Same l m = (m.alive ≡ false) × (m.impl ≡ l.impl) × (m.received ≡ l.received)

  run_oldest-Same :
      (now : ℤ) (ts : List (Task P V H)) (l : Link P V H S)
      → l.alive ≡ false
      → gone-Same l (run_oldest p now ts l)
  unfolding run_oldest run_task gone-Same
  run_oldest-Same now [] l h = (h, refl, refl)
  run_oldest-Same now (transaction o outcome ∷ ts) l h = rw h (refl, refl, refl)
  run_oldest-Same now (changed v ∷ ts) l h = rw h (refl, refl, refl)

  step-Same : (e : Event P V H) (l : Link P V H S) → l.alive ≡ false → gone-Same l (step p e l)
  unfolding step gone-Same
  step-Same (asked o outcome) l h = rw h (refl, refl, refl)
  step-Same (emitted m) l h = (h, refl, refl)
  step-Same (task_runs now) l h = run_oldest-Same now l.tasks l h
  step-Same destroyed l h = (refl, refl, refl)

  run-Same :
      (es : List (Event P V H)) (l : Link P V H S) → l.alive ≡ false → gone-Same l (run p es l)
  unfolding run gone-Same
  run-Same [] l h = (h, refl, refl)
  run-Same (e ∷ es) l h =
      let k = step-Same e l h in let r = run-Same es (step p e l) k.0 in (r.0, r.1 ∙ k.1, r.2 ∙ k.2)

  -- Once the stub is destroyed, nothing that is still in the queue has an effect: the implementation stays as
  -- it is, also where a stop was waiting, and no update is received.
  run-destroyed :
      (es : List (Event P V H)) (l : Link P V H S)
      → let m = run p (destroyed ∷ es) l in (m.impl ≡ l.impl) × (m.received ≡ l.received)
  unfolding run step gone-Same
  run-destroyed es l = let k = run-Same es (record l { alive = false }) refl in (k.1, k.2)
