-- ===== src/Remote.antt =====
-- providers/remote/provider.cpp: a provider that runs in another process. The stub posts what it is asked to
-- a queue of tasks, one worker runs them one after the other as transactions on the bus, and the skeleton
-- on the other side hands them to the implementation.
pub mod Order
pub mod Driver
use location_service.Base.{
  Bool, true, false, Option, none, some, List, [], ◌∷◌, ◌++◌, if◌then◌else◌,
}
use location_service.Base.Int.{ℤ}
use location_service.Measure.{Update}
use location_service.Provider.Controller.{Call, Controller, Part, forward}

-- What becomes of a transaction: it is answered, it does not get to the other side, or its answer is lost.
-- The last two are errors.
pub data Outcome : Type 0 where
  answered request_lost answer_lost : Outcome

-- `throw_if_error`, `throw_if_error_or_return`
unfoldable pub throw_if_error_or_return : {A : Type 0} → Outcome → A → Option A
throw_if_error_or_return answered a = some a
throw_if_error_or_return request_lost a = none
throw_if_error_or_return answer_lost a = none

-- `P`, `V` and `H` are the types of positions, velocities and headings.
-- The functions of a provider that the stub forwards in a task.
pub data Operation (P V H : Type 0) : Type 0 where
  updates : Call → Operation P V H
  reference_location : Update P → Operation P V H
  reference_velocity : Update V → Operation P V H
  reference_heading : Update H → Operation P V H

-- What the skeleton's signals carry: a value without its time.
pub data Value (P V H : Type 0) : Type 0 where
  position : P → Value P V H
  velocity : V → Value P V H
  heading : H → Value P V H

-- An update that the implementation has.
pub data Measured (P V H : Type 0) : Type 0 where
  position_update : Update P → Measured P V H
  velocity_update : Update V → Measured P V H
  heading_update : Update H → Measured P V H

-- A task of `Runtime::instance().task.service`; a transaction comes with what becomes of it.
pub data Task (P V H : Type 0) : Type 0 where
  transaction : Operation P V H → Outcome → Task P V H
  changed : Value P V H → Task P V H

-- The implementation behind the skeleton, over its state: where its controller is, its virtual functions, and
-- what the rest of its interface does.
pub record Implementation (P V H S C F R W : Type 0) : Type 0 where
  pub self : Part S Controller
  pub call : Call → S → S
  pub on_reference_location_updated : Update P → S → S
  pub on_reference_velocity_updated : Update V → S → S
  pub on_reference_heading_updated : Update H → S → S
  pub on_wifi_and_cell_reporting_state_changed : W → S → S
  pub matches_criteria : C → S → Bool
  pub supports : F → S → Bool
  pub requires : R → S → Bool

-- The two sides: `alive` says that the stub is not yet destroyed, `received` are the updates that it has
-- emitted, the newest first.
pub record Link (P V H S : Type 0) : Type 0 where
  pub impl : S
  pub tasks : List (Task P V H)
  pub alive : Bool
  pub received : List (Measured P V H)

pub data Event (P V H : Type 0) : Type 0 where
  asked : Operation P V H → Outcome → Event P V H
  emitted : Measured P V H → Event P V H
  task_runs : ℤ → Event P V H
  destroyed : Event P V H

-- The stub is connected, and nothing was asked yet.
abbrev pub connected : {P V H S : Type 0} → S → Link P V H S
connected s = record { impl = s; tasks = []; alive = true; received = [] }

-- `emit(position.value)`
abbrev pub value_of : {P V H : Type 0} → Measured P V H → Value P V H
value_of (position_update u) = position u.value
value_of (velocity_update u) = velocity u.value
value_of (heading_update u) = heading u.value

-- `sp->mutable_updates().position(arg)`: a new update, of the time at which the task runs.
abbrev pub update_of : {P V H : Type 0} → ℤ → Value P V H → Measured P V H
update_of now (position v) = position_update (record { value = v; when = now })
update_of now (velocity v) = velocity_update (record { value = v; when = now })
update_of now (heading v) = heading_update (record { value = v; when = now })

module _ {P V H S C F R W : Type 0} (p : Implementation P V H S C F R W) where
  -- The skeleton's method handlers.
  unfoldable pub handle : Operation P V H → S → S
  unfolding forward
  handle (updates c) s = forward p.self p.call c s
  handle (reference_location u) s = p.on_reference_location_updated u s
  handle (reference_velocity u) s = p.on_reference_velocity_updated u s
  handle (reference_heading u) s = p.on_reference_heading_updated u s

  -- `transact_method`
  unfoldable pub transact : Operation P V H → Outcome → S → S
  unfolding handle
  transact o answered s = handle o s
  transact o request_lost s = s
  transact o answer_lost s = handle o s

  abbrev pub post : Task P V H → Link P V H S → Link P V H S
  post t l = record l { tasks = l.tasks ++ (t ∷ []) }

  -- A task that runs: it locks its weak pointer first. An error ends it, and nothing else: it is caught in
  -- the task or by the loop of `Runtime::run`, which goes on with the next task.
  unfoldable pub run_task : ℤ → Task P V H → Link P V H S → Link P V H S
  unfolding transact
  run_task now (transaction o outcome) l =
      if l.alive then (record l { impl = transact o outcome l.impl }) else l
  run_task now (changed v) l =
      if l.alive then (record l { received = update_of now v ∷ l.received }) else l

  unfoldable pub run_oldest : ℤ → List (Task P V H) → Link P V H S → Link P V H S
  unfolding run_task
  run_oldest now [] l = l
  run_oldest now (t ∷ rest) l = run_task now t (record l { tasks = rest })

  unfoldable pub step : Event P V H → Link P V H S → Link P V H S
  unfolding run_oldest
  step (asked o outcome) l = if l.alive then post (transaction o outcome) l else l
  step (emitted m) l = post (changed (value_of m)) l
  step (task_runs now) l = run_oldest now l.tasks l
  step destroyed l = record l { alive = false }

  unfoldable pub run : List (Event P V H) → Link P V H S → Link P V H S
  unfolding step
  run [] l = l
  run (e ∷ es) l = run es (step e l)

  -- The functions that do not go through the queue: the answer, and what the call does.
  unfoldable pub stub_matches_criteria : C → Outcome → S → Option Bool
  unfolding throw_if_error_or_return
  stub_matches_criteria c outcome s = throw_if_error_or_return outcome (p.matches_criteria c s)

  unfoldable pub stub_supports : F → Outcome → S → Option Bool
  unfolding throw_if_error_or_return
  stub_supports f outcome s = throw_if_error_or_return outcome (p.supports f s)

  unfoldable pub stub_requires : R → Outcome → S → Option Bool
  unfolding throw_if_error_or_return
  stub_requires r outcome s = throw_if_error_or_return outcome (p.requires r s)
