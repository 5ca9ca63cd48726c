-- ===== src/Dummy.antt =====
-- providers/dummy/provider.cpp: the provider for tests, whose updates come from a thread of its own. One other
-- thread calls its functions.
pub mod Consistent
pub mod Stopping
pub mod Configured
use location_service.Base.{ℕ, suc, ◌≡◌, ◌≢◌, Bool, true, false}

-- `Private::State`
pub data State : Type 0 where
  started stopping stopped : State

-- Where the worker is: no thread, a thread that has not yet run, the test of its loop, the body of its loop, or the end
-- of its function. A thread that ended is joinable until it is joined.
pub data Worker : Type 0 where
  none launched looping updating ended : Worker

-- Where the thread is that calls the provider: outside, in `stop_position_updates` before and after
-- `stop_requested` is set, at the last join of the destructor, behind it, or terminated.
pub data Caller : Type 0 where
  outside marking joining destroying gone terminated : Caller

-- `updates` counts the rounds of the loop.
pub record Dummy : Type 0 where
  pub state : State
  pub stop_requested : Bool
  pub worker : Worker
  pub caller : Caller
  pub updates : ℕ

-- The provider is constructed; `stop_requested` is as the memory was.
abbrev pub init : Bool → Dummy
init memory = record {
  state = stopped;
  stop_requested = memory;
  worker = none;
  caller = outside;
  updates = 0;
}

-- A step of one of the two threads.
pub data Step (s : Dummy) : Dummy → Type 0 where
  -- `start_position_updates`; a thread is assigned over a joinable one only to terminate the program.
  start_ignored : s.caller ≡ outside → s.state ≢ stopped → Step s s
  start_runs :
      s.caller ≡ outside
      → s.state ≡ stopped
      → s.worker ≡ none
      → Step s (record s { stop_requested = false; worker = launched })
  start_terminates :
      s.caller ≡ outside
      → s.state ≡ stopped
      → s.worker ≢ none
      → Step s (record s { stop_requested = false; caller = terminated })
  -- `stop_position_updates`
  stop_ignored : s.caller ≡ outside → s.state ≢ started → Step s s
  stop_begins :
      s.caller ≡ outside
      → s.state ≡ started
      → Step s (record s { state = stopping; caller = marking })
  stop_marks : s.caller ≡ marking → Step s (record s { stop_requested = true; caller = joining })
  stop_joins :
      s.caller ≡ joining → s.worker ≡ ended → Step s (record s { worker = none; caller = outside })
  stop_has_no_worker : s.caller ≡ joining → s.worker ≡ none → Step s (record s { caller = outside })
  -- The destructor, after its `stop_position_updates`, which is the steps above or is ignored.
  destroy : s.caller ≡ outside → s.state ≢ started → Step s (record s { caller = destroying })
  destroy_joins :
      s.caller ≡ destroying → s.worker ≡ ended → Step s (record s { worker = none; caller = gone })
  destroy_has_no_worker :
      s.caller ≡ destroying → s.worker ≡ none → Step s (record s { caller = gone })
  -- The worker.
  worker_begins : s.worker ≡ launched → Step s (record s { state = started; worker = looping })
  worker_continues :
      s.worker ≡ looping → s.stop_requested ≡ false → Step s (record s { worker = updating })
  worker_updates :
      s.worker ≡ updating → Step s (record s { worker = looping; updates = suc s.updates })
  worker_ends :
      s.worker ≡ looping
      → s.stop_requested ≡ true
      → Step s (record s { state = stopped; worker = ended })

pub data Reach (s : Dummy) : Dummy → Type 0 where
  here : Reach s s
  later : {t u : Dummy} → Reach s t → Step t u → Reach s u
