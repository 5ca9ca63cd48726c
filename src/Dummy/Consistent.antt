-- ===== src/Dummy/Consistent.antt =====
-- How the threads' places go together with the shared variables.
use location_service.Base.{◌≡◌, refl, Bool, true, false, not, ◌&&◌, arith}
use location_service.Dummy.{
  State, started, stopping, stopped, Worker, launched, looping, updating, ended, Caller, outside,
  marking, joining, destroying, gone, terminated, Dummy, init, Step, start_ignored, start_runs,
  start_terminates, stop_ignored, stop_begins, stop_marks, stop_joins, stop_has_no_worker, destroy,
  destroy_joins, destroy_has_no_worker, worker_begins, worker_continues, worker_updates,
  worker_ends, Reach, here, later,
}

-- The worker and the state while the caller is outside.
abbrev pub is_settled : Worker → State → Bool → Bool
is_settled Worker.none stopped requested = true
is_settled launched stopped requested = not requested
is_settled looping started requested = not requested
is_settled updating started requested = not requested
is_settled _ _ requested = false

abbrev pub is_ending : Worker → State → Bool
is_ending looping stopping = true
is_ending updating stopping = true
is_ending ended stopped = true
is_ending _ _ = false

abbrev pub is_running : Worker → State → Bool
is_running looping stopping = true
is_running updating stopping = true
is_running _ _ = false

unfoldable pub is_consistent : Caller → Worker → State → Bool → Bool
is_consistent outside w s requested = is_settled w s requested
is_consistent marking w s requested = is_running w s && not requested
is_consistent joining w s requested = is_ending w s && requested
is_consistent destroying w s requested = is_settled w s requested
is_consistent gone Worker.none s requested = true
is_consistent gone _ s requested = false
is_consistent terminated w s requested = true

unfoldable pub IsConsistent : Dummy → Type 0
unfolding is_consistent
IsConsistent d = is_consistent d.caller d.worker d.state d.stop_requested ≡ true

pub step-IsConsistent : (s t : Dummy) → Step s t → IsConsistent s → IsConsistent t
unfolding IsConsistent is_consistent
step-IsConsistent s t (start_ignored a b) h = h
step-IsConsistent s t (start_runs a b c) h = ground arith
step-IsConsistent s t (start_terminates a b c) h = refl
step-IsConsistent s t (stop_ignored a b) h = h
step-IsConsistent s t (stop_begins a b) h = ground arith
step-IsConsistent s t (stop_marks a) h = ground arith
step-IsConsistent s t (stop_joins a b) h = ground arith
step-IsConsistent s t (stop_has_no_worker a b) h = ground arith
step-IsConsistent s t (destroy a b) h = ground arith
step-IsConsistent s t (destroy_joins a b) h = ground arith
step-IsConsistent s t (destroy_has_no_worker a b) h = ground arith
step-IsConsistent s t (worker_begins a) h = ground arith
step-IsConsistent s t (worker_continues a b) h = ground arith
step-IsConsistent s t (worker_updates a) h = ground arith
step-IsConsistent s t (worker_ends a b) h = ground arith

-- From its construction on, however the two threads take turns: while the caller is outside, the worker is
-- absent or about to run in the state stopped, or it loops in the state started, and no stop is requested;
-- while the caller stops it, the worker loops in the state stopping or has ended in the state stopped, and the
-- caller waits for it only after the stop is requested.
pub Reach-IsConsistent : (memory : Bool) (s : Dummy) → Reach (init memory) s → IsConsistent s
unfolding IsConsistent is_consistent
Reach-IsConsistent memory s here = refl
Reach-IsConsistent memory s (later {t} r st) =
    step-IsConsistent t s st (Reach-IsConsistent memory t r)
