-- ===== src/Dummy/Stopping.antt =====
-- That a stop ends, and a destructor that does not.
use location_service.Base.{
  ℕ, suc, ◌+◌, ◌≤◌, ◌≡◌, refl, Bool, true, false, not, ◌&&◌, ◌⊎◌, inl, inr, arith,
}
use location_service.Dummy.{
  stopped, Worker, launched, looping, updating, ended, outside, joining, destroying, Dummy, init,
  Step, start_ignored, start_runs, start_terminates, stop_ignored, stop_begins, stop_marks,
  stop_joins, stop_has_no_worker, destroy, destroy_joins, destroy_has_no_worker, worker_begins,
  worker_continues, worker_updates, worker_ends, Reach, here, later,
}
use location_service.Dummy.Consistent.{
  is_consistent, IsConsistent, Reach-IsConsistent, step-IsConsistent,
}

-- Steps of the two threads, counted, during which the caller waits in the join.
pub data Waits (s : Dummy) : ℕ → Dummy → Type 0 where
  at_once : Waits s 0 s
  after : {n : ℕ} {t u : Dummy} → Waits s n t → Step t u → u.caller ≡ joining → Waits s (suc n) u

-- How many steps of the worker are left until it has ended.
abbrev pub rounds_left : Worker → ℕ
rounds_left updating = 2
rounds_left looping = 1
rounds_left _ = 0

-- How many updates are still to come from a worker that is asked to stop.
abbrev pub updates_left : Worker → ℕ
updates_left updating = 1
updates_left _ = 0

-- One step of a provider that is asked to stop.
step-left :
    (s t : Dummy)
    → Step s t
    → s.caller ≡ joining
    → t.caller ≡ joining
    → IsConsistent s
    → (suc (rounds_left t.worker) ≡ rounds_left s.worker)
      × (t.updates + updates_left t.worker ≡ s.updates + updates_left s.worker)
unfolding IsConsistent is_consistent
step-left s t (start_ignored a b) h k c = ground arith
step-left s t (start_runs a b d) h k c = ground arith
step-left s t (start_terminates a b d) h k c = ground arith
step-left s t (stop_ignored a b) h k c = ground arith
step-left s t (stop_begins a b) h k c = ground arith
step-left s t (stop_marks a) h k c = ground arith
step-left s t (stop_joins a b) h k c = ground arith
step-left s t (stop_has_no_worker a b) h k c = ground arith
step-left s t (destroy a b) h k c = ground arith
step-left s t (destroy_joins a b) h k c = ground arith
step-left s t (destroy_has_no_worker a b) h k c = ground arith
step-left s t (worker_begins a) h k c = ground arith
step-left s t (worker_continues a b) h k c = ground arith
step-left s t (worker_updates a) h k c = ground arith
step-left s t (worker_ends a b) h k c = ground arith

-- The steps that are made and those that are left.
waits-left :
    (s t : Dummy) (n : ℕ)
    → Waits s n t
    → s.caller ≡ joining
    → IsConsistent s
    → (t.caller ≡ joining)
      × IsConsistent t
      × (n + rounds_left t.worker ≡ rounds_left s.worker)
      × (t.updates + updates_left t.worker ≡ s.updates + updates_left s.worker)
waits-left s t n at_once h c = (h, c, omega arith, refl)
waits-left s t n (after {n = m} {t = u} w st k) h c =
    let v = waits-left s u m w h c in
    let l = step-left u t st v.0 k v.1 in
    (k, step-IsConsistent u t st v.1, omega (arith, l, v), omega (arith, l, v))

-- Where the worker is that is waited for.
joining_cases :
    (s : Dummy)
    → s.caller ≡ joining
    → IsConsistent s
    → (s.worker ≡ updating)
      ⊎ ((s.worker ≡ looping) × (s.stop_requested ≡ true))
      ⊎ (s.worker ≡ ended)
unfolding IsConsistent is_consistent
joining_cases s h c = ground arith

joining-moves : (s : Dummy) → s.caller ≡ joining → IsConsistent s → (t : Dummy) × Step s t
joining-moves s h c = elim (joining_cases s h c) [
  | inl e ↦ (_, worker_updates e)
  | inr (inl (e, r)) ↦ (_, worker_ends e r)
  | inr (inr e) ↦ (_, stop_joins h e)
]

rounds_le : (w : Worker) → (rounds_left w ≤ 2) × (updates_left w ≤ 1)
rounds_le w = ground arith

-- From the moment on at which `stop_position_updates` waits for the thread, however the two threads take turns:
-- it waits for two steps at most, in which one update at most is emitted, and as long as it waits there
-- is a step that can be made.
pub stop_ends :
    (memory : Bool) (s t : Dummy) (n : ℕ)
    → Reach (init memory) s
    → s.caller ≡ joining
    → Waits s n t
    → (n ≤ 2) × (t.updates ≤ suc s.updates) × ((u : Dummy) × Step t u)
stop_ends memory s t n r h w =
    let v = waits-left s t n w h (Reach-IsConsistent memory s r) in
    let b = rounds_le s.worker in
    (omega (arith, v, b), omega (arith, v, b), joining-moves t v.0 v.1)

-- The destructor waits for a thread that was never asked to stop.
unfoldable pub is_stuck : Dummy → Bool
is_stuck s = elim s.caller [
  | destroying ↦
      not s.stop_requested
      && elim s.worker [ launched ↦ true | looping ↦ true | updating ↦ true | _ ↦ false ]
  | _ ↦ false
]

step-is_stuck : (s t : Dummy) → Step s t → is_stuck s ≡ true → is_stuck t ≡ true
unfolding is_stuck
step-is_stuck s t (start_ignored a b) h = h
step-is_stuck s t (start_runs a b c) h = ground arith
step-is_stuck s t (start_terminates a b c) h = ground arith
step-is_stuck s t (stop_ignored a b) h = h
step-is_stuck s t (stop_begins a b) h = ground arith
step-is_stuck s t (stop_marks a) h = ground arith
step-is_stuck s t (stop_joins a b) h = ground arith
step-is_stuck s t (stop_has_no_worker a b) h = ground arith
step-is_stuck s t (destroy a b) h = ground arith
step-is_stuck s t (destroy_joins a b) h = ground arith
step-is_stuck s t (destroy_has_no_worker a b) h = ground arith
step-is_stuck s t (worker_begins a) h = ground arith
step-is_stuck s t (worker_continues a b) h = ground arith
step-is_stuck s t (worker_updates a) h = ground arith
step-is_stuck s t (worker_ends a b) h = ground arith

reach-is_stuck : (s t : Dummy) → Reach s t → is_stuck s ≡ true → is_stuck t ≡ true
reach-is_stuck s t here h = h
reach-is_stuck s u (later {t} r st) h = step-is_stuck t u st (reach-is_stuck s t r h)

is_stuck-destroying : (s : Dummy) → is_stuck s ≡ true → s.caller ≡ destroying
unfolding is_stuck
is_stuck-destroying s h = ground arith

-- If a provider is destroyed after its start and before its thread has run, whose state is still stopped, then
-- the stop of the destructor is ignored, and the destructor never ends.
destroy_hangs :
    (s t : Dummy)
    → s.caller ≡ outside
    → s.state ≡ stopped
    → s.worker ≡ launched
    → s.stop_requested ≡ false
    → Reach (record s { caller = destroying }) t
    → t.caller ≡ destroying
unfolding is_stuck
destroy_hangs s t c e w q r =
    is_stuck-destroying t (reach-is_stuck (record s { caller = destroying }) t r (ground arith))
