-- ===== src/Provider/Sharing.antt =====
-- How sessions share a provider through its controller, for each of the three kinds of updates.
use location_service.Base.{
  ℕ, zero, suc, ◌≤◌, ◌<◌, ◌+◌, ◌≡◌, refl, ap, ◌∙◌, List, [], ◌∷◌, map, arith,
}
use native.Mathlib.Nat.{add-zero}
use location_service.Base.Int.{ℤ, pos, negsuc, int_max}
use location_service.Provider.Controller.{
  Call, start_position, stop_position, start_heading, stop_heading, start_velocity, stop_velocity,
  Controller, switched_off, ask_enable, ask,
}
use location_service.Provider.Consistency.{Driven, init, step, run}

pub data Kind : Type 0 where
  position heading velocity : Kind

abbrev pub start_of : Kind → Call
start_of position = start_position
start_of heading = start_heading
start_of velocity = start_velocity

abbrev pub stop_of : Kind → Call
stop_of position = stop_position
stop_of heading = stop_heading
stop_of velocity = stop_velocity

abbrev pub counter : Kind → Controller → ℤ
counter position c = c.position_updates_counter
counter heading c = c.heading_updates_counter
counter velocity c = c.velocity_updates_counter

abbrev pub with_counter : Kind → ℤ → Controller → Controller
with_counter position n c = record c { position_updates_counter = n }
with_counter heading n c = record c { heading_updates_counter = n }
with_counter velocity n c = record c { velocity_updates_counter = n }

-- The driven state with one counter and the log given anew.
abbrev pub set_to : Kind → Driven → ℤ → List Call → Driven
set_to k d n calls = record { controller = with_counter k n d.controller; calls = calls }

abbrev pub times : ℕ → Call → Driven → Driven
times zero c d = d
times (suc n) c d = times n c (step d (ask c))

start_first :
    (k : Kind) (d : Driven) (calls : List Call)
    → step (set_to k d (pos 0) calls) (ask (start_of k)) ≡ set_to k d (pos 1) (start_of k ∷ calls)
unfolding step
start_first position d calls = refl
start_first heading d calls = refl
start_first velocity d calls = refl

start_again :
    (k : Kind) (d : Driven) (n : ℕ) (calls : List Call)
    → suc n < int_max
    → step (set_to k d (pos (suc n)) calls) (ask (start_of k))
      ≡ set_to k d (pos (suc (suc n))) calls
unfolding step
start_again position d n calls h = ground arith
start_again heading d n calls h = ground arith
start_again velocity d n calls h = ground arith

stop_last :
    (k : Kind) (d : Driven) (calls : List Call)
    → step (set_to k d (pos 1) calls) (ask (stop_of k)) ≡ set_to k d (pos 0) (stop_of k ∷ calls)
unfolding step
stop_last position d calls = refl
stop_last heading d calls = refl
stop_last velocity d calls = refl

stop_other :
    (k : Kind) (d : Driven) (n : ℕ) (calls : List Call)
    → step (set_to k d (pos (suc (suc n))) calls) (ask (stop_of k)) ≡ set_to k d (pos (suc n)) calls
unfolding step
stop_other position d n calls = ground arith
stop_other heading d n calls = ground arith
stop_other velocity d n calls = ground arith

starts_more :
    (m : ℕ) (k : Kind) (d : Driven) (n : ℕ) (calls : List Call)
    → suc (n + m) ≤ int_max
    → times m (start_of k) (set_to k d (pos (suc n)) calls) ≡ set_to k d (pos (suc (n + m))) calls
starts_more zero k d n calls h = rw add-zero
starts_more (suc m) k d n calls h =
    ap (times m (start_of k)) (start_again k d n calls (omega arith))
    ∙ starts_more m k d (suc n) calls (omega arith)
    ∙ ap (λ j. set_to k d (pos (suc j)) calls) (omega arith)

stops_more :
    (m : ℕ) (k : Kind) (d : Driven) (n : ℕ) (calls : List Call)
    → times m (stop_of k) (set_to k d (pos (suc (n + m))) calls) ≡ set_to k d (pos (suc n)) calls
stops_more zero k d n calls = rw add-zero
stops_more (suc m) k d n calls =
    ap (λ j. times m (stop_of k) (step (set_to k d (pos (suc j)) calls) (ask (stop_of k))))
      (omega arith)
    ∙ ap (times m (stop_of k)) (stop_other k d (n + m) calls)
    ∙ stops_more m k d n calls

times-last : (n : ℕ) (c : Call) (d : Driven) → times (suc n) c d ≡ step (times n c d) (ask c)
times-last zero c d = refl
times-last (suc n) c d = times-last n c (step d (ask c))

-- Of `j` + `m` + 1 sessions that start updates of one kind on an idle provider only the first reaches the
-- device; after `m` of them have stopped it has got no further call, and the last of the other `j` + 1 to
-- stop stops it. There are at most 2147483647 sessions.
sessions_share :
    (m j : ℕ) (k : Kind) (d : Driven) (calls : List Call)
    → suc (j + m) ≤ int_max
    → let started = times (suc (j + m)) (start_of k) (set_to k d (pos 0) calls) in
      let left = times m (stop_of k) started in
      (started ≡ set_to k d (pos (suc (j + m))) (start_of k ∷ calls))
      × (left ≡ set_to k d (pos (suc j)) (start_of k ∷ calls))
      × (times (suc j) (stop_of k) left ≡ set_to k d (pos 0) (stop_of k ∷ start_of k ∷ calls))
sessions_share m j k d calls h = (
  started_lem,
  left_lem,
  times-last j (stop_of k) _
      ∙ ap (λ e. step (times j (stop_of k) e) (ask (stop_of k)))
          (left_lem ∙ ap (λ i. set_to k d (pos (suc i)) (start_of k ∷ calls)) (omega arith))
      ∙ ap (λ e. step e (ask (stop_of k))) (stops_more j k d 0 (start_of k ∷ calls))
      ∙ stop_last k d (start_of k ∷ calls),
)
  where
    started_lem :
        times (suc (j + m)) (start_of k) (set_to k d (pos 0) calls)
        ≡ set_to k d (pos (suc (j + m))) (start_of k ∷ calls)
    started_lem =
        ap (times (j + m) (start_of k)) (start_first k d calls)
        ∙ starts_more (j + m) k d 0 (start_of k ∷ calls) (omega arith)
        ∙ ap (λ i. set_to k d (pos (suc i)) (start_of k ∷ calls)) (omega arith)

    left_lem :
        times m (stop_of k) (times (suc (j + m)) (start_of k) (set_to k d (pos 0) calls))
        ≡ set_to k d (pos (suc j)) (start_of k ∷ calls)
    left_lem = ap (times m (stop_of k)) started_lem ∙ stops_more m k d j (start_of k ∷ calls)

abbrev pub disabled_with : List Call → Driven
disabled_with calls = record { controller = switched_off; calls = calls }

-- Until it is enabled again, a controller that was disabled ignores every start and stop: the
-- counters stay at the disabling value, and the device gets no call.
run-disabled :
    (cs : List Call) (calls : List Call)
    → run (disabled_with calls) (map ask cs) ≡ disabled_with calls
unfolding run step
run-disabled [] calls = refl
run-disabled (c ∷ cs) calls = ap (λ d. run d (map ask cs)) (ignored c calls) ∙ run-disabled cs calls
  where
    ignored :
        (c : Call) (calls : List Call) → step (disabled_with calls) (ask c) ≡ disabled_with calls
    ignored start_position calls = refl
    ignored stop_position calls = refl
    ignored start_heading calls = refl
    ignored stop_heading calls = refl
    ignored start_velocity calls = refl
    ignored stop_velocity calls = refl

ignores_while_negative :
    (k : Kind) (d : Driven) (calls : List Call)
    → (step (set_to k d (negsuc 0) calls) (ask (start_of k)) ≡ set_to k d (negsuc 0) calls)
      × (step (set_to k d (negsuc 0) calls) (ask (stop_of k)) ≡ set_to k d (negsuc 0) calls)
unfolding step
ignores_while_negative position d calls = (refl, refl)
ignores_while_negative heading d calls = (refl, refl)
ignores_while_negative velocity d calls = (refl, refl)

times_negative :
    (m : ℕ) (k : Kind) (d : Driven) (calls : List Call)
    → times m (start_of k) (set_to k d (negsuc 0) calls) ≡ set_to k d (negsuc 0) calls
times_negative zero k d calls = refl
times_negative (suc m) k d calls =
    ap (times m (start_of k)) (ignores_while_negative k d calls).0 ∙ times_negative m k d calls

-- If a provider that runs (with `n` + 1 sessions) is enabled and then one session stops, the device
-- gets no stop although it runs, and from then on every start of that kind is ignored.
enable_while_running :
    (k : Kind) (d : Driven) (n m : ℕ) (calls : List Call)
    → let after = step (step (set_to k d (pos (suc n)) calls) ask_enable) (ask (stop_of k)) in
      (after.calls ≡ calls) × (times m (start_of k) after ≡ after)
unfolding step
enable_while_running position d n m calls = (refl, times_negative m position init calls)
enable_while_running heading d n m calls = (refl, times_negative m heading init calls)
enable_while_running velocity d n m calls = (refl, times_negative m velocity init calls)
