-- ===== src/Service/Harvester.antt =====
-- The harvester and the reporter that passes on to others: harvester.cpp and demultiplexing_reporter.cpp.
use location_service.Base.{
  ◌≡◌, ◌∙◌, ap, sym, refl, Bool, true, false, not, Option, none, some, List, [], ◌∷◌, map,
  if◌then◌else◌, arith,
}
use location_service.Connectivity.Cells.{
  Cache as RadioCache, Entry, enumerate_connected_radio_cells,
}
use location_service.Connectivity.Networks.{
  Cache as NetworkCache, Network, enumerate_visible_wireless_networks,
}

-- The caches of the connectivity manager.
pub record Connectivity : Type 0 where
  pub radio : RadioCache
  pub network : NetworkCache

-- What a reporter is called with; `U` stands for updates of the position.
pub data Call (U : Type 0) : Type 0 where
  started : Call U
  stopped : Call U
  reported : U → List Network → List Entry → Call U

-- `Harvester::Reporter`, over the state of the reporter.
pub record Reporter (U R : Type 0) : Type 0 where
  pub call : Call U → R → R

pub record Harvester (R : Type 0) : Type 0 where
  pub is_running : Bool
  pub reporter : R

-- `DemultiplexingReporter`, over the states of its reporters.
unfoldable pub demultiplexing : {U R : Type 0} → Reporter U R → Reporter U (List R)
demultiplexing r = record { call = λ c rs. map (λ s. r.call c s) rs }

pub data Event (U : Type 0) : Type 0 where
  start_harvester : Event U
  stop_harvester : Event U
  position_updated : U → Connectivity → Event U

module _ {U R : Type 0} (r : Reporter U R) where
  unfoldable pub start : Harvester R → Harvester R
  start h =
      if h.is_running then h else record { is_running = true; reporter = r.call started h.reporter }

  unfoldable pub stop : Harvester R → Harvester R
  stop h =
      if not h.is_running
      then h
      else record { is_running = false; reporter = r.call stopped h.reporter }

  unfoldable pub report_position_update : U → Connectivity → Harvester R → Harvester R
  unfolding enumerate_visible_wireless_networks enumerate_connected_radio_cells
  report_position_update update c h = if not h.is_running then h else record h {
    reporter =
        r.call
          (reported update (enumerate_visible_wireless_networks c.network)
            (enumerate_connected_radio_cells c.radio))
          h.reporter;
  }

  unfoldable pub step : Event U → Harvester R → Harvester R
  unfolding start stop report_position_update
  step start_harvester h = start h
  step stop_harvester h = stop h
  step (position_updated u c) h = report_position_update u c h

  unfoldable pub run : List (Event U) → Harvester R → Harvester R
  unfolding step
  run [] h = h
  run (v ∷ vs) h = run vs (step v h)

-- A reporter that keeps its calls, the newest first.
abbrev pub recording : {U : Type 0} → Reporter U (List (Call U))
recording = record { call = λ c cs. c ∷ cs }

-- Whether the reporter operates after its calls, if each came when it may: a start while it does not operate, a stop
-- or a report while it does.
unfoldable pub follow : {U : Type 0} → Call U → Option Bool → Option Bool
follow started (some false) = some true
follow stopped (some true) = some false
follow (reported u ns es) (some true) = some true
follow _ _ = none

unfoldable pub replay : {U : Type 0} → List (Call U) → Option Bool
unfolding follow
replay [] = some false
replay (c ∷ cs) = follow c (replay cs)

step-follows :
    {U : Type 0} (v : Event U) (h : Harvester (List (Call U)))
    → replay h.reporter ≡ some h.is_running
    → replay (step recording v h).reporter ≡ some (step recording v h).is_running
unfolding step start stop report_position_update replay follow
step-follows start_harvester h e = ground arith
step-follows stop_harvester h e = ground arith
step-follows (position_updated u c) h e = ground arith

stop-follows :
    {U : Type 0} (h : Harvester (List (Call U)))
    → replay h.reporter ≡ some h.is_running
    → replay (stop recording h).reporter ≡ some false
unfolding stop replay follow
stop-follows h e = ground arith

run-follows :
    {U : Type 0} (vs : List (Event U)) (h : Harvester (List (Call U)))
    → replay h.reporter ≡ some h.is_running
    → replay (run recording vs h).reporter ≡ some (run recording vs h).is_running
unfolding run
run-follows [] h e = e
run-follows (v ∷ vs) h e = run-follows vs (step recording v h) (step-follows v h e)

abbrev pub idle : {R : Type 0} → R → Harvester R
idle r = record { is_running = false; reporter = r }

-- Whatever starts, stops and updates of the position a new harvester gets: its reporter is started and stopped in
-- turns and gets reports in between only, it operates while the harvester runs, and once the harvester has
-- stopped, as it does in its destructor, the reporter does not operate.
pub harvester_lem :
    {U : Type 0} (vs : List (Event U))
    → let h = run recording vs (idle []) in
      (replay h.reporter ≡ some h.is_running) × (replay (stop recording h).reporter ≡ some false)
unfolding replay
harvester_lem vs =
    let e = run-follows vs (idle []) refl in (e, stop-follows (run recording vs (idle [])) e)

map-same : {A : Type 0} (xs : List A) → map (λ x. x) xs ≡ xs
map-same [] = refl
map-same (x ∷ xs) = ap (λ ys. x ∷ ys) (map-same xs)

map-map :
    {A B C : Type 0} (f : B → C) (g : A → B) (xs : List A)
    → map f (map g xs) ≡ map (λ x. f (g x)) xs
map-map f g [] = refl
map-map f g (x ∷ xs) = ap (λ ys. f (g x) ∷ ys) (map-map f g xs)

-- Each reporter behind the demultiplexing reporter gets from a harvester what it would get as its only reporter.
pub demultiplexing_lem :
    {U R : Type 0} (r : Reporter U R) (vs : List (Event U)) (b : Bool) (rs : List R)
    → (run (demultiplexing r) vs (record { is_running = b; reporter = rs })).reporter
      ≡ map (λ s. (run r vs (record { is_running = b; reporter = s })).reporter) rs
unfolding run step start stop report_position_update demultiplexing
demultiplexing_lem r [] b rs = sym (map-same rs)
demultiplexing_lem r (start_harvester ∷ vs) true rs = demultiplexing_lem r vs true rs
demultiplexing_lem r (start_harvester ∷ vs) false rs =
    demultiplexing_lem r vs true (map (r.call started) rs) ∙ map-map _ _ rs
demultiplexing_lem r (stop_harvester ∷ vs) false rs = demultiplexing_lem r vs false rs
demultiplexing_lem r (stop_harvester ∷ vs) true rs =
    demultiplexing_lem r vs false (map (r.call stopped) rs) ∙ map-map _ _ rs
demultiplexing_lem r (position_updated u c ∷ vs) false rs = demultiplexing_lem r vs false rs
demultiplexing_lem r (position_updated u c ∷ vs) true rs =
    demultiplexing_lem r vs true (map (r.call (reported u _ _)) rs) ∙ map-map _ _ rs
