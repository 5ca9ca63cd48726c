-- ===== src/Tests/Receivers.antt =====
-- The GPS and the dummy provider.
use location_service.Base.{ℕ, ◌≤◌, ◌≡◌, refl, some, Bool, true, false, List, [], ◌∷◌, arith}
use location_service.Provider.Controller.{
  start_position, stop_position, start_heading, Request, ask, ask_disable, fresh,
}
use location_service.Gps
use location_service.Gps.{Capabilities, Location, Command, Hal}
use location_service.Gps.Satellites.{Sv, SvStatus, space_vehicles}
use location_service.Gps.Visibility.{IsOrdered, lookup, first_reported, space_vehicles-lookup}
use location_service.Gps.Modes
use location_service.Gps.Modes.{IsTold, run-construct-IsTold}
use location_service.Gps.Delivered
use location_service.Gps.Delivered.{powered, open_sessions, run-powered}
use location_service.Dummy
use location_service.Dummy.{Dummy, Step, Reach, here, later}
use location_service.Dummy.Consistent.{IsConsistent, Reach-IsConsistent}
use location_service.Dummy.Stopping.{Waits, at_once, after, stop_ends}

abbrev sv : (prn : ℕ) → prn ≤ 32 → ℕ → ℕ → Sv ℕ ℕ
sv prn le elevation azimuth = record {
  prn = prn;
  prn_le = le;
  snr = 30;
  elevation = elevation;
  azimuth = azimuth;
}

abbrev visible : SvStatus ℕ ℕ
visible = record {
  sv_list =
      sv 7 (omega arith) 40 120
      ∷ sv 0 (omega arith) 1 1
      ∷ sv 3 (omega arith) 10 270
      ∷ sv 7 (omega arith) 41 121
      ∷ [];
  ephemeris_mask = 4;
  almanac_mask = 68;
  used_in_fix_mask = 64;
}

space_vehicles-lookup_example :
    IsOrdered (space_vehicles visible)
    × (lookup 7 (space_vehicles visible) ≡ first_reported visible 7 visible.sv_list)
space_vehicles-lookup_example = space_vehicles-lookup visible 7 (omega arith)

-- A driver that refuses every command after the first two.
abbrev answer : List (Command ℕ) → Bool
answer (a ∷ b ∷ c ∷ rest) = false
answer _ = true

abbrev able : Capabilities
able = record {
  scheduling = true;
  msb = true;
  msa = false;
  has_single_shot = true;
  on_demand_time = false;
}

abbrev happenings : List (Gps.Modes.Event ℕ ℕ)
happenings =
    Gps.Modes.Event.asked (Gps.Function.set_position_mode Gps.PositionMode.single_shot)
    ∷ Gps.Modes.Event.reported (Gps.Callback.on_set_capabilities able)
    ∷ Gps.Modes.Event.asked (Gps.Function.set_position_mode Gps.PositionMode.single_shot)
    ∷ Gps.Modes.Event.reported (Gps.Callback.on_sv_status_update visible)
    ∷ Gps.Modes.Event.asked (Gps.Function.set_assistance_mode Gps.AssistanceMode.standalone)
    ∷ []

run-construct-IsTold_example :
    IsTold answer (Gps.Modes.run answer happenings (Gps.construct answer))
run-construct-IsTold_example = run-construct-IsTold answer happenings

abbrev requests : List Request
requests =
    ask start_heading
    ∷ ask start_position
    ∷ ask start_position
    ∷ ask stop_position
    ∷ ask_disable
    ∷ []

abbrev hal : Hal ℕ ℕ
hal = Gps.unconnected

run-powered_example :
    powered
      (Gps.Delivered.run answer requests (record { controller = fresh; hal = hal })).hal.commands
    ≡ some false
unfolding powered open_sessions
run-powered_example =
    run-powered answer requests hal (omega arith) (tt, (tt, (tt, (tt, (tt, tt))))) refl

abbrev marked : Dummy
marked = record {
  state = Dummy.State.stopping;
  stop_requested = false;
  worker = Dummy.Worker.updating;
  caller = Dummy.Caller.marking;
  updates = 0;
}

-- The provider was started, is about to update and is asked to stop.
to_marked : Reach (Dummy.init true) marked
to_marked =
    later
      (later
        (later (later here (Dummy.Step.start_runs refl refl refl)) (Dummy.Step.worker_begins refl))
        (Dummy.Step.worker_continues refl refl))
      (Dummy.Step.stop_begins refl refl)

Reach-IsConsistent_example : IsConsistent marked
Reach-IsConsistent_example = Reach-IsConsistent true marked to_marked

abbrev waiting : Dummy
waiting = record marked { stop_requested = true; caller = Dummy.Caller.joining }

-- The update of the round that was begun is emitted, and the thread ends.
abbrev ended : Dummy
ended = record waiting { state = Dummy.State.stopped; worker = Dummy.Worker.ended; updates = 1 }

waits : Waits waiting 2 ended
waits =
    after (after at_once (Dummy.Step.worker_updates refl) refl) (Dummy.Step.worker_ends refl refl)
      refl

stop_ends_example : (2 ≤ 2) × (1 ≤ 1) × ((u : Dummy) × Step ended u)
stop_ends_example =
    stop_ends true waiting ended 2 (later to_marked (Dummy.Step.stop_marks refl)) refl waits
