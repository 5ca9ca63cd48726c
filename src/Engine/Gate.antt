-- ===== src/Engine/Gate.antt =====
-- While satellite based positioning is off, no provider that requires satellites can be started.
use location_service.Base.{
  ℕ, ◌≡◌, sym, subst, ◌∙◌, ◌≢◌, Bool, true, Option, none, some, List, [], ◌∷◌, arith, contains,
  ℕ_discrete,
}
use location_service.Provider.Controller.{Call, Controller, switched_off}
use location_service.Engine.State.{
  Status, SatelliteState, ReportingState, Properties, Engine, set_tracked,
}
use location_service.Engine.{
  add_provider, sync_new_satellites, sync_new_state, emplace, init, track, request,
}
use location_service.Engine.Keeps.{Keeps, request-Keeps, request-disabled, set_engine_state-Keeps}
use location_service.Engine.Held.{
  Held, IsGated, Keeps-Held, Keeps-IsGated, off-on_absurd, set_reporting_state-Keeps,
  set_satellite_state-IsGated, sync_new_satellites-Held, sync_new_satellites-Keeps,
  sync_new_state-Keeps,
}
use location_service.Engine.Run.{
  Event, state_set, satellite_set, reporting_set, provider_added, asked, step, run, or_as_was,
}

contains-emplace : {i j : ℕ} (l : List ℕ) → i ≢ j → contains (emplace i l) j ≡ contains l j
unfolding emplace
contains-emplace [] h = ground arith
contains-emplace (k ∷ l) h = ground (arith, contains-emplace l h)

module _ (properties : Properties)
    (kept : (s : Status) (e : Engine) → Keeps e (properties.engine_state_slots s e)) where
  add_provider-IsGated :
      (i : ℕ) (p : Option (Bool × Controller)) (e : Engine)
      → IsGated e
      → IsGated (or_as_was e (add_provider properties i p e))
  unfolding add_provider
  add_provider-IsGated i none e g = g
  add_provider-IsGated i (some (satellites, impl)) e g = record { held = held }
    where
      e1 : Engine
      e1 = set_tracked i (track satellites impl) e

      e2 : Engine
      e2 = sync_new_satellites properties i e1

      e3 : Engine
      e3 = sync_new_state properties i e2

      order_lem : e3.order ≡ e.order
      order_lem =
          (sync_new_state-Keeps properties kept i e2).order
          ∙ (sync_new_satellites-Keeps properties kept i e1).order

      satellite_lem : e3.satellite_state ≡ e.satellite_state
      satellite_lem =
          (sync_new_state-Keeps properties kept i e2).satellite
          ∙ (sync_new_satellites-Keeps properties kept i e1).satellite

      later : e1.satellite_state ≡ SatelliteState.off → (j : ℕ) → Held e2 j → Held e3 j
      later s j h =
          Keeps-Held (sync_new_state-Keeps properties kept i e2)
            ((sync_new_satellites-Keeps properties kept i e1).satellite ∙ s) j h

      others : (j : ℕ) → i ≢ j → Held e j → Held e1 j
      others j q h r = ground (arith, h)

      held :
          e3.satellite_state ≡ SatelliteState.off
          → (j : ℕ) → contains (emplace i e3.order) j ≡ true
          → Held e3 j
      held s j m =
          let s1 = sym satellite_lem ∙ s in
          elim (ℕ_discrete i j) [
            | yes q ↦
                later s1 j (subst (Held e2) q (sync_new_satellites-Held properties kept i e1 s1))
            | no q ↦ later s1 j (
                Keeps-Held (sync_new_satellites-Keeps properties kept i e1) s1 j (
                  others j q (
                    g.held s1 j (
                      subst (λ l. contains l j ≡ true) order_lem
                        (sym (contains-emplace e3.order q) ∙ m)))))
          ]

  step-IsGated : (v : Event) (e : Engine) → IsGated e → IsGated (step properties e v)
  unfolding step
  step-IsGated (state_set s) e g = Keeps-IsGated (set_engine_state-Keeps properties kept s e) g
  step-IsGated (satellite_set s) e g = set_satellite_state-IsGated properties kept s e g
  step-IsGated (reporting_set s) e g =
      Keeps-IsGated (set_reporting_state-Keeps properties kept s e) g
  step-IsGated (provider_added i p) e g = add_provider-IsGated i p e g
  step-IsGated (asked i c) e g = Keeps-IsGated (request-Keeps properties kept i c e) g

  run-IsGated : (vs : List Event) (e : Engine) → IsGated e → IsGated (run properties e vs)
  unfolding run
  run-IsGated [] e g = g
  run-IsGated (v ∷ vs) e g = run-IsGated vs (step properties e v) (step-IsGated v e g)

  init-IsGated : (s : Status) (r : ReportingState) → IsGated (init s r)
  unfolding init
  init-IsGated s r = record { held = λ h. absurd (off-on_absurd properties kept h) }

  -- Where the slots that others connect to the engine's state keep the satellite setting, the map of providers, what they
  -- require and that a provider held off by the setting stays off: after any sequence of changes of the configuration, additions of providers and requests of
  -- clients, if satellite based positioning is off then a provider of the engine that requires
  -- satellites is disabled, and whatever a client asks of it changes nothing.
  pub satellites_gated :
      (s : Status) (r : ReportingState) (vs : List Event) (i : ℕ) (c : Call)
      → (run properties (init s r) vs).satellite_state ≡ SatelliteState.off
      → contains (run properties (init s r) vs).order i ≡ true
      → ((run properties (init s r) vs).providers i).requires_satellites ≡ true
      → (((run properties (init s r) vs).providers i).controller ≡ switched_off)
        × (request properties i c (run properties (init s r) vs) ≡ run properties (init s r) vs)
  satellites_gated s r vs i c off m required =
      let h = (run-IsGated vs _ (init-IsGated s r)).held off i m required in
      (h, request-disabled properties kept i c _ h)
