-- ===== src/Service/Slots.antt =====
-- What one assignment to a property does: nothing where the value is the same, and its slots otherwise.
use location_service.Base.{
  ℕ, ◌⊎◌, if-of, Bool-cases, inl, inr, suc, ◌≡◌, ◌≢◌, refl, sym, ap, ◌∙◌, Bool, true, false, not,
  Option, [], ◌∷◌, some, if◌then◌else◌, arith,
}
use location_service.Engine.State.{Status, SatelliteState, Property}
use location_service.Settings.{ServiceState}
use location_service.Service.Mirror.{
  Service, Signals, Assignment, to_is_online, to_does_satellite_based_positioning,
  to_does_report_cell_and_wifi_ids, to_engine_state, to_satellite_based_positioning_state,
  online_of, status_of, satellite_of, reporting_of, is_satellite_on, is_reporting_on, set_state,
  on_is_online, on_does_report_cell_and_wifi_ids, on_does_satellite_based_positioning,
  on_engine_state, on_satellite_based_positioning_state, assign_each, and_then, assign_once, assign,
}

pub quiet {ℓ} : (b : Bool) (A : Type ℓ) (x : A) → ((b ≡ true) → x ≢ x) → b ≡ false
quiet b A x h = elim (Bool-cases b) [ inl e ↦ elim (h e refl) [ ] | inr e ↦ e ]

pub quiet_of : {T : Type 0} (p : Property T) (x : T) → p.emits x x ≡ false
quiet_of p x = quiet (p.emits x x) _ x (p.emits_iff x x).0

pub loud_of : {T : Type 0} (p : Property T) (x y : T) → x ≢ y → p.emits x y ≡ true
loud_of p x y h = (p.emits_iff x y).1 h

pub quiet_if {ℓ} :
    {T : Type 0} {A : Type ℓ} (p : Property T) (x y : T) (a b : A)
    → x ≡ y
    → (if p.emits x y then a else b) ≡ b
quiet_if p x y a b e = ap (λ t. if t then a else b) (ap (p.emits x) (sym e) ∙ quiet_of p x)

pub loud_if {ℓ} :
    {T : Type 0} {A : Type ℓ} (p : Property T) (x y : T) (a b : A)
    → x ≢ y
    → (if p.emits x y then a else b) ≡ a
loud_if p x y a b h = ap (λ t. if t then a else b) (loud_of p x y h)

pub flag_cases : (a b : Bool) → (a ≡ b) ⊎ (a ≢ b)
flag_cases true true = inl refl
flag_cases false false = inl refl
flag_cases true false = inr (λ e. ground arith)
flag_cases false true = inr (λ e. ground arith)

pub status_cases : (a b : Status) → (a ≡ b) ⊎ (a ≢ b)
status_cases Status.off Status.off = inl refl
status_cases Status.on Status.on = inl refl
status_cases Status.active Status.active = inl refl
status_cases Status.off Status.on = inr (λ e. ground arith)
status_cases Status.off Status.active = inr (λ e. ground arith)
status_cases Status.on Status.off = inr (λ e. ground arith)
status_cases Status.on Status.active = inr (λ e. ground arith)
status_cases Status.active Status.off = inr (λ e. ground arith)
status_cases Status.active Status.on = inr (λ e. ground arith)

pub satellite_cases : (a b : SatelliteState) → (a ≡ b) ⊎ (a ≢ b)
satellite_cases SatelliteState.on SatelliteState.on = inl refl
satellite_cases SatelliteState.off SatelliteState.off = inl refl
satellite_cases SatelliteState.on SatelliteState.off = inr (λ e. ground arith)
satellite_cases SatelliteState.off SatelliteState.on = inr (λ e. ground arith)

-- The flags on the bus say what the engine's configuration is, and the harvester runs if they say so.
pub record IsInStep (s : Service) : Type 0 where
  pub online : s.is_online ≡ online_of s.engine_state
  pub satellite :
      s.does_satellite_based_positioning ≡ is_satellite_on s.satellite_based_positioning_state
  pub reporting :
      s.does_report_cell_and_wifi_ids ≡ is_reporting_on s.wifi_and_cell_id_reporting_state
  pub harvester : s.harvesting ≡ s.does_report_cell_and_wifi_ids

abbrev pub is_disabled : ServiceState → Bool
is_disabled ServiceState.disabled = true
is_disabled ServiceState.enabled = false
is_disabled ServiceState.active = false

-- And the state on the bus is disabled exactly while the engine is off; between enabled and active it does not always
-- say what the engine is.
pub record IsMirrored (s : Service) : Type 0 where
  pub flags : IsInStep s
  pub states : is_disabled s.state ≡ not s.is_online

-- The providers do not change their states where the engine's own slots enable or disable them.
pub record IsCalm (p : Signals) : Type 0 where
  pub calm : (v : Status) (s : Service) → p.reacts v s ≡ []
  pub calm_satellites : (v : SatelliteState) (s : Service) → p.reacts_to_satellites v s ≡ []

-- What an assignment comes to; an engine that is off does not become active, but on.
unfoldable pub Shows : Assignment → Service → Type 0
Shows (to_is_online v) t = t.is_online ≡ v
Shows (to_does_satellite_based_positioning v) t = t.does_satellite_based_positioning ≡ v
Shows (to_does_report_cell_and_wifi_ids v) t = t.does_report_cell_and_wifi_ids ≡ v
Shows (to_engine_state v) t = t.is_online ≡ online_of v
Shows (to_satellite_based_positioning_state v) t = t.satellite_based_positioning_state ≡ v

unfoldable pub Settles : Option Service → (Service → Type 0) → Type 0
Settles o Q = (t : Service) × (o ≡ some t) × IsInStep t × Q t

pub online_of-status_of : (v : Bool) → online_of (status_of v) ≡ v
online_of-status_of true = refl
online_of-status_of false = refl

pub is_satellite_on-satellite_of : (v : Bool) → is_satellite_on (satellite_of v) ≡ v
is_satellite_on-satellite_of true = refl
is_satellite_on-satellite_of false = refl

pub satellite_of-is_satellite_on : (v : SatelliteState) → satellite_of (is_satellite_on v) ≡ v
satellite_of-is_satellite_on SatelliteState.on = refl
satellite_of-is_satellite_on SatelliteState.off = refl

pub is_reporting_on-reporting_of : (v : Bool) → is_reporting_on (reporting_of v) ≡ v
is_reporting_on-reporting_of true = refl
is_reporting_on-reporting_of false = refl

module _ (p : Signals) (still : IsCalm p) where
  pub set_state-IsInStep :
      (v : ServiceState) (s : Service) → IsInStep s → IsInStep (set_state p v s)
  unfolding set_state
  set_state-IsInStep v s h =
      if-of IsInStep (p.state.emits s.state v) _ _
        (λ _. record {
          online = h.online;
          satellite = h.satellite;
          reporting = h.reporting;
          harvester = h.harvester;
        })
        (λ _. record {
          online = h.online;
          satellite = h.satellite;
          reporting = h.reporting;
          harvester = h.harvester;
        })

  pub set_state-online :
      (v : ServiceState) (s : Service) → (set_state p v s).is_online ≡ s.is_online
  unfolding set_state
  set_state-online v s =
      if-of (λ (t : Service). t.is_online ≡ s.is_online) (p.state.emits s.state v) _ _ (λ _. refl)
        (λ _. refl)

  pub set_state-state : (v : ServiceState) (s : Service) → (set_state p v s).state ≡ v
  unfolding set_state
  set_state-state v s =
      if-of (λ (t : Service). t.state ≡ v) (p.state.emits s.state v) _ _ (λ _. refl) (λ _. refl)

  pub online_again :
      (n : ℕ) (v : Bool) (s : Service)
      → s.is_online ≡ v
      → assign p (suc n) (to_is_online v) s ≡ some s
  unfolding assign assign_once
  online_again n v s e = quiet_if p.flag s.is_online v _ _ e

  pub online_other :
      (n : ℕ) (v : Bool) (s : Service)
      → s.is_online ≢ v
      → assign p (suc n) (to_is_online v) s
        ≡ on_is_online p (assign p n) v (record s { is_online = v })
  unfolding assign assign_once
  online_other n v s e = loud_if p.flag s.is_online v _ _ e

  pub engine_again :
      (n : ℕ) (v : Status) (s : Service)
      → s.engine_state ≡ v
      → assign p (suc n) (to_engine_state v) s ≡ some s
  unfolding assign assign_once
  engine_again n v s e = quiet_if p.status s.engine_state v _ _ e

  pub engine_other :
      (n : ℕ) (v : Status) (s : Service)
      → s.engine_state ≢ v
      → assign p (suc n) (to_engine_state v) s
        ≡ on_engine_state p
            (assign p n)
            v
            (record s { engine_state = v; saved_states = v ∷ s.saved_states })
  unfolding assign assign_once assign_each
  engine_other n v s e =
      loud_if p.status s.engine_state v _ _ e
      ∙ ap
          (λ vs. and_then (assign_each p (assign p n) vs (record s { engine_state = v })) (λ u.
            on_engine_state p (assign p n) v (record u { saved_states = v ∷ u.saved_states })))
          (still.calm v (record s { engine_state = v }))

  pub flag_again :
      (n : ℕ) (v : Bool) (s : Service)
      → s.does_satellite_based_positioning ≡ v
      → assign p (suc n) (to_does_satellite_based_positioning v) s ≡ some s
  unfolding assign assign_once
  flag_again n v s e = quiet_if p.flag s.does_satellite_based_positioning v _ _ e

  pub flag_other :
      (n : ℕ) (v : Bool) (s : Service)
      → s.does_satellite_based_positioning ≢ v
      → assign p (suc n) (to_does_satellite_based_positioning v) s
        ≡ on_does_satellite_based_positioning p
            (assign p n)
            v
            (record s { does_satellite_based_positioning = v })
  unfolding assign assign_once
  flag_other n v s e = loud_if p.flag s.does_satellite_based_positioning v _ _ e

  pub satellite_again :
      (n : ℕ) (v : SatelliteState) (s : Service)
      → s.satellite_based_positioning_state ≡ v
      → assign p (suc n) (to_satellite_based_positioning_state v) s ≡ some s
  unfolding assign assign_once
  satellite_again n v s e = quiet_if p.satellite s.satellite_based_positioning_state v _ _ e

  pub satellite_other :
      (n : ℕ) (v : SatelliteState) (s : Service)
      → s.satellite_based_positioning_state ≢ v
      → assign p (suc n) (to_satellite_based_positioning_state v) s
        ≡ on_satellite_based_positioning_state p
            (assign p n)
            v
            (record s { satellite_based_positioning_state = v })
  unfolding assign assign_once assign_each
  satellite_other n v s e =
      loud_if p.satellite s.satellite_based_positioning_state v _ _ e
      ∙ ap
          (λ vs.
            and_then
              (assign_each p (assign p n) vs (record s { satellite_based_positioning_state = v }))
              (on_satellite_based_positioning_state p (assign p n) v))
          (still.calm_satellites v (record s { satellite_based_positioning_state = v }))

  pub report_again :
      (n : ℕ) (v : Bool) (s : Service)
      → s.does_report_cell_and_wifi_ids ≡ v
      → assign p (suc n) (to_does_report_cell_and_wifi_ids v) s ≡ some s
  unfolding assign assign_once
  report_again n v s e = quiet_if p.flag s.does_report_cell_and_wifi_ids v _ _ e

  pub report_other :
      (n : ℕ) (v : Bool) (s : Service)
      → s.does_report_cell_and_wifi_ids ≢ v
      → assign p (suc n) (to_does_report_cell_and_wifi_ids v) s
        ≡ on_does_report_cell_and_wifi_ids p
            (assign p n)
            v
            (record s { does_report_cell_and_wifi_ids = v })
  unfolding assign assign_once
  report_other n v s e = loud_if p.flag s.does_report_cell_and_wifi_ids v _ _ e
