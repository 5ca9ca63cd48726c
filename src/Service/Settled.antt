-- ===== src/Service/Settled.antt =====
-- The slots of the service's properties come to rest.
use location_service.Base.{ℕ, inl, inr, suc, not, ◌≡◌, ◌≢◌, refl, sym, ap, ◌∙◌, Bool, Option, ◌∷◌}
use location_service.Engine.State.{Status}
use location_service.Service.Mirror.{
  Service, Signals, Assignment, is_online_changed, does_satellite_based_positioning_changed,
  to_is_online, to_does_satellite_based_positioning, to_does_report_cell_and_wifi_ids,
  to_engine_state, to_satellite_based_positioning_state, online_of, state_of, status_of,
  satellite_of, is_satellite_on, is_reporting_on, set_state, set_reporting, on_is_online,
  on_does_report_cell_and_wifi_ids, on_does_satellite_based_positioning, then_state,
  on_engine_state, on_satellite_based_positioning_state, assign,
}
use location_service.Service.Slots.{
  flag_cases, status_cases, satellite_cases, IsMirrored, Shows, Settles, online_of-status_of,
  is_satellite_on-satellite_of, satellite_of-is_satellite_on, is_reporting_on-reporting_of,
  set_state-IsInStep, set_state-online, set_state-state, is_disabled, IsCalm, online_again,
  online_other, engine_again, engine_other, flag_again, flag_other, satellite_again,
  satellite_other, report_again, report_other,
}

-- The state says whether the service is online.
abbrev Says : Service → Type 0
Says t = is_disabled t.state ≡ not t.is_online

pub disabled_of : (v : Status) → is_disabled (state_of v) ≡ not (online_of v)
disabled_of Status.off = refl
disabled_of Status.on = refl
disabled_of Status.active = refl

-- Where both are mirrored, a service that changes between online and not changes the engine's state.
other_status :
    (s : Service) (v : Bool)
    → s.is_online ≡ online_of s.engine_state
    → s.is_online ≢ v
    → s.engine_state ≢ status_of v
other_status s v h k q = k (h ∙ (ap online_of q ∙ online_of-status_of v))

module _ (p : Signals) (still : IsCalm p) where
  -- An assignment of the state after something that settles.
  then_state-settles :
      (v : Status) (o : Option Service) (w : Bool)
      → online_of v ≡ w
      → Settles o (λ t. t.is_online ≡ w)
      → Settles (then_state p (state_of v) o) (λ t. (t.is_online ≡ w) × Says t)
  unfolding then_state Settles
  then_state-settles v o w e h = (
    set_state p (state_of v) h.0,
    ap (then_state p (state_of v)) h.1,
    set_state-IsInStep p still (state_of v) h.0 h.2,
    (
      set_state-online p still (state_of v) h.0 ∙ h.3,
      ap is_disabled (set_state-state p still (state_of v) h.0)
          ∙ (disabled_of v ∙ ap not (e ∙ sym (set_state-online p still (state_of v) h.0 ∙ h.3))),
    ),
  )

  -- The engine's state, once the property says whether the service is online.
  engine_settles :
      (n : ℕ) (v : Bool) (s : Service)
      → s.is_online ≡ v
      → s.does_satellite_based_positioning ≡ is_satellite_on s.satellite_based_positioning_state
      → s.does_report_cell_and_wifi_ids ≡ is_reporting_on s.wifi_and_cell_id_reporting_state
      → s.harvesting ≡ s.does_report_cell_and_wifi_ids
      → Settles
          (assign p (suc (suc n)) (to_engine_state (status_of v)) s)
          (λ t. (t.is_online ≡ v) × (s.engine_state ≢ status_of v → Says t))
  unfolding Settles on_engine_state
  engine_settles n v s e a b c = elim (status_cases s.engine_state (status_of v)) [
    | inl q ↦ (
      s,
      engine_again p still (suc n) (status_of v) s q,
      record {
        online = e ∙ sym (ap online_of q ∙ online_of-status_of v);
        satellite = a;
        reporting = b;
        harvester = c;
      },
      (e, λ k. absurd (k q)),
    )
    | inr q ↦
        let s2 = record s {
          engine_state = status_of v;
          saved_states = status_of v ∷ s.saved_states;
        } in
        let again =
          online_again p still n (online_of (status_of v)) s2 (e ∙ sym (online_of-status_of v)) in
        let t =
          then_state-settles (status_of v)
            (assign p (suc n) (to_is_online (online_of (status_of v))) s2) v (online_of-status_of v)
            (
              s2,
              again,
              record {
                online = e ∙ sym (online_of-status_of v);
                satellite = a;
                reporting = b;
                harvester = c;
              },
              e,
            ) in
        (t.0, engine_other p still (suc n) (status_of v) s q ∙ t.1, t.2, (t.3.0, λ k. t.3.1))
  ]

  online_settles :
      (n : ℕ) (v : Bool) (s : Service)
      → s.is_online ≢ v
      → s.does_satellite_based_positioning ≡ is_satellite_on s.satellite_based_positioning_state
      → s.does_report_cell_and_wifi_ids ≡ is_reporting_on s.wifi_and_cell_id_reporting_state
      → s.harvesting ≡ s.does_report_cell_and_wifi_ids
      → Settles
          (assign p (suc (suc (suc n))) (to_is_online v) s)
          (λ t. (t.is_online ≡ v) × (s.engine_state ≢ status_of v → Says t))
  unfolding on_is_online Settles
  online_settles n v s q a b c =
      let t =
        engine_settles n v (record s { is_online = v; told = is_online_changed v ∷ s.told }) refl a
          b c in
      (t.0, online_other p still (suc (suc n)) v s q ∙ t.1, t.2, t.3)

  pub settles :
      (n : ℕ) (a : Assignment) (s : Service)
      → IsMirrored s
      → Settles (assign p (suc (suc (suc (suc n)))) a s) (λ t. Says t × Shows a t)
  unfolding Settles Shows on_engine_state on_does_satellite_based_positioning
      on_satellite_based_positioning_state on_does_report_cell_and_wifi_ids set_reporting
  settles n (to_is_online v) s h = elim (flag_cases s.is_online v) [
    | inl e ↦ (s, online_again p still (suc (suc (suc n))) v s e, h.flags, (h.states, e))
    | inr q ↦
        let t =
          online_settles (suc n) v s q h.flags.satellite h.flags.reporting h.flags.harvester in
        (t.0, t.1, t.2, (t.3.1 (other_status s v h.flags.online q), t.3.0))
  ]
  settles n (to_engine_state v) s h = elim (status_cases s.engine_state v) [
    | inl e ↦ (
      s,
      engine_again p still (suc (suc (suc n))) v s e,
      h.flags,
      (h.states, h.flags.online ∙ ap online_of e),
    )
    | inr q ↦
        let s1 = record s { engine_state = v; saved_states = v ∷ s.saved_states } in
        let t =
          then_state-settles v (assign p (suc (suc (suc n))) (to_is_online (online_of v)) s1)
            (online_of v) refl
            (elim (flag_cases s.is_online (online_of v)) [
              | inl e ↦ (
                s1,
                online_again p still (suc (suc n)) (online_of v) s1 e,
                record {
                  online = e;
                  satellite = h.flags.satellite;
                  reporting = h.flags.reporting;
                  harvester = h.flags.harvester;
                },
                e,
              )
              | inr r ↦
                  let u =
                    online_settles n (online_of v) s1 r h.flags.satellite h.flags.reporting
                      h.flags.harvester in
                  (u.0, u.1, u.2, u.3.0)
            ]) in
        (t.0, engine_other p still (suc (suc (suc n))) v s q ∙ t.1, t.2, (t.3.1, t.3.0))
  ]
  settles n (to_does_satellite_based_positioning v) s h =
      elim (flag_cases s.does_satellite_based_positioning v) [
        | inl e ↦ (s, flag_again p still (suc (suc (suc n))) v s e, h.flags, (h.states, e))
        | inr q ↦
            let s1 = record s {
              does_satellite_based_positioning = v;
              told = does_satellite_based_positioning_changed v ∷ s.told;
            } in
            let first = flag_other p still (suc (suc (suc n))) v s q in
            elim (satellite_cases s.satellite_based_positioning_state (satellite_of v)) [
              | inl e ↦ (
                s1,
                first ∙ satellite_again p still (suc (suc n)) (satellite_of v) s1 e,
                record {
                  online = h.flags.online;
                  satellite = sym (ap is_satellite_on e ∙ is_satellite_on-satellite_of v);
                  reporting = h.flags.reporting;
                  harvester = h.flags.harvester;
                },
                (h.states, refl),
              )
              | inr r ↦
                  let s2 = record s1 { satellite_based_positioning_state = satellite_of v } in
                  (
                    s2,
                    first
                        ∙ (satellite_other p still (suc (suc n)) (satellite_of v) s1 r
                            ∙ flag_again p still (suc n) (is_satellite_on (satellite_of v)) s2
                                (sym (is_satellite_on-satellite_of v))),
                    record {
                      online = h.flags.online;
                      satellite = sym (is_satellite_on-satellite_of v);
                      reporting = h.flags.reporting;
                      harvester = h.flags.harvester;
                    },
                    (h.states, refl),
                  )
            ]
      ]
  settles n (to_satellite_based_positioning_state v) s h =
      elim (satellite_cases s.satellite_based_positioning_state v) [
        | inl e ↦ (s, satellite_again p still (suc (suc (suc n))) v s e, h.flags, (h.states, e))
        | inr q ↦
            let s1 = record s { satellite_based_positioning_state = v } in
            let first = satellite_other p still (suc (suc (suc n))) v s q in
            elim (flag_cases s.does_satellite_based_positioning (is_satellite_on v)) [
              | inl e ↦ (
                s1,
                first ∙ flag_again p still (suc (suc n)) (is_satellite_on v) s1 e,
                record {
                  online = h.flags.online;
                  satellite = e;
                  reporting = h.flags.reporting;
                  harvester = h.flags.harvester;
                },
                (h.states, refl),
              )
              | inr r ↦
                  let s2 = record s1 {
                    does_satellite_based_positioning = is_satellite_on v;
                    told = does_satellite_based_positioning_changed (is_satellite_on v) ∷ s.told;
                  } in
                  (
                    s2,
                    first
                        ∙ (flag_other p still (suc (suc n)) (is_satellite_on v) s1 r
                            ∙ satellite_again p still (suc n) (satellite_of (is_satellite_on v)) s2
                                (sym (satellite_of-is_satellite_on v))),
                    record {
                      online = h.flags.online;
                      satellite = refl;
                      reporting = h.flags.reporting;
                      harvester = h.flags.harvester;
                    },
                    (h.states, refl),
                  )
            ]
      ]
  settles n (to_does_report_cell_and_wifi_ids v) s h =
      elim (flag_cases s.does_report_cell_and_wifi_ids v) [
        | inl e ↦ (s, report_again p still (suc (suc (suc n))) v s e, h.flags, (h.states, e))
        | inr q ↦ (
          _,
          report_other p still (suc (suc (suc n))) v s q,
          record {
            online = h.flags.online;
            satellite = h.flags.satellite;
            reporting = sym (is_reporting_on-reporting_of v);
            harvester = refl;
          },
          (h.states, refl),
        )
      ]
