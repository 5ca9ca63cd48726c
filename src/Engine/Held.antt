-- ===== src/Engine/Held.antt =====
-- Satellite based positioning that is off: which providers the slots and new providers find switched off.
use location_service.Base.{
  ℕ, ◌≡◌, refl, sym, subst, ◌∙◌, Bool, true, false, List, [], ◌∷◌, arith, if◌then◌else◌, Bool-cases,
  inl, inr, contains, ℕ_discrete, ◌&&◌,
}
use mathlib.Core.Bool.{false≢true}
use location_service.Provider.Controller.{switched_off}
use location_service.Engine.State.{Status, SatelliteState, ReportingState, Properties, Engine}
use location_service.Engine.{
  for_each_provider, sync_satellites, set_satellite_state, set_reporting_state, tell,
  sync_new_satellites, sync_new_state, disable_one, satellites_off,
}
use location_service.Engine.Keeps.{
  Keeps, keeps_refl, for_each-Keeps, disable_one-Keeps, disable_one-off,
}

-- The provider at `i` is off if it requires satellites.
abbrev pub Held : Engine → ℕ → Type 0
Held e i = (e.providers i).requires_satellites ≡ true → (e.providers i).controller ≡ switched_off

pub record IsGated (e : Engine) : Type 0 where
  pub held : e.satellite_state ≡ SatelliteState.off → (i : ℕ) → contains e.order i ≡ true → Held e i

pub Keeps-Held :
    {e f : Engine}
    → Keeps e f
    → e.satellite_state ≡ SatelliteState.off
    → (i : ℕ) → Held e i
    → Held f i
Keeps-Held k s i h r = let r' = sym (k.requires i) ∙ r in k.off i tt s r' (h r')

pub Keeps-IsGated : {e f : Engine} → Keeps e f → IsGated e → IsGated f
Keeps-IsGated {e} {f} k g = record {
  held = λ s i m.
      let s' = sym k.satellite ∙ s in
      Keeps-Held k s' i (g.held s' i (subst (λ l. contains l i ≡ true) k.order m));
}

module _ (properties : Properties)
    (kept : (s : Status) (e : Engine) → Keeps e (properties.engine_state_slots s e)) where
  sync_off-Keeps :
      (i : ℕ) (e : Engine) → Keeps e (sync_satellites properties SatelliteState.off i e)
  unfolding sync_satellites
  sync_off-Keeps i e = elim (Bool-cases (e.providers i).requires_satellites) [
    | inl b ↦ rw b (disable_one-Keeps properties kept i e)
    | inr b ↦ rw b (keeps_refl _ e)
  ]

  sync_off-Held : (i : ℕ) (e : Engine) → Held (sync_satellites properties SatelliteState.off i e) i
  unfolding sync_satellites
  sync_off-Held i e r =
      let r' = sym ((sync_off-Keeps i e).requires i) ∙ r in
      elim (Bool-cases (e.providers i).requires_satellites) [
        | inl b ↦ rw (b, sync_satellites) (disable_one-off properties kept i e)
        | inr b ↦ absurd (false≢true (sym b ∙ r'))
      ]

  abbrev sync : ℕ → Engine → Engine
  sync = sync_satellites properties SatelliteState.off

  -- The loop holds off each provider that it comes to.
  sync_all-Held :
      (is : List ℕ) (e : Engine)
      → e.satellite_state ≡ SatelliteState.off
      → (i : ℕ) → contains is i ≡ true
      → Held (for_each_provider sync is e) i
  unfolding for_each_provider
  sync_all-Held [] e s i m = cc
  sync_all-Held (j ∷ js) e s i m = elim (ℕ_discrete j i) [
    | yes q ↦
        Keeps-Held (for_each-Keeps sync sync_off-Keeps js (sync j e))
          ((sync_off-Keeps j e).satellite ∙ s) i (subst (Held (sync j e)) q (sync_off-Held j e))
    | no q ↦ sync_all-Held js _ ((sync_off-Keeps j e).satellite ∙ s) i (ground arith)
  ]

  -- Turning satellites on leaves the gate open.
  sync_on_satellite :
      (is : List ℕ) (e : Engine)
      → (for_each_provider (sync_satellites properties SatelliteState.on) is e).satellite_state
        ≡ e.satellite_state
  unfolding for_each_provider sync_satellites
  sync_on_satellite [] e = refl
  sync_on_satellite (i ∷ is) e =
      sync_on_satellite is (sync_satellites properties SatelliteState.on i e) ∙ ground arith

  pub off-on_absurd : SatelliteState.on ≡ SatelliteState.off → ⊥
  off-on_absurd h = cc

  -- Only an assignment that changes nothing is silent.
  was_off :
      (s : SatelliteState)
      → properties.satellite.emits s SatelliteState.off ≡ false
      → s ≡ SatelliteState.off
  was_off SatelliteState.off h = refl
  was_off SatelliteState.on h =
      absurd (false≢true (sym h ∙ (properties.satellite.emits_iff _ _).1 off-on_absurd))

  pub set_satellite_state-IsGated :
      (s : SatelliteState) (e : Engine) → IsGated e → IsGated (set_satellite_state properties s e)
  unfolding set_satellite_state
  set_satellite_state-IsGated SatelliteState.on e g = record {
    held = λ s. absurd (off-on_absurd (sym on_lem ∙ s));
  }
    where
      on_lem :
          (set_satellite_state properties SatelliteState.on e).satellite_state ≡ SatelliteState.on
      on_lem = elim (Bool-cases (properties.satellite.emits e.satellite_state SatelliteState.on)) [
        | inl b ↦ rw b (sync_on_satellite e.order _)
        | inr b ↦ rw b
      ]
  set_satellite_state-IsGated SatelliteState.off e g =
      elim (Bool-cases (properties.satellite.emits e.satellite_state SatelliteState.off)) [
        | inl b ↦ rw b (record {
          held = λ s i m.
              sync_all-Held e.order (record e { satellite_state = SatelliteState.off }) refl i
                (subst (λ l. contains l i ≡ true)
                  (for_each-Keeps sync sync_off-Keeps e.order
                    (record e { satellite_state = SatelliteState.off })).order
                  m);
        })
        | inr b ↦ rw b (record { held = λ s. g.held (was_off e.satellite_state b) })
      ]

  tell-Keeps :
      (s : ReportingState) (is : List ℕ) (e f : Engine)
      → Keeps e f
      → Keeps e (tell properties s is f)
  unfolding tell
  tell-Keeps s [] e f k = k
  tell-Keeps s (i ∷ is) e f k =
      tell-Keeps s is e _
        (record { satellite = k.satellite; order = k.order; requires = k.requires; off = k.off })

  pub set_reporting_state-Keeps :
      (s : ReportingState) (e : Engine) → Keeps e (set_reporting_state properties s e)
  unfolding set_reporting_state
  set_reporting_state-Keeps s e =
      elim (Bool-cases (properties.reporting.emits e.reporting_state s)) [
        | inl b ↦ rw b (
            tell-Keeps s e.connected e _ (record {
              satellite = refl;
              order = refl;
              requires = λ i. refl;
              off = λ i p t r c. c;
            }))
        | inr b ↦
            rw b (record {
              satellite = refl;
              order = refl;
              requires = λ i. refl;
              off = λ i p t r c. c;
            })
      ]

  if-Keeps : (b : Bool) (i : ℕ) (e : Engine) → Keeps e (if b then disable_one properties i e else e)
  if-Keeps true i e = disable_one-Keeps properties kept i e
  if-Keeps false i e = keeps_refl _ e

  pub sync_new_satellites-Keeps :
      (i : ℕ) (e : Engine) → Keeps e (sync_new_satellites properties i e)
  unfolding sync_new_satellites
  sync_new_satellites-Keeps i e = if-Keeps _ i e

  pub sync_new_state-Keeps : (i : ℕ) (e : Engine) → Keeps e (sync_new_state properties i e)
  unfolding sync_new_state
  sync_new_state-Keeps i e = if-Keeps _ i e

  pub sync_new_satellites-Held :
      (i : ℕ) (e : Engine)
      → e.satellite_state ≡ SatelliteState.off
      → Held (sync_new_satellites properties i e) i
  unfolding sync_new_satellites
  sync_new_satellites-Held i e s r =
      elim (Bool-cases ((e.providers i).requires_satellites && satellites_off e)) [
        | inl b ↦ rw (b, sync_new_satellites) (disable_one-off properties kept i e)
        | inr b ↦ absurd (required (sym ((sync_new_satellites-Keeps i e).requires i) ∙ r) s b)
      ]
    where
      required :
          (e.providers i).requires_satellites ≡ true
          → e.satellite_state ≡ SatelliteState.off
          → (e.providers i).requires_satellites && satellites_off e ≡ false
          → ⊥
      required h k b = ground arith
