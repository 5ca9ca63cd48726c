-- ===== src/Engine/Keeps.antt =====
-- What every reaction of the engine keeps: the satellite setting, the map of providers, what they
-- require, and that a provider which is held off by the satellite setting stays off.
use location_service.Base.{
  ℕ, ◌≡◌, refl, sym, subst, ◌∙◌, ◌≢◌, true, List, [], ◌∷◌, arith, Bool-cases, inl, inr, ℕ_discrete,
  ◌&&◌,
}
use location_service.Provider.Controller.{
  Call, start_position, stop_position, start_heading, stop_heading, start_velocity, stop_velocity,
  switched_off, disable, forward,
}
use location_service.Provider.Relate.{forward-R, disable-R}
use location_service.Engine.State.{
  Status, SatelliteState, ProviderState, Properties, Tracked, Engine, set_tracked, tracked_part,
  impl_part,
}
use location_service.Engine.{
  for_each_provider, drive, enable_one, on_engine_state_running, assign_running,
  on_provider_state_changed, assign_state, tracked_call, disable_one, request, on_engine_state,
  set_engine_state, save_state, satellites_off,
}

-- The provider at `i` stays off, if it is.
abbrev pub StaysOff : ℕ → Engine → Engine → Type 0
StaysOff i e f =
    e.satellite_state ≡ SatelliteState.off
    → (e.providers i).requires_satellites ≡ true
    → (e.providers i).controller ≡ switched_off
    → (f.providers i).controller ≡ switched_off

-- For the providers of which `P` holds.
pub record KeepsBut (P : ℕ → Type 0) (e f : Engine) : Type 0 where
  pub satellite : f.satellite_state ≡ e.satellite_state
  pub order : f.order ≡ e.order
  pub requires : (i : ℕ) → (f.providers i).requires_satellites ≡ (e.providers i).requires_satellites
  pub off : (i : ℕ) → P i → StaysOff i e f

abbrev pub Keeps : Engine → Engine → Type 0
Keeps = KeepsBut (λ i. Unit {0})

module _ (P : ℕ → Type 0) where
  pub keeps_refl : (e : Engine) → KeepsBut P e e
  keeps_refl e = record {
    satellite = refl;
    order = refl;
    requires = λ i. refl;
    off = λ i p s r c. c;
  }

  pub keeps_trans : (e f g : Engine) → KeepsBut P e f → KeepsBut P f g → KeepsBut P e g
  keeps_trans e f g h k = record {
    satellite = k.satellite ∙ h.satellite;
    order = k.order ∙ h.order;
    requires = λ i. k.requires i ∙ h.requires i;
    off = λ i p s r c. k.off i p (h.satellite ∙ s) (h.requires i ∙ r) (h.off i p s r c);
  }

  pub weaken : {e f : Engine} → Keeps e f → KeepsBut P e f
  weaken h = record {
    satellite = h.satellite;
    order = h.order;
    requires = h.requires;
    off = λ i p. h.off i tt;
  }

-- A tracked provider is written with what it required before.
touch :
    (P : ℕ → Type 0) (i : ℕ) (t : Tracked) (e : Engine)
    → t.requires_satellites ≡ (e.providers i).requires_satellites
    → (P i → StaysOff i e (set_tracked i t e))
    → KeepsBut P e (set_tracked i t e)
touch P i t e h k = record {
  satellite = refl;
  order = refl;
  requires = λ j. ground arith;
  off = λ j p s r c. elim (ℕ_discrete i j) [
    | yes q ↦ subst (λ m. P m → StaysOff m e (set_tracked i t e)) q k p s r c
    | no q ↦ ground arith
  ];
}

-- Where the controller is written as it was, or switched off.
touch_same :
    (P : ℕ → Type 0) (i : ℕ) (t : Tracked) (e : Engine)
    → t.requires_satellites ≡ (e.providers i).requires_satellites
    → t.controller ≡ (e.providers i).controller
    → KeepsBut P e (set_tracked i t e)
touch_same P i t e h k = touch P i t e h (λ p s r c. ground arith)

touch_off :
    (P : ℕ → Type 0) (i : ℕ) (t : Tracked) (e : Engine)
    → t.requires_satellites ≡ (e.providers i).requires_satellites
    → t.controller ≡ switched_off
    → KeepsBut P e (set_tracked i t e)
touch_off P i t e h k = touch P i t e h (λ p s r c. ground arith)

pub for_each-Keeps :
    (f : ℕ → Engine → Engine)
    → ((i : ℕ) (e : Engine) → Keeps e (f i e))
    → (is : List ℕ) (e : Engine) → Keeps e (for_each_provider f is e)
unfolding for_each_provider
for_each-Keeps f k [] e = keeps_refl _ e
for_each-Keeps f k (i ∷ is) e = keeps_trans _ _ _ _ (k i e) (for_each-Keeps f k is (f i e))

enable_one-Keeps : (i : ℕ) (e : Engine) → Keeps e (enable_one i e)
unfolding enable_one
enable_one-Keeps i e = elim (Bool-cases ((e.providers i).requires_satellites && satellites_off e)) [
  | inl b ↦ rw b (keeps_refl _ e)
  | inr b ↦ rw b (touch _ i _ e refl (λ p s r c. absurd (ground arith)))
]

module _ (properties : Properties)
    (kept : (s : Status) (e : Engine) → Keeps e (properties.engine_state_slots s e)) where
  saved-Keeps : (s : Status) (e f : Engine) → Keeps e f → Keeps e (save_state s f)
  saved-Keeps s e f k = record {
    satellite = k.satellite;
    order = k.order;
    requires = k.requires;
    off = k.off;
  }

  assigned : (s : Status) (e : Engine) → Keeps e (record e { engine_state = s })
  assigned s e = record {
    satellite = refl;
    order = refl;
    requires = λ i. refl;
    off = λ i p t r c. c;
  }

  running-Keeps : (s : Status) (e : Engine) → Keeps e (on_engine_state_running s e)
  unfolding on_engine_state_running
  running-Keeps Status.on e = for_each-Keeps enable_one enable_one-Keeps e.order e
  running-Keeps Status.active e = keeps_refl _ e
  running-Keeps Status.off e = keeps_refl _ e

  assign_running-Keeps : (s : Status) (e : Engine) → Keeps e (assign_running properties s e)
  unfolding assign_running
  assign_running-Keeps s e = elim (Bool-cases (properties.status.emits e.engine_state s)) [
    | inl b ↦ rw b (
        keeps_trans _ e _ _ (assigned s e) (
          keeps_trans _ _ _ _ (saved-Keeps s _ _ (running-Keeps s (record e { engine_state = s })))
            (kept s _)))
    | inr b ↦ rw b (assigned s e)
  ]

  assign_state-Keeps :
      (i : ℕ) (s : ProviderState) (e : Engine) → Keeps e (assign_state properties i s e)
  unfolding assign_state on_provider_state_changed
  assign_state-Keeps i s e = elim (Bool-cases (properties.provider.emits (e.providers i).state s)) [
    | inl b ↦ rw b (keeps_trans _ _ _ _ (touch_same _ i _ e refl refl) (assign_running-Keeps _ _))
    | inr b ↦ rw b (touch_same _ i _ e refl refl)
  ]

  driven :
      (i : ℕ) (c : Call) (s : ProviderState) (e : Engine)
      → Keeps e (forward (impl_part i) (drive i) c (assign_state properties i s e))
  driven i c s e = keeps_trans _ _ _ _ (assign_state-Keeps i s e) (
      forward-R Keeps (keeps_refl _) (keeps_trans _) (impl_part i) (drive i)
        (λ k f. touch_same _ i _ f refl refl) (λ d f. touch_same _ i _ f refl refl) c _)

  tracked_call-Keeps : (i : ℕ) (c : Call) (e : Engine) → Keeps e (tracked_call properties i c e)
  unfolding tracked_call
  tracked_call-Keeps i start_position e = driven i start_position ProviderState.active e
  tracked_call-Keeps i stop_position e = driven i stop_position ProviderState.enabled e
  tracked_call-Keeps i start_heading e = driven i start_heading ProviderState.active e
  tracked_call-Keeps i stop_heading e = driven i stop_heading ProviderState.enabled e
  tracked_call-Keeps i start_velocity e = driven i start_velocity ProviderState.active e
  tracked_call-Keeps i stop_velocity e = driven i stop_velocity ProviderState.enabled e

  pub disable_one-Keeps : (i : ℕ) (e : Engine) → Keeps e (disable_one properties i e)
  unfolding disable_one
  disable_one-Keeps i e =
      disable-R Keeps (keeps_refl _) (keeps_trans _) (tracked_part i) (tracked_call properties i)
        (tracked_call-Keeps i)
        (λ f. touch_off _ i (record (f.providers i) { controller = switched_off }) f refl refl) e

  -- And it does switch the provider off.
  pub disable_one-off :
      (i : ℕ) (e : Engine) → ((disable_one properties i e).providers i).controller ≡ switched_off
  unfolding disable_one disable
  disable_one-off i e = ground arith

  -- A disabled provider ignores what clients ask for.
  pub request-disabled :
      (i : ℕ) (c : Call) (e : Engine)
      → (e.providers i).controller ≡ switched_off
      → request properties i c e ≡ e
  unfolding request forward
  request-disabled i start_position e h = rw h
  request-disabled i stop_position e h = rw h
  request-disabled i start_heading e h = rw h
  request-disabled i stop_heading e h = rw h
  request-disabled i start_velocity e h = rw h
  request-disabled i stop_velocity e h = rw h

  pub request-Keeps : (i : ℕ) (c : Call) (e : Engine) → Keeps e (request properties i c e)
  unfolding request
  request-Keeps i c e = record {
    satellite = others.satellite;
    order = others.order;
    requires = others.requires;
    off = λ j p s r h. elim (ℕ_discrete i j) [
      | yes q ↦
          rw
            (request-disabled i c e
              (subst (λ m. (e.providers m).controller ≡ switched_off) (sym q) h))
            h
      | no q ↦ others.off j q s r h
    ];
  }
    where
      others : KeepsBut (λ j. i ≢ j) e (forward (tracked_part i) (tracked_call properties i) c e)
      others =
          forward-R (KeepsBut (λ j. i ≢ j)) (keeps_refl _) (keeps_trans _) (tracked_part i)
            (tracked_call properties i) (λ k f. touch _ i _ f refl (λ p. absurd (p refl)))
            (λ d f. weaken _ (tracked_call-Keeps i d f)) c e

  on_engine_state-Keeps : (s : Status) (e : Engine) → Keeps e (on_engine_state properties s e)
  unfolding on_engine_state
  on_engine_state-Keeps Status.off e =
      for_each-Keeps (disable_one properties) disable_one-Keeps e.order e
  on_engine_state-Keeps Status.on e = running-Keeps Status.on e
  on_engine_state-Keeps Status.active e = running-Keeps Status.active e

  pub set_engine_state-Keeps : (s : Status) (e : Engine) → Keeps e (set_engine_state properties s e)
  unfolding set_engine_state
  set_engine_state-Keeps s e = elim (Bool-cases (properties.status.emits e.engine_state s)) [
    | inl b ↦ rw b (
        keeps_trans _ e _ _ (assigned s e) (
          keeps_trans _ _ _ _
            (saved-Keeps s _ _ (on_engine_state-Keeps s (record e { engine_state = s })))
            (kept s _)))
    | inr b ↦ rw b (assigned s e)
  ]
