-- ===== src/Session/Aligned.antt =====
-- What holds of a session at all times: its controller counts what its properties say.
use location_service.Base.{
  true-ne-false, if-of, ◌≡◌, ◌≢◌, refl, subst, sym, Bool, true, false, if◌then◌else◌, List, [], ◌∷◌,
  some, All, arith, ap, ◌∙◌,
}
use location_service.Base.Int.{pos}
use location_service.Engine.State.{Property}
use location_service.Provider.Controller.{
  Call, start_position, stop_position, start_heading, stop_heading, start_velocity, stop_velocity,
}
use location_service.Provider.Consistency.{Device, step, replay, and_then, obey}
use location_service.Session
use location_service.Session.{
  Status, enabled, disabled, init, set_position_status, set_heading_status, set_velocity_status,
  on_position_status, on_heading_status, on_velocity_status, Method, start_position_updates,
  stop_position_updates, start_heading_updates, stop_heading_updates, start_velocity_updates,
  stop_velocity_updates, handle, run, destroy,
}

-- A call that does not concern the heading.
unfoldable pub IsNotHeading : Call → Type 0
IsNotHeading start_heading = ⊥
IsNotHeading stop_heading = ⊥
IsNotHeading _ = Unit

abbrev pub is_enabled : Status → Bool
is_enabled enabled = true
is_enabled disabled = false

abbrev pub device : Status → Status → Device
device p v = record { position = is_enabled p; heading = false; velocity = is_enabled v }

-- The session whose properties are `p` and `v`, and whose controller counts them.
abbrev pub shape : Status → Status → List Call → Session.Session
shape p v calls = record {
  position_status = p;
  heading_status = disabled;
  velocity_status = v;
  proxy = record {
    controller = record {
      position_updates_counter = if is_enabled p then pos 1 else pos 0;
      heading_updates_counter = pos 0;
      velocity_updates_counter = if is_enabled v then pos 1 else pos 0;
    };
    calls = calls;
  };
}

unfoldable pub IsAligned : Session.Session → Type 0
IsAligned s =
    (p : Status) × (v : Status) × (calls : List Call) × (s ≡ shape p v calls)
    × (replay calls ≡ some (device p v))
    × All IsNotHeading calls

differ : enabled ≢ disabled
differ q = ground arith

module _ (status : Property Status) where
  not_emitted : (a : Status) {X : Type 0} → status.emits a a ≡ true → X
  not_emitted a h = absurd ((status.emits_iff a a).0 h refl)

  is_emitted : (a b : Status) {X : Type 0} → a ≢ b → status.emits a b ≡ false → X
  is_emitted a b d h = absurd (true-ne-false (sym ((status.emits_iff a b).1 d) ∙ h))

  position-IsAligned :
      (p b v : Status) (calls : List Call)
      → replay calls ≡ some (device p v)
      → All IsNotHeading calls
      → IsAligned (set_position_status status b (shape p v calls))
  unfolding set_position_status on_position_status IsAligned IsNotHeading step
  position-IsAligned enabled enabled v calls h a =
      if-of IsAligned (status.emits enabled enabled) _ _ (not_emitted enabled)
        (λ _. (enabled, v, calls, refl, h, a))
  position-IsAligned enabled disabled v calls h a =
      if-of IsAligned (status.emits enabled disabled) _ _
        (λ _. (
          disabled,
          v,
          stop_position ∷ calls,
          refl,
          ap (λ o. and_then o (obey stop_position)) h,
          (tt, a),
        ))
        (is_emitted enabled disabled differ)
  position-IsAligned disabled enabled v calls h a =
      if-of IsAligned (status.emits disabled enabled) _ _
        (λ _. (
          enabled,
          v,
          start_position ∷ calls,
          refl,
          ap (λ o. and_then o (obey start_position)) h,
          (tt, a),
        ))
        (is_emitted disabled enabled (λ q. differ (sym q)))
  position-IsAligned disabled disabled v calls h a =
      if-of IsAligned (status.emits disabled disabled) _ _ (not_emitted disabled)
        (λ _. (disabled, v, calls, refl, h, a))

  velocity-IsAligned :
      (p b v : Status) (calls : List Call)
      → replay calls ≡ some (device p v)
      → All IsNotHeading calls
      → IsAligned (set_velocity_status status b (shape p v calls))
  unfolding set_velocity_status on_velocity_status IsAligned IsNotHeading step
  velocity-IsAligned p enabled enabled calls h a =
      if-of IsAligned (status.emits enabled enabled) _ _ (not_emitted enabled)
        (λ _. (p, enabled, calls, refl, h, a))
  velocity-IsAligned p disabled enabled calls h a =
      if-of IsAligned (status.emits enabled disabled) _ _
        (λ _. (
          p,
          disabled,
          stop_velocity ∷ calls,
          refl,
          ap (λ o. and_then o (obey stop_velocity)) h,
          (tt, a),
        ))
        (is_emitted enabled disabled differ)
  velocity-IsAligned p enabled disabled calls h a =
      if-of IsAligned (status.emits disabled enabled) _ _
        (λ _. (
          p,
          enabled,
          start_velocity ∷ calls,
          refl,
          ap (λ o. and_then o (obey start_velocity)) h,
          (tt, a),
        ))
        (is_emitted disabled enabled (λ q. differ (sym q)))
  velocity-IsAligned p disabled disabled calls h a =
      if-of IsAligned (status.emits disabled disabled) _ _ (not_emitted disabled)
        (λ _. (p, disabled, calls, refl, h, a))

  heading-IsAligned :
      (p v : Status) (calls : List Call)
      → replay calls ≡ some (device p v)
      → All IsNotHeading calls
      → IsAligned (set_heading_status status disabled (shape p v calls))
  unfolding set_heading_status IsAligned
  heading-IsAligned p v calls h a =
      if-of IsAligned (status.emits disabled disabled) _ _ (not_emitted disabled)
        (λ _. (p, v, calls, refl, h, a))

  handle-IsAligned :
      (m : Method) (s : Session.Session) → IsAligned s → IsAligned (handle status m s)
  unfolding handle IsAligned
  handle-IsAligned m s (p, v, calls, e, h, a) =
      subst (λ x. IsAligned (handle status m x)) (sym e) (of_shape m)
    where
      of_shape : (n : Method) → IsAligned (handle status n (shape p v calls))
      of_shape start_position_updates = position-IsAligned p enabled v calls h a
      of_shape stop_position_updates = position-IsAligned p disabled v calls h a
      of_shape start_heading_updates = position-IsAligned p enabled v calls h a
      of_shape stop_heading_updates = heading-IsAligned p v calls h a
      of_shape start_velocity_updates = velocity-IsAligned p enabled v calls h a
      of_shape stop_velocity_updates = velocity-IsAligned p disabled v calls h a

  pub run-IsAligned :
      (ms : List Method) (s : Session.Session) → IsAligned s → IsAligned (run status ms s)
  unfolding run
  run-IsAligned [] s h = h
  run-IsAligned (m ∷ ms) s h = run-IsAligned ms (handle status m s) (handle-IsAligned m s h)
