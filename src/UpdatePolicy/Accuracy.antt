-- ===== src/UpdatePolicy/Accuracy.antt =====
-- A policy that gets its updates within one bracket.
use location_service.Base.{
  ℕ, ◌≡◌, refl, inl, inr, true, Option, none, some, List, [], ◌∷◌, All, arith,
}
use location_service.Base.Int.{ℤ, ◌≤ℤ◌, ◌+ℤ◌, +ℤ_parts}
use location_service.Measure.{Compare, IsNumeric, Position, Update}
use location_service.UpdatePolicy.{Policy, is_as_accurate, verify_position}
use location_service.UpdatePolicy.Bracket.{IsTime, bracket, InRange, verify_position_lem}

module _ {Q : Type 0} ⦃o : Compare Q⦄ where
  -- The policy after a sequence of updates.
  pub verify_all : Policy Q → List (Update (Position Q)) → Policy Q
  verify_all p [] = p
  verify_all p (u ∷ us) = verify_all (verify_position p u).0 us

  -- One update is as accurate as another; no accuracy at all is the worst.
  abbrev pub AsAccurate : Update (Position Q) → Update (Position Q) → Type 0
  AsAccurate u v = is_as_accurate v.value.accuracy.horizontal u.value.accuracy.horizontal ≡ true

  -- The time of an update lies in the bracket from `t` on.
  pub record Within (n : ℕ) (t : ℤ) (u : Update (Position Q)) : Type 0 where
    pub timely : IsTime u.when
    pub from : t ≤ℤ u.when
    pub to : u.when ≤ℤ t +ℤ bracket n

module _ {Q : Type 0} ⦃o : Compare Q⦄ (laws : IsNumeric Q) where
  pub as_accurate_refl : (a : Option Q) → is_as_accurate a a ≡ true
  unfolding is_as_accurate
  as_accurate_refl none = refl
  as_accurate_refl (some a) = laws.le_refl a

  as_accurate_trans :
      (a b c : Option Q)
      → is_as_accurate a b ≡ true
      → is_as_accurate b c ≡ true
      → is_as_accurate a c ≡ true
  unfolding is_as_accurate
  as_accurate_trans none b c h k = refl
  as_accurate_trans (some a) none c h k = cc
  as_accurate_trans (some a) (some b) none h k = cc
  as_accurate_trans (some a) (some b) (some c) h k = laws.le_trans c b a k h

  as_accurate_total : (a b : Option Q) → ¬ (is_as_accurate a b ≡ true) → is_as_accurate b a ≡ true
  unfolding is_as_accurate
  as_accurate_total none b h = absurd (h refl)
  as_accurate_total (some a) none h = refl
  as_accurate_total (some a) (some b) h = ground (arith, laws.le_total a b)

  -- The step: what is stored afterwards is as accurate as the update and as what was stored.
  verify_step :
      (n : ℕ) (t : ℤ) (p : Policy Q) (u : Update (Position Q))
      → InRange n p
      → Within n t p.last_position_update
      → Within n t u
      → let q = (verify_position p u).0 in
        InRange n q
        × Within n t q.last_position_update
        × AsAccurate q.last_position_update u
        × AsAccurate q.last_position_update p.last_position_update
  verify_step n t p u r w v = elim (verify_position_lem n p u r v.timely) [
    | inl (e, a) ↦ rw e (
      record { limit_is = r.limit_is; small = r.small; timely = v.timely },
      v,
      as_accurate_refl _,
      elim a.newer_or_accurate [ inl h ↦ absurd (omega (arith, +ℤ_parts)) | inr h ↦ h ],
    )
    | inr (e, a) ↦ rw e (
      r,
      w,
      as_accurate_total _ _
          (λ h. a (record { not_older = omega (arith, +ℤ_parts); newer_or_accurate = inr h })),
      as_accurate_refl _,
    )
  ]

  -- All updates of one bracket given to a policy with an update of that bracket: what it stores in
  -- the end is as accurate as each of them, and as what it stored at first.
  pub most_accurate :
      (n : ℕ) (t : ℤ) (p : Policy Q) (us : List (Update (Position Q)))
      → InRange n p
      → Within n t p.last_position_update
      → All (Within n t) us
      → let q = verify_all p us in
        All (AsAccurate q.last_position_update) (p.last_position_update ∷ us)
  unfolding verify_all
  most_accurate n t p [] r w h = (as_accurate_refl _, tt)
  most_accurate n t p (u ∷ us) r w h =
      let (r', w', new, old) = verify_step n t p u r w h.0 in
      let (final, rest) = most_accurate n t (verify_position p u).0 us r' w' h.1 in
      (as_accurate_trans _ _ _ old final, (as_accurate_trans _ _ _ new final, rest))
