-- ===== src/UpdatePolicy/Bracket.antt =====
-- What the policy does with positions.
use location_service.Base.{
  ℕ, zero, suc, ◌-◌, ◌∙◌, ◌*◌, ◌≤◌, ◌^◌, ◌≡◌, ◌↔◌, ap, ◌⊎◌, inl, inr, Bool, true, false, arith,
  Bool-cases,
}
use location_service.Base.Int.{
  ℤ, pos, negsuc, ◌≤ℤ◌, ◌<ℤ◌, ◌+ℤ◌, ◌-ℤ◌, -ℤ_parts, +ℤ_parts, wrap64, wrap64_lem, eq_of_parts,
  ltb_ℤ,
}
use location_service.Measure.{Compare, Position, Update}
use location_service.UpdatePolicy.{
  Policy, minutes_ns, negate, is_significantly_newer, is_significantly_older, is_as_accurate,
  use_new_update, verify_position,
}

-- Times and limits for which the 64-bit arithmetic is exact: within 146 years of the clock's epoch,
-- and at most a million minutes.
abbrev pub IsTime : ℤ → Type 0
IsTime t = (negsuc (2 ^ 62 - 1) ≤ℤ t) × (t ≤ℤ pos (2 ^ 62 - 1))

abbrev pub IsLimit : ℕ → Type 0
IsLimit n = n ≤ 1_000_000

-- The limit in nanoseconds.
abbrev pub bracket : ℕ → ℤ
bracket n = pos (60_000_000_000 * n)

minutes_ns-pos : (n : ℕ) → IsLimit n → minutes_ns (pos n) ≡ bracket n
unfolding minutes_ns
minutes_ns-pos n h = wrap64_lem _ (omega arith)

negate-suc : (n : ℕ) → negate (pos (suc n)) ≡ negsuc n
unfolding negate ◌-ℤ◌
negate-suc n = ground arith

minutes_ns-negsuc : (n : ℕ) → IsLimit (suc n) → minutes_ns (negsuc n) ≡ pos 0 -ℤ bracket (suc n)
unfolding minutes_ns
minutes_ns-negsuc n h =
    wrap64_lem _ (omega arith, omega arith)
    ∙ eq_of_parts _ _ (omega (arith, -ℤ_parts (pos 0) (bracket (suc n))))

minutes_ns-negate : (n : ℕ) → IsLimit n → minutes_ns (negate (pos n)) ≡ pos 0 -ℤ bracket n
unfolding minutes_ns negate ◌-ℤ◌
minutes_ns-negate zero h = wrap64_lem _ (omega arith)
minutes_ns-negate (suc n) h = ap minutes_ns (negate-suc n) ∙ minutes_ns-negsuc n h

module _ {T : Type 0} (last u : Update T) (n : ℕ) where
  delta_lem : IsTime last.when → IsTime u.when → wrap64 (u.when -ℤ last.when) ≡ u.when -ℤ last.when
  delta_lem hl hu = wrap64_lem _ (omega (arith, -ℤ_parts), omega (arith, -ℤ_parts))

  pub newer_lem :
      IsTime last.when
      → IsTime u.when
      → IsLimit n
      → is_significantly_newer last u (pos n) ≡ ltb_ℤ (last.when +ℤ bracket n) u.when
  unfolding is_significantly_newer
  newer_lem hl hu hn =
      rw (delta_lem hl hu, minutes_ns-pos n hn)
        (ground (arith, -ℤ_parts u.when last.when, +ℤ_parts last.when (bracket n)))

  pub older_lem :
      IsTime last.when
      → IsTime u.when
      → IsLimit n
      → is_significantly_older last u (pos n) ≡ ltb_ℤ (u.when +ℤ bracket n) last.when
  unfolding is_significantly_older
  older_lem hl hu hn =
      rw (delta_lem hl hu, minutes_ns-negate n hn)
        (ground (
          arith,
          -ℤ_parts u.when last.when,
          -ℤ_parts (pos 0) (bracket n),
          +ℤ_parts u.when (bracket n),
        ))

-- What makes the policy take an update: it is newer than the bracket, or within the bracket and as
-- accurate as the last one.
module _ {Q : Type 0} ⦃o : Compare Q⦄ where
  pub record Accepts (n : ℕ) (last u : Update (Position Q)) : Type 0 where
    pub not_older : last.when ≤ℤ u.when +ℤ bracket n
    pub newer_or_accurate :
        (last.when +ℤ bracket n <ℤ u.when)
        ⊎ (is_as_accurate last.value.accuracy.horizontal u.value.accuracy.horizontal ≡ true)

  -- The policy's times and limit are those for which its arithmetic is exact.
  pub record InRange (n : ℕ) (p : Policy Q) : Type 0 where
    pub limit_is : p.limit ≡ pos n
    pub small : IsLimit n
    pub timely : IsTime p.last_position_update.when

  use_new_update-Accepts :
      (n : ℕ) (last u : Update (Position Q))
      → IsTime last.when
      → IsTime u.when
      → IsLimit n
      → (use_new_update last u (pos n) ≡ true) ↔ Accepts n last u
  unfolding use_new_update
  use_new_update-Accepts n last u hl hu hn = (
    λ h. ground (
      arith,
      newer_lem last u n hl hu hn,
      older_lem last u n hl hu hn,
      +ℤ_parts last.when (bracket n),
      +ℤ_parts u.when (bracket n),
    ),
    λ h. ground (
      arith,
      newer_lem last u n hl hu hn,
      older_lem last u n hl hu hn,
      +ℤ_parts last.when (bracket n),
      +ℤ_parts u.when (bracket n),
    ),
  )

  -- The policy returns what it stores; it stores the update if the update is newer than the bracket,
  -- or within it and as accurate as the last one, and keeps the last one otherwise. Times are within
  -- 2 ^ 62 nanoseconds of the epoch, and the limit is at most a million minutes.
  pub verify_position_lem :
      (n : ℕ) (p : Policy Q) (u : Update (Position Q))
      → InRange n p
      → IsTime u.when
      → ((verify_position p u ≡ (record p { last_position_update = u }, u))
          × Accepts n p.last_position_update u)
        ⊎ ((verify_position p u ≡ (p, p.last_position_update))
            × ¬ Accepts n p.last_position_update u)
  unfolding verify_position
  verify_position_lem n p u r t = elim (Bool-cases (use_new_update last u p.limit)) [
    | inl e ↦ inl (rw e, meaning.0 (rw r.limit_is at e))
    | inr e ↦ inr (rw e, λ a. not_both (meaning.1 a) (rw r.limit_is at e))
  ]
    where
      open p use {last_position_update as last}

      meaning : (use_new_update last u (pos n) ≡ true) ↔ Accepts n last u
      meaning = use_new_update-Accepts n last u r.timely t r.small

      not_both : {b : Bool} → b ≡ true → b ≡ false → ⊥
      not_both h k = cc
