-- ===== src/UpdatePolicy/Indeterminate.antt =====
-- Headings and velocities within the bracket.
use location_service.Base.{ℕ, ◌≡◌, ◌∙◌, true, false, arith}
use location_service.Base.Int.{pos, ◌≤ℤ◌, ◌+ℤ◌, +ℤ_parts}
use location_service.Measure.{Update}
use location_service.UpdatePolicy.{
  Policy, is_significantly_newer, is_significantly_older, verify_heading, verify_velocity,
}
use location_service.UpdatePolicy.Bracket.{IsTime, IsLimit, bracket, newer_lem, older_lem}

module _ {Q : Type 0} where
  -- Two updates at most the limit apart, at times and a limit for which the arithmetic is exact.
  pub record IsClose (n : ℕ) (last u : Update Q) : Type 0 where
    pub last_timely : IsTime last.when
    pub timely : IsTime u.when
    pub small : IsLimit n
    pub not_newer : u.when ≤ℤ last.when +ℤ bracket n
    pub not_older : last.when ≤ℤ u.when +ℤ bracket n

  IsClose-tests :
      (n : ℕ) (last u : Update Q)
      → IsClose n last u
      → (is_significantly_newer last u (pos n) ≡ false)
        × (is_significantly_older last u (pos n) ≡ false)
  IsClose-tests n last u h = (
    newer_lem last u n h.last_timely h.timely h.small
        ∙ ground (arith, +ℤ_parts last.when (bracket n)),
    older_lem last u n h.last_timely h.timely h.small ∙ ground (arith, +ℤ_parts u.when (bracket n)),
  )

  -- For an update that is at most the limit newer or older than the last heading and velocity, the
  -- policy's answer is decided by a variable that nothing has set: with one content it takes the
  -- update, with the other it keeps the last one.
  verify_indeterminate :
      (n : ℕ) (p : Policy Q) (u : Update Q)
      → p.limit ≡ pos n
      → IsClose n p.last_heading_update u
      → IsClose n p.last_velocity_update u
      → ((verify_heading true p u).1 ≡ u)
        × ((verify_heading false p u).1 ≡ p.last_heading_update)
        × ((verify_velocity true p u).1 ≡ u)
        × ((verify_velocity false p u).1 ≡ p.last_velocity_update)
  unfolding verify_heading verify_velocity
  verify_indeterminate n p u e h v =
      let (hn, ho) = IsClose-tests n p.last_heading_update u h in
      let (vn, vo) = IsClose-tests n p.last_velocity_update u v in
      (rw (e, hn, ho), rw (e, hn, ho), rw (e, vn, vo), rw (e, vn, vo))
