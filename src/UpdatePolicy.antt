-- ===== src/UpdatePolicy.antt =====
-- update_policy.h, time_based_update_policy.h and time_based_update_policy.cpp: which update the
-- engine takes for the current one. A policy is locked by one mutex for each kind of update, so
-- calls for one kind run one after another, which is the order of the lists here.
pub mod Bracket
pub mod Accuracy
pub mod Indeterminate
use location_service.Base.{
  ℕ, suc, ◌*◌, ◌+◌, ◌-◌, Bool, true, false, ◌&&◌, ◌||◌, not, Option, none, some, if◌then◌else◌,
}
use location_service.Base.Int.{ℤ, pos, negsuc, ltb_ℤ, ◌-ℤ◌, wrap64}
use location_service.Measure.{Compare, Position, Update}

-- Minutes as nanoseconds: the common type in which `std::chrono` compares a duration with a limit.
unfoldable pub minutes_ns : ℤ → ℤ
minutes_ns (pos n) = wrap64 (pos (60_000_000_000 * n))
minutes_ns (negsuc n) = wrap64 (negsuc (60_000_000_000 * suc n - 1))

-- `-1 * limit`
unfoldable pub negate : ℤ → ℤ
negate i = pos 0 -ℤ i

module _ {T : Type 0} where
  unfoldable pub is_significantly_newer : Update T → Update T → ℤ → Bool
  is_significantly_newer last_update update limit =
      let delta = wrap64 (update.when -ℤ last_update.when) in ltb_ℤ (minutes_ns limit) delta

  unfoldable pub is_significantly_older : Update T → Update T → ℤ → Bool
  is_significantly_older last_update update limit =
      let delta = wrap64 (update.when -ℤ last_update.when) in
      ltb_ℤ delta (minutes_ns (negate limit))

abbrev pub default_timeout : ℤ
default_timeout = pos 2

-- `TimeBasedUpdatePolicy`; a heading and a velocity are quantities.
pub record Policy (Q : Type 0) : Type 0 where
  pub last_position_update : Update (Position Q)
  pub last_heading_update : Update Q
  pub last_velocity_update : Update Q
  pub limit : ℤ

module _ {Q : Type 0} ⦃o : Compare Q⦄ where
  -- Whether an update that is neither newer nor older is as accurate.
  unfoldable pub is_as_accurate : Option Q → Option Q → Bool
  is_as_accurate none new = true
  is_as_accurate (some a) none = false
  is_as_accurate (some a) (some b) = o.le b a

  -- The local variable of that name in `verify_update` for positions.
  unfoldable pub use_new_update : Update (Position Q) → Update (Position Q) → ℤ → Bool
  unfolding is_as_accurate
  use_new_update last update limit =
      if is_significantly_newer last update limit
      then true
      else if is_significantly_older last update limit
      then false
      else is_as_accurate last.value.accuracy.horizontal update.value.accuracy.horizontal

  -- `verify_update` for positions: the policy after it, and the update that it returns.
  unfoldable pub verify_position : Policy Q → Update (Position Q) → Policy Q × Update (Position Q)
  verify_position p update =
      if use_new_update p.last_position_update update p.limit
      then (record p { last_position_update = update }, update)
      else (p, p.last_position_update)

module _ {Q : Type 0} where
  -- `verify_update` for headings and velocities declares `bool use_new_update;` without a value:
  -- `indeterminate` is what the variable happens to hold.
  unfoldable pub verify_heading : Bool → Policy Q → Update Q → Policy Q × Update Q
  verify_heading indeterminate p update =
      let last = p.last_heading_update in
      let use_new_update =
        if is_significantly_newer last update p.limit
        then true
        else if is_significantly_older last update p.limit
        then false
        else indeterminate in
      if use_new_update then (record p { last_heading_update = update }, update) else (p, last)

  unfoldable pub verify_velocity : Bool → Policy Q → Update Q → Policy Q × Update Q
  verify_velocity indeterminate p update =
      let last = p.last_velocity_update in
      let use_new_update =
        if is_significantly_newer last update p.limit
        then true
        else if is_significantly_older last update p.limit
        then false
        else indeterminate in
      if use_new_update then (record p { last_velocity_update = update }, update) else (p, last)
