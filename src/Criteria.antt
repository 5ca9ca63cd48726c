-- ===== src/Criteria.antt =====
-- criteria.h and criteria.cpp: what a client requires of the measurements, whether one set of
-- criteria satisfies another, and how two are merged.
pub mod Merge
use location_service.Base.{
  Bool, true, false, ◌&&◌, ◌||◌, Option, none, some, if◌then◌else◌, is_some,
}
use location_service.Measure.{Compare}

-- `Criteria::Requires`
pub record Requires : Type 0 where
  pub position : Bool
  pub altitude : Bool
  pub velocity : Bool
  pub heading : Bool

-- `Criteria::Accuracy`
pub record Accuracy (Q : Type 0) : Type 0 where
  pub horizontal : Q
  pub vertical : Option Q
  pub velocity : Option Q
  pub heading : Option Q

pub record Criteria (Q : Type 0) : Type 0 where
  pub requires : Requires
  pub accuracy : Accuracy Q

-- `if (guard) result &= value;`
abbrev pub and_if : Bool → Bool → Bool → Bool
and_if guard value result = if guard then result && value else result

module _ {Q : Type 0} ⦃o : Compare Q⦄ where
  -- `a && a <= b` for optional quantities; only asked for where `b` has a value.
  abbrev pub at_most : Option Q → Option Q → Bool
  at_most (some a) (some b) = o.le a b
  at_most _ _ = false

  -- `Criteria::satisfies`
  unfoldable pub satisfies : Criteria Q → Criteria Q → Bool
  satisfies this rhs =
      let r0 = false in
      let r1 = and_if rhs.requires.position this.requires.position r0 in
      let r2 = and_if rhs.requires.altitude this.requires.altitude r1 in
      let r3 = and_if rhs.requires.heading this.requires.heading r2 in
      let r4 = and_if rhs.requires.velocity this.requires.velocity r3 in
      let r5 = r4 && o.le this.accuracy.horizontal rhs.accuracy.horizontal in
      let r6 =
        and_if (is_some rhs.accuracy.vertical)
          (at_most this.accuracy.vertical rhs.accuracy.vertical) r5 in
      let r7 =
        and_if (is_some rhs.accuracy.heading) (at_most this.accuracy.heading rhs.accuracy.heading)
          r6 in
      and_if (is_some rhs.accuracy.velocity) (at_most this.accuracy.velocity rhs.accuracy.velocity)
        r7

  -- How one optional accuracy is merged: the same statement for vertical, velocity and heading.
  unfoldable pub add_optional : Option Q → Option Q → Option Q
  add_optional none rhs = rhs
  add_optional (some a) none = some a
  add_optional (some a) (some b) = if o.lt b a then some b else some a

  -- `operator+`
  unfoldable pub add : Criteria Q → Criteria Q → Criteria Q
  unfolding add_optional
  add lhs rhs = record {
    requires = record {
      position = lhs.requires.position || rhs.requires.position;
      altitude = lhs.requires.altitude || rhs.requires.altitude;
      velocity = lhs.requires.velocity || rhs.requires.velocity;
      heading = lhs.requires.heading || rhs.requires.heading;
    };
    accuracy = record {
      horizontal =
          if o.lt rhs.accuracy.horizontal lhs.accuracy.horizontal
          then rhs.accuracy.horizontal
          else lhs.accuracy.horizontal;
      vertical = add_optional lhs.accuracy.vertical rhs.accuracy.vertical;
      velocity = add_optional lhs.accuracy.velocity rhs.accuracy.velocity;
      heading = add_optional lhs.accuracy.heading rhs.accuracy.heading;
    };
  }
