-- ===== src/Measure.antt =====
-- What is measured: quantities, positions and updates (units.h, position.h, update.h, heading.h,
-- velocity.h). A quantity is a `double`: its type and the two tests that the program makes on it
-- are parameters.
use location_service.Base.{◌≡◌, Bool, true, false, not, Option, none, some, ◌⊎◌, ◌&&◌}
use location_service.Base.Int.{ℤ, eqb_ℤ}

-- `<`, `<=` and `==` on quantities.
pub record Compare (Q : Type 0) : Type 0 where
  pub lt : Q → Q → Bool
  pub le : Q → Q → Bool
  pub eq : Q → Q → Bool

-- What holds of them for numbers, infinities included (for a NaN it does not).
pub record IsNumeric (Q : Type 0) ⦃o : Compare Q⦄ : Type 0 where
  pub lt-le : (a b : Q) → o.lt a b ≡ not (o.le b a)
  pub le_refl : (a : Q) → o.le a a ≡ true
  pub le_trans : (a b c : Q) → o.le a b ≡ true → o.le b c ≡ true → o.le a c ≡ true
  pub le_total : (a b : Q) → (o.le a b ≡ true) ⊎ (o.le b a ≡ true)

-- `Position::Accuracy`
pub record Accuracy (Q : Type 0) : Type 0 where
  pub horizontal : Option Q
  pub vertical : Option Q

-- `Position`
pub record Position (Q : Type 0) : Type 0 where
  pub latitude : Q
  pub longitude : Q
  pub altitude : Option Q
  pub accuracy : Accuracy Q

-- `Update<T>`; `when` counts the nanoseconds since the epoch of the clock.
pub record Update (T : Type 0) : Type 0 where
  pub value : T
  pub when : ℤ

module _ {Q : Type 0} ⦃o : Compare Q⦄ where
  -- `==` of optional quantities
  unfoldable pub option_eq : Option Q → Option Q → Bool
  option_eq none none = true
  option_eq none (some b) = false
  option_eq (some a) none = false
  option_eq (some a) (some b) = o.eq a b

  -- `Position::operator==`
  unfoldable pub position_eq : Position Q → Position Q → Bool
  unfolding option_eq
  position_eq p q =
      o.eq p.latitude q.latitude
      && o.eq p.longitude q.longitude
      && option_eq p.altitude q.altitude
      && option_eq p.accuracy.horizontal q.accuracy.horizontal
      && option_eq p.accuracy.vertical q.accuracy.vertical

-- `Update<T>::operator==`, over the test on the values.
unfoldable pub update_eq : {T : Type 0} → (T → T → Bool) → Update T → Update T → Bool
update_eq value_eq u v = value_eq u.value v.value && eqb_ℤ u.when v.when
