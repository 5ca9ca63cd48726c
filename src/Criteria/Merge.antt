-- ===== src/Criteria/Merge.antt =====
-- The merged criteria against what "satisfies" is said to mean in criteria.h.
use location_service.Base.{
  ◌≡◌, true, false, Option, none, some, arith, Bool-cases, inl, inr, if◌then◌else◌,
}
use location_service.Measure.{Compare, IsNumeric}
use location_service.Criteria.{Criteria, satisfies, add, add_optional}

module _ {Q : Type 0} ⦃o : Compare Q⦄ where
  -- An accuracy that was asked for is met by one that is as small.
  abbrev pub Within : Option Q → Option Q → Type 0
  Within a none = Unit {0}
  Within none (some b) = ⊥
  Within (some a) (some b) = o.le a b ≡ true

  -- Whoever provides for `c` provides for `r`: what `r` requires `c` requires, and `c` is as strict.
  pub record Meets (c r : Criteria Q) : Type 0 where
    pub position : r.requires.position ≡ true → c.requires.position ≡ true
    pub altitude : r.requires.altitude ≡ true → c.requires.altitude ≡ true
    pub velocity : r.requires.velocity ≡ true → c.requires.velocity ≡ true
    pub heading : r.requires.heading ≡ true → c.requires.heading ≡ true
    pub horizontal : o.le c.accuracy.horizontal r.accuracy.horizontal ≡ true
    pub vertical_accuracy : Within c.accuracy.vertical r.accuracy.vertical
    pub velocity_accuracy : Within c.accuracy.velocity r.accuracy.velocity
    pub heading_accuracy : Within c.accuracy.heading r.accuracy.heading

  -- `satisfies` answers false for all criteria, those that meet one another included.
  satisfies-eq-false : (c r : Criteria Q) → satisfies c r ≡ false
  unfolding satisfies
  satisfies-eq-false c r = ground arith

module _ {Q : Type 0} ⦃o : Compare Q⦄ (laws : IsNumeric Q) where
  min_lt_left : (a b : Q) → o.le (if◌then◌else◌ (o.lt b a) b a) a ≡ true
  min_lt_left a b = ground (arith, laws.lt-le b a, laws.le_refl a, laws.le_total a b)

  min_lt_right : (a b : Q) → o.le (if◌then◌else◌ (o.lt b a) b a) b ≡ true
  min_lt_right a b = ground (arith, laws.lt-le b a, laws.le_refl b, laws.le_total a b)

  add_optional-Within_left : (a b : Option Q) → Within (add_optional a b) a
  unfolding add_optional
  add_optional-Within_left none b = tt
  add_optional-Within_left (some a) none = laws.le_refl a
  add_optional-Within_left (some a) (some b) =
      ground (arith, laws.lt-le b a, laws.le_refl a, laws.le_total a b)

  add_optional-Within_right : (a b : Option Q) → Within (add_optional a b) b
  unfolding add_optional
  add_optional-Within_right none none = tt
  add_optional-Within_right none (some b) = laws.le_refl b
  add_optional-Within_right (some a) none = tt
  add_optional-Within_right (some a) (some b) =
      ground (arith, laws.lt-le b a, laws.le_refl b, laws.le_total a b)

  add_optional-least : (c a b : Option Q) → Within c a → Within c b → Within c (add_optional a b)
  unfolding add_optional
  add_optional-least c none b h k = k
  add_optional-least c (some a) none h k = h
  add_optional-least c (some a) (some b) h k = elim (Bool-cases (o.lt b a)) [
    | inl e ↦ rw e k
    | inr e ↦ rw e h
  ]

  -- Criteria that are merged meet both of their parts, for numeric quantities.
  pub add-Meets : (a b : Criteria Q) → Meets (add a b) a × Meets (add a b) b
  unfolding add
  add-Meets a b = (
    record {
      position = λ h. ground arith;
      altitude = λ h. ground arith;
      velocity = λ h. ground arith;
      heading = λ h. ground arith;
      horizontal = min_lt_left a.accuracy.horizontal b.accuracy.horizontal;
      vertical_accuracy = add_optional-Within_left a.accuracy.vertical b.accuracy.vertical;
      velocity_accuracy = add_optional-Within_left a.accuracy.velocity b.accuracy.velocity;
      heading_accuracy = add_optional-Within_left a.accuracy.heading b.accuracy.heading;
    },
    record {
      position = λ h. ground arith;
      altitude = λ h. ground arith;
      velocity = λ h. ground arith;
      heading = λ h. ground arith;
      horizontal = min_lt_right a.accuracy.horizontal b.accuracy.horizontal;
      vertical_accuracy = add_optional-Within_right a.accuracy.vertical b.accuracy.vertical;
      velocity_accuracy = add_optional-Within_right a.accuracy.velocity b.accuracy.velocity;
      heading_accuracy = add_optional-Within_right a.accuracy.heading b.accuracy.heading;
    },
  )

  -- The merge is the weakest such criteria: whatever meets both parts meets it.
  add-least : (c a b : Criteria Q) → Meets c a → Meets c b → Meets c (add a b)
  unfolding add
  add-least c a b h k = record {
    position = λ e. ground arith;
    altitude = λ e. ground arith;
    velocity = λ e. ground arith;
    heading = λ e. ground arith;
    horizontal = ground arith;
    vertical_accuracy =
        add_optional-least c.accuracy.vertical a.accuracy.vertical b.accuracy.vertical
          h.vertical_accuracy k.vertical_accuracy;
    velocity_accuracy =
        add_optional-least c.accuracy.velocity a.accuracy.velocity b.accuracy.velocity
          h.velocity_accuracy k.velocity_accuracy;
    heading_accuracy =
        add_optional-least c.accuracy.heading a.accuracy.heading b.accuracy.heading
          h.heading_accuracy k.heading_accuracy;
  }
