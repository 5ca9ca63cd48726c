-- ===== src/Fusion/Accuracy.antt =====
-- What a fused position is worth beside the one that was reported last.
use location_service.Base.{
  if-of, ◌≡◌, ◌≢◌, ◌⊎◌, inl, inr, subst, ◌==◌, refl, true, false, Option, none, some, arith,
}
use location_service.Base.Int.{ℤ, ltb_ℤ, +ℤ_parts, ◌+ℤ◌, ◌≤ℤ◌, Fits64, wrap64, wrap64_lem}
use location_service.Measure.{Compare, IsNumeric, Position, Update}
use location_service.UpdatePolicy.{is_as_accurate}
use location_service.UpdatePolicy.Accuracy.{as_accurate_refl}
use location_service.Fusion.{WithSource, cutoff, prefer_newer, select}

not_less : (i j : ℤ) → ltb_ℤ i j ≡ false → j ≤ℤ i
not_less i j h = ground arith

-- `chosen` is as accurate as `newer`, at most 11 seconds older, and one of the two.
abbrev pub IsGoodChoice :
    {Q : Type 0} ⦃o : Compare Q⦄
    → WithSource (Update (Position Q))
    → WithSource (Update (Position Q))
    → WithSource (Update (Position Q))
    → Type 0
IsGoodChoice older newer chosen =
    (is_as_accurate newer.value.value.accuracy.horizontal chosen.value.value.accuracy.horizontal
      ≡ true)
    × (newer.value.when ≤ℤ chosen.value.when +ℤ cutoff)
    × ((chosen ≡ newer) ⊎ ((chosen ≡ older) × (newer.source ≢ older.source)))

module _ {Q : Type 0} ⦃o : Compare Q⦄ (laws : IsNumeric Q) where
  kept-as_accurate :
      (old new : Option Q) → prefer_newer old new ≡ false → is_as_accurate new old ≡ true
  unfolding prefer_newer is_as_accurate
  kept-as_accurate none new h = ground arith
  kept-as_accurate (some a) none h = refl
  kept-as_accurate (some a) (some b) h = ground (arith, laws.lt-le b a)

  in_cutoff : (i : ℤ) → i ≤ℤ i +ℤ cutoff
  in_cutoff i = omega (arith, +ℤ_parts i cutoff)

  -- Where the older position's time plus 11 seconds is in the range of the clock and accuracies are ordered
  -- as numbers are: what the selector chooses is never less accurate than the newer position (no accuracy
  -- at all is the worst), and the newer position is never more than 11 seconds newer than it. It
  -- is the older one only where the two are of different sources.
  pub select_lem :
      (older newer : WithSource (Update (Position Q)))
      → Fits64 (older.value.when +ℤ cutoff)
      → IsGoodChoice older newer (select older newer)
  unfolding select
  select_lem older newer h =
      if-of (IsGoodChoice older newer) (newer.source == older.source) newer _ (λ _. newer_good)
        (λ other.
          if-of (IsGoodChoice older newer)
            (ltb_ℤ (wrap64 (older.value.when +ℤ cutoff)) newer.value.when) newer _ (λ _. newer_good)
            (λ recent.
              if-of (IsGoodChoice older newer)
                (prefer_newer older.value.value.accuracy.horizontal
                  newer.value.value.accuracy.horizontal)
                newer older (λ _. newer_good)
                (λ kept.
                  (kept-as_accurate _ _ kept, within recent, inr (refl, λ q. ground arith)))))
    where
      newer_good : IsGoodChoice older newer newer
      newer_good = (as_accurate_refl laws _, in_cutoff newer.value.when, inl refl)

      within :
          ltb_ℤ (wrap64 (older.value.when +ℤ cutoff)) newer.value.when ≡ false
          → newer.value.when ≤ℤ older.value.when +ℤ cutoff
      within r = not_less (older.value.when +ℤ cutoff) newer.value.when (
          subst (λ i. ltb_ℤ i newer.value.when ≡ false) (wrap64_lem (older.value.when +ℤ cutoff) h)
            r)
