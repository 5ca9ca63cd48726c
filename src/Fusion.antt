-- ===== src/Fusion.antt =====
-- fusion_provider.cpp, update_selector.h, newer_update_selector.h and
-- newer_or_more_accurate_update_selector.h: one provider made of several.
pub mod Accuracy
pub mod Forwarded
use location_service.Base.{
  ℕ, ◌==◌, Bool, true, false, Option, none, some, List, [], ◌∷◌, if◌then◌else◌,
}
use location_service.Base.Int.{ℤ, pos, ltb_ℤ, ◌+ℤ◌, wrap64}
use location_service.Measure.{Compare, Position, Update}

-- `WithSource<T>`; a source is known by its number.
pub record WithSource (T : Type 0) : Type 0 where
  pub source : ℕ
  pub value : T

-- 11 seconds in nanoseconds.
abbrev pub cutoff : ℤ
cutoff = pos 11000000000

module _ {Q : Type 0} ⦃o : Compare Q⦄ where
  -- The tests on accuracy at the end of `select`: `true` where the newer is taken.
  unfoldable pub prefer_newer : Option Q → Option Q → Bool
  prefer_newer none newer = true
  prefer_newer (some a) none = false
  prefer_newer (some a) (some b) = o.lt b a

  -- `NewerOrMoreAccurateUpdateSelector::select`
  unfoldable pub select :
      WithSource (Update (Position Q))
      → WithSource (Update (Position Q))
      → WithSource (Update (Position Q))
  unfolding ◌+ℤ◌ wrap64 prefer_newer
  select older newer =
      if newer.source == older.source
      then newer
      else if ltb_ℤ (wrap64 (older.value.when +ℤ cutoff)) newer.value.when
      then newer
      else if prefer_newer older.value.value.accuracy.horizontal
          newer.value.value.accuracy.horizontal
      then newer
      else older

  -- The slot for the positions of one of the providers: what is remembered is also what is emitted.
  unfoldable pub on_position :
      Option (WithSource (Update (Position Q)))
      → WithSource (Update (Position Q))
      → WithSource (Update (Position Q))
  unfolding select
  on_position none u = u
  on_position (some last_position) u = select last_position u

  -- What is remembered after the positions of a list.
  unfoldable pub run :
      Option (WithSource (Update (Position Q)))
      → List (WithSource (Update (Position Q)))
      → Option (WithSource (Update (Position Q)))
  unfolding on_position
  run last [] = last
  run last (u ∷ us) = run (some (on_position last u)) us
