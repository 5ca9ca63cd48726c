-- ===== src/Sntp/Timestamps.antt =====
-- What the conversions of the timestamps keep of a time.
use location_service.Base.{ℕ, ◌+◌, ◌*◌, ◌/◌, ◌%◌, ◌^◌, ◌≤◌, ◌<◌, ◌≡◌, ap, ◌∙◌, arith}
use location_service.Base.Int.{ℤ, pos, ◌+ℤ◌, ◌-ℤ◌}
use location_service.Sntp.{
  Timestamp, offset_1900_to_1970, quotient, low_32, max_32, scale, from_milliseconds_since_epoch,
  to_milliseconds_since_epoch,
}

-- A multiple of 1000 is even, and `max_32` is odd.
fraction_lost : (f : ℕ) → f * 1000 % 2 ^ 32 / max_32 ≡ 0
fraction_lost f = omega arith

plus_zero : (i : ℤ) → i +ℤ pos 0 ≡ i
unfolding ◌+ℤ◌
plus_zero i = ground arith

-- The fraction of a timestamp that was received is ignored: the time in milliseconds is that of the whole
-- seconds.
pub to_whole_seconds :
    (t : Timestamp)
    → to_milliseconds_since_epoch t ≡ scale 1000 (pos t.seconds -ℤ pos offset_1900_to_1970)
unfolding to_milliseconds_since_epoch
to_whole_seconds t =
    ap (λ f. scale 1000 (pos t.seconds -ℤ pos offset_1900_to_1970) +ℤ pos f)
      (fraction_lost t.fractional_seconds)
    ∙ plus_zero _

from_pos :
    (n : ℕ)
    → (from_milliseconds_since_epoch (pos n)).seconds ≡ (n / 1000 + offset_1900_to_1970) % 2 ^ 32
unfolding from_milliseconds_since_epoch quotient low_32 ◌+ℤ◌
from_pos n = ground arith

back_in_era :
    (s : ℕ)
    → s + offset_1900_to_1970 < 2 ^ 32
    → scale 1000 (pos ((s + offset_1900_to_1970) % 2 ^ 32) -ℤ pos offset_1900_to_1970)
      ≡ pos (1000 * s)
unfolding scale ◌-ℤ◌
back_in_era s h = ground arith

back_after_era :
    (s : ℕ)
    → 2 ^ 32 ≤ s + offset_1900_to_1970
    → s < 2 ^ 32
    → scale 1000 (pos ((s + offset_1900_to_1970) % 2 ^ 32) -ℤ pos offset_1900_to_1970)
      ≡ pos (1000 * s) -ℤ pos (1000 * 2 ^ 32)
unfolding scale ◌-ℤ◌
back_after_era s h k = ground arith

read_back :
    (n : ℕ)
    → to_milliseconds_since_epoch (from_milliseconds_since_epoch (pos n))
      ≡ scale 1000 (pos ((n / 1000 + offset_1900_to_1970) % 2 ^ 32) -ℤ pos offset_1900_to_1970)
read_back n =
    to_whole_seconds (from_milliseconds_since_epoch (pos n))
    ∙ ap (λ s. scale 1000 (pos s -ℤ pos offset_1900_to_1970)) (from_pos n)

-- A time until the end of NTP's era in February 2036 that is written into a timestamp is read back as its
-- whole seconds.
pub to-from_milliseconds :
    (n : ℕ)
    → n / 1000 + offset_1900_to_1970 < 2 ^ 32
    → to_milliseconds_since_epoch (from_milliseconds_since_epoch (pos n)) ≡ pos (1000 * (n / 1000))
to-from_milliseconds n h = read_back n ∙ back_in_era (n / 1000) h

-- A time after the end of NTP's era, until 2106, that is written into a timestamp is read back as a time
-- that is 2 ^ 32 seconds too early.
pub to-from_milliseconds_wraps :
    (n : ℕ)
    → 2 ^ 32 ≤ n / 1000 + offset_1900_to_1970
    → n / 1000 < 2 ^ 32
    → to_milliseconds_since_epoch (from_milliseconds_since_epoch (pos n))
      ≡ pos (1000 * (n / 1000)) -ℤ pos (1000 * 2 ^ 32)
to-from_milliseconds_wraps n h k = read_back n ∙ back_after_era (n / 1000) h k
