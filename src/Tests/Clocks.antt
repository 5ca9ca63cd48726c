-- ===== src/Tests/Clocks.antt =====
-- Times.
use location_service.Base.{ℕ, ◌*◌, ◌/◌, ◌^◌, ◌≡◌, arith}
use location_service.Base.Int.{pos, ◌-ℤ◌}
use location_service.Sntp.{from_milliseconds_since_epoch, to_milliseconds_since_epoch}
use location_service.Sntp.Timestamps.{to-from_milliseconds_wraps}

-- The first of January 2040.
abbrev in_2040 : ℕ
in_2040 = 2208988800500

to-from_milliseconds_wraps_example :
    to_milliseconds_since_epoch (from_milliseconds_since_epoch (pos in_2040))
    ≡ pos (1000 * (in_2040 / 1000)) -ℤ pos (1000 * 2 ^ 32)
to-from_milliseconds_wraps_example = to-from_milliseconds_wraps in_2040 (omega arith) (omega arith)
