-- ===== src/Sntp.antt =====
-- providers/gps/sntp_client.h and sntp_client.cpp: the wire format of SNTP, and the conversion of its
-- timestamps. Bytes and words are natural numbers;
-- what is stored in w bits is taken modulo 2 ^ w, a shift is a multiplication or a division, and a mask of
-- ones is a remainder. `boost::endian` stores its numbers in the order of the wire.
pub mod Flags
pub mod Timestamps
use Prim.Native.Nat.{bit_or}
use location_service.Base.{ℕ, suc, ◌+◌, ◌-◌, ◌*◌, ◌/◌, ◌%◌, ◌^◌}
use location_service.Base.Int.{ℤ, pos, negsuc, ◌+ℤ◌, ◌-ℤ◌}

-- `Packet::LeapIndicatorVersionMode`: the byte `livm`, its three readers and its three writers. A writer
-- ors its field into the byte.
abbrev pub leap_indicator : ℕ → ℕ
leap_indicator livm = livm / 2 ^ 6 % 4

abbrev pub version : ℕ → ℕ
version livm = livm / 2 ^ 3 % 8

abbrev pub mode : ℕ → ℕ
mode livm = livm % 8

unfoldable pub set_leap_indicator : ℕ → ℕ → ℕ
set_leap_indicator li livm = bit_or livm (li * 2 ^ 6) % 2 ^ 8

unfoldable pub set_version : ℕ → ℕ → ℕ
set_version v livm = bit_or livm (v * 2 ^ 3) % 2 ^ 8

unfoldable pub set_mode : ℕ → ℕ → ℕ
set_mode m livm = bit_or m livm % 2 ^ 8

-- What `Client::request` writes into the first byte of the packet that it sends: `Mode::client` and the
-- constant `version`. The argument is what the byte held.
unfoldable pub request_flags : ℕ → ℕ
unfolding set_version set_mode
request_flags livm = set_version 3 (set_mode 3 livm)

-- Seconds from 1900 to 1970: 70 years of which 17 had a leap day.
abbrev pub offset_1900_to_1970 : ℕ
offset_1900_to_1970 = (365 * 70 + 17) * 24 * 60 * 60

-- `Timestamp<big_uint32_buf_t>`
pub record Timestamp : Type 0 where
  pub seconds : ℕ
  pub fractional_seconds : ℕ

-- Division of an `int64_t` by a positive number goes towards 0, and its remainder has its sign.
unfoldable pub quotient : ℤ → ℕ → ℤ
quotient (pos n) d = pos (n / d)
quotient (negsuc n) d = pos 0 -ℤ pos (suc n / d)

-- An `int64_t` that is stored in 32 bits.
unfoldable pub low_32 : ℤ → ℕ
low_32 (pos n) = n % 2 ^ 32
low_32 (negsuc n) = 2 ^ 32 - 1 - n % 2 ^ 32

abbrev pub max_32 : ℕ
max_32 = 2 ^ 32 - 1

-- A number of milliseconds times `max_32`, whose type is `int64_t` here.
unfoldable pub scale : ℕ → ℤ → ℤ
scale k (pos n) = pos (k * n)
scale k (negsuc n) = pos 0 -ℤ pos (k * suc n)

-- `from_milliseconds_since_epoch`; `1 / 1000` is 0.
unfoldable pub from_milliseconds_since_epoch : ℤ → Timestamp
unfolding quotient low_32 scale ◌+ℤ◌ ◌-ℤ◌
from_milliseconds_since_epoch ts =
    let secs = quotient ts 1000 in
    let msecs = ts -ℤ scale 1000 secs in
    record {
      seconds = low_32 (secs +ℤ pos offset_1900_to_1970);
      fractional_seconds = low_32 (scale max_32 msecs +ℤ pos (1 / 1000));
    }

-- `to_milliseconds_since_epoch`: the product is one of `uint32_t`.
unfoldable pub to_milliseconds_since_epoch : Timestamp → ℤ
unfolding scale ◌+ℤ◌ ◌-ℤ◌
to_milliseconds_since_epoch t =
    scale 1000 (pos t.seconds -ℤ pos offset_1900_to_1970)
    +ℤ pos (t.fractional_seconds * 1000 % 2 ^ 32 / max_32)
