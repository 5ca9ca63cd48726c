-- ===== src/Sntp/Flags.antt =====
-- What the writers of the first byte do to each of its fields.
use Prim.Native.Nat.{bit_or}
use location_service.Base.{
  ℕ, zero, suc, ◌<◌, ◌%◌, sym, true-ne-false, ◌==◌, ==_iff, ◌≡◌, refl, Bool, true, false, ◌&&◌,
  arith,
}
use location_service.Sntp.{
  leap_indicator, version, mode, set_leap_indicator, set_version, set_mode, request_flags,
}

-- Whether each number that is less than `limit` passes the test.
every : (limit : ℕ) (test : ℕ → Bool) → Bool
every zero test = true
every (suc limit) test = let lower = every limit test in lower && test limit

passes :
    (test : ℕ → Bool) (byte limit : ℕ) → byte < limit → every limit test ≡ true → test byte ≡ true
unfolding every
passes test byte zero lt e = absurd (omega arith)
passes test byte (suc limit) lt e = let lower = passes test byte limit in ground arith

-- The three fields of the byte `after` are `l`, `v` and `m`.
has_fields : ℕ → ℕ → ℕ → ℕ → Bool
has_fields after l v m = leap_indicator after == l && (version after == v && mode after == m)

-- The byte of a request, against the byte before it.
requests : ℕ → Bool
unfolding has_fields
requests w =
    has_fields (request_flags w) (leap_indicator w) (bit_or (version w) 3) (bit_or (mode w) 3)

-- Each writer ors its value into its own field, and keeps the two others.
writes : ℕ → ℕ → Bool
unfolding has_fields
writes w x =
    has_fields (set_version x w) (leap_indicator w) (bit_or (version w) x) (mode w)
    && (has_fields (set_mode x w) (leap_indicator w) (version w) (bit_or (mode w) x)
        && has_fields (set_leap_indicator (x % 4) w) (bit_or (leap_indicator w) (x % 4)) (version w)
            (mode w))

written : every 256 (λ w. every 8 (λ x. writes w x)) ≡ true
unfolding every writes has_fields set_version set_mode set_leap_indicator
written = refl

requested : every 256 requests ≡ true
unfolding every requests has_fields request_flags set_version set_mode
requested = refl

and_split : {a b : Bool} → a && b ≡ true → a ≡ true × b ≡ true
and_split {a = true} h = (refl, h)
and_split {a = false} h = absurd (true-ne-false (sym h))

-- What the three fields of a byte are.
abbrev pub Fields : ℕ → ℕ → ℕ → ℕ → Type 0
Fields byte l v m = leap_indicator byte ≡ l × version byte ≡ v × mode byte ≡ m

has_fields-Fields : (byte l v m : ℕ) → has_fields byte l v m ≡ true → Fields byte l v m
unfolding has_fields
has_fields-Fields byte l v m h =
    let (a, r) = and_split h in
    let (b, c) = and_split r in ((==_iff _ _).0 a, (==_iff _ _).0 b, (==_iff _ _).0 c)

-- Each writer of the first byte ors its value into its own field and keeps the two others, whatever the
-- byte held; so a field reads back as it was written exactly where its old bits are among the new.
pub writers_lem :
    (byte x : ℕ)
    → byte < 256
    → x < 8
    → Fields (set_version x byte) (leap_indicator byte) (bit_or (version byte) x) (mode byte)
      × Fields (set_mode x byte) (leap_indicator byte) (version byte) (bit_or (mode byte) x)
      × Fields
          (set_leap_indicator (x % 4) byte)
          (bit_or (leap_indicator byte) (x % 4))
          (version byte)
          (mode byte)
unfolding writes
writers_lem byte x hb hx =
    let all = passes (writes byte) x 8 hx (passes (λ w. every 8 (writes w)) byte 256 hb written) in
    let (a, r) = and_split all in
    let (b, c) = and_split r in
    (has_fields-Fields _ _ _ _ a, has_fields-Fields _ _ _ _ b, has_fields-Fields _ _ _ _ c)

-- The request that the client sends has its own version and mode only where the memory of the packet, which
-- nothing has set, allows: they are ored into what the byte held, and the leap indicator is what it held.
pub request_flags_lem :
    (byte : ℕ)
    → byte < 256
    → Fields
        (request_flags byte)
        (leap_indicator byte)
        (bit_or (version byte) 3)
        (bit_or (mode byte) 3)
unfolding requests
request_flags_lem byte h = has_fields-Fields _ _ _ _ (passes requests byte 256 h requested)
