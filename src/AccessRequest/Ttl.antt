-- ===== src/AccessRequest/Ttl.antt =====
-- The time to live of an AccessRequest: `hasExpiredTTL` and the time until the next check.
use openmcp_operator.Prelude.{
  ℕ, ℤ, pos, negsuc, ◌+◌, ◌-◌, ◌≤◌, ◌<◌, Option, none, some, Bool, true, false, ◌≡◌, arith, ltb,
  sub_ℕ, add_ℕ, above, minus, is_some, if◌then◌else◌,
}
use openmcp_operator.Api.Requests.{AccessRequest}

-- `time.Time{}`, the first of January of the year 1.
abbrev pub zero_time : ℤ
zero_time = negsuc 62135596799999999999

unfoldable pub has_expired_ttl : Option AccessRequest → ℕ → Bool × ℤ
has_expired_ttl none now = (false, zero_time)
has_expired_ttl (some ar) now = elim ar.ttl [
  | none ↦ (false, zero_time)
  | some ttl ↦
      let expiration_time = add_ℕ ar.creation_timestamp ttl in
      (above now expiration_time, expiration_time)
]

-- `hasTTL` of the event filter, for an AccessRequest.
unfoldable pub has_ttl : AccessRequest → Bool
has_ttl ar = if is_some ar.deletion_timestamp then false else is_some ar.ttl

-- A duration is a 64-bit integer, at whose bounds a difference of times stays.
unfoldable pub saturate : ℤ → ℤ
saturate (pos n) = if ltb n 9223372036854775808 then pos n else pos 9223372036854775807
saturate (negsuc n) = if ltb n 9223372036854775808 then negsuc n else negsuc 9223372036854775807

-- The sum of a duration and a second, which wraps around.
unfoldable pub plus_second : ℤ → ℤ
plus_second (pos n) =
    if ltb (n + 1000000000) 9223372036854775808
    then pos (n + 1000000000)
    else sub_ℕ (n + 1000000000) 18446744073709551616
plus_second (negsuc n) = add_ℕ 1000000000 (negsuc n)

-- `time.Until(expirationTime) + time.Second`.
unfoldable pub requeue_time : ℤ → ℕ → ℤ
unfolding saturate plus_second
requeue_time expiration_time now = plus_second (saturate (minus expiration_time now))

-- A request that is not expired yet when the clock is read for its next check, and expires in less
-- than the longest duration but a second, is checked again after a time that is not negative, and
-- at that time and later it is expired.
pub requeue_expires :
    (ar : AccessRequest) (ttl : ℤ) (e later : ℕ)
    → ar.ttl ≡ some ttl
    → add_ℕ ar.creation_timestamp ttl ≡ pos e
    → later ≤ e
    → e < later + 9223372035854775807
    → (d : ℕ) × (requeue_time (pos e) later ≡ pos d)
      × ((n : ℕ) → later + d ≤ n → (has_expired_ttl (some ar) n).0 ≡ true)
unfolding has_expired_ttl requeue_time saturate plus_second
requeue_expires ar ttl e later et ee le fits =
    (e - later + 1000000000, ground (arith, le, fits), λ n h. ground (arith, et, ee, h, le))
