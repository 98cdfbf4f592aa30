-- ===== src/Anilibria/Retry/Delays.antt =====
-- Bounds of the delays of internal/anilibria/client.go.
use anilibria_torznab.Prelude.{
  ℕ, ◌-◌, ◌*◌, ◌/◌, ◌^◌, min, ◌≤◌, ◌≡◌, refl, ap, ◌↔◌, ◌⊎◌, inl, inr, true, false, Option, some, ℤ,
  pos, negsuc, ltb, arith, if◌then◌else◌, Option-cases,
}
use anilibria_torznab.Text.{Bytes, parse_int, trim_space}
use anilibria_torznab.Anilibria.Retry.{
  rate_limited, permanent, second, maximum_duration, backoff_base, backoff_maximum, classify_status,
  backoff, seconds_delay, until, parse_retry_after,
}

-- Exactly the statuses 429, 500, 502, 503 and 504 are tried again; of these 429 alone counts as rate
-- limited. Of the others exactly 400 to 499 are permanent errors.
pub classify_status_lem :
    (status : ℕ)
    → (((classify_status status).1 ≡ true)
        ↔ ((status ≡ 429) ⊎ (status ≡ 500) ⊎ (status ≡ 502) ⊎ (status ≡ 503) ⊎ (status ≡ 504)))
      × (((classify_status status).0 ≡ rate_limited) ↔ (status ≡ 429))
      × (((classify_status status).0 ≡ permanent)
          ↔ ((400 ≤ status) × (status ≤ 499) × ((classify_status status).1 ≡ false)))
unfolding classify_status
classify_status_lem status = (
  (λ h. ground arith, λ h. ground arith),
  (λ h. ground arith, λ h. ground arith),
  (λ h. ground arith, λ h. ground arith),
)

capped : (a b : ℕ) → (if ltb a b then a else b) ≡ min a b
capped a b = ground arith

-- With a random factor below 1 the delay before the next attempt is between half of the ceiling and the
-- ceiling: that is 250 ms after the first attempt and twice as much after each further one, and never
-- more than five seconds.
pub backoff_bounds :
    (jitter : ℕ → ℕ) (attempt : ℕ)
    → ((n : ℕ) → jitter n ≤ n)
    → (min backoff_maximum (backoff_base * 2 ^ (attempt - 1)) / 2 ≤ backoff jitter attempt)
      × (backoff jitter attempt ≤ min backoff_maximum (backoff_base * 2 ^ (attempt - 1)))
unfolding backoff
backoff_bounds jitter attempt h =
    let shifted = backoff_base * 2 ^ (attempt - 1) in
    rw (capped backoff_maximum shifted)
      (let c = min backoff_maximum shifted in (omega arith, omega (arith, h (c - c / 2))))

seconds_delay-min : (n : ℕ) → seconds_delay (pos n) ≡ min maximum_duration (n * second)
unfolding seconds_delay
seconds_delay-min n = ground arith

seconds_delay-le : (z : ℤ) → seconds_delay z ≤ maximum_duration
unfolding seconds_delay
seconds_delay-le (pos n) = ground arith
seconds_delay-le (negsuc n) = omega arith

-- The part of an integer above zero.
abbrev pub positive_part : ℤ → ℕ
positive_part (pos n) = n
positive_part (negsuc n) = 0

seconds_delay-positive : (z : ℤ) → seconds_delay z ≡ min maximum_duration (positive_part z * second)
unfolding seconds_delay
seconds_delay-positive (pos n) = seconds_delay-min n
seconds_delay-positive (negsuc n) = refl

-- A `Retry-After` of a number of seconds is a delay of that length, or of the longest duration where
-- that is less; a negative number is no delay.
pub parse_retry_after_seconds :
    (parse_time : Bytes → Option ℕ) (raw : Bytes) (now : ℕ) (seconds : ℤ)
    → parse_int (trim_space raw) ≡ some seconds
    → parse_retry_after parse_time raw now
      ≡ some (min maximum_duration (positive_part seconds * second))
unfolding parse_retry_after
parse_retry_after_seconds parse_time raw now seconds h =
    rw (h, parse_retry_after) (ap some (seconds_delay-positive seconds))

-- A usable `Retry-After` never gives a delay beyond the longest duration.
pub parse_retry_after-le :
    (parse_time : Bytes → Option ℕ) (raw : Bytes) (now : ℕ) {delay : ℕ}
    → parse_retry_after parse_time raw now ≡ some delay
    → delay ≤ maximum_duration
unfolding parse_retry_after until
parse_retry_after-le parse_time raw now h = elim (Option-cases (parse_int (trim_space raw))) [
  | inl e ↦ ground arith
  | inr (z, e) ↦ ground (arith, seconds_delay-le z)
]
