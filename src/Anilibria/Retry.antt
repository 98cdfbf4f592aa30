-- ===== src/Anilibria/Retry.antt =====
-- When and how long internal/anilibria/client.go waits before it tries again. Durations are counted in
-- nanoseconds; one that is never negative is a natural number.
pub mod Delays
use anilibria_torznab.Prelude.{
  ℕ, zero, suc, ◌+◌, ◌-◌, ◌*◌, ◌/◌, ◌^◌, min, Bool, true, false, ◌&&◌, ◌||◌, Option, none, some,
  List, [], ◌∷◌, ℤ, pos, negsuc, leb, ltb, ◌==◌, if◌then◌else◌,
}
use anilibria_torznab.Text.{Bytes, all_bytes, is_digit, is_empty, trim_space, parse_int}

-- `ErrorClass` of errors.go
pub data ErrorClass : Type 0 where
  rate_limited temporary permanent unexpected invalid_response transport canceled : ErrorClass

abbrev pub second : ℕ
second = 1_000_000_000

-- `time.Duration(1<<63 - 1)`
abbrev pub maximum_duration : ℕ
maximum_duration = 2 ^ 63 - 1

abbrev pub backoff_base : ℕ
backoff_base = 250_000_000

abbrev pub backoff_maximum : ℕ
backoff_maximum = 5 * second

-- `classifyStatus`: the class, and whether to try again
unfoldable pub classify_status : ℕ → ErrorClass × Bool
classify_status status =
    if status == 429
    then (rate_limited, true)
    else if status == 500 || status == 502 || status == 503 || status == 504
    then (temporary, true)
    else if leb 400 status && leb status 499
    then (permanent, false)
    else (unexpected, false)

-- `backoff`: `jitter n` is `time.Duration(randomFloat() * float64(n))`
unfoldable pub backoff : (ℕ → ℕ) → ℕ → ℕ
backoff jitter attempt =
    let shifted = backoff_base * 2 ^ (attempt - 1) in
    let ceiling = if ltb backoff_maximum shifted then backoff_maximum else shifted in
    let floor = ceiling / 2 in floor + jitter (ceiling - floor)

-- `negativeDecimal`
unfoldable pub negative_decimal : Bytes → Bool
negative_decimal [] = false
negative_decimal (c ∷ []) = false
negative_decimal (c ∷ d ∷ s) = c == b'-' && all_bytes is_digit (d ∷ s)

-- `parseRetryAfter` on a number of seconds
unfoldable pub seconds_delay : ℤ → ℕ
seconds_delay (negsuc n) = 0
seconds_delay (pos n) =
    if n == 0 then 0 else if ltb (maximum_duration / second) n then maximum_duration else n * second

-- `date.Sub(now)`, and 0 where it is negative
unfoldable pub until : ℕ → ℕ → ℕ
until now date = min maximum_duration (date - now)

-- `parseRetryAfter`; `parse_time` is `http.ParseTime`, `none` is an invalid value.
unfoldable pub parse_retry_after : (Bytes → Option ℕ) → Bytes → ℕ → Option ℕ
parse_retry_after parse_time raw now =
    let value = trim_space raw in
    elim (parse_int value) [
      | some seconds ↦ some (seconds_delay seconds)
      | none ↦
          if negative_decimal value
          then some 0
          else elim (parse_time value) [ none ↦ none | some date ↦ some (until now date) ]
    ]
