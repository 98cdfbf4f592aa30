-- ===== src/Tests/ClientRuns.antt =====
-- internal/anilibria on small inputs.
use anilibria_torznab.Prelude.{
  ℕ, ◌≤◌, ◌≡◌, refl, true, false, Option, none, some, [], ◌∷◌, ◌==◌, if◌then◌else◌,
}
use anilibria_torznab.Text.{Bytes, codes, parse_int, parse_uint, trim_space}
use anilibria_torznab.Anilibria.Retry.{classify_status, parse_retry_after, seconds_delay}
use anilibria_torznab.Anilibria.Limiter.{Limiter, starts}
use anilibria_torznab.Anilibria.Limiter.Spacing.{IsSpaced, starts-IsSpaced}
use anilibria_torznab.Anilibria.GetJson.{
  Exchange, answered, unanswered, Decoded, decoded, undecodable, Client, acquire, read_body,
  attempt, deliver, retry_or_fail, judge, pass, get_json_loop, wait_for_retry, get_json, fetched,
  maximum_attempts, is_success,
}
use anilibria_torznab.Anilibria.GetJson
use anilibria_torznab.Anilibria.GetJson.Trace.{
  attempts, counted, is_balanced, get_json-attempts, get_json-is_balanced,
}
use anilibria_torznab.Anilibria.GetJson.Delivery.{Delivers, get_json-Delivers}

abbrev busy : ℕ
busy = 503

abbrev no_date : Bytes → Option ℕ
no_date s = none

abbrev limiter : Limiter
limiter = record { interval = 10; next = 5 }

starts-IsSpaced_example : IsSpaced limiter.interval (starts (3 ∷ 5 ∷ 9 ∷ 15 ∷ 40 ∷ []) limiter)
starts-IsSpaced_example = starts-IsSpaced (3 ∷ 5 ∷ 9 ∷ 15 ∷ 40 ∷ []) limiter

-- A 503 first, then a response that decodes to its first byte.
abbrev first_byte : Bytes → Decoded ℕ
first_byte [] = undecodable
first_byte (c ∷ s) = decoded c

abbrev client : Client ℕ
client = record { maximum_response_bytes = 4; parse_time = no_date; decode = first_byte }

abbrev exchange_of : ℕ → Exchange
exchange_of n =
    if n == 1
    then answered 503 (codes "1") none false
    else answered 200 [] (some (codes "ab")) false

abbrev rounds : ℕ → GetJson.Round
rounds n = record {
  acquiring = record { done = false; selected = true; done_after = false };
  start = some n;
  exchange = exchange_of n;
  done = false;
  done_decoded = false;
  now = n;
  jitter = λ m. 0;
  deadline = none;
  waits_at = n;
  interrupted = false;
}

get_json-attempts_example :
    (attempts (get_json client rounds).0 ≤ maximum_attempts)
    × (counted (attempts (get_json client rounds).0) (get_json client rounds).1 ≡ true)
get_json-attempts_example = get_json-attempts client rounds

get_json-is_balanced_example : is_balanced false (get_json client rounds).0 ≡ true
get_json-is_balanced_example = get_json-is_balanced client rounds

get_json-Delivers_example :
    (k : ℕ) × (1 ≤ k) × (k ≤ maximum_attempts) × Delivers client (rounds k).exchange b'a'
unfolding get_json get_json_loop wait_for_retry pass acquire attempt read_body is_success judge
    deliver retry_or_fail classify_status parse_retry_after parse_int parse_uint trim_space
    seconds_delay
get_json-Delivers_example = get_json-Delivers client rounds b'a' refl
