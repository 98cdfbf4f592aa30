-- ===== src/Anilibria/GetJson.antt =====
-- `getJSON` of internal/anilibria/client.go with its attempts, the concurrency gate and the retries.
-- What the code does to the world is a list of events; what the world answers in attempt n is a `Round`.
pub mod Trace
pub mod Delivery
use anilibria_torznab.Prelude.{
  ℕ, zero, suc, ◌+◌, ◌-◌, Bool, true, false, ◌&&◌, ◌||◌, not, Option, none, some, List, [], ◌∷◌,
  ◌++◌, take, length, ltb, leb, ◌==◌, if◌then◌else◌,
}
use anilibria_torznab.Text.{Bytes}
use anilibria_torznab.Anilibria.Retry.{
  ErrorClass, rate_limited, temporary, permanent, unexpected, invalid_response, transport, canceled,
  classify_status, backoff, parse_retry_after,
}

abbrev pub maximum_attempts : ℕ
maximum_attempts = 3

-- A slot of the gate taken and given back, an HTTP attempt, a call of `waitForRetry` with its delay.
pub data Event : Type 0 where
  took gave attempted : Event
  slept : ℕ → Event

-- `acquire`: whether the context is done at first, which case the select takes, and whether the
-- context is done after it
pub record Acquiring : Type 0 where
  pub done : Bool
  pub selected : Bool
  pub done_after : Bool

unfoldable pub acquire : Acquiring → List Event × Bool
acquire a =
    if a.done
    then ([], false)
    else if a.selected
    then if a.done_after then (took ∷ gave ∷ [], false) else (took ∷ [], true)
    else ([], false)

-- What the HTTP client answers: no response, or the status, the Retry-After header, the bytes of the
-- body (`none`: reading them fails) and whether the context of the attempt ends as it is read.
pub data Exchange : Type 0 where
  unanswered : Exchange
  answered : ℕ → Bytes → Option Bytes → Bool → Exchange

-- The results of `attempt`; `too_large` is `errResponseTooLarge`.
pub data Attempted : Type 0 where
  received : ℕ → Bytes → Bytes → Attempted
  too_large : ℕ → Attempted
  broken : Attempted

unfoldable pub is_success : ℕ → Bool
is_success status = leb 200 status && leb status 299

-- The end of `attempt`, on a response with status 2xx. The maximum is below 2 ^ 63 - 1, as `LoadFrom` accepts
-- at most 64 MiB, so that `c.maxResponseBytes+1` does not wrap around.
unfoldable pub read_body : ℕ → ℕ → Option Bytes → Bool → Attempted
read_body maximum status none ended = broken
read_body maximum status (some stream) ended =
    let body = take (maximum + 1) stream in
    if ltb maximum (length body)
    then too_large status
    else if ended
    then broken
    else received status [] body

unfoldable pub attempt : ℕ → Exchange → Attempted
attempt maximum unanswered = broken
attempt maximum (answered status retry_after stream ended) =
    if is_success status
    then read_body maximum status stream ended
    else received status retry_after []

-- What the `decode` callback returns: a value, an error of its own, or the error of the context.
pub data Decoded (A : Type 0) : Type 0 where
  decoded : A → Decoded A
  undecodable : Decoded A
  cut_short : Decoded A

-- The end of `getJSON`: the value, or the class, status and attempts of `newError`; `panicked` is the
-- panic after the loop.
pub data Fetched (A : Type 0) : Type 0 where
  fetched : A → Fetched A
  failed : ErrorClass → ℕ → ℕ → Fetched A
  panicked : Fetched A

-- The answers in one pass of the loop: `start` is the result of the limiter's `wait`, the Booleans
-- say whether the context is done after the attempt, after the decoding and in the wait. `deadline`
-- is that of the context, the effective one of a shared load, when the wait is to begin at `waits_at`.
pub record Round : Type 0 where
  pub acquiring : Acquiring
  pub start : Option ℕ
  pub exchange : Exchange
  pub done : Bool
  pub done_decoded : Bool
  pub now : ℕ
  pub jitter : ℕ → ℕ
  pub deadline : Option ℕ
  pub waits_at : ℕ
  pub interrupted : Bool

-- `Client` with the callback: `parse_time` is `http.ParseTime`.
pub record Client (A : Type 0) : Type 0 where
  pub maximum_response_bytes : ℕ
  pub parse_time : Bytes → Option ℕ
  pub decode : Bytes → Decoded A

-- How a pass ends: with a result, or with the status of a response and the delay before the next attempt
pub data Next (A : Type 0) : Type 0 where
  stop : Fetched A → Next A
  again : ℕ → ℕ → Next A

-- A 2xx response
unfoldable pub deliver : {A : Type 0} → Client A → ℕ → Round → ℕ → Bytes → Next A
deliver client n r status body =
    if r.done_decoded then stop (failed canceled status n) else elim (client.decode body) [
      | decoded a ↦ stop (fetched a)
      | undecodable ↦ stop (failed invalid_response status n)
      | cut_short ↦ stop (failed canceled status n)
    ]

-- Any other response
unfoldable pub retry_or_fail : {A : Type 0} → Client A → ℕ → Round → ℕ → Bytes → Next A
retry_or_fail client n r status retry_after =
    let (class, retry) = classify_status status in
    if not retry || n == maximum_attempts
    then stop (failed class status n)
    else elim (parse_retry_after client.parse_time retry_after r.now) [
      | some delay ↦ again status delay
      | none ↦ again status (backoff r.jitter n)
    ]

-- After `attempt`
unfoldable pub judge : {A : Type 0} → Client A → ℕ → Round → Attempted → Next A
judge client n r (too_large status) = stop (failed invalid_response status n)
judge client n r broken = stop (failed (if r.done then canceled else transport) 0 n)
judge client n r (received status retry_after body) =
    if r.done
    then stop (failed canceled status n)
    else if is_success status
    then deliver client n r status body
    else retry_or_fail client n r status retry_after

-- One pass: its events, then how it ends
unfoldable pub pass : {A : Type 0} → Client A → ℕ → Round → List Event × Next A
pass client n r =
    let (events, entered) = acquire r.acquiring in
    if not entered then (events, stop (failed canceled 0 (n - 1))) else elim r.start [
      | none ↦ (events ++ gave ∷ [], stop (failed canceled 0 (n - 1)))
      | some time ↦ (
        events ++ attempted ∷ gave ∷ [],
        judge client n r (attempt client.maximum_response_bytes r.exchange),
      )
    ]

-- `waitForRetry`: whether it returns an error. It does at once where the deadline comes before the end
-- of the delay.
unfoldable pub wait_for_retry : Round → ℕ → Bool
wait_for_retry r delay = elim r.deadline [
  | none ↦ r.interrupted
  | some deadline ↦ if ltb deadline (r.waits_at + delay) then true else r.interrupted
]

-- The loop, with the number of passes left and the number of the next attempt
unfoldable pub get_json_loop :
    {A : Type 0} → Client A → (ℕ → Round) → ℕ → ℕ → List Event × Fetched A
get_json_loop client rounds zero n = ([], panicked)
get_json_loop client rounds (suc left) n =
    let (events, next) = pass client n (rounds n) in
    let (later, end) = get_json_loop client rounds left (suc n) in
    elim next [
      | stop result ↦ (events, result)
      | again status delay ↦
          if wait_for_retry (rounds n) delay
          then (events ++ slept delay ∷ [], failed canceled status n)
          else (events ++ slept delay ∷ later, end)
    ]

unfoldable pub get_json : {A : Type 0} → Client A → (ℕ → Round) → List Event × Fetched A
get_json client rounds = get_json_loop client rounds maximum_attempts 1
