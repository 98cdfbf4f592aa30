-- ===== src/Anilibria/GetJson/Delivery.antt =====
-- Where the value of `getJSON` comes from.
use anilibria_torznab.Prelude.{
  ℕ, zero, suc, ◌+◌, ◌≤◌, ◌<◌, ◌≡◌, refl, sym, inl, inr, Bool, true, false, none, some, length,
  length-take, take_of_length-le, Bool-cases, arith,
}
use anilibria_torznab.Text.{Bytes}
use anilibria_torznab.Anilibria.GetJson.Trace.{Next-cases}
use anilibria_torznab.Anilibria.GetJson.{
  acquire, Exchange, unanswered, answered, Attempted, received, too_large, broken, read_body,
  attempt, decoded, fetched, Round, Client, stop, deliver, retry_or_fail, judge, pass,
  get_json_loop, get_json, maximum_attempts, is_success,
}

-- The answer is a response with status 2xx and a complete body within the limit, which decodes to the
-- value.
unfoldable pub Delivers : {A : Type 0} → Client A → Exchange → A → Type 0
Delivers client unanswered a = ⊥
Delivers client (answered status retry_after none ended) a = ⊥
Delivers client (answered status retry_after (some body) ended) a =
    (200 ≤ status)
    × (status ≤ 299)
    × (length body ≤ client.maximum_response_bytes)
    × (ended ≡ false)
    × (client.decode body ≡ decoded a)

read_body-received :
    (maximum status : ℕ) (stream : Bytes) (ended : Bool) {status' : ℕ} {retry_after body : Bytes}
    → read_body maximum status (some stream) ended ≡ received status' retry_after body
    → (length stream ≤ maximum) × (ended ≡ false) × (body ≡ stream) × (status' ≡ status)
unfolding read_body
read_body-received maximum status stream ended h =
    ground (arith, length-take (maximum + 1) stream, take_of_length-le (maximum + 1) stream)

judge-fetched :
    {A : Type 0} (client : Client A) (n : ℕ) (r : Round) (a : Attempted) (value : A)
    → judge client n r a ≡ stop (fetched value)
    → (status : ℕ) × (retry_after : Bytes) × (body : Bytes) × (a ≡ received status retry_after body)
      × (is_success status ≡ true)
      × (client.decode body ≡ decoded value)
unfolding judge deliver retry_or_fail
judge-fetched client n r (too_large status) value h = absurd (ground arith)
judge-fetched client n r broken value h = absurd (ground arith)
judge-fetched client n r (received status retry_after body) value h =
    (status, retry_after, body, refl, ground arith, ground arith)

attempt-received_body :
    {A : Type 0} (client : Client A) (s : ℕ) (ra stream : Bytes) (ended : Bool) (value : A)
    (status : ℕ) (retry_after body : Bytes)
    → attempt client.maximum_response_bytes (answered s ra (some stream) ended)
      ≡ received status retry_after body
    → is_success status ≡ true
    → client.decode body ≡ decoded value
    → Delivers client (answered s ra (some stream) ended) value
unfolding attempt is_success Delivers
attempt-received_body client s ra stream ended value status retry_after body h ok d =
    elim (Bool-cases (is_success s)) [
      | inl e ↦
          let (fits, ended_no, same, _) =
            read_body-received client.maximum_response_bytes s stream ended {status' = status}
              {retry_after = retry_after} {body = body} (ground arith) in
          (ground arith, ground arith, fits, ended_no, rw (sym same) d)
      | inr e ↦ absurd (ground arith)
    ]

attempt-received :
    {A : Type 0} (client : Client A) (e : Exchange) (value : A) (status : ℕ)
    (retry_after body : Bytes)
    → attempt client.maximum_response_bytes e ≡ received status retry_after body
    → is_success status ≡ true
    → client.decode body ≡ decoded value
    → Delivers client e value
unfolding attempt read_body is_success Delivers
attempt-received client unanswered value status retry_after body h ok d = absurd (ground arith)
attempt-received client (answered s ra none ended) value status retry_after body h ok d =
    absurd (ground arith)
attempt-received client (answered s ra (some stream) ended) value status retry_after body h ok d =
    attempt-received_body client s ra stream ended value status retry_after body h ok d

pass-fetched :
    {A : Type 0} (client : Client A) (n : ℕ) (r : Round) (value : A)
    → (pass client n r).1 ≡ stop (fetched value)
    → Delivers client r.exchange value
unfolding pass acquire
pass-fetched client n r value h =
    let judged : judge client n r (attempt client.maximum_response_bytes r.exchange)
        ≡ stop (fetched value) =
      ground arith in
    let (status, retry_after, body, e, ok, d) =
      judge-fetched client n r (attempt client.maximum_response_bytes r.exchange) value judged in
    attempt-received client r.exchange value status retry_after body e ok d

loop-fetched :
    {A : Type 0} (client : Client A) (rounds : ℕ → Round) (left n : ℕ) (value : A)
    → (get_json_loop client rounds left n).1 ≡ fetched value
    → (k : ℕ) × (n ≤ k) × (k < n + left) × Delivers client (rounds k).exchange value
unfolding get_json_loop
loop-fetched client rounds zero n value h = absurd (ground arith)
loop-fetched client rounds (suc left) n value h = elim (Next-cases (pass client n (rounds n)).1) [
  | inl (result, e) ↦
      let e' = pass-fetched client n (rounds n) value (ground arith) in
      (n, omega arith, omega arith, e')
  | inr (status, delay, e) ↦
      let (k, low, high, d) = loop-fetched client rounds left (suc n) value (ground arith) in
      (k, omega arith, omega arith, d)
]

-- A value that is returned was decoded from the complete body, within the limit, of a response with
-- status 2xx to one of the three attempts.
pub get_json-Delivers :
    {A : Type 0} (client : Client A) (rounds : ℕ → Round) (value : A)
    → (get_json client rounds).1 ≡ fetched value
    → (k : ℕ) × (1 ≤ k) × (k ≤ maximum_attempts) × Delivers client (rounds k).exchange value
unfolding get_json
get_json-Delivers client rounds value h =
    let (k, low, high, d) = loop-fetched client rounds maximum_attempts 1 value h in
    (k, low, omega arith, d)
