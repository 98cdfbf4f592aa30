-- ===== src/Anilibria/Operations/Results.antt =====
-- What the operations of the client return.
use anilibria_torznab.Prelude.{
  if◌then◌else◌, ℕ, ◌≤◌, ◌≡◌, subst, inl, inr, Bool-cases, false, Option, none, some, List, length,
  All, ◌==◌, arith,
}
use anilibria_torznab.Text.{Bytes, is_empty, trim_space}
use anilibria_torznab.Service.Processing.{Torrent}
use anilibria_torznab.Anilibria.Models.Soundness.{IsOf}
use anilibria_torznab.Anilibria.GetJson.{
  maximum_attempts, Exchange, unanswered, answered, Decoded, fetched, Client,
}
use anilibria_torznab.Anilibria.GetJson.Delivery.{Delivers, get_json-Delivers}
use anilibria_torznab.Anilibria.Operations.{
  latest_limit, Reading, decode_search, decode_torrents, decode_latest, Endpoint, search_endpoint,
  torrents_endpoint, latest_endpoint, Upstream, client_of, fetch, search_releases,
  torrents_by_release, latest,
}
use anilibria_torznab.Anilibria.Operations.Decoding.{
  Decodes, FromSearch, decode_search-FromSearch, FromCollection, decode_torrents-FromCollection,
  FromLatest, decode_latest-FromLatest,
}

-- The body of a response that has come in full
abbrev pub body_of : Exchange → Option Bytes
body_of unanswered = none
body_of (answered status retry_after body ended) = if ended then none else body

-- One of the attempts for a request has had a body that gives the value.
abbrev pub InResponse : {A : Type 0} → Upstream → Endpoint → (Bytes → A → Type 0) → A → Type 0
InResponse u e P value =
    (n : ℕ) × (body : Bytes) × (1 ≤ n)
    × (n ≤ maximum_attempts)
    × (body_of (u.rounds e n).exchange ≡ some body)
    × P body value

Delivers-Decodes :
    {A : Type 0} (P : Bytes → A → Type 0) (client : Client A) (e : Exchange) (value : A)
    → ((body : Bytes) → Decodes (P body) (client.decode body))
    → Delivers client e value
    → (body : Bytes) × (body_of e ≡ some body) × P body value
unfolding Delivers
Delivers-Decodes P client unanswered value k h = absurd h
Delivers-Decodes P client (answered s ra none ended) value k h = absurd h
Delivers-Decodes P client (answered s ra (some body) ended) value k h =
    (body, let whole = h.3 in ground arith, subst (Decodes (P body)) h.4 (k body))

fetch-InResponse :
    {A : Type 0} (P : Bytes → A → Type 0) (u : Upstream) (e : Endpoint)
    (decode : Reading → Bytes → Decoded A) (value : A)
    → ((body : Bytes) → Decodes (P body) (decode (u.reading e) body))
    → (fetch u e decode).1 ≡ fetched value
    → InResponse u e P value
unfolding fetch client_of
fetch-InResponse P u e decode value k h =
    let client = client_of u (decode (u.reading e)) in
    let (n, low, high, delivered) = get_json-Delivers client (u.rounds e) value h in
    let (body, whole, p) = Delivers-Decodes P client (u.rounds e n).exchange value k delivered in
    (n, body, low, high, whole, p)

-- A search that returns had a query that is not blank. Its ids are the numbers that the decoder finds in
-- the whole body of a response to one of at most three attempts, in its order, and every one is above
-- zero.
pub search_releases-ids :
    (u : Upstream) (query : Bytes) (ids : List ℕ)
    → (search_releases u query).1 ≡ fetched ids
    → (is_empty (trim_space query) ≡ false)
      × InResponse u (search_endpoint query) (FromSearch u.decoders u.parsers) ids
unfolding search_releases
search_releases-ids u query ids h = elim (Bool-cases (is_empty (trim_space query))) [
  | inl blank ↦ absurd (ground arith)
  | inr text ↦ (
    text,
    fetch-InResponse (FromSearch u.decoders u.parsers) u (search_endpoint query)
        (decode_search u.decoders u.parsers) ids
        (λ body.
          decode_search-FromSearch u.decoders u.parsers (u.reading (search_endpoint query)) body)
        (ground arith),
  )
]

-- The torrents of a release that are returned are sound and of that release, whose number is above zero;
-- the decoder has found as many or more in the whole body of a response.
pub torrents_by_release-IsOf :
    (u : Upstream) (id : ℕ) (ts : List Torrent)
    → (torrents_by_release u id).1 ≡ fetched ts
    → (1 ≤ id) × InResponse u (torrents_endpoint id) (FromCollection u.decoders id) ts
unfolding torrents_by_release
torrents_by_release-IsOf u id ts h = elim (Bool-cases (id == 0)) [
  | inl zero_id ↦ absurd (ground arith)
  | inr some_id ↦ (
    ground arith,
    fetch-InResponse (FromCollection u.decoders id) u (torrents_endpoint id)
        (λ r. decode_torrents u.decoders u.parsers r id) ts
        (λ body.
          decode_torrents-FromCollection u.decoders u.parsers (u.reading (torrents_endpoint id)) id
            body)
        (ground arith),
  )
]

-- The latest torrents that are returned are sound, and 50 at most, however many the response has.
pub latest-IsOf :
    (u : Upstream) (ts : List Torrent)
    → (latest u).1 ≡ fetched ts
    → All (IsOf 0) ts × (length ts ≤ latest_limit)
unfolding latest
latest-IsOf u ts h =
    let (n, body, low, high, whole, found) =
      fetch-InResponse (λ body. FromLatest) u latest_endpoint (decode_latest u.decoders u.parsers)
        ts (λ body. decode_latest-FromLatest u.decoders u.parsers (u.reading latest_endpoint) body)
        h in
    found
