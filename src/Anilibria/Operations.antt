-- ===== src/Anilibria/Operations.antt =====
-- The operations of internal/anilibria/client.go: what they ask of the API, and how they decode what
-- `getJSON` has received.
pub mod Decoding
pub mod Results
use anilibria_torznab.Prelude.{
  ℕ, zero, suc, ◌+◌, ◌||◌, Bool, true, false, not, Option, none, some, List, [], ◌∷◌, ◌++◌, length,
  take, ◌==◌, if◌then◌else◌,
}
use anilibria_torznab.Text.{Bytes, codes, is_empty, trim_space, show}
use anilibria_torznab.Service.Processing.{Torrent}
use anilibria_torznab.Anilibria.Retry.{invalid_response}
use anilibria_torznab.Anilibria.Models.{RawTorrent, Parsers, positive_integer, valid_torrents}
use anilibria_torznab.Anilibria.GetJson.{
  Event, Decoded, decoded, undecodable, cut_short, Fetched, failed, Round, Client, get_json,
}

abbrev pub latest_limit : ℕ
latest_limit = 50

-- `torrentInclude`
abbrev pub torrent_include : Bytes
torrent_include =
    codes
      "hash,size,label,magnet,seeders,leechers,completed_times,updated_at,release.id,release.type.value,release.year,release.name.main,release.alias"

-- What is left of a body behind its first JSON value: nothing, or another value, or no JSON
pub data Trailing : Type 0 where
  end_of_input more broken_input : Trailing

-- `Decode` of encoding/json into the types of the package, with the bytes that it leaves; `none` is its
-- error. A release id is the text of its number, and `data` of an envelope is its JSON.
pub record Decoders : Type 0 where
  pub release_ids : Bytes → Option (List Bytes × Bytes)
  pub torrents : Bytes → Option (List RawTorrent × Bytes)
  pub torrent : Bytes → Option (RawTorrent × Bytes)
  pub envelope : Bytes → Option (Bytes × Bytes)
  pub trailing : Bytes → Trailing

-- What the context is as a body is decoded: whether it is done at a read of `contextReader`, for the
-- first and for a second call of `decodeJSON`, and before the i-th item
pub record Reading : Type 0 where
  pub done : Bool
  pub done_again : Bool
  pub done_at : ℕ → Bool

unfoldable pub and_then : {A B : Type 0} → Decoded A → (A → Decoded B) → Decoded B
and_then (decoded a) f = f a
and_then undecodable f = undecodable
and_then cut_short f = cut_short

-- `decodeJSON`
unfoldable pub decode_json :
    {A : Type 0} → Decoders → (Bytes → Option (A × Bytes)) → Bool → Bytes → Decoded A
decode_json d first done body = if done then cut_short else elim (first body) [
  | none ↦ undecodable
  | some (value, rest) ↦ elim (d.trailing rest) [
    | end_of_input ↦ decoded value
    | more ↦ undecodable
    | broken_input ↦ undecodable
  ]
]

unfoldable pub starts_with : ℕ → Bytes → Bool
starts_with c [] = false
starts_with c (x ∷ rest) = x == c

-- The loop over the ids of `SearchReleases`
unfoldable pub release_ids : Parsers → (ℕ → Bool) → ℕ → List Bytes → Decoded (List ℕ)
release_ids parsers done i [] = decoded []
release_ids parsers done i (raw ∷ raws) =
    let rest = release_ids parsers done (suc i) raws in
    if done i then cut_short else elim (positive_integer parsers raw) [
      | none ↦ undecodable
      | some id ↦ and_then rest (λ ids. decoded (id ∷ ids))
    ]

-- The callback of `SearchReleases`
unfoldable pub decode_search : Decoders → Parsers → Reading → Bytes → Decoded (List ℕ)
decode_search d parsers r body =
    let trimmed = trim_space body in
    if is_empty trimmed || not (starts_with b'[' trimmed)
    then undecodable
    else and_then (decode_json d d.release_ids r.done trimmed)
        (λ raws. release_ids parsers r.done_at 0 raws)

-- `decodeTorrentCollection`
unfoldable pub decode_torrent_collection : Decoders → Reading → Bytes → Decoded (List RawTorrent)
decode_torrent_collection d r body =
    let trimmed = trim_space body in
    if is_empty trimmed
    then undecodable
    else if starts_with b'[' trimmed
    then decode_json d d.torrents r.done trimmed
    else if starts_with b'{' trimmed
    then and_then (decode_json d d.torrent r.done trimmed) (λ raw. decoded (raw ∷ []))
    else undecodable

-- The torrents that `validTorrents` returns, or the error of the context
unfoldable pub accepted : Option (List Torrent) → Decoded (List Torrent)
accepted none = cut_short
accepted (some torrents) = decoded torrents

unfoldable pub accept_torrents : Parsers → Reading → ℕ → List RawTorrent → Decoded (List Torrent)
accept_torrents parsers r expected raws =
    accepted (valid_torrents parsers r.done_at expected 0 raws).1

-- The callback of `TorrentsByRelease`
unfoldable pub decode_torrents : Decoders → Parsers → Reading → ℕ → Bytes → Decoded (List Torrent)
decode_torrents d parsers r id body =
    and_then (decode_torrent_collection d r body) (accept_torrents parsers r id)

-- The callback of `Latest`
unfoldable pub decode_latest : Decoders → Parsers → Reading → Bytes → Decoded (List Torrent)
decode_latest d parsers r body = and_then (decode_json d d.envelope r.done body) (λ items.
    let trimmed = trim_space items in
    if is_empty trimmed || not (starts_with b'[' trimmed)
    then undecodable
    else and_then (decode_json d d.torrents r.done_again trimmed)
        (λ raws. accept_torrents parsers r 0 (take latest_limit raws)))

-- A request: the path below the base URL and the query
pub record Endpoint : Type 0 where
  pub path : Bytes
  pub parameters : List (Bytes × Bytes)

unfoldable pub search_endpoint : Bytes → Endpoint
search_endpoint query = record {
  path = codes "app/search/releases";
  parameters = (codes "query", query) ∷ (codes "include", codes "id") ∷ [];
}

unfoldable pub torrents_endpoint : ℕ → Endpoint
torrents_endpoint id = record {
  path = codes "anime/torrents/release/" ++ show id;
  parameters = (codes "include", torrent_include) ∷ [];
}

abbrev pub latest_endpoint : Endpoint
latest_endpoint = record {
  path = codes "anime/torrents";
  parameters = (codes "limit", codes "50") ∷ (codes "include", torrent_include) ∷ [];
}

-- The API: what comes of a request in the attempts for it, and how the client reads it. The round of an
-- attempt tells how the context goes, also as the body is decoded.
pub record Upstream : Type 0 where
  pub rounds : Endpoint → ℕ → Round
  pub reading : Endpoint → Reading
  pub decoders : Decoders
  pub parsers : Parsers
  pub maximum_response_bytes : ℕ
  pub parse_time : Bytes → Option ℕ

module _ (u : Upstream) where
  unfoldable pub client_of : {A : Type 0} → (Bytes → Decoded A) → Client A
  client_of decode = record {
    maximum_response_bytes = u.maximum_response_bytes;
    parse_time = u.parse_time;
    decode = decode;
  }

  unfoldable pub fetch :
      {A : Type 0} → Endpoint → (Reading → Bytes → Decoded A) → List Event × Fetched A
  fetch e decode = get_json (client_of (decode (u.reading e))) (u.rounds e)

  -- `SearchReleases`; the error of a blank query has no status and no attempt.
  unfoldable pub search_releases : Bytes → List Event × Fetched (List ℕ)
  search_releases query =
      if is_empty (trim_space query)
      then ([], failed invalid_response 0 0)
      else fetch (search_endpoint query) (decode_search u.decoders u.parsers)

  -- `TorrentsByRelease`
  unfoldable pub torrents_by_release : ℕ → List Event × Fetched (List Torrent)
  torrents_by_release id =
      if id == 0
      then ([], failed invalid_response 0 0)
      else fetch (torrents_endpoint id) (λ r. decode_torrents u.decoders u.parsers r id)

  -- `Latest`
  unfoldable pub latest : List Event × Fetched (List Torrent)
  latest = fetch latest_endpoint (decode_latest u.decoders u.parsers)
