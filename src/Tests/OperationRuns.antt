-- ===== src/Tests/OperationRuns.antt =====
-- The operations of internal/anilibria/client.go against an API with one release and one torrent.
use anilibria_torznab.Prelude.{ℕ, ◌≤◌, ◌≡◌, refl, true, false, none, some, [], ◌∷◌, length, All}
use anilibria_torznab.Text.{
  Bytes, codes, split, cut, equal_fold, folds, runes, valid_utf8, parse_int, parse_uint, is_empty,
  trim_space,
}
use anilibria_torznab.HttpApi.Query.{query_unescape, decode_field, parse_fields, parse_query}
use anilibria_torznab.Torznab.Category.{known}
use anilibria_torznab.Torznab.Feed.{is_xml10_rune, all_xml10, valid_xml10_string}
use anilibria_torznab.Anilibria.Models.{
  check, ensure, is_hex_digit, normalize_info_hash, natural_of, non_negative_integer,
  integer_valued_number, above_zero, positive_integer, optional_non_negative_integer, is_topic_of,
  has_topic, magnet_contains_info_hash, is_magnet_of, is_xml_text, validate_texts, validate_fields,
  validate_torrent, validate_release, valid_torrents,
}
use anilibria_torznab.Anilibria.Models.Soundness.{IsOf}
use anilibria_torznab.Anilibria.Retry.{classify_status}
use anilibria_torznab.Anilibria.GetJson.{
  answered, acquire, read_body, attempt, deliver, retry_or_fail, judge, pass, get_json_loop,
  wait_for_retry, get_json, fetched, is_success,
}
use anilibria_torznab.Anilibria.GetJson
use anilibria_torznab.Anilibria.Operations.{
  search_endpoint, torrents_endpoint, latest_limit, end_of_input, and_then, decode_json,
  starts_with, release_ids, decode_search, decode_torrent_collection, accepted, accept_torrents,
  decode_torrents, decode_latest, Upstream, client_of, fetch, search_releases, torrents_by_release,
  latest,
}
use anilibria_torznab.Anilibria.Operations.Results.{
  torrents_by_release-IsOf, latest-IsOf, InResponse, search_releases-ids,
}
use anilibria_torznab.Anilibria.Operations.Decoding.{FromSearch, FromCollection}
use anilibria_torznab.Tests.ModelRuns.{parsers, raw, torrent}

abbrev round : Bytes → ℕ → GetJson.Round
round body n = record {
  acquiring = record { done = false; selected = true; done_after = false };
  start = some n;
  exchange = answered 200 [] (some body) false;
  done = false;
  done_decoded = false;
  now = n;
  jitter = λ m. 0;
  deadline = none;
  waits_at = n;
  interrupted = false;
}

abbrev upstream : Upstream
upstream = record {
  rounds = λ e. round (codes "[7]");
  reading = λ e. record { done = false; done_again = false; done_at = λ i. false };
  decoders = record {
    release_ids = λ body. some (codes "7" ∷ [], []);
    torrents = λ body. some (raw (codes "10") ∷ raw (codes "-1") ∷ [], []);
    torrent = λ body. some (raw (codes "10"), []);
    envelope = λ body. some (codes "[7]", []);
    trailing = λ rest. end_of_input;
  };
  parsers = parsers;
  maximum_response_bytes = 10;
  parse_time = λ s. none;
}

search_releases-ids_example :
    (is_empty (trim_space (codes "a")) ≡ false)
    × InResponse upstream
        (search_endpoint (codes "a"))
        (FromSearch upstream.decoders upstream.parsers)
        (7 ∷ [])
unfolding search_releases fetch client_of decode_search decode_json release_ids and_then starts_with
    get_json get_json_loop wait_for_retry pass acquire attempt read_body is_success judge deliver
    retry_or_fail classify_status positive_integer above_zero natural_of integer_valued_number
    parse_int parse_uint trim_space
search_releases-ids_example = search_releases-ids upstream (codes "a") (7 ∷ []) refl

torrents_by_release-IsOf_example :
    (1 ≤ 7)
    × InResponse upstream (torrents_endpoint 7) (FromCollection upstream.decoders 7) (torrent ∷ [])
unfolding torrents_by_release decode_torrents decode_torrent_collection accept_torrents accepted
    fetch client_of decode_json and_then starts_with get_json get_json_loop wait_for_retry pass
    acquire attempt read_body is_success judge deliver retry_or_fail classify_status trim_space
    valid_torrents validate_release validate_torrent validate_fields validate_texts check ensure
    normalize_info_hash is_hex_digit natural_of non_negative_integer integer_valued_number
    above_zero positive_integer optional_non_negative_integer is_magnet_of magnet_contains_info_hash
    has_topic is_topic_of is_xml_text valid_xml10_string all_xml10 is_xml10_rune known parse_int
    parse_uint parse_query parse_fields decode_field query_unescape split cut equal_fold folds runes
    valid_utf8
torrents_by_release-IsOf_example = torrents_by_release-IsOf upstream 7 (torrent ∷ []) refl

latest-IsOf_example : All (IsOf 0) (torrent ∷ []) × (length (torrent ∷ []) ≤ latest_limit)
unfolding latest decode_latest accept_torrents accepted fetch client_of decode_json and_then
    starts_with get_json get_json_loop wait_for_retry pass acquire attempt read_body is_success
    judge deliver retry_or_fail classify_status trim_space valid_torrents validate_release
    validate_torrent validate_fields validate_texts check ensure normalize_info_hash is_hex_digit
    natural_of non_negative_integer integer_valued_number above_zero positive_integer
    optional_non_negative_integer is_magnet_of magnet_contains_info_hash has_topic is_topic_of
    is_xml_text valid_xml10_string all_xml10 is_xml10_rune known parse_int parse_uint parse_query
    parse_fields decode_field query_unescape split cut equal_fold folds runes valid_utf8
latest-IsOf_example = latest-IsOf upstream (torrent ∷ []) refl
