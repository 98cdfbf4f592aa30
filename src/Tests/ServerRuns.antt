-- ===== src/Tests/ServerRuns.antt =====
-- internal/httpapi on a small request.
use anilibria_torznab.Prelude.{◌≡◌, ap, refl, true, false, none, some}
use anilibria_torznab.Text.{
  Bytes, codes, split, cut, trim_space, to_lower, encode_rune, runes, equal_fold, folds, valid_utf8,
}
use anilibria_torznab.Torznab.Category.{parse_category_filter}
use anilibria_torznab.Service.Request.{Request, ok}
use anilibria_torznab.HttpApi.Values.{single}
use anilibria_torznab.HttpApi.Numbers.{
  parse_limit, limit_of, parse_offset, offset_of, normalized_decimal,
}
use anilibria_torznab.HttpApi.Query.{
  query_unescape, decode_field, parse_fields, parse_query, canonical_values, api_key_loop,
  raw_api_key,
}
use anilibria_torznab.HttpApi.Server.{
  success, HttpRequest, Api, Environment, rss, singleton_parameters, valid_utf8_values,
  bad_singleton, bad_extended, or_empty, is_provided, search_request, written_as, stop_for_context,
  succeed, respond, serve_search, serve_operation, serve_values, authenticated, is_authorized,
  serve_get, serve_http,
}
use anilibria_torznab.HttpApi.Server.Feeds.{IsServed, written-IsServed}

-- The executor answers with the query, and the feed is the response.
abbrev environment : Environment Bytes Bytes
environment = record {
  sha256 = λ key. key;
  lower = λ r. r;
  execute = λ req. ok req.query;
  render_caps = true;
  render_rss = λ response. some response;
  write_fails = false;
  context = λ n. none;
}

abbrev get_search : HttpRequest
get_search = record {
  method = codes "GET";
  path = codes "/api";
  raw_query = codes "t=search&q=ab&apikey=k&limit=9";
}

abbrev api : Api
api = record { api_key_digest = codes "k"; request_counter = 0 }

abbrev request : Request
request = record {
  query = codes "ab";
  query_provided = true;
  tv_search = false;
  explicit_season = none;
  explicit_episode = none;
  categories = record { all = true; tv = false; anime = false; present = false };
  limit = 9;
  offset = 0;
}

executed :
    (serve_http environment get_search api).1
    ≡ record { written = rss (codes "ab"); outcome = success; executed = some request }
unfolding serve_http serve_get is_authorized authenticated raw_api_key api_key_loop equal_fold folds
    query_unescape parse_query parse_fields decode_field split cut canonical_values to_lower runes
    encode_rune serve_values bad_singleton singleton_parameters valid_utf8_values valid_utf8 single
    trim_space serve_operation serve_search search_request parse_category_filter parse_limit
    limit_of parse_offset offset_of normalized_decimal bad_extended or_empty is_provided respond
    stop_for_context succeed written_as
executed = refl

written-IsServed_example :
    (req : Request) × ((serve_http environment get_search api).1.executed ≡ some req)
    × IsServed environment req (codes "ab")
written-IsServed_example =
    written-IsServed environment get_search api (codes "ab") (ap (λ a. a.written) executed)
