-- ===== src/Tests/ExecutionRuns.antt =====
-- Execute of internal/service on small inputs.
use anilibria_torznab.Prelude.{
  ◌↔◌, subst, some-injective, ◌≡◌, refl, Bool, true, false, none, some, List, [], ◌∷◌, All, ◌==◌,
  if◌then◌else◌, arith,
}
use anilibria_torznab.Text.{
  equal_fold, folds, valid_utf8, Bytes, codes, trim_space, encode, decode, rune_values, trim_runes,
  skip_space, is_space, cut, show_padded, show, to_lower, runes, encode_rune,
}
use anilibria_torznab.Torznab.Parameter.{query}
use anilibria_torznab.Torznab.Category.{
  ReleaseType, tv, category_anime, category_for, known, CategoryFilter,
}
use anilibria_torznab.Torznab.Category
use anilibria_torznab.Text.Regexp.{
  find_all, find_all_from, find, find_from, match_at, run, regexp_whitespace, submatch,
}
use anilibria_torznab.Torznab.Marks.{
  mark_empty_technical_pairs, pair_loop, pair_step, mark_technical_edge_separators, leading_edge,
  trailing_edge, mark_edge, flag, see_visible, closes, technical_pair_close, is_token_separator,
}
use anilibria_torznab.Torznab.Query.{
  normalize_query, parse_explicit_filter, take_tokens, first_state, no_marks, normalized, clean,
  clean_loop, collapse_whitespace, fields, join_words, final_marks, write,
}
use anilibria_torznab.Torznab.Labels.{
  parse_title, parse_trimmed, metadata_of, metadata, semantic_title, without_distributor,
  parse_season, explicit_loop, ordinal_loop, otherwise, trailing_season, without_year, season_of,
  parse_episodes, episodes_loop, season_text, episodes_text, rendered_title, is_roman, is_dash,
}
use anilibria_torznab.Torznab.Title.{
  bounded_positive_integer, TitleMetadata, matches_season, matches_episode,
}
use anilibria_torznab.Torznab.Title
use anilibria_torznab.Torznab.Feed.{
  rendered, prepare_item, is_prepared, validate_site_base_url, filter_valid_items, is_text,
  valid_xml10_string, all_xml10, is_xml10_rune, is_hex, is_magnet, comments_of, trim_slashes,
}
use anilibria_torznab.Service.Request.{Request, ok, err, incorrect_parameter}
use anilibria_torznab.Service.Paging.{distinct_release_ids, distinct_loop, page_items}
use anilibria_torznab.Service.Processing.{
  Item, process, process_loop, finish, sort_items, insert_item, comes_before, verdict_on, see,
  tally, add_item, judge, judge_title, item_of,
}
use anilibria_torznab.Service.Processing.Feed.{IsInt64}
use anilibria_torznab.Service.Loading.{collect, gather, fan_out, load_search}
use anilibria_torznab.Service.Execution.{
  World, Response, execute, execute_normalized, execute_loaded, load_torrents, respond, filters_of,
}
use anilibria_torznab.Service.Execution.Page.{IsPageOf, HasInt64, execute-IsPageOf}
use anilibria_torznab.Service.Execution.Refusal.{IsRefusedFor, execute-refused}
use anilibria_torznab.Tests.QueryRuns.{ascii}
use anilibria_torznab.Tests.ServiceRuns.{
  ids, hash_a, library, torrent, torrents, everything, filters, alive, torrents-IsInt64,
}

abbrev world : World
world = record {
  unicode = ascii;
  latest = some torrents;
  search = λ q. some ids;
  branch = λ id. if id == 9 then none else some torrents;
  library = library;
  site = codes "http://s/";
  max_releases = 2;
  done_at_start = false;
  done_in_search = false;
  done_loaded = false;
  done_in_process = alive;
  done_before_sort = false;
  done_after_sort = false;
  done_filtered = false;
  done_paged = false;
}

abbrev request : Bytes → Bool → Request
request q tv_search = record {
  query = q;
  query_provided = true;
  tv_search = tv_search;
  explicit_season = none;
  explicit_episode = none;
  categories = everything;
  limit = 1;
  offset = 1;
}

-- A search for nothing but a token
execute-refused_example :
    (execute world (request (codes "S02") true) ≡ err (incorrect_parameter query))
    ↔ IsRefusedFor world (request (codes "S02") true) query
execute-refused_example = execute-refused world (request (codes "S02") true) query refl

-- The second of two items; the branch of one release failed.
abbrev response : Response
response = record {
  offset = 1;
  total = 2;
  items =
      item_of filters (torrent hash_a 1) category_anime (codes "Label S01 RUS / Name / Label") ∷ [];
  release_count = 2;
  failed_branches = 1;
  result_count = 1;
}

world-HasInt64 : HasInt64 world
unfolding HasInt64
world-HasInt64 = (
  λ ts e. subst (All IsInt64) (some-injective _ _ e) torrents-IsInt64,
  λ id ts e. subst (All IsInt64) {x = torrents} (ground arith) torrents-IsInt64,
)

executed : execute world (request (codes "name") false) ≡ ok response
unfolding filter_valid_items is_prepared prepare_item validate_site_base_url is_text
    valid_xml10_string all_xml10 is_xml10_rune is_hex is_magnet comments_of trim_slashes rendered
    equal_fold folds valid_utf8 execute execute_normalized execute_loaded load_torrents load_search
    fan_out gather collect distinct_release_ids distinct_loop respond filters_of process
    process_loop finish sort_items insert_item comes_before page_items verdict_on see tally add_item
    judge judge_title item_of trim_space normalize_query parse_explicit_filter take_tokens
    first_state no_marks normalized clean clean_loop collapse_whitespace fields join_words
    final_marks write mark_empty_technical_pairs pair_loop pair_step see_visible closes
    technical_pair_close mark_technical_edge_separators leading_edge is_token_separator
    trailing_edge mark_edge flag encode decode rune_values trim_runes skip_space is_space find_all
    find_all_from find find_from match_at run regexp_whitespace submatch parse_title parse_trimmed
    metadata_of metadata semantic_title without_distributor cut parse_season explicit_loop
    ordinal_loop otherwise trailing_season without_year season_of parse_episodes episodes_loop
    season_text episodes_text rendered_title show_padded show is_roman is_dash to_lower runes
    encode_rune category_for known Category.matches Title.matches matches_season matches_episode
executed = refl

execute-IsPageOf_example :
    (items : List Item) × IsPageOf world (request (codes "name") false) items response
execute-IsPageOf_example =
    execute-IsPageOf world (request (codes "name") false) response world-HasInt64 executed
