-- ===== src/Service/Execution.antt =====
-- `Execute` of internal/service/service.go: a request from its query to a page of the feed.
pub mod Page
pub mod Refusal
use anilibria_torznab.Prelude.{
  ℕ, zero, suc, Bool, true, false, ◌&&◌, not, Option, none, some, List, [], ◌∷◌, length, select,
  ◌==◌, if◌then◌else◌,
}
use anilibria_torznab.Text.{Bytes, is_empty, trim_space}
use anilibria_torznab.Torznab.Parameter.{Parameter, query}
use anilibria_torznab.Torznab.Category.{ReleaseType}
use anilibria_torznab.Torznab.Tokens.{Unicode}
use anilibria_torznab.Torznab.Query.{NormalizedQuery, Checked, checked, incorrect, normalize_query}
use anilibria_torznab.Torznab.Labels.{metadata, parse_title}
use anilibria_torznab.Torznab.Feed.{Library, filter_valid_items}
use anilibria_torznab.Service.Request.{
  Request, Error, incorrect_parameter, upstream, Result, ok, err,
}
use anilibria_torznab.Service.Paging.{page_items}
use anilibria_torznab.Service.Processing.{Torrent, Item, Filters, process}
use anilibria_torznab.Service.Loading.{Counters, load_search}

-- What a request meets. `latest`, `search` and `branch` are what `loadLatest`, `cachedSearch` and
-- `cachedTorrents` return, `none` for an error; `unicode` is the tables of letters and digits; `site` is the configured `SiteBaseURL`; the Booleans say whether the context is done at a read of it.
pub record World : Type 0 where
  pub unicode : Unicode
  pub latest : Option (List Torrent)
  pub search : Bytes → Option (List ℕ)
  pub branch : ℕ → Option (List Torrent)
  pub library : Library
  pub site : Bytes
  pub max_releases : ℕ
  pub done_at_start : Bool
  pub done_in_search : Bool
  pub done_loaded : Bool
  pub done_in_process : ℕ → Bool
  pub done_before_sort : Bool
  pub done_after_sort : Bool
  pub done_filtered : Bool
  pub done_paged : Bool

-- The parts of `Response` that the feed and the statistics are made of
pub record Response : Type 0 where
  pub offset : ℕ
  pub total : ℕ
  pub items : List Item
  pub release_count : ℕ
  pub failed_branches : ℕ
  pub result_count : ℕ

abbrev pub no_counters : Counters
no_counters = record { release_count = 0; failed_branches = 0; cache_hits = 0; cache_misses = 0 }

-- The query checks, and the torrents of the request
unfoldable pub load_torrents : World → Request → NormalizedQuery → Counters × Result (List Torrent)
load_torrents w req n =
    let original_blank = is_empty (trim_space req.query) in
    if req.tv_search && is_empty n.clean_query
    then (no_counters, err (incorrect_parameter query))
    else if not req.tv_search && (not original_blank && is_empty n.clean_query)
    then (no_counters, err (incorrect_parameter query))
    else if not req.tv_search && original_blank
    then (no_counters, (elim w.latest [ none ↦ err upstream | some torrents ↦ ok torrents ]))
    else load_search w.max_releases (w.search n.clean_query) w.branch w.done_in_search no_counters

unfoldable pub filters_of : World → Request → NormalizedQuery → Filters
filters_of w req n = record {
  categories = req.categories;
  season = n.effective_season;
  episode = n.effective_episode;
  lower = w.library.lower;
  parse_title =
      λ release_type main_name label. metadata (parse_title w.unicode release_type main_name label);
}

-- From the items to the response
unfoldable pub respond : World → Request → Counters → Option (List Item) → Result Response
respond w req counters none = err upstream
respond w req counters (some processed) =
    let items = filter_valid_items w.library processed w.site in
    let page = page_items items req.offset req.limit in
    if w.done_filtered
    then err upstream
    else if w.done_paged
    then err upstream
    else ok (record {
      offset = req.offset;
      total = length items;
      items = page;
      release_count = counters.release_count;
      failed_branches = counters.failed_branches;
      result_count = length page;
    })

unfoldable pub execute_loaded :
    World → Request → NormalizedQuery → Counters × Result (List Torrent) → Result Response
execute_loaded w req n (counters, err e) = err e
execute_loaded w req n (counters, ok torrents) =
    if w.done_loaded
    then err upstream
    else respond w req counters
        (process (filters_of w req n) w.done_in_process w.done_before_sort w.done_after_sort
          torrents).1

unfoldable pub execute_normalized : World → Request → Checked NormalizedQuery → Result Response
execute_normalized w req (incorrect parameter) = err (incorrect_parameter parameter)
execute_normalized w req (checked n) = execute_loaded w req n (load_torrents w req n)

-- `Execute`
unfoldable pub execute : World → Request → Result Response
execute w req =
    if w.done_at_start
    then err upstream
    else execute_normalized w req
        (normalize_query w.unicode req.query req.explicit_season req.explicit_episode)
