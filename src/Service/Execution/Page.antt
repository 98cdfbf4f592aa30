-- ===== src/Service/Execution/Page.antt =====
-- What a response to a request holds.
use anilibria_torznab.Prelude.{
  ℕ, ◌≤◌, ◌≡◌, refl, ap, subst, Bool, true, not, ◌&&◌, Option, none, some, List, [], ◌∷◌, map,
  length, take, drop, All, All-append, All-select, select, if_rule, arith,
}
use anilibria_torznab.Text.{is_empty, trim_space}
use anilibria_torznab.Torznab.Category
use anilibria_torznab.Torznab.Feed.{filter_valid_items, is_prepared}
use anilibria_torznab.Torznab.Feed.Rendering.{filter_valid_items-rule}
use anilibria_torznab.Torznab.Query.{NormalizedQuery, Checked, checked, incorrect, normalize_query}
use anilibria_torznab.Service.Request.{Request, upstream, Result, ok, err}
use anilibria_torznab.Service.Paging.{distinct_release_ids}
use anilibria_torznab.Service.Paging.Bounds.{page_items_lem}
use anilibria_torznab.Service.Processing.{Torrent, Item, process, comes_before}
use anilibria_torznab.Service.Processing.Feed.{IsStrict, IsServable, IsInt64, process-IsStrict}
use anilibria_torznab.Service.Loading.{Counters, gather, fan_out, load_search}
use anilibria_torznab.Service.Loading.Branches.{successes, gather_lem}
use anilibria_torznab.Service.Execution.{
  no_counters, World, Response, load_torrents, filters_of, respond, execute_loaded,
  execute_normalized, execute,
}

-- A response of a page of a feed: the feed is strictly ordered, its items are those asked for and
-- fit to be served, the total counts it, and the page is cut from it by the offset and the limit.
unfoldable pub IsPageOf : World → Request → List Item → Response → Type 0
IsPageOf w req items r =
    IsStrict items
    × All (λ item. Category.matches req.categories item.category ≡ true) items
    × All (λ item. is_prepared w.library w.site item ≡ true) items
    × (r.total ≡ length items)
    × (r.items ≡ take req.limit (drop req.offset items))
    × (r.result_count ≤ req.limit)

-- The torrents that the client and the caches return have 64-bit counts.
unfoldable pub HasInt64 : World → Type 0
HasInt64 w =
    ((ts : List Torrent) → w.latest ≡ some ts → All IsInt64 ts)
    × ((id : ℕ) (ts : List Torrent) → w.branch id ≡ some ts → All IsInt64 ts)

All-select_of_All :
    (P : Item → Type 0) (p : Item → Bool) (xs : List Item) → All P xs → All P (select p xs)
All-select_of_All P p [] h = tt
All-select_of_All P p (x ∷ xs) h =
    if_rule (All P) (p x) (λ e. (h.0, All-select_of_All P p xs h.1))
      (λ e. All-select_of_All P p xs h.1)

select-IsStrict : (p : Item → Bool) (xs : List Item) → IsStrict xs → IsStrict (select p xs)
unfolding IsStrict
select-IsStrict p [] h = tt
select-IsStrict p (x ∷ xs) h =
    if_rule IsStrict (p x)
      (λ e. (All-select_of_All (λ y. comes_before x y ≡ true) p xs h.0, select-IsStrict p xs h.1))
      (λ e. select-IsStrict p xs h.1)

All-successes :
    (branch : ℕ → Option (List Torrent))
    → ((id : ℕ) (ts : List Torrent) → branch id ≡ some ts → All IsInt64 ts)
    → (ids : List ℕ) → All IsInt64 (successes (map branch ids))
unfolding successes
All-successes branch h [] = tt
All-successes branch h (id ∷ ids) = add (branch id) refl (All-successes branch h ids)
  where
    add :
        (o : Option (List Torrent))
        → branch id ≡ o
        → All IsInt64 (successes (map branch ids))
        → All IsInt64 (successes (o ∷ map branch ids))
    add none e rest = rest
    add (some ts) e rest = All-append IsInt64 ts (successes (map branch ids)) (h id ts e) rest

gather-ok :
    (branches : List (Option (List Torrent))) (counters : Counters) (ts : List Torrent)
    → (gather branches counters).1 ≡ ok ts
    → successes branches ≡ ts
gather-ok branches counters ts h = ground (arith, gather_lem branches counters)

fan_out-All :
    (branch : ℕ → Option (List Torrent)) (done : Bool) (ids : List ℕ) (counters : Counters)
    (ts : List Torrent)
    → ((id : ℕ) (ts : List Torrent) → branch id ≡ some ts → All IsInt64 ts)
    → (fan_out branch done ids counters).1 ≡ ok ts
    → All IsInt64 ts
unfolding fan_out
fan_out-All branch done [] counters ts h e =
    let same : [] ≡ ts = ground arith in subst (All IsInt64) same tt
fan_out-All branch done (id ∷ ids) counters ts h e =
    subst (All IsInt64) (gather-ok (map branch (id ∷ ids)) counters ts (ground arith))
      (All-successes branch h (id ∷ ids))

load_search-All :
    (limit : ℕ) (found : Option (List ℕ)) (branch : ℕ → Option (List Torrent)) (done : Bool)
    (counters : Counters) (ts : List Torrent)
    → ((id : ℕ) (ts : List Torrent) → branch id ≡ some ts → All IsInt64 ts)
    → (load_search limit found branch done counters).1 ≡ ok ts
    → All IsInt64 ts
unfolding load_search
load_search-All limit none branch done counters ts h e = absurd (ground arith)
load_search-All limit (some found) branch done counters ts h e =
    fan_out-All branch done (distinct_release_ids found limit)
      (record counters { release_count = length (distinct_release_ids found limit) }) ts h e

load_torrents-All :
    (w : World) (req : Request) (n : NormalizedQuery) (ts : List Torrent)
    → HasInt64 w
    → (load_torrents w req n).1 ≡ ok ts
    → All IsInt64 ts
unfolding load_torrents HasInt64
load_torrents-All w req n ts h e =
    let P : Counters × Result (List Torrent) → Type 0 = λ p. p.1 ≡ ok ts → All IsInt64 ts in
    if_rule P (req.tv_search && is_empty n.clean_query) (λ c refused. absurd (ground arith))
      (λ c.
        if_rule P
          (not req.tv_search && (not (is_empty (trim_space req.query)) && is_empty n.clean_query))
          (λ c' refused. absurd (ground arith))
          (λ c'.
            if_rule P (not req.tv_search && is_empty (trim_space req.query))
              (λ c'' loaded. h.0 ts (from_latest w.latest loaded))
              (λ c''.
                load_search-All w.max_releases (w.search n.clean_query) w.branch w.done_in_search
                  no_counters ts h.1)))
      e
  where
    from_latest :
        (o : Option (List Torrent))
        → elim o as (λ x. Result (List Torrent)) [
          | none ↦ err upstream
          | some torrents ↦ ok torrents
        ]
          ≡ ok ts
        → o ≡ some ts
    from_latest none loaded = absurd (ground arith)
    from_latest (some torrents) loaded = ground arith

nil-IsStrict : IsStrict []
unfolding IsStrict
nil-IsStrict = tt

respond-IsPageOf :
    (w : World) (req : Request) (counters : Counters) (processed : List Item) (r : Response)
    → IsStrict processed
    → All (λ item. Category.matches req.categories item.category ≡ true) processed
    → respond w req counters (some processed) ≡ ok r
    → IsPageOf w req (filter_valid_items w.library processed w.site) r
unfolding respond IsPageOf
respond-IsPageOf w req counters processed r strict wanted e =
    let items = filter_valid_items w.library processed w.site in
    let wanted_category : Item → Type 0 =
      λ item. Category.matches req.categories item.category ≡ true in
    let (page, size) = page_items_lem items req.offset req.limit in
    (
      filter_valid_items-rule w.library IsStrict w.site processed nil-IsStrict
          (select-IsStrict (is_prepared w.library w.site) processed strict),
      filter_valid_items-rule w.library (All wanted_category) w.site processed tt
          (All-select_of_All wanted_category (is_prepared w.library w.site) processed wanted),
      filter_valid_items-rule w.library (All (λ item. is_prepared w.library w.site item ≡ true))
          w.site processed tt (All-select (is_prepared w.library w.site) processed),
      ground arith,
      ground (arith, page),
      ground (arith, size),
    )

respond-ok :
    (w : World) (req : Request) (counters : Counters) (o : Option (List Item)) (r : Response)
    → respond w req counters o ≡ ok r
    → (processed : List Item) × (o ≡ some processed)
unfolding respond
respond-ok w req counters none r e = absurd (ground arith)
respond-ok w req counters (some processed) r e = (processed, refl)

wanted-categories :
    (w : World) (req : Request) (n : NormalizedQuery) (items : List Item)
    → All (IsServable (filters_of w req n)) items
    → All (λ item. Category.matches req.categories item.category ≡ true) items
unfolding IsServable filters_of
wanted-categories w req n [] h = tt
wanted-categories w req n (x ∷ xs) h = (h.0.0, wanted-categories w req n xs h.1)

loaded-IsPageOf :
    (w : World) (req : Request) (n : NormalizedQuery) (counters : Counters)
    (torrents : List Torrent) (r : Response)
    → All IsInt64 torrents
    → execute_loaded w req n (counters, ok torrents) ≡ ok r
    → (items : List Item) × IsPageOf w req items r
unfolding execute_loaded
loaded-IsPageOf w req n counters torrents r h e =
    let f = filters_of w req n in
    let made = process f w.done_in_process w.done_before_sort w.done_after_sort torrents in
    let answered : respond w req counters made.1 ≡ ok r = ground arith in
    let (processed, same) = respond-ok w req counters made.1 r answered in
    let (strict, servable, distinct) =
      process-IsStrict f w.done_in_process w.done_before_sort w.done_after_sort torrents processed h
        same in
    (
      filter_valid_items w.library processed w.site,
      respond-IsPageOf w req counters processed r strict
          (wanted-categories w req n processed servable)
          (subst (λ o. respond w req counters o ≡ ok r) same answered),
    )

-- A request that is answered with a feed gets a page of one: the items before paging are in strict
-- order, of the categories that are asked for and valid for the site; the total is their number, the
-- page is cut from them by the offset and the limit, and it has at most as many items as the limit;
-- as far as the torrents have 64-bit counts of leechers.
pub execute-IsPageOf :
    (w : World) (req : Request) (r : Response)
    → HasInt64 w
    → execute w req ≡ ok r
    → (items : List Item) × IsPageOf w req items r
unfolding execute execute_normalized execute_loaded
execute-IsPageOf w req r h e =
    from_normalization
      (normalize_query w.unicode req.query req.explicit_season req.explicit_episode) (ground arith)
  where
    from_loaded :
        (n : NormalizedQuery) (counters : Counters) (result : Result (List Torrent))
        → load_torrents w req n ≡ (counters, result)
        → execute_loaded w req n (counters, result) ≡ ok r
        → (items : List Item) × IsPageOf w req items r
    from_loaded n counters (err failure) l e' = absurd (ground arith)
    from_loaded n counters (ok torrents) l e' =
        loaded-IsPageOf w req n counters torrents r
          (load_torrents-All w req n torrents h (ap (λ p. p.1) l)) e'

    from_normalization :
        (m : Checked NormalizedQuery)
        → execute_normalized w req m ≡ ok r
        → (items : List Item) × IsPageOf w req items r
    from_normalization (incorrect parameter) e' = absurd (ground arith)
    from_normalization (checked n) e' =
        from_loaded n (load_torrents w req n).0 (load_torrents w req n).1 refl e'
