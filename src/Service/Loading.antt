-- ===== src/Service/Loading.antt =====
-- How internal/service/service.go loads: `cachedSearch`, `cachedTorrents` and `loadLatest`, which are
-- one scheme over three caches, and `loadSearch`.
pub mod Reuse
pub mod Branches
use anilibria_torznab.Prelude.{
  ℕ, zero, suc, ◌+◌, Bool, true, false, Option, none, some, List, [], ◌∷◌, ◌++◌, ℤ, map, length,
  ◌==◌, if◌then◌else◌,
}
use anilibria_torznab.Text.{Bytes}
use anilibria_torznab.Cache.Lru.{Lru, get, set, ttl_for}
use anilibria_torznab.Service.Request.{Error, upstream, Result, ok, err}
use anilibria_torznab.Service.Paging.{distinct_release_ids}
use anilibria_torznab.Service.Processing.{Torrent}

-- `requestCounters`
pub record Counters : Type 0 where
  pub release_count : ℕ
  pub failed_branches : ℕ
  pub cache_hits : ℕ
  pub cache_misses : ℕ

-- A cache with the lifetimes of its entries, `positive` for lists with members and `negative` for
-- empty ones.
pub record Policy : Type 0 where
  pub positive : ℤ
  pub negative : ℤ

abbrev pub is_nil : {V : Type 0} → List V → Bool
is_nil [] = true
is_nil (x ∷ xs) = false

-- What `Do` of the coalescer comes to: this request leads, or it joins a flight and gets its outcome,
-- where `none` is an error. A leader reads the cache and, on a miss, asks the client; other requests
-- act on the cache before its read and while the client answers.
pub data Flight (K V : Type 0) : Type 0 where
  leads :
      (Lru K (List V) → Lru K (List V))
      → ℕ
      → Option (List V)
      → (Lru K (List V) → Lru K (List V))
      → ℕ
      → Flight K V
  joins : Option (List V) → Flight K V

module _ {K V : Type 0} (dec : Discrete K) (policy : Policy) where
  -- After the client has answered: the list is stored, or its error returned.
  unfoldable pub store_response :
      ℕ → K → Option (List V) → Lru K (List V) → Lru K (List V) × Option (List V)
  store_response now k none c = (c, none)
  store_response now k (some loaded) c = (
    set dec now k loaded (ttl_for (is_nil loaded) policy.positive policy.negative) c,
    some loaded,
  )

  -- The function that `Do` is given, run by the leader
  unfoldable pub load :
      ℕ
      → K
      → Option (List V)
      → (Lru K (List V) → Lru K (List V))
      → ℕ
      → Lru K (List V)
      → Lru K (List V) × Option (List V)
  load now k response meanwhile stored_at c =
      let (c', hit) = get dec now k c in
      elim hit [
        | some value ↦ (c', some value)
        | none ↦ store_response stored_at k response (meanwhile c')
      ]

  unfoldable pub fly : K → Flight K V → Lru K (List V) → Lru K (List V) × Option (List V)
  fly k (joins outcome) c = (c, outcome)
  fly k (leads before now response meanwhile stored_at) c =
      load now k response meanwhile stored_at (before c)

  -- `cachedSearch`, `cachedTorrents`, `loadLatest`; the lists are cloned, so that no caller shares them.
  unfoldable pub cached :
      ℕ → K → Flight K V → Counters → Lru K (List V) → (Lru K (List V) × Option (List V)) × Counters
  cached now k flight counters c =
      let (c', hit) = get dec now k c in
      elim hit [
        | some value ↦ ((c', some value), record counters { cache_hits = suc counters.cache_hits })
        | none ↦ (fly k flight c', record counters { cache_misses = suc counters.cache_misses })
      ]

-- The loop of `loadSearch` over its branches, with what is left of them: how many failed, how many
-- succeeded, and their torrents in the order of the ids.
unfoldable pub collect : List (Option (List Torrent)) → ℕ × ℕ × List Torrent
collect [] = (0, 0, [])
collect (none ∷ branches) =
    let (failed, succeeded, torrents) = collect branches in (suc failed, succeeded, torrents)
collect (some ts ∷ branches) =
    let (failed, succeeded, torrents) = collect branches in (failed, suc succeeded, ts ++ torrents)

-- The end of `loadSearch`
unfoldable pub gather : List (Option (List Torrent)) → Counters → Counters × Result (List Torrent)
gather branches counters =
    let (failed, succeeded, torrents) = collect branches in
    let counted = record counters { failed_branches = counters.failed_branches + failed } in
    if succeeded == 0 then (counted, err upstream) else (counted, ok torrents)

-- The branches of the ids: `branch id` is what `cachedTorrents` returns in its goroutine, and `done`
-- says whether the context is done when all have ended.
unfoldable pub fan_out :
    (ℕ → Option (List Torrent)) → Bool → List ℕ → Counters → Counters × Result (List Torrent)
fan_out branch done [] counters = (counters, ok [])
fan_out branch done (id ∷ ids) counters =
    if done then (counters, err upstream) else gather (map branch (id ∷ ids)) counters

-- `loadSearch`, from what `cachedSearch` returns
unfoldable pub load_search :
    ℕ
    → Option (List ℕ)
    → (ℕ → Option (List Torrent))
    → Bool
    → Counters
    → Counters × Result (List Torrent)
load_search limit none branch done counters = (counters, err upstream)
load_search limit (some found) branch done counters =
    let ids = distinct_release_ids found limit in
    fan_out branch done ids (record counters { release_count = length ids })
