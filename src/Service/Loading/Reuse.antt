-- ===== src/Service/Loading/Reuse.antt =====
-- What the caches of the service save.
use anilibria_torznab.Prelude.{
  ap, length, if◌then◌else◌, ℕ, suc, ◌+◌, ◌<◌, ◌≡◌, ◌∙◌, if◌then◌else◌, none, some, List, pos, ltb,
  lt→ltb, if_true, arith,
}
use anilibria_torznab.Cache.Lru.{Entry, Lru, get, set, ttl_for}
use anilibria_torznab.Cache.Lru.Spec.{Call, run, spec_set}
use anilibria_torznab.Cache.Lru.Refinement.{Refines, set-Refines, run_from}
use anilibria_torznab.Cache.Lru.Retention.{IsSpared, stored-kept}
use anilibria_torznab.Cache.Lru.Promises.{live_value, get-live_value}
use anilibria_torznab.Service.Loading.{Counters, Policy, is_nil, Flight, store_response, cached}

module _ {K V : Type 0} (dec : Discrete K) (policy : Policy) where
  cached-hit :
      (now : ℕ) (k : K) (flight : Flight K V) (counters : Counters) (c : Lru K (List V))
      (value : List V)
      → (get dec now k c).1 ≡ some value
      → ((cached dec policy now k flight counters c).0.1 ≡ some value)
        × ((cached dec policy now k flight counters c).1
            ≡ record counters { cache_hits = suc counters.cache_hits })
  unfolding cached
  cached-hit now k flight counters c value h = (ground arith, ground arith)

  -- The list that a leader stored last under a key
  abbrev pub stored_entry : ℕ → ℕ → List V → Entry (List V)
  stored_entry stored_at ttl loaded = record { value = loaded; expires_at = stored_at + suc ttl }

  -- After a leader has stored a list in a cache, a later request for the same key gets that list from the
  -- cache and needs no flight, where the cache was used in between fewer times than it has places, never to
  -- store or delete that key, and all before the lifetime has passed: the negative one of the policy if the
  -- list is empty, otherwise the positive one.
  pub cached-stored :
      (cap stored_at ttl now : ℕ) (k : K) (loaded : List V) (c : Lru K (List V))
      (l : List (K × Entry (List V))) (calls : List (ℕ × Call K (List V))) (flight : Flight K V)
      (counters : Counters)
      → Refines dec cap c l
      → (if is_nil loaded then policy.negative else policy.positive) ≡ pos (suc ttl)
      → IsSpared dec k (stored_entry stored_at ttl loaded) calls
      → length calls < cap
      → now < stored_at + suc ttl
      → let c' = (run dec calls (store_response dec policy stored_at k (some loaded) c).0).0 in
        ((cached dec policy now k flight counters c').0.1 ≡ some loaded)
        × ((cached dec policy now k flight counters c').1
            ≡ record counters { cache_hits = suc counters.cache_hits })
  unfolding store_response ttl_for spec_set
  cached-stored cap stored_at ttl now k loaded c l calls flight counters h lifetime spared room
        soon =
      let e = stored_entry stored_at ttl loaded in
      let after = set dec stored_at k loaded (pos (suc ttl)) c in
      let refined = set-Refines dec cap stored_at k loaded (pos (suc ttl)) c l h in
      let (later, same) = run_from dec cap calls after _ refined in
      let kept = stored-kept dec k e cap stored_at calls l (omega arith) spared room in
      rw lifetime (
        cached-hit now k flight counters (run dec calls after).0 loaded (
          get-live_value dec cap now k (run dec calls after).0 _ later
          ∙ ap (live_value dec now) kept
          ∙ if_true (ltb now e.expires_at) (some loaded) none (lt→ltb now e.expires_at soon)))
