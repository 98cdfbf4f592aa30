-- ===== src/Service/Construct.antt =====
-- internal/service/service.go: New.
use anilibria_torznab.Prelude.{
  ℕ, ◌&&◌, not, none, some, List, ℤ, Constructed, constructed, panicked, ensuring, is_positive,
}
use anilibria_torznab.Text.{Bytes, codes, is_empty}
use anilibria_torznab.Cache.Lru.{Lru, new_lru}
use anilibria_torznab.Service.Processing.{Torrent}

-- `Config`, less the logger
pub record ServiceConfig : Type 0 where
  pub site_base_url : Bytes
  pub max_releases_per_search : ℤ
  pub cache_max_entries : ℤ
  pub search_cache_ttl : ℤ
  pub torrents_cache_ttl : ℤ
  pub latest_cache_ttl : ℤ
  pub negative_cache_ttl : ℤ

-- `Service`, less the client and the coalescers, which start empty
pub record NewService : Type 0 where
  pub config : ServiceConfig
  pub search_cache : Lru Bytes (List ℕ)
  pub torrents_cache : Lru ℕ (List Torrent)
  pub latest_cache : Lru Bytes (List Torrent)

-- `NewLRU`, which panics on a size that is not positive
unfoldable pub caching : {K V A : Type 0} → ℤ → (Lru K V → Constructed A) → Constructed A
caching entries next = elim (new_lru entries) [ none ↦ panicked | some cache ↦ next cache ]

-- `New`, with a client
unfoldable pub new_service : ServiceConfig → Constructed NewService
new_service cfg =
    ensuring
      (not (is_empty cfg.site_base_url)
        && (is_positive cfg.max_releases_per_search && is_positive cfg.cache_max_entries))
      (codes "invalid service configuration")
      (ensuring
        (is_positive cfg.search_cache_ttl
          && (is_positive cfg.torrents_cache_ttl
              && (is_positive cfg.latest_cache_ttl && is_positive cfg.negative_cache_ttl)))
        (codes "invalid service cache configuration")
        (caching cfg.cache_max_entries (λ search. caching cfg.cache_max_entries (λ torrents.
          caching cfg.cache_max_entries (λ latest. constructed (record {
            config = cfg;
            search_cache = search;
            torrents_cache = torrents;
            latest_cache = latest;
          }))))))
