-- ===== src/Config/Load.antt =====
-- internal/config/config.go: LoadFrom, the settings in its order.
use anilibria_torznab.Prelude.{ℕ, ◌*◌, ltb, if◌then◌else◌}
use anilibria_torznab.Text.{Bytes, codes, to_lower}
use anilibria_torznab.BaseUrl.{Url}
use anilibria_torznab.Config.{
  Loaded, loaded, invalid, and_then, Environment, Config, millisecond, second, minute, hour,
  log_level, optional_string, validate_listen_addr, api_key, parse_https_base_url, duration,
  integer, byte_size,
}

-- The timeouts, where the one of a request must not be the shorter one
pub record Timeouts : Type 0 where
  pub request : ℕ
  pub http : ℕ

-- The parts of `LoadFrom`, in its order
pub record Addresses : Type 0 where
  pub listen : Bytes
  pub key : Bytes
  pub api_url : Url
  pub site_url : Url

pub record Limits : Type 0 where
  pub concurrency : ℕ
  pub releases : ℕ
  pub response_bytes : ℕ

pub record Caches : Type 0 where
  pub search_ttl : ℕ
  pub torrents_ttl : ℕ
  pub latest_ttl : ℕ
  pub negative_ttl : ℕ
  pub entries : ℕ

module _ (env : Environment) where
  unfoldable pub load_addresses : Loaded Addresses
  load_addresses =
      and_then
        (validate_listen_addr env (optional_string env (codes "LISTEN_ADDR") (codes ":8080")))
        (λ listen. and_then (api_key env) (λ key.
          and_then
            (parse_https_base_url env (codes "ANILIBRIA_API_BASE_URL") (
              optional_string env (codes "ANILIBRIA_API_BASE_URL")
                (codes "https://anilibria.top/api/v1/")))
            (λ api_url.
              and_then
                (parse_https_base_url env (codes "ANILIBRIA_SITE_BASE_URL") (
                  optional_string env (codes "ANILIBRIA_SITE_BASE_URL")
                    (codes "https://aniliberty.top/")))
                (λ site_url. loaded (record {
                  listen = listen;
                  key = key;
                  api_url = api_url;
                  site_url = site_url;
                })))))

  unfoldable pub load_timeouts : Loaded Timeouts
  load_timeouts =
      and_then (duration env (codes "REQUEST_TIMEOUT") (90 * second) second (10 * minute))
        (λ request.
          and_then
            (duration env (codes "HTTP_TIMEOUT") (15 * second) (100 * millisecond) (2 * minute))
            (λ http.
              if ltb request http
              then invalid (codes "REQUEST_TIMEOUT")
              else loaded (record { request = request; http = http })))

  unfoldable pub load_limits : Loaded Limits
  load_limits = and_then (integer env (codes "MAX_CONCURRENCY") 4 1 64) (λ concurrency.
      and_then (integer env (codes "MAX_RELEASES_PER_SEARCH") 10 1 50) (λ releases.
        and_then
          (byte_size env (codes "MAX_RESPONSE_BYTES") (8 * 1024 * 1024) 1024 (64 * 1024 * 1024))
          (λ response_bytes. loaded (record {
            concurrency = concurrency;
            releases = releases;
            response_bytes = response_bytes;
          }))))

  unfoldable pub load_caches : Loaded Caches
  load_caches =
      and_then (duration env (codes "SEARCH_CACHE_TTL") (10 * minute) second (24 * hour)) (λ search.
        and_then (duration env (codes "TORRENTS_CACHE_TTL") (15 * minute) second (24 * hour))
          (λ torrents.
            and_then (duration env (codes "LATEST_CACHE_TTL") (5 * minute) second (24 * hour))
              (λ latest.
                and_then (duration env (codes "NEGATIVE_CACHE_TTL") minute second (24 * hour))
                  (λ negative.
                    and_then (integer env (codes "CACHE_MAX_ENTRIES") 1024 1 1_000_000) (λ entries.
                      loaded (record {
                        search_ttl = search;
                        torrents_ttl = torrents;
                        latest_ttl = latest;
                        negative_ttl = negative;
                        entries = entries;
                      }))))))

  -- `LoadFrom`
  unfoldable pub load_from : Loaded Config
  load_from = and_then load_addresses (λ a. and_then load_timeouts (λ t.
      and_then
        (duration env (codes "REQUEST_INTERVAL") (2100 * millisecond) (10 * millisecond) minute)
        (λ interval. and_then load_limits (λ l. and_then load_caches (λ c.
          and_then
            (log_level
              (to_lower env.lower (optional_string env (codes "LOG_LEVEL") (codes "info"))))
            (λ level. loaded (record {
              listen_addr = a.listen;
              api_key = a.key;
              api_base_url = a.api_url;
              site_base_url = a.site_url;
              request_timeout = t.request;
              http_timeout = t.http;
              request_interval = interval;
              max_concurrency = l.concurrency;
              max_releases_per_search = l.releases;
              max_response_bytes = l.response_bytes;
              search_cache_ttl = c.search_ttl;
              torrents_cache_ttl = c.torrents_ttl;
              latest_cache_ttl = c.latest_ttl;
              negative_cache_ttl = c.negative_ttl;
              cache_max_entries = c.entries;
              log_level = level;
            })))))))
