-- ===== src/Config/Accepted.antt =====
-- What holds of a configuration that is accepted.
use anilibria_torznab.Prelude.{◌*◌, ◌≤◌, ◌≡◌, true, length, arith}
use anilibria_torznab.Text.{valid_utf8}
use anilibria_torznab.BaseUrl.Slash.{IsBase}
use anilibria_torznab.Config.{loaded, Environment, Config, millisecond, second, minute, hour}
use anilibria_torznab.Config.Load.{
  Timeouts, Addresses, Limits, Caches, load_addresses, load_timeouts, load_limits, load_caches,
  load_from,
}
use anilibria_torznab.Config.Bounds.{
  and_then-rule, loaded-rule, duration-bounds, integer-bounds, byte_size-bounds, api_key-bounds,
  parse_https_base_url-IsBase,
}

-- The bounds that the other components rely on.
pub record IsValid (c : Config) : Type 0 where
  pub key_present : 1 ≤ length c.api_key
  pub key_bounded : length c.api_key ≤ 1024
  pub key_text : valid_utf8 c.api_key ≡ true
  pub api_base : IsBase c.api_base_url
  pub site_base : IsBase c.site_base_url
  pub timeouts : c.http_timeout ≤ c.request_timeout
  pub http_timeout : 100 * millisecond ≤ c.http_timeout
  pub http_timeout_most : c.http_timeout ≤ 2 * minute
  pub request_timeout : c.request_timeout ≤ 10 * minute
  pub request_timeout_least : second ≤ c.request_timeout
  pub interval : 10 * millisecond ≤ c.request_interval
  pub interval_most : c.request_interval ≤ minute
  pub concurrency : (1 ≤ c.max_concurrency) × (c.max_concurrency ≤ 64)
  pub releases : (1 ≤ c.max_releases_per_search) × (c.max_releases_per_search ≤ 50)
  pub response_bytes : (1024 ≤ c.max_response_bytes) × (c.max_response_bytes ≤ 64 * 1024 * 1024)
  pub search_ttl : (second ≤ c.search_cache_ttl) × (c.search_cache_ttl ≤ 24 * hour)
  pub torrents_ttl : (second ≤ c.torrents_cache_ttl) × (c.torrents_cache_ttl ≤ 24 * hour)
  pub latest_ttl : (second ≤ c.latest_cache_ttl) × (c.latest_cache_ttl ≤ 24 * hour)
  pub negative_ttl : (second ≤ c.negative_cache_ttl) × (c.negative_cache_ttl ≤ 24 * hour)
  pub entries : (1 ≤ c.cache_max_entries) × (c.cache_max_entries ≤ 1_000_000)

-- The parts, by what each of them promises.
AddressesIsValid : Addresses → Type 0
AddressesIsValid a =
    (1 ≤ length a.key)
    × (length a.key ≤ 1024)
    × (valid_utf8 a.key ≡ true)
    × IsBase a.api_url
    × IsBase a.site_url

load_addresses-IsValid :
    (env : Environment) (a : Addresses) → load_addresses env ≡ loaded a → AddressesIsValid a
unfolding load_addresses AddressesIsValid
load_addresses-IsValid env = and_then-rule AddressesIsValid _ _ (λ listen el.
    and_then-rule AddressesIsValid _ _ (λ key ek. and_then-rule AddressesIsValid _ _ (λ api ea.
      and_then-rule AddressesIsValid _ _ (λ site es a.
        let (k1, k2, k3) = api_key-bounds env key ek in
        loaded-rule AddressesIsValid
          (record { listen = listen; key = key; api_url = api; site_url = site }) a
          (
            k1,
            k2,
            k3,
            parse_https_base_url-IsBase env _ _ api ea,
            parse_https_base_url-IsBase env _ _ site es,
          )))))

TimeoutsIsValid : Timeouts → Type 0
TimeoutsIsValid t =
    (t.http ≤ t.request)
    × (100 * millisecond ≤ t.http)
    × (t.http ≤ 2 * minute)
    × (second ≤ t.request)
    × (t.request ≤ 10 * minute)

load_timeouts-IsValid :
    (env : Environment) (t : Timeouts) → load_timeouts env ≡ loaded t → TimeoutsIsValid t
unfolding load_timeouts TimeoutsIsValid
load_timeouts-IsValid env = and_then-rule TimeoutsIsValid _ _ (λ request er.
    and_then-rule TimeoutsIsValid _ _ (λ http eh t h.
      let b1 = duration-bounds env _ _ _ _ request (omega arith) (omega arith) er in
      let b2 = duration-bounds env _ _ _ _ http (omega arith) (omega arith) eh in
      (ground arith, ground arith, ground arith, ground arith, ground arith)))

LimitsIsValid : Limits → Type 0
LimitsIsValid l =
    ((1 ≤ l.concurrency) × (l.concurrency ≤ 64))
    × ((1 ≤ l.releases) × (l.releases ≤ 50))
    × ((1024 ≤ l.response_bytes) × (l.response_bytes ≤ 64 * 1024 * 1024))

load_limits-IsValid :
    (env : Environment) (l : Limits) → load_limits env ≡ loaded l → LimitsIsValid l
unfolding load_limits LimitsIsValid
load_limits-IsValid env = and_then-rule LimitsIsValid _ _ (λ concurrency ec.
    and_then-rule LimitsIsValid _ _ (λ releases er.
      and_then-rule LimitsIsValid _ _ (λ response_bytes eb l.
        loaded-rule LimitsIsValid
          (record {
            concurrency = concurrency;
            releases = releases;
            response_bytes = response_bytes;
          })
          l
          (
            integer-bounds env _ 4 _ _ concurrency (omega arith) (omega arith) ec,
            integer-bounds env _ 10 _ _ releases (omega arith) (omega arith) er,
            byte_size-bounds env _ (8 * 1024 * 1024) _ _ response_bytes (omega arith) (omega arith)
                eb,
          ))))

CachesIsValid : Caches → Type 0
CachesIsValid c =
    ((second ≤ c.search_ttl) × (c.search_ttl ≤ 24 * hour))
    × ((second ≤ c.torrents_ttl) × (c.torrents_ttl ≤ 24 * hour))
    × ((second ≤ c.latest_ttl) × (c.latest_ttl ≤ 24 * hour))
    × ((second ≤ c.negative_ttl) × (c.negative_ttl ≤ 24 * hour))
    × ((1 ≤ c.entries) × (c.entries ≤ 1_000_000))

load_caches-IsValid :
    (env : Environment) (c : Caches) → load_caches env ≡ loaded c → CachesIsValid c
unfolding load_caches CachesIsValid
load_caches-IsValid env = and_then-rule CachesIsValid _ _ (λ s es.
    and_then-rule CachesIsValid _ _ (λ t et. and_then-rule CachesIsValid _ _ (λ l el.
      and_then-rule CachesIsValid _ _ (λ n en. and_then-rule CachesIsValid _ _ (λ e ee c.
        loaded-rule CachesIsValid
          (record {
            search_ttl = s;
            torrents_ttl = t;
            latest_ttl = l;
            negative_ttl = n;
            entries = e;
          })
          c
          (
            duration-bounds env _ (10 * minute) _ _ s (omega arith) (omega arith) es,
            duration-bounds env _ (15 * minute) _ _ t (omega arith) (omega arith) et,
            duration-bounds env _ (5 * minute) _ _ l (omega arith) (omega arith) el,
            duration-bounds env _ minute _ _ n (omega arith) (omega arith) en,
            integer-bounds env _ 1024 _ _ e (omega arith) (omega arith) ee,
          ))))))

-- Whatever the environment, a configuration that is accepted has a key of 1 to 1024 bytes in UTF-8, base
-- URLs by https that have a host and end in one slash, with no user, query or fragment, a request
-- timeout that is not shorter than the HTTP timeout, and both timeouts, the request interval, all limits, lifetimes and the number of cache
-- entries within their bounds, so that none of them is zero.
pub load_from-IsValid : (env : Environment) (c : Config) → load_from env ≡ loaded c → IsValid c
unfolding load_from AddressesIsValid TimeoutsIsValid LimitsIsValid CachesIsValid
load_from-IsValid env = and_then-rule IsValid _ _ (λ a ea. and_then-rule IsValid _ _ (λ t et.
    and_then-rule IsValid _ _ (λ interval ei. and_then-rule IsValid _ _ (λ l el.
      and_then-rule IsValid _ _ (λ c ec. and_then-rule IsValid _ _ (λ level ev config.
        let (k1, k2, k3, u1, u2) = load_addresses-IsValid env a ea in
        let (t1, t2, t3, t4, t5) = load_timeouts-IsValid env t et in
        let (l1, l2, l3) = load_limits-IsValid env l el in
        let (c1, c2, c3, c4, c5) = load_caches-IsValid env c ec in
        let i =
          duration-bounds env _ (2100 * millisecond) _ _ interval (omega arith) (omega arith) ei in
        loaded-rule IsValid _ config (record {
          key_present = k1;
          key_bounded = k2;
          key_text = k3;
          api_base = u1;
          site_base = u2;
          timeouts = t1;
          http_timeout = t2;
          http_timeout_most = t3;
          request_timeout_least = t4;
          request_timeout = t5;
          interval = i.0;
          interval_most = i.1;
          concurrency = l1;
          releases = l2;
          response_bytes = l3;
          search_ttl = c1;
          torrents_ttl = c2;
          latest_ttl = c3;
          negative_ttl = c4;
          entries = c5;
        })))))))
