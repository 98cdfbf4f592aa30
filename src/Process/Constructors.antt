-- ===== src/Process/Constructors.antt =====
-- What the constructors make of values that are positive.
use anilibria_torznab.Prelude.{
  ◌∷◌, zero, ℕ, suc, ◌≤◌, ◌≡◌, refl, ap, ◌∙◌, Bool, true, false, not, ◌&&◌, some, [], pos, length,
  Constructed, constructed, ensuring, is_positive, positive, arith,
}
use anilibria_torznab.Text.{Bytes, codes, same, is_empty, all_bytes, valid_utf8}
use anilibria_torznab.BaseUrl.{Url, NetUrl}
use anilibria_torznab.BaseUrl.Slash.{IsBase}
use anilibria_torznab.Cache.Lru.{Lru, new_lru}
use anilibria_torznab.Config.{Config}
use anilibria_torznab.Config.Accepted.{IsValid}
use anilibria_torznab.Anilibria.Construct.{
  ClientConfig, NewClient, is_version_char, version_or_dev, is_api_url, new_client,
}
use anilibria_torznab.Service.Construct.{ServiceConfig, NewService, caching, new_service}
use anilibria_torznab.HttpApi.Construct.{NewApi, new_api}
use anilibria_torznab.Process.{Machine, service_config}

positive-some :
    {A : Type 0} (n : ℕ) (message : Bytes) (next : ℕ → Constructed A)
    → 1 ≤ n
    → positive (pos n) message next ≡ next n
unfolding positive
positive-some zero message next h = absurd (omega arith)
positive-some (suc n) message next h = refl

is_positive-some : (n : ℕ) → 1 ≤ n → is_positive (pos n) ≡ true
unfolding is_positive
is_positive-some zero h = absurd (omega arith)
is_positive-some (suc n) h = refl

ensuring-true :
    {A : Type 0} (holds : Bool) (message : Bytes) (next : Constructed A)
    → holds ≡ true
    → ensuring holds message next ≡ next
unfolding ensuring
ensuring-true holds message next h = ground arith

caching-some :
    {K V A : Type 0} (n : ℕ) (next : Lru K V → Constructed A)
    → 1 ≤ n
    → (cache : Lru K V) × (new_lru (pos n) ≡ some cache) × (caching (pos n) next ≡ next cache)
unfolding caching new_lru
caching-some zero next h = absurd (omega arith)
caching-some (suc n) next h = (_, refl, refl)

abbrev config_of : Bytes → Bytes → ℕ → ℕ → ℕ → ℕ → ClientConfig
config_of base_url version timeout interval slots bytes = record {
  base_url = base_url;
  version = version;
  http_timeout = pos timeout;
  request_interval = pos interval;
  max_concurrency = pos slots;
  max_response_bytes = pos bytes;
}

-- The client, with what it is made of
abbrev ClientOf : ℕ → ℕ → ℕ → ℕ → Constructed NewClient → Type 0
ClientOf timeout interval slots bytes r =
    (client : NewClient) × (r ≡ constructed client)
    × (client.http_timeout ≡ timeout)
    × (client.limiter.interval ≡ interval)
    × (client.gate ≡ slots)
    × (client.max_response_bytes ≡ bytes)

pub new_client-ClientOf :
    (net : NetUrl) (base_url version : Bytes) (u : Url) (timeout interval slots bytes : ℕ)
    → net.parse base_url ≡ some u
    → is_api_url u ≡ true
    → 1 ≤ timeout
    → 1 ≤ interval
    → 1 ≤ slots
    → 1 ≤ bytes
    → all_bytes is_version_char (version_or_dev version) ≡ true
    → ClientOf timeout interval slots bytes
        (new_client net (config_of base_url version timeout interval slots bytes))
unfolding new_client
new_client-ClientOf net base_url version u timeout interval slots bytes p a t i s b v =
    rw (p, new_client)
      (
        _,
        ensuring-true _ _ _ a
            ∙ positive-some timeout _ _ t
            ∙ positive-some interval _ _ i
            ∙ positive-some slots _ _ s
            ∙ positive-some bytes _ _ b
            ∙ ensuring-true _ _ _ v,
        refl,
        refl,
        refl,
        refl,
      )

abbrev ServiceOf : ServiceConfig → ℕ → Constructed NewService → Type 0
ServiceOf config entries r =
    (service : NewService) × (r ≡ constructed service)
    × (service.config ≡ config)
    × (new_lru (pos entries) ≡ some service.search_cache)
    × (new_lru (pos entries) ≡ some service.torrents_cache)
    × (new_lru (pos entries) ≡ some service.latest_cache)

pub new_service-ServiceOf :
    (m : Machine) (cfg : Config)
    → is_empty (m.env.net_url.string cfg.site_base_url) ≡ false
    → IsValid cfg
    → ServiceOf (service_config m cfg) cfg.cache_max_entries (new_service (service_config m cfg))
unfolding new_service service_config
new_service-ServiceOf m cfg text valid =
    let releases = is_positive-some cfg.max_releases_per_search valid.releases.0 in
    let entries = is_positive-some cfg.cache_max_entries valid.entries.0 in
    let ttl1 = is_positive-some cfg.search_cache_ttl (omega (arith, valid.search_ttl)) in
    let ttl2 = is_positive-some cfg.torrents_cache_ttl (omega (arith, valid.torrents_ttl)) in
    let ttl3 = is_positive-some cfg.latest_cache_ttl (omega (arith, valid.latest_ttl)) in
    let ttl4 = is_positive-some cfg.negative_cache_ttl (omega (arith, valid.negative_ttl)) in
    let (c1, e1, n1) = caching-some cfg.cache_max_entries _ valid.entries.0 in
    let (c2, e2, n2) = caching-some cfg.cache_max_entries _ valid.entries.0 in
    let (c3, e3, n3) = caching-some cfg.cache_max_entries _ valid.entries.0 in
    (
      _,
      ensuring-true _ _ _ (ground arith) ∙ ensuring-true _ _ _ (ground arith) ∙ n1 ∙ n2 ∙ n3,
      refl,
      e1,
      e2,
      e3,
    )

pub new_api-constructed :
    (sha256 : Bytes → Bytes) (prefix key : Bytes) (timeout : ℕ)
    → 1 ≤ length key
    → valid_utf8 key ≡ true
    → 1 ≤ timeout
    → (api : NewApi) × (new_api sha256
          (some prefix)
          (record { api_key = key; request_timeout = pos timeout })
        ≡ constructed api)
      × (api.request_timeout ≡ timeout)
      × (api.api.api_key_digest ≡ sha256 key)
unfolding new_api
new_api-constructed sha256 prefix key timeout some_key text positive_timeout = (
  _,
  ensuring-true _ _ _ (filled key some_key text) ∙ positive-some timeout _ _ positive_timeout,
  refl,
  refl,
)
  where
    filled :
        (key : Bytes)
        → 1 ≤ length key
        → valid_utf8 key ≡ true
        → not (is_empty key) && valid_utf8 key ≡ true
    filled [] h t = absurd (omega arith)
    filled (c ∷ s) h t = t

pub is_api_url-base :
    (u v : Url)
    → IsBase u
    → v.scheme ≡ u.scheme
    → v.host ≡ u.host
    → v.has_user ≡ u.has_user
    → v.has_query ≡ u.has_query
    → v.has_fragment ≡ u.has_fragment
    → is_api_url v ≡ true
unfolding is_api_url
is_api_url-base u v base s h a q f =
    let https : same v.scheme (codes "https") ≡ true =
      ap (λ x. same x (codes "https")) s ∙ base.https in
    let host : is_empty v.host ≡ false = ap is_empty h ∙ base.host in
    let user = a ∙ base.user in
    let query = q ∙ base.query in let fragment = f ∙ base.fragment in ground arith
