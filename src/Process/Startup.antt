-- ===== src/Process/Startup.antt =====
-- A configuration that is accepted can be served.
use anilibria_torznab.Prelude.{
  subst, ◌<◌, ◌≡◌, sym, ap, ◌∙◌, true, false, some, pos, Constructed, constructed, arith,
}
use anilibria_torznab.Text.{Bytes, is_empty, all_bytes}
use anilibria_torznab.BaseUrl.{Url, NetUrl}
use anilibria_torznab.Cache.Lru.{new_lru}
use anilibria_torznab.Config.{loaded, Config}
use anilibria_torznab.Config.Load.{load_from}
use anilibria_torznab.Config.Accepted.{load_from-IsValid}
use anilibria_torznab.Anilibria.Construct.{is_version_char, version_or_dev}
use anilibria_torznab.Service.Construct.{ServiceConfig}
use anilibria_torznab.HttpApi.Construct.{new_api}
use anilibria_torznab.Process.{
  api_error, service_error, client_error, Machine, Outcome, Parts, Built, built, initialize,
  release_version, client_config, service_config, http_server, build,
}
use anilibria_torznab.Process.Constructors.{
  new_client-ClientOf, new_service-ServiceOf, new_api-constructed, is_api_url-base,
}

-- `url.Parse` reads the text of a URL as a URL with the same scheme and host, and with a user, a query or a
-- fragment only where that has one.
pub record Reparses (net : NetUrl) (u : Url) : Type 0 where
  pub url : Url
  pub parsed : net.parse (net.string u) ≡ some url
  pub scheme : url.scheme ≡ u.scheme
  pub host : url.host ≡ u.host
  pub user : url.has_user ≡ u.has_user
  pub query : url.has_query ≡ u.has_query
  pub fragment : url.has_fragment ≡ u.has_fragment

-- The parts do what the configuration says, and the server lets a request go on for longer than the handler.
pub record IsFor (cfg : Config) (parts : Parts) : Type 0 where
  pub http_timeout : parts.client.http_timeout ≡ cfg.http_timeout
  pub response_bytes : parts.client.max_response_bytes ≡ cfg.max_response_bytes
  pub gate : parts.client.gate ≡ cfg.max_concurrency
  pub interval : parts.client.limiter.interval ≡ cfg.request_interval
  pub search_cache : new_lru (pos cfg.cache_max_entries) ≡ some parts.service.search_cache
  pub torrents_cache : new_lru (pos cfg.cache_max_entries) ≡ some parts.service.torrents_cache
  pub latest_cache : new_lru (pos cfg.cache_max_entries) ≡ some parts.service.latest_cache
  pub releases : parts.service.config.max_releases_per_search ≡ pos cfg.max_releases_per_search
  pub request_timeout : parts.api.request_timeout ≡ cfg.request_timeout
  pub write_timeout : parts.api.request_timeout < parts.server.write_timeout

-- What a build has to bring along: the texts of its URLs can be read, its version is fit for a header, and
-- there is randomness.
pub record IsFit (m : Machine) (cfg : Config) : Type 0 where
  pub api_url : Reparses m.env.net_url cfg.api_base_url
  pub site_url : is_empty (m.env.net_url.string cfg.site_base_url) ≡ false
  pub version : all_bytes is_version_char (version_or_dev (release_version m.version)) ≡ true
  pub prefix : Bytes
  pub random : m.random ≡ some prefix

initialize-constructed :
    {A : Type 0} (error : Bytes → Outcome) {r : Constructed A} {a : A} (next : A → Built)
    → r ≡ constructed a
    → initialize error r next ≡ next a
unfolding initialize
initialize-constructed error next h = ground arith

-- A configuration that `LoadFrom` accepts passes the checks of all three constructors, none of which panics,
-- and they take over its limits, with a server that writes for longer than a request may take; provided
-- that `url.Parse` reads the text of its API URL with the same scheme and host, and no user, query or
-- fragment that the URL lacks, that the text of its site URL is not empty, that the version that was built
-- in has only characters fit for a header, and that crypto/rand gives its bytes.
pub build-IsFor :
    (m : Machine) (cfg : Config)
    → load_from m.env ≡ loaded cfg
    → IsFit m cfg
    → (parts : Parts) × (build m cfg ≡ built parts) × IsFor cfg parts
unfolding build http_server client_config service_config
build-IsFor m cfg accepted fit =
    let valid = load_from-IsValid m.env cfg accepted in
    let base = valid.api_base in
    let again = fit.api_url in
    let (client, made1, timeout, interval, gate, bytes) =
      new_client-ClientOf m.env.net_url (m.env.net_url.string cfg.api_base_url)
        (release_version m.version) again.url cfg.http_timeout cfg.request_interval
        cfg.max_concurrency cfg.max_response_bytes again.parsed
        (is_api_url-base cfg.api_base_url again.url base again.scheme again.host again.user
          again.query again.fragment)
        (omega (arith, valid.http_timeout)) (omega (arith, valid.interval)) valid.concurrency.0
        (omega (arith, valid.response_bytes)) fit.version in
    let (service, made2, config, c1, c2, c3) = new_service-ServiceOf m cfg fit.site_url valid in
    let (api, made3, request, digest) =
      new_api-constructed m.sha256 fit.prefix cfg.api_key cfg.request_timeout valid.key_present
        valid.key_text (omega (arith, valid.http_timeout, valid.timeouts)) in
    (
      record { client = client; service = service; api = api; server = http_server cfg },
      initialize-constructed client_error _ made1
          ∙ initialize-constructed service_error _ made2
          ∙ initialize-constructed api_error _ (
              subst
                (λ random.
                  new_api m.sha256 random
                    (record { api_key = cfg.api_key; request_timeout = pos cfg.request_timeout })
                  ≡ constructed api)
                (sym fit.random) made3),
      record {
        http_timeout = timeout;
        response_bytes = bytes;
        gate = gate;
        interval = interval;
        search_cache = c1;
        torrents_cache = c2;
        latest_cache = c3;
        releases = ap (λ (c : ServiceConfig). c.max_releases_per_search) config;
        request_timeout = request;
        write_timeout = omega (arith, request);
      },
    )
