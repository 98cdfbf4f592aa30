-- ===== src/Process.antt =====
-- cmd/server/main.go: the command line, the start of the server, its end, and the health check.
mod Constructors
pub mod Startup
pub mod Shutdown
pub mod Health
use anilibria_torznab.Prelude.{
  ℕ, ◌+◌, ◌*◌, Bool, true, false, ◌||◌, Option, none, some, List, [], ◌∷◌, ◌++◌, pos, drop, ◌==◌,
  if◌then◌else◌, Constructed, constructed, refused, panicked,
}
use anilibria_torznab.Text.{Bytes, codes, same, is_empty, has_prefix, contains_byte}
use anilibria_torznab.BaseUrl.{Url, NetUrl}
use anilibria_torznab.Config.{Loaded, loaded, invalid, Environment, Config, second}
use anilibria_torznab.Config.Load.{load_from}
use anilibria_torznab.Anilibria.Construct.{ClientConfig, NewClient, new_client}
use anilibria_torznab.Service.Construct.{ServiceConfig, NewService, new_service}
use anilibria_torznab.HttpApi.Construct.{ApiConfig, NewApi, new_api}

-- What `Serve` of net/http returns; `server_closed` is `http.ErrServerClosed`.
pub data ServeResult : Type 0 where
  no_error server_closed serve_failed : ServeResult

-- What is around a run: the environment, the version of the build, `net.Listen`, crypto, what `Serve`
-- returns before a signal (`none` where a signal is first) and behind the shutdown, and whether
-- `Shutdown` ends within its 30 seconds
pub record Machine : Type 0 where
  pub env : Environment
  pub version : Bytes
  pub listen : Bytes → Bool
  pub sha256 : Bytes → Bytes
  pub random : Option Bytes
  pub serve : Option ServeResult
  pub shutdown : Bool
  pub serve_after : ServeResult

-- What a run does to what it holds
pub data Event : Type 0 where
  listener_opened listener_closed : Event
  root_created root_cancelled : Event
  signals_watched signals_ignored : Event
  serving signalled shut_down shutdown_failed server_closed_now : Event

-- The result of `run`; an error of a part has its text.
pub data Outcome : Type 0 where
  stopped : Outcome
  configuration_error : Bytes → Outcome
  listen_error : Outcome
  client_error service_error api_error : Bytes → Outcome
  serve_error shutdown_error late_serve_error crash : Outcome

-- `http.Server`
pub record HttpServer : Type 0 where
  pub read_header_timeout : ℕ
  pub read_timeout : ℕ
  pub write_timeout : ℕ
  pub idle_timeout : ℕ

-- What is built before the server serves
pub record Parts : Type 0 where
  pub client : NewClient
  pub service : NewService
  pub api : NewApi
  pub server : HttpServer

pub data Built : Type 0 where
  built : Parts → Built
  failed : Outcome → Built

-- Goes on with what a constructor returns.
unfoldable pub initialize : {A : Type 0} → (Bytes → Outcome) → Constructed A → (A → Built) → Built
initialize error (constructed a) next = next a
initialize error (refused message) next = failed (error message)
initialize error panicked next = failed crash

-- `strings.TrimPrefix(version, "v")`
unfoldable pub release_version : Bytes → Bytes
release_version version = if has_prefix (codes "v") version then drop 1 version else version

unfoldable pub client_config : Machine → Config → ClientConfig
client_config m cfg = record {
  base_url = m.env.net_url.string cfg.api_base_url;
  version = release_version m.version;
  http_timeout = pos cfg.http_timeout;
  request_interval = pos cfg.request_interval;
  max_concurrency = pos cfg.max_concurrency;
  max_response_bytes = pos cfg.max_response_bytes;
}

unfoldable pub service_config : Machine → Config → ServiceConfig
service_config m cfg = record {
  site_base_url = m.env.net_url.string cfg.site_base_url;
  max_releases_per_search = pos cfg.max_releases_per_search;
  cache_max_entries = pos cfg.cache_max_entries;
  search_cache_ttl = pos cfg.search_cache_ttl;
  torrents_cache_ttl = pos cfg.torrents_cache_ttl;
  latest_cache_ttl = pos cfg.latest_cache_ttl;
  negative_cache_ttl = pos cfg.negative_cache_ttl;
}

unfoldable pub http_server : Config → HttpServer
http_server cfg = record {
  read_header_timeout = 5 * second;
  read_timeout = 15 * second;
  write_timeout = cfg.request_timeout + 5 * second;
  idle_timeout = 60 * second;
}

-- The constructors of `run`, in its order
unfoldable pub build : Machine → Config → Built
build m cfg = initialize client_error (new_client m.env.net_url (client_config m cfg)) (λ client.
    initialize service_error (new_service (service_config m cfg)) (λ service.
      initialize api_error
        (new_api m.sha256 m.random
          (record { api_key = cfg.api_key; request_timeout = pos cfg.request_timeout }))
        (λ api.
          built
            (record { client = client; service = service; api = api; server = http_server cfg }))))

-- `defer`: the last event comes however the function ends, also where it panics.
unfoldable pub deferring : Event → Event → List Event × Outcome → List Event × Outcome
deferring first last (events, outcome) = (first ∷ events ++ last ∷ [], outcome)

-- What `run` makes of the error that `Serve` has sent behind the shutdown
unfoldable pub after_shutdown : ServeResult → Outcome
after_shutdown no_error = stopped
after_shutdown server_closed = stopped
after_shutdown serve_failed = late_serve_error

-- The select of `run`, and the shutdown behind it
unfoldable pub serve_until_signal : Machine → List Event × Outcome
serve_until_signal m = elim m.serve [
  | some server_closed ↦ (serving ∷ [], stopped)
  | some no_error ↦ (serving ∷ [], serve_error)
  | some serve_failed ↦ (serving ∷ [], serve_error)
  | none ↦
      if m.shutdown
      then (serving ∷ signalled ∷ shut_down ∷ root_cancelled ∷ [], after_shutdown m.serve_after)
      else (
        serving ∷ signalled ∷ shutdown_failed ∷ root_cancelled ∷ server_closed_now ∷ [],
        shutdown_error,
      )
]

-- `run` behind its constructors
unfoldable pub serve : Machine → List Event × Outcome
serve m =
    deferring root_created root_cancelled
      (deferring signals_watched signals_ignored (serve_until_signal m))

unfoldable pub serve_built : Machine → Built → List Event × Outcome
serve_built m (built parts) = serve m
serve_built m (failed outcome) = ([], outcome)

-- `run`
unfoldable pub run : Machine → List Event × Outcome
run m = elim (load_from m.env) [
  | invalid name ↦ ([], configuration_error name)
  | loaded cfg ↦
      if m.listen cfg.listen_addr
      then deferring listener_opened listener_closed (serve_built m (build m cfg))
      else ([], listen_error)
]

-- `os.Getenv`: a variable that is missing reads as an empty one.
unfoldable pub os_getenv : Environment → Bytes → Bytes
os_getenv env name = elim (env.getenv name) [ none ↦ [] | some value ↦ value ]

-- `net.JoinHostPort`
unfoldable pub join_host_port : Bytes → Bytes → Bytes
join_host_port host port =
    (if contains_byte b':' host then codes "[" ++ host ++ codes "]" else host) ++ codes ":" ++ port

unfoldable pub is_unspecified : Bytes → Bool
is_unspecified host = is_empty host || (same host (codes "0.0.0.0") || same host (codes "::"))

unfoldable pub reachable_host : Bytes → Bytes
reachable_host host = if is_unspecified host then codes "127.0.0.1" else host

-- The URL of `healthcheck`, or none where the address has no host and port
unfoldable pub health_url : Environment → Option Bytes
health_url env =
    let endpoint = os_getenv env (codes "HEALTHCHECK_URL") in
    let configured = os_getenv env (codes "LISTEN_ADDR") in
    if is_empty endpoint
    then elim (env.split_host_port (if is_empty configured then codes ":8080" else configured)) [
      | none ↦ none
      | some (host, port) ↦
          some (codes "http://" ++ join_host_port (reachable_host host) port ++ codes "/healthz")
    ]
    else some endpoint

-- `healthcheck`, on the status of a GET within 5 seconds; true where there is no error
unfoldable pub healthcheck : Environment → (Bytes → Option ℕ) → Bool
healthcheck env fetch = elim (health_url env) [
  | none ↦ false
  | some url ↦ elim (fetch url) [ none ↦ false | some status ↦ status == 200 ]
]

-- The exit code of `main`: 0 where the function ends with no error; a panic exits with 2.
unfoldable pub exit_code : Outcome → ℕ
exit_code stopped = 0
exit_code crash = 2
exit_code (configuration_error name) = 1
exit_code listen_error = 1
exit_code (client_error message) = 1
exit_code (service_error message) = 1
exit_code (api_error message) = 1
exit_code serve_error = 1
exit_code shutdown_error = 1
exit_code late_serve_error = 1

-- `main`, on the arguments behind the name of the program
unfoldable pub main : Machine → (Bytes → Option ℕ) → List Bytes → ℕ
main m fetch [] = exit_code (run m).1
main m fetch (command ∷ rest) =
    if same command (codes "healthcheck")
    then (if healthcheck m.env fetch then 0 else 1)
    else if same command (codes "version")
    then 0
    else 2
