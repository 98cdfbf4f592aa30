-- ===== src/Tests/ProcessRuns.antt =====
-- cmd/server on a configuration that is accepted, with a signal that ends the server.
use anilibria_torznab.Prelude.{
  true, true, true, true, true, true, true, true, true, true, true, true, ◌≡◌, refl, true, some,
  none, ◌++◌,
}
use anilibria_torznab.Text.{
  Bytes, codes, parse_int, parse_uint, trim_space, to_lower, runes, encode_rune, valid_utf8,
}
use anilibria_torznab.BaseUrl.{skip_slashes, trim_right_slashes, with_slash}
use anilibria_torznab.Config.{
  loaded, and_then, within, before_suffix, split_unit, scale, byte_size_of, log_level,
  optional_string, validate_listen_addr, api_key, parse_https_base_url, duration, integer,
  byte_size,
}
use anilibria_torznab.Config.Load.{
  load_addresses, load_timeouts, load_limits, load_caches, load_from,
}
use anilibria_torznab.Anilibria.Construct.{is_version_char, version_or_dev}
use anilibria_torznab.Process.{
  Machine, server_closed, Parts, built, release_version, build, run, os_getenv, reachable_host,
  join_host_port, health_url,
}
use anilibria_torznab.Process.Startup.{IsFor, IsFit, build-IsFor}
use anilibria_torznab.Process.Shutdown.{lets_go, run-lets_go}
use anilibria_torznab.Process.Health.{IsReachable, health_url-Listens}
use anilibria_torznab.Tests.ConfigRuns.{url, environment, config}

abbrev machine : Machine
machine = record {
  env = environment;
  version = codes "v1.0";
  listen = λ addr. true;
  sha256 = λ key. key;
  random = some (codes "01234567");
  serve = none;
  shutdown = true;
  serve_after = server_closed;
}

accepted : load_from environment ≡ loaded config
unfolding load_from load_addresses load_timeouts load_limits load_caches and_then optional_string
    validate_listen_addr api_key parse_https_base_url duration integer byte_size byte_size_of
    split_unit before_suffix scale within log_level parse_int parse_uint trim_space to_lower runes
    encode_rune valid_utf8 with_slash trim_right_slashes skip_slashes
accepted = refl

machine-IsFit : IsFit machine config
unfolding is_version_char version_or_dev release_version
machine-IsFit = record {
  api_url = record {
    url = url;
    parsed = refl;
    scheme = refl;
    host = refl;
    user = refl;
    query = refl;
    fragment = refl;
  };
  site_url = refl;
  version = refl;
  prefix = codes "01234567";
  random = refl;
}

build-IsFor_example : (parts : Parts) × (build machine config ≡ built parts) × IsFor config parts
build-IsFor_example = build-IsFor machine config accepted machine-IsFit

run-lets_go_example : lets_go (run machine).0 ≡ true
run-lets_go_example = run-lets_go machine

health_url-Listens_example :
    (host : Bytes) × (port : Bytes) × (environment.split_host_port config.listen_addr
      ≡ some (host, port))
    × IsReachable host (reachable_host host)
    × (health_url environment
        ≡ some (codes "http://" ++ join_host_port (reachable_host host) port ++ codes "/healthz"))
unfolding os_getenv
health_url-Listens_example = health_url-Listens environment config accepted refl
