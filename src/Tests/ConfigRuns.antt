-- ===== src/Tests/ConfigRuns.antt =====
-- internal/config on an environment that has the key and a size alone.
use anilibria_torznab.Prelude.{refl, false, none, some, [], ◌*◌, if◌then◌else◌}
use anilibria_torznab.Text.{
  codes, same, parse_int, parse_uint, trim_space, to_lower, runes, encode_rune, valid_utf8,
}
use anilibria_torznab.BaseUrl.{Url, NetUrl, skip_slashes, trim_right_slashes, with_slash}
use anilibria_torznab.Config.{
  and_then, info, Environment, Config, second, minute, millisecond, within, before_suffix,
  split_unit, scale, byte_size_of, log_level, optional_string, validate_listen_addr, api_key,
  parse_https_base_url, duration, integer, byte_size,
}
use anilibria_torznab.Config.Load.{
  load_addresses, load_timeouts, load_limits, load_caches, load_from,
}
use anilibria_torznab.Config.Accepted.{IsValid, load_from-IsValid}

abbrev pub url : Url
url = record {
  scheme = codes "https";
  host = codes "h";
  hostname = codes "h";
  path = codes "/";
  raw_path = [];
  is_opaque = false;
  has_user = false;
  has_query = false;
  force_query = false;
  has_fragment = false;
}

abbrev pub net_url : NetUrl
net_url = record {
  parse = λ raw. some url;
  escaped_path = λ u. u.path;
  path_unescape = λ raw. raw;
  string = λ u. codes "https://h/";
}

abbrev pub environment : Environment
environment = record {
  getenv = λ name.
      if same name (codes "API_KEY")
      then some (codes "k")
      else if same name (codes "MAX_RESPONSE_BYTES")
      then some (codes "2MiB")
      else none;
  split_host_port = λ raw. some ([], codes "8080");
  net_url = net_url;
  parse_duration = λ raw. none;
  lower = λ r. r;
}

abbrev pub config : Config
config = record {
  listen_addr = codes ":8080";
  api_key = codes "k";
  api_base_url = url;
  site_base_url = url;
  request_timeout = 90 * second;
  http_timeout = 15 * second;
  request_interval = 2100 * millisecond;
  max_concurrency = 4;
  max_releases_per_search = 10;
  max_response_bytes = 2097152;
  search_cache_ttl = 10 * minute;
  torrents_cache_ttl = 15 * minute;
  latest_cache_ttl = 5 * minute;
  negative_cache_ttl = minute;
  cache_max_entries = 1024;
  log_level = info;
}

load_from-IsValid_example : IsValid config
unfolding load_from load_addresses load_timeouts load_limits load_caches and_then optional_string
    validate_listen_addr api_key parse_https_base_url duration integer byte_size byte_size_of
    split_unit before_suffix scale within log_level parse_int parse_uint trim_space to_lower runes
    encode_rune valid_utf8 with_slash trim_right_slashes skip_slashes
load_from-IsValid_example = load_from-IsValid environment config refl
