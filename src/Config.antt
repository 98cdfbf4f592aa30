-- ===== src/Config.antt =====
-- internal/config/config.go: the configuration and how one variable of the environment is read.
pub mod Load
pub mod Bounds
pub mod Accepted
use anilibria_torznab.Prelude.{
  ℕ, zero, suc, ◌+◌, ◌-◌, ◌*◌, ◌/◌, ◌^◌, Bool, true, false, ◌&&◌, ◌||◌, not, Option, none, some,
  List, [], ◌∷◌, ◌++◌, ℤ, pos, negsuc, length, drop, take, leb, ltb, ◌==◌, if◌then◌else◌,
}
use anilibria_torznab.BaseUrl.{Url, NetUrl, with_slash}
use anilibria_torznab.Text.{
  Bytes, codes, same, is_empty, contains_byte, trim_space, to_lower, valid_utf8, parse_int,
  parse_uint,
}

-- `LoadFrom` names the variable in its error.
pub data Loaded (A : Type 0) : Type 0 where
  loaded : A → Loaded A
  invalid : Bytes → Loaded A

unfoldable pub and_then : {A B : Type 0} → Loaded A → (A → Loaded B) → Loaded B
and_then (loaded a) f = f a
and_then (invalid name) f = invalid name

pub data LogLevel : Type 0 where
  debug info warn error : LogLevel

-- The environment, `net.SplitHostPort`, net/url, `time.ParseDuration` (`none` is the error) and the table
-- of unicode.ToLower
pub record Environment : Type 0 where
  pub getenv : Bytes → Option Bytes
  pub split_host_port : Bytes → Option (Bytes × Bytes)
  pub net_url : NetUrl
  pub parse_duration : Bytes → Option ℤ
  pub lower : ℕ → ℕ

-- `Config`; durations are in nanoseconds.
pub record Config : Type 0 where
  pub listen_addr : Bytes
  pub api_key : Bytes
  pub api_base_url : Url
  pub site_base_url : Url
  pub request_timeout : ℕ
  pub http_timeout : ℕ
  pub request_interval : ℕ
  pub max_concurrency : ℕ
  pub max_releases_per_search : ℕ
  pub max_response_bytes : ℕ
  pub search_cache_ttl : ℕ
  pub torrents_cache_ttl : ℕ
  pub latest_cache_ttl : ℕ
  pub negative_cache_ttl : ℕ
  pub cache_max_entries : ℕ
  pub log_level : LogLevel

abbrev pub millisecond : ℕ
millisecond = 1_000_000

abbrev pub second : ℕ
second = 1000 * millisecond

abbrev pub minute : ℕ
minute = 60 * second

abbrev pub hour : ℕ
hour = 60 * minute

-- A number that is parsed, if it lies between two bounds
unfoldable pub within : Bytes → ℕ → ℕ → ℤ → Loaded ℕ
within name minimum maximum (negsuc n) = invalid name
within name minimum maximum (pos n) =
    if ltb n minimum || ltb maximum n then invalid name else loaded n

-- `strings.HasSuffix` and `strings.TrimSuffix`: what is before the suffix
unfoldable pub before_suffix : Bytes → Bytes → Option Bytes
before_suffix raw suffix =
    if leb (length suffix) (length raw) && same (drop (length raw - length suffix) raw) suffix
    then some (take (length raw - length suffix) raw)
    else none

-- The number and the multiplier of `byteSize`. At most one of the suffixes fits, so that the order of
-- the map does not matter.
unfoldable pub split_unit : Bytes → Bytes × ℕ
split_unit raw = elim (before_suffix raw (codes "KiB")) [
  | some number ↦ (number, 1024)
  | none ↦ elim (before_suffix raw (codes "MiB")) [
    | some number ↦ (number, 1024 * 1024)
    | none ↦ elim (before_suffix raw (codes "GiB")) [
      | some number ↦ (number, 1024 * 1024 * 1024)
      | none ↦ (raw, 1)
    ]
  ]
]

-- `byteSize` on a value that is there
unfoldable pub scale : Bytes → ℕ → ℕ → ℕ → ℤ → Loaded ℕ
scale name minimum maximum multiplier (negsuc n) = invalid name
scale name minimum maximum multiplier (pos n) =
    if ltb ((2 ^ 63 - 1) / multiplier) n
    then invalid name
    else within name minimum maximum (pos (n * multiplier))

unfoldable pub byte_size_of : Bytes → ℕ → ℕ → Bytes → Loaded ℕ
byte_size_of name minimum maximum raw =
    let (number, multiplier) = split_unit raw in
    if is_empty number then invalid name else elim (parse_int number) [
      | none ↦ invalid name
      | some value ↦ scale name minimum maximum multiplier value
    ]

-- `logLevel`
unfoldable pub log_level : Bytes → Loaded LogLevel
log_level lowered =
    if same lowered (codes "debug")
    then loaded debug
    else if same lowered (codes "info")
    then loaded info
    else if same lowered (codes "warn")
    then loaded warn
    else if same lowered (codes "error")
    then loaded error
    else invalid (codes "LOG_LEVEL")

module _ (env : Environment) where
  -- `optionalString`
  unfoldable pub optional_string : Bytes → Bytes → Bytes
  optional_string name fallback = elim (env.getenv name) [ none ↦ fallback | some value ↦ value ]

  -- `validateListenAddr`
  unfoldable pub validate_listen_addr : Bytes → Loaded Bytes
  validate_listen_addr raw =
      if is_empty (trim_space raw)
      then invalid (codes "LISTEN_ADDR")
      else elim (env.split_host_port raw) [
        | none ↦ invalid (codes "LISTEN_ADDR")
        | some (host, port) ↦ elim (parse_uint 16 port) [
          | none ↦ invalid (codes "LISTEN_ADDR")
          | some value ↦ if value == 0 then invalid (codes "LISTEN_ADDR") else loaded raw
        ]
      ]

  -- `API_KEY`, an empty text where it is missing
  unfoldable pub api_key : Loaded Bytes
  api_key =
      let key = optional_string (codes "API_KEY") [] in
      if ltb (length key) 1 || (ltb 1024 (length key) || not (valid_utf8 key))
      then invalid (codes "API_KEY")
      else loaded key

  -- `parseHTTPSBaseURL`
  unfoldable pub parse_https_base_url : Bytes → Bytes → Loaded Url
  parse_https_base_url name raw = elim (env.net_url.parse raw) [
    | none ↦ invalid name
    | some url ↦
        if not (same url.scheme (codes "https"))
          || (is_empty url.host || (is_empty url.hostname || url.is_opaque))
        then invalid name
        else if url.has_user
            || (url.has_query || (url.force_query || (url.has_fragment || contains_byte b'#' raw)))
        then invalid name
        else loaded (with_slash env.net_url url)
  ]

  -- `duration`
  unfoldable pub duration : Bytes → ℕ → ℕ → ℕ → Loaded ℕ
  duration name fallback minimum maximum = elim (env.getenv name) [
    | none ↦ loaded fallback
    | some raw ↦ elim (env.parse_duration raw) [
      | none ↦ invalid name
      | some value ↦ within name minimum maximum value
    ]
  ]

  -- `integer`
  unfoldable pub integer : Bytes → ℕ → ℕ → ℕ → Loaded ℕ
  integer name fallback minimum maximum = elim (env.getenv name) [
    | none ↦ loaded fallback
    | some raw ↦ elim (parse_int raw) [
      | none ↦ invalid name
      | some value ↦ within name minimum maximum value
    ]
  ]

  -- `byteSize`
  unfoldable pub byte_size : Bytes → ℕ → ℕ → ℕ → Loaded ℕ
  byte_size name fallback minimum maximum = elim (env.getenv name) [
    | none ↦ loaded fallback
    | some raw ↦ byte_size_of name minimum maximum raw
  ]
