-- ===== src/Anilibria/Construct.antt =====
-- internal/anilibria/client.go: NewClient.
use anilibria_torznab.Prelude.{
  ℕ, Bool, ◌&&◌, ◌||◌, not, none, some, ◌++◌, ℤ, leb, ◌==◌, if◌then◌else◌, Constructed, constructed,
  refused, ensuring, positive,
}
use anilibria_torznab.Text.{Bytes, codes, same, all_bytes, is_digit, is_empty}
use anilibria_torznab.BaseUrl.{Url, NetUrl, with_slash}
use anilibria_torznab.Anilibria.Limiter.{Limiter}

-- `Config`, less the HTTP client and the logger; a duration is any 64-bit number.
pub record ClientConfig : Type 0 where
  pub base_url : Bytes
  pub version : Bytes
  pub http_timeout : ℤ
  pub request_interval : ℤ
  pub max_concurrency : ℤ
  pub max_response_bytes : ℤ

-- The fields of `Client` that NewClient sets; the gate is known by its capacity.
pub record NewClient : Type 0 where
  pub base_url : Url
  pub http_timeout : ℕ
  pub max_response_bytes : ℕ
  pub user_agent : Bytes
  pub gate : ℕ
  pub limiter : Limiter

unfoldable pub is_version_char : ℕ → Bool
is_version_char c =
    (leb b'a' c && leb c b'z')
    || ((leb b'A' c && leb c b'Z') || (is_digit c || (c == b'.' || (c == b'_' || c == b'-'))))

-- The version in the user agent
unfoldable pub version_or_dev : Bytes → Bytes
version_or_dev version = if is_empty version then codes "dev" else version

unfoldable pub is_api_url : Url → Bool
is_api_url u =
    not (is_empty u.host)
    && ((same u.scheme (codes "https") || same u.scheme (codes "http"))
        && not (u.has_user || (u.has_query || u.has_fragment)))

-- `NewClient`. A version that has a byte beyond ASCII is refused, as its runes are.
unfoldable pub new_client : NetUrl → ClientConfig → Constructed NewClient
new_client net config = elim (net.parse config.base_url) [
  | none ↦ refused (codes "invalid AniLiberty API base URL")
  | some url ↦ ensuring (is_api_url url) (codes "invalid AniLiberty API base URL") (
      positive config.http_timeout (codes "HTTP timeout must be positive") (λ http_timeout.
        positive config.request_interval (codes "request interval must be positive") (λ interval.
          positive config.max_concurrency (codes "maximum concurrency must be positive") (λ slots.
            positive config.max_response_bytes (codes "maximum response size must be positive")
              (λ response_bytes.
                let version = version_or_dev config.version in
                ensuring (all_bytes is_version_char version) (codes "invalid application version") (
                  constructed (record {
                    base_url = with_slash net url;
                    http_timeout = http_timeout;
                    max_response_bytes = response_bytes;
                    user_agent =
                        codes "anilibria-torznab/"
                        ++ version
                        ++ codes " (+https://github.com/Zenderg/anilibria-torznab)";
                    gate = slots;
                    limiter = record { interval = interval; next = 0 };
                  })))))))
]
