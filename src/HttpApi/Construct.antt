-- ===== src/HttpApi/Construct.antt =====
-- internal/httpapi/httpapi.go: New.
use anilibria_torznab.Prelude.{
  ◌-◌, ℕ, ◌+◌, ◌/◌, ◌%◌, ◌&&◌, not, Option, none, some, [], ◌∷◌, ℤ, ltb, if◌then◌else◌, Constructed,
  constructed, refused, ensuring, positive,
}
use anilibria_torznab.Text.{Bytes, codes, is_empty, valid_utf8}
use anilibria_torznab.HttpApi.Server.{Api}

-- `Config`, less the executor, which is there, and the logger
pub record ApiConfig : Type 0 where
  pub api_key : Bytes
  pub request_timeout : ℤ

-- `API`; the rest of it is the state of the handlers.
pub record NewApi : Type 0 where
  pub api : Api
  pub request_timeout : ℕ
  pub request_prefix : Bytes

unfoldable pub hex_digit : ℕ → ℕ
hex_digit n = if ltb n 10 then b'0' + n else b'a' + n - 10

-- `hex.EncodeToString`
unfoldable pub hex : Bytes → Bytes
hex [] = []
hex (b ∷ s) = hex_digit (b / 16) ∷ hex_digit (b % 16) ∷ hex s

-- `New`, on the digest of crypto/sha256 and what is read from crypto/rand
unfoldable pub new_api : (Bytes → Bytes) → Option Bytes → ApiConfig → Constructed NewApi
new_api sha256 random cfg =
    ensuring (not (is_empty cfg.api_key) && valid_utf8 cfg.api_key)
      (codes "invalid HTTP API configuration")
      (positive cfg.request_timeout (codes "invalid HTTP API configuration") (λ request_timeout.
        elim random [
          | none ↦ refused (codes "initialize request IDs")
          | some prefix ↦ constructed (record {
            api = record { api_key_digest = sha256 cfg.api_key; request_counter = 0 };
            request_timeout = request_timeout;
            request_prefix = hex prefix;
          })
        ]))
