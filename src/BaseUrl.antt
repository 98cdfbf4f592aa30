-- ===== src/BaseUrl.antt =====
-- A base URL, as internal/config/config.go and internal/anilibria/client.go end it with one slash.
pub mod Slash
use mathlib.Core.List.{reverse}
use anilibria_torznab.Prelude.{Bool, Option, List, [], ◌∷◌, ◌++◌, ◌==◌, ℕ, if◌then◌else◌}
use anilibria_torznab.Text.{Bytes, codes, is_empty}

-- `url.URL`, as far as it is read here; `has_query` tells of `RawQuery`.
pub record Url : Type 0 where
  pub scheme : Bytes
  pub host : Bytes
  pub hostname : Bytes
  pub path : Bytes
  pub raw_path : Bytes
  pub is_opaque : Bool
  pub has_user : Bool
  pub has_query : Bool
  pub force_query : Bool
  pub has_fragment : Bool

-- net/url: `Parse` (`none` is its error), `EscapedPath`, `PathUnescape` (no text on an error), `String`
pub record NetUrl : Type 0 where
  pub parse : Bytes → Option Url
  pub escaped_path : Url → Bytes
  pub path_unescape : Bytes → Bytes
  pub string : Url → Bytes

unfoldable pub skip_slashes : Bytes → Bytes
skip_slashes [] = []
skip_slashes (c ∷ s) = let rest = skip_slashes s in if c == b'/' then rest else c ∷ s

-- `strings.TrimRight(s, "/")`
unfoldable pub trim_right_slashes : Bytes → Bytes
trim_right_slashes s = reverse (skip_slashes (reverse s))

unfoldable pub with_slash : NetUrl → Url → Url
with_slash net u =
    if is_empty u.raw_path
    then record u { path = trim_right_slashes u.path ++ codes "/" }
    else (let raw = trim_right_slashes (net.escaped_path u) ++ codes "/" in
        record u { raw_path = raw; path = net.path_unescape raw })
