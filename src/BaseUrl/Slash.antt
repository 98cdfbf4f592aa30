-- ===== src/BaseUrl/Slash.antt =====
-- What ends a base URL.
use mathlib.Core.List.{reverse-reverse, reverse}
use anilibria_torznab.Prelude.{
  ◌∙◌, sym, ap, subst, ◌≡◌, refl, false, true, Bool-cases, inl, inr, [], ◌∷◌, ◌++◌, if◌then◌else◌,
  arith,
}
use anilibria_torznab.Text.{Bytes, codes, same, is_empty}
use anilibria_torznab.BaseUrl.{Url, NetUrl, skip_slashes, trim_right_slashes, with_slash}

-- The path as it stands in the text of a URL
abbrev pub path_of : Url → Bytes
path_of u = if is_empty u.raw_path then u.path else u.raw_path

-- A text ends with one slash, not with two.
abbrev pub EndsInSlash : Bytes → Type 0
EndsInSlash s = (p : Bytes) × (s ≡ p ++ codes "/") × (skip_slashes (reverse p) ≡ reverse p)

-- A URL to which a path can be added: no user, query or fragment, and a slash at the end of its path
pub record IsBase (u : Url) : Type 0 where
  pub https : same u.scheme (codes "https") ≡ true
  pub host : is_empty u.host ≡ false
  pub user : u.has_user ≡ false
  pub query : u.has_query ≡ false
  pub fragment : u.has_fragment ≡ false
  pub slash : EndsInSlash (path_of u)

skip_slashes-idempotent : (s : Bytes) → skip_slashes (skip_slashes s) ≡ skip_slashes s
unfolding skip_slashes
skip_slashes-idempotent [] = refl
skip_slashes-idempotent (c ∷ s) = let ih = skip_slashes-idempotent s in ground arith

trim_right_slashes-EndsInSlash : (s : Bytes) → EndsInSlash (trim_right_slashes s ++ codes "/")
unfolding trim_right_slashes
trim_right_slashes-EndsInSlash s = (
  trim_right_slashes s,
  refl,
  ap skip_slashes (reverse-reverse (skip_slashes (reverse s)))
      ∙ skip_slashes-idempotent (reverse s)
      ∙ sym (reverse-reverse (skip_slashes (reverse s))),
)

append_filled : (s : Bytes) → is_empty (s ++ codes "/") ≡ false
append_filled [] = refl
append_filled (c ∷ s) = refl

-- `with_slash` touches the path alone.
pub with_slash-path_of : (net : NetUrl) (u : Url) → EndsInSlash (path_of (with_slash net u))
unfolding with_slash
with_slash-path_of net u = elim (Bool-cases (is_empty u.raw_path)) [
  | inl e ↦ subst EndsInSlash (sym (plain e)) (trim_right_slashes-EndsInSlash u.path)
  | inr e ↦
      subst EndsInSlash (sym (escaped e)) (trim_right_slashes-EndsInSlash (net.escaped_path u))
]
  where
    plain :
        is_empty u.raw_path ≡ true
        → path_of (with_slash net u) ≡ trim_right_slashes u.path ++ codes "/"
    plain e = ground arith

    escaped :
        is_empty u.raw_path ≡ false
        → path_of (with_slash net u) ≡ trim_right_slashes (net.escaped_path u) ++ codes "/"
    escaped e = let filled = append_filled (trim_right_slashes (net.escaped_path u)) in ground arith

pub with_slash-IsBase :
    (net : NetUrl) (u : Url)
    → same u.scheme (codes "https") ≡ true
    → is_empty u.host ≡ false
    → u.has_user ≡ false
    → u.has_query ≡ false
    → u.has_fragment ≡ false
    → IsBase (with_slash net u)
unfolding with_slash
with_slash-IsBase net u s h a q f = record {
  https = ground arith;
  host = ground arith;
  user = ground arith;
  query = ground arith;
  fragment = ground arith;
  slash = with_slash-path_of net u;
}
