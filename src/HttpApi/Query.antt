-- ===== src/HttpApi/Query.antt =====
-- The raw query of internal/httpapi/httpapi.go: net/url's parsing, the API key, and the parameter that
-- a malformed query is blamed on.
use anilibria_torznab.Prelude.{
  ℕ, ◌+◌, ◌-◌, ◌*◌, Bool, true, false, ◌&&◌, ◌||◌, Option, none, some, List, [], ◌∷◌, leb, ◌==◌,
  if◌then◌else◌,
}
use anilibria_torznab.Text.{
  Bytes, codes, same, split, cut, contains_byte, is_digit, is_empty, equal_fold, to_lower,
}
use anilibria_torznab.Torznab.Parameter.{Parameter}
use anilibria_torznab.HttpApi.Values.{Values, append_to}

abbrev is_hex : ℕ → Bool
is_hex c = is_digit c || (leb b'a' c && leb c b'f') || (leb b'A' c && leb c b'F')

abbrev unhex : ℕ → ℕ
unhex c = if is_digit c then c - b'0' else if leb b'a' c then c - b'a' + 10 else c - b'A' + 10

abbrev plain : ℕ → ℕ
plain c = if c == b'+' then b' ' else c

abbrev prepend : ℕ → Option Bytes → Option Bytes
prepend c none = none
prepend c (some s) = some (c ∷ s)

-- `url.QueryUnescape`; `none` is its error
unfoldable pub query_unescape : Bytes → Option Bytes
query_unescape [] = some []
query_unescape (c ∷ []) = if c == b'%' then none else some (plain c ∷ [])
query_unescape (c ∷ a ∷ []) =
    let rest = query_unescape (a ∷ []) in if c == b'%' then none else prepend (plain c) rest
query_unescape (c ∷ a ∷ b ∷ s) =
    let escaped = prepend (unhex a * 16 + unhex b) (query_unescape s) in
    let rest = prepend (plain c) (query_unescape (a ∷ b ∷ s)) in
    if c == b'%' then (if is_hex a && is_hex b then escaped else none) else rest

-- One field of a query, decoded.
unfoldable pub decode_field : Bytes → Option (Bytes × Bytes)
unfolding query_unescape cut
decode_field field =
    let (raw_name, raw_value) = cut b'=' field in
    elim (query_unescape raw_name) [
      | none ↦ none
      | some name ↦ elim (query_unescape raw_value) [
        | none ↦ none
        | some value ↦ some (name, value)
      ]
    ]

-- The loop of `url.ParseQuery`: the values, and whether there was no error
unfoldable pub parse_fields : List Bytes → Values × Bool → Values × Bool
unfolding decode_field
parse_fields [] acc = acc
parse_fields (field ∷ fields) (values, fine) = parse_fields fields (
    if contains_byte b';' field
    then (values, false)
    else if is_empty field
    then (values, fine)
    else elim (decode_field field) [
      | none ↦ (values, false)
      | some (name, value) ↦ (append_to name (value ∷ []) values, fine)
    ])

unfoldable pub parse_query : Bytes → Values × Bool
unfolding parse_fields split
parse_query raw = parse_fields (split b'&' raw) ([], true)

-- `canonicalValues`
unfoldable pub canonical_values : (ℕ → ℕ) → Values → Values → Values
unfolding to_lower
canonical_values lower result [] = result
canonical_values lower result ((name, entries) ∷ rest) =
    canonical_values lower (append_to (to_lower lower name) entries result) rest

-- The loop of `rawAPIKey`, with what it has found.
unfoldable pub api_key_loop : List Bytes → Option Bytes → Option Bytes
unfolding query_unescape cut equal_fold
api_key_loop [] found = found
api_key_loop (field ∷ fields) found =
    let (raw_name, raw_value) = cut b'=' field in
    let rest = api_key_loop fields found in
    elim (query_unescape raw_name) [
      | none ↦ rest
      | some name ↦
          if equal_fold name (codes "apikey")
          then (elim found [
            | some _ ↦ none
            | none ↦ elim (query_unescape raw_value) [
              | none ↦ none
              | some value ↦ api_key_loop fields (some value)
            ]
          ])
          else rest
    ]

-- `rawAPIKey`: the value of the only `apikey` field
unfoldable pub raw_api_key : Bytes → Option Bytes
unfolding api_key_loop split
raw_api_key raw = api_key_loop (split b'&' raw) none

-- `knownParameters`
unfoldable pub known_parameter : Bytes → Option Parameter
known_parameter name =
    if same name (codes "apikey")
    then some Parameter.api_key
    else if same name (codes "t")
    then some Parameter.type
    else if same name (codes "q")
    then some Parameter.query
    else if same name (codes "cat")
    then some Parameter.category
    else if same name (codes "limit")
    then some Parameter.limit
    else if same name (codes "offset")
    then some Parameter.offset
    else if same name (codes "extended")
    then some Parameter.extended
    else if same name (codes "season")
    then some Parameter.season
    else if same name (codes "ep")
    then some Parameter.episode
    else none

-- The loop of `malformedQueryParameter`
unfoldable pub malformed_field : (ℕ → ℕ) → List Bytes → Parameter
unfolding query_unescape cut to_lower known_parameter
malformed_field lower [] = Parameter.type
malformed_field lower (field ∷ fields) =
    let (raw_name, raw_value) = cut b'=' field in
    let rest = malformed_field lower fields in
    elim (query_unescape raw_name) [
      | none ↦ rest
      | some name ↦ elim (known_parameter (to_lower lower name)) [
        | none ↦ rest
        | some parameter ↦
            if contains_byte b';' field
            then parameter
            else elim (query_unescape raw_value) [ none ↦ parameter | some _ ↦ rest ]
      ]
    ]

unfoldable pub malformed_query_parameter : (ℕ → ℕ) → Bytes → Parameter
unfolding malformed_field split
malformed_query_parameter lower raw = malformed_field lower (split b'&' raw)
