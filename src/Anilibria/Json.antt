-- ===== src/Anilibria/Json.antt =====
-- internal/anilibria/models.go: the check that the strings of a torrent are encoded well, which the decoder
-- of encoding/json does not make.
mod Leads
pub mod Encoding
pub mod Fields
use anilibria_torznab.Prelude.{
  ℕ, zero, suc, ◌+◌, ◌-◌, ◌*◌, Bool, true, false, ◌&&◌, ◌||◌, not, Option, none, some, List, [],
  ◌∷◌, length, take, drop, leb, ltb, ◌==◌, if◌then◌else◌,
}
use anilibria_torznab.Text.{Bytes, codes, is_empty, is_digit, first_rune, rune_error}
use anilibria_torznab.Torznab.Category.{ReleaseType}
use anilibria_torznab.Anilibria.Models.{RawTorrent}

unfoldable pub hex_value : ℕ → Option ℕ
hex_value c =
    if is_digit c
    then some (c - b'0')
    else if leb b'a' c && leb c b'f'
    then some (c - b'a' + 10)
    else if leb b'A' c && leb c b'F'
    then some (c - b'A' + 10)
    else none

unfoldable pub four_digits : Option ℕ → Option ℕ → Option ℕ → Option ℕ → Option ℕ
four_digits (some a) (some b) (some c) (some d) = some (((a * 16 + b) * 16 + c) * 16 + d)
four_digits _ _ _ _ = none

-- `jsonHexQuad` at the start of what is left; four digits fit into 16 bits.
unfoldable pub json_hex_quad : Bytes → Option ℕ
json_hex_quad (a ∷ b ∷ c ∷ d ∷ s) =
    four_digits (hex_value a) (hex_value b) (hex_value c) (hex_value d)
json_hex_quad _ = none

-- The loop of `validJSONStringEncoding` has no index: what is left of the string is a list that still has the
-- closing quote, and a step gives by how much the index grows, or none where the string is not valid.
unfoldable pub is_escaped_unit : Bytes → Bool
is_escaped_unit (a ∷ b ∷ s) = a == b'\\' && b == b'u'
is_escaped_unit _ = false

-- The low surrogate behind a high one
unfoldable pub low_width : Option ℕ → Option ℕ
low_width none = none
low_width (some low) = if ltb low 0xdc00 || ltb 0xdfff low then none else some 12

unfoldable pub pair_width : Bytes → Option ℕ
pair_width s =
    if ltb (length s) 7 || not (is_escaped_unit s)
    then none
    else low_width (json_hex_quad (drop 2 s))

-- A unit, in front of what is behind it
unfoldable pub unit_width : Option ℕ → Bytes → Option ℕ
unit_width none s = none
unit_width (some code) s =
    if leb 0xd800 code && leb code 0xdbff
    then pair_width s
    else if leb 0xdc00 code && leb code 0xdfff
    then none
    else some 6

-- A backslash, on what is behind it
unfoldable pub escape_width : Bytes → Option ℕ
escape_width (c ∷ d ∷ s) =
    if not (c == b'u') then some 2 else unit_width (json_hex_quad (d ∷ s)) (drop 4 (d ∷ s))
escape_width _ = none

-- `utf8.DecodeRune` on all but the closing quote
unfoldable pub rune_width : ℕ × ℕ → Option ℕ
rune_width (rune, size) = if rune == rune_error && size == 1 then none else some size

unfoldable pub width : Bytes → Option ℕ
width [] = none
width (c ∷ s) =
    if c == b'\\'
    then escape_width s
    else if ltb c 0x80
    then some 1
    else rune_width (first_rune (take (length s) (c ∷ s)))

-- The loop, with the number of bytes that a step has still to pass
unfoldable pub encoding_loop : ℕ → Bytes → Bool
encoding_loop skip [] = true
encoding_loop (suc skip) (c ∷ s) = encoding_loop skip s
encoding_loop zero (c ∷ []) = true
encoding_loop zero (c ∷ d ∷ s) = elim (width (c ∷ d ∷ s)) [
  | none ↦ false
  | some n ↦ encoding_loop (n - 1) (d ∷ s)
]

abbrev last_byte : Bytes → ℕ
last_byte [] = 0
last_byte (c ∷ []) = c
last_byte (c ∷ d ∷ s) = last_byte (d ∷ s)

-- `validJSONStringEncoding`
unfoldable pub valid_json_string_encoding : Bytes → Bool
valid_json_string_encoding [] = true
valid_json_string_encoding (c ∷ []) = true
valid_json_string_encoding (c ∷ d ∷ s) =
    if not (c == b'"') || not (last_byte (d ∷ s) == b'"') then true else encoding_loop 0 (d ∷ s)

-- The raw JSON of the strings of a torrent, as `json.Unmarshal` finds it
pub record RawStrings : Type 0 where
  pub hash : Bytes
  pub label : Bytes
  pub magnet : Bytes
  pub updated_at : Bytes
  pub release_type : Bytes
  pub release_name : Bytes
  pub release_alias : Bytes

unfoldable pub named_strings : RawStrings → List (Bytes × Bytes)
named_strings r =
    (codes "hash", r.hash)
    ∷ (codes "label", r.label)
    ∷ (codes "magnet", r.magnet)
    ∷ (codes "updated_at", r.updated_at)
    ∷ (codes "release.type.value", r.release_type)
    ∷ (codes "release.name.main", r.release_name)
    ∷ (codes "release.alias", r.release_alias)
    ∷ []

unfoldable pub is_json_string : Bytes → Bool
is_json_string [] = false
is_json_string (c ∷ s) = c == b'"'

unfoldable pub first_invalid : List (Bytes × Bytes) → Option Bytes
first_invalid [] = none
first_invalid ((name, raw) ∷ fields) =
    let rest = first_invalid fields in
    if is_json_string raw && not (valid_json_string_encoding raw) then some name else rest

-- `invalidTorrentStringField`, where no name is none
unfoldable pub invalid_torrent_string_field : Option RawStrings → Option Bytes
invalid_torrent_string_field none = none
invalid_torrent_string_field (some r) = first_invalid (named_strings r)

-- `json.Unmarshal` into the two types; `none` is its error.
pub record Unmarshal : Type 0 where
  pub torrent : Bytes → Option RawTorrent
  pub strings : Bytes → Option RawStrings

-- `UnmarshalJSON` of a raw torrent
unfoldable pub unmarshal_torrent : Unmarshal → Bytes → Option RawTorrent
unmarshal_torrent u data_bytes = elim (u.torrent data_bytes) [
  | none ↦ none
  | some raw ↦
      some (record raw { invalid_string = invalid_torrent_string_field (u.strings data_bytes) })
]
