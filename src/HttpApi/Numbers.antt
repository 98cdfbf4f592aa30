-- ===== src/HttpApi/Numbers.antt =====
-- `limit` and `offset` of internal/httpapi/httpapi.go.
pub mod Bounds
use anilibria_torznab.Prelude.{
  ℕ, ◌^◌, Bool, ◌&&◌, ◌||◌, Option, none, some, List, [], ◌∷◌, length, ltb, ◌==◌, if◌then◌else◌,
}
use anilibria_torznab.Text.{
  Bytes, codes, before, has_prefix, all_bytes, is_digit, is_empty, trim_zeros, parse_uint,
}
use anilibria_torznab.HttpApi.Values.{Values, single}

-- `normalizedDecimal`
unfoldable pub normalized_decimal : Bytes → Option Bytes
normalized_decimal raw =
    if is_empty raw || has_prefix raw (codes "+") || has_prefix raw (codes "-")
    then none
    else if all_bytes is_digit raw
    then (let normalized = trim_zeros raw in
        some (if is_empty normalized then codes "0" else normalized))
    else none

-- `parseLimit` on a value that is there
unfoldable pub limit_of : Bytes → Option ℕ
unfolding normalized_decimal parse_uint
limit_of raw = elim (normalized_decimal raw) [
  | none ↦ none
  | some n ↦
      if ltb 2 (length n) || (length n == 2 && before (codes "50") n)
      then some 50
      else parse_uint 8 n
]

-- `parseLimit`
unfoldable pub parse_limit : Values → Option ℕ
unfolding limit_of single
parse_limit values = elim (single values (codes "limit")) [
  | none ↦ some 50
  | some raw ↦ limit_of raw
]

unfoldable pub offset_of : Bytes → Option ℕ
unfolding normalized_decimal parse_uint
offset_of raw = elim (normalized_decimal raw) [ none ↦ none | some n ↦ parse_uint 64 n ]

-- `parseOffset`
unfoldable pub parse_offset : Values → Option ℕ
unfolding offset_of single
parse_offset values = elim (single values (codes "offset")) [
  | none ↦ some 0
  | some raw ↦ offset_of raw
]
