-- ===== src/HttpApi/Numbers/Bounds.antt =====
-- What `limit` and `offset` of internal/httpapi/httpapi.go come to, as numbers.
use anilibria_torznab.Prelude.{
  ℕ, ◌^◌, ◌<◌, ◌≡◌, refl, sym, ap, ◌∙◌, inl, inr, Bool, true, false, not, ◌&&◌, ◌||◌, Option, none,
  some, [], ◌∷◌, ◌==◌, ltb, arith, length, min, if◌then◌else◌, Bool-cases, Option-cases, if_true,
  if_false, lt→ltb,
}
use anilibria_torznab.Text.{
  Bytes, codes, before, all_bytes, is_digit, is_empty, trim_zeros, parse_uint, decimal,
  decimal_from-le, decimal-trim_zeros, digits-trim_zeros, IsTrimmed, trim_zeros-IsTrimmed,
}
use anilibria_torznab.HttpApi.Values.{Values, single}
use anilibria_torznab.HttpApi.Numbers.{
  normalized_decimal, limit_of, parse_limit, offset_of, parse_offset,
}

-- A text of decimal digits, one at least.
abbrev pub is_decimal : Bytes → Bool
is_decimal raw = not (is_empty raw) && all_bytes is_digit raw

abbrev normal : Bytes → Bytes
normal raw = if is_empty (trim_zeros raw) then codes "0" else trim_zeros raw

normalized_decimal_lem :
    (raw : Bytes) → normalized_decimal raw ≡ (if is_decimal raw then some (normal raw) else none)
unfolding normalized_decimal
normalized_decimal_lem [] = refl
normalized_decimal_lem (c ∷ s) = ground arith

decimal-normal : (raw : Bytes) → decimal (normal raw) ≡ decimal raw
decimal-normal raw = ground (arith, decimal-trim_zeros raw, blank (trim_zeros raw))
  where
    blank : (s : Bytes) → is_empty s ≡ true → decimal s ≡ 0
    blank [] e = refl
    blank (c ∷ s) e = cc

-- Digits that are normal: one digit, or more with no zero first.
IsNormal : Bytes → Type 0
IsNormal s = (all_bytes is_digit s ≡ true) × (is_empty s ≡ false) × ((1 < length s) → IsTrimmed s)

-- The comparison of texts is that of the numbers.
limit_of_normal :
    (s : Bytes)
    → all_bytes is_digit s ≡ true
    → is_empty s ≡ false
    → (ltb 1 (length s) ≡ true → IsTrimmed s)
    → (if ltb 2 (length s) || (length s == 2 && before (codes "50") s)
        then some 50
        else parse_uint 8 s)
      ≡ some (min 50 (decimal s))
unfolding parse_uint
limit_of_normal [] d e t = cc
limit_of_normal (a ∷ []) d e t = ground arith
limit_of_normal (a ∷ b ∷ []) d e t = ground arith
limit_of_normal (a ∷ b ∷ c ∷ s) d e t =
    ground (arith, t (lt→ltb _ _ (omega arith)), decimal_from-le (decimal (a ∷ b ∷ c ∷ [])) s)

normal_digits : (raw : Bytes) → is_decimal raw ≡ true → all_bytes is_digit (normal raw) ≡ true
normal_digits raw d = ground (arith, digits-trim_zeros raw)

normal_nonempty : (raw : Bytes) → is_empty (normal raw) ≡ false
normal_nonempty raw = ground arith

normal-IsTrimmed : (raw : Bytes) → ltb 1 (length (normal raw)) ≡ true → IsTrimmed (normal raw)
normal-IsTrimmed raw h = elim (Bool-cases (is_empty (trim_zeros raw))) [
  | inl e ↦ absurd (ground arith)
  | inr e ↦ rw (if_false _ _ _ e) (trim_zeros-IsTrimmed raw)
]

limit_of_lem :
    (raw : Bytes) → limit_of raw ≡ (if is_decimal raw then some (min 50 (decimal raw)) else none)
unfolding limit_of
limit_of_lem raw = elim (Bool-cases (is_decimal raw)) [
  | inl d ↦
      rw (normalized_decimal_lem raw ∙ if_true _ _ _ d, limit_of)
        (limit_of_normal (normal raw) (normal_digits raw d) (normal_nonempty raw)
            (normal-IsTrimmed raw)
          ∙ ap (λ n. some (min 50 n)) (decimal-normal raw)
          ∙ sym (if_true _ _ _ d))
  | inr x ↦ rw (normalized_decimal_lem raw ∙ if_false _ _ _ x, limit_of) (sym (if_false _ _ _ x))
]

offset_of_lem :
    (raw : Bytes)
    → offset_of raw
      ≡ (if is_decimal raw && ltb (decimal raw) (2 ^ 64) then some (decimal raw) else none)
unfolding offset_of
offset_of_lem raw = elim (Bool-cases (is_decimal raw)) [
  | inl d ↦
      rw (normalized_decimal_lem raw ∙ if_true _ _ _ d, offset_of)
        (ground (arith, normal_digits raw d, normal_nonempty raw, decimal-normal raw))
  | inr x ↦ rw (normalized_decimal_lem raw ∙ if_false _ _ _ x, offset_of) (ground arith)
]

-- What a `limit` comes to, if it is there.
abbrev pub limit_spec : Option Bytes → Option ℕ
limit_spec none = some 50
limit_spec (some raw) = if is_decimal raw then some (min 50 (decimal raw)) else none

-- What an `offset` comes to, if it is there.
abbrev pub offset_spec : Option Bytes → Option ℕ
offset_spec none = some 0
offset_spec (some raw) =
    if is_decimal raw && ltb (decimal raw) (2 ^ 64) then some (decimal raw) else none

-- A `limit` is accepted exactly when it is a decimal number with no sign, however long, and comes to
-- that number or to 50, whichever is less; without one it is 50.
pub parse_limit_lem :
    (values : Values) → parse_limit values ≡ limit_spec (single values (codes "limit"))
unfolding parse_limit
parse_limit_lem values = elim (Option-cases (single values (codes "limit"))) [
  | inl e ↦ rw (e, parse_limit) refl
  | inr (raw, e) ↦ rw (e, parse_limit) (limit_of_lem raw)
]

-- An `offset` is accepted exactly when it is a decimal number with no sign that fits into 64 bits, and
-- comes to that number; without one it is 0.
pub parse_offset_lem :
    (values : Values) → parse_offset values ≡ offset_spec (single values (codes "offset"))
unfolding parse_offset
parse_offset_lem values = elim (Option-cases (single values (codes "offset"))) [
  | inl e ↦ rw (e, parse_offset) refl
  | inr (raw, e) ↦ rw (e, parse_offset) (offset_of_lem raw)
]
