-- ===== src/Torznab/Category/Selects.antt =====
-- What a `cat` list of internal/torznab/category.go selects, by the numbers that its parts stand for.
use anilibria_torznab.Prelude.{
  ℕ, ◌≡◌, refl, ◌∙◌, inl, inr, Bool, true, false, not, ◌&&◌, ◌||◌, none, some, List, [], ◌∷◌, ◌==◌,
  arith, if◌then◌else◌, Bool-cases, if_true, if_false,
}
use anilibria_torznab.Text.{
  Bytes, codes, same, split, all_bytes, is_digit, is_empty, has_prefix, trim_space, trim_zeros,
  decimal, decimal_from-le, decimal-trim_zeros, digits-trim_zeros, IsTrimmed, trim_zeros-IsTrimmed,
}
use anilibria_torznab.Torznab.Category.{
  category_tv, category_anime, CategoryFilter, positive_decimal, add_id, parse_part, parse_parts,
  parse_category_filter, matches,
}

-- A normalized text is that of a number of four digits exactly when it stands for the number.
is_5000 :
    (s : Bytes)
    → all_bytes is_digit s ≡ true
    → IsTrimmed s
    → same s (codes "5000") ≡ (decimal s == 5000)
is_5000 [] d z = refl
is_5000 (a ∷ []) d z = ground arith
is_5000 (a ∷ b ∷ []) d z = ground arith
is_5000 (a ∷ b ∷ c ∷ []) d z = ground arith
is_5000 (a ∷ b ∷ c ∷ x ∷ []) d z = ground arith
is_5000 (a ∷ b ∷ c ∷ x ∷ y ∷ s) d z =
    ground (arith, decimal_from-le (decimal (a ∷ b ∷ c ∷ x ∷ y ∷ [])) s)

is_5070 :
    (s : Bytes)
    → all_bytes is_digit s ≡ true
    → IsTrimmed s
    → same s (codes "5070") ≡ (decimal s == 5070)
is_5070 [] d z = refl
is_5070 (a ∷ []) d z = ground arith
is_5070 (a ∷ b ∷ []) d z = ground arith
is_5070 (a ∷ b ∷ c ∷ []) d z = ground arith
is_5070 (a ∷ b ∷ c ∷ x ∷ []) d z = ground arith
is_5070 (a ∷ b ∷ c ∷ x ∷ y ∷ s) d z =
    ground (arith, decimal_from-le (decimal (a ∷ b ∷ c ∷ x ∷ y ∷ [])) s)

-- Normalized digits are no text exactly when they stand for zero.
is_empty-eq-zero :
    (s : Bytes) → all_bytes is_digit s ≡ true → IsTrimmed s → is_empty s ≡ (decimal s == 0)
is_empty-eq-zero [] d z = refl
is_empty-eq-zero (c ∷ s) d z = ground (arith, decimal_from-le (decimal (c ∷ [])) s)

-- A part is accepted if it is a positive number in decimal digits, spaces around it allowed.
abbrev pub is_valid_part : Bytes → Bool
is_valid_part raw = all_bytes is_digit (trim_space raw) && not (decimal (trim_space raw) == 0)

-- Some part stands for the number.
abbrev pub lists_id : ℕ → List Bytes → Bool
lists_id n [] = false
lists_id n (raw ∷ parts) = decimal (trim_space raw) == n || lists_id n parts

abbrev pub all_valid : List Bytes → Bool
all_valid [] = true
all_valid (raw ∷ parts) = is_valid_part raw && all_valid parts

signed :
    (s : Bytes)
    → all_bytes is_digit s ≡ true
    → (has_prefix s (codes "+") ≡ false) × (has_prefix s (codes "-") ≡ false)
signed [] d = (refl, refl)
signed (c ∷ s) d = (ground arith, ground arith)

parse_part_lem :
    (raw : Bytes)
    → parse_part raw ≡ (if is_valid_part raw then some (trim_zeros (trim_space raw)) else none)
unfolding parse_part positive_decimal
parse_part_lem raw =
    let part = trim_space raw in
    elim (Bool-cases (all_bytes is_digit part)) [
      | inl d ↦ ground (
        arith,
        signed part d,
        is_empty-eq-zero (trim_zeros part) (digits-trim_zeros part d) (trim_zeros-IsTrimmed part),
        decimal-trim_zeros part,
        blank part,
      )
      | inr x ↦ ground arith
    ]
  where
    blank : (s : Bytes) → is_empty s ≡ true → decimal s ≡ 0
    blank [] e = refl
    blank (c ∷ s) e = cc

add_id_lem :
    (part : Bytes) (f : CategoryFilter)
    → all_bytes is_digit part ≡ true
    → add_id (trim_zeros part) f
      ≡ record f { tv = decimal part == 5000 || f.tv; anime = decimal part == 5070 || f.anime }
unfolding add_id
add_id_lem part f d =
    let dz = digits-trim_zeros part d in
    let z = trim_zeros-IsTrimmed part in
    rw (is_5000 (trim_zeros part) dz z, is_5070 (trim_zeros part) dz z, decimal-trim_zeros part)
      (ground arith)

parse_parts_lem :
    (parts : List Bytes) (f : CategoryFilter)
    → parse_parts parts f ≡ (
        if all_valid parts
        then some
            (record f { tv = lists_id 5000 parts || f.tv; anime = lists_id 5070 parts || f.anime })
        else none)
unfolding parse_parts
parse_parts_lem [] f = refl
parse_parts_lem (raw ∷ parts) f = elim (Bool-cases (is_valid_part raw)) [
  | inl good ↦
      let e : parse_part raw ≡ some (trim_zeros (trim_space raw)) =
        parse_part_lem raw ∙ if_true _ _ _ good in
      let d : all_bytes is_digit (trim_space raw) ≡ true = ground arith in
      rw (e, parse_parts)
        (ground (
          arith,
          parse_parts_lem parts (add_id (trim_zeros (trim_space raw)) f),
          add_id_lem (trim_space raw) f d,
        ))
  | inr bad ↦
      let e : parse_part raw ≡ none = parse_part_lem raw ∙ if_false _ _ _ bad in
      rw (e, parse_parts) (ground arith)
]

-- A `cat` list is accepted exactly when every part is a positive decimal number, and the filter has
-- the category TV, or Anime, exactly when some part stands for the number 5000, or 5070, leading zeros
-- and spaces around it allowed.
pub parse_category_filter_lem :
    (raw : Bytes)
    → let parts = split b',' raw in
      parse_category_filter (some raw) ≡ (
        if all_valid parts
        then some (record {
          all = false;
          tv = lists_id 5000 parts;
          anime = lists_id 5070 parts;
          present = true;
        })
        else none)
unfolding parse_category_filter
parse_category_filter_lem raw = ground (
  arith,
  parse_parts_lem (split b',' raw)
      (record { all = false; tv = false; anime = false; present = true }),
)

-- With an accepted list a TV result passes exactly when the list has 5000, and an anime result when
-- it has 5000, its parent category, or 5070. Without a list every result passes.
pub matches-lists_id :
    (raw : Bytes) (f : CategoryFilter)
    → parse_category_filter (some raw) ≡ some f
    → (matches f category_tv ≡ lists_id 5000 (split b',' raw))
      × (matches f category_anime
          ≡ (lists_id 5000 (split b',' raw) || lists_id 5070 (split b',' raw)))
unfolding matches
matches-lists_id raw f h =
    (ground (arith, parse_category_filter_lem raw), ground (arith, parse_category_filter_lem raw))
