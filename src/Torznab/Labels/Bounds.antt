-- ===== src/Torznab/Labels/Bounds.antt =====
-- What the metadata of a label may be.
use mathlib.Core.List.{reverse}
use anilibria_torznab.Prelude.{
  ℕ, suc, ◌+◌, length, ◌≤◌, ◌<◌, ◌≡◌, refl, false, not, Option, none, some, List, [], ◌∷◌, drop,
  ltb, if◌then◌else◌, if_rule, arith,
}
use anilibria_torznab.Text.{Bytes, Runes, is_empty, encode, trim_runes, equal_fold, to_upper_ascii}
use anilibria_torznab.Text.Regexp.{Match, group, find, find_all, submatch}
use anilibria_torznab.Torznab.Title.{
  EpisodeRange, bounded_positive_integer, english_ordinal_suffix, canonical, roman_loop,
  roman_season,
}
use anilibria_torznab.Torznab.Title.Numbers.{bounded_positive_integer_bounds}
use anilibria_torznab.Torznab.Tokens.{
  Unicode, max_season, max_episode, complete_token, slice, digits, has_numeric_continuation_after,
}
use anilibria_torznab.Torznab.Query.Filters.{InRange}
use anilibria_torznab.Torznab.Labels.{
  Decision, decided, undecided, explicit_season, ordinal_season, explicit_loop, ordinal_groups,
  ordinal_loop, trailing_roman, trailing_season, without_year, otherwise, parse_season,
  episode_parts, episode_end, episode_range, group_range, episodes_loop, bracket_group,
  parse_episodes,
}

-- A range of episodes from 1 to 9999
abbrev pub IsRange : Option EpisodeRange → Type 0
IsRange none = Unit
IsRange (some range) = (1 ≤ range.start) × (range.start ≤ range.end) × (range.end ≤ max_episode)

bounded-InRange :
    (raw : Bytes) (maximum : ℕ) → InRange maximum (bounded_positive_integer raw maximum)
bounded-InRange raw maximum = by_value (bounded_positive_integer raw maximum) refl
  where
    by_value : (o : Option ℕ) → bounded_positive_integer raw maximum ≡ o → InRange maximum o
    by_value none e = tt
    by_value (some v) e = bounded_positive_integer_bounds raw maximum v e

-- What a loop decides is in range.
abbrev DecidesInRange : Decision → Type 0
DecidesInRange (decided season) = InRange max_season season
DecidesInRange undecided = Unit

explicit_loop-InRange :
    (u : Unicode) (value : Runes) (matches : List Match)
    → DecidesInRange (explicit_loop u value matches)
unfolding explicit_loop
explicit_loop-InRange u value [] = tt
explicit_loop-InRange u value (m ∷ matches) =
    if_rule DecidesInRange (not (complete_token u value m.start m.end))
      (λ e. explicit_loop-InRange u value matches)
      (λ e.
        if_rule DecidesInRange (has_numeric_continuation_after (drop m.end value) false) (λ e'. tt)
          (λ e'. by_digits (find (group 1 digits) (slice value m.start m.end))))
  where
    by_digits :
        (o : Option Match)
        → DecidesInRange (elim o as (λ _. Decision) [
          | none ↦ decided none
          | some number ↦ decided (bounded_positive_integer (submatch 1 number.groups) max_season)
        ])
    by_digits none = tt
    by_digits (some number) = bounded-InRange (submatch 1 number.groups) max_season

ordinal_loop-InRange :
    (u : Unicode) (value : Runes) (matches : List Match)
    → DecidesInRange (ordinal_loop u value matches)
unfolding ordinal_loop
ordinal_loop-InRange u value [] = tt
ordinal_loop-InRange u value (m ∷ matches) =
    let parts = ordinal_groups (slice value m.start m.end) in
    let later = ordinal_loop-InRange u value matches in
    if_rule DecidesInRange (not (complete_token u value m.start m.end)) (λ e. later)
      (λ e. by_number (bounded_positive_integer (submatch 1 parts) max_season) refl later)
  where
    by_number :
        (o : Option ℕ)
        → bounded_positive_integer
            (submatch 1 (ordinal_groups (slice value m.start m.end)))
            max_season
          ≡ o
        → DecidesInRange (ordinal_loop u value matches)
        → DecidesInRange (elim o as (λ _. Decision) [
          | none ↦ decided none
          | some number ↦
              if equal_fold
                (encode (submatch 2 (ordinal_groups (slice value m.start m.end))))
                (english_ordinal_suffix number)
              then decided (some number)
              else ordinal_loop u value matches
        ])
    by_number none e later = tt
    by_number (some number) e later =
        if_rule DecidesInRange
          (equal_fold (encode (submatch 2 (ordinal_groups (slice value m.start m.end))))
            (english_ordinal_suffix number))
          (λ h.
            bounded_positive_integer_bounds
              (submatch 1 (ordinal_groups (slice value m.start m.end))) max_season number e)
          (λ h. later)

roman_loop-le :
    (value : Bytes) (number : ℕ) (numerals : List Bytes)
    → 1 ≤ number
    → (v : ℕ) → roman_loop value number numerals ≡ some v
    → (1 ≤ v) × (v < number + length numerals)
unfolding roman_loop
roman_loop-le value number [] h v e = absurd (ground arith)
roman_loop-le value number (numeral ∷ rest) h v e =
    ground (arith, roman_loop-le value (suc number) rest (omega arith) v)

roman_season-InRange : (value : Bytes) → InRange max_season (roman_season value)
unfolding roman_season
roman_season-InRange value = by_value (roman_loop value 1 canonical) refl
  where
    by_value : (o : Option ℕ) → roman_loop value 1 canonical ≡ o → InRange max_season o
    by_value none e = tt
    by_value (some v) e =
        let l = roman_loop-le value 1 canonical (omega arith) v e in (l.0, omega arith)

trailing_season-InRange : (value : Runes) → InRange max_season (trailing_season value)
unfolding trailing_season
trailing_season-InRange value = by_match (find trailing_roman (without_year value))
  where
    by_match :
        (o : Option Match)
        → InRange max_season (elim o as (λ _. Option ℕ) [
          | none ↦ none
          | some m ↦ roman_season (to_upper_ascii (submatch 1 m.groups))
        ])
    by_match none = tt
    by_match (some m) = roman_season-InRange (to_upper_ascii (submatch 1 m.groups))

otherwise-InRange :
    (d : Decision) (next : Option ℕ)
    → DecidesInRange d
    → InRange max_season next
    → InRange max_season (otherwise d next)
unfolding otherwise
otherwise-InRange (decided season) next a b = a
otherwise-InRange undecided next a b = b

pub parse_season-InRange : (u : Unicode) (value : Runes) → InRange max_season (parse_season u value)
unfolding parse_season
parse_season-InRange u value =
    otherwise-InRange (explicit_loop u value (find_all explicit_season value)) _
      (explicit_loop-InRange u value (find_all explicit_season value))
      (otherwise-InRange (ordinal_loop u value (find_all ordinal_season value)) _
        (ordinal_loop-InRange u value (find_all ordinal_season value))
        (trailing_season-InRange value))

episode_end-IsRange :
    (start : ℕ) (last : Runes) → 1 ≤ start → start ≤ max_episode → IsRange (episode_end start last)
unfolding episode_end
episode_end-IsRange start last low high =
    if_rule IsRange (is_empty last) (λ e. (low, omega arith, high))
      (λ e. by_end (bounded_positive_integer last max_episode) (bounded-InRange last max_episode))
  where
    by_end :
        (o : Option ℕ)
        → InRange max_episode o
        → IsRange (elim o as (λ _. Option EpisodeRange) [
          | none ↦ none
          | some end ↦ if ltb end start then none else some (record { start = start; end = end })
        ])
    by_end none h = tt
    by_end (some end) h = if_rule IsRange (ltb end start) (λ e. tt) (λ e. (low, ground arith, h.1))

episode_range-IsRange : (parts : List (ℕ × Runes)) → IsRange (episode_range parts)
unfolding episode_range
episode_range-IsRange parts =
    by_start (bounded_positive_integer (submatch 1 parts) max_episode)
      (bounded-InRange (submatch 1 parts) max_episode)
  where
    by_start :
        (o : Option ℕ)
        → InRange max_episode o
        → IsRange (elim o as (λ _. Option EpisodeRange) [
          | none ↦ none
          | some start ↦ episode_end start (submatch 2 parts)
        ])
    by_start none h = tt
    by_start (some start) h = episode_end-IsRange start (submatch 2 parts) h.0 h.1

group_range-IsRange : (m : Match) → IsRange (group_range m)
unfolding group_range
group_range-IsRange m = by_parts (episode_parts (trim_runes (submatch 1 m.groups)))
  where
    by_parts :
        (o : Option (List (ℕ × Runes)))
        → IsRange (elim o as (λ _. Option EpisodeRange) [
          | none ↦ none
          | some parts ↦ episode_range parts
        ])
    by_parts none = tt
    by_parts (some parts) = episode_range-IsRange parts

episodes_loop-IsRange : (groups : List Match) → IsRange (episodes_loop groups)
unfolding episodes_loop
episodes_loop-IsRange [] = tt
episodes_loop-IsRange (m ∷ groups) =
    by_group (group_range m) (group_range-IsRange m) (episodes_loop-IsRange groups)
  where
    by_group :
        (o : Option EpisodeRange)
        → IsRange o
        → IsRange (episodes_loop groups)
        → IsRange (elim o as (λ _. Option EpisodeRange) [
          | some range ↦ some range
          | none ↦ episodes_loop groups
        ])
    by_group none a b = b
    by_group (some range) a b = a

pub parse_episodes-IsRange : (label : Runes) → IsRange (parse_episodes label)
unfolding parse_episodes
parse_episodes-IsRange label = episodes_loop-IsRange (reverse (find_all bracket_group label))
