-- ===== src/Torznab/Tokens.antt =====
-- The tokens of internal/torznab/query.go, and what title.go and query.go share about them. A text is
-- its runes here, and a position counts runes; the source counts their bytes.
pub mod Reading
pub mod Rendered
pub mod Matching
use mathlib.Core.List.{reverse}
use anilibria_torznab.Prelude.{
  ℕ, ◌+◌, ◌-◌, Bool, true, false, ◌&&◌, ◌||◌, not, Option, none, some, List, [], ◌∷◌, take, drop,
  leb, ◌==◌, if◌then◌else◌,
}
use anilibria_torznab.Text.{Runes, codes, is_space, folds, skip_space}
use anilibria_torznab.Text.Regexp.{
  Regexp, one, many, either, group, at_start, at_end, ◌⨾◌, some_of, is_digit_class, folded,
  regexp_whitespace, Match, find, submatch,
}
use anilibria_torznab.Torznab.Title.{bounded_positive_integer}

-- The tables of unicode.IsLetter and unicode.IsDigit
pub record Unicode : Type 0 where
  pub letter : ℕ → Bool
  pub digit : ℕ → Bool

abbrev pub max_season : ℕ
max_season = 999

abbrev pub max_episode : ℕ
max_episode = 9999

abbrev pub digits : Regexp
digits = some_of is_digit_class

abbrev pub spaces : Regexp
spaces = some_of regexp_whitespace

abbrev pub any_spaces : Regexp
any_spaces = many regexp_whitespace

abbrev pub letter : ℕ → Regexp
letter c = one (folds c)

-- `queryToken`
abbrev pub query_token : Regexp
query_token = either (letter b's' ⨾ digits ⨾ spaces ⨾ letter b'e' ⨾ digits) (
    either (letter b's' ⨾ digits ⨾ letter b'e' ⨾ digits) (
      either (digits ⨾ letter b'x' ⨾ digits) (
        either (folded (codes "season") ⨾ spaces ⨾ digits) (
          either (folded (codes "episode") ⨾ spaces ⨾ digits) (
            either (folded (codes "ep") ⨾ spaces ⨾ digits)
              (either (letter b's' ⨾ digits) (letter b'e' ⨾ digits)))))))

-- `querySE`, `queryX`, `queryS` and `queryE`
abbrev pub query_se : Regexp
query_se =
    at_start ⨾ letter b's' ⨾ group 1 digits ⨾ any_spaces ⨾ letter b'e' ⨾ group 2 digits ⨾ at_end

abbrev pub query_x : Regexp
query_x = at_start ⨾ group 1 digits ⨾ letter b'x' ⨾ group 2 digits ⨾ at_end

abbrev pub query_s : Regexp
query_s =
    at_start ⨾ either (letter b's') (folded (codes "season") ⨾ spaces) ⨾ group 1 digits ⨾ at_end

abbrev pub query_e : Regexp
query_e =
    at_start
    ⨾ either (letter b'e')
        (either (folded (codes "ep") ⨾ spaces) (folded (codes "episode") ⨾ spaces))
    ⨾ group 1 digits
    ⨾ at_end

-- The runes before a position, the nearest first
abbrev pub before : Runes → ℕ → Runes
before value start = reverse (take start value)

-- `value[start:end]`
abbrev pub slice : Runes → ℕ → ℕ → Runes
slice value start end = take (end - start) (drop start value)

unfoldable pub starts_with : (ℕ → Bool) → Runes → Bool
starts_with p [] = false
starts_with p (r ∷ rest) = p r

-- `completeToken`
unfoldable pub complete_token : Unicode → Runes → ℕ → ℕ → Bool
complete_token u value start end =
    if starts_with (λ r. u.letter r || u.digit r) (before value start)
    then false
    else if starts_with (λ r. u.letter r || u.digit r) (drop end value)
    then false
    else true

-- `skipSpaceForward` is `skip_space`, and so is `skipSpaceBackward` on the runes from the last one.
-- The number of digits that a text starts with
unfoldable pub count_digits : Runes → ℕ
count_digits [] = 0
count_digits (r ∷ rest) = let later = count_digits rest in if is_digit_class r then later + 1 else 0

-- `.-–—/`
unfoldable pub is_continuation_sign : ℕ → Bool
is_continuation_sign r = r == b'.' || (r == b'-' || (r == 0x2013 || (r == 0x2014 || r == b'/')))

-- A continuation behind the sign
unfoldable pub number_follows : Bool → Bool → Runes → Bool
number_follows spaced_before allow after =
    let count = count_digits (skip_space after) in
    if count == 0
    then false
    else if spaced_before && (starts_with is_space after && (allow || count == 4))
    then false
    else true

unfoldable pub sign_follows : Bool → Bool → Runes → Bool
sign_follows spaced_before allow [] = false
sign_follows spaced_before allow (sign ∷ after) =
    if is_continuation_sign sign then number_follows spaced_before allow after else false

-- `hasNumericContinuationAfter`
unfoldable pub has_numeric_continuation_after : Runes → Bool → Bool
has_numeric_continuation_after value allow =
    sign_follows (starts_with is_space value) allow (skip_space value)

-- `numericContinuationBefore`, on the runes from the last one: the same steps to the left
unfoldable pub numeric_continuation_before : Runes → Bool
numeric_continuation_before reversed =
    sign_follows (starts_with is_space reversed) true (skip_space reversed)

-- `unsupportedNumericContinuation`
unfoldable pub unsupported_numeric_continuation : Runes → ℕ → ℕ → Bool
unsupported_numeric_continuation value start end =
    has_numeric_continuation_after (drop end value) true
    || numeric_continuation_before (before value start)

-- What a token asks for
pub record Token : Type 0 where
  pub season : Option ℕ
  pub episode : Option ℕ

-- A season with an episode, if both are valid
unfoldable pub both : Match → Option Token
both m = elim (bounded_positive_integer (submatch 1 m.groups) max_season) [
  | none ↦ none
  | some season ↦ elim (bounded_positive_integer (submatch 2 m.groups) max_episode) [
    | none ↦ none
    | some episode ↦ some (record { season = some season; episode = some episode })
  ]
]

unfoldable pub season_only : Match → Option Token
season_only m = elim (bounded_positive_integer (submatch 1 m.groups) max_season) [
  | none ↦ none
  | some season ↦ some (record { season = some season; episode = none })
]

unfoldable pub episode_only : Match → Option Token
episode_only m = elim (bounded_positive_integer (submatch 1 m.groups) max_episode) [
  | none ↦ none
  | some episode ↦ some (record { season = none; episode = some episode })
]

-- `parseQueryToken`; none is a token that is not valid.
unfoldable pub parse_query_token : Runes → Option Token
parse_query_token token = elim (find query_se token) [
  | some m ↦ both m
  | none ↦ elim (find query_x token) [
    | some m ↦ both m
    | none ↦ elim (find query_s token) [
      | some m ↦ season_only m
      | none ↦ elim (find query_e token) [ some m ↦ episode_only m | none ↦ none ]
    ]
  ]
]
