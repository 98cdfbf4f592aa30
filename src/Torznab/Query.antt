-- ===== src/Torznab/Query.antt =====
-- `NormalizeQuery` of internal/torznab/query.go.
pub mod Filters
pub mod Words
pub mod Removal
pub mod Cleaning
pub mod Rendered
use mathlib.Core.List.{reverse}
use anilibria_torznab.Prelude.{
  ℕ, zero, suc, ◌+◌, Bool, true, false, not, Option, none, some, List, [], ◌∷◌, ◌++◌, map, length,
  ltb, ◌==◌, if◌then◌else◌,
}
use anilibria_torznab.Text.{
  Bytes, Runes, is_empty, lower_ascii, is_space, trim_space, encode, decode, trim_runes,
}
use anilibria_torznab.Text.Regexp.{Match, find_all}
use anilibria_torznab.Torznab.Parameter.{Parameter, query, season, episode}
use anilibria_torznab.Torznab.Title.{bounded_positive_integer}
use anilibria_torznab.Torznab.Tokens.{
  Unicode, max_season, max_episode, query_token, slice, complete_token,
  unsupported_numeric_continuation, Token, parse_query_token,
}
use anilibria_torznab.Torznab.Marks.{
  Marks, mark_both, mark_empty_technical_pairs, mark_technical_edge_separators,
}

-- `NormalizedQuery`
pub record NormalizedQuery : Type 0 where
  pub clean_query : Bytes
  pub effective_season : Option ℕ
  pub effective_episode : Option ℕ
  pub had_technical_tokens : Bool

-- A result, or the parameter of a `ParameterError`
pub data Checked (A : Type 0) : Type 0 where
  checked : A → Checked A
  incorrect : Parameter → Checked A

infixl 5 ◌>>=◌
abbrev pub ◌>>=◌ : {A B : Type 0} → Checked A → (A → Checked B) → Checked B
checked a >>= f = f a
incorrect p >>= f = incorrect p

abbrev pub max_query_bytes : ℕ
max_query_bytes = 4096

-- A value without the letter before it, given in lower case
unfoldable pub strip_letter : ℕ → Bytes → Bytes
strip_letter prefix [] = []
strip_letter prefix (c ∷ value) = if lower_ascii c == prefix then value else c ∷ value

-- `parseExplicitFilter`
unfoldable pub parse_explicit_filter : Option Bytes → ℕ → ℕ → Parameter → Checked (Option ℕ)
parse_explicit_filter none prefix maximum parameter = checked none
parse_explicit_filter (some raw) prefix maximum parameter =
    elim (bounded_positive_integer (strip_letter prefix (trim_space raw)) maximum) [
      | none ↦ incorrect parameter
      | some parsed ↦ checked (some parsed)
    ]

-- The variables of the loop over the tokens
pub record State : Type 0 where
  pub season : Option ℕ
  pub episode : Option ℕ
  pub marks : Marks
  pub had_tokens : Bool

-- A filter with that of a token, which must not differ from one that is there
unfoldable pub agree : Parameter → Option ℕ → Option ℕ → Checked (Option ℕ)
agree parameter own none = checked own
agree parameter none (some value) = checked (some value)
agree parameter (some own) (some value) =
    if own == value then checked (some value) else incorrect parameter

unfoldable pub absorb : Match → Token → State → Checked State
absorb m token s = do
  new_season ← agree season s.season token.season
  new_episode ← agree episode s.episode token.episode
  checked (record {
    season = new_season;
    episode = new_episode;
    marks = mark_both s.marks m.start m.end;
    had_tokens = true;
  })

-- One round over a match of `queryToken`
unfoldable pub take_token : Unicode → Runes → Match → State → Checked State
take_token u value m s =
    if not (complete_token u value m.start m.end)
    then checked s
    else if unsupported_numeric_continuation value m.start m.end
    then incorrect query
    else elim (parse_query_token (slice value m.start m.end)) [
      | none ↦ incorrect query
      | some token ↦ absorb m token s
    ]

unfoldable pub take_tokens : Unicode → Runes → List Match → State → Checked State
take_tokens u value [] s = checked s
take_tokens u value (m ∷ matches) s = do
  next ← take_token u value m s
  take_tokens u value matches next

-- What is written for a rune that stays
unfoldable pub write : Runes → ℕ → Runes
write cleaned r =
    if is_space r then if is_empty cleaned then [] else cleaned ++ 32 ∷ [] else cleaned ++ r ∷ []

unfoldable pub clean_loop : Runes → List Bool → Runes → Runes
clean_loop [] remove cleaned = cleaned
clean_loop (r ∷ rest) [] cleaned = clean_loop rest [] (write cleaned r)
clean_loop (r ∷ rest) (m ∷ remove) cleaned =
    clean_loop rest remove (if m then cleaned else write cleaned r)

-- `strings.Fields`, behind the runes of a word
unfoldable pub fields : Runes → Runes → List Runes
fields word [] = if is_empty word then [] else word ∷ []
fields word (r ∷ rest) = elim (is_space r) [
  | true ↦ let later = fields [] rest in if is_empty word then later else word ∷ later
  | false ↦ fields (word ++ r ∷ []) rest
]

-- `strings.Join` with spaces
unfoldable pub join_words : List Runes → Runes
join_words [] = []
join_words (word ∷ []) = word
join_words (word ∷ next ∷ words) = word ++ (32 ∷ join_words (next ∷ words))

-- `collapseWhitespace`
unfoldable pub collapse_whitespace : Runes → Runes
collapse_whitespace value = join_words (fields [] value)

unfoldable pub no_marks : Runes → List Bool
no_marks [] = []
no_marks (r ∷ rest) = false ∷ no_marks rest

unfoldable pub final_marks : Runes → Marks → Marks
final_marks value marks =
    mark_technical_edge_separators value (mark_empty_technical_pairs value marks)

-- The clean query, as runes
unfoldable pub clean : Runes → List Bool → Runes
clean value remove = collapse_whitespace (trim_runes (clean_loop value remove []))

unfoldable pub normalized : Runes → State → NormalizedQuery
normalized value s = record {
  clean_query = encode (clean value (final_marks value s.marks).remove);
  effective_season = s.season;
  effective_episode = s.episode;
  had_technical_tokens = s.had_tokens;
}

unfoldable pub first_state : Runes → Option ℕ → Option ℕ → State
first_state value explicit_season explicit_episode = record {
  season = explicit_season;
  episode = explicit_episode;
  marks = record { remove = no_marks value; technical = no_marks value };
  had_tokens = false;
}

-- `NormalizeQuery`
unfoldable pub normalize_query :
    Unicode → Bytes → Option Bytes → Option Bytes → Checked NormalizedQuery
normalize_query u raw explicit_season explicit_episode =
    if ltb max_query_bytes (length raw) then incorrect query else do
      first_season ← parse_explicit_filter explicit_season b's' max_season season
      first_episode ← parse_explicit_filter explicit_episode b'e' max_episode episode
      let value = decode raw
      s ←
          take_tokens u value (find_all query_token value)
            (first_state value first_season first_episode)
      checked (normalized value s)
