-- ===== src/Torznab/Labels.antt =====
-- `ParseTitle` of internal/torznab/title.go with its parts. A position counts runes.
pub mod Bounds
pub mod Titles
use mathlib.Core.List.{reverse}
use anilibria_torznab.Prelude.{
  ℕ, Bool, true, false, ◌||◌, not, Option, none, some, List, [], ◌∷◌, ◌++◌, take, drop, ltb, ◌==◌,
  if◌then◌else◌,
}
use anilibria_torznab.Text.{
  Bytes, Runes, codes, cut, is_empty, folds, trim_space, runes, encode, decode, byte_offset,
  trim_runes, equal_fold, to_upper_ascii, show_padded,
}
use anilibria_torznab.Text.Regexp.{
  Class, Regexp, one, many, either, group, at_start, at_end, ◌⨾◌, some_of, optional, is_digit_class,
  folded, Match, find, find_all, submatch,
}
use anilibria_torznab.Torznab.Category.{ReleaseType, movie, known}
use anilibria_torznab.Torznab.Title.{
  EpisodeRange, TitleMetadata, bounded_positive_integer, english_ordinal_suffix, roman_season,
}
use anilibria_torznab.Torznab.Tokens.{
  Unicode, max_season, max_episode, digits, spaces, any_spaces, letter, slice, complete_token,
  has_numeric_continuation_after,
}

abbrev character : ℕ → Regexp
character c = one (λ r. r == c)

-- `distributorSuffix`
abbrev pub distributor_suffix : Regexp
distributor_suffix =
    any_spaces
    ⨾ character b'-'
    ⨾ any_spaces
    ⨾ either (folded (codes "aniliberty")) (folded (codes "anilibria"))
    ⨾ optional (character b'.' ⨾ either (folded (codes "top")) (folded (codes "tv")))
    ⨾ any_spaces
    ⨾ at_end

-- `explicitSeason`
abbrev pub explicit_season : Regexp
explicit_season =
    either (either (folded (codes "season")) (folded (codes "series")) ⨾ spaces ⨾ digits)
      (letter b's' ⨾ any_spaces ⨾ digits)

abbrev ordinal_suffix : Regexp
ordinal_suffix =
    either (folded (codes "st"))
      (either (folded (codes "nd")) (either (folded (codes "rd")) (folded (codes "th"))))

-- `ordinalSeason` and `ordinalParts`
abbrev pub ordinal_season : Regexp
ordinal_season = digits ⨾ ordinal_suffix ⨾ spaces ⨾ folded (codes "season")

abbrev pub ordinal_parts : Regexp
ordinal_parts = at_start ⨾ group 1 digits ⨾ group 2 ordinal_suffix

abbrev four_digits : Regexp
four_digits = one is_digit_class ⨾ one is_digit_class ⨾ one is_digit_class ⨾ one is_digit_class

-- `trailingYear`
abbrev pub trailing_year : Regexp
trailing_year =
    any_spaces
    ⨾ either (character b'(' ⨾ four_digits ⨾ character b')') four_digits
    ⨾ any_spaces
    ⨾ at_end

-- `[IVXLCDM]` under `(?i)`
unfoldable pub is_roman : Class
is_roman r =
    folds b'i' r
    || (folds b'v' r
        || (folds b'x' r || (folds b'l' r || (folds b'c' r || (folds b'd' r || folds b'm' r)))))

-- `trailingRoman`
abbrev pub trailing_roman : Regexp
trailing_roman = either at_start spaces ⨾ group 1 (some_of is_roman) ⨾ at_end

-- `bracketGroup`
abbrev pub bracket_group : Regexp
bracket_group = character b'[' ⨾ group 1 (many (λ r. not (r == b'[' || r == b']'))) ⨾ character b']'

-- `[-–—]`
unfoldable pub is_dash : Class
is_dash r = r == b'-' || (r == 0x2013 || r == 0x2014)

abbrev to_last : Regexp
to_last = any_spaces ⨾ one is_dash ⨾ any_spaces ⨾ group 2 digits

-- `bareEpisode`, `prefixedEpisode`, `singleEpisodeWord` and `rangeEpisodeWord`
abbrev pub bare_episode : Regexp
bare_episode = at_start ⨾ group 1 digits ⨾ optional to_last ⨾ at_end

abbrev pub prefixed_episode : Regexp
prefixed_episode =
    at_start
    ⨾ either (letter b'e') (folded (codes "ep"))
    ⨾ any_spaces
    ⨾ group 1 digits
    ⨾ optional to_last
    ⨾ at_end

abbrev pub single_episode_word : Regexp
single_episode_word = at_start ⨾ folded (codes "episode") ⨾ spaces ⨾ group 1 digits ⨾ at_end

abbrev pub range_episode_word : Regexp
range_episode_word =
    at_start ⨾ folded (codes "episodes") ⨾ spaces ⨾ group 1 digits ⨾ to_last ⨾ at_end

-- What a loop of `parseSeason` returns: the function's result, or that the loop ends without one
pub data Decision : Type 0 where
  decided : Option ℕ → Decision
  undecided : Decision

-- The loop over `explicitSeason`
unfoldable pub explicit_loop : Unicode → Runes → List Match → Decision
explicit_loop u value [] = undecided
explicit_loop u value (m ∷ matches) =
    let later = explicit_loop u value matches in
    if not (complete_token u value m.start m.end)
    then later
    else if has_numeric_continuation_after (drop m.end value) false
    then decided none
    else elim (find (group 1 digits) (slice value m.start m.end)) [
      | none ↦ decided none
      | some number ↦ decided (bounded_positive_integer (submatch 1 number.groups) max_season)
    ]

-- The submatches of `ordinalParts`, which matches every match of `ordinalSeason`
unfoldable pub ordinal_groups : Runes → List (ℕ × Runes)
ordinal_groups token = elim (find ordinal_parts token) [ none ↦ [] | some m ↦ m.groups ]

-- The loop over `ordinalSeason`
unfoldable pub ordinal_loop : Unicode → Runes → List Match → Decision
ordinal_loop u value [] = undecided
ordinal_loop u value (m ∷ matches) =
    let later = ordinal_loop u value matches in
    let parts = ordinal_groups (slice value m.start m.end) in
    if not (complete_token u value m.start m.end)
    then later
    else elim (bounded_positive_integer (submatch 1 parts) max_season) [
      | none ↦ decided none
      | some number ↦
          if equal_fold (encode (submatch 2 parts)) (english_ordinal_suffix number)
          then decided (some number)
          else later
    ]

-- The text without a year at its end, and without spaces around it
unfoldable pub without_year : Runes → Runes
without_year value = elim (find trailing_year value) [
  | none ↦ trim_runes value
  | some m ↦ trim_runes (take m.start value)
]

unfoldable pub trailing_season : Runes → Option ℕ
trailing_season value = elim (find trailing_roman (without_year value)) [
  | none ↦ none
  | some m ↦ roman_season (to_upper_ascii (submatch 1 m.groups))
]

-- The next way to a season, where a loop has not decided on one
unfoldable pub otherwise : Decision → Option ℕ → Option ℕ
otherwise (decided season) next = season
otherwise undecided next = next

-- `parseSeason`
unfoldable pub parse_season : Unicode → Runes → Option ℕ
parse_season u value =
    otherwise (explicit_loop u value (find_all explicit_season value))
      (otherwise (ordinal_loop u value (find_all ordinal_season value)) (trailing_season value))

-- The `switch` of `parseEpisodes`: the submatches of the form that a group has
unfoldable pub episode_parts : Runes → Option (List (ℕ × Runes))
episode_parts content = elim (find bare_episode content) [
  | some m ↦ some m.groups
  | none ↦ elim (find prefixed_episode content) [
    | some m ↦ some m.groups
    | none ↦ elim (find single_episode_word content) [
      | some m ↦ some m.groups
      | none ↦ elim (find range_episode_word content) [ some m ↦ some m.groups | none ↦ none ]
    ]
  ]
]

-- The end of a range that starts at `start`
unfoldable pub episode_end : ℕ → Runes → Option EpisodeRange
episode_end start last =
    if is_empty last
    then some (record { start = start; end = start })
    else elim (bounded_positive_integer last max_episode) [
      | none ↦ none
      | some end ↦ if ltb end start then none else some (record { start = start; end = end })
    ]

unfoldable pub episode_range : List (ℕ × Runes) → Option EpisodeRange
episode_range parts = elim (bounded_positive_integer (submatch 1 parts) max_episode) [
  | none ↦ none
  | some start ↦ episode_end start (submatch 2 parts)
]

unfoldable pub group_range : Match → Option EpisodeRange
group_range m = elim (episode_parts (trim_runes (submatch 1 m.groups))) [
  | none ↦ none
  | some parts ↦ episode_range parts
]

-- The loop over the groups, the last one first
unfoldable pub episodes_loop : List Match → Option EpisodeRange
episodes_loop [] = none
episodes_loop (m ∷ groups) =
    let rest = episodes_loop groups in
    elim (group_range m) [ some range ↦ some range | none ↦ rest ]

-- `parseEpisodes`
unfoldable pub parse_episodes : Runes → Option EpisodeRange
parse_episodes label = episodes_loop (reverse (find_all bracket_group label))

-- `distributorSuffix.ReplaceAllString(s, "")`: the match reaches to the end.
unfoldable pub without_distributor : Bytes → Bytes
without_distributor s = elim (find distributor_suffix (decode s)) [
  | none ↦ s
  | some m ↦ take (byte_offset m.start (runes s)) s
]

-- The title of a label, before its first bracket
unfoldable pub semantic_title : Bytes → Bytes
semantic_title label = trim_space (without_distributor (cut b'[' label).0)

abbrev default_season : Option ℕ → Option ℕ
default_season none = some 1
default_season (some season) = some season

-- The season that a release of the type has
unfoldable pub season_of : ReleaseType → Option EpisodeRange → Option ℕ → Option ℕ
season_of movie none season = none
season_of movie (some range) season = default_season season
season_of _ episodes season = default_season season

unfoldable pub season_text : Option ℕ → Bytes
season_text none = []
season_text (some season) = codes " S" ++ show_padded season

unfoldable pub episodes_text : Option EpisodeRange → Bytes
episodes_text none = []
episodes_text (some range) =
    codes "E"
    ++ (show_padded range.start
        ++ (if range.end == range.start then [] else codes "-E" ++ show_padded range.end))

-- The title of an item
unfoldable pub rendered_title : Bytes → Option ℕ → Option EpisodeRange → Bytes → Bytes → Bytes
rendered_title semantic season episodes main_name label =
    semantic
    ++ (season_text season
        ++ (episodes_text episodes ++ (codes " RUS / " ++ (main_name ++ (codes " / " ++ label)))))

-- The errors of `ParseTitle`
pub data TitleError : Type 0 where
  no_main_name no_label unsupported_type no_semantic_title : TitleError

pub data Titled : Type 0 where
  titled : TitleMetadata → Titled
  untitled : TitleError → Titled

-- The metadata, where there is no error
unfoldable pub metadata : Titled → Option TitleMetadata
metadata (titled m) = some m
metadata (untitled e) = none

unfoldable pub metadata_of : Unicode → ReleaseType → Bytes → Bytes → Bytes → TitleMetadata
metadata_of u release_type main_name label semantic =
    let episodes = parse_episodes (decode label) in
    let season = season_of release_type episodes (parse_season u (decode semantic)) in
    record {
      season = season;
      episodes = episodes;
      title = rendered_title semantic season episodes main_name label;
    }

-- `ParseTitle` on a name and a label without spaces around them
unfoldable pub parse_trimmed : Unicode → ReleaseType → Bytes → Bytes → Titled
parse_trimmed u release_type main_name label =
    if is_empty main_name
    then untitled no_main_name
    else if is_empty label
    then untitled no_label
    else if not (known release_type)
    then untitled unsupported_type
    else if is_empty (semantic_title label)
    then untitled no_semantic_title
    else titled (metadata_of u release_type main_name label (semantic_title label))

-- `ParseTitle`
unfoldable pub parse_title : Unicode → ReleaseType → Bytes → Bytes → Titled
parse_title u release_type main_name label =
    parse_trimmed u release_type (trim_space main_name) (trim_space label)
