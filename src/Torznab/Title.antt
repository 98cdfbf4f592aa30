-- ===== src/Torznab/Title.antt =====
-- internal/torznab/title.go, as far as numbers go: the metadata that requests filter on, the bounds of
-- seasons and episodes, English ordinals and Roman seasons.
pub mod Numbers
use anilibria_torznab.Prelude.{
  ℕ, zero, suc, ◌%◌, Bool, true, false, ◌&&◌, ◌||◌, not, Option, none, some, List, [], ◌∷◌, leb,
  ltb, ◌==◌, if◌then◌else◌,
}
use anilibria_torznab.Text.{Bytes, codes, same, parse_uint}

-- `EpisodeRange`, its bounds included
pub record EpisodeRange : Type 0 where
  pub start : ℕ
  pub end : ℕ

-- `TitleMetadata`
pub record TitleMetadata : Type 0 where
  pub season : Option ℕ
  pub episodes : Option EpisodeRange
  pub title : Bytes

unfoldable pub matches_season : Option ℕ → Option ℕ → Bool
matches_season none own = true
matches_season (some wanted) none = false
matches_season (some wanted) (some own) = own == wanted

unfoldable pub matches_episode : Option ℕ → Option EpisodeRange → Bool
matches_episode none own = true
matches_episode (some wanted) none = false
matches_episode (some wanted) (some own) = leb own.start wanted && leb wanted own.end

-- `TitleMetadata.Matches`
unfoldable pub matches : TitleMetadata → Option ℕ → Option ℕ → Bool
matches m season episode =
    if not (matches_season season m.season) then false else matches_episode episode m.episodes

-- `boundedPositiveInteger`
unfoldable pub bounded_positive_integer : Bytes → ℕ → Option ℕ
bounded_positive_integer raw maximum = elim (parse_uint 64 raw) [
  | none ↦ none
  | some value ↦ if value == 0 || ltb maximum value then none else some value
]

-- `englishOrdinalSuffix`
unfoldable pub english_ordinal_suffix : ℕ → Bytes
english_ordinal_suffix value =
    if leb 11 (value % 100) && leb (value % 100) 13
    then codes "th"
    else if value % 10 == 1
    then codes "st"
    else if value % 10 == 2
    then codes "nd"
    else if value % 10 == 3
    then codes "rd"
    else codes "th"

abbrev pub canonical : List Bytes
canonical =
    codes "I"
    ∷ codes "II"
    ∷ codes "III"
    ∷ codes "IV"
    ∷ codes "V"
    ∷ codes "VI"
    ∷ codes "VII"
    ∷ codes "VIII"
    ∷ codes "IX"
    ∷ codes "X"
    ∷ codes "XI"
    ∷ codes "XII"
    ∷ codes "XIII"
    ∷ codes "XIV"
    ∷ codes "XV"
    ∷ codes "XVI"
    ∷ codes "XVII"
    ∷ codes "XVIII"
    ∷ codes "XIX"
    ∷ codes "XX"
    ∷ []

-- The loop of `romanSeason`, from a number on
unfoldable pub roman_loop : Bytes → ℕ → List Bytes → Option ℕ
roman_loop value number [] = none
roman_loop value number (numeral ∷ rest) =
    let later = roman_loop value (suc number) rest in
    if same value numeral then some number else later

-- `romanSeason`
unfoldable pub roman_season : Bytes → Option ℕ
roman_season value = roman_loop value 1 canonical
