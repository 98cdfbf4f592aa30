-- ===== src/Torznab/Labels/Titles.antt =====
-- What `ParseTitle` returns, and when it returns an error.
use anilibria_torznab.Prelude.{ℕ, ◌≡◌, ◌≢◌, ◌↔◌, true, false, Option, none}
use anilibria_torznab.Text.{Bytes, is_empty}
use anilibria_torznab.Torznab.Category.{ReleaseType, movie, unknown}
use anilibria_torznab.Torznab.Title.{EpisodeRange, TitleMetadata}
use anilibria_torznab.Torznab.Tokens.{max_season}
use anilibria_torznab.Torznab.Query.Filters.{InRange}
use anilibria_torznab.Torznab.Labels.{
  semantic_title, rendered_title, TitleError, no_main_name, no_label, unsupported_type,
  no_semantic_title, Titled, titled, untitled,
}
use anilibria_torznab.Torznab.Labels.Bounds.{IsRange}

-- The metadata of a label: its numbers are in range, a season lacks exactly where a film has no
-- episodes, and the title names the season and the episodes that requests are compared with.
pub record IsTitleOf (release_type : ReleaseType) (main_name label : Bytes) (m : TitleMetadata)
    : Type 0 where
  pub season_range : InRange max_season m.season
  pub episode_range : IsRange m.episodes
  pub season_lacks : (m.season ≡ none) ↔ ((release_type ≡ movie) × (m.episodes ≡ none))
  pub names : m.title ≡ rendered_title (semantic_title label) m.season m.episodes main_name label

abbrev Lacks : ReleaseType → Option EpisodeRange → Option ℕ → Type 0
Lacks t episodes season = (season ≡ none) ↔ ((t ≡ movie) × (episodes ≡ none))

-- The first thing that a label is refused for
unfoldable pub Refusal : ReleaseType → Bytes → Bytes → TitleError → Type 0
Refusal t main_name label no_main_name = is_empty main_name ≡ true
Refusal t main_name label no_label = (is_empty main_name ≡ false) × (is_empty label ≡ true)
Refusal t main_name label unsupported_type =
    (is_empty main_name ≡ false) × (is_empty label ≡ false) × (t ≡ unknown)
Refusal t main_name label no_semantic_title =
    (is_empty main_name ≡ false)
    × (is_empty label ≡ false)
    × (t ≢ unknown)
    × (is_empty (semantic_title label) ≡ true)

-- What comes of a label, a title or an error
unfoldable pub Answers : ReleaseType → Bytes → Bytes → Titled → Type 0
Answers t main_name label (titled m) =
    (t ≢ unknown) × (is_empty (semantic_title label) ≡ false) × IsTitleOf t main_name label m
Answers t main_name label (untitled e) = Refusal t main_name label e
