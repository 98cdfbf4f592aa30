-- ===== src/Torznab/Title/Numbers.antt =====
-- The numbers of titles.
use anilibria_torznab.Prelude.{
  ℕ, ◌≤◌, ◌≡◌, refl, ◌↔◌, true, Option, none, some, arith, ◌<◌, ◌^◌, not, ◌&&◌, leb, if◌then◌else◌,
}
use anilibria_torznab.Text.{Bytes, is_empty, all_bytes, is_digit, decimal, parse_uint}
use anilibria_torznab.Torznab.Title.{
  EpisodeRange, TitleMetadata, matches_season, matches_episode, matches, bounded_positive_integer,
}

-- A season that is wanted is the title's own.
unfoldable pub HasSeason : Option ℕ → Option ℕ → Type 0
HasSeason none own = Unit
HasSeason (some wanted) own = own ≡ some wanted

-- An episode that is wanted lies in the title's range, its ends included.
unfoldable pub HasEpisode : Option ℕ → Option EpisodeRange → Type 0
HasEpisode none own = Unit
HasEpisode (some wanted) own =
    (range : EpisodeRange) × (own ≡ some range) × (range.start ≤ wanted) × (wanted ≤ range.end)

matches_season_iff :
    (season own : Option ℕ) → (matches_season season own ≡ true) ↔ HasSeason season own
unfolding matches_season HasSeason
matches_season_iff none own = (λ h. tt, λ h. refl)
matches_season_iff (some w) none = (λ h. absurd (ground arith), λ h. absurd (ground arith))
matches_season_iff (some w) (some s) = (λ h. ground arith, λ h. ground arith)

matches_episode_iff :
    (episode : Option ℕ) (own : Option EpisodeRange)
    → (matches_episode episode own ≡ true) ↔ HasEpisode episode own
unfolding matches_episode HasEpisode
matches_episode_iff none own = (λ h. tt, λ h. refl)
matches_episode_iff (some w) none =
    (λ h. absurd (ground arith), λ h. let (range, e, _, _) = h in absurd (ground arith))
matches_episode_iff (some w) (some r) =
    (λ h. (r, refl, ground arith, ground arith), λ h. let (range, e, low, high) = h in ground arith)

-- A title passes the filters exactly when it has the wanted season and its range has the wanted
-- episode; a filter that is absent asks for nothing.
pub matches-Satisfies :
    (m : TitleMetadata) (season episode : Option ℕ)
    → (matches m season episode ≡ true)
      ↔ (HasSeason season m.season × HasEpisode episode m.episodes)
unfolding matches
matches-Satisfies m season episode = (
  λ h. (
    (matches_season_iff season m.season).0 (ground arith),
    (matches_episode_iff episode m.episodes).0 (ground arith),
  ),
  λ h.
      let s = (matches_season_iff season m.season).1 h.0 in
      let e = (matches_episode_iff episode m.episodes).1 h.1 in ground arith,
)

-- A number in a title counts exactly when it consists of one or more decimal digits and lies between 1
-- and the maximum, for a maximum of 64 bits.
pub bounded_positive_integer_lem :
    (raw : Bytes) (maximum : ℕ)
    → maximum < 2 ^ 64
    → bounded_positive_integer raw maximum ≡ (
        if not (is_empty raw)
          && (all_bytes is_digit raw && (leb 1 (decimal raw) && leb (decimal raw) maximum))
        then some (decimal raw)
        else none)
unfolding bounded_positive_integer parse_uint
bounded_positive_integer_lem raw maximum h = ground arith

pub bounded_positive_integer_bounds :
    (raw : Bytes) (maximum v : ℕ)
    → bounded_positive_integer raw maximum ≡ some v
    → (1 ≤ v) × (v ≤ maximum)
unfolding bounded_positive_integer
bounded_positive_integer_bounds raw maximum v h = ground arith
