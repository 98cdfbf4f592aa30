-- ===== src/Service/Processing/Wanted.antt =====
-- What `process` makes of its torrents, against a description of its own: its tests and its items are those
-- of no function of the code.
use anilibria_torznab.Prelude.{
  ℕ, ◌-◌, ◌&&◌, ◌==◌, leb, ltb, Option, Option-cases, ◌∙◌, ◌≡◌, refl, ap, inl, inr, Bool, true,
  false, ◌||◌, none, some, List, [], ◌∷◌, if◌then◌else◌, Bool-cases, arith,
}
use anilibria_torznab.Text.{to_lower}
use anilibria_torznab.Torznab.Category.{Category, category_for}
use anilibria_torznab.Torznab.Category
use anilibria_torznab.Torznab.Title.{EpisodeRange, TitleMetadata, matches_season, matches_episode}
use anilibria_torznab.Torznab.Title
use anilibria_torznab.Service.Processing.Selection.{
  selected, first_by_hash, interrupted, process-selected,
}
use anilibria_torznab.Service.Processing.{
  maximum_int64, item_of, judge_title, Torrent, Item, Filters, judge, add_item, sort_items, process,
}

-- What the numbers of a title have to be for a request
abbrev is_of_season : ℕ → Option ℕ → Bool
is_of_season season none = false
is_of_season season (some own) = own == season

abbrev covers : ℕ → Option EpisodeRange → Bool
covers episode none = false
covers episode (some range) = leb range.start episode && leb episode range.end

abbrev pub fits : Option ℕ → Option ℕ → TitleMetadata → Bool
fits none none m = true
fits (some season) none m = is_of_season season m.season
fits none (some episode) m = covers episode m.episodes
fits (some season) (some episode) m = is_of_season season m.season && covers episode m.episodes

-- A torrent that is wanted, with its category and what its title says
abbrev pub is_wanted : Filters → Torrent → Category → TitleMetadata → Bool
is_wanted f t c m =
    Category.matches f.categories c
    && (fits f.season f.episode m && leb t.seeders (maximum_int64 - t.leechers))

-- The item that it is described by
abbrev pub description : Filters → Torrent → Category → TitleMetadata → Item
description f t c m = record {
  title = m.title;
  info_hash = to_lower f.lower t.hash;
  magnet_uri = t.magnet;
  release_alias = t.release.alias;
  updated_at = t.updated_at;
  category = c;
  size_bytes = t.size;
  seeders = t.seeders;
  leechers = t.leechers;
  completed_times = t.completed_times;
  year = if t.release.year == 0 then none else some t.release.year;
}

abbrev pub titled : Filters → Torrent → Option TitleMetadata
titled f t = f.parse_title t.release.release_type t.release.main_name t.label

-- The torrents that are wanted, of those with a category and a title that can be parsed
unfoldable pub wanted_items : Filters → List Torrent → List Item
wanted_items f [] = []
wanted_items f (t ∷ ts) =
    let rest = wanted_items f ts in
    elim (category_for t.release.release_type) [
      | none ↦ rest
      | some c ↦ elim (titled f t) [
        | none ↦ rest
        | some m ↦ if is_wanted f t c m then description f t c m ∷ rest else rest
      ]
    ]

matches_episode-covers :
    (episode : ℕ) (o : Option EpisodeRange) → matches_episode (some episode) o ≡ covers episode o
unfolding matches_episode
matches_episode-covers episode none = refl
matches_episode-covers episode (some range) = refl

matches_season-is_of :
    (season : ℕ) (o : Option ℕ) → matches_season (some season) o ≡ is_of_season season o
unfolding matches_season
matches_season-is_of season none = refl
matches_season-is_of season (some own) = refl

matches-fits :
    (season episode : Option ℕ) (m : TitleMetadata)
    → Title.matches m season episode ≡ fits season episode m
unfolding Title.matches matches_season matches_episode
matches-fits none none m = refl
matches-fits none (some episode) m = matches_episode-covers episode m.episodes
matches-fits (some season) none m = ground (arith, matches_season-is_of season m.season)
matches-fits (some season) (some episode) m =
    ground (arith, matches_season-is_of season m.season, matches_episode-covers episode m.episodes)

known_year : (n : ℕ) → (if ltb 0 n then some n else none) ≡ (if n == 0 then none else some n)
known_year n = ground arith

item_of-description :
    (f : Filters) (t : Torrent) (c : Category) (m : TitleMetadata)
    → item_of f t c m.title ≡ description f t c m
unfolding item_of
item_of-description f t c m =
    ap (λ (year : Option ℕ). record (description f t c m) { year = year })
      (known_year t.release.year)

add-titled :
    (f : Filters) (t : Torrent) (c : Category) (rest : List Item) (o : Option TitleMetadata)
    → titled f t ≡ o
    → Category.matches f.categories c ≡ true
    → add_item (judge_title f t c) rest ≡ (elim o as (λ _. List Item) [
      | none ↦ rest
      | some m ↦ if is_wanted f t c m then description f t c m ∷ rest else rest
    ])
unfolding judge_title add_item
add-titled f t c rest none e asked = ground arith
add-titled f t c rest (some m) e asked =
    let same_item = item_of-description f t c m in
    let same_test = matches-fits f.season f.episode m in ground arith

add-category :
    (f : Filters) (t : Torrent) (rest : List Item) (o : Option Category)
    → category_for t.release.release_type ≡ o
    → add_item (judge f t) rest ≡ (elim o as (λ _. List Item) [
      | none ↦ rest
      | some c ↦ elim (titled f t) as (λ _. List Item) [
        | none ↦ rest
        | some m ↦ if is_wanted f t c m then description f t c m ∷ rest else rest
      ]
    ])
unfolding judge add_item
add-category f t rest none e = ground arith
add-category f t rest (some c) e = elim (Bool-cases (Category.matches f.categories c)) [
  | inl asked ↦
      let judged : judge f t ≡ judge_title f t c = ground arith in
      ap (λ v. add_item v rest) judged ∙ add-titled f t c rest (titled f t) refl asked
  | inr other_category ↦ elim (Option-cases (titled f t)) [
    | inl untitled ↦ ground arith
    | inr (m, has_title) ↦ let unwanted : is_wanted f t c m ≡ false = ground arith in ground arith
  ]
]

selected-wanted : (f : Filters) (ts : List Torrent) → selected f ts ≡ wanted_items f ts
unfolding selected wanted_items
selected-wanted f [] = refl
selected-wanted f (t ∷ ts) =
    ap (add_item (judge f t)) (selected-wanted f ts)
    ∙ add-category f t (wanted_items f ts) (category_for t.release.release_type) refl

-- The items of a request come in the order of the feed from the first torrent of each hash, letter
-- case apart, as far as its category is asked for, its title can be parsed and is of the season and the
-- episode that are asked for, and its peers can be counted; there are none exactly where the context is
-- done at one of its reads.
pub process_lem :
    (f : Filters) (done : ℕ → Bool) (done_before done_after : Bool) (torrents : List Torrent)
    → (process f done done_before done_after torrents).1 ≡ (
        if interrupted done 0 torrents || (done_before || done_after)
        then none
        else some (sort_items (wanted_items f (first_by_hash f torrents))))
process_lem f done done_before done_after torrents =
    process-selected f done done_before done_after torrents
    ∙ ap
        (λ items.
          if interrupted done 0 torrents || (done_before || done_after)
          then none
          else some (sort_items items))
        (selected-wanted f (first_by_hash f torrents))
