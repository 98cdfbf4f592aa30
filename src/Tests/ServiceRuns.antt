-- ===== src/Tests/ServiceRuns.antt =====
-- internal/service on small inputs.
use anilibria_torznab.Prelude.{
  zero, suc, map, ℕ, ◌+◌, ◌≤◌, ◌≡◌, refl, Bool, true, false, ◌||◌, Option, none, some, List, [],
  ◌∷◌, pos, length, select, All, ℕ_discrete, ◌==◌, if◌then◌else◌, arith,
}
use anilibria_torznab.Text.{valid_utf8, Bytes, codes, trim_space, runes}
use anilibria_torznab.Torznab.Category.{ReleaseType, tv, CategoryFilter}
use anilibria_torznab.Torznab.Title.{TitleMetadata}
use anilibria_torznab.Torznab.Feed.{
  Library, rendered, validate_site_base_url, filter_valid_items, render_items, is_text,
  valid_xml10_string, all_xml10, is_xml10_rune,
}
use anilibria_torznab.Torznab.Feed.Rendering.{render_items-page_items}
use anilibria_torznab.Cache.Lru.{Lru, new_lru}
use anilibria_torznab.Cache.Lru.Spec
use anilibria_torznab.Cache.Lru.Spec.{run}
use anilibria_torznab.Cache.Lru.Refinement.{Refines, new_lru-Refines}
use anilibria_torznab.Service.Request.{ok, err, upstream}
use anilibria_torznab.Service.Paging.{page_items}
use anilibria_torznab.Service.Processing.{
  Torrent, Item, Filters, no_rejections, process, process_loop, sort_items,
}
use anilibria_torznab.Service.Processing.Wanted.{wanted_items, process_lem}
use anilibria_torznab.Service.Processing.Selection.{first_by_hash, interrupted}
use anilibria_torznab.Service.Processing.Feed.{
  IsDistinct, IsStrict, IsServable, IsInt64, process-IsStrict,
}
use anilibria_torznab.Service.Processing.Rejections.{IsTallied, made, process-IsTallied}
use anilibria_torznab.Service.Loading.{Policy, joins, store_response, cached, gather}
use anilibria_torznab.Service.Loading.Reuse.{cached-stored}
use anilibria_torznab.Service.Loading.Branches.{successes, is_failure, gather_lem}
use anilibria_torznab.Service.Execution.{no_counters}

abbrev pub ids : List ℕ
ids = 4 ∷ 9 ∷ 4 ∷ 2 ∷ []

abbrev pub repeat : ℕ → ℕ → Bytes
repeat zero c = []
repeat (suc n) c = c ∷ repeat n c

abbrev pub hash_a : Bytes
hash_a = repeat 40 b'a'

abbrev pub hash_a_capital : Bytes
hash_a_capital = repeat 40 b'A'

abbrev pub hash_c : Bytes
hash_c = repeat 40 b'c'

-- Every address is a magnet with a host.
abbrev pub library : Library
library = record {
  parse_url = λ raw. some (codes "magnet", codes "s");
  path_escape = λ s. s;
  format_date = λ n. codes "date";
  lower = λ r. r;
}

abbrev pub torrent : Bytes → ℕ → Torrent
torrent hash at = record {
  hash = hash;
  size = 1000;
  label = codes "Label";
  magnet = codes "magnet:?";
  seeders = 3;
  leechers = 4;
  completed_times = 5;
  updated_at = at;
  release = record {
    id = 1;
    release_type = tv;
    year = 2020;
    main_name = codes "Name";
    alias = codes "name";
  };
}

-- The second has the hash of the first in capital letters.
abbrev pub torrents : List Torrent
torrents = torrent hash_a 1 ∷ torrent hash_a_capital 2 ∷ torrent hash_c 3 ∷ []

abbrev pub same_rune : ℕ → ℕ
same_rune r = r

abbrev pub label_title : ReleaseType → Bytes → Bytes → Option TitleMetadata
label_title t name label = some (record { season = some 1; episodes = none; title = label })

abbrev pub everything : CategoryFilter
everything = record { all = true; tv = false; anime = false; present = false }

abbrev pub filters : Filters
filters = record {
  categories = everything;
  season = none;
  episode = none;
  lower = same_rune;
  parse_title = label_title;
}

abbrev pub alive : ℕ → Bool
alive i = false

process_lem_example : (process filters alive false false torrents).1 ≡ (
    if interrupted alive 0 torrents || (false || false)
    then none
    else some (sort_items (wanted_items filters (first_by_hash filters torrents))))
process_lem_example = process_lem filters alive false false torrents

pub torrents-IsInt64 : All IsInt64 torrents
unfolding IsInt64
torrents-IsInt64 = (omega arith, (omega arith, (omega arith, tt)))

abbrev pub feed : List Item
feed = sort_items (wanted_items filters (first_by_hash filters torrents))

process-IsStrict_example : IsStrict feed × All (IsServable filters) feed × IsDistinct feed
unfolding interrupted
process-IsStrict_example =
    process-IsStrict filters alive false false torrents feed torrents-IsInt64
      (process_lem filters alive false false torrents)

process-IsTallied_example :
    IsTallied (process filters alive false false torrents).0
    × ((process filters alive false false torrents).0.total
          + made (process_loop filters alive 0 [] no_rejections torrents).1
        ≤ length torrents)
process-IsTallied_example = process-IsTallied filters alive false false torrents

abbrev pub branches : List (Option (List Torrent))
branches = none ∷ some torrents ∷ none ∷ []

gather_lem_example :
    ((gather branches no_counters).0.failed_branches ≡ 0 + length (select is_failure branches))
    × ((gather branches no_counters).1 ≡ (
        if length (select is_failure branches) == length branches
        then err upstream
        else ok (successes branches)))
gather_lem_example = gather_lem branches no_counters

abbrev pub policy : Policy
policy = record { positive = pos 60; negative = pos 5 }

abbrev pub empty_lru : Lru ℕ (List ℕ)
empty_lru = record { max_entries = 2; entries = []; recency = []; expiry = [] }

empty-Refines : Refines ℕ_discrete 2 empty_lru []
unfolding new_lru
empty-Refines = new_lru-Refines ℕ_discrete 2 empty_lru refl

-- Another request in between
abbrev other_request : List (ℕ × Spec.Call ℕ (List ℕ))
other_request = (12, Spec.Call.set 8 (3 ∷ []) (pos 60)) ∷ []

-- An empty list is found again four units of time later.
cached-stored_example :
    let stored = (store_response ℕ_discrete policy 10 7 (some []) empty_lru).0 in
    let c = (run ℕ_discrete other_request stored).0 in
    ((cached ℕ_discrete policy 14 7 (joins none) no_counters c).0.1 ≡ some [])
    × ((cached ℕ_discrete policy 14 7 (joins none) no_counters c).1
        ≡ record no_counters { cache_hits = 1 })
cached-stored_example =
    cached-stored ℕ_discrete policy 2 10 4 14 7 [] empty_lru [] other_request (joins none)
      no_counters empty-Refines refl ((omega arith, (λ e. absurd (omega arith))), tt) (omega arith)
      (omega arith)

render_items-page_items_example :
    render_items library alive 0
      (codes "http://s/")
      (page_items (filter_valid_items library feed (codes "http://s/")) 1 5)
    ≡ some (
        map
          (rendered library (codes "http://s/"))
          (page_items (filter_valid_items library feed (codes "http://s/")) 1 5))
unfolding validate_site_base_url is_text valid_xml10_string all_xml10 is_xml10_rune runes valid_utf8
    trim_space
render_items-page_items_example =
    render_items-page_items library alive (codes "http://s/") (codes "http://s/") feed 1 5
      (λ n. refl) refl
