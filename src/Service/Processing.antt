-- ===== src/Service/Processing.antt =====
-- `process` of internal/service/service.go: from torrents to the items of a feed. Counts and sizes,
-- which the client accepts only when they are not negative, are natural numbers; a time is its
-- distance from the zero time.
pub mod Sorting
pub mod Selection
pub mod Wanted
pub mod Rejections
pub mod Feed
use anilibria_torznab.Prelude.{
  ℕ, zero, suc, ◌+◌, ◌-◌, ◌^◌, Bool, true, false, ◌&&◌, ◌||◌, not, Option, none, some, List, [],
  ◌∷◌, leb, ltb, ◌==◌, if◌then◌else◌,
}
use anilibria_torznab.Text.{Bytes, same, before, to_lower}
use anilibria_torznab.Torznab.Category.{ReleaseType, Category, CategoryFilter, category_for}
use anilibria_torznab.Torznab.Category
use anilibria_torznab.Torznab.Title.{TitleMetadata}
use anilibria_torznab.Torznab.Title

-- `ReleaseSummary` of anilibria
pub record Release : Type 0 where
  pub id : ℕ
  pub release_type : ReleaseType
  pub year : ℕ
  pub main_name : Bytes
  pub alias : Bytes

-- `Torrent` of anilibria
pub record Torrent : Type 0 where
  pub hash : Bytes
  pub size : ℕ
  pub label : Bytes
  pub magnet : Bytes
  pub seeders : ℕ
  pub leechers : ℕ
  pub completed_times : ℕ
  pub updated_at : ℕ
  pub release : Release

-- `Item` of torznab
pub record Item : Type 0 where
  pub title : Bytes
  pub info_hash : Bytes
  pub magnet_uri : Bytes
  pub release_alias : Bytes
  pub updated_at : ℕ
  pub category : Category
  pub size_bytes : ℕ
  pub seeders : ℕ
  pub leechers : ℕ
  pub completed_times : ℕ
  pub year : Option ℕ

-- What `process` is given besides the torrents: the filters, `strings.ToLower` beyond ASCII and
-- `ParseTitle` (`none` is its error).
pub record Filters : Type 0 where
  pub categories : CategoryFilter
  pub season : Option ℕ
  pub episode : Option ℕ
  pub lower : ℕ → ℕ
  pub parse_title : ReleaseType → Bytes → Bytes → Option TitleMetadata

abbrev pub maximum_int64 : ℕ
maximum_int64 = 2 ^ 63 - 1

-- `processRejectionReason`
pub data Reason : Type 0 where
  unsupported_release_type invalid_title peer_count_overflow : Reason

-- `processRejections`
pub record ProcessRejections : Type 0 where
  pub total : ℕ
  pub sampled : ℕ
  pub unsupported_release_types : ℕ
  pub invalid_titles : ℕ
  pub peer_count_overflows : ℕ

abbrev pub sample_limit : ℕ
sample_limit = 5

unfoldable pub count : Reason → ProcessRejections → ProcessRejections
count unsupported_release_type r = record r {
  total = suc r.total;
  unsupported_release_types = suc r.unsupported_release_types;
}
count invalid_title r = record r { total = suc r.total; invalid_titles = suc r.invalid_titles }
count peer_count_overflow r = record r {
  total = suc r.total;
  peer_count_overflows = suc r.peer_count_overflows;
}

-- `processRejections.drop`, less the log
unfoldable pub drop : Reason → ProcessRejections → ProcessRejections
unfolding count
drop reason r =
    let counted = count reason r in
    if leb sample_limit counted.sampled
    then counted
    else record counted { sampled = suc counted.sampled }

-- What becomes of a torrent whose hash is new: an item, a rejection, or nothing as the filters say.
pub data Verdict : Type 0 where
  kept : Item → Verdict
  rejected : Reason → Verdict
  filtered : Verdict

unfoldable pub item_of : Filters → Torrent → Category → Bytes → Item
item_of f t c title = record {
  title = title;
  info_hash = to_lower f.lower t.hash;
  magnet_uri = t.magnet;
  release_alias = t.release.alias;
  updated_at = t.updated_at;
  category = c;
  size_bytes = t.size;
  seeders = t.seeders;
  leechers = t.leechers;
  completed_times = t.completed_times;
  year = if ltb 0 t.release.year then some t.release.year else none;
}

-- With a category that is wanted
unfoldable pub judge_title : Filters → Torrent → Category → Verdict
judge_title f t c = elim (f.parse_title t.release.release_type t.release.main_name t.label) [
  | none ↦ rejected invalid_title
  | some metadata ↦
      if not (Title.matches metadata f.season f.episode)
      then filtered
      else if ltb (maximum_int64 - t.leechers) t.seeders
      then rejected peer_count_overflow
      else kept (item_of f t c metadata.title)
]

unfoldable pub judge : Filters → Torrent → Verdict
judge f t = elim (category_for t.release.release_type) [
  | none ↦ rejected unsupported_release_type
  | some c ↦ if not (Category.matches f.categories c) then filtered else judge_title f t c
]

abbrev pub contains_hash : Bytes → List Bytes → Bool
contains_hash h [] = false
contains_hash h (k ∷ ks) = same h k || contains_hash h ks

-- The set of hashes seen, after a torrent
unfoldable pub see : Bytes → List Bytes → List Bytes
see hash seen = if contains_hash hash seen then seen else hash ∷ seen

-- A pass of the loop: what becomes of the torrent, and what it adds to the rejections and to the items
unfoldable pub verdict_on : Filters → List Bytes → Torrent → Verdict
verdict_on f seen t = if contains_hash (to_lower f.lower t.hash) seen then filtered else judge f t

unfoldable pub tally : Verdict → ProcessRejections → ProcessRejections
tally (kept item) r = r
tally (rejected reason) r = drop reason r
tally filtered r = r

unfoldable pub add_item : Verdict → List Item → List Item
add_item (kept item) items = item ∷ items
add_item (rejected reason) items = items
add_item filtered items = items

-- The loop of `process`: `done i` says whether the context is done when the loop reads it for the
-- i-th time; `none` is its error. The rejections are counted either way.
unfoldable pub process_loop :
    Filters
    → (ℕ → Bool)
    → ℕ
    → List Bytes
    → ProcessRejections
    → List Torrent
    → ProcessRejections × Option (List Item)
process_loop f done i seen r [] = (r, some [])
process_loop f done i seen r (t ∷ ts) =
    let verdict = verdict_on f seen t in
    let seen' = see (to_lower f.lower t.hash) seen in
    let (r', items) = process_loop f done (suc i) seen' (tally verdict r) ts in
    if done i
    then (r, none)
    else (r', (elim items [ none ↦ none | some rest ↦ some (add_item verdict rest) ]))

-- The order of the items: the latest first, then by hash
unfoldable pub comes_before : Item → Item → Bool
comes_before a b =
    if a.updated_at == b.updated_at
    then before a.info_hash b.info_hash
    else ltb b.updated_at a.updated_at

unfoldable pub insert_item : Item → List Item → List Item
insert_item x [] = x ∷ []
insert_item x (y ∷ ys) =
    let rest = insert_item x ys in if comes_before y x then y ∷ rest else x ∷ y ∷ ys

-- `sort.SliceStable`
unfoldable pub sort_items : List Item → List Item
sort_items [] = []
sort_items (x ∷ xs) = insert_item x (sort_items xs)

abbrev pub no_rejections : ProcessRejections
no_rejections = record {
  total = 0;
  sampled = 0;
  unsupported_release_types = 0;
  invalid_titles = 0;
  peer_count_overflows = 0;
}

-- The end of `process`: the context is read before the sort and after it.
unfoldable pub finish : Bool → Bool → Option (List Item) → Option (List Item)
finish done_before done_after none = none
finish done_before done_after (some items) =
    if done_before then none else if done_after then none else some (sort_items items)

-- `process`, with the reads of the context in the loop and the two after it
unfoldable pub process :
    Filters → (ℕ → Bool) → Bool → Bool → List Torrent → ProcessRejections × Option (List Item)
process f done done_before done_after torrents =
    let (r, items) = process_loop f done 0 [] no_rejections torrents in
    (r, finish done_before done_after items)
