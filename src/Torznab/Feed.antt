-- ===== src/Torznab/Feed.antt =====
-- internal/torznab/xml.go, up to the document that encoding/xml writes: which items are fit for a feed,
-- and what an item of the feed says.
pub mod Rendering
use anilibria_torznab.Prelude.{
  ℕ, ◌+◌, ◌-◌, Bool, true, false, ◌&&◌, ◌||◌, not, Option, none, some, List, [], ◌∷◌, ◌++◌, length,
  select, leb, ltb, ◌==◌, if◌then◌else◌,
}
use anilibria_torznab.Text.{
  Bytes, codes, same, is_digit, all_bytes, is_empty, trim_space, to_lower, equal_fold, runes,
  valid_utf8,
}
use anilibria_torznab.Torznab.Category.{Category, category_tv, category_anime}
use anilibria_torznab.Service.Processing.{Item, maximum_int64}

-- `url.Parse`, as far as the scheme and the host go (`none` is its error), `url.PathEscape`, the format
-- of `PubDate`, and the table of unicode.ToLower.
pub record Library : Type 0 where
  pub parse_url : Bytes → Option (Bytes × Bytes)
  pub path_escape : Bytes → Bytes
  pub format_date : ℕ → Bytes
  pub lower : ℕ → ℕ

unfoldable pub is_xml10_rune : ℕ → Bool
is_xml10_rune r =
    (r == 0x9 || (r == 0xA || r == 0xD))
    || ((leb 0x20 r && leb r 0xD7FF)
        || ((leb 0xE000 r && leb r 0xFFFD) || (leb 0x10000 r && leb r 0x10FFFF)))

unfoldable pub all_xml10 : List (ℕ × ℕ) → Bool
all_xml10 [] = true
all_xml10 ((r, w) ∷ rs) = is_xml10_rune r && all_xml10 rs

-- `ValidXML10String`
unfoldable pub valid_xml10_string : Bytes → Bool
valid_xml10_string value = if not (valid_utf8 value) then false else all_xml10 (runes value)

-- The checks of a text at the start of `prepareItem`
unfoldable pub is_text : Bytes → Bool
is_text value = valid_xml10_string value && not (is_empty (trim_space value))

-- `isHex`, on a string that is ASCII where it passes
unfoldable pub is_hex : Bytes → Bool
is_hex value = all_bytes (λ c. is_digit c || (leb b'a' c && leb c b'f')) value

-- `strings.TrimRight(s, "/")`
unfoldable pub trim_slashes : Bytes → Bytes
trim_slashes [] = []
trim_slashes (c ∷ s) =
    let rest = trim_slashes s in if c == b'/' && is_empty rest then [] else c ∷ rest

-- The value of an attribute, a number in decimal digits or a text
pub data Value : Type 0 where
  number : ℕ → Value
  text : Bytes → Value

-- `rssItem`; the enclosure has the link and the length.
pub record RssItem : Type 0 where
  pub title : Bytes
  pub guid : Bytes
  pub link : Bytes
  pub comments : Bytes
  pub published : Bytes
  pub category : Category
  pub enclosure_length : ℕ
  pub attributes : List (Bytes × Value)

unfoldable pub category_id : Category → ℕ
category_id category_tv = 5000
category_id category_anime = 5070

unfoldable pub year_attribute : Option ℕ → List (Bytes × Value)
year_attribute none = []
year_attribute (some year) = (codes "year", number year) ∷ []

unfoldable pub attributes_of : Item → Bytes → List (Bytes × Value)
attributes_of item hash =
    ((codes "category", number (category_id item.category))
      ∷ (codes "size", number item.size_bytes)
      ∷ (codes "seeders", number item.seeders)
      ∷ (codes "leechers", number item.leechers)
      ∷ (codes "peers", number (item.seeders + item.leechers))
      ∷ (codes "grabs", number item.completed_times)
      ∷ (codes "infohash", text hash)
      ∷ (codes "magneturl", text item.magnet_uri)
      ∷ (codes "downloadvolumefactor", text (codes "0"))
      ∷ (codes "uploadvolumefactor", text (codes "1"))
      ∷ [])
    ++ year_attribute item.year

module _ (lib : Library) where
  -- The scheme of a magnet URI
  unfoldable pub is_magnet : Bytes → Bool
  is_magnet uri = elim (lib.parse_url uri) [
    | none ↦ false
    | some (scheme, host) ↦ equal_fold scheme (codes "magnet")
  ]

  unfoldable pub comments_of : Bytes → Item → Bytes
  comments_of base item =
      trim_slashes base ++ codes "/anime/releases/release/" ++ lib.path_escape item.release_alias

  unfoldable pub rendered : Bytes → Item → RssItem
  rendered base item =
      let hash = to_lower lib.lower item.info_hash in
      record {
        title = item.title;
        guid = codes "urn:btih:" ++ hash;
        link = item.magnet_uri;
        comments = comments_of base item;
        published = lib.format_date item.updated_at;
        category = item.category;
        enclosure_length = item.size_bytes;
        attributes = attributes_of item hash;
      }

  -- `prepareItem`; `none` is an item that is not fit. The zero time is 0.
  unfoldable pub prepare_item : Item → Bytes → Option RssItem
  prepare_item item base =
      let hash = to_lower lib.lower item.info_hash in
      if not (is_text item.title)
        || (not (is_text item.magnet_uri) || not (is_text item.release_alias))
      then none
      else if not (length hash == 40) || (not (is_hex hash) || not (valid_xml10_string hash))
      then none
      else if not (is_magnet item.magnet_uri)
      then none
      else if item.updated_at == 0
      then none
      else if ltb (maximum_int64 - item.leechers) item.seeders
      then none
      else if not (valid_xml10_string (comments_of base item))
      then none
      else some (rendered base item)

  unfoldable pub is_prepared : Bytes → Item → Bool
  is_prepared base item = elim (prepare_item item base) [ none ↦ false | some r ↦ true ]

  -- `validateSiteBaseURL`; `none` is its error.
  unfoldable pub validate_site_base_url : Bytes → Option Bytes
  validate_site_base_url raw = if not (is_text raw) then none else elim (lib.parse_url raw) [
    | none ↦ none
    | some (scheme, host) ↦ if is_empty scheme || is_empty host then none else some raw
  ]

  -- `FilterValidItems`
  unfoldable pub filter_valid_items : List Item → Bytes → List Item
  filter_valid_items items site = elim (validate_site_base_url site) [
    | none ↦ []
    | some base ↦ select (is_prepared base) items
  ]

  -- The loop of `RenderRSSContext`: `done i` says whether the context is done before the i-th item;
  -- `none` is its error.
  unfoldable pub render_items : (ℕ → Bool) → ℕ → Bytes → List Item → Option (List RssItem)
  render_items done i base [] = some []
  render_items done i base (item ∷ items) =
      let rest = render_items done (i + 1) base items in
      if done i then none else elim (prepare_item item base) [
        | none ↦ rest
        | some r ↦ elim rest [ none ↦ none | some rs ↦ some (r ∷ rs) ]
      ]
