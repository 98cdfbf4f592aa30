-- ===== src/Anilibria/Models.antt =====
-- internal/anilibria/models.go behind the JSON decoder, and `validTorrents` of client.go: which torrents
-- of a response are accepted. A `json.Number` is its text.
pub mod Soundness
use anilibria_torznab.Prelude.{
  ℕ, zero, suc, ◌+◌, ◌-◌, ◌^◌, Bool, true, false, ◌&&◌, ◌||◌, not, Option, none, some, List, [],
  ◌∷◌, ℤ, pos, negsuc, map, length, take, drop, leb, ltb, ◌==◌, if◌then◌else◌,
}
use anilibria_torznab.Text.{
  Bytes, codes, same, all_bytes, is_digit, is_empty, lower_ascii, parse_int, equal_fold,
}
use anilibria_torznab.HttpApi.Values.{entries}
use anilibria_torznab.HttpApi.Query.{parse_query}
use anilibria_torznab.Torznab.Category.{ReleaseType, known}
use anilibria_torznab.Torznab.Feed.{valid_xml10_string}
use anilibria_torznab.Service.Processing.{Release, Torrent}

-- `rawTorrent` with its release. `invalid_string` is the field that UnmarshalJSON found badly encoded,
-- if any; the type is the one that the text names.
pub record RawTorrent : Type 0 where
  pub invalid_string : Option Bytes
  pub hash : Bytes
  pub size : Bytes
  pub label : Bytes
  pub magnet : Bytes
  pub seeders : Bytes
  pub leechers : Bytes
  pub completed_times : Bytes
  pub updated_at : Bytes
  pub release_id : Bytes
  pub release_type : ReleaseType
  pub release_year : Bytes
  pub release_name : Bytes
  pub release_alias : Bytes

-- `big.Rat.SetString` on a number that is an integer of 64 bits, `time.Parse` in RFC 3339, and the scheme
-- and the raw query of `url.Parse`; `none` is their error.
pub record Parsers : Type 0 where
  pub integral : Bytes → Option ℤ
  pub parse_time : Bytes → Option ℕ
  pub parse_url : Bytes → Option (Bytes × Bytes)

-- A torrent, or the field that is not valid
pub data Validated (A : Type 0) : Type 0 where
  valid : A → Validated A
  flawed : Bytes → Validated A

unfoldable pub check : {A B : Type 0} → Option A → Bytes → (A → Validated B) → Validated B
check none field next = flawed field
check (some a) field next = next a

unfoldable pub ensure : {B : Type 0} → Bool → Bytes → Validated B → Validated B
ensure b field next = if not b then flawed field else next

unfoldable pub is_hex_digit : ℕ → Bool
is_hex_digit c = is_digit c || ((leb b'a' c && leb c b'f') || (leb b'A' c && leb c b'F'))

-- `normalizeInfoHash`; a rune beyond ASCII has a byte that is no digit.
unfoldable pub normalize_info_hash : Bytes → Option Bytes
normalize_info_hash value =
    if not (length value == 40)
    then none
    else if not (all_bytes is_hex_digit value)
    then none
    else some (map lower_ascii value)

-- `nonNegativeInteger`
unfoldable pub natural_of : Option ℤ → Option ℕ
natural_of none = none
natural_of (some (pos n)) = some n
natural_of (some (negsuc n)) = none

unfoldable pub non_negative_integer : Bytes → Option ℕ
non_negative_integer value = natural_of (parse_int value)

-- `integerValuedNumber`
unfoldable pub integer_valued_number : Parsers → Bytes → Option ℤ
integer_valued_number parsers value =
    if is_empty value || ltb 64 (length value) then none else parsers.integral value

unfoldable pub above_zero : Option ℕ → Option ℕ
above_zero none = none
above_zero (some n) = if n == 0 then none else some n

-- `positiveInteger`
unfoldable pub positive_integer : Parsers → Bytes → Option ℕ
positive_integer parsers value = above_zero (natural_of (integer_valued_number parsers value))

-- `optionalNonNegativeInteger`
unfoldable pub optional_non_negative_integer : Parsers → Bytes → Option ℕ
optional_non_negative_integer parsers value =
    if is_empty value then some 0 else natural_of (integer_valued_number parsers value)

-- One `xt` of a magnet link
unfoldable pub is_topic_of : Bytes → Bytes → Bool
is_topic_of hash topic =
    if not (length topic == 9 + 40) || not (equal_fold (take 9 topic) (codes "urn:btih:"))
    then false
    else elim (normalize_info_hash (drop 9 topic)) [
      | none ↦ false
      | some candidate ↦ same candidate hash
    ]

unfoldable pub has_topic : Bytes → List Bytes → Bool
has_topic hash [] = false
has_topic hash (topic ∷ topics) = is_topic_of hash topic || has_topic hash topics

-- `magnetContainsInfoHash`
unfoldable pub magnet_contains_info_hash : Bytes → Bytes → Bool
magnet_contains_info_hash raw_query hash =
    let (values, fine) = parse_query raw_query in
    if not fine then false else has_topic hash (entries (codes "xt") values)

-- The check of the magnet in `validateTorrent`
unfoldable pub is_magnet_of : Parsers → Bytes → Bytes → Bool
is_magnet_of parsers hash magnet = elim (parsers.parse_url magnet) [
  | none ↦ false
  | some (scheme, raw_query) ↦
      equal_fold scheme (codes "magnet") && magnet_contains_info_hash raw_query hash
]

unfoldable pub is_xml_text : Bytes → Bool
is_xml_text value = not (is_empty value) && valid_xml10_string value

-- The end of `validateTorrent`, with the numbers
unfoldable pub validate_texts : Parsers → RawTorrent → Bytes → Torrent → Validated Torrent
validate_texts parsers raw hash torrent =
    ensure (is_magnet_of parsers hash raw.magnet) (codes "magnet") (
      ensure (is_xml_text raw.label) (codes "label") (
        ensure (is_xml_text raw.magnet) (codes "magnet") (
          ensure (is_xml_text raw.release_name) (codes "release.name.main")
            (ensure (is_xml_text raw.release_alias) (codes "release.alias") (valid torrent)))))

-- `validateTorrent` behind the check of the encoding. A year fits into an int of 64 bits.
unfoldable pub validate_fields : Parsers → RawTorrent → Validated Torrent
validate_fields parsers raw = check (normalize_info_hash raw.hash) (codes "hash") (λ hash.
    check (non_negative_integer raw.size) (codes "size") (λ size.
      check (non_negative_integer raw.seeders) (codes "seeders") (λ seeders.
        check (non_negative_integer raw.leechers) (codes "leechers") (λ leechers.
          check (non_negative_integer raw.completed_times) (codes "completed_times") (λ completed.
            check (positive_integer parsers raw.release_id) (codes "release.id") (λ release_id.
              check (optional_non_negative_integer parsers raw.release_year) (codes "release.year")
                (λ year. ensure (known raw.release_type) (codes "release.type.value") (
                  check (parsers.parse_time raw.updated_at) (codes "updated_at") (λ updated_at.
                    validate_texts parsers raw hash (record {
                      hash = hash;
                      size = size;
                      label = raw.label;
                      magnet = raw.magnet;
                      seeders = seeders;
                      leechers = leechers;
                      completed_times = completed;
                      updated_at = updated_at;
                      release = record {
                        id = release_id;
                        release_type = raw.release_type;
                        year = year;
                        main_name = raw.release_name;
                        alias = raw.release_alias;
                      };
                    }))))))))))

-- `validateTorrent`
unfoldable pub validate_torrent : Parsers → RawTorrent → Validated Torrent
validate_torrent parsers raw = elim raw.invalid_string [
  | some field ↦ flawed field
  | none ↦ validate_fields parsers raw
]

-- The check of the release in `validTorrents`; an expected id of 0 is none.
unfoldable pub validate_release : ℕ → Validated Torrent → Validated Torrent
validate_release expected (flawed field) = flawed field
validate_release expected (valid t) =
    if ltb 0 expected && not (t.release.id == expected)
    then flawed (codes "release.id")
    else valid t

-- The loop of `validTorrents`: how many torrents are not valid, and the others, `none` where the context
-- is done at the read before the i-th
unfoldable pub valid_torrents :
    Parsers → (ℕ → Bool) → ℕ → ℕ → List RawTorrent → ℕ × Option (List Torrent)
valid_torrents parsers done expected i [] = (0, some [])
valid_torrents parsers done expected i (raw ∷ raws) =
    let (invalid, rest) = valid_torrents parsers done expected (i + 1) raws in
    if done i then (0, none) else elim (validate_release expected (validate_torrent parsers raw)) [
      | flawed field ↦ (suc invalid, rest)
      | valid t ↦ (invalid, (elim rest [ none ↦ none | some ts ↦ some (t ∷ ts) ]))
    ]
