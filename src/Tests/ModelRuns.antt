-- ===== src/Tests/ModelRuns.antt =====
-- internal/anilibria/models.go on a response of two torrents.
use anilibria_torznab.Prelude.{
  ℕ, zero, suc, ◌+◌, ◌≡◌, refl, Bool, false, none, some, [], ◌∷◌, ◌++◌, pos, length, All,
}
use anilibria_torznab.Text.{
  Bytes, codes, split, cut, equal_fold, folds, runes, valid_utf8, parse_int, parse_uint,
}
use anilibria_torznab.HttpApi.Query.{query_unescape, decode_field, parse_fields, parse_query}
use anilibria_torznab.Torznab.Category.{tv, known}
use anilibria_torznab.Torznab.Feed.{is_xml10_rune, all_xml10, valid_xml10_string}
use anilibria_torznab.Service.Processing.{Torrent}
use anilibria_torznab.Anilibria.Models.{
  RawTorrent, Parsers, check, ensure, is_hex_digit, normalize_info_hash, natural_of,
  non_negative_integer, integer_valued_number, above_zero, positive_integer,
  optional_non_negative_integer, is_topic_of, has_topic, magnet_contains_info_hash, is_magnet_of,
  is_xml_text, validate_texts, validate_fields, validate_torrent, validate_release, valid_torrents,
}
use anilibria_torznab.Anilibria.Models.Soundness.{IsOf, valid_torrents-IsOf}

abbrev repeat : ℕ → ℕ → Bytes
repeat zero c = []
repeat (suc n) c = c ∷ repeat n c

abbrev topic : Bytes
topic = codes "xt=urn:btih:" ++ repeat 40 b'a'

abbrev pub parsers : Parsers
parsers = record {
  integral = λ s. some (pos 7);
  parse_time = λ s. some 3;
  parse_url = λ s. some (codes "magnet", topic);
}

abbrev pub raw : Bytes → RawTorrent
raw size = record {
  invalid_string = none;
  hash = repeat 40 b'A';
  size = size;
  label = codes "L";
  magnet = codes "M";
  seeders = codes "1";
  leechers = codes "2";
  completed_times = codes "3";
  updated_at = codes "T";
  release_id = codes "7.0";
  release_type = tv;
  release_year = [];
  release_name = codes "N";
  release_alias = codes "n";
}

abbrev pub torrent : Torrent
torrent = record {
  hash = repeat 40 b'a';
  size = 10;
  label = codes "L";
  magnet = codes "M";
  seeders = 1;
  leechers = 2;
  completed_times = 3;
  updated_at = 3;
  release = record {
    id = 7;
    release_type = tv;
    year = 0;
    main_name = codes "N";
    alias = codes "n";
  };
}

abbrev alive : ℕ → Bool
alive i = false

valid_torrents-IsOf_example :
    All (IsOf 7) (torrent ∷ [])
    × ((valid_torrents parsers alive 7 0 (raw (codes "10") ∷ raw (codes "-1") ∷ [])).0
          + length (torrent ∷ [])
        ≡ length (raw (codes "10") ∷ raw (codes "-1") ∷ []))
unfolding valid_torrents validate_release validate_torrent validate_fields validate_texts check
    ensure normalize_info_hash is_hex_digit natural_of non_negative_integer integer_valued_number
    above_zero positive_integer optional_non_negative_integer is_magnet_of magnet_contains_info_hash
    has_topic is_topic_of is_xml_text valid_xml10_string all_xml10 is_xml10_rune known parse_int
    parse_uint parse_query parse_fields decode_field query_unescape split cut equal_fold folds runes
    valid_utf8
valid_torrents-IsOf_example =
    valid_torrents-IsOf parsers alive 7 0 (raw (codes "10") ∷ raw (codes "-1") ∷ []) (torrent ∷ [])
      refl
