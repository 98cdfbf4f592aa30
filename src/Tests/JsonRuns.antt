-- ===== src/Tests/JsonRuns.antt =====
-- Strings of internal/anilibria/models.go: a pair of surrogates, and the strings of a torrent.
use anilibria_torznab.Prelude.{◌∷◌, ◌≡◌, ◌↔◌, refl, true, some}
use anilibria_torznab.Text.{Bytes, codes}
use anilibria_torznab.Anilibria.Json.{valid_json_string_encoding, RawStrings, Unmarshal}
use anilibria_torznab.Anilibria.Json.Encoding.{Encoded, valid_json_string_encoding_lem}
use anilibria_torznab.Tests.ModelRuns.{raw, torrent}

abbrev smile : Bytes
smile = codes "a\\ud83d\\ude00\""

valid_json_string_encoding_lem_example :
    (valid_json_string_encoding (b'"' ∷ smile) ≡ true) ↔ Encoded smile
valid_json_string_encoding_lem_example = valid_json_string_encoding_lem smile refl

abbrev strings : RawStrings
strings = record {
  hash = codes "\"h\"";
  label = b'"' ∷ smile;
  magnet = codes "null";
  updated_at = codes "\"t\"";
  release_type = codes "\"TV\"";
  release_name = codes "\"N\"";
  release_alias = codes "\"n\"";
}

abbrev unmarshal : Unmarshal
unmarshal = record {
  torrent = λ response. some (raw (codes "10"));
  strings = λ response. some strings;
}
