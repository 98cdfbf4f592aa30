-- ===== src/Tests/DocumentRuns.antt =====
-- The documents of internal/torznab/xml.go: a feed of one item, and an error.
use anilibria_torznab.Prelude.{
  ◌≡◌, ◌↔◌, refl, false, true, Option, none, some, List, [], ◌∷◌, ◌++◌, map, select,
}
use anilibria_torznab.Text.{
  Bytes, codes, trim_space, to_lower, runes, encode_rune, valid_utf8, equal_fold, folds, show,
}
use anilibria_torznab.Service.Processing.{Item}
use anilibria_torznab.Torznab.Category.{category_anime}
use anilibria_torznab.Torznab.Feed.{
  is_xml10_rune, all_xml10, valid_xml10_string, is_text, is_hex, is_magnet, comments_of,
  trim_slashes, rendered, prepare_item, is_prepared, validate_site_base_url, render_items,
}
use anilibria_torznab.Torznab.Document.{
  Node, concat, writes_pass, marshal_document_context, Context, xml_header, render_rss_context,
  error_of,
}
use anilibria_torznab.Torznab.Document.Feeds.{render_rss_context-read}
use anilibria_torznab.Torznab.Document.Reader.{read_feed, seen}
use anilibria_torznab.Torznab.Document.Errors.{Renderable, error_of_lem}
use anilibria_torznab.Tests.ServiceRuns.{library, hash_a, alive}

abbrev item : Item
item = record {
  title = codes "T";
  info_hash = hash_a;
  magnet_uri = codes "magnet:?";
  release_alias = codes "t";
  updated_at = 1;
  category = category_anime;
  size_bytes = 10;
  seeders = 1;
  leechers = 2;
  completed_times = 3;
  year = none;
}

abbrev context : Context
context = record { done_first = false; done_at = alive; done_writing = alive; done_last = false }

abbrev encode : Node → Option (List Bytes)
encode document = some (codes "<rss>" ∷ codes "</rss>" ∷ [])

abbrev site : Bytes
site = codes "http://s/"

render_rss_context-read_example :
    (document : Node) × (chunks : List Bytes) × (encode document ≡ some chunks)
    × (xml_header ++ codes "<rss></rss>" ≡ xml_header ++ concat chunks)
    × (writes_pass context.done_writing 0 chunks ≡ true)
    × (context.done_last ≡ false)
    × (read_feed document ≡ (
      site,
      show 0,
      show 1,
      map seen (map (rendered library site) (select (is_prepared library site) (item ∷ []))),
    ))
unfolding render_rss_context validate_site_base_url render_items prepare_item
    marshal_document_context writes_pass concat is_text is_hex is_magnet comments_of trim_slashes
    valid_xml10_string all_xml10 is_xml10_rune runes valid_utf8 trim_space to_lower encode_rune
    equal_fold folds
render_rss_context-read_example =
    render_rss_context-read encode library context site 0 1 (item ∷ [])
      (xml_header ++ codes "<rss></rss>") refl

error_of_lem_example :
    ((document : Node) × (error_of 201 (codes "ep") ≡ some document)) ↔ Renderable 201 (codes "ep")
error_of_lem_example = error_of_lem 201 (codes "ep")
