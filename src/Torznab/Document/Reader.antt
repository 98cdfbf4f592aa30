-- ===== src/Torznab/Document/Reader.antt =====
-- A reader of the documents of feeds, and what it reads.
use anilibria_torznab.Prelude.{ℕ, ◌≡◌, refl, ap, ap₂, List, [], ◌∷◌, map, if◌then◌else◌}
use anilibria_torznab.Text.{Bytes, codes, same, show}
use anilibria_torznab.Torznab.Feed.{Value, RssItem}
use anilibria_torznab.Torznab.Document.{
  Node, chars, element, Nodes, end, next, value_text, category_text, attribute_nodes, item_node,
  item_nodes, rss_document,
}

-- A reader of documents: the first child with a name, the text of an element, an attribute
abbrev text_of : Nodes → Bytes
text_of end = []
text_of (next (chars t) nodes) = t
text_of (next (element name attributes children) nodes) = []

abbrev child_text : Bytes → Nodes → Bytes
child_text name end = []
child_text name (next (chars t) nodes) = child_text name nodes
child_text name (next (element tag attributes children) nodes) =
    let rest = child_text name nodes in if same tag name then text_of children else rest

abbrev attribute : Bytes → List (Bytes × Bytes) → Bytes
attribute name [] = []
attribute name ((key, value) ∷ attributes) =
    let rest = attribute name attributes in if same key name then value else rest

-- The attribute of the first child with a name
abbrev child_attribute : Bytes → Bytes → Nodes → Bytes
child_attribute name key end = []
child_attribute name key (next (chars t) nodes) = child_attribute name key nodes
child_attribute name key (next (element tag attributes children) nodes) =
    let rest = child_attribute name key nodes in
    if same tag name then attribute key attributes else rest

-- The names and values of the Torznab attributes
abbrev read_attributes : Nodes → List (Bytes × Bytes)
read_attributes end = []
read_attributes (next (chars t) nodes) = read_attributes nodes
read_attributes (next (element tag attributes children) nodes) =
    let rest = read_attributes nodes in
    if same tag (codes "torznab:attr")
    then (attribute (codes "name") attributes, attribute (codes "value") attributes) ∷ rest
    else rest

-- An item as a client reads it
pub record ReadItem : Type 0 where
  title : Bytes
  guid : Bytes
  link : Bytes
  comments : Bytes
  published : Bytes
  category : Bytes
  enclosure_url : Bytes
  enclosure_length : Bytes
  attributes : List (Bytes × Bytes)

abbrev read_item : Nodes → ReadItem
read_item nodes = record {
  title = child_text (codes "title") nodes;
  guid = child_text (codes "guid") nodes;
  link = child_text (codes "link") nodes;
  comments = child_text (codes "comments") nodes;
  published = child_text (codes "pubDate") nodes;
  category = child_text (codes "category") nodes;
  enclosure_url = child_attribute (codes "enclosure") (codes "url") nodes;
  enclosure_length = child_attribute (codes "enclosure") (codes "length") nodes;
  attributes = read_attributes nodes;
}

abbrev read_items : Nodes → List ReadItem
read_items end = []
read_items (next (chars t) nodes) = read_items nodes
read_items (next (element tag attributes children) nodes) =
    let rest = read_items nodes in
    if same tag (codes "item") then read_item children ∷ rest else rest

-- The link, the offset, the total and the items of a feed
abbrev pub read_feed : Node → Bytes × Bytes × Bytes × List ReadItem
read_feed (element root attributes (next (element channel more nodes) end)) = (
  child_text (codes "link") nodes,
  child_attribute (codes "newznab:response") (codes "offset") nodes,
  child_attribute (codes "newznab:response") (codes "total") nodes,
  read_items nodes,
)
read_feed _ = ([], [], [], [])

abbrev attribute_text : Bytes × Value → Bytes × Bytes
attribute_text (name, value) = (name, value_text value)

-- What an item of the feed says
abbrev pub seen : RssItem → ReadItem
seen item = record {
  title = item.title;
  guid = item.guid;
  link = item.link;
  comments = item.comments;
  published = item.published;
  category = category_text item.category;
  enclosure_url = item.link;
  enclosure_length = show item.enclosure_length;
  attributes = map attribute_text item.attributes;
}

read_attributes-nodes :
    (attributes : List (Bytes × Value))
    → read_attributes (attribute_nodes attributes) ≡ map attribute_text attributes
unfolding attribute_nodes
read_attributes-nodes [] = refl
read_attributes-nodes ((name, value) ∷ attributes) =
    ap (λ rest. (name, value_text value) ∷ rest) (read_attributes-nodes attributes)

read_items-nodes : (items : List RssItem) → read_items (item_nodes items) ≡ map seen items
unfolding item_nodes item_node
read_items-nodes [] = refl
read_items-nodes (item ∷ items) =
    ap₂ (λ attributes rest. record (seen item) { attributes = attributes } ∷ rest)
      (read_attributes-nodes item.attributes) (read_items-nodes items)

pub read_feed-document :
    (base : Bytes) (offset total : ℕ) (items : List RssItem)
    → read_feed (rss_document base offset total items)
      ≡ (base, show offset, show total, map seen items)
unfolding rss_document
read_feed-document base offset total items =
    ap (λ items. (base, show offset, show total, items)) (read_items-nodes items)
