-- ===== src/Torznab/Document.antt =====
-- internal/torznab/xml.go: the documents, as trees of elements by the tags of their types, and how they are
-- marshalled. What encoding/xml writes for a tree is a parameter.
pub mod Errors
pub mod Reader
pub mod Feeds
use anilibria_torznab.Prelude.{
  ℕ, zero, suc, ◌+◌, Bool, true, false, ◌||◌, not, Option, none, some, List, [], ◌∷◌, ◌++◌, map,
  ◌==◌, if◌then◌else◌,
}
use anilibria_torznab.Text.{Bytes, codes, same, show}
use anilibria_torznab.Service.Processing.{Item}
use anilibria_torznab.Torznab.Category.{Category, category_tv, category_anime}
use anilibria_torznab.Torznab.Feed.{
  Library, Value, number, text, RssItem, category_id, validate_site_base_url, render_items,
}

mutual
  pub data Node : Type 0 where
    chars : Bytes → Node
    element : Bytes → List (Bytes × Bytes) → Nodes → Node

  pub data Nodes : Type 0 where
    end : Nodes
    next : Node → Nodes → Nodes

abbrev pub one : Node → Nodes
one n = next n end

-- An element that has text alone
abbrev pub text_element : Bytes → Bytes → Node
text_element name value = element name [] (one (chars value))

abbrev pub feed_title : Bytes
feed_title = codes "AniLiberty Torznab"

-- `capsDocument` and its parts
unfoldable pub caps_search : Bytes → Bytes → Node
caps_search name parameters =
    element name ((codes "available", codes "yes") ∷ (codes "supportedParams", parameters) ∷ []) end

unfoldable pub caps_category : Bytes → Category → Bytes → Nodes → Node
caps_category tag category name inner =
    element tag ((codes "id", show (category_id category)) ∷ (codes "name", name) ∷ []) inner

-- The document of `RenderCaps`
unfoldable pub caps_document : Node
caps_document = element (codes "caps") [] (
    next
      (element (codes "server") ((codes "version", codes "1.3") ∷ (codes "title", feed_title) ∷ [])
        end)
      (next
        (element (codes "limits") ((codes "max", codes "50") ∷ (codes "default", codes "50") ∷ [])
          end)
        (next
          (element (codes "searching") [] (
            next (caps_search (codes "search") (codes "q"))
              (one (caps_search (codes "tv-search") (codes "q,season,ep")))))
          (one (
            element (codes "categories") [] (
              one (
                caps_category (codes "category") category_tv (codes "TV")
                  (one (caps_category (codes "subcat") category_anime (codes "Anime") end)))))))))

-- `Parameter.valid`
unfoldable pub parameter_valid : Bytes → Bool
parameter_valid p =
    same p (codes "apikey")
    || (same p (codes "t")
        || (same p (codes "q")
            || (same p (codes "cat")
                || (same p (codes "limit")
                    || (same p (codes "offset")
                        || (same p (codes "extended")
                            || (same p (codes "season") || same p (codes "ep"))))))))

-- `errorDocument`
unfoldable pub error_document : ℕ → Bytes → Node
error_document code description =
    element (codes "error") ((codes "code", show code) ∷ (codes "description", description) ∷ [])
      end

-- The document of `RenderError`; `none` is its error.
unfoldable pub error_of : ℕ → Bytes → Option Node
error_of code parameter =
    if code == 100
    then some (error_document code (codes "Incorrect user credentials"))
    else if code == 200
    then (if not (parameter_valid parameter)
        then none
        else some (error_document code (codes "Missing parameter: " ++ parameter)))
    else if code == 201
    then (if not (parameter_valid parameter)
        then none
        else some (error_document code (codes "Incorrect parameter: " ++ parameter)))
    else if code == 202
    then some (error_document code (codes "No such function"))
    else if code == 203
    then some (error_document code (codes "Function not available"))
    else if code == 900
    then some (error_document code (codes "Upstream request failed"))
    else none

-- The text of a category, as a feed shows it
unfoldable pub category_text : Category → Bytes
category_text category_tv = codes "TV"
category_text category_anime = codes "TV > Anime"

unfoldable pub value_text : Value → Bytes
value_text (number n) = show n
value_text (text t) = t

-- `rssAttribute`
unfoldable pub attribute_nodes : List (Bytes × Value) → Nodes
attribute_nodes [] = end
attribute_nodes ((name, value) ∷ attributes) =
    next
      (element (codes "torznab:attr")
        ((codes "name", name) ∷ (codes "value", value_text value) ∷ []) end)
      (attribute_nodes attributes)

-- `rssItem`, with `rssGUID` and `rssEnclosure`
unfoldable pub item_node : RssItem → Node
item_node item = element (codes "item") [] (
    next (text_element (codes "title") item.title) (
      next
        (element (codes "guid") ((codes "isPermaLink", codes "false") ∷ []) (one (chars item.guid)))
        (next (text_element (codes "link") item.link) (
          next (text_element (codes "comments") item.comments) (
            next (text_element (codes "pubDate") item.published) (
              next (text_element (codes "category") (category_text item.category)) (
                next
                  (element (codes "enclosure")
                    ((codes "url", item.link)
                      ∷ (codes "length", show item.enclosure_length)
                      ∷ (codes "type", codes "application/x-bittorrent")
                      ∷ [])
                    end)
                  (attribute_nodes item.attributes))))))))

unfoldable pub item_nodes : List RssItem → Nodes
item_nodes [] = end
item_nodes (item ∷ items) = next (item_node item) (item_nodes items)

-- `rssDocument`, with `rssChannel` and `rssResponse`
unfoldable pub rss_document : Bytes → ℕ → ℕ → List RssItem → Node
rss_document base offset total items =
    element (codes "rss")
      ((codes "version", codes "2.0")
        ∷ (codes "xmlns:newznab", codes "http://www.newznab.com/DTD/2010/feeds/attributes/")
        ∷ (codes "xmlns:torznab", codes "http://torznab.com/schemas/2015/feed")
        ∷ [])
      (one (
        element (codes "channel") [] (
          next (text_element (codes "title") feed_title) (
            next (text_element (codes "description") (codes "AniLiberty torrent results")) (
              next (text_element (codes "link") base) (
                next
                  (element (codes "newznab:response")
                    ((codes "offset", show offset) ∷ (codes "total", show total) ∷ []) end)
                  (item_nodes items)))))))

-- `xml.Header`
abbrev pub xml_header : Bytes
xml_header = codes "<?xml version=\"1.0\" encoding=\"UTF-8\"?>\n"

unfoldable pub concat : List Bytes → Bytes
concat [] = []
concat (chunk ∷ chunks) = chunk ++ concat chunks

-- The writes of an encoder to a `contextWriter`, where the i-th is refused if the context is done
unfoldable pub writes_pass : (ℕ → Bool) → ℕ → List Bytes → Bool
writes_pass done i [] = true
writes_pass done i (chunk ∷ chunks) =
    let rest = writes_pass done (suc i) chunks in if done i then false else rest

-- `Encode` of encoding/xml: the writes that it makes, or an error
module _ (encode : Node → Option (List Bytes)) where
  -- `marshalDocument`
  unfoldable pub marshal_document : Node → Option Bytes
  marshal_document n = elim (encode n) [
    | none ↦ none
    | some chunks ↦ some (xml_header ++ concat chunks)
  ]

  -- `marshalDocumentContext`; `ended` is the context behind the last write.
  unfoldable pub marshal_document_context : (ℕ → Bool) → Bool → Node → Option Bytes
  marshal_document_context done ended n = elim (encode n) [
    | none ↦ none
    | some chunks ↦
        if not (writes_pass done 0 chunks) || ended
        then none
        else some (xml_header ++ concat chunks)
  ]

  -- `RenderCaps` and `RenderError`
  unfoldable pub render_caps : Option Bytes
  render_caps = marshal_document caps_document

  unfoldable pub render_error : ℕ → Bytes → Option Bytes
  render_error code parameter = elim (error_of code parameter) [
    | none ↦ none
    | some document ↦ marshal_document document
  ]

-- What the context is as a feed is rendered: at the start, before the i-th item, before the i-th write and
-- at the end
pub record Context : Type 0 where
  pub done_first : Bool
  pub done_at : ℕ → Bool
  pub done_writing : ℕ → Bool
  pub done_last : Bool

-- `RenderRSSContext`, on a total that is no negative number
unfoldable pub render_rss_context :
    (Node → Option (List Bytes)) → Library → Context → Bytes → ℕ → ℕ → List Item → Option Bytes
render_rss_context encode lib ctx site offset total items =
    if ctx.done_first then none else elim (validate_site_base_url lib site) [
      | none ↦ none
      | some base ↦ elim (render_items lib ctx.done_at 0 base items) [
        | none ↦ none
        | some rendered ↦
            marshal_document_context encode ctx.done_writing ctx.done_last
              (rss_document base offset total rendered)
      ]
    ]
