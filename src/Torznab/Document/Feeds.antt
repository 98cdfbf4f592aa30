-- ===== src/Torznab/Document/Feeds.antt =====
-- What a client reads in the document of a feed.
use anilibria_torznab.Prelude.{
  ℕ, ◌+◌, ◌≡◌, sym, ap, ap₂, ◌∙◌, Bool, inl, inr, true, false, Option, Option-cases, none, some,
  List, [], ◌∷◌, ◌++◌, map, select, arith,
}
use anilibria_torznab.Text.{Bytes, show}
use anilibria_torznab.Service.Processing.{Item}
use anilibria_torznab.Torznab.Feed.{
  Library, RssItem, prepare_item, rendered, is_prepared, validate_site_base_url, render_items,
}
use anilibria_torznab.Torznab.Feed.Rendering.{validate_site_base_url-raw}
use anilibria_torznab.Torznab.Document.{
  Node, rss_document, xml_header, concat, writes_pass, marshal_document_context, Context,
  render_rss_context,
}
use anilibria_torznab.Torznab.Document.Reader.{read_feed, seen, read_feed-document}

prepare_item-rendered :
    (lib : Library) (base : Bytes) (item : Item) (r : RssItem)
    → prepare_item lib item base ≡ some r
    → (is_prepared lib base item ≡ true) × (rendered lib base item ≡ r)
unfolding prepare_item is_prepared
prepare_item-rendered lib base item r h = (ground arith, ground arith)

render_items-some :
    (lib : Library) (done : ℕ → Bool) (i : ℕ) (base : Bytes) (items : List Item) (rs : List RssItem)
    → render_items lib done i base items ≡ some rs
    → rs ≡ map (rendered lib base) (select (is_prepared lib base) items)
unfolding render_items is_prepared
render_items-some lib done i base [] rs h = ground arith
render_items-some lib done i base (item ∷ items) rs h =
    elim (Option-cases (prepare_item lib item base)) [
      | inl e ↦
          let out = not_prepared item e in
          let ih = render_items-some lib done (i + 1) base items rs (ground arith) in ground arith
      | inr (r, e) ↦ elim (Option-cases (render_items lib done (i + 1) base items)) [
        | inl e' ↦ absurd (ground arith)
        | inr (rest, e') ↦
            let (fit, same_item) = prepare_item-rendered lib base item r e in
            let ih = render_items-some lib done (i + 1) base items rest e' in
            let all : r ∷ rest ≡ rs = ground arith in
            sym all
            ∙ ap₂ (λ (x : RssItem) (xs : List RssItem). x ∷ xs) (sym same_item) ih
            ∙ sym (kept item fit)
      ]
    ]
  where
    not_prepared :
        (item : Item) → prepare_item lib item base ≡ none → is_prepared lib base item ≡ false
    not_prepared item e = ground arith

    kept :
        (item : Item)
        → is_prepared lib base item ≡ true
        → map (rendered lib base) (select (is_prepared lib base) (item ∷ items))
          ≡ rendered lib base item ∷ map (rendered lib base) (select (is_prepared lib base) items)
    kept item fit = ground arith

marshal_document_context-some :
    (encode : Node → Option (List Bytes)) (done : ℕ → Bool) (ended : Bool) (n : Node) (out : Bytes)
    → marshal_document_context encode done ended n ≡ some out
    → (chunks : List Bytes) × (encode n ≡ some chunks)
      × (writes_pass done 0 chunks ≡ true)
      × (ended ≡ false)
      × (out ≡ xml_header ++ concat chunks)
unfolding marshal_document_context
marshal_document_context-some encode done ended n out h = elim (Option-cases (encode n)) [
  | inl e ↦ absurd (ground arith)
  | inr (chunks, e) ↦ (chunks, e, ground arith, ground arith, ground arith)
]

-- A feed that is rendered is the whole of what the encoder writes for one document, behind the header and
-- with the context alive up to its end; and a client reads in that document the site, the offset, the
-- total and the items that are fit for a feed, in their order, each with what it says.
pub render_rss_context-read :
    (encode : Node → Option (List Bytes)) (lib : Library) (ctx : Context) (site : Bytes)
    (offset total : ℕ) (items : List Item) (out : Bytes)
    → render_rss_context encode lib ctx site offset total items ≡ some out
    → (document : Node) × (chunks : List Bytes) × (encode document ≡ some chunks)
      × (out ≡ xml_header ++ concat chunks)
      × (writes_pass ctx.done_writing 0 chunks ≡ true)
      × (ctx.done_last ≡ false)
      × (read_feed document ≡ (
        site,
        show offset,
        show total,
        map seen (map (rendered lib site) (select (is_prepared lib site) items)),
      ))
unfolding render_rss_context
render_rss_context-read encode lib ctx site offset total items out h =
    elim (Option-cases (validate_site_base_url lib site)) [
      | inl e ↦ absurd (ground arith)
      | inr (base, valid) ↦ elim (Option-cases (render_items lib ctx.done_at 0 base items)) [
        | inl e ↦ absurd (ground arith)
        | inr (rs, some_items) ↦
            let document = rss_document base offset total rs in
            let (chunks, written, pass, alive, whole) =
              marshal_document_context-some encode ctx.done_writing ctx.done_last document out
                (ground arith) in
            let same_base = validate_site_base_url-raw lib site base valid in
            let same_items = render_items-some lib ctx.done_at 0 base items rs some_items in
            let read = read_feed-document base offset total rs in
            (
              document,
              chunks,
              written,
              whole,
              pass,
              alive,
              read
                  ∙ ap (λ rs. (base, show offset, show total, map seen rs)) same_items
                  ∙ ap
                      (λ base. (
                        base,
                        show offset,
                        show total,
                        map seen (map (rendered lib base) (select (is_prepared lib base) items)),
                      ))
                      same_base,
            )
      ]
    ]
