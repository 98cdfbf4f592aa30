-- ===== src/Torznab/Feed/Rendering.antt =====
-- What of a page is rendered.
use anilibria_torznab.Prelude.{
  ℕ, ◌+◌, ◌≡◌, refl, sym, subst, inl, inr, Bool, true, false, some, List, [], ◌∷◌, map, drop,
  select, All, All-select, All-take, All-drop, Option-cases, arith,
}
use anilibria_torznab.Text.{Bytes}
use anilibria_torznab.Service.Processing.{Item}
use anilibria_torznab.Service.Paging.{page_items}
use anilibria_torznab.Service.Paging.Bounds.{page_items_lem}
use anilibria_torznab.Torznab.Feed.{
  Library, rendered, prepare_item, is_prepared, validate_site_base_url, filter_valid_items,
  render_items,
}

module _ (lib : Library) where
  prepare_item-rendered :
      (item : Item) (base : Bytes)
      → is_prepared lib base item ≡ true
      → prepare_item lib item base ≡ some (rendered lib base item)
  unfolding prepare_item is_prepared
  prepare_item-rendered item base h = ground arith

  render-all :
      (done : ℕ → Bool) (i : ℕ) (base : Bytes) (items : List Item)
      → ((n : ℕ) → done n ≡ false)
      → All (λ item. is_prepared lib base item ≡ true) items
      → render_items lib done i base items ≡ some (map (rendered lib base) items)
  unfolding render_items
  render-all done i base [] alive h = refl
  render-all done i base (item ∷ items) alive h = ground (
    arith,
    alive i,
    prepare_item-rendered item base h.0,
    render-all done (i + 1) base items alive h.1,
  )

  filter_valid_items-All :
      (site base : Bytes) (items : List Item)
      → validate_site_base_url lib site ≡ some base
      → All (λ item. is_prepared lib base item ≡ true) (filter_valid_items lib items site)
  unfolding filter_valid_items
  filter_valid_items-All site base items valid =
      rw (valid, filter_valid_items) (All-select (is_prepared lib base) items)

  pub validate_site_base_url-raw :
      (raw base : Bytes) → validate_site_base_url lib raw ≡ some base → base ≡ raw
  unfolding validate_site_base_url
  validate_site_base_url-raw raw base h = ground arith

  -- What holds of no items and of the items that are fit for the site holds of those that are filtered.
  pub filter_valid_items-rule :
      (P : List Item → Type 0) (site : Bytes) (items : List Item)
      → P []
      → P (select (is_prepared lib site) items)
      → P (filter_valid_items lib items site)
  unfolding filter_valid_items
  filter_valid_items-rule P site items h g = elim (Option-cases (validate_site_base_url lib site)) [
    | inl e ↦ rw (e, filter_valid_items) h
    | inr (base, e) ↦
        rw (e, filter_valid_items)
          (subst (λ b. P (select (is_prepared lib b) items))
            (sym (validate_site_base_url-raw site base e)) g)
  ]

  page_items-All :
      (P : Item → Type 0) (items : List Item) (offset limit : ℕ)
      → All P items
      → All P (page_items items offset limit)
  page_items-All P items offset limit h =
      subst (All P) (sym (page_items_lem items offset limit).0)
        (All-take P limit (drop offset items) (All-drop P offset items h))

  -- Of a page that is cut from the valid items for a site, every item is rendered, in its place, as
  -- long as the context lasts: the number of items in the document is that of the page.
  pub render_items-page_items :
      (done : ℕ → Bool) (site base : Bytes) (items : List Item) (offset limit : ℕ)
      → ((n : ℕ) → done n ≡ false)
      → validate_site_base_url lib site ≡ some base
      → render_items lib done 0 base (page_items (filter_valid_items lib items site) offset limit)
        ≡ some
            (map (rendered lib base) (page_items (filter_valid_items lib items site) offset limit))
  render_items-page_items done site base items offset limit alive valid =
      render-all done 0 base (page_items (filter_valid_items lib items site) offset limit) alive (
        page_items-All (λ item. is_prepared lib base item ≡ true)
          (filter_valid_items lib items site) offset limit
          (filter_valid_items-All site base items valid))
