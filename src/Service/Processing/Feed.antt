-- ===== src/Service/Processing/Feed.antt =====
-- What holds of every feed that `process` makes.
use anilibria_torznab.Prelude.{
  ℕ, ◌+◌, ◌≤◌, ◌≡◌, refl, sym, ◌∙◌, subst, Bool, true, false, ◌||◌, none, some, some-injective,
  List, [], ◌∷◌, All, select, All-select, if◌then◌else◌, if_rule, arith,
}
use anilibria_torznab.Text.{Bytes, same, before}
use anilibria_torznab.Torznab.Category
use anilibria_torznab.Torznab.Category.{category_for}
use anilibria_torznab.Service.Processing.{
  Torrent, Item, Filters, maximum_int64, Verdict, kept, rejected, filtered, item_of, judge_title,
  judge, add_item, comes_before, insert_item, sort_items, process,
}
use anilibria_torznab.Service.Processing.Sorting.{IsSorted, sort_items-IsSorted, All-insert_item}
use anilibria_torznab.Service.Processing.Selection.{
  lower_hash, other, first_by_hash, selected, interrupted, process-selected,
}

-- Every item comes before all later ones.
unfoldable pub IsStrict : List Item → Type 0
IsStrict [] = Unit
IsStrict (x ∷ xs) = All (λ y. comes_before x y ≡ true) xs × IsStrict xs

-- The category is asked for, and the sum of the peers is a 64-bit integer.
unfoldable pub IsServable : Filters → Item → Type 0
IsServable f item =
    (Category.matches f.categories item.category ≡ true)
    × (item.seeders + item.leechers ≤ maximum_int64)

-- No two hashes are the same.
unfoldable pub IsDistinct : List Item → Type 0
IsDistinct [] = Unit
IsDistinct (x ∷ xs) = All (λ y. same y.info_hash x.info_hash ≡ false) xs × IsDistinct xs

same_comm : (a b : Bytes) → same a b ≡ same b a
same_comm [] [] = refl
same_comm [] (y ∷ ys) = refl
same_comm (x ∷ xs) [] = refl
same_comm (x ∷ xs) (y ∷ ys) = ground (arith, same_comm xs ys)

before-total : (a b : Bytes) → same b a ≡ false → before b a ≡ false → before a b ≡ true
before-total [] [] h g = absurd (ground arith)
before-total [] (y ∷ ys) h g = refl
before-total (x ∷ xs) [] h g = absurd (ground arith)
before-total (x ∷ xs) (y ∷ ys) h g = ground (arith, before-total xs ys)

comes_before-total :
    (x y : Item)
    → same y.info_hash x.info_hash ≡ false
    → comes_before y x ≡ false
    → comes_before x y ≡ true
unfolding comes_before
comes_before-total x y h g = ground (arith, before-total x.info_hash y.info_hash)

All-strict :
    (x : Item) (ys : List Item)
    → All (λ y. same y.info_hash x.info_hash ≡ false) ys
    → All (λ y. comes_before y x ≡ false) ys
    → All (λ y. comes_before x y ≡ true) ys
All-strict x [] h g = tt
All-strict x (y ∷ ys) h g = (comes_before-total x y h.0 g.0, All-strict x ys h.1 g.1)

sorted-IsStrict : (items : List Item) → IsSorted items → IsDistinct items → IsStrict items
unfolding IsSorted IsDistinct IsStrict
sorted-IsStrict [] h g = tt
sorted-IsStrict (x ∷ xs) h g = (All-strict x xs g.0 h.0, sorted-IsStrict xs h.1 g.1)

insert_item-IsDistinct :
    (x : Item) (ys : List Item)
    → All (λ y. same y.info_hash x.info_hash ≡ false) ys
    → IsDistinct ys
    → IsDistinct (insert_item x ys)
unfolding insert_item IsDistinct
insert_item-IsDistinct x [] h g = (tt, tt)
insert_item-IsDistinct x (y ∷ ys) h g =
    if_rule IsDistinct (comes_before y x)
      (λ e. (
        All-insert_item (λ z. same z.info_hash y.info_hash ≡ false) x ys
            (same_comm x.info_hash y.info_hash ∙ h.0) g.0,
        insert_item-IsDistinct x ys h.1 g.1,
      ))
      (λ e. (h, g))

All-sort_items : (P : Item → Type 0) (items : List Item) → All P items → All P (sort_items items)
unfolding sort_items
All-sort_items P [] h = tt
All-sort_items P (x ∷ xs) h = All-insert_item P x (sort_items xs) h.0 (All-sort_items P xs h.1)

sort_items-IsDistinct : (items : List Item) → IsDistinct items → IsDistinct (sort_items items)
unfolding sort_items IsDistinct
sort_items-IsDistinct [] h = tt
sort_items-IsDistinct (x ∷ xs) h =
    insert_item-IsDistinct x (sort_items xs)
      (All-sort_items (λ y. same y.info_hash x.info_hash ≡ false) xs h.0)
      (sort_items-IsDistinct xs h.1)

-- One torrent
judge-item :
    (f : Filters) (t : Torrent) (item : Item)
    → t.leechers ≤ maximum_int64
    → judge f t ≡ kept item
    → IsServable f item × (item.info_hash ≡ lower_hash f t)
unfolding judge judge_title item_of IsServable lower_hash
judge-item f t item bound h = ground arith

All-add_item :
    (P : Item → Type 0) (v : Verdict) (items : List Item)
    → ((item : Item) → v ≡ kept item → P item)
    → All P items
    → All P (add_item v items)
unfolding add_item
All-add_item P (kept item) items h hs = (h item refl, hs)
All-add_item P (rejected reason) items h hs = hs
All-add_item P filtered items h hs = hs

-- A count of leechers is a 64-bit integer.
unfoldable pub IsInt64 : Torrent → Type 0
IsInt64 t = t.leechers ≤ maximum_int64

All-selected :
    (P : Torrent → Type 0) (Q : Item → Type 0) (f : Filters)
    → ((t : Torrent) (item : Item) → P t → judge f t ≡ kept item → Q item)
    → (ts : List Torrent) → All P ts
    → All Q (selected f ts)
unfolding selected
All-selected P Q f step [] h = tt
All-selected P Q f step (t ∷ ts) h =
    All-add_item Q (judge f t) (selected f ts) (λ item e. step t item h.0 e)
      (All-selected P Q f step ts h.1)

-- `select` keeps what holds of all.
All-select_of_All :
    (P : Torrent → Type 0) (p : Torrent → Bool) (ts : List Torrent) → All P ts → All P (select p ts)
All-select_of_All P p [] h = tt
All-select_of_All P p (t ∷ ts) h =
    if_rule (All P) (p t) (λ e. (h.0, All-select_of_All P p ts h.1))
      (λ e. All-select_of_All P p ts h.1)

All-first_by_hash :
    (P : Torrent → Type 0) (f : Filters) (ts : List Torrent) → All P ts → All P (first_by_hash f ts)
unfolding first_by_hash
All-first_by_hash P f [] h = tt
All-first_by_hash P f (t ∷ ts) h =
    (h.0, All-select_of_All P (other f t) (first_by_hash f ts) (All-first_by_hash P f ts h.1))

-- The hashes of torrents are different from those of all later ones.
unfoldable pub HaveOwnHash : Filters → List Torrent → Type 0
HaveOwnHash f [] = Unit
HaveOwnHash f (t ∷ ts) = All (λ u. other f t u ≡ true) ts × HaveOwnHash f ts

select-HaveOwnHash :
    (f : Filters) (p : Torrent → Bool) (ts : List Torrent)
    → HaveOwnHash f ts
    → HaveOwnHash f (select p ts)
unfolding HaveOwnHash
select-HaveOwnHash f p [] h = tt
select-HaveOwnHash f p (t ∷ ts) h =
    if_rule (HaveOwnHash f) (p t)
      (λ e. (All-select_of_All (λ u. other f t u ≡ true) p ts h.0, select-HaveOwnHash f p ts h.1))
      (λ e. select-HaveOwnHash f p ts h.1)

first_by_hash-HaveOwnHash : (f : Filters) (ts : List Torrent) → HaveOwnHash f (first_by_hash f ts)
unfolding first_by_hash HaveOwnHash
first_by_hash-HaveOwnHash f [] = tt
first_by_hash-HaveOwnHash f (t ∷ ts) = (
  All-select (other f t) (first_by_hash f ts),
  select-HaveOwnHash f (other f t) (first_by_hash f ts) (first_by_hash-HaveOwnHash f ts),
)

item-absent :
    (f : Filters) (t u : Torrent) (item other_item : Item)
    → IsInt64 t × IsInt64 u
    → other f t u ≡ true
    → judge f t ≡ kept item
    → judge f u ≡ kept other_item
    → same other_item.info_hash item.info_hash ≡ false
unfolding IsInt64 other
item-absent f t u item other_item bounds h e e' =
    ground (arith, judge-item f t item bounds.0 e, judge-item f u other_item bounds.1 e')

add-IsDistinct :
    (v : Verdict) (items : List Item)
    → ((item : Item) → v ≡ kept item → All (λ y. same y.info_hash item.info_hash ≡ false) items)
    → IsDistinct items
    → IsDistinct (add_item v items)
unfolding add_item IsDistinct
add-IsDistinct (kept item) items h g = (h item refl, g)
add-IsDistinct (rejected reason) items h g = g
add-IsDistinct filtered items h g = g

given-some :
    (b : Bool) (xs items : List Item) → (if b then none else some xs) ≡ some items → xs ≡ items
given-some true xs items h = absurd (ground arith)
given-some false xs items h = some-injective _ _ h

selected-IsDistinct :
    (f : Filters) (ts : List Torrent)
    → HaveOwnHash f ts
    → All IsInt64 ts
    → IsDistinct (selected f ts)
unfolding selected HaveOwnHash IsDistinct
selected-IsDistinct f [] h g = tt
selected-IsDistinct f (t ∷ ts) h g =
    add-IsDistinct (judge f t) (selected f ts) (λ item e. item-All item e)
      (selected-IsDistinct f ts h.1 g.1)
  where
    both :
        (us : List Torrent)
        → All (λ u. other f t u ≡ true) us
        → All IsInt64 us
        → All (λ u. (other f t u ≡ true) × IsInt64 u) us
    both [] h g = tt
    both (u ∷ us) h g = ((h.0, g.0), both us h.1 g.1)

    item-All :
        (item : Item)
        → judge f t ≡ kept item
        → All (λ y. same y.info_hash item.info_hash ≡ false) (selected f ts)
    item-All item e =
        All-selected (λ u. (other f t u ≡ true) × IsInt64 u)
          (λ y. same y.info_hash item.info_hash ≡ false) f
          (λ u y hu eu. item-absent f t u item y (g.0, hu.1) hu.0 e eu) ts (both ts h.0 g.1)

item-IsServable :
    (f : Filters) (t : Torrent) (item : Item)
    → IsInt64 t
    → judge f t ≡ kept item
    → IsServable f item
unfolding IsInt64
item-IsServable f t item h e = (judge-item f t item h e).0

-- Where the counts of leechers of the torrents are 64-bit integers, the items that a request is given are
-- in the strict order of the feed, no two of them have one hash, each has a category that the request
-- asks for, and the sum of its peers is a 64-bit integer.
pub process-IsStrict :
    (f : Filters) (done : ℕ → Bool) (done_before done_after : Bool) (torrents : List Torrent)
    (items : List Item)
    → All IsInt64 torrents
    → (process f done done_before done_after torrents).1 ≡ some items
    → IsStrict items × All (IsServable f) items × IsDistinct items
process-IsStrict f done done_before done_after torrents items h e =
    let own = selected f (first_by_hash f torrents) in
    let bounds = All-first_by_hash IsInt64 f torrents h in
    let distinct = sort_items-IsDistinct own (
      selected-IsDistinct f (first_by_hash f torrents) (first_by_hash-HaveOwnHash f torrents)
        bounds) in
    let strict = sorted-IsStrict (sort_items own) (sort_items-IsSorted own) distinct in
    let servable = All-sort_items (IsServable f) own (
      All-selected IsInt64 (IsServable f) f (item-IsServable f) (first_by_hash f torrents)
        bounds) in
    let same_items : sort_items own ≡ items =
      given-some (interrupted done 0 torrents || (done_before || done_after)) (sort_items own) items
        (sym (process-selected f done done_before done_after torrents) ∙ e) in
    subst (λ is. IsStrict is × All (IsServable f) is × IsDistinct is) same_items
      (strict, servable, distinct)
