-- ===== src/Service/Processing/Sorting.antt =====
-- The order of a feed.
use anilibria_torznab.Prelude.{◌≡◌, refl, true, false, List, [], ◌∷◌, All, if_rule, arith}
use mathlib.Core.List.{Perm}
use mathlib.Core.List.Perm
use anilibria_torznab.Text.{Bytes, before}
use anilibria_torznab.Service.Processing.{Item, comes_before, insert_item, sort_items}

-- No item comes before one that stands earlier.
unfoldable pub IsSorted : List Item → Type 0
IsSorted [] = Unit
IsSorted (x ∷ xs) = All (λ y. comes_before y x ≡ false) xs × IsSorted xs

before-asymmetric : (a b : Bytes) → before a b ≡ true → before b a ≡ false
before-asymmetric [] [] h = absurd (ground arith)
before-asymmetric [] (y ∷ ys) h = refl
before-asymmetric (x ∷ xs) [] h = absurd (ground arith)
before-asymmetric (x ∷ xs) (y ∷ ys) h = ground (arith, before-asymmetric xs ys)

before-transitive : (a b c : Bytes) → before b a ≡ false → before c b ≡ false → before c a ≡ false
before-transitive a [] [] h g = h
before-transitive a (y ∷ ys) [] h g = absurd (ground arith)
before-transitive [] [] (z ∷ zs) h g = refl
before-transitive [] (y ∷ ys) (z ∷ zs) h g = refl
before-transitive (x ∷ xs) [] c h g = absurd (ground arith)
before-transitive (x ∷ xs) (y ∷ ys) (z ∷ zs) h g = ground (arith, before-transitive xs ys zs)

comes_before-asymmetric : (x y : Item) → comes_before x y ≡ true → comes_before y x ≡ false
unfolding comes_before
comes_before-asymmetric x y h = ground (arith, before-asymmetric x.info_hash y.info_hash)

comes_before-transitive :
    (x y z : Item) → comes_before y x ≡ false → comes_before z y ≡ false → comes_before z x ≡ false
unfolding comes_before
comes_before-transitive x y z h g =
    ground (arith, before-transitive x.info_hash y.info_hash z.info_hash)

All-after :
    (x y : Item) (zs : List Item)
    → comes_before y x ≡ false
    → All (λ z. comes_before z y ≡ false) zs
    → All (λ z. comes_before z x ≡ false) zs
All-after x y [] h hs = tt
All-after x y (z ∷ zs) h hs = (comes_before-transitive x y z h hs.0, All-after x y zs h hs.1)

pub All-insert_item :
    (P : Item → Type 0) (x : Item) (ys : List Item) → P x → All P ys → All P (insert_item x ys)
unfolding insert_item
All-insert_item P x [] hx hs = (hx, tt)
All-insert_item P x (y ∷ ys) hx hs =
    if_rule (All P) (comes_before y x) (λ e. (hs.0, All-insert_item P x ys hx hs.1)) (λ e. (hx, hs))

insert_item-IsSorted : (x : Item) (ys : List Item) → IsSorted ys → IsSorted (insert_item x ys)
unfolding insert_item IsSorted
insert_item-IsSorted x [] h = (tt, tt)
insert_item-IsSorted x (y ∷ ys) h =
    if_rule IsSorted (comes_before y x)
      (λ e. (
        All-insert_item (λ z. comes_before z y ≡ false) x ys (comes_before-asymmetric y x e) h.0,
        insert_item-IsSorted x ys h.1,
      ))
      (λ e. ((e, All-after x y ys e h.0), h))

pub sort_items-IsSorted : (items : List Item) → IsSorted (sort_items items)
unfolding sort_items IsSorted
sort_items-IsSorted [] = tt
sort_items-IsSorted (x ∷ xs) = insert_item-IsSorted x (sort_items xs) (sort_items-IsSorted xs)

insert_item-Perm : (x : Item) (ys : List Item) → Perm (x ∷ ys) (insert_item x ys)
unfolding insert_item
insert_item-Perm x [] = Perm.refl (x ∷ [])
insert_item-Perm x (y ∷ ys) =
    if_rule (Perm (x ∷ y ∷ ys)) (comes_before y x)
      (λ e. Perm.trans (Perm.swap y x ys) (Perm.cons y (insert_item-Perm x ys)))
      (λ e. Perm.refl (x ∷ y ∷ ys))

sort_items-Perm : (items : List Item) → Perm items (sort_items items)
unfolding sort_items
sort_items-Perm [] = Perm.refl []
sort_items-Perm (x ∷ xs) =
    Perm.trans (Perm.cons x (sort_items-Perm xs)) (insert_item-Perm x (sort_items xs))

-- The sort of the items puts them in the order of the feed, the latest first and by hash where the
-- times are equal, and loses and repeats none.
pub sort_items_lem :
    (items : List Item) → IsSorted (sort_items items) × Perm items (sort_items items)
sort_items_lem items = (sort_items-IsSorted items, sort_items-Perm items)
