-- ===== src/Service/Paging/Bounds.antt =====
-- What the bounds of the service select, against descriptions that do not count.
use anilibria_torznab.Prelude.{
  ℕ, zero, suc, ◌+◌, ◌-◌, ◌≤◌, ◌≡◌, refl, sym, ap, ◌∙◌, min, inl, inr, Bool, true, not, ◌||◌, List,
  [], ◌∷◌, length, take, take_nil, drop, select, length-drop, length-take, leb, ◌==◌, ==_iff,
  if_rule, Bool-cases, arith,
}
use anilibria_torznab.Service.Paging.{contains, distinct_loop, distinct_release_ids, page_items}

-- The first occurrences of a list.
unfoldable pub first_occurrences : List ℕ → List ℕ
first_occurrences [] = []
first_occurrences (x ∷ xs) = x ∷ select (λ y. not (y == x)) (first_occurrences xs)

fresh : List ℕ → ℕ → Bool
fresh seen y = not (contains y seen)

fresh-contains : (seen : List ℕ) (y : ℕ) → fresh seen y ≡ not (contains y seen)
unfolding fresh
fresh-contains seen y = refl

select-fresh :
    (x : ℕ) (seen : List ℕ) (ys : List ℕ)
    → select (fresh (x ∷ seen)) ys ≡ select (fresh seen) (select (λ y. not (y == x)) ys)
unfolding fresh
select-fresh x seen [] = refl
select-fresh x seen (y ∷ ys) = ground (arith, select-fresh x seen ys)

select-fresh_seen :
    (x : ℕ) (seen : List ℕ) (ys : List ℕ)
    → contains x seen ≡ true
    → select (fresh seen) (select (λ y. not (y == x)) ys) ≡ select (fresh seen) ys
unfolding fresh
select-fresh_seen x seen [] h = refl
select-fresh_seen x seen (y ∷ ys) h = elim (Bool-cases (y == x)) [
  | inl e ↦
      let seen_y : contains y seen ≡ true = rw ((==_iff y x).0 e) h in
      ground (arith, select-fresh_seen x seen ys h, seen_y)
  | inr e ↦ ground (arith, select-fresh_seen x seen ys h)
]

distinct_loop-take :
    (limit : ℕ) (seen : List ℕ) (count left : ℕ) (ids : List ℕ)
    → suc left + count ≡ limit
    → distinct_loop limit seen count ids
      ≡ take (suc left) (select (fresh seen) (first_occurrences ids))
unfolding distinct_loop first_occurrences
distinct_loop-take limit seen count left [] h = refl
distinct_loop-take limit seen count zero (id ∷ ids) h = ground (
  arith,
  distinct_loop-take limit seen count zero ids h,
  select-fresh_seen id seen (first_occurrences ids),
  fresh-contains seen id,
)
distinct_loop-take limit seen count (suc left) (id ∷ ids) h = ground (
  arith,
  distinct_loop-take limit seen count (suc left) ids h,
  distinct_loop-take limit (id ∷ seen) (suc count) left ids (omega arith),
  select-fresh_seen id seen (first_occurrences ids),
  select-fresh id seen (first_occurrences ids),
  fresh-contains seen id,
)

select-fresh_nil : (ys : List ℕ) → select (fresh []) ys ≡ ys
unfolding fresh
select-fresh_nil [] = refl
select-fresh_nil (y ∷ ys) = ap (◌∷◌ y) (select-fresh_nil ys)

-- The ids that are used are the first occurrences of those that were found, in their order, up to the
-- limit, for a limit of one at least.
pub distinct_release_ids_lem :
    (ids : List ℕ) (limit : ℕ)
    → 1 ≤ limit
    → distinct_release_ids ids limit ≡ take limit (first_occurrences ids)
unfolding distinct_release_ids
distinct_release_ids_lem ids zero h = absurd (omega arith)
distinct_release_ids_lem ids (suc limit) h = ground (
  arith,
  distinct_loop-take (suc limit) [] 0 limit ids (omega arith),
  select-fresh_nil (first_occurrences ids),
)

drop_of_length-le {ℓ} : {A : Type ℓ} (n : ℕ) (xs : List A) → length xs ≤ n → drop n xs ≡ []
drop_of_length-le zero [] h = refl
drop_of_length-le zero (x ∷ xs) h = absurd (omega arith)
drop_of_length-le (suc n) [] h = refl
drop_of_length-le (suc n) (x ∷ xs) h = drop_of_length-le n xs (omega arith)

take-min-length {ℓ} : {A : Type ℓ} (n : ℕ) (xs : List A) → take (min n (length xs)) xs ≡ take n xs
take-min-length zero xs = let e : min 0 (length xs) ≡ 0 = omega arith in ap (λ m. take m xs) e
take-min-length (suc n) [] =
    let e : min (suc n) 0 ≡ 0 = omega arith in ap (λ m. take m []) e ∙ sym (take_nil (suc n))
take-min-length (suc n) (x ∷ xs) =
    let e : min (suc n) (suc (length xs)) ≡ suc (min n (length xs)) = omega arith in
    ap (λ m. take m (x ∷ xs)) e ∙ ap (◌∷◌ x) (take-min-length n xs)

page-take {ℓ} :
    {A : Type ℓ} (items : List A) (offset limit : ℕ)
    → page_items items offset limit ≡ take limit (drop offset items)
unfolding page_items
page-take items offset limit =
    if_rule (λ page. page ≡ take limit (drop offset items))
      (leb (length items) offset || limit == 0) (λ e. outside limit e)
      (λ e.
        ap (λ n. take (min limit n) (drop offset items)) (sym (length-drop offset items))
        ∙ take-min-length limit (drop offset items))
  where
    outside :
        (limit : ℕ)
        → (leb (length items) offset || limit == 0) ≡ true
        → [] ≡ take limit (drop offset items)
    outside zero e = refl
    outside (suc n) e = sym (ap (take (suc n)) (drop_of_length-le offset items (ground arith)))

-- A page is what is left of the items after the offset, up to the limit; there is no item where the
-- offset is not below their number.
pub page_items_lem {ℓ} :
    {A : Type ℓ} (items : List A) (offset limit : ℕ)
    → (page_items items offset limit ≡ take limit (drop offset items))
      × (length (page_items items offset limit) ≡ min limit (length items - offset))
unfolding page_items
page_items_lem items offset limit = (
  page-take items offset limit,
  ground (
    arith,
    length-take limit (drop offset items),
    length-drop offset items,
    page-take items offset limit,
  ),
)
