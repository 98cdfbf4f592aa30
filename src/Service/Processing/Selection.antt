-- ===== src/Service/Processing/Selection.antt =====
-- What the loop of `process` selects, without its state.
use anilibria_torznab.Prelude.{
  ℕ, suc, ◌≡◌, refl, ap, inl, inr, Bool, true, false, ◌||◌, not, none, some, List, [], ◌∷◌, select,
  if◌then◌else◌, Bool-cases, arith,
}
use anilibria_torznab.Text.{Bytes, same, same_iff, to_lower}
use anilibria_torznab.Service.Processing.{
  Torrent, Item, Filters, ProcessRejections, filtered, judge, contains_hash, see, verdict_on, tally,
  add_item, process_loop, sort_items, no_rejections, finish, process,
}

unfoldable pub lower_hash : Filters → Torrent → Bytes
lower_hash f t = to_lower f.lower t.hash

unfoldable pub other : Filters → Torrent → Torrent → Bool
other f t u = not (same (lower_hash f u) (lower_hash f t))

-- Of the torrents with one hash, the first.
unfoldable pub first_by_hash : Filters → List Torrent → List Torrent
first_by_hash f [] = []
first_by_hash f (t ∷ ts) = t ∷ select (other f t) (first_by_hash f ts)

-- The items of those that are kept.
unfoldable pub selected : Filters → List Torrent → List Item
selected f [] = []
selected f (t ∷ ts) = add_item (judge f t) (selected f ts)

-- Whether the context is done at one of the reads of the loop, from the i-th on.
unfoldable pub interrupted : (ℕ → Bool) → ℕ → List Torrent → Bool
interrupted done i [] = false
interrupted done i (t ∷ ts) = done i || interrupted done (suc i) ts

fresh : Filters → List Bytes → Torrent → Bool
fresh f seen u = not (contains_hash (lower_hash f u) seen)

select-fresh :
    (f : Filters) (t : Torrent) (seen : List Bytes) (ts : List Torrent)
    → select (fresh f (lower_hash f t ∷ seen)) ts ≡ select (fresh f seen) (select (other f t) ts)
unfolding fresh other
select-fresh f t seen [] = refl
select-fresh f t seen (u ∷ ts) = ground (arith, select-fresh f t seen ts)

select-fresh_seen :
    (f : Filters) (t : Torrent) (seen : List Bytes) (ts : List Torrent)
    → contains_hash (lower_hash f t) seen ≡ true
    → select (fresh f seen) (select (other f t) ts) ≡ select (fresh f seen) ts
unfolding fresh other
select-fresh_seen f t seen [] h = refl
select-fresh_seen f t seen (u ∷ ts) h = elim (Bool-cases (same (lower_hash f u) (lower_hash f t))) [
  | inl e ↦
      let seen_u : contains_hash (lower_hash f u) seen ≡ true =
        rw ((same_iff (lower_hash f u) (lower_hash f t)).0 e) h in
      ground (arith, select-fresh_seen f t seen ts h, seen_u)
  | inr e ↦ ground (arith, select-fresh_seen f t seen ts h)
]

select-fresh_nil : (f : Filters) (ts : List Torrent) → select (fresh f []) ts ≡ ts
unfolding fresh
select-fresh_nil f [] = refl
select-fresh_nil f (t ∷ ts) = ap (◌∷◌ t) (select-fresh_nil f ts)

pass-seen :
    (f : Filters) (seen : List Bytes) (t : Torrent)
    → contains_hash (lower_hash f t) seen ≡ true
    → (verdict_on f seen t ≡ filtered)
      × (see (to_lower f.lower t.hash) seen ≡ seen)
      × (fresh f seen t ≡ false)
unfolding verdict_on see lower_hash fresh
pass-seen f seen t e = (ground arith, ground arith, ground arith)

pass-unseen :
    (f : Filters) (seen : List Bytes) (t : Torrent)
    → contains_hash (lower_hash f t) seen ≡ false
    → (verdict_on f seen t ≡ judge f t)
      × (see (to_lower f.lower t.hash) seen ≡ lower_hash f t ∷ seen)
      × (fresh f seen t ≡ true)
unfolding verdict_on see lower_hash fresh
pass-unseen f seen t e = (ground arith, ground arith, ground arith)

-- The loop, on what is left once the hashes seen are taken away.
loop-selected :
    (f : Filters) (done : ℕ → Bool) (i : ℕ) (seen : List Bytes) (r : ProcessRejections)
    (ts : List Torrent)
    → (process_loop f done i seen r ts).1 ≡ (
        if interrupted done i ts
        then none
        else some (selected f (select (fresh f seen) (first_by_hash f ts))))
unfolding process_loop interrupted selected first_by_hash add_item
loop-selected f done i seen r [] = refl
loop-selected f done i seen r (t ∷ ts) = elim (Bool-cases (contains_hash (lower_hash f t) seen)) [
  | inl e ↦ ground (
    arith,
    loop-selected f done (suc i) (see (to_lower f.lower t.hash) seen)
        (tally (verdict_on f seen t) r) ts,
    pass-seen f seen t e,
    select-fresh_seen f t seen (first_by_hash f ts) e,
  )
  | inr e ↦ ground (
    arith,
    loop-selected f done (suc i) (see (to_lower f.lower t.hash) seen)
        (tally (verdict_on f seen t) r) ts,
    pass-unseen f seen t e,
    select-fresh f t seen (first_by_hash f ts),
  )
]

pub process-selected :
    (f : Filters) (done : ℕ → Bool) (done_before done_after : Bool) (torrents : List Torrent)
    → (process f done done_before done_after torrents).1 ≡ (
        if interrupted done 0 torrents || (done_before || done_after)
        then none
        else some (sort_items (selected f (first_by_hash f torrents))))
unfolding process finish
process-selected f done done_before done_after torrents = ground (
  arith,
  loop-selected f done 0 [] no_rejections torrents,
  select-fresh_nil f (first_by_hash f torrents),
)
