-- ===== src/Service/Paging.antt =====
-- The bounds of internal/service/service.go on release ids and pages.
pub mod Bounds
use anilibria_torznab.Prelude.{
  ℕ, zero, suc, ◌-◌, min, Bool, true, false, ◌||◌, List, [], ◌∷◌, length, take, drop, leb, ◌==◌,
  if◌then◌else◌,
}

abbrev pub contains : ℕ → List ℕ → Bool
contains x [] = false
contains x (y ∷ ys) = x == y || contains x ys

-- The loop of `distinctReleaseIDs`, with the set of ids seen and the length of the result so far
unfoldable pub distinct_loop : ℕ → List ℕ → ℕ → List ℕ → List ℕ
distinct_loop limit seen count [] = []
distinct_loop limit seen count (id ∷ ids) =
    let skipped = distinct_loop limit seen count ids in
    let rest = distinct_loop limit (id ∷ seen) (suc count) ids in
    if contains id seen then skipped else if suc count == limit then id ∷ [] else id ∷ rest

-- `distinctReleaseIDs`
unfoldable pub distinct_release_ids : List ℕ → ℕ → List ℕ
distinct_release_ids ids limit = distinct_loop limit [] 0 ids

-- `pageItems`
unfoldable pub page_items {ℓ} : {A : Type ℓ} → List A → ℕ → ℕ → List A
page_items items offset limit =
    if leb (length items) offset || limit == 0
    then []
    else take (min limit (length items - offset)) (drop offset items)
