-- ===== src/Cache/Lru.antt =====
-- internal/cache/lru.go: the bounded cache with expiry. An entry is named by its key, which is never
-- changed while the entry is linked, in the place of the pointers of the map, of the recency list
-- and of the heap. The heap (container/heap) is a list in the order of expiry, its root first.
pub mod Spec
pub mod Heap
pub mod Linked
pub mod Operations
pub mod Refinement
pub mod Promises
pub mod Retention
use anilibria_torznab.Prelude.{
  ℕ, zero, suc, ◌+◌, Bool, true, false, Option, none, some, List, [], ◌∷◌, ℤ, pos, negsuc, ite, ltb,
  length, lookup, without, if◌then◌else◌,
}

-- `entry`; its key is beside it in each list.
pub record Entry (V : Type 0) : Type 0 where
  pub value : V
  pub expires_at : ℕ

pub record Lru (K V : Type 0) : Type 0 where
  pub max_entries : ℕ
  pub entries : List (K × Entry V)
  pub recency : List K
  pub expiry : List (K × ℕ)

-- `NewLRUWithClock`; `none` is its panic on a capacity that is not positive.
unfoldable pub new_lru : {K V : Type 0} → ℤ → Option (Lru K V)
new_lru (pos (suc n)) =
    some (record { max_entries = suc n; entries = []; recency = []; expiry = [] })
new_lru (pos zero) = none
new_lru (negsuc n) = none

-- `heap.Push`: the item goes behind those that expire no later.
unfoldable pub heap_push : {K : Type 0} → K → ℕ → List (K × ℕ) → List (K × ℕ)
heap_push k t [] = (k, t) ∷ []
heap_push k t ((j, u) ∷ q) =
    let rest = heap_push k t q in if ltb t u then (k, t) ∷ (j, u) ∷ q else (j, u) ∷ rest

-- `recency.Back()`
unfoldable pub back : {K : Type 0} → List K → Option K
back [] = none
back (k ∷ []) = some k
back (k ∷ j ∷ l) = back (j ∷ l)

module _ {K : Type 0} (dec : Discrete K) where
  -- takes the element of the key out of the recency list
  unfoldable pub unlink : K → List K → List K
  unlink k [] = []
  unlink k (j ∷ l) = let rest = unlink k l in ite (dec k j) rest (j ∷ rest)

  -- `recency.MoveToFront`
  unfoldable pub move_to_front : K → List K → List K
  unfolding unlink
  move_to_front k l = k ∷ unlink k l

  -- `heap.Fix` after a change of the item's expiry
  unfoldable pub heap_fix : K → ℕ → List (K × ℕ) → List (K × ℕ)
  unfolding heap_push
  heap_fix k t q = heap_push k t (without dec k q)

module _ {K V : Type 0} (dec : Discrete K) where
  unfoldable pub remove : K → Lru K V → Lru K V
  unfolding unlink
  remove k c = record c {
    entries = without dec k c.entries;
    recency = unlink dec k c.recency;
    expiry = without dec k c.expiry;
  }

  -- The loop of `removeExpired`. Every round takes the root out of the heap, so that the length of
  -- the heap is enough fuel.
  unfoldable pub remove_expired_loop : ℕ → ℕ → List (K × ℕ) → Lru K V → Lru K V
  unfolding remove
  remove_expired_loop zero now q c = c
  remove_expired_loop (suc fuel) now [] c = c
  remove_expired_loop (suc fuel) now ((k, t) ∷ q) c =
      let c' = remove k c in
      let rest = remove_expired_loop fuel now c'.expiry c' in if ltb now t then c else rest

  unfoldable pub remove_expired : ℕ → Lru K V → Lru K V
  unfolding remove_expired_loop
  remove_expired now c = remove_expired_loop (length c.expiry) now c.expiry c

  unfoldable pub remove_back : Lru K V → Lru K V
  unfolding back remove
  remove_back c = elim (back c.recency) [ none ↦ c | some k ↦ remove k c ]

  -- The eviction at the end of `Set`.
  unfoldable pub make_room : ℕ → Lru K V → Lru K V
  unfolding remove_expired remove_back
  make_room now c =
      if ltb c.max_entries (length c.recency)
      then (let c' = remove_expired now c in
          if ltb c'.max_entries (length c'.recency) then remove_back c' else c')
      else c

  -- `Get`, with the value of the clock
  unfoldable pub get : ℕ → K → Lru K V → Lru K V × Option V
  unfolding move_to_front remove
  get now k c = elim (lookup dec k c.entries) [
    | none ↦ (c, none)
    | some e ↦
        if ltb now e.expires_at
        then (record c { recency = move_to_front dec k c.recency }, some e.value)
        else (remove k c, none)
  ]

  -- The part of `Set` that stores, once the expiry is known.
  unfoldable pub store : ℕ → K → Entry V → Lru K V → Lru K V
  unfolding move_to_front heap_fix heap_push make_room
  store now k e c = elim (lookup dec k c.entries) [
    | some _ ↦ record c {
      entries = (k, e) ∷ without dec k c.entries;
      recency = move_to_front dec k c.recency;
      expiry = heap_fix dec k e.expires_at c.expiry;
    }
    | none ↦ make_room now (record c {
      entries = (k, e) ∷ c.entries;
      recency = k ∷ c.recency;
      expiry = heap_push k e.expires_at c.expiry;
    })
  ]

  -- `Delete`
  unfoldable pub delete : K → Lru K V → Lru K V
  unfolding remove
  delete k c = elim (lookup dec k c.entries) [ none ↦ c | some _ ↦ remove k c ]

  -- `Set`, with the value of the clock
  unfoldable pub set : ℕ → K → V → ℤ → Lru K V → Lru K V
  unfolding store delete
  set now k v (pos (suc ttl)) c = store now k (record { value = v; expires_at = now + suc ttl }) c
  set now k v (pos zero) c = delete k c
  set now k v (negsuc n) c = delete k c

  -- `Len`, with the value of the clock
  unfoldable pub len : ℕ → Lru K V → Lru K V × ℕ
  unfolding remove_expired
  len now c = let c' = remove_expired now c in (c', length c'.recency)

-- `TTLForResult`, and its alias `TTLFor`
unfoldable pub ttl_for : Bool → ℤ → ℤ → ℤ
ttl_for empty positive_ttl negative_ttl = if empty then negative_ttl else positive_ttl
