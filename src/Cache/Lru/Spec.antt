-- ===== src/Cache/Lru/Spec.antt =====
-- What the cache of internal/cache/lru.go promises: one list of entries, the most recently used one
-- first. It holds no more than its capacity; for room it drops what has expired, then the last.
use anilibria_torznab.Prelude.{
  ℕ, zero, suc, ◌+◌, Bool, Option, none, some, List, [], ◌∷◌, ℤ, pos, negsuc, ltb, leb, length,
  take, select, lookup, without, if◌then◌else◌,
}
use anilibria_torznab.Cache.Lru
use anilibria_torznab.Cache.Lru.{Entry, Lru}

-- An operation of a client, its clock read beside it in a history.
pub data Call (K V : Type 0) : Type 0 where
  get : K → Call K V
  set : K → V → ℤ → Call K V
  delete : K → Call K V
  len : Call K V

pub data Reply (V : Type 0) : Type 0 where
  found : Option V → Reply V
  done : Reply V
  count : ℕ → Reply V

abbrev pub is_live : {K V : Type 0} → ℕ → K × Entry V → Bool
is_live now e = ltb now e.1.expires_at

module _ {K V : Type 0} (dec : Discrete K) where
  -- One call on the cache of the program.
  unfoldable pub step : ℕ → Call K V → Lru K V → Lru K V × Reply V
  step now (get k) c = let (c', v) = Lru.get dec now k c in (c', found v)
  step now (set k v ttl) c = (Lru.set dec now k v ttl c, done)
  step now (delete k) c = (Lru.delete dec k c, done)
  step now len c = let (c', n) = Lru.len dec now c in (c', count n)

  unfoldable pub run : List (ℕ × Call K V) → Lru K V → Lru K V × List (Reply V)
  unfolding step
  run [] c = (c, [])
  run ((now, call) ∷ calls) c =
      let (c', r) = step now call c in let (c'', rs) = run calls c' in (c'', r ∷ rs)

  -- The same call on the list of entries.
  unfoldable pub spec_get : ℕ → K → List (K × Entry V) → List (K × Entry V) × Option V
  spec_get now k l = elim (lookup dec k l) [
    | none ↦ (l, none)
    | some e ↦
        if ltb now e.expires_at
        then ((k, e) ∷ without dec k l, some e.value)
        else (without dec k l, none)
  ]

  unfoldable pub spec_store : ℕ → ℕ → K → Entry V → List (K × Entry V) → List (K × Entry V)
  spec_store cap now k e l =
      let l' = (k, e) ∷ without dec k l in
      if leb (length l') cap then l' else take cap (select (is_live now) l')

  unfoldable pub spec_set : ℕ → ℕ → K → V → ℤ → List (K × Entry V) → List (K × Entry V)
  unfolding spec_store
  spec_set cap now k v (pos (suc ttl)) l =
      spec_store cap now k (record { value = v; expires_at = now + suc ttl }) l
  spec_set cap now k v (pos zero) l = without dec k l
  spec_set cap now k v (negsuc n) l = without dec k l

  unfoldable pub spec_step : ℕ → ℕ → Call K V → List (K × Entry V) → List (K × Entry V) × Reply V
  unfolding spec_get spec_set
  spec_step cap now (get k) l = let (l', v) = spec_get now k l in (l', found v)
  spec_step cap now (set k v ttl) l = (spec_set cap now k v ttl l, done)
  spec_step cap now (delete k) l = (without dec k l, done)
  spec_step cap now len l = let l' = select (is_live now) l in (l', count (length l'))

  unfoldable pub spec_run :
      ℕ → List (ℕ × Call K V) → List (K × Entry V) → List (K × Entry V) × List (Reply V)
  unfolding spec_step
  spec_run cap [] l = (l, [])
  spec_run cap ((now, call) ∷ calls) l =
      let (l', r) = spec_step cap now call l in
      let (l'', rs) = spec_run cap calls l' in (l'', r ∷ rs)
