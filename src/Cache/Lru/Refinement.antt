-- ===== src/Cache/Lru/Refinement.antt =====
-- The cache of internal/cache/lru.go refines its specification, on every sequence of calls.
use anilibria_torznab.Prelude.{
  ℕ, zero, suc, ◌≤◌, ◌<◌, ◌≡◌, refl, ap, ap₂, subst, ◌∙◌, true, some, some-injective, List, [], ◌∷◌,
  arith, ltb, leb, le→leb, lookup, ℤ, pos, negsuc, without, length, select, without_absent,
  length-without, length-without-le, length-select-le, Bool-cases, Option-cases, inl, inr,
}
use anilibria_torznab.Cache.Lru.{
  Entry, Lru, new_lru, heap_push, get, set, store, delete, len, make_room,
}
use anilibria_torznab.Cache.Lru.Linked.{Linked, length-keys, remove-Linked, remove_expired-Linked}
use anilibria_torznab.Cache.Lru.Operations.{
  promote-Linked, update-Linked, insert-Linked, make_room-Linked, max_entries-remove_expired,
  max_entries-make_room, fit, length-fit-le,
}
use anilibria_torznab.Cache.Lru.Spec.{
  Call, Reply, is_live, step, run, spec_get, spec_store, spec_set, spec_step, spec_run,
}

module _ {K V : Type 0} (dec : Discrete K) where
  -- The cache holds the entries of `l`, in all of its structures, and no more than `cap` of them.
  pub record Refines (cap : ℕ) (c : Lru K V) (l : List (K × Entry V)) : Type 0 where
    pub linked : Linked dec c l
    pub capacity : c.max_entries ≡ cap
    pub positive : 0 < cap
    pub bounded : length l ≤ cap

  abbrev insert_entry : K → Entry V → Lru K V → Lru K V
  insert_entry k e c = record c {
    entries = (k, e) ∷ c.entries;
    recency = k ∷ c.recency;
    expiry = heap_push k e.expires_at c.expiry;
  }

  pub get-Refines :
      (cap now : ℕ) (k : K) (c : Lru K V) (l : List (K × Entry V))
      → Refines cap c l
      → Refines cap (get dec now k c).0 (spec_get dec now k l).0
        × ((get dec now k c).1 ≡ (spec_get dec now k l).1)
  unfolding get spec_get
  get-Refines cap now k c l h = elim (Option-cases (lookup dec k l)) [
    | inl miss ↦ rw (h.linked.found k ∙ miss, get, miss, spec_get) (h, refl)
    | inr (e, hit) ↦
        rw (h.linked.found k ∙ hit, get, hit, spec_get)
          (elim (Bool-cases (ltb now e.expires_at)) [
            | inl live ↦ rw live (
              record {
                linked = promote-Linked dec k e c l h.linked hit;
                capacity = h.capacity;
                positive = h.positive;
                bounded = omega (arith, length-without dec k l e hit, h.bounded);
              },
              refl,
            )
            | inr dead ↦ rw dead (
              record {
                linked = remove-Linked dec k c l h.linked;
                capacity = h.capacity;
                positive = h.positive;
                bounded = omega (arith, length-without-le dec k l, h.bounded);
              },
              refl,
            )
          ])
  ]

  delete-Refines :
      (cap : ℕ) (k : K) (c : Lru K V) (l : List (K × Entry V))
      → Refines cap c l
      → Refines cap (delete dec k c) (without dec k l)
  unfolding delete
  delete-Refines cap k c l h = elim (Option-cases (lookup dec k l)) [
    | inl miss ↦ rw (h.linked.found k ∙ miss, delete) (rw (without_absent dec k l miss) h)
    | inr (e, hit) ↦
        rw (h.linked.found k ∙ hit, delete)
          (record {
            linked = remove-Linked dec k c l h.linked;
            capacity = h.capacity;
            positive = h.positive;
            bounded = omega (arith, length-without-le dec k l, h.bounded);
          })
  ]

  store-Refines :
      (cap now : ℕ) (k : K) (e : Entry V) (c : Lru K V) (l : List (K × Entry V))
      → Refines cap c l
      → Refines cap (store dec now k e c) (spec_store dec cap now k e l)
  unfolding store spec_store
  store-Refines cap now k e c l h = elim (Option-cases (lookup dec k l)) [
    | inl miss ↦
        let kept : Refines cap (make_room dec now (insert_entry k e c))
            (fit dec cap now ((k, e) ∷ l)) =
          record {
            linked = rw (← h.capacity) (
                make_room-Linked dec now (insert_entry k e c) ((k, e) ∷ l)
                  (insert-Linked dec k e c l h.linked miss) (omega (arith, h.bounded, h.capacity)));
            capacity = max_entries-make_room dec now (insert_entry k e c) ∙ h.capacity;
            positive = h.positive;
            bounded = length-fit-le dec cap now ((k, e) ∷ l);
          } in
        rw (h.linked.found k ∙ miss, store) (rw (without_absent dec k l miss, spec_store) kept)
    | inr (f, hit) ↦
        let small = length-without dec k l f hit in
        let fits : leb (suc (length (without dec k l))) cap ≡ true =
          le→leb _ _ (omega (arith, small, h.bounded)) in
        rw (h.linked.found k ∙ hit, store)
          (rw (fits, spec_store)
            (record {
              linked = update-Linked dec k e c l h.linked;
              capacity = h.capacity;
              positive = h.positive;
              bounded = omega (arith, small, h.bounded);
            }))
  ]

  pub len-Refines :
      (cap now : ℕ) (c : Lru K V) (l : List (K × Entry V))
      → Refines cap c l
      → Refines cap (len dec now c).0 (select (is_live now) l)
        × ((len dec now c).1 ≡ length (select (is_live now) l))
  unfolding len
  len-Refines cap now c l h =
      let linked = remove_expired-Linked dec now c l h.linked in
      (
        record {
          linked = linked;
          capacity = max_entries-remove_expired dec now c ∙ h.capacity;
          positive = h.positive;
          bounded = omega (arith, length-select-le (is_live now) l, h.bounded);
        },
        ap length linked.recency ∙ length-keys dec (select (is_live now) l),
      )

  pub set-Refines :
      (cap now : ℕ) (k : K) (v : V) (ttl : ℤ) (c : Lru K V) (l : List (K × Entry V))
      → Refines cap c l
      → Refines cap (set dec now k v ttl c) (spec_set dec cap now k v ttl l)
  unfolding set spec_set
  set-Refines cap now k v (pos zero) c l h = delete-Refines cap k c l h
  set-Refines cap now k v (pos (suc ttl)) c l h = store-Refines cap now k _ c l h
  set-Refines cap now k v (negsuc n) c l h = delete-Refines cap k c l h

  -- One call keeps the cache in step with its specification, and has the same reply.
  pub step-Refines :
      (cap now : ℕ) (call : Call K V) (c : Lru K V) (l : List (K × Entry V))
      → Refines cap c l
      → Refines cap (step dec now call c).0 (spec_step dec cap now call l).0
        × ((step dec now call c).1 ≡ (spec_step dec cap now call l).1)
  unfolding step spec_step
  step-Refines cap now (Call.get k) c l h =
      let (kept, same) = get-Refines cap now k c l h in (kept, ap Reply.found same)
  step-Refines cap now (Call.set k v ttl) c l h = (set-Refines cap now k v ttl c l h, refl)
  step-Refines cap now (Call.delete k) c l h = (delete-Refines cap k c l h, refl)
  step-Refines cap now Call.len c l h =
      let (kept, same) = len-Refines cap now c l h in (kept, ap Reply.count same)

  pub run_from :
      (cap : ℕ) (calls : List (ℕ × Call K V)) (c : Lru K V) (l : List (K × Entry V))
      → Refines cap c l
      → Refines cap (run dec calls c).0 (spec_run dec cap calls l).0
        × ((run dec calls c).1 ≡ (spec_run dec cap calls l).1)
  unfolding run spec_run
  run_from cap [] c l h = (h, refl)
  run_from cap ((now, call) ∷ calls) c l h =
      let (kept, same) = step-Refines cap now call c l h in
      let (kept', same') = run_from cap calls (step dec now call c).0 _ kept in
      (kept', ap₂ ◌∷◌ same same')

  pub new_lru-Refines : (n : ℕ) (c : Lru K V) → new_lru (pos n) ≡ some c → Refines n c []
  unfolding new_lru lookup
  new_lru-Refines zero c h = cc
  new_lru-Refines (suc n) c h =
      subst (λ d. Refines (suc n) d []) (some-injective _ _ h)
        (record {
          linked = record {
            recency = refl;
            found = λ k. refl;
            queued = λ k. refl;
            distinct = tt;
            ordered = tt;
            queue_distinct = tt;
          };
          capacity = refl;
          positive = omega arith;
          bounded = omega arith;
        })

  -- From a cache that `NewLRU` has made with the capacity `cap`, after any calls at any times, every
  -- reply is that of the specification, whose entries the map, the recency list and the heap of the
  -- cache all hold; they are at most `cap`.
  pub run-Refines :
      (cap : ℕ) (calls : List (ℕ × Call K V)) (c : Lru K V)
      → new_lru (pos cap) ≡ some c
      → Refines cap (run dec calls c).0 (spec_run dec cap calls []).0
        × ((run dec calls c).1 ≡ (spec_run dec cap calls []).1)
  run-Refines cap calls c made = run_from cap calls c [] (new_lru-Refines cap c made)
