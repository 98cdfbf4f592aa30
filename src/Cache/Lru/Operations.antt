-- ===== src/Cache/Lru/Operations.antt =====
-- Each operation of the cache of internal/cache/lru.go keeps its three structures in agreement.
use anilibria_torznab.Prelude.{
  ℕ, zero, suc, ◌≤◌, ◌≡◌, refl, ap, ◌∙◌, ◌≢◌, true, false, none, some, List, [], ◌∷◌, if_pos,
  if_neg, arith, ltb, leb, lookup, without, keys, Distinct, length, take, select, if◌then◌else◌,
  lookup-without_self, lookup-without_ne, without-Distinct, length-select-le, length-take,
  take_of_length-le, Bool-cases, inl, inr,
}
use anilibria_torznab.Cache.Lru.{
  Entry, Lru, heap_push, heap_fix, unlink, move_to_front, remove, remove_expired,
  remove_expired_loop, back, remove_back, make_room,
}
use anilibria_torznab.Cache.Lru.Heap.{
  heap_push-IsOrdered, lookup-heap_push, heap_push-Distinct, without-IsOrdered,
}
use anilibria_torznab.Cache.Lru.Linked.{
  Linked, expiry_of, unlink-keys, length-keys, remove-Linked, remove_expired-Linked,
}
use anilibria_torznab.Cache.Lru.Spec.{is_live}

module _ {K V : Type 0} (dec : Discrete K) where
  -- `MoveToFront`, at a key that is there
  pub promote-Linked :
      (k : K) (e : Entry V) (c : Lru K V) (l : List (K × Entry V))
      → Linked dec c l
      → lookup dec k l ≡ some e
      → Linked dec (record c { recency = move_to_front dec k c.recency }) ((k, e) ∷ without dec k l)
  unfolding move_to_front lookup
  promote-Linked k e c l h hit = record {
    recency = ap (λ r. k ∷ unlink dec k r) h.recency ∙ ap (◌∷◌ k) (unlink-keys dec k l);
    found = λ j. elim (dec j k) [
      | yes p ↦ ground (arith, h.found j)
      | no p ↦ ground (arith, h.found j, lookup-without_ne dec k j l)
    ];
    queued = λ j. elim (dec j k) [
      | yes p ↦ ground (arith, h.queued j)
      | no p ↦ ground (arith, h.queued j, lookup-without_ne dec k j l)
    ];
    distinct = (lookup-without_self dec k l, without-Distinct dec k l h.distinct);
    ordered = h.ordered;
    queue_distinct = h.queue_distinct;
  }

  -- `Set` of a key that is there: the entry changes, its place in the heap is mended.
  pub update-Linked :
      (k : K) (e : Entry V) (c : Lru K V) (l : List (K × Entry V))
      → Linked dec c l
      → Linked dec
          (record c {
            entries = (k, e) ∷ without dec k c.entries;
            recency = move_to_front dec k c.recency;
            expiry = heap_fix dec k e.expires_at c.expiry;
          })
          ((k, e) ∷ without dec k l)
  unfolding move_to_front lookup heap_fix
  update-Linked k e c l h =
      let gone = lookup-without_self dec k c.expiry in
      record {
        recency = ap (λ r. k ∷ unlink dec k r) h.recency ∙ ap (◌∷◌ k) (unlink-keys dec k l);
        found = λ j. elim (dec j k) [
          | yes p ↦ ground arith
          | no p ↦
              ground
                (arith, h.found j, lookup-without_ne dec k j l, lookup-without_ne dec k j c.entries)
        ];
        queued = λ j.
            rw (lookup-heap_push dec k j e.expires_at (without dec k c.expiry) gone)
              (elim (dec j k) [
                | yes p ↦ ground arith
                | no p ↦ ground (
                  arith,
                  h.queued j,
                  lookup-without_ne dec k j l,
                  lookup-without_ne dec k j c.expiry,
                )
              ]);
        distinct = (lookup-without_self dec k l, without-Distinct dec k l h.distinct);
        ordered =
            heap_push-IsOrdered k e.expires_at (without dec k c.expiry)
              (without-IsOrdered dec k c.expiry h.ordered);
        queue_distinct =
            heap_push-Distinct dec k e.expires_at (without dec k c.expiry) gone
              (without-Distinct dec k c.expiry h.queue_distinct);
      }

  -- `Set` of a new key, before the eviction
  pub insert-Linked :
      (k : K) (e : Entry V) (c : Lru K V) (l : List (K × Entry V))
      → Linked dec c l
      → lookup dec k l ≡ none
      → Linked dec
          (record c {
            entries = (k, e) ∷ c.entries;
            recency = k ∷ c.recency;
            expiry = heap_push k e.expires_at c.expiry;
          })
          ((k, e) ∷ l)
  unfolding lookup
  insert-Linked k e c l h miss =
      let gone : lookup dec k c.expiry ≡ none = h.queued k ∙ ap expiry_of miss in
      record {
        recency = ap (◌∷◌ k) h.recency;
        found = λ j. ground (arith, h.found j);
        queued = λ j.
            rw (lookup-heap_push dec k j e.expires_at c.expiry gone) (ground (arith, h.queued j));
        distinct = (miss, h.distinct);
        ordered = heap_push-IsOrdered k e.expires_at c.expiry h.ordered;
        queue_distinct = heap_push-Distinct dec k e.expires_at c.expiry gone h.queue_distinct;
      }

  -- The back of the recency list is the key of the last entry.
  back-keys :
      (n : ℕ) (l : List (K × Entry V))
      → Distinct dec l
      → length l ≡ suc n
      → (e : K × Entry V) × (back (keys l) ≡ some e.0)
        × (lookup dec e.0 l ≡ some e.1)
        × (without dec e.0 l ≡ take n l)
  unfolding back lookup
  back-keys zero (e ∷ []) d h =
      (e, refl, if_pos (dec e.0 e.0) refl _ _, if_pos (dec e.0 e.0) refl _ _)
  back-keys (suc n) (e ∷ f ∷ l) d h =
      let (x, last, there, rest) = back-keys n (f ∷ l) d.1 (omega arith) in
      let other : x.0 ≢ e.0 = λ p. ground arith in
      (
        x,
        last,
        if_neg (dec x.0 e.0) other _ _ ∙ there,
        if_neg (dec x.0 e.0) other _ _ ∙ ap (◌∷◌ e) rest,
      )
  back-keys n l d h = absurd (omega arith)

  remove_back-Linked :
      (n : ℕ) (c : Lru K V) (l : List (K × Entry V))
      → Linked dec c l
      → length l ≡ suc n
      → Linked dec (remove_back dec c) (take n l)
  unfolding remove_back
  remove_back-Linked n c l h eq =
      let (e, last, there, rest) = back-keys n l h.distinct eq in
      rw (ap back h.recency ∙ last, remove_back) (rw (← rest) (remove-Linked dec e.0 c l h))

  -- The eviction: `c'` is the cache `c` without what has expired.
  evict-Linked :
      (c c' : Lru K V) (l l' : List (K × Entry V))
      → Linked dec c l
      → Linked dec c' l'
      → c'.max_entries ≡ c.max_entries
      → length l ≤ suc c.max_entries
      → length l' ≤ length l
      → Linked dec
          (if ltb c.max_entries (length c.recency)
            then (if ltb c'.max_entries (length c'.recency) then remove_back dec c' else c')
            else c)
          (if leb (length l) c.max_entries then l else take c.max_entries l')
  evict-Linked c c' l l' h h' m le le' =
      let n = ap length h.recency ∙ length-keys dec l in
      let n' = ap length h'.recency ∙ length-keys dec l' in
      elim (Bool-cases (leb (length l) c.max_entries)) [
        | inl small ↦
            let e : ltb c.max_entries (length c.recency) ≡ false = ground (arith, n) in
            rw (small, e) h
        | inr large ↦
            let e : ltb c.max_entries (length c.recency) ≡ true = ground (arith, n) in
            elim (Bool-cases (ltb c'.max_entries (length c'.recency))) [
              | inl full ↦
                  rw (large, e, full)
                    (remove_back-Linked c.max_entries c' l' h' (ground (arith, n')))
              | inr free ↦
                  rw (large, e, free)
                    (rw (take_of_length-le c.max_entries l' (ground (arith, n'))) h')
            ]
      ]

  pub max_entries-remove_expired :
      (now : ℕ) (c : Lru K V) → (remove_expired dec now c).max_entries ≡ c.max_entries
  unfolding remove_expired
  max_entries-remove_expired now c = go (length c.expiry) c.expiry c
    where
      go :
          (fuel : ℕ) (q : List (K × ℕ)) (c : Lru K V)
          → (remove_expired_loop dec fuel now q c).max_entries ≡ c.max_entries
      go zero q c = refl
      go (suc fuel) [] c = refl
      go (suc fuel) ((k, t) ∷ q) c =
          ground (arith, go fuel (without dec k c.expiry) (remove dec k c))

  -- What the spec keeps for room.
  abbrev pub fit : ℕ → ℕ → List (K × Entry V) → List (K × Entry V)
  fit cap now l = if leb (length l) cap then l else take cap (select (is_live now) l)

  pub make_room-Linked :
      (now : ℕ) (c : Lru K V) (l : List (K × Entry V))
      → Linked dec c l
      → length l ≤ suc c.max_entries
      → Linked dec (make_room dec now c) (fit c.max_entries now l)
  unfolding make_room
  make_room-Linked now c l h le =
      evict-Linked c (remove_expired dec now c) l (select (is_live now) l) h
        (remove_expired-Linked dec now c l h) (max_entries-remove_expired now c) le
        (length-select-le (is_live now) l)

  make_room_lem :
      (now : ℕ) (c : Lru K V)
      → make_room dec now c ≡ (
          if ltb c.max_entries (length c.recency)
          then (if ltb
                (remove_expired dec now c).max_entries
                (length (remove_expired dec now c).recency)
              then remove_back dec (remove_expired dec now c)
              else remove_expired dec now c)
          else c)
  unfolding make_room
  make_room_lem now c = refl

  max_entries-remove_back : (c : Lru K V) → (remove_back dec c).max_entries ≡ c.max_entries
  unfolding remove_back
  max_entries-remove_back c = ground arith

  pub max_entries-make_room :
      (now : ℕ) (c : Lru K V) → (make_room dec now c).max_entries ≡ c.max_entries
  max_entries-make_room now c = elim (Bool-cases (ltb c.max_entries (length c.recency))) [
    | inl over ↦
        let c' = remove_expired dec now c in
        let same = max_entries-remove_expired now c in
        rw (make_room_lem now c, over)
          (elim (Bool-cases (ltb c'.max_entries (length c'.recency))) [
            | inl full ↦ rw full (max_entries-remove_back c' ∙ same)
            | inr free ↦ rw free same
          ])
    | inr fits ↦ rw (make_room_lem now c, fits) refl
  ]

  pub length-fit-le : (cap now : ℕ) (l : List (K × Entry V)) → length (fit cap now l) ≤ cap
  length-fit-le cap now l = ground (arith, length-take cap (select (is_live now) l))
