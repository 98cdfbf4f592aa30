-- ===== src/Cache/Lru/Promises.antt =====
-- What a client of the cache of internal/cache/lru.go reads back, by way of its specification.
use anilibria_torznab.Prelude.{
  ℕ, zero, suc, ◌+◌, ◌≤◌, ◌<◌, ◌≡◌, ◌≢◌, refl, sym, ap, ◌∙◌, true, Option, none, some, List, [],
  ◌∷◌, if_neg, arith, ltb, leb, lookup, ℤ, pos, negsuc, without, length, select, if◌then◌else◌,
  lookup-without_self, lookup-without_ne, take_of_length-le, Bool-cases, Option-cases, inl, inr,
  lt→ltb, Distinct, without-Distinct,
}
use anilibria_torznab.Cache.Lru.{Entry, Lru, get, set, len}
use anilibria_torznab.Cache.Lru.Refinement.{Refines, get-Refines, set-Refines, len-Refines}
use anilibria_torznab.Cache.Lru.Spec.{is_live, spec_get, spec_store, spec_set}

module _ {K V : Type 0} (dec : Discrete K) where
  -- What `Get` returns of the entry that is found.
  abbrev pub live_value : ℕ → Option (Entry V) → Option V
  live_value now none = none
  live_value now (some e) = if ltb now e.expires_at then some e.value else none

  spec_get-live_value :
      (now : ℕ) (k : K) (l : List (K × Entry V))
      → (spec_get dec now k l).1 ≡ live_value now (lookup dec k l)
  unfolding spec_get
  spec_get-live_value now k l = elim (Option-cases (lookup dec k l)) [
    | inl miss ↦ rw (miss, spec_get) refl
    | inr (e, hit) ↦ rw (hit, spec_get) (ground arith)
  ]

  pub get-live_value :
      (cap now : ℕ) (k : K) (c : Lru K V) (l : List (K × Entry V))
      → Refines dec cap c l
      → (get dec now k c).1 ≡ live_value now (lookup dec k l)
  get-live_value cap now k c l h = (get-Refines dec cap now k c l h).1 ∙ spec_get-live_value now k l

  stored_self :
      (cap now : ℕ) (k : K) (e : Entry V) (l : List (K × Entry V))
      → 0 < cap
      → now < e.expires_at
      → lookup dec k (spec_store dec cap now k e l) ≡ some e
  unfolding spec_store lookup
  stored_self zero now k e l p q = elim p [ ]
  stored_self (suc cap) now k e l p q = ground (arith, lt→ltb now e.expires_at q)

  lookup-select :
      (now : ℕ) (j : K) (f : Entry V) (l : List (K × Entry V))
      → Distinct dec l
      → lookup dec j l ≡ some f
      → ltb now f.expires_at ≡ true
      → lookup dec j (select (is_live now) l) ≡ some f
  unfolding lookup
  lookup-select now j f [] d h q = cc
  lookup-select now j f (x ∷ l) d h q = ground (arith, lookup-select now j f l d.1)

  live_before :
      (now later : ℕ) (f : Entry V) (w : V)
      → now ≤ later
      → live_value later (some f) ≡ some w
      → ltb now f.expires_at ≡ true
  live_before now later f w le h = ground arith

  module _ (cap now : ℕ) (c : Lru K V) (l : List (K × Entry V)) (h : Refines dec cap c l) where
    -- After a `Set` with a positive TTL, `Get` of the same key returns the value as long as less
    -- than the TTL has passed since, and misses from then on.
    pub get-set_self :
        (later ttl : ℕ) (k : K) (v : V)
        → (get dec later k (set dec now k v (pos (suc ttl)) c)).1
          ≡ (if ltb later (now + suc ttl) then some v else none)
    unfolding spec_set
    get-set_self later ttl k v =
        let e : Entry V = record { value = v; expires_at = now + suc ttl } in
        get-live_value cap later k _ _ (set-Refines dec cap now k v (pos (suc ttl)) c l h)
        ∙ ap (live_value later) (stored_self cap now k e l h.positive (omega arith))

    -- `Set` with a TTL that is not positive leaves nothing under the key.
    pub get-set_expired :
        (later : ℕ) (k : K) (v : V) (ttl : ℤ)
        → ((n : ℕ) → ttl ≢ pos (suc n))
        → (get dec later k (set dec now k v ttl c)).1 ≡ none
    unfolding spec_set
    get-set_expired later k v (pos zero) out =
        get-live_value cap later k _ _ (set-Refines dec cap now k v (pos zero) c l h)
        ∙ ap (live_value later) (lookup-without_self dec k l)
    get-set_expired later k v (pos (suc n)) out = absurd (out n refl)
    get-set_expired later k v (negsuc n) out =
        get-live_value cap later k _ _ (set-Refines dec cap now k v (negsuc n) c l h)
        ∙ ap (live_value later) (lookup-without_self dec k l)

    stored_other :
        (j k : K) (e f : Entry V)
        → j ≢ k
        → lookup dec j l ≡ some f
        → ltb now f.expires_at ≡ true
        → now < e.expires_at
        → length (select (is_live now) (without dec k l)) < cap
        → lookup dec j (spec_store dec cap now k e l) ≡ some f
    unfolding spec_store lookup
    stored_other j k e f other hit live stored room =
        let l' = (k, e) ∷ without dec k l in
        let there : lookup dec j (without dec k l) ≡ some f =
          lookup-without_ne dec k j l other ∙ hit in
        let kept =
          lookup-select now j f (without dec k l) (without-Distinct dec k l h.linked.distinct) there
            live in
        elim (Bool-cases (leb (suc (length (without dec k l))) cap)) [
          | inl fits ↦ rw fits (if_neg (dec j k) other _ _ ∙ there)
          | inr over ↦ rw over (
              rw (lt→ltb now e.expires_at stored) (
                rw (take_of_length-le cap ((k, e) ∷ select (is_live now) (without dec k l)) room)
                  (if_neg (dec j k) other _ _ ∙ kept)))
        ]

    -- A `Set` of another key evicts no entry that is live, as long as the live entries beside the
    -- key leave room for it: what has expired goes first.
    pub get-set_ne :
        (later ttl : ℕ) (j k : K) (v w : V)
        → j ≢ k
        → now ≤ later
        → (get dec later j c).1 ≡ some w
        → length (select (is_live now) (without dec k l)) < cap
        → (get dec later j (set dec now k v (pos (suc ttl)) c)).1 ≡ some w
    unfolding spec_set
    get-set_ne later ttl j k v w other le hit room =
        let e : Entry V = record { value = v; expires_at = now + suc ttl } in
        let found = sym (get-live_value cap later j c l h) ∙ hit in
        elim (Option-cases (lookup dec j l)) [
          | inl miss ↦ cc (ap (live_value later) miss, found)
          | inr (f, there) ↦
              let live : live_value later (some f) ≡ some w =
                sym (ap (live_value later) there) ∙ found in
              get-live_value cap later j _ _ (set-Refines dec cap now k v (pos (suc ttl)) c l h)
              ∙ ap (live_value later) (
                  stored_other j k e f other there (live_before now later f w le live) (omega arith)
                    room)
              ∙ live
        ]

    -- `Len` is the number of the entries that are live at that time.
    pub len-live : (len dec now c).1 ≡ length (select (is_live now) l)
    len-live = (len-Refines dec cap now c l h).1
