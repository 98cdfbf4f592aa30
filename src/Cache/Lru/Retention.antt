-- ===== src/Cache/Lru/Retention.antt =====
-- How long internal/cache/lru.go keeps what is stored, by way of its specification: an entry that is live is
-- not evicted before as many other uses of the cache as it has places.
use anilibria_torznab.Prelude.{
  subst, ℕ, zero, suc, ◌+◌, ◌≤◌, ◌<◌, ◌≡◌, ◌≢◌, refl, ◌∙◌, true, Option, some, List, [], ◌∷◌,
  if_pos, if_neg, arith, ltb, lt→ltb, leb, lookup, pos, negsuc, without, length, select, take, All,
  Option-cases, inl, inr, if_rule,
}
use anilibria_torznab.Cache.Lru.{Entry}
use anilibria_torznab.Cache.Lru.Spec.{
  is_live, Call, get, set, delete, len, spec_get, spec_store, spec_set, spec_step, spec_run,
}

module _ {K V : Type 0} (dec : Discrete K) (k : K) (e : Entry V) where
  -- The entry is among the first ones.
  abbrev pub IsNear : ℕ → List (K × Entry V) → Type 0
  IsNear m l = lookup dec k (take m l) ≡ some e

  IsNear-suc : (m : ℕ) (l : List (K × Entry V)) → IsNear m l → IsNear (suc m) l
  unfolding lookup
  IsNear-suc zero l h = absurd (ground arith)
  IsNear-suc (suc m) [] h = h
  IsNear-suc (suc m) (x ∷ l) h = ground (arith, IsNear-suc m l)

  IsNear-cons :
      (m : ℕ) (j : K) (f : Entry V) (l : List (K × Entry V))
      → k ≢ j
      → IsNear m l
      → IsNear (suc m) ((j, f) ∷ l)
  unfolding lookup
  IsNear-cons m j f l other h = if_neg (dec k j) other _ _ ∙ h

  IsNear-without :
      (m : ℕ) (j : K) (l : List (K × Entry V)) → k ≢ j → IsNear m l → IsNear m (without dec j l)
  unfolding lookup
  IsNear-without zero j l other h = absurd (ground arith)
  IsNear-without (suc m) j [] other h = h
  IsNear-without (suc m) j (x ∷ l) other h =
      ground (arith, IsNear-without m j l other, IsNear-suc m (without dec j l))

  IsNear-select :
      (m now : ℕ) (l : List (K × Entry V))
      → ltb now e.expires_at ≡ true
      → IsNear m l
      → IsNear m (select (is_live now) l)
  unfolding lookup
  IsNear-select zero now l live h = absurd (ground arith)
  IsNear-select (suc m) now [] live h = h
  IsNear-select (suc m) now (x ∷ l) live h =
      ground (arith, IsNear-select m now l live, IsNear-suc m (select (is_live now) l))

  IsNear-take : (m cap : ℕ) (l : List (K × Entry V)) → m ≤ cap → IsNear m l → IsNear m (take cap l)
  unfolding lookup
  IsNear-take zero cap l le h = absurd (ground arith)
  IsNear-take (suc m) zero l le h = absurd (omega arith)
  IsNear-take (suc m) (suc cap) [] le h = h
  IsNear-take (suc m) (suc cap) (x ∷ l) le h = ground (arith, IsNear-take m cap l)

  pub IsNear-found : (m : ℕ) (l : List (K × Entry V)) → IsNear m l → lookup dec k l ≡ some e
  unfolding lookup
  IsNear-found zero l h = absurd (ground arith)
  IsNear-found (suc m) [] h = h
  IsNear-found (suc m) (x ∷ l) h = ground (arith, IsNear-found m l)

  -- A use of the cache that neither stores nor deletes the key
  abbrev pub IsOther : Call K V → Type 0
  IsOther (get j) = Unit
  IsOther (set j v ttl) = k ≢ j
  IsOther (delete j) = k ≢ j
  IsOther len = Unit

  get-IsNear_self :
      (m now : ℕ) (l : List (K × Entry V))
      → ltb now e.expires_at ≡ true
      → IsNear m l
      → IsNear (suc m) (spec_get dec now k l).0
  unfolding spec_get lookup
  get-IsNear_self m now l live h =
      let hit = IsNear-found m l h in rw (hit, spec_get) (rw live (if_pos (dec k k) refl _ _))

  get-IsNear :
      (m now : ℕ) (j : K) (l : List (K × Entry V))
      → ltb now e.expires_at ≡ true
      → IsNear m l
      → IsNear (suc m) (spec_get dec now j l).0
  unfolding spec_get
  get-IsNear m now j l live h = elim (dec k j) [
    | yes same ↦
        subst (λ i. IsNear (suc m) (spec_get dec now i l).0) same (get-IsNear_self m now l live h)
    | no other ↦ elim (Option-cases (lookup dec j l)) [
      | inl miss ↦ rw (miss, spec_get) (IsNear-suc m l h)
      | inr (f, hit) ↦
          rw (hit, spec_get)
            (if_rule (λ (p : List (K × Entry V) × Option V). IsNear (suc m) p.0)
              (ltb now f.expires_at)
              (λ q. IsNear-cons m j f (without dec j l) other (IsNear-without m j l other h))
              (λ q. IsNear-suc m (without dec j l) (IsNear-without m j l other h)))
    ]
  ]

  store-IsNear :
      (cap m now : ℕ) (j : K) (f : Entry V) (l : List (K × Entry V))
      → k ≢ j
      → ltb now e.expires_at ≡ true
      → suc m ≤ cap
      → IsNear m l
      → IsNear (suc m) (spec_store dec cap now j f l)
  unfolding spec_store
  store-IsNear cap m now j f l other live room h =
      let l' = (j, f) ∷ without dec j l in
      let near = IsNear-cons m j f (without dec j l) other (IsNear-without m j l other h) in
      if_rule (IsNear (suc m)) (leb (length l') cap) (λ fits. near)
        (λ full.
          IsNear-take (suc m) cap (select (is_live now) l') room
            (IsNear-select (suc m) now l' live near))

  step-IsNear :
      (cap m now : ℕ) (call : Call K V) (l : List (K × Entry V))
      → IsOther call
      → ltb now e.expires_at ≡ true
      → suc m ≤ cap
      → IsNear m l
      → IsNear (suc m) (spec_step dec cap now call l).0
  unfolding spec_step spec_set
  step-IsNear cap m now (get j) l other live room h = get-IsNear m now j l live h
  step-IsNear cap m now (set j v (pos (suc ttl))) l other live room h =
      store-IsNear cap m now j _ l other live room h
  step-IsNear cap m now (set j v (pos zero)) l other live room h =
      IsNear-suc m (without dec j l) (IsNear-without m j l other h)
  step-IsNear cap m now (set j v (negsuc n)) l other live room h =
      IsNear-suc m (without dec j l) (IsNear-without m j l other h)
  step-IsNear cap m now (delete j) l other live room h =
      IsNear-suc m (without dec j l) (IsNear-without m j l other h)
  step-IsNear cap m now len l other live room h =
      IsNear-suc m (select (is_live now) l) (IsNear-select m now l live h)

  -- Uses before the entry expires, which neither store nor delete its key
  abbrev pub IsSpared : List (ℕ × Call K V) → Type 0
  IsSpared calls = All (λ c. (c.0 < e.expires_at) × IsOther c.1) calls

  run-IsNear :
      (cap m : ℕ) (calls : List (ℕ × Call K V)) (l : List (K × Entry V))
      → IsSpared calls
      → m + length calls ≤ cap
      → IsNear m l
      → IsNear (m + length calls) (spec_run dec cap calls l).0
  unfolding spec_run
  run-IsNear cap m [] l spared room h =
      subst (λ n. IsNear n l) (let n : m ≡ m + 0 = omega arith in n) h
  run-IsNear cap m ((now, call) ∷ calls) l spared room h =
      subst (λ n. IsNear n (spec_run dec cap calls (spec_step dec cap now call l).0).0)
        (let n : suc m + length calls ≡ m + suc (length calls) = omega arith in n)
        (run-IsNear cap (suc m) calls _ spared.1 (omega arith) (
          step-IsNear cap m now call l spared.0.1 (lt→ltb now e.expires_at spared.0.0) (omega arith)
            h))

  -- An entry that was stored last is there after fewer other uses than there are places.
  pub stored-kept :
      (cap now : ℕ) (calls : List (ℕ × Call K V)) (l : List (K × Entry V))
      → now < e.expires_at
      → IsSpared calls
      → length calls < cap
      → lookup dec k (spec_run dec cap calls (spec_store dec cap now k e l)).0 ≡ some e
  unfolding spec_store lookup
  stored-kept cap now calls l live spared room =
      let l' = (k, e) ∷ without dec k l in
      let first : IsNear 1 l' = if_pos (dec k k) refl _ _ in
      let stored : IsNear 1 (spec_store dec cap now k e l) =
        if_rule (IsNear 1) (leb (length l') cap) (λ fits. first)
          (λ full.
            IsNear-take 1 cap (select (is_live now) l') (omega arith)
              (IsNear-select 1 now l' (lt→ltb now e.expires_at live) first)) in
      IsNear-found _ _ (run-IsNear cap 1 calls _ spared (omega arith) stored)
