-- ===== src/Cache/Lru/Linked.antt =====
-- The three structures of the cache of internal/cache/lru.go agree with one list of entries.
use anilibria_torznab.Prelude.{
  ℕ, zero, suc, ◌≤◌, ◌≡◌, refl, sym, ap, ◌∙◌, Bool, true, false, Option, none, some, List, [], ◌∷◌,
  arith, ltb, lookup, without, keys, Distinct, All, length, select, select_all, lookup-without_self,
  lookup-without_ne, without-Distinct, without_absent, length-without, nil_of_lookup-none,
  Bool-cases, if_pos, subst, ltb→lt, lt→ltb, inl, inr,
}
use anilibria_torznab.Cache.Lru.{Entry, Lru, unlink, remove, remove_expired_loop, remove_expired}
use anilibria_torznab.Cache.Lru.Heap.{IsOrdered, without-IsOrdered, root-le}
use anilibria_torznab.Cache.Lru.Spec.{is_live}

abbrev pub expiry_of : {V : Type 0} → Option (Entry V) → Option ℕ
expiry_of none = none
expiry_of (some e) = some e.expires_at

expiry_of-eq-some :
    {V : Type 0} (o : Option (Entry V)) {t : ℕ}
    → expiry_of o ≡ some t
    → (e : Entry V) × (o ≡ some e) × (e.expires_at ≡ t)
expiry_of-eq-some none h = cc
expiry_of-eq-some (some e) h = (e, refl, ground arith)

module _ {K V : Type 0} (dec : Discrete K) where
  pub record Linked (c : Lru K V) (l : List (K × Entry V)) : Type 0 where
    pub recency : c.recency ≡ keys l
    pub found : (k : K) → lookup dec k c.entries ≡ lookup dec k l
    pub queued : (k : K) → lookup dec k c.expiry ≡ expiry_of (lookup dec k l)
    pub distinct : Distinct dec l
    pub ordered : IsOrdered c.expiry
    pub queue_distinct : Distinct dec c.expiry

  pub unlink-keys :
      (k : K) (l : List (K × Entry V)) → unlink dec k (keys l) ≡ keys (without dec k l)
  unfolding unlink
  unlink-keys k [] = refl
  unlink-keys k (e ∷ l) = ground (arith, unlink-keys k l)

  pub length-keys : (l : List (K × Entry V)) → length (keys l) ≡ length l
  length-keys [] = refl
  length-keys (e ∷ l) = ap suc (length-keys l)

  pub remove-Linked :
      (k : K) (c : Lru K V) (l : List (K × Entry V))
      → Linked c l
      → Linked (remove dec k c) (without dec k l)
  unfolding remove
  remove-Linked k c l h = record {
    recency = ap (unlink dec k) h.recency ∙ unlink-keys k l;
    found = λ j. elim (dec j k) [
      | yes p ↦ ground (arith, lookup-without_self dec k c.entries, lookup-without_self dec k l)
      | no p ↦
          lookup-without_ne dec k j c.entries p ∙ h.found j ∙ sym (lookup-without_ne dec k j l p)
    ];
    queued = λ j. elim (dec j k) [
      | yes p ↦ ground (arith, lookup-without_self dec k c.expiry, lookup-without_self dec k l)
      | no p ↦
          lookup-without_ne dec k j c.expiry p
          ∙ h.queued j
          ∙ ap expiry_of (sym (lookup-without_ne dec k j l p))
    ];
    distinct = without-Distinct dec k l h.distinct;
    ordered = without-IsOrdered dec k c.expiry h.ordered;
    queue_distinct = without-Distinct dec k c.expiry h.queue_distinct;
  }

  -- A property of all that is found is one of all members.
  All-lookup :
      (P : K × Entry V → Type 0) (l : List (K × Entry V))
      → Distinct dec l
      → ((k : K) (e : Entry V) → lookup dec k l ≡ some e → P (k, e))
      → All P l
  unfolding lookup
  All-lookup P [] d h = tt
  All-lookup P (x ∷ l) d h = (
    h x.0 x.1 (ground arith),
    All-lookup P l d.1
        (λ k e q. elim (dec k x.0) [ yes p ↦ ground arith | no p ↦ h k e (ground arith) ]),
  )

  select-without :
      (p : K × Entry V → Bool) (k : K) (e : Entry V) (l : List (K × Entry V))
      → Distinct dec l
      → lookup dec k l ≡ some e
      → p (k, e) ≡ false
      → select p (without dec k l) ≡ select p l
  unfolding lookup
  select-without p k e [] d h q = refl
  select-without p k e (x ∷ l) d h q =
      ground (arith, select-without p k e l d.1, without_absent dec k l)

  queued_at :
      (c : Lru K V) (l : List (K × Entry V)) (k : K) {q : List (K × ℕ)}
      → Linked c l
      → c.expiry ≡ q
      → lookup dec k q ≡ expiry_of (lookup dec k l)
  queued_at c l k h eq = subst (λ q. lookup dec k q ≡ expiry_of (lookup dec k l)) eq (h.queued k)

  -- A heap in order whose root has not expired holds nothing that has.
  all_live :
      (now t : ℕ) (k : K) (q : List (K × ℕ)) (c : Lru K V) (l : List (K × Entry V))
      → Linked c l
      → c.expiry ≡ (k, t) ∷ q
      → ltb now t ≡ true
      → All (λ e. is_live now e ≡ true) l
  unfolding lookup
  all_live now t k q c l h eq live =
      All-lookup (λ e. is_live now e ≡ true) l h.distinct
        λ j e f.
          let o : IsOrdered ((k, t) ∷ q) = subst IsOrdered eq h.ordered in
          let there : lookup dec j ((k, t) ∷ q) ≡ some e.expires_at =
            queued_at c l j h eq ∙ ap expiry_of f in
          lt→ltb _ _ (
            omega (
              arith,
              ltb→lt now t live,
              root-le dec j t e.expires_at ((k, t) ∷ q) (omega arith, o.0) there,
            ))

  none_of_empty :
      (c : Lru K V) (l : List (K × Entry V)) (k : K)
      → Linked c l
      → c.expiry ≡ []
      → lookup dec k l ≡ none
  unfolding lookup
  none_of_empty c l k h eq = ground (arith, queued_at c l k h eq)

  empty-Linked :
      (now : ℕ) (c : Lru K V) (l : List (K × Entry V))
      → Linked c l
      → c.expiry ≡ []
      → Linked c (select (is_live now) l)
  empty-Linked now c l h eq =
      let e : l ≡ [] = nil_of_lookup-none dec l (λ k. none_of_empty c l k h eq) in rw e (rw e at h)

  -- The root of the heap is an entry of the list, with its expiry.
  root_entry :
      (k : K) (t : ℕ) (q : List (K × ℕ)) (c : Lru K V) (l : List (K × Entry V))
      → Linked c l
      → c.expiry ≡ (k, t) ∷ q
      → (e : Entry V) × (lookup dec k l ≡ some e) × (e.expires_at ≡ t)
  unfolding lookup
  root_entry k t q c l h eq =
      expiry_of-eq-some (lookup dec k l) (sym (queued_at c l k h eq) ∙ if_pos (dec k k) refl _ _)

  remove_expired_loop-Linked :
      (fuel now : ℕ) (q : List (K × ℕ)) (c : Lru K V) (l : List (K × Entry V))
      → Linked c l
      → c.expiry ≡ q
      → length q ≤ fuel
      → Linked (remove_expired_loop dec fuel now q c) (select (is_live now) l)
  unfolding remove_expired_loop
  remove_expired_loop-Linked zero now [] c l h eq le = empty-Linked now c l h eq
  remove_expired_loop-Linked zero now (e ∷ q) c l h eq le = absurd (omega arith)
  remove_expired_loop-Linked (suc fuel) now [] c l h eq le = empty-Linked now c l h eq
  remove_expired_loop-Linked (suc fuel) now ((k, t) ∷ q) c l h eq le =
      elim (Bool-cases (ltb now t)) [
        | inl live ↦ rw live (rw (select_all (is_live now) l (all_live now t k q c l h eq live)) h)
        | inr dead ↦
            let (e, hit, at_t) = root_entry k t q c l h eq in
            let smaller =
              length-without dec k c.expiry t (h.queued k ∙ ap expiry_of hit ∙ ap some at_t) in
            rw dead (
              rw (← select-without (is_live now) k e l h.distinct hit (ap (ltb now) at_t ∙ dead)) (
                remove_expired_loop-Linked fuel now (without dec k c.expiry) (remove dec k c)
                  (without dec k l) (remove-Linked k c l h) refl
                  (omega (arith, smaller, ap length eq))))
      ]

  pub remove_expired-Linked :
      (now : ℕ) (c : Lru K V) (l : List (K × Entry V))
      → Linked c l
      → Linked (remove_expired dec now c) (select (is_live now) l)
  unfolding remove_expired
  remove_expired-Linked now c l h =
      remove_expired_loop-Linked (length c.expiry) now c.expiry c l h refl (omega arith)
