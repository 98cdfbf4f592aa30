-- ===== src/Cache/Coalescer/Interleaving.antt =====
-- The goroutines of internal/cache/coalescer.go: callers join, loads return and waiters give up, in any
-- order, and the base context may be cancelled between them. Each step is what one of them does while it holds the lock.
use anilibria_torznab.Prelude.{
  ℕ, suc, ◌^◌, ◌≤◌, ◌<◌, ◌≡◌, refl, true, false, none, some, List, [], ◌∷◌, ◌==◌, arith, ℕ_discrete,
  length, lookup, Distinct, All, without_absent, without-Distinct, length-without_of_Distinct,
  All-without,
}
use anilibria_torznab.Cache.Coalescer.{
  Budget, Call, Coalescer, next_id, new_call, add_waiter, complete, drop_waiter, join, finish,
  detach, cancel_base,
}

pub record IsValidCall {K R : Type 0} (c : Call K R) : Type 0 where
  pub ids : All (λ b. b.0 ≤ c.next_waiter_id) c.budgets
  pub distinct : Distinct ℕ_discrete c.budgets
  pub counted : c.completed ≡ false → c.waiters ≡ length c.budgets
  pub wanted : c.completed ≡ false → c.cancelled ≡ (c.waiters == 0)
  pub ended : c.completed ≡ true → c.cancelled ≡ true

above_ids :
    (n w : ℕ) (bs : List (ℕ × Budget))
    → n < w
    → All (λ b. b.0 ≤ n) bs
    → lookup ℕ_discrete w bs ≡ none
unfolding lookup
above_ids n w [] h a = refl
above_ids n w (b ∷ bs) h a = ground (arith, above_ids n w bs h a.1)

ids_grow :
    (n w : ℕ) (bs : List (ℕ × Budget)) → n ≤ w → All (λ b. b.0 ≤ n) bs → All (λ b. b.0 ≤ w) bs
ids_grow n w [] h a = tt
ids_grow n w (b ∷ bs) h a = (omega arith, ids_grow n w bs h a.1)

next_id_lem : (n : ℕ) → suc n < 2 ^ 64 → next_id n ≡ suc n
unfolding next_id
next_id_lem n h = omega arith

module _ {K R : Type 0} where
  -- A waiter more, on a call that still runs and is wanted or new.
  pub add_waiter-IsValidCall :
      (b : Budget) (c : Call K R)
      → IsValidCall c
      → c.completed ≡ false
      → c.cancelled ≡ false
      → suc c.next_waiter_id < 2 ^ 64
      → IsValidCall (add_waiter b c)
  unfolding add_waiter lookup
  add_waiter-IsValidCall b c v running wanted room =
      let n = c.next_waiter_id in
      let e = next_id_lem n room in
      let gone = above_ids n (suc n) c.budgets (omega arith) v.ids in
      rw (e, without_absent ℕ_discrete (suc n) c.budgets gone)
        (record {
          ids = (omega arith, ids_grow n (suc n) c.budgets (omega arith) v.ids);
          distinct = (gone, v.distinct);
          counted = λ h. omega (arith, v.counted h);
          wanted = λ h. ground arith;
          ended = λ h. cc;
        })

  pub drop_waiter-IsValidCall :
      (w : ℕ) (b : Budget) (c : Call K R)
      → IsValidCall c
      → lookup ℕ_discrete w c.budgets ≡ some b
      → c.completed ≡ false
      → IsValidCall (drop_waiter w c)
  unfolding drop_waiter
  drop_waiter-IsValidCall w b c v there running =
      let shorter = length-without_of_Distinct ℕ_discrete w c.budgets b v.distinct there in
      record {
        ids = All-without ℕ_discrete (λ x. x.0 ≤ c.next_waiter_id) w c.budgets v.ids;
        distinct = without-Distinct ℕ_discrete w c.budgets v.distinct;
        counted = λ h. omega (arith, v.counted h, shorter);
        wanted = λ h. ground (arith, v.wanted h, v.counted h, shorter);
        ended = λ h. cc;
      }

  pub complete-IsValidCall : (r : R) (c : Call K R) → IsValidCall c → IsValidCall (complete r c)
  unfolding complete
  complete-IsValidCall r c v = record {
    ids = v.ids;
    distinct = v.distinct;
    counted = λ h. cc;
    wanted = λ h. cc;
    ended = λ h. refl;
  }

  pub new_call-IsValidCall : (b : Budget) (k : K) → IsValidCall (add_waiter {R = R} b (new_call k))
  unfolding add_waiter new_call lookup
  new_call-IsValidCall b k = record {
    ids = (omega arith, tt);
    distinct = (refl, tt);
    counted = λ h. refl;
    wanted = λ h. refl;
    ended = λ h. cc;
  }

module _ {K R : Type 0} (dec : Discrete K) where
  pub data Step (s t : Coalescer K R) : Type 0 where
    -- a caller comes, unless 2^64 - 1 of them have come to this call before
    joins :
        (b : Budget) (k : K)
        → ((p : ℕ) → s.calls k ≡ some p → suc (s.heap p).next_waiter_id < 2 ^ 64)
        → t ≡ (join dec b k s).0
        → Step s t
    -- the load of a call returns, which it does once
    finishes :
        (p : ℕ) (r : R)
        → p < s.next
        → (s.heap p).completed ≡ false
        → t ≡ finish dec p r s
        → Step s t
    -- a waiter that has not returned finds its context done
    detaches :
        (p w : ℕ) (b : Budget)
        → p < s.next
        → lookup ℕ_discrete w (s.heap p).budgets ≡ some b
        → t ≡ detach dec p w s
        → Step s t
    -- the base context is cancelled, which takes no lock
    cancels_base : t ≡ cancel_base s → Step s t

  pub data Reach (s : Coalescer K R) : Coalescer K R → Type 0 where
    here : Reach s s
    next : {t u : Coalescer K R} → Reach s t → Step t u → Reach s u

  -- What holds of a coalescer between two steps.
  pub record IsValid (s : Coalescer K R) : Type 0 where
    pub valid : (p : ℕ) → p < s.next → IsValidCall (s.heap p)
    pub current :
        (k : K) (p : ℕ)
        → s.calls k ≡ some p
        → (p < s.next)
          × ((s.heap p).key ≡ k)
          × ((s.heap p).completed ≡ false)
          × ((s.heap p).cancelled ≡ false)
    pub alive :
        (p : ℕ)
        → p < s.next
        → (s.heap p).completed ≡ false
        → (s.heap p).cancelled ≡ false
        → s.calls (s.heap p).key ≡ some p
