-- ===== src/Cache/Coalescer/SingleFlight.antt =====
-- What the coalescer of internal/cache/coalescer.go keeps under every interleaving of its goroutines.
use anilibria_torznab.Prelude.{
  ℕ, suc, ◌-◌, ◌^◌, ◌<◌, ◌≡◌, refl, sym, ap, ◌∙◌, subst, true, false, none, some, some-injective,
  [], ◌==◌, arith, if_pos, if_neg, ℕ_discrete, lookup, if◌then◌else◌, Option-cases, Bool-cases,
  if_rule, ◌↔◌, ◌⊎◌, inl, inr,
}
use anilibria_torznab.Cache.Coalescer.{
  Budget, Call, Coalescer, new_call, add_waiter, complete, drop_waiter, write, bind_key, forget,
  join, finish, detach, is_cancelled, cancel_base,
}
use anilibria_torznab.Cache.Coalescer.Interleaving.{
  IsValidCall, add_waiter-IsValidCall, drop_waiter-IsValidCall, complete-IsValidCall,
  new_call-IsValidCall, Step, joins, finishes, detaches, cancels_base, Reach, here, next, IsValid,
}

module _ {K R : Type 0} (dec : Discrete K) where
  join_shared-IsValid :
      (b : Budget) (k : K) (p : ℕ) (s : Coalescer K R)
      → IsValid dec s
      → s.calls k ≡ some p
      → suc (s.heap p).next_waiter_id < 2 ^ 64
      → IsValid dec (record s { heap = write p (add_waiter b (s.heap p)) s.heap })
  unfolding write add_waiter
  join_shared-IsValid b k p s v e room =
      let (lt, same, running, wanted) = v.current k p e in
      record {
        valid = λ q l. elim (ℕ_discrete q p) [
          | yes h ↦
              rw (if_pos _ h)
                (add_waiter-IsValidCall b (s.heap p) (v.valid p lt) running wanted room)
          | no h ↦ rw (if_neg _ h) (v.valid q l)
        ];
        current = λ j q c. ground (arith, v.current j q c);
        alive = λ q l r w. ground (arith, v.alive q l, v.alive p lt);
      }

  join_new-IsValid :
      (b : Budget) (k : K) (s : Coalescer K R)
      → IsValid dec s
      → s.calls k ≡ none
      → IsValid dec (record {
        base_cancelled = s.base_cancelled;
        calls = bind_key dec k (some s.next) s.calls;
        heap = write s.next (add_waiter b (new_call k)) s.heap;
        next = suc s.next;
      })
  unfolding write add_waiter new_call bind_key
  join_new-IsValid b k s v e = record {
    valid = λ q l. elim (ℕ_discrete q s.next) [
      | yes h ↦ rw (if_pos _ h) (new_call-IsValidCall b k)
      | no h ↦ rw (if_neg _ h) (v.valid q (omega arith))
    ];
    current = λ j q c. ground (arith, v.current j q);
    alive = λ q l r w. elim (ℕ_discrete q s.next) [
      | yes h ↦ ground arith
      | no h ↦ let lt : q < s.next = omega arith in ground (arith, v.alive q lt)
    ];
  }

  finish-IsValid :
      (p : ℕ) (r : R) (s : Coalescer K R)
      → IsValid dec s
      → p < s.next
      → IsValid dec (finish dec p r s)
  unfolding finish write complete forget bind_key
  finish-IsValid p r s v lt = record {
    valid = λ q l. elim (ℕ_discrete q p) [
      | yes h ↦ rw (if_pos _ h) (complete-IsValidCall r (s.heap p) (v.valid p lt))
      | no h ↦ rw (if_neg _ h) (v.valid q l)
    ];
    current = λ j q c. ground (arith, v.current j q, v.alive p lt);
    alive = λ q l run w. ground (arith, v.alive q l, v.alive p lt);
  }

  dropped-IsValid :
      (p w : ℕ) (b : Budget) (s : Coalescer K R)
      → IsValid dec s
      → p < s.next
      → lookup ℕ_discrete w (s.heap p).budgets ≡ some b
      → (s.heap p).completed ≡ false
      → IsValid dec (record s {
        heap = write p (drop_waiter w (s.heap p)) s.heap;
        calls =
            if (s.heap p).waiters - 1 == 0 then forget dec (s.heap p).key p s.calls else s.calls;
      })
  unfolding write drop_waiter forget bind_key
  dropped-IsValid p w b s v lt there running = record {
    valid = λ q l. elim (ℕ_discrete q p) [
      | yes h ↦
          rw (if_pos _ h) (drop_waiter-IsValidCall w b (s.heap p) (v.valid p lt) there running)
      | no h ↦ rw (if_neg _ h) (v.valid q l)
    ];
    current = λ j q c. ground (arith, v.current j q, v.alive p lt);
    alive = λ q l run x. ground (arith, v.alive q l, v.alive p lt);
  }

  detach-IsValid :
      (p w : ℕ) (b : Budget) (s : Coalescer K R)
      → IsValid dec s
      → p < s.next
      → lookup ℕ_discrete w (s.heap p).budgets ≡ some b
      → IsValid dec (detach dec p w s)
  unfolding detach
  detach-IsValid p w b s v lt there =
      if_rule (IsValid dec) (s.heap p).completed (λ done. v)
        (λ running. dropped-IsValid p w b s v lt there running)

  join-IsValid :
      (b : Budget) (k : K) (s : Coalescer K R)
      → IsValid dec s
      → ((p : ℕ) → s.calls k ≡ some p → suc (s.heap p).next_waiter_id < 2 ^ 64)
      → IsValid dec (join dec b k s).0
  unfolding join
  join-IsValid b k s v room = elim (Option-cases (s.calls k)) [
    | inl e ↦ rw (e, join) (join_new-IsValid b k s v e)
    | inr (p, e) ↦ rw (e, join) (join_shared-IsValid b k p s v e (room p e))
  ]

  cancel_base-IsValid : (s : Coalescer K R) → IsValid dec s → IsValid dec (cancel_base s)
  unfolding cancel_base
  cancel_base-IsValid s v = record { valid = v.valid; current = v.current; alive = v.alive }

  -- Whatever a goroutine does next keeps the invariant.
  pub Step-IsValid : (s t : Coalescer K R) → Step dec s t → IsValid dec s → IsValid dec t
  Step-IsValid s t (joins b k room e) v = subst (IsValid dec) (sym e) (join-IsValid b k s v room)
  Step-IsValid s t (finishes p r lt running e) v =
      subst (IsValid dec) (sym e) (finish-IsValid p r s v lt)
  Step-IsValid s t (detaches p w b lt there e) v =
      subst (IsValid dec) (sym e) (detach-IsValid p w b s v lt there)
  Step-IsValid s t (cancels_base e) v = subst (IsValid dec) (sym e) (cancel_base-IsValid s v)

  pub Reach-IsValid : {s t : Coalescer K R} → IsValid dec s → Reach dec s t → IsValid dec t
  Reach-IsValid v here = v
  Reach-IsValid v (next r st) = Step-IsValid _ _ st (Reach-IsValid v r)

  -- A coalescer in which no load has been started yet.
  pub record IsFresh (s : Coalescer K R) : Type 0 where
    pub no_calls : (k : K) → s.calls k ≡ none
    pub unallocated : s.next ≡ 0

  pub IsFresh-IsValid : (s : Coalescer K R) → IsFresh s → IsValid dec s
  IsFresh-IsValid s f = record {
    valid = λ q l. absurd (omega arith);
    current = λ j q c. cc (f.no_calls j);
    alive = λ q l r w. absurd (omega arith);
  }

  -- From a fresh coalescer, in every interleaving, two loads of one key that both still run and whose
  -- own contexts are not cancelled are the same load, whether or not the base context is cancelled.
  pub single_flight :
      (s t : Coalescer K R)
      → IsFresh s
      → Reach dec s t
      → (p q : ℕ) → p < t.next
      → q < t.next
      → (t.heap p).key ≡ (t.heap q).key
      → ((t.heap p).completed ≡ false) × ((t.heap p).cancelled ≡ false)
      → ((t.heap q).completed ≡ false) × ((t.heap q).cancelled ≡ false)
      → p ≡ q
  single_flight s t f r p q lp lq same a b =
      let v = Reach-IsValid (IsFresh-IsValid s f) r in
      some-injective _ _ (sym (v.alive p lp a.0 a.1) ∙ ap t.calls same ∙ v.alive q lq b.0 b.1)

  cancelled_iff_of :
      (c : Call K R)
      → IsValidCall c
      → (c.cancelled ≡ true) ↔ ((c.completed ≡ true) ⊎ (c.budgets ≡ []))
  cancelled_iff_of c v = elim (Bool-cases c.completed) [
    | inl done ↦ (λ h. inl done, λ h. v.ended done)
    | inr running ↦ (
      λ h. ground (arith, v.counted running, v.wanted running),
      λ h. ground (arith, v.counted running, v.wanted running),
    )
  ]

  -- From a fresh coalescer, in every interleaving, the context of a load is cancelled exactly when the
  -- base context is cancelled, the load has returned, or no waiter is left: one that gives up does not
  -- cancel the load of the others.
  pub cancelled_iff :
      (s t : Coalescer K R)
      → IsFresh s
      → Reach dec s t
      → (p : ℕ) → p < t.next
      → (is_cancelled t p ≡ true)
        ↔ ((t.base_cancelled ≡ true) ⊎ (((t.heap p).completed ≡ true) ⊎ ((t.heap p).budgets ≡ [])))
  unfolding is_cancelled
  cancelled_iff s t f r p lt =
      let (forth, back) =
        cancelled_iff_of (t.heap p) ((Reach-IsValid (IsFresh-IsValid s f) r).valid p lt) in
      elim (Bool-cases t.base_cancelled) [
        | inl base ↦ (λ h. inl base, λ h. ground arith)
        | inr base ↦ (
          λ h. inr (forth (ground arith)),
          λ h. elim h [
            | inl cancelled ↦ absurd (ground arith)
            | inr ended ↦ let own = back ended in ground arith
          ],
        )
      ]

  -- From a fresh coalescer, in every interleaving, a caller that comes gets a call that still runs and
  -- whose context is cancelled only as far as the base context is, and it is counted among its waiters.
  pub join_live :
      (s t : Coalescer K R)
      → IsFresh s
      → Reach dec s t
      → (b : Budget) (k : K)
      → let (t', j) = join dec b k t in
        ((t'.heap j.call).completed ≡ false)
        × (is_cancelled t' j.call ≡ t.base_cancelled)
        × (lookup ℕ_discrete j.waiter (t'.heap j.call).budgets ≡ some b)
        × (t'.calls k ≡ some j.call)
  unfolding join write add_waiter new_call bind_key lookup is_cancelled
  join_live s t f r b k =
      let v = Reach-IsValid (IsFresh-IsValid s f) r in
      elim (Option-cases (t.calls k)) [
        | inl e ↦ rw (e, join) (ground arith, ground arith, ground arith, ground arith)
        | inr (p, e) ↦
            let (lt, same, running, wanted) = v.current k p e in
            rw (e, join) (ground arith, ground arith, ground arith, ground arith)
      ]

  Step-outcome :
      (s t : Coalescer K R) (p : ℕ)
      → Step dec s t
      → p < s.next
      → (s.heap p).completed ≡ true
      → (p < t.next) × ((t.heap p).completed ≡ true) × ((t.heap p).outcome ≡ (s.heap p).outcome)
  unfolding join finish detach write add_waiter drop_waiter complete new_call cancel_base
  Step-outcome s t p (joins b k room e) lt done = rw e (ground arith, ground arith, ground arith)
  Step-outcome s t p (finishes q r l running e) lt done = rw e (lt, ground arith, ground arith)
  Step-outcome s t p (detaches q w b l there e) lt done =
      rw e (ground arith, ground arith, ground arith)
  Step-outcome s t p (cancels_base e) lt done = rw e (lt, done, refl)

  finished :
      (s : Coalescer K R) (p : ℕ) (r : R)
      → p < s.next
      → (p < (finish dec p r s).next)
        × (((finish dec p r s).heap p).completed ≡ true)
        × (((finish dec p r s).heap p).outcome ≡ some r)
  unfolding finish write complete
  finished s p r lt = (lt, ground arith, ground arith)

  kept_outcome :
      {t u : Coalescer K R} (p : ℕ) {r : R}
      → Reach dec t u
      → (p < t.next) × ((t.heap p).completed ≡ true) × ((t.heap p).outcome ≡ some r)
      → (p < u.next) × ((u.heap p).completed ≡ true) × ((u.heap p).outcome ≡ some r)
  kept_outcome p here h = h
  kept_outcome p (next {t = m} path st) h =
      let (lt, done, out) = kept_outcome p path h in
      let (lt', done', out') = Step-outcome m _ p st lt done in (lt', done', out' ∙ out)

  -- Once the load of a call has returned, every waiter of the call finds its outcome there, whatever
  -- the goroutines do in between.
  pub outcome_stable :
      (s u : Coalescer K R) (p : ℕ) (r : R)
      → p < s.next
      → Reach dec (finish dec p r s) u
      → ((u.heap p).completed ≡ true) × ((u.heap p).outcome ≡ some r)
  outcome_stable s u p r lt path =
      let (_, done, out) = kept_outcome p path (finished s p r lt) in (done, out)
