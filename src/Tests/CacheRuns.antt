-- ===== src/Tests/CacheRuns.antt =====
-- internal/cache on small inputs.
use anilibria_torznab.Prelude.{
  ℕ, suc, ◌^◌, subst, some-injective, ◌<◌, ◌≡◌, ◌↔◌, ◌⊎◌, refl, true, false, none, some, List, [],
  ◌∷◌, pos, lookup, ℕ_discrete, arith,
}
use anilibria_torznab.Cache.Lru.{Entry, Lru, new_lru}
use anilibria_torznab.Cache.Lru
use anilibria_torznab.Cache.Lru.Spec
use anilibria_torznab.Cache.Lru.Spec.{is_live, run, spec_run, spec_set}
use anilibria_torznab.Cache.Lru.Refinement.{Refines, run-Refines, new_lru-Refines, set-Refines}
use anilibria_torznab.Cache.Coalescer.{is_cancelled, Coalescer, new_call, join, effective_deadline}
use anilibria_torznab.Cache.Coalescer.Interleaving.{Reach, here, next, joins}
use anilibria_torznab.Cache.Coalescer.SingleFlight.{
  IsFresh, single_flight, cancelled_iff, join_live,
}
use anilibria_torznab.Cache.Coalescer.Deadline.{earlier, together, effective_deadline_lem}

abbrev empty_lru : Lru ℕ ℕ
empty_lru = record { max_entries = 2; entries = []; recency = []; expiry = [] }

-- Three entries for two places, a read, and an expiry.
abbrev calls : List (ℕ × Spec.Call ℕ ℕ)
calls =
    (1, Spec.Call.set 1 10 (pos 50))
    ∷ (2, Spec.Call.set 2 20 (pos 5))
    ∷ (3, Spec.Call.get 1)
    ∷ (4, Spec.Call.set 3 30 (pos 50))
    ∷ (5, Spec.Call.get 2)
    ∷ (6, Spec.Call.len)
    ∷ []

empty-Refines : Refines ℕ_discrete 2 empty_lru []
unfolding new_lru
empty-Refines = new_lru-Refines ℕ_discrete 2 empty_lru refl

run-Refines_example :
    Refines ℕ_discrete 2 (run ℕ_discrete calls empty_lru).0 (spec_run ℕ_discrete 2 calls []).0
    × ((run ℕ_discrete calls empty_lru).1 ≡ (spec_run ℕ_discrete 2 calls []).1)
unfolding new_lru
run-Refines_example = run-Refines ℕ_discrete 2 calls empty_lru refl

-- The cache after the first call, and what it stands for.
abbrev one : Lru ℕ ℕ
one = Lru.set ℕ_discrete 1 1 10 (pos 50) empty_lru

abbrev one_list : List (ℕ × Entry ℕ)
one_list = spec_set ℕ_discrete 2 1 1 10 (pos 50) []

one-Refines : Refines ℕ_discrete 2 one one_list
one-Refines = set-Refines ℕ_discrete 2 1 1 10 (pos 50) empty_lru [] empty-Refines

abbrev idle : Coalescer ℕ ℕ
idle = record { calls = λ k. none; heap = λ p. new_call 0; next = 0; base_cancelled = false }

abbrev after_join : Coalescer ℕ ℕ
after_join = (join ℕ_discrete (some 5) 7 idle).0

idle-IsFresh : IsFresh ℕ_discrete idle
idle-IsFresh = record { no_calls = λ k. refl; unallocated = refl }

joined : Reach ℕ_discrete idle after_join
joined = next here (joins (some 5) 7 (λ p e. cc) refl)

-- A second caller of the same key
abbrev after_two : Coalescer ℕ ℕ
after_two = (join ℕ_discrete none 7 after_join).0

joined_twice : Reach ℕ_discrete idle after_two
unfolding join ℕ_discrete
joined_twice = next joined (joins none 7 (λ p e. room p (some-injective _ _ e)) refl)
  where
    room : (p : ℕ) → 0 ≡ p → suc (after_join.heap p).next_waiter_id < 2 ^ 64
    room p e = subst (λ q. suc (after_join.heap q).next_waiter_id < 2 ^ 64) e (omega arith)

single_flight_example :
    (join ℕ_discrete (some 5) 7 idle).1.call ≡ (join ℕ_discrete none 7 after_join).1.call
unfolding join ℕ_discrete
single_flight_example =
    single_flight ℕ_discrete idle after_two idle-IsFresh joined_twice 0 0 (omega arith)
      (omega arith) refl (refl, refl) (refl, refl)

cancelled_iff_example : (is_cancelled after_join 0 ≡ true) ↔ (
    (after_join.base_cancelled ≡ true)
    ⊎ (((after_join.heap 0).completed ≡ true) ⊎ ((after_join.heap 0).budgets ≡ [])))
unfolding join
cancelled_iff_example = cancelled_iff ℕ_discrete idle after_join idle-IsFresh joined 0 (omega arith)

-- A second caller shares the load of the first.
join_live_example :
    let (t, j) = join ℕ_discrete none 7 after_join in
    ((t.heap j.call).completed ≡ false)
    × (is_cancelled t j.call ≡ after_join.base_cancelled)
    × (lookup ℕ_discrete j.waiter (t.heap j.call).budgets ≡ some none)
    × (t.calls 7 ≡ some j.call)
join_live_example = join_live ℕ_discrete idle after_join idle-IsFresh joined none 7

effective_deadline_lem_example :
    effective_deadline (some 9) ((1, some 4) ∷ (2, some 6) ∷ [])
    ≡ earlier (some 9) (together ((1, some 4) ∷ (2, some 6) ∷ []))
effective_deadline_lem_example = effective_deadline_lem (some 9) ((1, some 4) ∷ (2, some 6) ∷ [])
