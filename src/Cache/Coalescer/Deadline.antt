-- ===== src/Cache/Coalescer/Deadline.antt =====
-- The effective deadline of a shared load, of internal/cache/coalescer.go.
use anilibria_torznab.Prelude.{ℕ, ◌≡◌, refl, Option, none, some, List, [], ◌∷◌, max, min, arith}
use anilibria_torznab.Cache.Coalescer.{
  Budget, latest_loop, waiters_deadline, choose_deadline, effective_deadline,
}

-- The latest of the deadlines, if every waiter has one.
pub latest_of : List (ℕ × Budget) → Option ℕ
latest_of [] = some 0
latest_of ((w, none) ∷ bs) = none
latest_of ((w, some d) ∷ bs) = elim (latest_of bs) [ none ↦ none | some t ↦ some (max d t) ]

abbrev pub max_with : ℕ → Option ℕ → Option ℕ
max_with a none = none
max_with a (some t) = some (max a t)

latest_loop-latest_of :
    (a : ℕ) (bs : List (ℕ × Budget)) → latest_loop a bs ≡ max_with a (latest_of bs)
unfolding latest_loop latest_of
latest_loop-latest_of a [] = ground arith
latest_loop-latest_of a ((w, none) ∷ bs) = refl
latest_loop-latest_of a ((w, some d) ∷ bs) =
    ground (arith, latest_loop-latest_of d bs, latest_loop-latest_of a bs)

-- The deadline of all waiters together: none if there is no waiter, or one that is not bounded.
abbrev pub together : List (ℕ × Budget) → Option ℕ
together [] = none
together (b ∷ bs) = latest_of (b ∷ bs)

-- The earlier one of two deadlines, where `none` is no deadline.
abbrev pub earlier : Option ℕ → Option ℕ → Option ℕ
earlier none t = t
earlier (some d) none = some d
earlier (some d) (some t) = some (min d t)

-- The effective deadline is the earlier one of the base context's and of the latest among the
-- waiters', which is no deadline as soon as one waiter is not bounded or there is none.
pub effective_deadline_lem :
    (base : Option ℕ) (budgets : List (ℕ × Budget))
    → effective_deadline base budgets ≡ earlier base (together budgets)
unfolding effective_deadline waiters_deadline choose_deadline latest_of
effective_deadline_lem base [] = ground arith
effective_deadline_lem base (b ∷ bs) = ground (arith, latest_loop-latest_of 0 (b ∷ bs))
