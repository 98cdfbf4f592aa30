-- ===== src/Anilibria/Limiter/Spacing.antt =====
-- The spacing of the attempts of internal/anilibria/client.go.
use anilibria_torznab.Prelude.{ℕ, ◌+◌, ◌≤◌, ◌≡◌, List, [], ◌∷◌, arith}
use anilibria_torznab.Anilibria.Limiter.{Limiter, turn, Round, started, wait, starts}

-- Each time is at least `d` after the one before it.
abbrev pub IsSpaced : ℕ → List ℕ → Type 0
IsSpaced d [] = Unit
IsSpaced d (t ∷ []) = Unit
IsSpaced d (t ∷ u ∷ ts) = (t + d ≤ u) × IsSpaced d (u ∷ ts)

abbrev IsSpacedFrom : ℕ → ℕ → List ℕ → Type 0
IsSpacedFrom d lo [] = Unit
IsSpacedFrom d lo (t ∷ ts) = (lo ≤ t) × IsSpacedFrom d (t + d) ts

IsSpaced-of_from : (d lo : ℕ) (ts : List ℕ) → IsSpacedFrom d lo ts → IsSpaced d ts
IsSpaced-of_from d lo [] h = tt
IsSpaced-of_from d lo (t ∷ []) h = tt
IsSpaced-of_from d lo (t ∷ u ∷ ts) h = (h.1.0, IsSpaced-of_from d (t + d) (u ∷ ts) h.1)

starts_from : (clock : List ℕ) (l : Limiter) → IsSpacedFrom l.interval l.next (starts clock l)
unfolding starts turn
starts_from [] l = tt
starts_from (now ∷ clock) l =
    ground (arith, starts_from clock l, starts_from clock (record l { next = now + l.interval }))

-- In whatever order the goroutines of all operations and retries take the limiter's lock, and whatever
-- the clock shows them, two attempts start at least one interval apart.
pub starts-IsSpaced : (clock : List ℕ) (l : Limiter) → IsSpaced l.interval (starts clock l)
starts-IsSpaced clock l = IsSpaced-of_from l.interval l.next (starts clock l) (starts_from clock l)

-- Where `wait` lets an attempt start, the slot was free, and the next one is one interval later.
pub wait-started :
    (rounds : List Round) (l : Limiter) (t : ℕ)
    → (wait rounds l).1 ≡ started t
    → (l.next ≤ t) × ((wait rounds l).0 ≡ record l { next = t + l.interval })
unfolding wait turn
wait-started [] l t h = cc
wait-started (r ∷ rounds) l t h =
    (ground (arith, wait-started rounds l t), ground (arith, wait-started rounds l t))
