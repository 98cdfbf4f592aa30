-- ===== src/Cache/Lru/Heap.antt =====
-- The order of the expiry heap, and what its operations keep.
use anilibria_torznab.Prelude.{
  ℕ, ◌≤◌, ◌≡◌, refl, none, some, List, [], ◌∷◌, ite, arith, lookup, without, Distinct, All,
}
use anilibria_torznab.Cache.Lru.{heap_push}

-- The root expires first, and so in the rest.
abbrev pub IsOrdered : {K : Type 0} → List (K × ℕ) → Type 0
IsOrdered [] = Unit
IsOrdered (e ∷ q) = All (λ f. e.1 ≤ f.1) q × IsOrdered q

module _ {K : Type 0} where
  All-le_trans : (t u : ℕ) (q : List (K × ℕ)) → t ≤ u → All (λ f. u ≤ f.1) q → All (λ f. t ≤ f.1) q
  All-le_trans t u [] h a = tt
  All-le_trans t u (e ∷ q) h a = (omega arith, All-le_trans t u q h a.1)

  All-heap_push :
      (k : K) (t u : ℕ) (q : List (K × ℕ))
      → u ≤ t
      → All (λ f. u ≤ f.1) q
      → All (λ f. u ≤ f.1) (heap_push k t q)
  unfolding heap_push
  All-heap_push k t u [] h a = (h, tt)
  All-heap_push k t u ((j, w) ∷ q) h a = ground (arith, All-heap_push k t u q h a.1)

  pub heap_push-IsOrdered :
      (k : K) (t : ℕ) (q : List (K × ℕ)) → IsOrdered q → IsOrdered (heap_push k t q)
  unfolding heap_push
  heap_push-IsOrdered k t [] o = (tt, tt)
  heap_push-IsOrdered k t ((j, u) ∷ q) o =
      ground (arith, heap_push-IsOrdered k t q o.1, All-le_trans t u q, All-heap_push k t u q)

module _ {K : Type 0} (dec : Discrete K) where
  pub lookup-heap_push :
      (k j : K) (t : ℕ) (q : List (K × ℕ))
      → lookup dec k q ≡ none
      → lookup dec j (heap_push k t q) ≡ ite (dec j k) (some t) (lookup dec j q)
  unfolding lookup heap_push
  lookup-heap_push k j t [] h = refl
  lookup-heap_push k j t ((i, u) ∷ q) h = ground (arith, lookup-heap_push k j t q)

  pub heap_push-Distinct :
      (k : K) (t : ℕ) (q : List (K × ℕ))
      → lookup dec k q ≡ none
      → Distinct dec q
      → Distinct dec (heap_push k t q)
  unfolding lookup heap_push
  heap_push-Distinct k t [] h d = (refl, tt)
  heap_push-Distinct k t ((j, u) ∷ q) h d =
      ground (arith, heap_push-Distinct k t q, lookup-heap_push k j t q)

  All-without :
      (k : K) (t : ℕ) (q : List (K × ℕ))
      → All (λ f. t ≤ f.1) q
      → All (λ f. t ≤ f.1) (without dec k q)
  All-without k t [] a = tt
  All-without k t (e ∷ q) a = ground (arith, All-without k t q a.1)

  pub without-IsOrdered : (k : K) (q : List (K × ℕ)) → IsOrdered q → IsOrdered (without dec k q)
  without-IsOrdered k [] o = tt
  without-IsOrdered k (e ∷ q) o = ground (arith, without-IsOrdered k q o.1, All-without k e.1 q o.0)

  -- What is found in an ordered heap expires no earlier than its root.
  pub root-le :
      (j : K) (t u : ℕ) (q : List (K × ℕ)) → All (λ f. t ≤ f.1) q → lookup dec j q ≡ some u → t ≤ u
  unfolding lookup
  root-le j t u [] a h = cc
  root-le j t u (e ∷ q) a h = ground (arith, root-le j t u q a.1)
