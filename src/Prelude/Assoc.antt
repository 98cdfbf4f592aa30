-- ===== src/Prelude/Assoc.antt =====
-- Association lists over keys with a decidable equality: what the program keeps in Go maps, and in
-- the linked list and the heap of the cache.
use Prim.Native.Nat.{suc, ◌≤◌, ◌<◌}
use mathlib.Core.Bool.{Bool}
use mathlib.Core.List.{List, [], ◌∷◌, lookup}
use mathlib.Core.Logic.{◌≢◌, ite, if_pos, if_neg}
use mathlib.Core.Option.{none, some}
use mathlib.Core.Path.{◌≡◌, refl}
use native.Mathlib.Omega.{arith}
use anilibria_torznab.Prelude.Lists.{length, select, All}

abbrev pub keys {ℓ} : {K V : Type ℓ} → List (K × V) → List K
keys [] = []
keys (e ∷ l) = e.0 ∷ keys l

module _ {ℓ} {K V : Type ℓ} (dec : Discrete K) where
  -- `delete(m, k)`
  abbrev pub without : K → List (K × V) → List (K × V)
  without k [] = []
  without k (e ∷ l) = let rest = without k l in ite (dec k e.0) rest (e ∷ rest)

  -- No key stands twice.
  abbrev pub Distinct : List (K × V) → Type ℓ
  Distinct [] = Unit
  Distinct (e ∷ l) = (lookup dec e.0 l ≡ none) × Distinct l

  pub lookup-without_self : (k : K) (l : List (K × V)) → lookup dec k (without k l) ≡ none
  unfolding lookup
  lookup-without_self k [] = refl
  lookup-without_self k (e ∷ l) = ground (arith, lookup-without_self k l)

  pub lookup-without_ne :
      (k j : K) (l : List (K × V)) → j ≢ k → lookup dec j (without k l) ≡ lookup dec j l
  unfolding lookup
  lookup-without_ne k j [] h = refl
  lookup-without_ne k j (e ∷ l) h = ground (arith, lookup-without_ne k j l)

  pub lookup-without-none :
      (k j : K) (l : List (K × V)) → lookup dec j l ≡ none → lookup dec j (without k l) ≡ none
  unfolding lookup
  lookup-without-none k j [] h = refl
  lookup-without-none k j (e ∷ l) h = ground (arith, lookup-without-none k j l)

  pub without_absent : (k : K) (l : List (K × V)) → lookup dec k l ≡ none → without k l ≡ l
  unfolding lookup
  without_absent k [] h = refl
  without_absent k (e ∷ l) h = ground (arith, without_absent k l)

  pub without-Distinct : (k : K) (l : List (K × V)) → Distinct l → Distinct (without k l)
  without-Distinct k [] d = tt
  without-Distinct k (e ∷ l) d =
      ground (arith, without-Distinct k l d.1, lookup-without-none k e.0 l d.0)

  pub length-without-le : (k : K) (l : List (K × V)) → length (without k l) ≤ length l
  length-without-le k [] = omega arith
  length-without-le k (e ∷ l) = ground (arith, length-without-le k l)

  pub length-without :
      (k : K) (l : List (K × V)) (v : V) → lookup dec k l ≡ some v → length (without k l) < length l
  unfolding lookup
  length-without k [] v h = cc
  length-without k (e ∷ l) v h = ground (arith, length-without k l v, length-without-le k l)

  pub length-without_of_Distinct :
      (k : K) (l : List (K × V)) (v : V)
      → Distinct l
      → lookup dec k l ≡ some v
      → suc (length (without k l)) ≡ length l
  unfolding lookup
  length-without_of_Distinct k [] v d h = cc
  length-without_of_Distinct k (e ∷ l) v d h =
      ground (arith, length-without_of_Distinct k l v d.1, without_absent k l)

  pub All-without {κ} :
      (P : K × V → Type κ) (k : K) (l : List (K × V)) → All P l → All P (without k l)
  All-without P k [] a = tt
  All-without P k (e ∷ l) a = elim (dec k e.0) [
    | yes p ↦ rw (if_pos _ p) (All-without P k l a.1)
    | no p ↦ rw (if_neg _ p) (a.0, All-without P k l a.1)
  ]

  pub lookup-select-none :
      (p : K × V → Bool) (k : K) (l : List (K × V))
      → lookup dec k l ≡ none
      → lookup dec k (select p l) ≡ none
  unfolding lookup
  lookup-select-none p k [] h = refl
  lookup-select-none p k (e ∷ l) h = ground (arith, lookup-select-none p k l)

  pub select-Distinct : (p : K × V → Bool) (l : List (K × V)) → Distinct l → Distinct (select p l)
  select-Distinct p [] d = tt
  select-Distinct p (e ∷ l) d =
      ground (arith, select-Distinct p l d.1, lookup-select-none p e.0 l d.0)

  -- A list in which no key is found is empty.
  pub nil_of_lookup-none : (l : List (K × V)) → ((k : K) → lookup dec k l ≡ none) → l ≡ []
  unfolding lookup
  nil_of_lookup-none [] h = refl
  nil_of_lookup-none (e ∷ l) h = ground (arith, h e.0)
