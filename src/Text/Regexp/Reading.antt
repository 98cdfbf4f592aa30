-- ===== src/Text/Regexp/Reading.antt =====
-- What an expression reads, with no search in it, and that the search is right about it.
use anilibria_torznab.Prelude.{
  ℕ, suc, ◌+◌, ◌≡◌, refl, ap, ◌∙◌, ◌⊎◌, inl, inr, Bool, true, false, Option, none, some, [], ◌∷◌,
  ◌++◌, length, All, Bool-cases, arith,
}
use anilibria_torznab.Text.RuneString.{Runes}
use anilibria_torznab.Text.Regexp.{
  Class, Regexp, one, many, follow, either, group, nothing, at_start, at_end, Cursor, advance,
  read_until, or_else, step, repeat, run,
}

-- A cursor behind some runes
abbrev pub skip : Cursor → ℕ → Runes → Cursor
skip c count rest = record c { position = c.position + count; rest = rest }

-- `Reads r c d`: the expression may lead from `c` to `d`.
unfoldable pub Reads : Regexp → Cursor → Cursor → Type 0
Reads (one p) c d =
    (x : ℕ) × (rest : Runes) × (c.rest ≡ x ∷ rest) × (p x ≡ true) × (d ≡ advance c rest)
Reads (many p) c d =
    (taken : Runes) × (rest : Runes) × (c.rest ≡ taken ++ rest)
    × All (λ x. p x ≡ true) taken
    × (d ≡ skip c (length taken) rest)
Reads (follow a b) c d = (e : Cursor) × Reads a c e × Reads b e d
Reads (either a b) c d = Reads a c d ⊎ Reads b c d
Reads (group n r) c d =
    (e : Cursor) × Reads r c e × (d ≡ record e { groups = (n, read_until c e) ∷ e.groups })
Reads nothing c d = d ≡ c
Reads at_start c d = (c.position ≡ 0) × (d ≡ c)
Reads at_end c d = (c.rest ≡ []) × (d ≡ c)

pub moved :
    (c : Cursor) (n : ℕ) (rest : Runes)
    → c.position ≡ n
    → c.rest ≡ rest
    → c ≡ record c { position = n; rest = rest }
moved c n rest p e = λ i. record c { position = p i; rest = e i }

pub advance-skip :
    (c : Cursor) (n : ℕ) (behind rest : Runes)
    → skip (advance c behind) n rest ≡ skip c (suc n) rest
advance-skip c n behind rest =
    moved (skip (advance c behind) n rest) (c.position + suc n) rest (omega arith) refl

module _ {ℓ} {A : Type ℓ} where
  or_else-some : (x y : Option A) (a : A) → or_else x y ≡ some a → (x ≡ some a) ⊎ (y ≡ some a)
  unfolding or_else
  or_else-some none y a h = inr h
  or_else-some (some x) y a h = inl h

  step-Reads :
      (p : Class) (c : Cursor) (rest : Runes) (k : Cursor → Option A) (a : A)
      → c.rest ≡ rest
      → step p c rest k ≡ some a
      → (d : Cursor) × Reads (one p) c d × (k d ≡ some a)
  unfolding step Reads
  step-Reads p c [] k a e h = absurd (ground arith)
  step-Reads p c (x ∷ rest) k a e h = elim (Bool-cases (p x)) [
    | inl yes_x ↦ (advance c rest, (x, rest, e, yes_x, refl), ground arith)
    | inr no_x ↦ absurd (ground arith)
  ]

  abbrev Found : Regexp → Cursor → (Cursor → Option A) → A → Type ℓ
  Found r c k a = (d : Cursor) × Reads r c d × (k d ≡ some a)

  repeat_none :
      (p : Class) (c : Cursor) (k : Cursor → Option A) (a : A) → k c ≡ some a → Found (many p) c k a
  unfolding Reads
  repeat_none p c k a h =
      (c, ([], c.rest, refl, tt, moved c (c.position + 0) c.rest (omega arith) refl), h)

  repeat_more :
      (p : Class) (c : Cursor) (x : ℕ) (rest : Runes) (k : Cursor → Option A) (a : A)
      → c.rest ≡ x ∷ rest
      → p x ≡ true
      → Found (many p) (advance c rest) k a
      → Found (many p) c k a
  unfolding Reads
  repeat_more p c x rest k a e px (d, (taken, behind, split, all, same), h) = (
    d,
    (
      x ∷ taken,
      behind,
      e ∙ ap (λ (s : Runes). x ∷ s) split,
      (px, all),
      same ∙ advance-skip c (length taken) rest behind,
    ),
    h,
  )

  repeat-Reads :
      (p : Class) (c : Cursor) (rest : Runes) (k : Cursor → Option A) (a : A)
      → c.rest ≡ rest
      → repeat p c rest k ≡ some a
      → Found (many p) c k a
  unfolding repeat
  repeat-Reads p c [] k a e h = repeat_none p c k a h
  repeat-Reads p c (x ∷ rest) k a e h =
      by_test (p x) refl (λ found. repeat-Reads p (advance c rest) rest k a refl found) h
    where
      by_choice :
          p x ≡ true
          → (repeat p (advance c rest) rest k ≡ some a → Found (many p) (advance c rest) k a)
          → (repeat p (advance c rest) rest k ≡ some a) ⊎ (k c ≡ some a)
          → Found (many p) c k a
      by_choice px longer (inl h') = repeat_more p c x rest k a e px (longer h')
      by_choice px longer (inr h') = repeat_none p c k a h'

      by_test :
          (b : Bool)
          → p x ≡ b
          → (repeat p (advance c rest) rest k ≡ some a → Found (many p) (advance c rest) k a)
          → elim b as (λ _. Option A) [
            | true ↦ or_else (repeat p (advance c rest) rest k) (k c)
            | false ↦ k c
          ]
            ≡ some a
          → Found (many p) c k a
      by_test false px longer h' = repeat_none p c k a h'
      by_test true px longer h' = by_choice px longer (or_else-some _ _ a h')

  -- What a search finds is read by the expression.
  pub run-Reads :
      (r : Regexp) (c : Cursor) (k : Cursor → Option A) (a : A)
      → run r c k ≡ some a
      → (d : Cursor) × Reads r c d × (k d ≡ some a)
  unfolding run Reads
  run-Reads (one p) c k a h = step-Reads p c c.rest k a refl h
  run-Reads (many p) c k a h = repeat-Reads p c c.rest k a refl h
  run-Reads (follow r s) c k a h =
      let (e, first, h') = run-Reads r c (λ d. run s d k) a h in
      let (d, second, h'') = run-Reads s e k a h' in (d, (e, first, second), h'')
  run-Reads (either r s) c k a h =
      pick (run-Reads r c k a) (run-Reads s c k a) (or_else-some (run r c k) (run s c k) a h)
    where
      pick :
          (run r c k ≡ some a → Found r c k a)
          → (run s c k ≡ some a → Found s c k a)
          → (run r c k ≡ some a) ⊎ (run s c k ≡ some a)
          → Found (either r s) c k a
      pick f g (inl h') = let (d, reads, found) = f h' in (d, inl reads, found)
      pick f g (inr h') = let (d, reads, found) = g h' in (d, inr reads, found)
  run-Reads (group n r) c k a h =
      let (e, reads, found) =
        run-Reads r c (λ d. k (record d { groups = (n, read_until c d) ∷ d.groups })) a h in
      (record e { groups = (n, read_until c e) ∷ e.groups }, (e, reads, refl), found)
  run-Reads nothing c k a h = (c, refl, h)
  run-Reads at_start c k a h = (c, (ground arith, refl), ground arith)
  run-Reads at_end c k a h = by_rest c.rest refl h
    where
      by_rest :
          (rest : Runes)
          → c.rest ≡ rest
          → elim rest as (λ _. Option A) [ [] ↦ k c | x ∷ more ↦ none ] ≡ some a
          → Found at_end c k a
      by_rest [] e h' = (c, (e, refl), h')
      by_rest (x ∷ more) e h' = absurd (ground arith)
