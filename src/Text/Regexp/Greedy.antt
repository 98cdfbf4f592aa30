-- ===== src/Text/Regexp/Greedy.antt =====
-- The longest run of a class, and a text that is one match.
use anilibria_torznab.Prelude.{
  ℕ, zero, suc, ◌+◌, ◌-◌, ◌≤◌, ◌≡◌, refl, ap, ◌∙◌, true, false, Option, none, some, List, [], ◌∷◌,
  ◌++◌, length, All, arith,
}
use anilibria_torznab.Text.RuneString.{Runes}
use anilibria_torznab.Text.Regexp.{
  Class, Regexp, one, many, follow, either, some_of, Cursor, advance, or_else, step, repeat, run,
  match_at, Match, match_from, find_all_from, find_all,
}
use anilibria_torznab.Text.Regexp.Reading.{skip, moved, advance-skip}

-- A text that does not start with a rune of the class
abbrev pub StopsAt : Class → Runes → Type 0
StopsAt p [] = Unit
StopsAt p (x ∷ rest) = p x ≡ false

module _ {A : Type 0} where
  repeat-longest :
      (p : Class) (c : Cursor) (taken rest : Runes) (k : Cursor → Option A) (a : A)
      → c.rest ≡ taken ++ rest
      → All (λ x. p x ≡ true) taken
      → StopsAt p rest
      → k (skip c (length taken) rest) ≡ some a
      → repeat p c (taken ++ rest) k ≡ some a
  unfolding repeat or_else
  repeat-longest p c [] [] k a e all stop h = ap k (moved c (c.position + 0) [] (omega arith) e) ∙ h
  repeat-longest p c [] (x ∷ rest) k a e all stop h =
      let here = ap k (moved c (c.position + 0) (x ∷ rest) (omega arith) e) ∙ h in ground arith
  repeat-longest p c (x ∷ taken) rest k a e all stop h =
      let longer =
        repeat-longest p (advance c (taken ++ rest)) taken rest k a refl all.1 stop
          (ap k (advance-skip c (length taken) (taken ++ rest) rest) ∙ h) in
      ground (arith, all.0)

  pub run-follow_one :
      (p : Class) (b : Regexp) (c : Cursor) (x : ℕ) (rest : Runes) (k : Cursor → Option A) (a : A)
      → c.rest ≡ x ∷ rest
      → p x ≡ true
      → run b (advance c rest) k ≡ some a
      → run (follow (one p) b) c k ≡ some a
  unfolding run step
  run-follow_one p b c x rest k a e px h = ap (λ l. step p c l (λ d. run b d k)) e ∙ ground arith

  pub run-some_of :
      (p : Class) (c : Cursor) (x : ℕ) (taken rest : Runes) (k : Cursor → Option A) (a : A)
      → c.rest ≡ x ∷ (taken ++ rest)
      → p x ≡ true
      → All (λ y. p y ≡ true) taken
      → StopsAt p rest
      → k (skip c (suc (length taken)) rest) ≡ some a
      → run (some_of p) c k ≡ some a
  unfolding run
  run-some_of p c x taken rest k a e px all stop h =
      run-follow_one p (many p) c x (taken ++ rest) k a e px (
        repeat-longest p (advance c (taken ++ rest)) taken rest k a refl all stop
          (ap k (advance-skip c (length taken) (taken ++ rest) rest) ∙ h))

  pub run-follow_some_of :
      (p : Class) (b : Regexp) (c : Cursor) (x : ℕ) (taken rest : Runes) (k : Cursor → Option A)
      (a : A)
      → c.rest ≡ x ∷ (taken ++ rest)
      → p x ≡ true
      → All (λ y. p y ≡ true) taken
      → StopsAt p rest
      → run b (skip c (suc (length taken)) rest) k ≡ some a
      → run (follow (some_of p) b) c k ≡ some a
  unfolding run
  run-follow_some_of p b c x taken rest k a = run-some_of p c x taken rest (λ d. run b d k) a

  -- The first alternative that leads on is taken.
  pub run-either_left :
      (r s : Regexp) (c : Cursor) (k : Cursor → Option A) (a : A)
      → run r c k ≡ some a
      → run (either r s) c k ≡ some a
  unfolding run or_else
  run-either_left r s c k a h = ap (λ o. or_else o (run s c k)) h

  pub run-either_right :
      (r s : Regexp) (c : Cursor) (k : Cursor → Option A) (a : A)
      → run r c k ≡ none
      → run s c k ≡ some a
      → run (either r s) c k ≡ some a
  unfolding run or_else
  run-either_right r s c k a fails h = ap (λ o. or_else o (run s c k)) fails ∙ h

-- Nothing is found in what is left of a match.
find_all_from-skipped :
    (r : Regexp) (skipped position : ℕ) (rest : Runes)
    → length rest ≤ skipped
    → find_all_from r skipped position rest ≡ []
unfolding find_all_from
find_all_from-skipped r skipped position [] h = refl
find_all_from-skipped r zero position (x ∷ rest) h = absurd (omega arith)
find_all_from-skipped r (suc skipped) position (x ∷ rest) h =
    find_all_from-skipped r skipped (suc position) rest (omega arith)

-- A text of which all is one match has no other.
pub find_all-whole :
    (r : Regexp) (x : ℕ) (rest : Runes) (d : Cursor)
    → match_at r 0 (x ∷ rest) ≡ some d
    → suc (length rest) ≤ d.position
    → find_all r (x ∷ rest) ≡ match_from 0 d ∷ []
unfolding find_all find_all_from
find_all-whole r x rest d found long =
    ap
      (λ o. elim o as (λ _. List Match) [
        | none ↦ find_all_from r 0 1 rest
        | some c ↦ match_from 0 c ∷ find_all_from r (c.position - 1) 1 rest
      ])
      found
    ∙ ap (λ (ms : List Match). match_from 0 d ∷ ms)
        (find_all_from-skipped r (d.position - 1) 1 rest (omega arith))
