-- ===== src/Text/Regexp/Search.antt =====
-- Where matches lie, and that a search finds one where there is one.
use anilibria_torznab.Prelude.{
  ℕ, zero, suc, ◌+◌, ◌-◌, ◌≤◌, ◌≡◌, refl, sym, ap, ◌∙◌, subst, some-injective, ◌⊎◌, inl, inr, true,
  Option, none, some, List, [], ◌∷◌, ◌++◌, length, length-append, All, ◌==◌, if_rule, elim_rule,
  arith,
}
use anilibria_torznab.Text.RuneString.{Runes}
use anilibria_torznab.Text.Regexp.{
  Class, Regexp, one, many, follow, either, group, nothing, at_start, at_end, Cursor, advance,
  read_until, or_else, step, repeat, run, match_at, Match, match_from, find_all_from, find_all,
}
use anilibria_torznab.Text.Regexp.Reading.{Reads, skip, moved, advance-skip, run-Reads}

-- A reading goes on to the right, and the text stays the same.
abbrev Within : Cursor → Cursor → Type 0
Within c d = (c.position ≤ d.position) × (c.position + length c.rest ≡ d.position + length d.rest)

Within-refl : (c d : Cursor) → d ≡ c → Within c d
Within-refl c d e = (rw e (omega arith), rw e (omega arith))

advance-Within :
    (c d : Cursor) (x : ℕ) (rest : Runes) → c.rest ≡ x ∷ rest → d ≡ advance c rest → Within c d
advance-Within c d x rest e same =
    let n = ap length e in (rw same (omega arith), rw same (omega arith))

skip-Within :
    (c d : Cursor) (taken rest : Runes)
    → c.rest ≡ taken ++ rest
    → d ≡ skip c (length taken) rest
    → Within c d
skip-Within c d taken rest e same =
    let n : length c.rest ≡ length taken + length rest = ap length e ∙ length-append taken rest in
    (rw same (omega arith), rw same (omega arith))

Reads-Within : (r : Regexp) (c d : Cursor) → Reads r c d → Within c d
unfolding Reads
Reads-Within (one p) c d (x, rest, e, px, same) = advance-Within c d x rest e same
Reads-Within (many p) c d (taken, rest, e, all, same) = skip-Within c d taken rest e same
Reads-Within (follow r s) c d (e, first, second) =
    let (a, b) = Reads-Within r c e first in
    let (a', b') = Reads-Within s e d second in (omega arith, omega arith)
Reads-Within (either r s) c d (inl h) = Reads-Within r c d h
Reads-Within (either r s) c d (inr h) = Reads-Within s c d h
Reads-Within (group n r) c d (e, reads, same) =
    let (a, b) = Reads-Within r c e reads in (rw same a, rw same b)
Reads-Within nothing c d e = Within-refl c d e
Reads-Within at_start c d h = Within-refl c d h.1
Reads-Within at_end c d h = Within-refl c d h.1

abbrev pub from : ℕ → Runes → Cursor
from position rest = record { position = position; rest = rest; groups = [] }

pub match_at-Reads :
    (r : Regexp) (position : ℕ) (rest : Runes) (d : Cursor)
    → match_at r position rest ≡ some d
    → Reads r (from position rest) d
unfolding match_at
match_at-Reads r position rest d h =
    let (e, reads, same) = run-Reads r (from position rest) some d h in
    subst (Reads r (from position rest)) (some-injective _ _ same) reads

-- A match of a list
abbrev pub Occurs : Match → List Match → Type 0
Occurs m [] = ⊥
Occurs m (x ∷ matches) = (m ≡ x) ⊎ Occurs m matches

-- A match lies between two places of the text.
abbrev pub LiesIn : ℕ → Match → Type 0
LiesIn end m = (m.start ≤ m.end) × (m.end ≤ end)

find_all_from-LiesIn :
    (r : Regexp) (skipped position : ℕ) (rest : Runes) (m : Match)
    → Occurs m (find_all_from r skipped position rest)
    → LiesIn (position + length rest) m
unfolding find_all_from
find_all_from-LiesIn r skipped position [] m h = absurd h
find_all_from-LiesIn r (suc skipped) position (x ∷ rest) m h =
    omega (arith, find_all_from-LiesIn r skipped (suc position) rest m h)
find_all_from-LiesIn r zero position (x ∷ rest) m h =
    by_match (match_at r position (x ∷ rest)) refl
      (λ k o. find_all_from-LiesIn r k (suc position) rest m o) h
  where
    by_match :
        (o : Option Cursor)
        → match_at r position (x ∷ rest) ≡ o
        → ((k : ℕ)
            → Occurs m (find_all_from r k (suc position) rest)
            → LiesIn (suc position + length rest) m)
        → Occurs m (elim o as (λ _. List Match) [
          | none ↦ find_all_from r zero (suc position) rest
          | some c ↦
              match_from position c
              ∷ find_all_from r (c.position - suc position) (suc position) rest
        ])
        → LiesIn (position + length (x ∷ rest)) m
    by_match none e later o = let l = later 0 o in (l.0, omega arith)
    by_match (some c) e later (inr o) =
        let l = later (c.position - suc position) o in (l.0, omega arith)
    by_match (some c) e later (inl same) =
        let (a, b) =
          Reads-Within r (from position (x ∷ rest)) c (match_at-Reads r position (x ∷ rest) c e) in
        (rw same a, rw same (omega arith))

pub find_all-LiesIn :
    (r : Regexp) (text : Runes) (m : Match) → Occurs m (find_all r text) → LiesIn (length text) m
unfolding find_all
find_all-LiesIn r text m o = let l = find_all_from-LiesIn r 0 0 text m o in (l.0, omega arith)

module _ {ℓ} {A : Type ℓ} where
  -- A search that has found something
  abbrev Some : Option A → Type ℓ
  Some o = (a : A) × (o ≡ some a)

  or_else-left : (x y : Option A) → Some x → Some (or_else x y)
  unfolding or_else
  or_else-left none y h = absurd (ground arith)
  or_else-left (some x) y h = h

  or_else-right : (x y : Option A) → Some y → Some (or_else x y)
  unfolding or_else
  or_else-right none y h = h
  or_else-right (some x) y h = (x, refl)

  step-Some :
      (p : Class) (c : Cursor) (x : ℕ) (rest : Runes) (k : Cursor → Option A)
      → p x ≡ true
      → Some (k (advance c rest))
      → Some (step p c (x ∷ rest) k)
  unfolding step
  step-Some p c x rest k px h = elim_rule Some (p x) (λ e. h) (λ e. absurd (ground arith))

  repeat-Some_here :
      (p : Class) (c : Cursor) (rest : Runes) (k : Cursor → Option A)
      → Some (k c)
      → Some (repeat p c rest k)
  unfolding repeat
  repeat-Some_here p c [] k h = h
  repeat-Some_here p c (x ∷ rest) k h =
      elim_rule Some (p x) (λ e. or_else-right (repeat p (advance c rest) rest k) (k c) h) (λ e. h)

  repeat-Some :
      (p : Class) (c : Cursor) (taken rest : Runes) (k : Cursor → Option A)
      → c.rest ≡ taken ++ rest
      → All (λ x. p x ≡ true) taken
      → Some (k (skip c (length taken) rest))
      → Some (repeat p c (taken ++ rest) k)
  unfolding repeat
  repeat-Some p c [] rest k e all h =
      repeat-Some_here p c rest k
        (subst (λ d. Some (k d)) (sym (moved c (c.position + 0) rest (omega arith) e)) h)
  repeat-Some p c (x ∷ taken) rest k e all h =
      let c' = advance c (taken ++ rest) in
      let longer =
        repeat-Some p c' taken rest k refl all.1
          (subst (λ d. Some (k d)) (sym (advance-skip c (length taken) (taken ++ rest) rest)) h) in
      elim_rule Some (p x) (λ px. or_else-left (repeat p c' (taken ++ rest) k) (k c) longer)
        (λ px. absurd (ground (arith, all.0)))

  -- Where the expression can be read, the search finds something.
  pub run_complete :
      (r : Regexp) (c d : Cursor) (k : Cursor → Option A)
      → Reads r c d
      → Some (k d)
      → Some (run r c k)
  unfolding run Reads
  run_complete (one p) c d k (x, rest, e, px, same) h =
      subst (λ l. Some (step p c l k)) (sym e)
        (step-Some p c x rest k px (subst (λ y. Some (k y)) same h))
  run_complete (many p) c d k (taken, rest, e, all, same) h =
      subst (λ l. Some (repeat p c l k)) (sym e)
        (repeat-Some p c taken rest k e all (subst (λ y. Some (k y)) same h))
  run_complete (follow r s) c d k (e, first, second) h =
      run_complete r c e (λ y. run s y k) first (run_complete s e d k second h)
  run_complete (either r s) c d k (inl reads) h =
      or_else-left (run r c k) (run s c k) (run_complete r c d k reads h)
  run_complete (either r s) c d k (inr reads) h =
      or_else-right (run r c k) (run s c k) (run_complete s c d k reads h)
  run_complete (group n r) c d k (e, reads, same) h =
      run_complete r c e (λ y. k (record y { groups = (n, read_until c y) ∷ y.groups })) reads
        (subst (λ y. Some (k y)) same h)
  run_complete nothing c d k same h = subst (λ y. Some (k y)) same h
  run_complete at_start c d k (e, same) h =
      if_rule Some (c.position == 0) (λ z. subst (λ y. Some (k y)) same h)
        (λ z. absurd (ground arith))
  run_complete at_end c d k (e, same) h =
      subst (λ l. Some (elim l as (λ _. Option A) [ [] ↦ k c | x ∷ more ↦ none ])) (sym e)
        (subst (λ y. Some (k y)) same h)

-- An expression finds a match at a place exactly where it can be read there.
pub match_at-Some :
    (r : Regexp) (position : ℕ) (rest : Runes) (d : Cursor)
    → Reads r (from position rest) d
    → (e : Cursor) × (match_at r position rest ≡ some e)
unfolding match_at
match_at-Some r position rest d reads = run_complete r (from position rest) d some reads (d, refl)
