-- ===== src/Torznab/Marks/Pairs.antt =====
-- `markEmptyTechnicalPairs` marks nothing that belongs to a word.
use anilibria_torznab.Prelude.{
  ℕ, suc, ◌+◌, ◌≤◌, ◌<◌, ◌≡◌, refl, sym, subst, ◌⊎◌, inl, inr, true, false, ◌&&◌, not, Option, none,
  some, List, [], ◌∷◌, if◌then◌else◌, if_rule, arith,
}
use anilibria_torznab.Text.{Runes, is_space}
use anilibria_torznab.Torznab.Marks.{
  flag, Marks, technical_pair_close, Frame, see_visible, closes, close_pair, pair_step, pair_loop,
  mark_empty_technical_pairs,
}
use anilibria_torznab.Torznab.Marks.Removable.{
  is_bracket, is_soft, soft_of_space, soft_of_bracket, OnlyMarks, Follows, Stacked, Kept,
  mark_bytes-OnlyMarks, Stacked-widen, see_technical-Stacked, see_visible-Stacked, see_pair-Stacked,
}

closes_bracket :
    (r : ℕ) (f : Frame) (stack : List Frame)
    → is_bracket f.close ≡ true
    → closes r (f ∷ stack) ≡ true
    → is_bracket r ≡ true
unfolding closes
closes_bracket r f stack b h =
    let e : r ≡ f.close = ground arith in subst (λ x. is_bracket x ≡ true) (sym e) b

-- Both runes of a pair are brackets.
pair-brackets :
    (r c : ℕ) → technical_pair_close r ≡ some c → (is_bracket r ≡ true) × (is_bracket c ≡ true)
unfolding technical_pair_close is_bracket
pair-brackets r c h = ground arith

module _ (P : ℕ → Type 0) (index : ℕ) where
  here-widen : (stack : List Frame) → P index → Stacked P index stack → Stacked P (suc index) stack
  here-widen stack p s =
      Stacked-widen P index (suc index) stack (omega arith)
        (λ i low high. let e : index ≡ i = omega arith in subst P e p) s

  close_pair-Kept :
      (stack : List Frame) (marks : Marks)
      → OnlyMarks P marks.remove
      → Stacked P index stack
      → P index
      → Kept P (suc index) (close_pair index stack marks)
  unfolding close_pair
  close_pair-Kept [] marks m s p = (m, tt)
  close_pair-Kept (current ∷ stack) marks m s p =
      if_rule (Kept P (suc index)) (current.has_technical && not current.has_visible)
        (λ e.
          let clear : current.has_visible ≡ false = ground arith in
          let all : (i : ℕ) → current.opened ≤ i → i < suc index → P i =
            λ i low high. place clear i low (split i high) in
          (
            mark_bytes-OnlyMarks P marks.remove current.opened (index + 1) m
                (λ i low high. all i low (omega arith)),
            see_technical-Stacked P (suc index) stack
                (Stacked-widen P current.opened (suc index) stack (omega arith) all s.3),
          ))
        (λ e. (m, see_pair-Stacked P current current.opened (suc index) stack (omega arith) s.3))
    where
      split : (i : ℕ) → i < suc index → (i < index) ⊎ (index ≡ i)
      split i high = ground arith

      place :
          current.has_visible ≡ false
          → (i : ℕ) → current.opened ≤ i
          → (i < index) ⊎ (index ≡ i)
          → P i
      place clear i low (inl under) = s.0 clear i low under
      place clear i low (inr same) = subst P same p

  closing-Kept :
      (r : ℕ) (stack : List Frame) (marks : Marks)
      → OnlyMarks P marks.remove
      → Stacked P index stack
      → (is_soft r ≡ true → P index)
      → closes r stack ≡ true
      → Kept P (suc index) (close_pair index stack marks)
  unfolding closes
  closing-Kept r [] marks m s soft h = absurd (ground arith)
  closing-Kept r (f ∷ stack) marks m s soft h =
      close_pair-Kept (f ∷ stack) marks m s
        (soft (soft_of_bracket r (closes_bracket r f stack s.2 h)))

  pair_step-Kept :
      (r : ℕ) (marks : Marks) (stack : List Frame)
      → OnlyMarks P marks.remove
      → Stacked P index stack
      → (is_soft r ≡ true → P index)
      → Kept P (suc index) (pair_step index r marks stack)
  unfolding pair_step
  pair_step-Kept r marks stack m s soft =
      if_rule (Kept P (suc index)) (flag marks.remove index)
        (λ e. (m, see_technical-Stacked P (suc index) stack (here-widen stack (m index e) s)))
        (λ e.
          if_rule (Kept P (suc index)) (is_space r)
            (λ e'. (m, here-widen stack (soft (soft_of_space r e')) s))
            (λ e'. opened (technical_pair_close r) refl))
    where
      opened :
          (o : Option ℕ)
          → technical_pair_close r ≡ o
          → Kept P (suc index) (elim o as (λ x. Marks × List Frame) [
            | some close ↦ (
              marks,
              record { opened = index; close = close; has_technical = false; has_visible = false }
                  ∷ stack,
            )
            | none ↦
                if closes r stack then close_pair index stack marks else (marks, see_visible stack)
          ])
      opened (some c) e = (
        m,
        (
          λ clear i low high.
              let same : index ≡ i = omega arith in
              subst P same (soft (soft_of_bracket r (pair-brackets r c e).0)),
          omega arith,
          (pair-brackets r c e).1,
          s,
        ),
      )
      opened none e =
          if_rule (Kept P (suc index)) (closes r stack) (λ h. closing-Kept r stack marks m s soft h)
            (λ h. (m, see_visible-Stacked P index (suc index) stack (omega arith) s))

module _ (P : ℕ → Type 0) where
  pair_loop-OnlyMarks :
      (index : ℕ) (rest : Runes) (marks : Marks) (stack : List Frame)
      → Follows P index rest
      → OnlyMarks P marks.remove
      → Stacked P index stack
      → OnlyMarks P (pair_loop index rest marks stack).remove
  unfolding pair_loop
  pair_loop-OnlyMarks index [] marks stack f m s = m
  pair_loop-OnlyMarks index (r ∷ rest) marks stack f m s =
      let (next, stack') = pair_step index r marks stack in
      let (m', s') = pair_step-Kept P index r marks stack m s f.0 in
      pair_loop-OnlyMarks (suc index) rest next stack' f.1 m' s'

  pub mark_empty_technical_pairs-OnlyMarks :
      (value : Runes) (marks : Marks)
      → Follows P 0 value
      → OnlyMarks P marks.remove
      → OnlyMarks P (mark_empty_technical_pairs value marks).remove
  unfolding mark_empty_technical_pairs
  mark_empty_technical_pairs-OnlyMarks value marks f m = pair_loop-OnlyMarks 0 value marks [] f m tt
