-- ===== src/Torznab/Marks/Removable.antt =====
-- What the marks of a query may be set on.
use mathlib.Core.List.{reverse_aux}
use anilibria_torznab.Prelude.{
  ℕ, zero, suc, ◌+◌, ◌-◌, ◌≤◌, ◌<◌, ◌≡◌, ◌⊎◌, inl, inr, Bool, true, false, ◌||◌, List, [], ◌∷◌,
  length, ◌==◌, Bool-cases, arith,
}
use anilibria_torznab.Text.{Runes, is_space}
use anilibria_torznab.Torznab.Marks.{
  flag, mark, mark_bytes, Marks, Frame, see_technical, see_visible, see_pair, is_token_separator,
}

unfoldable pub is_bracket : ℕ → Bool
is_bracket r = r == b'(' || (r == b')' || (r == b'[' || (r == b']' || (r == b'{' || r == b'}'))))

-- A rune that does not belong to a word
unfoldable pub is_soft : ℕ → Bool
is_soft r = is_space r || (is_bracket r || is_token_separator r)

pub soft_of_space : (r : ℕ) → is_space r ≡ true → is_soft r ≡ true
unfolding is_soft
soft_of_space r h = ground arith

pub soft_of_bracket : (r : ℕ) → is_bracket r ≡ true → is_soft r ≡ true
unfolding is_soft
soft_of_bracket r h = elim (Bool-cases (is_space r)) [ inl e ↦ ground arith | inr e ↦ ground arith ]

pub soft_of_separator : (r : ℕ) → is_token_separator r ≡ true → is_soft r ≡ true
unfolding is_soft
soft_of_separator r h = elim (Bool-cases (is_space r)) [
  | inl e ↦ ground arith
  | inr e ↦ ground arith
]

flag-mark :
    (skip count i : ℕ) (marks : List Bool)
    → flag (mark skip count marks) i ≡ true
    → (flag marks i ≡ true) ⊎ ((skip ≤ i) × (i < skip + count))
unfolding flag mark
flag-mark skip count i [] h = absurd (ground arith)
flag-mark (suc skip) count zero (m ∷ marks) h = inl h
flag-mark (suc skip) count (suc i) (m ∷ marks) h = ground (arith, flag-mark skip count i marks)
flag-mark zero zero zero (m ∷ marks) h = inl h
flag-mark zero zero (suc i) (m ∷ marks) h = inl h
flag-mark zero (suc count) zero (m ∷ marks) h = inr (omega arith, omega arith)
flag-mark zero (suc count) (suc i) (m ∷ marks) h = ground (arith, flag-mark zero count i marks)

-- `P` is what is known of the places that are marked.
module _ (P : ℕ → Type 0) where
  abbrev pub OnlyMarks : List Bool → Type 0
  OnlyMarks marks = (i : ℕ) → flag marks i ≡ true → P i

  -- The runes that do not belong to a word may be marked, from a position on.
  abbrev pub Follows : ℕ → Runes → Type 0
  Follows index [] = Unit
  Follows index (r ∷ rest) = (is_soft r ≡ true → P index) × Follows (suc index) rest

  -- The same of the runes from the last one
  abbrev pub Precedes : Runes → Type 0
  Precedes [] = Unit
  Precedes (r ∷ rest) = (is_soft r ≡ true → P (length rest)) × Precedes rest

  pub Precedes-reverse_aux :
      (value before : Runes)
      → Follows (length before) value
      → Precedes before
      → Precedes (reverse_aux value before)
  Precedes-reverse_aux [] before f p = p
  Precedes-reverse_aux (r ∷ rest) before f p = Precedes-reverse_aux rest (r ∷ before) f.1 (f.0, p)

  pub mark_bytes-OnlyMarks :
      (marks : List Bool) (start end : ℕ)
      → OnlyMarks marks
      → ((i : ℕ) → start ≤ i → i < end → P i)
      → OnlyMarks (mark_bytes marks start end)
  unfolding mark_bytes
  mark_bytes-OnlyMarks marks start end old new i h = from (flag-mark start (end - start) i marks h)
    where
      from : (flag marks i ≡ true) ⊎ ((start ≤ i) × (i < start + (end - start))) → P i
      from (inl was) = old i was
      from (inr (low, high)) = new i low (omega arith)

  -- Where nothing visible was met since a frame was opened, all may be marked.
  abbrev pub Stacked : ℕ → List Frame → Type 0
  Stacked upper [] = Unit
  Stacked upper (f ∷ stack) =
      (f.has_visible ≡ false → (i : ℕ) → f.opened ≤ i → i < upper → P i)
      × (f.opened < upper)
      × (is_bracket f.close ≡ true)
      × Stacked f.opened stack

  pub Stacked-widen :
      (a b : ℕ) (stack : List Frame)
      → a ≤ b
      → ((i : ℕ) → a ≤ i → i < b → P i)
      → Stacked a stack
      → Stacked b stack
  Stacked-widen a b [] h new s = tt
  Stacked-widen a b (f ∷ stack) h new s =
      (λ clear i low high. reach clear i low high (i_cases i), omega arith, s.2, s.3)
    where
      i_cases : (i : ℕ) → (i < a) ⊎ (a ≤ i)
      i_cases i = ground arith

      reach : f.has_visible ≡ false → (i : ℕ) → f.opened ≤ i → i < b → (i < a) ⊎ (a ≤ i) → P i
      reach clear i low high (inl under) = s.0 clear i low under
      reach clear i low high (inr over) = new i over high

  pub see_technical-Stacked :
      (upper : ℕ) (stack : List Frame) → Stacked upper stack → Stacked upper (see_technical stack)
  unfolding see_technical
  see_technical-Stacked upper [] s = tt
  see_technical-Stacked upper (f ∷ stack) s = s

  pub see_visible-Stacked :
      (a b : ℕ) (stack : List Frame) → a ≤ b → Stacked a stack → Stacked b (see_visible stack)
  unfolding see_visible
  see_visible-Stacked a b [] h s = tt
  see_visible-Stacked a b (f ∷ stack) h s = (λ seen. absurd (ground arith), omega arith, s.2, s.3)

  pub see_pair-Stacked :
      (current : Frame) (a b : ℕ) (stack : List Frame)
      → a ≤ b
      → Stacked a stack
      → Stacked b (see_pair current stack)
  unfolding see_pair
  see_pair-Stacked current a b [] h s = tt
  see_pair-Stacked current a b (f ∷ stack) h s =
      (λ seen. absurd (ground arith), omega arith, s.2, s.3)

  -- The marks and the frames after a step
  abbrev pub Kept : ℕ → Marks × List Frame → Type 0
  Kept upper (marks, stack) = OnlyMarks marks.remove × Stacked upper stack
