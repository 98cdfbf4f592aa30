-- ===== src/Torznab/Marks/Growing.antt =====
-- A mark stays once it is set.
use mathlib.Core.List.{reverse}
use anilibria_torznab.Prelude.{
  ℕ, zero, suc, ◌+◌, ◌-◌, ◌≤◌, ◌<◌, ◌≡◌, refl, ap, Bool, true, false, ◌&&◌, not, Option, none, some,
  List, [], ◌∷◌, length, if◌then◌else◌, if_rule, arith,
}
use anilibria_torznab.Text.{Runes, is_space}
use anilibria_torznab.Torznab.Marks.{
  flag, mark, mark_bytes, Marks, technical_pair_close, Frame, see_visible, closes, close_pair,
  pair_step, pair_loop, mark_empty_technical_pairs, Edge, leading_edge, trailing_edge,
  leading_separator_belongs_to_title, trailing_separator_belongs_to_title, mark_separators,
  mark_edge, no_edge, mark_technical_edge_separators,
}

flag-mark_kept :
    (skip count i : ℕ) (marks : List Bool)
    → flag marks i ≡ true
    → flag (mark skip count marks) i ≡ true
unfolding flag mark
flag-mark_kept skip count i [] h = h
flag-mark_kept (suc skip) count zero (m ∷ marks) h = h
flag-mark_kept (suc skip) count (suc i) (m ∷ marks) h = flag-mark_kept skip count i marks h
flag-mark_kept zero zero i (m ∷ marks) h = h
flag-mark_kept zero (suc count) zero (m ∷ marks) h = refl
flag-mark_kept zero (suc count) (suc i) (m ∷ marks) h = flag-mark_kept zero count i marks h

flag-mark_set :
    (skip count i : ℕ) (marks : List Bool)
    → skip ≤ i
    → i < skip + count
    → i < length marks
    → flag (mark skip count marks) i ≡ true
unfolding flag mark
flag-mark_set skip count i [] low high h = absurd (omega arith)
flag-mark_set (suc skip) count zero (m ∷ marks) low high h = absurd (omega arith)
flag-mark_set (suc skip) count (suc i) (m ∷ marks) low high h =
    flag-mark_set skip count i marks (omega arith) (omega arith) (omega arith)
flag-mark_set zero zero i (m ∷ marks) low high h = absurd (omega arith)
flag-mark_set zero (suc count) zero (m ∷ marks) low high h = refl
flag-mark_set zero (suc count) (suc i) (m ∷ marks) low high h =
    flag-mark_set zero count i marks (omega arith) (omega arith) (omega arith)

length-mark : (skip count : ℕ) (marks : List Bool) → length (mark skip count marks) ≡ length marks
unfolding mark
length-mark skip count [] = refl
length-mark (suc skip) count (m ∷ marks) = ap suc (length-mark skip count marks)
length-mark zero zero (m ∷ marks) = refl
length-mark zero (suc count) (m ∷ marks) = ap suc (length-mark zero count marks)

pub length-mark_bytes :
    (marks : List Bool) (start end : ℕ) → length (mark_bytes marks start end) ≡ length marks
unfolding mark_bytes
length-mark_bytes marks start end = length-mark start (end - start) marks

pub flag-mark_bytes_kept :
    (marks : List Bool) (start end i : ℕ)
    → flag marks i ≡ true
    → flag (mark_bytes marks start end) i ≡ true
unfolding mark_bytes
flag-mark_bytes_kept marks start end i h = flag-mark_kept start (end - start) i marks h

pub flag-mark_bytes_set :
    (marks : List Bool) (start end i : ℕ)
    → start ≤ i
    → i < end
    → i < length marks
    → flag (mark_bytes marks start end) i ≡ true
unfolding mark_bytes
flag-mark_bytes_set marks start end i low high h =
    flag-mark_set start (end - start) i marks low (omega arith) h

-- A place that is marked
module _ (i : ℕ) where
  abbrev Stays : List Bool → Type 0
  Stays marks = flag marks i ≡ true

  close_pair-set :
      (index : ℕ) (stack : List Frame) (marks : Marks)
      → Stays marks.remove
      → Stays (close_pair index stack marks).0.remove
  unfolding close_pair
  close_pair-set index [] marks h = h
  close_pair-set index (current ∷ stack) marks h =
      if_rule (λ (x : Marks × List Frame). Stays x.0.remove)
        (current.has_technical && not current.has_visible)
        (λ e. flag-mark_bytes_kept marks.remove current.opened (index + 1) i h) (λ e. h)

  pair_step-set :
      (index r : ℕ) (marks : Marks) (stack : List Frame)
      → Stays marks.remove
      → Stays (pair_step index r marks stack).0.remove
  unfolding pair_step
  pair_step-set index r marks stack h =
      let Good : Marks × List Frame → Type 0 = λ x. Stays x.0.remove in
      if_rule Good (flag marks.remove index) (λ e. h)
        (λ e. if_rule Good (is_space r) (λ e'. h) (λ e'. opened (technical_pair_close r)))
    where
      opened :
          (o : Option ℕ)
          → Stays
              (elim o as (λ x. Marks × List Frame) [
                | some close ↦ (
                  marks,
                  record {
                    opened = index;
                    close = close;
                    has_technical = false;
                    has_visible = false;
                  }
                      ∷ stack,
                )
                | none ↦
                    if closes r stack
                    then close_pair index stack marks
                    else (marks, see_visible stack)
              ]).0.remove
      opened (some c) = h
      opened none =
          if_rule (λ (x : Marks × List Frame). Stays x.0.remove) (closes r stack)
            (λ e. close_pair-set index stack marks h) (λ e. h)

  pair_loop-set :
      (index : ℕ) (rest : Runes) (marks : Marks) (stack : List Frame)
      → Stays marks.remove
      → Stays (pair_loop index rest marks stack).remove
  unfolding pair_loop
  pair_loop-set index [] marks stack h = h
  pair_loop-set index (r ∷ rest) marks stack h =
      let (next, stack') = pair_step index r marks stack in
      pair_loop-set (suc index) rest next stack' (pair_step-set index r marks stack h)

  mark_separators-set :
      (belongs : ℕ → Bool) (separators : List ℕ) (remove : List Bool)
      → Stays remove
      → Stays (mark_separators belongs separators remove)
  unfolding mark_separators
  mark_separators-set belongs [] remove h = h
  mark_separators-set belongs (at ∷ []) remove h =
      if_rule Stays (belongs at) (λ e. h) (λ e. flag-mark_bytes_kept remove at (at + 1) i h)
  mark_separators-set belongs (at ∷ next ∷ more) remove h =
      mark_separators-set belongs (next ∷ more) (mark_bytes remove at (at + 1))
        (flag-mark_bytes_kept remove at (at + 1) i h)

  mark_edge-set :
      (belongs : ℕ → Bool) (edge : Edge) (marks : Marks)
      → Stays marks.remove
      → Stays (mark_edge belongs edge marks).remove
  unfolding mark_edge
  mark_edge-set belongs edge marks h =
      if_rule (λ (x : Marks). Stays x.remove) edge.saw_technical
        (λ e. mark_separators-set belongs edge.separators marks.remove h) (λ e. h)

  pub mark_empty_technical_pairs-set :
      (value : Runes) (marks : Marks)
      → flag marks.remove i ≡ true
      → flag (mark_empty_technical_pairs value marks).remove i ≡ true
  unfolding mark_empty_technical_pairs
  mark_empty_technical_pairs-set value marks h = pair_loop-set 0 value marks [] h

  pub mark_technical_edge_separators-set :
      (value : Runes) (marks : Marks)
      → flag marks.remove i ≡ true
      → flag (mark_technical_edge_separators value marks).remove i ≡ true
  unfolding mark_technical_edge_separators
  mark_technical_edge_separators-set value marks h =
      let led =
        mark_edge (leading_separator_belongs_to_title value) (leading_edge marks 0 value no_edge)
          marks in
      mark_edge-set (trailing_separator_belongs_to_title value)
        (trailing_edge led (reverse value) no_edge) led
        (mark_edge-set (leading_separator_belongs_to_title value)
          (leading_edge marks 0 value no_edge) marks h)
