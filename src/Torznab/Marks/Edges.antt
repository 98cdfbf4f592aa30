-- ===== src/Torznab/Marks/Edges.antt =====
-- `markTechnicalEdgeSeparators` marks nothing that belongs to a word.
use mathlib.Core.List.{reverse}
use anilibria_torznab.Prelude.{
  ℕ, suc, ◌+◌, ◌≡◌, subst, Bool, List, [], ◌∷◌, length, All, All-append, if_rule, elim_rule, arith,
}
use anilibria_torznab.Text.{Runes, is_space}
use anilibria_torznab.Torznab.Marks.{
  flag, Marks, mark_bytes, is_token_separator, Edge, leading_edge, trailing_edge,
  leading_separator_belongs_to_title, trailing_separator_belongs_to_title, mark_separators,
  mark_edge, no_edge, mark_technical_edge_separators,
}
use anilibria_torznab.Torznab.Marks.Removable.{
  soft_of_separator, OnlyMarks, Follows, Precedes, Precedes-reverse_aux, mark_bytes-OnlyMarks,
}

module _ (P : ℕ → Type 0) where
  abbrev Good : Edge → Type 0
  Good edge = All P edge.separators

  leading_edge-All :
      (marks : Marks) (index : ℕ) (rest : Runes) (edge : Edge)
      → Follows P index rest
      → All P edge.separators
      → All P (leading_edge marks index rest edge).separators
  unfolding leading_edge
  leading_edge-All marks index [] edge f a = a
  leading_edge-All marks index (r ∷ rest) edge f a =
      elim_rule Good (flag marks.remove index)
        (λ e. leading_edge-All marks (suc index) rest _ f.1 a)
        (λ e.
          elim_rule Good (is_space r) (λ e'. leading_edge-All marks (suc index) rest edge f.1 a)
            (λ e'.
              elim_rule Good (is_token_separator r)
                (λ e''.
                  leading_edge-All marks (suc index) rest _ f.1 (
                    All-append P edge.separators (index ∷ []) a
                      (f.0 (soft_of_separator r e''), tt)))
                (λ e''. a)))

  trailing_edge-All :
      (marks : Marks) (rest : Runes) (edge : Edge)
      → Precedes P rest
      → All P edge.separators
      → All P (trailing_edge marks rest edge).separators
  unfolding trailing_edge
  trailing_edge-All marks [] edge f a = a
  trailing_edge-All marks (r ∷ rest) edge f a =
      elim_rule Good (flag marks.remove (length rest)) (λ e. trailing_edge-All marks rest _ f.1 a)
        (λ e.
          elim_rule Good (is_space r) (λ e'. trailing_edge-All marks rest edge f.1 a)
            (λ e'.
              elim_rule Good (is_token_separator r)
                (λ e''. trailing_edge-All marks rest _ f.1 (
                  All-append P edge.separators (length rest ∷ []) a
                    (f.0 (soft_of_separator r e''), tt)))
                (λ e''. a)))

  mark_one :
      (at : ℕ) (remove : List Bool)
      → P at
      → OnlyMarks P remove
      → OnlyMarks P (mark_bytes remove at (at + 1))
  mark_one at remove p m =
      mark_bytes-OnlyMarks P remove at (at + 1) m
        (λ i low high. let e : at ≡ i = omega arith in subst P e p)

  mark_separators-OnlyMarks :
      (belongs : ℕ → Bool) (separators : List ℕ) (remove : List Bool)
      → All P separators
      → OnlyMarks P remove
      → OnlyMarks P (mark_separators belongs separators remove)
  unfolding mark_separators
  mark_separators-OnlyMarks belongs [] remove a m = m
  mark_separators-OnlyMarks belongs (at ∷ []) remove a m =
      if_rule (OnlyMarks P) (belongs at) (λ e. m) (λ e. mark_one at remove a.0 m)
  mark_separators-OnlyMarks belongs (at ∷ next ∷ more) remove a m =
      mark_separators-OnlyMarks belongs (next ∷ more) (mark_bytes remove at (at + 1)) a.1
        (mark_one at remove a.0 m)

  mark_edge-OnlyMarks :
      (belongs : ℕ → Bool) (edge : Edge) (marks : Marks)
      → All P edge.separators
      → OnlyMarks P marks.remove
      → OnlyMarks P (mark_edge belongs edge marks).remove
  unfolding mark_edge
  mark_edge-OnlyMarks belongs edge marks a m =
      if_rule (λ (x : Marks). OnlyMarks P x.remove) edge.saw_technical
        (λ e. mark_separators-OnlyMarks belongs edge.separators marks.remove a m) (λ e. m)

  pub mark_technical_edge_separators-OnlyMarks :
      (value : Runes) (marks : Marks)
      → Follows P 0 value
      → OnlyMarks P marks.remove
      → OnlyMarks P (mark_technical_edge_separators value marks).remove
  unfolding mark_technical_edge_separators
  mark_technical_edge_separators-OnlyMarks value marks f m =
      let led =
        mark_edge (leading_separator_belongs_to_title value) (leading_edge marks 0 value no_edge)
          marks in
      mark_edge-OnlyMarks (trailing_separator_belongs_to_title value)
        (trailing_edge led (reverse value) no_edge) led
        (trailing_edge-All led (reverse value) no_edge (Precedes-reverse_aux P value [] f tt) tt)
        (mark_edge-OnlyMarks (leading_separator_belongs_to_title value)
          (leading_edge marks 0 value no_edge) marks (leading_edge-All marks 0 value no_edge f tt)
          m)
