-- ===== src/Torznab/Marks.antt =====
-- The marks of internal/torznab/query.go: which runes of a query are removed with its tokens. There is a
-- mark for each rune, where the source has one for each byte; a rune's bytes are marked together.
pub mod Removable
pub mod Pairs
pub mod Edges
pub mod Growing
use mathlib.Core.List.{reverse}
use anilibria_torznab.Prelude.{
  ℕ, zero, suc, ◌+◌, ◌-◌, Bool, true, false, ◌&&◌, ◌||◌, not, Option, none, some, List, [], ◌∷◌,
  ◌++◌, length, drop, ◌==◌, if◌then◌else◌,
}
use anilibria_torznab.Text.{Runes, is_space}
use anilibria_torznab.Torznab.Tokens.{starts_with, before}

-- A mark; every position that is read is in range.
unfoldable pub flag : List Bool → ℕ → Bool
flag [] i = false
flag (m ∷ marks) zero = m
flag (m ∷ marks) (suc i) = flag marks i

unfoldable pub mark : ℕ → ℕ → List Bool → List Bool
mark skip count [] = []
mark (suc skip) count (m ∷ marks) = m ∷ mark skip count marks
mark zero zero (m ∷ marks) = m ∷ marks
mark zero (suc count) (m ∷ marks) = true ∷ mark zero count marks

-- `markBytes`
unfoldable pub mark_bytes : List Bool → ℕ → ℕ → List Bool
mark_bytes marked start end = mark start (end - start) marked

-- The slices `remove` and `technical`
pub record Marks : Type 0 where
  pub remove : List Bool
  pub technical : List Bool

abbrev pub mark_both : Marks → ℕ → ℕ → Marks
mark_both marks start end = record {
  remove = mark_bytes marks.remove start end;
  technical = mark_bytes marks.technical start end;
}

-- `technicalPairClose`
unfoldable pub technical_pair_close : ℕ → Option ℕ
technical_pair_close r =
    if r == b'('
    then some b')'
    else if r == b'['
    then some b']'
    else if r == b'{'
    then some b'}'
    else none

-- `frame`
pub record Frame : Type 0 where
  pub opened : ℕ
  pub close : ℕ
  pub has_technical : Bool
  pub has_visible : Bool

-- The changes of the frame on top, where there is one; the top is the head.
unfoldable pub see_technical : List Frame → List Frame
see_technical [] = []
see_technical (f ∷ stack) = record f { has_technical = true } ∷ stack

unfoldable pub see_visible : List Frame → List Frame
see_visible [] = []
see_visible (f ∷ stack) = record f { has_visible = true } ∷ stack

unfoldable pub see_pair : Frame → List Frame → List Frame
see_pair current [] = []
see_pair current (f ∷ stack) =
    record f { has_visible = true; has_technical = f.has_technical || current.has_technical }
    ∷ stack

unfoldable pub closes : ℕ → List Frame → Bool
closes r [] = false
closes r (f ∷ stack) = r == f.close

unfoldable pub close_pair : ℕ → List Frame → Marks → Marks × List Frame
close_pair index [] marks = (marks, [])
close_pair index (current ∷ stack) marks =
    if current.has_technical && not current.has_visible
    then (mark_both marks current.opened (index + 1), see_technical stack)
    else (marks, see_pair current stack)

-- One round of `markEmptyTechnicalPairs`
unfoldable pub pair_step : ℕ → ℕ → Marks → List Frame → Marks × List Frame
pair_step index r marks stack =
    if flag marks.remove index
    then (marks, see_technical stack)
    else if is_space r
    then (marks, stack)
    else elim (technical_pair_close r) [
      | some close ↦ (
        marks,
        record { opened = index; close = close; has_technical = false; has_visible = false }
            ∷ stack,
      )
      | none ↦ if closes r stack then close_pair index stack marks else (marks, see_visible stack)
    ]

unfoldable pub pair_loop : ℕ → Runes → Marks → List Frame → Marks
pair_loop index [] marks stack = marks
pair_loop index (r ∷ rest) marks stack =
    let (next, stack') = pair_step index r marks stack in pair_loop (suc index) rest next stack'

-- `markEmptyTechnicalPairs`
unfoldable pub mark_empty_technical_pairs : Runes → Marks → Marks
mark_empty_technical_pairs value marks = pair_loop 0 value marks []

-- `isTokenSeparator`: one of `-–—_|/,:;.`
unfoldable pub is_token_separator : ℕ → Bool
is_token_separator r =
    r == b'-'
    || (r == 0x2013
        || (r == 0x2014
            || (r == b'_'
                || (r == b'|'
                    || (r == b'/' || (r == b',' || (r == b':' || (r == b';' || r == b'.'))))))))

-- The separators that are met before the first rune that stays, and whether a technical one was met
pub record Edge : Type 0 where
  pub separators : List ℕ
  pub saw_technical : Bool

-- The scan from the left
unfoldable pub leading_edge : Marks → ℕ → Runes → Edge → Edge
leading_edge marks index [] edge = edge
leading_edge marks index (r ∷ rest) edge = elim (flag marks.remove index) [
  | true ↦
      leading_edge marks (suc index) rest
        (record edge { saw_technical = edge.saw_technical || flag marks.technical index })
  | false ↦ elim (is_space r) [
    | true ↦ leading_edge marks (suc index) rest edge
    | false ↦ elim (is_token_separator r) [
      | true ↦
          leading_edge marks (suc index) rest
            (record edge { separators = edge.separators ++ index ∷ [] })
      | false ↦ edge
    ]
  ]
]

-- The scan from the right, on the runes from the last one: the position is how many are left behind it.
unfoldable pub trailing_edge : Marks → Runes → Edge → Edge
trailing_edge marks [] edge = edge
trailing_edge marks (r ∷ rest) edge =
    let index = length rest in
    elim (flag marks.remove index) [
      | true ↦
          trailing_edge marks rest
            (record edge { saw_technical = edge.saw_technical || flag marks.technical index })
      | false ↦ elim (is_space r) [
        | true ↦ trailing_edge marks rest edge
        | false ↦ elim (is_token_separator r) [
          | true ↦
              trailing_edge marks rest (record edge { separators = edge.separators ++ index ∷ [] })
          | false ↦ edge
        ]
      ]
    ]

-- `leadingSeparatorBelongsToTitle`, at the position of a separator
unfoldable pub leading_separator_belongs_to_title : Runes → ℕ → Bool
leading_separator_belongs_to_title value at =
    if at == 0 || at + 1 == length value
    then false
    else starts_with is_space (before value at) && not (starts_with is_space (drop (at + 1) value))

-- `trailingSeparatorBelongsToTitle`
unfoldable pub trailing_separator_belongs_to_title : Runes → ℕ → Bool
trailing_separator_belongs_to_title value at =
    if at == 0 || at + 1 == length value
    then false
    else not (starts_with is_space (before value at)) && starts_with is_space (drop (at + 1) value)

-- The loop over the separators: only the last one may belong to the title.
unfoldable pub mark_separators : (ℕ → Bool) → List ℕ → List Bool → List Bool
mark_separators belongs [] remove = remove
mark_separators belongs (at ∷ []) remove =
    if belongs at then remove else mark_bytes remove at (at + 1)
mark_separators belongs (at ∷ next ∷ more) remove =
    mark_separators belongs (next ∷ more) (mark_bytes remove at (at + 1))

unfoldable pub mark_edge : (ℕ → Bool) → Edge → Marks → Marks
mark_edge belongs edge marks =
    if edge.saw_technical
    then record marks { remove = mark_separators belongs edge.separators marks.remove }
    else marks

abbrev pub no_edge : Edge
no_edge = record { separators = []; saw_technical = false }

-- `markTechnicalEdgeSeparators`
unfoldable pub mark_technical_edge_separators : Runes → Marks → Marks
mark_technical_edge_separators value marks =
    let led =
      mark_edge (leading_separator_belongs_to_title value) (leading_edge marks 0 value no_edge)
        marks in
    mark_edge (trailing_separator_belongs_to_title value)
      (trailing_edge led (reverse value) no_edge) led
