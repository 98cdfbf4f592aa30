-- ===== src/Torznab/Query/Cleaning.antt =====
-- The clean query against the query that it comes from.
use anilibria_torznab.Prelude.{
  ℕ, zero, suc, ◌≡◌, refl, sym, ap, ◌∙◌, subst, Bool, true, false, Option, List, [], ◌∷◌, length,
  ltb, All, if_rule, arith,
}
use anilibria_torznab.Text.{Bytes, Runes, encode, decode}
use anilibria_torznab.Text.Regexp.{find_all}
use anilibria_torznab.Text.Regexp.Search.{find_all-LiesIn}
use anilibria_torznab.Torznab.Parameter.{season, episode}
use anilibria_torznab.Torznab.Tokens.{Unicode, max_season, max_episode, query_token}
use anilibria_torznab.Torznab.Marks.{flag, mark_empty_technical_pairs}
use anilibria_torznab.Torznab.Marks.Removable.{OnlyMarks}
use anilibria_torznab.Torznab.Marks.Pairs.{mark_empty_technical_pairs-OnlyMarks}
use anilibria_torznab.Torznab.Marks.Edges.{mark_technical_edge_separators-OnlyMarks}
use anilibria_torznab.Torznab.Marks.Growing.{
  mark_empty_technical_pairs-set, mark_technical_edge_separators-set,
}
use anilibria_torznab.Torznab.Query.{
  NormalizedQuery, Checked, checked, incorrect, max_query_bytes, parse_explicit_filter, State,
  take_tokens, no_marks, first_state, final_marks, join_words, normalized, normalize_query,
}
use anilibria_torznab.Torznab.Query.Filters.{Ensures, Ensures-bind}
use anilibria_torznab.Torznab.Query.Words.{
  visible, kept, IsWord, words_of, clean-join_words, words_of-IsWord, visible-clean,
}
use anilibria_torznab.Torznab.Query.Removal.{
  IsToken, InToken, IsRemovable, value-Follows, IsTaken, take_tokens-IsTaken,
}

-- The words of a clean query, and the marks of the runes that were taken out: on every complete token,
-- and otherwise on spaces, brackets and separators alone. What is left is the words' runes.
pub record IsCleanOf (u : Unicode) (value : Runes) (words : List Runes) (marks : List Bool)
    : Type 0 where
  pub tokens_removed : (i : ℕ) → InToken u value i → flag marks i ≡ true
  pub words_stay : (i : ℕ) → flag marks i ≡ true → IsRemovable u value i
  pub are_words : All IsWord words
  pub same_runes : visible (join_words words) ≡ visible (kept value marks)

flag-no_marks : (value : Runes) (i : ℕ) → flag (no_marks value) i ≡ false
unfolding flag no_marks
flag-no_marks [] i = refl
flag-no_marks (r ∷ rest) zero = refl
flag-no_marks (r ∷ rest) (suc i) = flag-no_marks rest i

length-no_marks : (value : Runes) → length (no_marks value) ≡ length value
unfolding no_marks
length-no_marks [] = refl
length-no_marks (r ∷ rest) = ap suc (length-no_marks rest)

module _ (u : Unicode) (value : Runes) where
  Clean : NormalizedQuery → Type 0
  Clean n =
      (words : List Runes) × (marks : List Bool) × (n.clean_query ≡ encode (join_words words))
      × IsCleanOf u value words marks

  state-Clean :
      (own_season own_episode : Option ℕ) (s : State)
      → IsTaken u value (find_all query_token value) (first_state value own_season own_episode) s
      → Clean (normalized value s)
  unfolding Clean normalized first_state final_marks InToken IsToken
  state-Clean own_season own_episode s taken =
      let marks = (final_marks value s.marks).remove in
      let follows = value-Follows u value in
      let fresh : OnlyMarks (IsRemovable u value) (no_marks value) =
        λ i h. absurd (let e = flag-no_marks value i in cc) in
      (
        words_of value marks,
        marks,
        ap encode (clean-join_words value marks),
        record {
          tokens_removed = λ i (m, (o, complete), low, high).
              mark_technical_edge_separators-set i value (mark_empty_technical_pairs value s.marks)
                (mark_empty_technical_pairs-set i value s.marks (
                  taken.covered m o complete i low high (
                    let l = find_all-LiesIn query_token value m o in
                    let n = length-no_marks value in omega arith)));
          words_stay =
              mark_technical_edge_separators-OnlyMarks (IsRemovable u value) value
                (mark_empty_technical_pairs value s.marks) follows
                (mark_empty_technical_pairs-OnlyMarks (IsRemovable u value) value s.marks follows
                  (taken.only fresh));
          are_words = words_of-IsWord value marks;
          same_runes = ap visible (sym (clean-join_words value marks)) ∙ visible-clean value marks;
        },
      )

-- The clean query of a query that is accepted is some words with one space between them. Their runes are
-- those of the query, in its order, without spaces and without the runes that are taken out: every
-- complete token is taken out, and beside them nothing but spaces, brackets and separators.
pub normalize_query-IsCleanOf :
    (u : Unicode) (raw : Bytes) (explicit_season explicit_episode : Option Bytes)
    (n : NormalizedQuery)
    → normalize_query u raw explicit_season explicit_episode ≡ checked n
    → (words : List Runes) × (marks : List Bool) × (n.clean_query ≡ encode (join_words words))
      × IsCleanOf u (decode raw) words marks
unfolding normalize_query Clean
normalize_query-IsCleanOf u raw es ee n h = subst (Ensures Good) h (
    if_rule (Ensures Good) (ltb max_query_bytes (length raw)) (λ e. tt)
      (λ e.
        Ensures-bind (λ x. Unit {0}) Good (parse_explicit_filter es b's' max_season season) _
          (no_claim (parse_explicit_filter es b's' max_season season))
          λ own_season a.
            Ensures-bind (λ x. Unit {0}) Good (parse_explicit_filter ee b'e' max_episode episode) _
              (no_claim (parse_explicit_filter ee b'e' max_episode episode))
              λ own_episode b.
                let value = decode raw in
                let first = first_state value own_season own_episode in
                Ensures-bind (IsTaken u value (find_all query_token value) first) Good
                  (take_tokens u value (find_all query_token value) first) _
                  (take_tokens-IsTaken u value (find_all query_token value) first (λ m o. o))
                  λ s taken. state-Clean u value own_season own_episode s taken))
  where
    Good : NormalizedQuery → Type 0
    Good = Clean u (decode raw)

    no_claim : (r : Checked (Option ℕ)) → Ensures (λ x. Unit {0}) r
    no_claim (checked x) = tt
    no_claim (incorrect x) = tt
