-- ===== src/Tests/QueryRuns.antt =====
-- Queries and titles on small inputs.
use anilibria_torznab.Prelude.{
  ◌||◌, ◌&&◌, leb, ◌++◌, ◌≡◌, refl, Bool, true, none, some, List, [], ◌∷◌, arith,
}
use anilibria_torznab.Text.{
  Runes, folds, codes, encode, decode, rune_values, trim_runes, skip_space, is_space, parse_uint,
  runes,
}
use anilibria_torznab.Torznab.Category.{tv}
use anilibria_torznab.Text.Regexp.{
  find_all, find_all_from, find, find_from, match_at, run, regexp_whitespace, submatch,
}
use anilibria_torznab.Torznab.Tokens.{
  Unicode, complete_token, starts_with, unsupported_numeric_continuation,
  has_numeric_continuation_after, numeric_continuation_before, sign_follows, parse_query_token,
  season_only,
}
use anilibria_torznab.Torznab.Marks.{
  mark_empty_technical_pairs, pair_loop, pair_step, mark_technical_edge_separators, leading_edge,
  trailing_edge, mark_edge, flag, mark, mark_bytes, mark_separators, see_technical,
}
use anilibria_torznab.Torznab.Query.{
  NormalizedQuery, checked, normalize_query, parse_explicit_filter, take_tokens, take_token, absorb,
  agree, first_state, no_marks, normalized, clean, clean_loop, collapse_whitespace, fields,
  join_words, final_marks, write,
}
use anilibria_torznab.Torznab.Labels.{season_text, episodes_text}
use anilibria_torznab.Torznab.Title.{bounded_positive_integer}
use anilibria_torznab.Torznab.Category.{tv}
use anilibria_torznab.Torznab.Query.Filters.{IsFiltered, normalize_query-IsFiltered}
use anilibria_torznab.Torznab.Query.Cleaning.{IsCleanOf, normalize_query-IsCleanOf}
use anilibria_torznab.Torznab.Query.Rendered.{normalize_query-rendered}

-- The letters and digits of ASCII
abbrev pub ascii : Unicode
ascii = record {
  letter = λ r. (leb b'a' r && leb r b'z') || (leb b'A' r && leb r b'Z');
  digit = λ r. leb b'0' r && leb r b'9';
}

-- A query that is nothing but a token
pub normalized_token :
    normalize_query ascii (codes "S02") none none
    ≡ checked (record {
      clean_query = [];
      effective_season = some 2;
      effective_episode = none;
      had_technical_tokens = true;
    })
unfolding normalize_query parse_explicit_filter take_tokens take_token absorb agree first_state
    no_marks normalized clean clean_loop collapse_whitespace fields join_words final_marks write
    mark_empty_technical_pairs pair_loop pair_step mark_technical_edge_separators leading_edge
    trailing_edge mark_edge flag mark mark_bytes mark_separators see_technical encode decode
    rune_values runes trim_runes skip_space is_space find_all find_all_from find find_from match_at
    run folds regexp_whitespace submatch complete_token starts_with unsupported_numeric_continuation
    has_numeric_continuation_after numeric_continuation_before sign_follows parse_query_token
    season_only bounded_positive_integer parse_uint
normalized_token = refl

normalize_query-IsFiltered_example : IsFiltered none none (record {
  clean_query = [];
  effective_season = some 2;
  effective_episode = none;
  had_technical_tokens = true;
})
normalize_query-IsFiltered_example =
    normalize_query-IsFiltered ascii (codes "S02") none none _ normalized_token

normalize_query-IsCleanOf_example :
    (words : List Runes) × (marks : List Bool) × ([] ≡ encode (join_words words))
    × IsCleanOf ascii (decode (codes "S02")) words marks
normalize_query-IsCleanOf_example =
    normalize_query-IsCleanOf ascii (codes "S02") none none
      (record {
        clean_query = [];
        effective_season = some 2;
        effective_episode = none;
        had_technical_tokens = true;
      })
      normalized_token

normalize_query-rendered_example :
    (text : Runes) × (season_text (some 2) ++ episodes_text (some (record { start = 5; end = 5 }))
      ≡ b' ' ∷ text)
    × ((n : NormalizedQuery) × (normalize_query ascii text none none ≡ checked n)
        × (n.effective_season ≡ some 2)
        × (n.effective_episode ≡ some 5)
        × (n.had_technical_tokens ≡ true)
        × (n.clean_query ≡ []))
normalize_query-rendered_example =
    normalize_query-rendered ascii 2 5 (omega arith) (omega arith) (omega arith) (omega arith)
