-- ===== src/Torznab/Query/Rendered.antt =====
-- The season and episode that a title is rendered with, read back by `NormalizeQuery` of
-- internal/torznab/query.go.
use anilibria_torznab.Prelude.{
  All, List, sym, subst, Bool, inl, ◌<◌, suc, ◌<◌, ℕ, ◌-◌, ◌≤◌, ◌≡◌, refl, ap, ap₂, ◌∙◌, true,
  false, none, some, [], ◌∷◌, ◌++◌, length, length-append, drop, take_of_length-le, All-append, ltb,
  if_false, arith,
}
use anilibria_torznab.Text.{encode, Bytes, Runes, show_padded, skip_space}
use anilibria_torznab.Text.Ascii.{IsAscii, decode-ascii}
use anilibria_torznab.Text.Decimal.Show.{show_padded-length}
use anilibria_torznab.Text.Regexp.{Match, find_all}
use anilibria_torznab.Torznab.Labels.{season_text, episodes_text}
use anilibria_torznab.Torznab.Tokens.{
  Unicode, max_season, max_episode, query_token, slice, complete_token, starts_with, sign_follows,
  has_numeric_continuation_after, numeric_continuation_before, unsupported_numeric_continuation,
  Token, parse_query_token,
}
use anilibria_torznab.Torznab.Tokens.Reading.{IsDigits, IsNumber, token}
use anilibria_torznab.Torznab.Tokens.Rendered.{padded, rendered-token, parse-token}
use anilibria_torznab.Torznab.Tokens.Matching.{query_token-token}
use anilibria_torznab.Torznab.Marks.{mark_both, flag}
use anilibria_torznab.Text.Regexp.Search.{Occurs}
use anilibria_torznab.Torznab.Query.Words.{visible, kept, IsWord}
use anilibria_torznab.Torznab.Query.Removal.{IsToken, InToken}
use anilibria_torznab.Torznab.Query.Cleaning.{IsCleanOf, normalize_query-IsCleanOf}
use anilibria_torznab.Torznab.Query.{
  join_words, NormalizedQuery, checked, ◌>>=◌, State, first_state, agree, absorb, take_token,
  take_tokens, normalized, parse_explicit_filter, max_query_bytes, normalize_query,
}

drop_all : (text : Runes) → drop (length text) text ≡ []
drop_all [] = refl
drop_all (x ∷ text) = drop_all text

complete_token_whole : (u : Unicode) (text : Runes) → complete_token u text 0 (length text) ≡ true
unfolding complete_token starts_with
complete_token_whole u text = rw (drop_all text) refl

supported_whole : (text : Runes) → unsupported_numeric_continuation text 0 (length text) ≡ false
unfolding unsupported_numeric_continuation has_numeric_continuation_after
    numeric_continuation_before sign_follows skip_space starts_with
supported_whole text = rw (drop_all text) refl

slice_whole : (text : Runes) → slice text 0 (length text) ≡ text
slice_whole text = take_of_length-le (length text - 0) text (omega arith)

-- A match of the whole text is taken for what its token says.
take_token_whole :
    (u : Unicode) (text : Runes) (m : Match) (t : Token) (s : State)
    → m.start ≡ 0
    → m.end ≡ length text
    → parse_query_token text ≡ some t
    → take_token u text m s ≡ absorb m t s
unfolding take_token
take_token_whole u text m t s start end parsed =
    let complete : complete_token u text m.start m.end ≡ true =
      ap₂ (complete_token u text) start end ∙ complete_token_whole u text in
    let supported : unsupported_numeric_continuation text m.start m.end ≡ false =
      ap₂ (unsupported_numeric_continuation text) start end ∙ supported_whole text in
    let read : parse_query_token (slice text m.start m.end) ≡ some t =
      ap parse_query_token (ap₂ (slice text) start end ∙ slice_whole text) ∙ parsed in
    ground arith

digits-IsAscii : (word : Runes) → IsDigits word → IsAscii word
unfolding IsDigits
digits-IsAscii [] h = tt
digits-IsAscii (r ∷ word) h = (let digit = h.0 in ground arith, digits-IsAscii word h.1)

token-IsAscii :
    (season episode : Runes) → IsNumber season → IsNumber episode → IsAscii (token season episode)
unfolding IsNumber
token-IsAscii season episode ns ne = (
  omega arith,
  All-append (λ c. c < 128) season (b'E' ∷ episode) (digits-IsAscii season ns.0)
      (omega arith, digits-IsAscii episode ne.0),
)

-- A query that is one token and of ASCII
normalize_query-token :
    (u : Unicode) (text : Bytes) (m : Match) (season episode : ℕ)
    → IsAscii text
    → length text ≤ max_query_bytes
    → find_all query_token text ≡ m ∷ []
    → m.start ≡ 0
    → m.end ≡ length text
    → parse_query_token text ≡ some (record { season = some season; episode = some episode })
    → (n : NormalizedQuery) × (normalize_query u text none none ≡ checked n)
      × (n.effective_season ≡ some season)
      × (n.effective_episode ≡ some episode)
      × (n.had_technical_tokens ≡ true)
unfolding normalize_query parse_explicit_filter take_tokens absorb agree first_state normalized
normalize_query-token u text m season episode ascii short found start end parsed =
    let first = first_state text none none in
    let last : State = record {
      season = some season;
      episode = some episode;
      marks = mark_both first.marks m.start m.end;
      had_tokens = true;
    } in
    let taken : take_tokens u text (find_all query_token text) first ≡ checked last =
      ap (λ ms. take_tokens u text ms first) found
      ∙ ap (λ r. r >>= (λ next. take_tokens u text [] next))
          (take_token_whole u text m _ first start end parsed) in
    (
      normalized text last,
      if_false (ltb max_query_bytes (length text)) _ _ (ground arith)
          ∙ ap
              (λ value.
                take_tokens u value (find_all query_token value) (first_state value none none)
                >>= (λ s. checked (normalized value s)))
              (decode-ascii text ascii)
          ∙ ap (λ r. r >>= (λ s. checked (normalized text s))) taken,
      refl,
      refl,
      refl,
    )

kept_all :
    (value : Runes) (marks : List Bool)
    → ((i : ℕ) → i < length value → flag marks i ≡ true)
    → kept value marks ≡ []
unfolding kept flag
kept_all [] marks h = refl
kept_all (r ∷ rest) [] h = absurd (let first = h 0 (omega arith) in ground arith)
kept_all (r ∷ rest) (m ∷ marks) h =
    let first : m ≡ true = h 0 (omega arith) in
    let later = kept_all rest marks (λ i low. h (suc i) (omega arith)) in ground arith

no_words : (words : List Runes) → All IsWord words → visible (join_words words) ≡ [] → words ≡ []
unfolding IsWord join_words
no_words [] h e = refl
no_words ([] ∷ words) h e = absurd (let filled = h.0.0 in ground arith)
no_words ((c ∷ word) ∷ []) h e = absurd (let shown = h.0.1.0 in ground arith)
no_words ((c ∷ word) ∷ next ∷ words) h e = absurd (let shown = h.0.1.0 in ground arith)

-- Nothing is left of a query that is one token.
clean_token :
    (u : Unicode) (text : Bytes) (m : Match) (n : NormalizedQuery)
    → IsAscii text
    → find_all query_token text ≡ m ∷ []
    → m.start ≡ 0
    → m.end ≡ length text
    → normalize_query u text none none ≡ checked n
    → n.clean_query ≡ []
unfolding InToken IsToken encode join_words
clean_token u text m n ascii found start end accepted =
    let (words, marks, cleaned, right) = normalize_query-IsCleanOf u text none none n accepted in
    let whole : IsCleanOf u text words marks =
      subst (λ value. IsCleanOf u value words marks) (decode-ascii text ascii) right in
    let there : Occurs m (find_all query_token text) = subst (Occurs m) (sym found) (inl refl) in
    let complete = ap₂ (complete_token u text) start end ∙ complete_token_whole u text in
    let all_marked : kept text marks ≡ [] =
      kept_all text marks
        (λ i low. whole.tokens_removed i (m, (there, complete), omega arith, omega arith)) in
    cleaned
    ∙ ap (λ ws. encode (join_words ws))
        (no_words words whole.are_words (whole.same_runes ∙ ap visible all_marked))

-- A query for the text that a title is rendered with for a season from 1 to 999 and one episode from 1 to
-- 9999, less the space before it, is accepted where no filter is given besides: it asks for that season
-- and that episode, and nothing else of it is left to search for.
pub normalize_query-rendered :
    (u : Unicode) (season episode : ℕ)
    → 1 ≤ season
    → season ≤ max_season
    → 1 ≤ episode
    → episode ≤ max_episode
    → (text : Runes) × (season_text (some season)
          ++ episodes_text (some (record { start = episode; end = episode }))
        ≡ b' ' ∷ text)
      × ((n : NormalizedQuery) × (normalize_query u text none none ≡ checked n)
          × (n.effective_season ≡ some season)
          × (n.effective_episode ≡ some episode)
          × (n.had_technical_tokens ≡ true)
          × (n.clean_query ≡ []))
normalize_query-rendered u season episode l h l' h' =
    let ns = padded season (omega arith) in
    let ne = padded episode (omega arith) in
    let (m, found, start, end) =
      query_token-token (show_padded season) (show_padded episode) ns ne in
    let long = length-append (show_padded season) (b'E' ∷ show_padded episode) in
    let s = show_padded-length season in
    let e = show_padded-length episode in
    let ascii = token-IsAscii (show_padded season) (show_padded episode) ns ne in
    let (n, accepted, own_season, own_episode, had) =
      normalize_query-token u _ m season episode ascii (omega arith) found start end
        (parse-token season episode l h l' h') in
    (
      token (show_padded season) (show_padded episode),
      rendered-token season episode,
      (
        n,
        accepted,
        own_season,
        own_episode,
        had,
        clean_token u _ m n ascii found start end accepted,
      ),
    )
