-- ===== src/Torznab/Query/Filters.antt =====
-- The season and the episode that a query is searched by.
use anilibria_torznab.Prelude.{
  ℕ, ◌≤◌, ◌≡◌, refl, Option, none, some, List, [], ◌∷◌, length, ltb, not, ◌==◌, subst, if_rule,
  Bool-cases, inl, inr, arith,
}
use anilibria_torznab.Text.{Bytes, Runes, trim_space, decode}
use anilibria_torznab.Text.Regexp.{Match, find_all}
use anilibria_torznab.Torznab.Parameter.{Parameter, query, season, episode}
use anilibria_torznab.Torznab.Title.{bounded_positive_integer}
use anilibria_torznab.Torznab.Title.Numbers.{bounded_positive_integer_bounds}
use anilibria_torznab.Torznab.Tokens.{
  Unicode, max_season, max_episode, slice, complete_token, unsupported_numeric_continuation,
  query_token, Token, both, season_only, episode_only, parse_query_token,
}
use anilibria_torznab.Torznab.Query.{
  NormalizedQuery, Checked, checked, incorrect, ◌>>=◌, max_query_bytes, strip_letter,
  parse_explicit_filter, State, agree, absorb, take_token, take_tokens, first_state, normalized,
  normalize_query,
}

-- A number from 1 to the maximum, where there is one
abbrev pub InRange : ℕ → Option ℕ → Type 0
InRange maximum none = Unit
InRange maximum (some v) = (1 ≤ v) × (v ≤ maximum)

-- What an explicit parameter says is what counts.
unfoldable pub Honours : Option Bytes → ℕ → ℕ → Option ℕ → Type 0
Honours none prefix maximum effective = Unit
Honours (some raw) prefix maximum effective =
    (v : ℕ) × (bounded_positive_integer (strip_letter prefix (trim_space raw)) maximum ≡ some v)
    × (effective ≡ some v)

-- A result, if there is one, satisfies `P`.
abbrev pub Ensures : {A : Type 0} → (A → Type 0) → Checked A → Type 0
Ensures P (checked a) = P a
Ensures P (incorrect p) = Unit

pub Ensures-bind :
    {A B : Type 0} (P : A → Type 0) (Q : B → Type 0) (r : Checked A) (f : A → Checked B)
    → Ensures P r
    → ((a : A) → P a → Ensures Q (f a))
    → Ensures Q (r >>= f)
Ensures-bind P Q (checked a) f h k = k a h
Ensures-bind P Q (incorrect p) f h k = tt

-- The filters of a state lie in range, and are those of the state before where it has them.
record IsKept (s t : State) : Type 0 where
  season_range : InRange max_season t.season
  episode_range : InRange max_episode t.episode
  season_kept : (v : ℕ) → s.season ≡ some v → t.season ≡ some v
  episode_kept : (v : ℕ) → s.episode ≡ some v → t.episode ≡ some v

HasRange : Token → Type 0
HasRange t = InRange max_season t.season × InRange max_episode t.episode

both-HasRange : (m : Match) (t : Token) → both m ≡ some t → HasRange t
unfolding both HasRange
both-HasRange m t h = grind (arith, bounded_positive_integer_bounds)

season_only-HasRange : (m : Match) (t : Token) → season_only m ≡ some t → HasRange t
unfolding season_only HasRange
season_only-HasRange m t h = grind (arith, bounded_positive_integer_bounds)

episode_only-HasRange : (m : Match) (t : Token) → episode_only m ≡ some t → HasRange t
unfolding episode_only HasRange
episode_only-HasRange m t h = grind (arith, bounded_positive_integer_bounds)

parse_query_token-HasRange :
    (token : Runes) (t : Token) → parse_query_token token ≡ some t → HasRange t
unfolding parse_query_token
parse_query_token-HasRange token t h =
    grind (arith, both-HasRange, season_only-HasRange, episode_only-HasRange)

-- The filter that comes of two
Agreed : ℕ → Option ℕ → Option ℕ → Type 0
Agreed maximum own new = InRange maximum new × ((v : ℕ) → own ≡ some v → new ≡ some v)

agree-Agreed :
    (p : Parameter) (maximum : ℕ) (own new : Option ℕ)
    → InRange maximum own
    → InRange maximum new
    → Ensures (Agreed maximum own) (agree p own new)
unfolding agree Agreed
agree-Agreed p maximum own none a b = (a, λ v e. e)
agree-Agreed p maximum none (some value) a b = (b, λ v e. absurd (ground arith))
agree-Agreed p maximum (some own) (some value) a b = elim (Bool-cases (own == value)) [
  | inl same ↦ rw same (b, λ v e. ground arith)
  | inr other ↦ rw other tt
]

absorb-IsKept :
    (m : Match) (t : Token) (s : State)
    → IsKept s s
    → HasRange t
    → Ensures (IsKept s) (absorb m t s)
unfolding absorb HasRange Agreed
absorb-IsKept m t s k range =
    Ensures-bind (Agreed max_season s.season) (IsKept s) (agree season s.season t.season) _
      (agree-Agreed season max_season s.season t.season k.season_range range.0)
      λ new_season (a, keep).
        Ensures-bind (Agreed max_episode s.episode) (IsKept s) (agree episode s.episode t.episode) _
          (agree-Agreed episode max_episode s.episode t.episode k.episode_range range.1)
          λ new_episode (b, keep'). record {
            season_range = a;
            episode_range = b;
            season_kept = keep;
            episode_kept = keep';
          }

IsKept-trans : (r s t : State) → IsKept r s → IsKept s t → IsKept r t
IsKept-trans r s t a b = record {
  season_range = b.season_range;
  episode_range = b.episode_range;
  season_kept = λ v e. b.season_kept v (a.season_kept v e);
  episode_kept = λ v e. b.episode_kept v (a.episode_kept v e);
}

-- The filters of a state that another one follows
IsKept-self : (r s : State) → IsKept r s → IsKept s s
IsKept-self r s a = record {
  season_range = a.season_range;
  episode_range = a.episode_range;
  season_kept = λ v e. e;
  episode_kept = λ v e. e;
}

take_token-IsKept :
    (u : Unicode) (value : Runes) (m : Match) (s : State)
    → IsKept s s
    → Ensures (IsKept s) (take_token u value m s)
unfolding take_token
take_token-IsKept u value m s k =
    if_rule (Ensures (IsKept s)) (not (complete_token u value m.start m.end)) (λ e. k)
      (λ e.
        if_rule (Ensures (IsKept s)) (unsupported_numeric_continuation value m.start m.end)
          (λ e'. tt) (λ e'. with_token (parse_query_token (slice value m.start m.end)) refl))
  where
    with_token :
        (o : Option Token)
        → parse_query_token (slice value m.start m.end) ≡ o
        → Ensures (IsKept s) (elim o as (λ x. Checked State) [
          | none ↦ incorrect query
          | some token ↦ absorb m token s
        ])
    with_token none e = tt
    with_token (some t) e =
        absorb-IsKept m t s k (parse_query_token-HasRange (slice value m.start m.end) t e)

take_tokens-IsKept :
    (u : Unicode) (value : Runes) (matches : List Match) (s : State)
    → IsKept s s
    → Ensures (IsKept s) (take_tokens u value matches s)
unfolding take_tokens
take_tokens-IsKept u value [] s k = k
take_tokens-IsKept u value (m ∷ matches) s k =
    Ensures-bind (IsKept s) (IsKept s) (take_token u value m s) _ (take_token-IsKept u value m s k)
      λ next kept.
        after next kept (take_tokens-IsKept u value matches next (IsKept-self s next kept))
  where
    after :
        (next : State)
        → IsKept s next
        → Ensures (IsKept next) (take_tokens u value matches next)
        → Ensures (IsKept s) (take_tokens u value matches next)
    after next kept done = widen (take_tokens u value matches next) done
      where
        widen : (r : Checked State) → Ensures (IsKept next) r → Ensures (IsKept s) r
        widen (checked t) h = IsKept-trans s next t kept h
        widen (incorrect p) h = tt

-- What an explicit filter comes to
Explicit : Option Bytes → ℕ → ℕ → Option ℕ → Type 0
Explicit raw prefix maximum own =
    InRange maximum own
    × ((effective : Option ℕ)
        → ((v : ℕ) → own ≡ some v → effective ≡ some v)
        → Honours raw prefix maximum effective)

parse_explicit_filter-Explicit :
    (raw : Option Bytes) (prefix maximum : ℕ) (p : Parameter)
    → Ensures (Explicit raw prefix maximum) (parse_explicit_filter raw prefix maximum p)
unfolding parse_explicit_filter Explicit Honours
parse_explicit_filter-Explicit none prefix maximum p = (tt, λ effective k. tt)
parse_explicit_filter-Explicit (some raw) prefix maximum p =
    parsed (bounded_positive_integer (strip_letter prefix (trim_space raw)) maximum) refl
  where
    parsed :
        (o : Option ℕ)
        → bounded_positive_integer (strip_letter prefix (trim_space raw)) maximum ≡ o
        → Ensures
            (Explicit (some raw) prefix maximum)
            (elim o as (λ x. Checked (Option ℕ)) [ none ↦ incorrect p | some v ↦ checked (some v) ])
    parsed none e = tt
    parsed (some v) e = (
      bounded_positive_integer_bounds (strip_letter prefix (trim_space raw)) maximum v e,
      λ effective k. (v, e, k v refl),
    )

-- What the filters of a normalized query are
unfoldable pub IsFiltered : Option Bytes → Option Bytes → NormalizedQuery → Type 0
IsFiltered explicit_season explicit_episode n =
    InRange max_season n.effective_season
    × InRange max_episode n.effective_episode
    × Honours explicit_season b's' max_season n.effective_season
    × Honours explicit_episode b'e' max_episode n.effective_episode

tokens-IsFiltered :
    (u : Unicode) (value : Runes) (explicit_season explicit_episode : Option Bytes)
    (own_season own_episode : Option ℕ)
    → Explicit explicit_season b's' max_season own_season
    → Explicit explicit_episode b'e' max_episode own_episode
    → (matches : List Match)
    → Ensures (IsFiltered explicit_season explicit_episode) (do
      s ← take_tokens u value matches (first_state value own_season own_episode)
      checked (normalized value s))
unfolding Explicit IsFiltered first_state normalized
tokens-IsFiltered u value es ee own_season own_episode a b matches =
    let first = first_state value own_season own_episode in
    Ensures-bind (IsKept first) (IsFiltered es ee) (take_tokens u value matches first) _
      (take_tokens-IsKept u value matches first (record {
        season_range = a.0;
        episode_range = b.0;
        season_kept = λ v e. e;
        episode_kept = λ v e. e;
      }))
      λ s k.
        (k.season_range, k.episode_range, a.1 s.season k.season_kept, b.1 s.episode k.episode_kept)

-- A query that is accepted is searched by a season from 1 to 999 and an episode from 1 to 9999, where it
-- is by any; and a season or an episode that the request gives explicitly is the one that counts,
-- whatever tokens the query has.
pub normalize_query-IsFiltered :
    (u : Unicode) (raw : Bytes) (explicit_season explicit_episode : Option Bytes)
    (n : NormalizedQuery)
    → normalize_query u raw explicit_season explicit_episode ≡ checked n
    → IsFiltered explicit_season explicit_episode n
unfolding normalize_query
normalize_query-IsFiltered u raw es ee n h = subst (Ensures (IsFiltered es ee)) h (
    if_rule (Ensures (IsFiltered es ee)) (ltb max_query_bytes (length raw)) (λ e. tt)
      (λ e.
        Ensures-bind (Explicit es b's' max_season) (IsFiltered es ee)
          (parse_explicit_filter es b's' max_season season) _
          (parse_explicit_filter-Explicit es b's' max_season season)
          λ own_season a.
            Ensures-bind (Explicit ee b'e' max_episode) (IsFiltered es ee)
              (parse_explicit_filter ee b'e' max_episode episode) _
              (parse_explicit_filter-Explicit ee b'e' max_episode episode)
              λ own_episode b.
                tokens-IsFiltered u (decode raw) es ee own_season own_episode a b
                  (find_all query_token (decode raw))))
