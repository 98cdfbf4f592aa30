-- ===== src/Torznab/Tokens/Rendered.antt =====
-- What `parseQueryToken` of internal/torznab/query.go reads in what a title is rendered with.
use mathlib.Core.List.{append-nil}
use anilibria_torznab.Prelude.{
  ℕ, ◌^◌, ◌≤◌, ◌<◌, ◌≡◌, refl, sym, ap, ◌∙◌, subst, true, Option, none, some, List, [], ◌∷◌, ◌++◌,
  ◌==◌, if_true, arith,
}
use anilibria_torznab.Text.{codes, Bytes, Runes, all_bytes, is_digit, show_padded}
use anilibria_torznab.Text.Decimal.Show.{show_padded-ShownAs}
use anilibria_torznab.Text.Regexp.{Cursor, Match, match_from, match_at, find_from, find, submatch}
use anilibria_torznab.Text.Regexp.Search.{match_at-Reads, match_at-Some}
use anilibria_torznab.Torznab.Title.{bounded_positive_integer}
use anilibria_torznab.Torznab.Title.Numbers.{bounded_positive_integer_lem}
use anilibria_torznab.Torznab.Tokens.{
  max_season, max_episode, query_se, query_x, query_s, query_e, Token, both, season_only,
  episode_only, parse_query_token,
}
use anilibria_torznab.Torznab.Tokens.Reading.{IsDigits, IsNumber, token, token-groups, token-Reads}
use anilibria_torznab.Torznab.Labels.{season_text, episodes_text}

IsDigits-of : (word : Runes) → all_bytes is_digit word ≡ true → IsDigits word
unfolding IsDigits
IsDigits-of [] h = tt
IsDigits-of (r ∷ rest) h = (ground arith, IsDigits-of rest (ground arith))

-- The number that is printed for `n`
pub padded : (n : ℕ) → n < 10 ^ 20 → IsNumber (show_padded n)
unfolding IsNumber
padded n h =
    let (value, digits, some_digit) = show_padded-ShownAs n h in
    (IsDigits-of (show_padded n) digits, some_digit)

bounded-padded :
    (n maximum : ℕ)
    → 1 ≤ n
    → n ≤ maximum
    → maximum < 10000
    → bounded_positive_integer (show_padded n) maximum ≡ some n
bounded-padded n maximum low high small =
    let (value, digits, some_digit) = show_padded-ShownAs n (omega arith) in
    bounded_positive_integer_lem (show_padded n) maximum (omega arith)
    ∙ ground (arith, value, digits, some_digit)

find-groups :
    (text : Runes) (groups : List (ℕ × Runes)) (d : Cursor)
    → match_at query_se 0 text ≡ some d
    → d.groups ≡ groups
    → (m : Match) × (find query_se text ≡ some m) × (m.groups ≡ groups)
unfolding find find_from
find-groups [] groups d found e = (
  match_from 0 d,
  subst
      (λ o.
        elim o as (λ _. Option Match) [ none ↦ none | some c ↦ some (match_from 0 c) ]
        ≡ some (match_from 0 d))
      (sym found) refl,
  e,
)
find-groups (x ∷ rest) groups d found e = (
  match_from 0 d,
  subst
      (λ o.
        elim o as (λ _. Option Match) [
          | none ↦ find_from query_se 1 rest
          | some c ↦ some (match_from 0 c)
        ]
        ≡ some (match_from 0 d))
      (sym found) refl,
  e,
)

token-both :
    (m : Match) (season episode : ℕ)
    → m.groups ≡ (2, show_padded episode) ∷ (1, show_padded season) ∷ []
    → 1 ≤ season
    → season ≤ max_season
    → 1 ≤ episode
    → episode ≤ max_episode
    → both m ≡ some (record { season = some season; episode = some episode })
unfolding both submatch
token-both m season episode groups l h l' h' =
    let first =
      ap (λ g. bounded_positive_integer (submatch 1 g) max_season) groups
      ∙ bounded-padded season max_season l h (omega arith) in
    let second =
      ap (λ g. bounded_positive_integer (submatch 2 g) max_episode) groups
      ∙ bounded-padded episode max_episode l' h' (omega arith) in
    ground (arith, first, second)

pub rendered-token :
    (season episode : ℕ)
    → season_text (some season) ++ episodes_text (some (record { start = episode; end = episode }))
      ≡ b' ' ∷ token (show_padded season) (show_padded episode)
unfolding season_text episodes_text
rendered-token season episode =
    let one_episode =
      if_true (episode == episode) [] (codes "-E" ++ show_padded episode) (ground arith) in
    ap
      (λ (last : Bytes).
        b' ' ∷ (b'S' ∷ (show_padded season ++ (b'E' ∷ (show_padded episode ++ last)))))
      one_episode
    ∙ ap (λ (last : Bytes). b' ' ∷ (b'S' ∷ (show_padded season ++ (b'E' ∷ last))))
        (append-nil (show_padded episode))

pub parse-token :
    (season episode : ℕ)
    → 1 ≤ season
    → season ≤ max_season
    → 1 ≤ episode
    → episode ≤ max_episode
    → parse_query_token (token (show_padded season) (show_padded episode))
      ≡ some (record { season = some season; episode = some episode })
unfolding parse_query_token
parse-token season episode l h l' h' =
    let ns = padded season (omega arith) in
    let ne = padded episode (omega arith) in
    let text = token (show_padded season) (show_padded episode) in
    let (d, reads) = token-Reads (show_padded season) (show_padded episode) ns ne in
    let (d', found) = match_at-Some query_se 0 text d reads in
    let reads' = match_at-Reads query_se 0 text d' found in
    let groups = token-groups (show_padded season) (show_padded episode) d' ns ne reads' in
    let (m, at, same) =
      find-groups text ((2, show_padded episode) ∷ (1, show_padded season) ∷ []) d' found groups in
    let result = token-both m season episode same l h l' h' in
    subst
      (λ o.
        elim o as (λ _. Option Token) [
          | some m' ↦ both m'
          | none ↦ elim (find query_x text) [
            | some m' ↦ both m'
            | none ↦ elim (find query_s text) [
              | some m' ↦ season_only m'
              | none ↦ elim (find query_e text) [ some m' ↦ episode_only m' | none ↦ none ]
            ]
          ]
        ]
        ≡ some (record { season = some season; episode = some episode }))
      (sym at) result
