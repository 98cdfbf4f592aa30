-- ===== src/Torznab/Tokens/Matching.antt =====
-- What `queryToken` of internal/torznab/query.go matches in a season and an episode in the form of a title.
use mathlib.Core.List.{append-nil}
use anilibria_torznab.Prelude.{
  ℕ, suc, ◌+◌, ◌≡◌, refl, sym, ap, ◌∙◌, Option-cases, none, some, [], ◌∷◌, ◌++◌, length,
  length-append, inl, inr, true, arith,
}
use anilibria_torznab.Text.{Runes, folds}
use anilibria_torznab.Text.Regexp.{
  ◌⨾◌, either, Regexp, Cursor, advance, is_digit_class, regexp_whitespace, run, match_at, Match,
  find_all,
}
use anilibria_torznab.Text.Regexp.Reading.{Reads, skip, run-Reads}
use anilibria_torznab.Text.Regexp.Search.{from}
use anilibria_torznab.Text.Regexp.Greedy.{
  run-follow_one, run-some_of, run-follow_some_of, run-either_left, run-either_right,
  find_all-whole,
}
use anilibria_torznab.Torznab.Tokens.{digits, spaces, letter, query_token}
use anilibria_torznab.Torznab.Tokens.Reading.{
  IsDigits, IsNumber, digits_unique, digits_word, space_stops, token,
}

-- The first two alternatives of `queryToken`
abbrev spaced_pair : Regexp
spaced_pair = letter b's' ⨾ digits ⨾ spaces ⨾ letter b'e' ⨾ digits

abbrev pair : Regexp
pair = letter b's' ⨾ digits ⨾ letter b'e' ⨾ digits

not_space : (r : ℕ) → b'E' ≡ r → regexp_whitespace r ≡ true → ⊥
unfolding regexp_whitespace
not_space r e h = absurd (ground arith)

-- There is no space before the `E`.
spaced_pair-unread :
    (season episode : Runes) (d : Cursor)
    → IsNumber season
    → Reads spaced_pair (from 0 (token season episode)) d
    → ⊥
unfolding Reads IsNumber
spaced_pair-unread season episode d ns
      (c2, (x, r2, t2, px, s2), (c3, reads, (c4, (c5, (g, r5, t5, pg, s5), more), later))) =
    let (word, rest, number, split, moved_to) = digits_word c2 c3 reads in
    let text : season ++ (b'E' ∷ episode) ≡ r2 = ground arith in
    let behind : rest ≡ g ∷ r5 = sym (ap (λ c. c.rest) moved_to) ∙ t5 in
    let left : r2 ≡ word ++ (g ∷ r5) =
      sym (ap (λ c. c.rest) s2) ∙ split ∙ ap (λ (s : Runes). word ++ s) behind in
    let (same, heads) =
      digits_unique season word (b'E' ∷ episode) (g ∷ r5) ns.0 number.0 refl (space_stops g pg)
        (text ∙ left) in
    not_space g (ground arith) pg

spaced_pair-fails :
    (season episode : Runes)
    → IsNumber season
    → run spaced_pair (from 0 (token season episode)) some ≡ none
spaced_pair-fails season episode ns =
    elim (Option-cases (run spaced_pair (from 0 (token season episode)) some)) [
      | inl e ↦ e
      | inr (d, e) ↦
          let (d', reads, same) = run-Reads spaced_pair (from 0 (token season episode)) some d e in
          absurd (spaced_pair-unread season episode d' ns reads)
    ]

pair-run :
    (season episode : Runes)
    → IsNumber season
    → IsNumber episode
    → (d : Cursor) × (run pair (from 0 (token season episode)) some ≡ some d)
      × (d.position ≡ 2 + length season + length episode)
unfolding IsNumber IsDigits folds
pair-run [] episode ns ne = absurd (let k = ns.1 in ground arith)
pair-run (s ∷ season) [] ns ne = absurd (let k = ne.1 in ground arith)
pair-run (s ∷ season) (e ∷ episode) ns ne =
    let c1 =
      advance (from 0 (token (s ∷ season) (e ∷ episode))) (s ∷ (season ++ (b'E' ∷ e ∷ episode))) in
    let c2 = skip c1 (suc (length season)) (b'E' ∷ e ∷ episode) in
    let c3 = advance c2 (e ∷ episode) in
    let d = skip c3 (suc (length episode)) [] in
    (
      d,
      run-follow_one (folds b's') (digits ⨾ letter b'e' ⨾ digits) _ b'S' _ some d refl refl (
          run-follow_some_of is_digit_class (letter b'e' ⨾ digits) c1 s season (b'E' ∷ e ∷ episode)
            some d refl ns.0.0 ns.0.1 refl
            (run-follow_one (folds b'e') digits c2 b'E' (e ∷ episode) some d refl refl (
              run-some_of is_digit_class c3 e episode [] some d
                (ap (λ (l : Runes). e ∷ l) (sym (append-nil episode))) ne.0.0 ne.0.1 tt refl))),
      omega arith,
    )

abbrev behind_two : Regexp → Regexp
behind_two (either r (either s t)) = t
behind_two other = other

-- The text is one match of `queryToken`, and there is no other.
pub query_token-token :
    (season episode : Runes)
    → IsNumber season
    → IsNumber episode
    → (m : Match) × (find_all query_token (token season episode) ≡ m ∷ [])
      × (m.start ≡ 0)
      × (m.end ≡ length (token season episode))
unfolding match_at
query_token-token season episode ns ne =
    let (d, found, end) = pair-run season episode ns ne in
    let matched : match_at query_token 0 (token season episode) ≡ some d =
      run-either_right spaced_pair (either pair (behind_two query_token))
        (from 0 (token season episode)) some d (spaced_pair-fails season episode ns)
        (run-either_left pair (behind_two query_token) (from 0 (token season episode)) some d
          found) in
    let long = length-append season (b'E' ∷ episode) in
    (
      _,
      find_all-whole query_token b'S' (season ++ (b'E' ∷ episode)) d matched (omega arith),
      refl,
      end ∙ omega arith,
    )
