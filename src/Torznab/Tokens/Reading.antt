-- ===== src/Torznab/Tokens/Reading.antt =====
-- What `querySE` of internal/torznab/query.go reads of a season and an episode in the form of a title.
use mathlib.Core.List.{append-nil}
use anilibria_torznab.Prelude.{
  ℕ, ◌+◌, ◌-◌, ◌≡◌, refl, sym, ap, ap₂, ◌∙◌, subst, true, false, [], ◌∷◌, ◌++◌, length, take,
  take-append_self, All, arith,
}
use anilibria_torznab.Text.{Runes, is_empty, folds}
use anilibria_torznab.Text.Regexp.{
  group, is_digit_class, regexp_whitespace, Cursor, advance, read_until,
}
use anilibria_torznab.Text.Regexp.Reading.{Reads, skip, advance-skip}
use anilibria_torznab.Text.Regexp.Search.{from}
use anilibria_torznab.Torznab.Tokens.{digits, query_se}

unfoldable pub IsDigits : Runes → Type 0
IsDigits word = All (λ r. is_digit_class r ≡ true) word

-- A text that does not start with a digit
abbrev pub Stops : Runes → Type 0
Stops [] = Unit
Stops (r ∷ rest) = is_digit_class r ≡ false

-- The digits that a text starts with are determined.
pub digits_unique :
    (a b s t : Runes)
    → IsDigits a
    → IsDigits b
    → Stops s
    → Stops t
    → a ++ s ≡ b ++ t
    → (a ≡ b) × (s ≡ t)
unfolding IsDigits
digits_unique [] [] s t da db hs ht e = (refl, e)
digits_unique [] (y ∷ b) [] t da db hs ht e = absurd (ground arith)
digits_unique [] (y ∷ b) (x ∷ s) t da db hs ht e = absurd (ground (arith, db.0))
digits_unique (x ∷ a) [] s [] da db hs ht e = absurd (ground arith)
digits_unique (x ∷ a) [] s (y ∷ t) da db hs ht e = absurd (ground (arith, da.0))
digits_unique (x ∷ a) (y ∷ b) s t da db hs ht e =
    let heads : x ≡ y = ground arith in
    let tails : a ++ s ≡ b ++ t = ground arith in
    let (same, left) = digits_unique a b s t da.1 db.1 hs ht tails in (ground arith, left)

-- What a group of digits reads
unfoldable pub IsNumber : Runes → Type 0
IsNumber word = IsDigits word × (is_empty word ≡ false)

abbrev grouped : ℕ → Cursor → Runes → Runes → Cursor
grouped n c word rest = record {
  position = c.position + length word;
  rest = rest;
  groups = (n, word) ∷ c.groups;
}

abbrev closed : ℕ → Cursor → Cursor → Cursor
closed n c y = record y { groups = (n, read_until c y) ∷ y.groups }

abbrev ReadsNumber : ℕ → Cursor → Cursor → Type 0
ReadsNumber n c d =
    (word : Runes) × (rest : Runes) × IsNumber word
    × (c.rest ≡ word ++ rest)
    × (d ≡ grouped n c word rest)

pub digits_word :
    (c e : Cursor)
    → Reads digits c e
    → (word : Runes) × (rest : Runes) × IsNumber word
      × (c.rest ≡ word ++ rest)
      × (e ≡ skip c (length word) rest)
unfolding Reads IsNumber IsDigits
digits_word c e (b, (x, behind, r1, px, s1), (taken, rest, r2, all, s2)) =
    let left : behind ≡ taken ++ rest = sym (ap (λ y. y.rest) s1) ∙ r2 in
    (
      x ∷ taken,
      rest,
      ((px, all), refl),
      r1 ∙ ap (λ (s : Runes). x ∷ s) left,
      subst (λ y. e ≡ skip y (length taken) rest) s1 s2 ∙ advance-skip c (length taken) behind rest,
    )

group-ReadsNumber : (n : ℕ) (c d : Cursor) → Reads (group n digits) c d → ReadsNumber n c d
unfolding Reads
group-ReadsNumber n c d (e, reads, same) =
    let (word, rest, number, split, moved_to) = digits_word c e reads in
    let width : c.position + length word - c.position ≡ length word = omega arith in
    let read : read_until c (skip c (length word) rest) ≡ word =
      ap (λ k. take k c.rest) width ∙ ap (take (length word)) split ∙ take-append_self word rest in
    (
      word,
      rest,
      number,
      split,
      same
          ∙ ap (λ (y : Cursor). closed n c y) moved_to
          ∙ ap {B = Cursor}
              (λ (g : Runes). record {
                position = c.position + length word;
                rest = rest;
                groups = (n, g) ∷ c.groups;
              })
              read,
    )

-- What `querySE` reads of a whole text
abbrev ReadsBoth : Runes → Cursor → Type 0
ReadsBoth text d =
    (x : ℕ) × (season : Runes) × (gap : Runes) × (y : ℕ) × (episode : Runes) × IsNumber season
    × IsNumber episode
    × All (λ r. regexp_whitespace r ≡ true) gap
    × (folds b'e' y ≡ true)
    × (text ≡ x ∷ (season ++ (gap ++ (y ∷ episode))))
    × (d.groups ≡ (2, episode) ∷ (1, season) ∷ [])

query_se-ReadsBoth : (text : Runes) (d : Cursor) → Reads query_se (from 0 text) d → ReadsBoth text d
unfolding Reads
query_se-ReadsBoth text d
      (
        c1,
        (p0, s1),
        (
          c2,
          (x, r2, t2, px, s2),
          (c3, g1, (c4, (gap, r4, t4, all, s4), (c5, (y, r5, t5, py, s5), (c6, g2, (t7, s7))))),
        ),
      ) =
    let (season, r3, number1, split1, e3) = group-ReadsNumber 1 c2 c3 g1 in
    let (episode, r6, number2, split2, e6) = group-ReadsNumber 2 c5 c6 g2 in
    let a1 : text ≡ x ∷ r2 = sym (ap (λ c. c.rest) s1) ∙ t2 in
    let a2 : r2 ≡ season ++ r3 = sym (ap (λ c. c.rest) s2) ∙ split1 in
    let a3 : r3 ≡ gap ++ r4 = sym (ap (λ c. c.rest) e3) ∙ t4 in
    let a4 : r4 ≡ y ∷ r5 = sym (ap (λ c. c.rest) s4) ∙ t5 in
    let a5 : r5 ≡ episode ++ r6 = sym (ap (λ c. c.rest) s5) ∙ split2 in
    let a6 : r6 ≡ [] = sym (ap (λ c. c.rest) e6) ∙ t7 in
    let a7 : r5 ≡ episode = a5 ∙ ap (λ (s : Runes). episode ++ s) a6 ∙ append-nil episode in
    let whole : text ≡ x ∷ (season ++ (gap ++ (y ∷ episode))) = cc in
    let groups : d.groups ≡ (2, episode) ∷ (1, season) ∷ [] =
      ap (λ c. c.groups) s7
      ∙ ap (λ c. c.groups) e6
      ∙ ap (λ g. (2, episode) ∷ g)
          (ap (λ c. c.groups) s5
            ∙ ap (λ c. c.groups) s4
            ∙ ap (λ c. c.groups) e3
            ∙ ap (λ g. (1, season) ∷ g) (ap (λ c. c.groups) s2 ∙ ap (λ c. c.groups) s1)) in
    (x, season, gap, y, episode, number1, number2, all, py, whole, groups)

-- A season and an episode in the form of a title
abbrev pub token : Runes → Runes → Runes
token season episode = b'S' ∷ (season ++ (b'E' ∷ episode))

e_stops : (y : ℕ) → folds b'e' y ≡ true → is_digit_class y ≡ false
unfolding folds
e_stops y h = ground arith

pub space_stops : (r : ℕ) → regexp_whitespace r ≡ true → is_digit_class r ≡ false
unfolding regexp_whitespace
space_stops r h = ground arith

gap-Stops :
    (gap : Runes) (y : ℕ) (rest : Runes)
    → All (λ r. regexp_whitespace r ≡ true) gap
    → folds b'e' y ≡ true
    → Stops (gap ++ (y ∷ rest))
gap-Stops [] y rest all h = e_stops y h
gap-Stops (r ∷ gap) y rest all h = space_stops r all.0

-- There is no gap before an `E`.
no_gap :
    (gap a b : Runes) (y : ℕ)
    → All (λ r. regexp_whitespace r ≡ true) gap
    → b'E' ∷ a ≡ gap ++ (y ∷ b)
    → a ≡ b
unfolding regexp_whitespace
no_gap [] a b y all e = ground arith
no_gap (r ∷ gap) a b y all e = absurd (let first : b'E' ≡ r = ground arith in ground (arith, all.0))

pub token-groups :
    (season episode : Runes) (d : Cursor)
    → IsNumber season
    → IsNumber episode
    → Reads query_se (from 0 (token season episode)) d
    → d.groups ≡ (2, episode) ∷ (1, season) ∷ []
unfolding IsNumber folds
token-groups season episode d ns ne reads =
    let (x, s, gap, y, e, ns', ne', all, py, whole, groups) =
      query_se-ReadsBoth (token season episode) d reads in
    let tails : season ++ (b'E' ∷ episode) ≡ s ++ (gap ++ (y ∷ e)) = ground arith in
    let (same, left) =
      digits_unique season s (b'E' ∷ episode) (gap ++ (y ∷ e)) ns.0 ns'.0 refl
        (gap-Stops gap y e all py) tails in
    let same' = no_gap gap episode e y all left in
    groups ∙ ap₂ (λ a b. (2, a) ∷ (1, b) ∷ []) (sym same') (sym same)

number-Reads :
    (n : ℕ) (c : Cursor) (word rest : Runes)
    → IsNumber word
    → c.rest ≡ word ++ rest
    → (d : Cursor) × Reads (group n digits) c d × (d.rest ≡ rest)
unfolding Reads IsNumber IsDigits
number-Reads n c [] rest h e = absurd (let k = h.1 in ground arith)
number-Reads n c (x ∷ word) rest h e =
    let first = advance c (word ++ rest) in
    let last = skip first (length word) rest in
    (
      closed n c last,
      (last, (first, (x, word ++ rest, e, h.0.0, refl), (word, rest, refl, h.0.1, refl)), refl),
      refl,
    )

pub token-Reads :
    (season episode : Runes)
    → IsNumber season
    → IsNumber episode
    → (d : Cursor) × Reads query_se (from 0 (token season episode)) d
unfolding Reads folds
token-Reads season episode ns ne =
    let text = token season episode in
    let c2 = advance (from 0 text) (season ++ (b'E' ∷ episode)) in
    let (c3, g1, r3) = number-Reads 1 c2 season (b'E' ∷ episode) ns refl in
    let c4 = skip c3 0 (b'E' ∷ episode) in
    let c5 = advance c4 episode in
    let (c6, g2, r6) = number-Reads 2 c5 episode [] ne (sym (append-nil episode)) in
    (
      c6,
      (
        from 0 text,
        (refl, refl),
        (
          c2,
          (b'S', season ++ (b'E' ∷ episode), refl, refl, refl),
          (
            c3,
            g1,
            (
              c4,
              ([], b'E' ∷ episode, r3, tt, refl),
              (c5, (b'E', episode, refl, refl, refl), (c6, g2, (r6, refl))),
            ),
          ),
        ),
      ),
    )
