-- ===== src/Text/Regexp.antt =====
-- The part of Go's regexp that internal/torznab uses, on the runes of a text: leftmost matches, the
-- alternatives in their order, and repetitions of one class, which take as much as they can.
pub mod Reading
pub mod Search
pub mod Greedy
use anilibria_torznab.Prelude.{
  ℕ, zero, suc, ◌-◌, Bool, true, false, ◌||◌, Option, none, some, List, [], ◌∷◌, take, leb, ◌==◌,
  if◌then◌else◌,
}
use anilibria_torznab.Text.RuneString.{Runes}
use anilibria_torznab.Text.Case.{folds}

-- A class of runes
abbrev pub Class : Type 0
Class = ℕ → Bool

pub data Regexp : Type 0 where
  one : Class → Regexp
  many : Class → Regexp
  follow : Regexp → Regexp → Regexp
  either : Regexp → Regexp → Regexp
  group : ℕ → Regexp → Regexp
  nothing : Regexp
  at_start : Regexp
  at_end : Regexp

infixr 40 ◌⨾◌
abbrev pub ◌⨾◌ : Regexp → Regexp → Regexp
a ⨾ b = follow a b

-- `[…]+` and `(?:…)?`
abbrev pub some_of : Class → Regexp
some_of p = one p ⨾ many p

abbrev pub optional : Regexp → Regexp
optional r = either r nothing

-- A place in a text, with what the groups have matched, the latest first
pub record Cursor : Type 0 where
  pub position : ℕ
  pub rest : Runes
  pub groups : List (ℕ × Runes)

abbrev pub advance : Cursor → Runes → Cursor
advance c rest = record c { position = suc c.position; rest = rest }

-- What was read between two places
abbrev pub read_until : Cursor → Cursor → Runes
read_until c d = take (d.position - c.position) c.rest

module _ {ℓ} {A : Type ℓ} where
  or_else : Option A → Option A → Option A
  or_else none later = later
  or_else (some a) later = some a

  step : Class → Cursor → Runes → (Cursor → Option A) → Option A
  step p c [] k = none
  step p c (x ∷ rest) k = elim (p x) [ true ↦ k (advance c rest) | false ↦ none ]

  -- The longest run first
  repeat : Class → Cursor → Runes → (Cursor → Option A) → Option A
  unfolding or_else
  repeat p c [] k = k c
  repeat p c (x ∷ rest) k = elim (p x) [
    | true ↦ or_else (repeat p (advance c rest) rest k) (k c)
    | false ↦ k c
  ]

  -- `k` is what has to match behind the expression.
  unfoldable pub run : Regexp → Cursor → (Cursor → Option A) → Option A
  unfolding or_else step repeat
  run (one p) c k = step p c c.rest k
  run (many p) c k = repeat p c c.rest k
  run (follow a b) c k = run a c (λ d. run b d k)
  run (either a b) c k = or_else (run a c k) (run b c k)
  run (group n r) c k = run r c (λ d. k (record d { groups = (n, read_until c d) ∷ d.groups }))
  run nothing c k = k c
  run at_start c k = if c.position == 0 then k c else none
  run at_end c k = elim c.rest [ [] ↦ k c | x ∷ rest ↦ none ]

unfoldable pub match_at : Regexp → ℕ → Runes → Option Cursor
unfolding run
match_at r position rest = run r (record { position = position; rest = rest; groups = [] }) some

-- A match, from its first place to the place behind it
pub record Match : Type 0 where
  pub start : ℕ
  pub end : ℕ
  pub groups : List (ℕ × Runes)

abbrev pub match_from : ℕ → Cursor → Match
match_from start c = record { start = start; end = c.position; groups = c.groups }

-- `FindStringSubmatch`, from a position on
unfoldable pub find_from : Regexp → ℕ → Runes → Option Match
unfolding match_at
find_from r position [] = elim (match_at r position []) [
  | none ↦ none
  | some c ↦ some (match_from position c)
]
find_from r position (x ∷ rest) = elim (match_at r position (x ∷ rest)) [
  | none ↦ find_from r (suc position) rest
  | some c ↦ some (match_from position c)
]

unfoldable pub find : Regexp → Runes → Option Match
unfolding find_from
find r text = find_from r 0 text

-- `FindAllStringIndex` of an expression that does not match the empty text; `skip` is what is left of
-- the match before.
unfoldable pub find_all_from : Regexp → ℕ → ℕ → Runes → List Match
unfolding match_at
find_all_from r skip position [] = []
find_all_from r (suc skip) position (x ∷ rest) = find_all_from r skip (suc position) rest
find_all_from r zero position (x ∷ rest) = elim (match_at r position (x ∷ rest)) [
  | none ↦ find_all_from r zero (suc position) rest
  | some c ↦ match_from position c ∷ find_all_from r (c.position - suc position) (suc position) rest
]

unfoldable pub find_all : Regexp → Runes → List Match
unfolding find_all_from
find_all r text = find_all_from r 0 0 text

-- A submatch; one that took no part is the empty text.
unfoldable pub submatch : ℕ → List (ℕ × Runes) → Runes
submatch n [] = []
submatch n ((m, text) ∷ groups) = let rest = submatch n groups in if m == n then text else rest

abbrev pub is_digit_class : Class
is_digit_class c = if leb 48 c then leb c 57 else false

-- A literal under `(?i)`; its letters are given in lower case.
abbrev pub folded : Runes → Regexp
folded [] = nothing
folded (c ∷ word) = one (folds c) ⨾ folded word

-- `regexpWhitespace`: `\p{Z}` and the controls that are named
unfoldable pub regexp_whitespace : Class
regexp_whitespace r =
    (r == 32
      || (r == 0xA0
          || (r == 0x1680
              || ((if leb 0x2000 r then leb r 0x200A else false)
                  || (r == 0x2028
                      || (r == 0x2029 || (r == 0x202F || (r == 0x205F || r == 0x3000))))))))
    || (r == 9 || (r == 13 || (r == 10 || (r == 12 || (r == 11 || r == 0x85)))))
