-- ===== src/Text/Utf8.antt =====
-- unicode/utf8: decoding the first and the last rune of a string, and validity.
use anilibria_torznab.Prelude.{
  ℕ, zero, suc, ◌+◌, ◌-◌, ◌*◌, Bool, true, not, ◌&&◌, List, [], ◌∷◌, length, leb, ltb, ◌==◌,
  if◌then◌else◌, ◌≤◌, arith,
}
use anilibria_torznab.Text.ByteString.{Bytes}

-- `utf8.RuneError`
abbrev pub rune_error : ℕ
rune_error = 0xFFFD

abbrev between : ℕ → ℕ → ℕ → Bool
between lo hi c = leb lo c && leb c hi

abbrev is_continuation : ℕ → Bool
is_continuation c = between 0x80 0xBF c

-- The range of a second byte after the first byte of a rune of three or four bytes.
second_ok : ℕ → ℕ → Bool
second_ok a b =
    if a == 0xE0
    then between 0xA0 0xBF b
    else if a == 0xED
    then between 0x80 0x9F b
    else if a == 0xF0
    then between 0x90 0xBF b
    else if a == 0xF4
    then between 0x80 0x8F b
    else is_continuation b

decode_two : ℕ → Bytes → ℕ × ℕ
decode_two a (b ∷ _) =
    if is_continuation b then ((a - 0xC0) * 64 + (b - 0x80), 2) else (rune_error, 1)
decode_two a [] = (rune_error, 1)

decode_three : ℕ → Bytes → ℕ × ℕ
decode_three a (b ∷ c ∷ _) =
    if second_ok a b && is_continuation c
    then ((a - 0xE0) * 4096 + (b - 0x80) * 64 + (c - 0x80), 3)
    else (rune_error, 1)
decode_three a _ = (rune_error, 1)

decode_four : ℕ → Bytes → ℕ × ℕ
decode_four a (b ∷ c ∷ d ∷ _) =
    if second_ok a b && is_continuation c && is_continuation d
    then ((a - 0xF0) * 262144 + (b - 0x80) * 4096 + (c - 0x80) * 64 + (d - 0x80), 4)
    else (rune_error, 1)
decode_four a _ = (rune_error, 1)

-- `utf8.DecodeRuneInString`: the rune and its width, which is 0 for the empty string only
unfoldable pub first_rune : Bytes → ℕ × ℕ
unfolding second_ok decode_two decode_three decode_four
first_rune [] = (rune_error, 0)
first_rune (a ∷ rest) =
    if ltb a 0x80
    then (a, 1)
    else if between 0xC2 0xDF a
    then decode_two a rest
    else if between 0xE0 0xEF a
    then decode_three a rest
    else if between 0xF0 0xF4 a
    then decode_four a rest
    else (rune_error, 1)

decode_two-bounds :
    (a : ℕ) (s : Bytes) → (1 ≤ (decode_two a s).1) × ((decode_two a s).1 ≤ suc (length s))
unfolding decode_two
decode_two-bounds a [] = (omega arith, omega arith)
decode_two-bounds a (b ∷ s) = (ground arith, ground arith)

decode_three-bounds :
    (a : ℕ) (s : Bytes) → (1 ≤ (decode_three a s).1) × ((decode_three a s).1 ≤ suc (length s))
unfolding decode_three
decode_three-bounds a [] = (omega arith, omega arith)
decode_three-bounds a (b ∷ []) = (omega arith, omega arith)
decode_three-bounds a (b ∷ c ∷ s) = (ground arith, ground arith)

decode_four-bounds :
    (a : ℕ) (s : Bytes) → (1 ≤ (decode_four a s).1) × ((decode_four a s).1 ≤ suc (length s))
unfolding decode_four
decode_four-bounds a [] = (omega arith, omega arith)
decode_four-bounds a (b ∷ []) = (omega arith, omega arith)
decode_four-bounds a (b ∷ c ∷ []) = (omega arith, omega arith)
decode_four-bounds a (b ∷ c ∷ d ∷ s) = (ground arith, ground arith)

-- A rune takes a byte at least, and no more than there are.
pub first_rune-bounds :
    (a : ℕ) (s : Bytes) → (1 ≤ (first_rune (a ∷ s)).1) × ((first_rune (a ∷ s)).1 ≤ suc (length s))
unfolding first_rune
first_rune-bounds a s =
    let two = decode_two-bounds a s in
    let three = decode_three-bounds a s in
    let four = decode_four-bounds a s in (ground arith, ground arith)

-- The rune if it fills the whole of `s`.
exactly : Bytes → ℕ × ℕ
unfolding first_rune
exactly s = let (r, w) = first_rune s in if w == length s then (r, w) else (rune_error, 1)

-- `utf8.DecodeLastRuneInString` of the string whose bytes are given last first
unfoldable pub last_rune_reversed : Bytes → ℕ × ℕ
unfolding exactly
last_rune_reversed [] = (rune_error, 0)
last_rune_reversed (a ∷ []) = exactly (a ∷ [])
last_rune_reversed (a ∷ b ∷ []) = if ltb a 0x80 then (a, 1) else exactly (b ∷ a ∷ [])
last_rune_reversed (a ∷ b ∷ c ∷ []) =
    if ltb a 0x80
    then (a, 1)
    else if not (is_continuation b)
    then exactly (b ∷ a ∷ [])
    else exactly (c ∷ b ∷ a ∷ [])
last_rune_reversed (a ∷ b ∷ c ∷ d ∷ _) =
    if ltb a 0x80
    then (a, 1)
    else if not (is_continuation b)
    then exactly (b ∷ a ∷ [])
    else if not (is_continuation c)
    then exactly (c ∷ b ∷ a ∷ [])
    else if not (is_continuation d)
    then exactly (d ∷ c ∷ b ∷ a ∷ [])
    else (rune_error, 1)

-- The runes that `range` gives, each with its width. Every round takes a byte at least, so that the
-- length of the string is enough fuel.
unfoldable pub runes_loop : ℕ → ℕ → Bytes → List (ℕ × ℕ)
unfolding first_rune
runes_loop zero skip s = []
runes_loop (suc fuel) skip [] = []
runes_loop (suc fuel) (suc skip) (a ∷ rest) = runes_loop fuel skip rest
runes_loop (suc fuel) zero (a ∷ rest) =
    let (r, w) = first_rune (a ∷ rest) in (r, w) ∷ runes_loop fuel (w - 1) rest

unfoldable pub runes : Bytes → List (ℕ × ℕ)
unfolding runes_loop
runes s = runes_loop (length s) 0 s

-- `utf8.ValidString`: no byte is decoded to an error of width 1
abbrev valid_runes : List (ℕ × ℕ) → Bool
valid_runes [] = true
valid_runes ((r, w) ∷ rs) = not (r == rune_error && w == 1) && valid_runes rs

unfoldable pub valid_utf8 : Bytes → Bool
unfolding runes
valid_utf8 s = valid_runes (runes s)
