-- ===== src/Text/Case.antt =====
-- strings.ToLower, and strings.EqualFold against an ASCII word in lower case. What unicode.ToLower
-- makes of the runes beyond ASCII is the table `lower`, a parameter.
use anilibria_torznab.Prelude.{
  ℕ, ◌+◌, ◌/◌, ◌%◌, Bool, true, false, ◌&&◌, ◌||◌, List, [], ◌∷◌, ◌++◌, ltb, ◌==◌, if◌then◌else◌,
}
use anilibria_torznab.Text.ByteString.{Bytes, lower_ascii}
use anilibria_torznab.Text.Utf8.{runes}

-- `utf8.AppendRune`
unfoldable pub encode_rune : ℕ → Bytes
encode_rune r =
    if ltb r 0x80
    then r ∷ []
    else if ltb r 0x800
    then (0xC0 + r / 64) ∷ (0x80 + r % 64) ∷ []
    else if ltb r 0x10000
    then (0xE0 + r / 4096) ∷ (0x80 + r / 64 % 64) ∷ (0x80 + r % 64) ∷ []
    else (0xF0 + r / 262144) ∷ (0x80 + r / 4096 % 64) ∷ (0x80 + r / 64 % 64) ∷ (0x80 + r % 64) ∷ []

unfoldable pub to_lower : (ℕ → ℕ) → Bytes → Bytes
unfolding encode_rune runes
to_lower lower s = lowered (runes s)
  where
    lowered : List (ℕ × ℕ) → Bytes
    lowered [] = []
    lowered ((r, w) ∷ rs) =
        encode_rune (if ltb r 0x80 then lower_ascii r else lower r) ++ lowered rs

-- A rune that folds to the lower case letter `c`: the Kelvin sign is a `k`, the long s an `s`.
unfoldable pub folds : ℕ → ℕ → Bool
folds c r = lower_ascii r == c || (c == b'k' && r == 0x212A) || (c == b's' && r == 0x17F)

unfoldable pub equal_fold : Bytes → Bytes → Bool
unfolding folds runes
equal_fold s word = go (runes s) word
  where
    go : List (ℕ × ℕ) → Bytes → Bool
    go [] [] = true
    go [] (c ∷ cs) = false
    go ((r, w) ∷ rs) [] = false
    go ((r, w) ∷ rs) (c ∷ cs) = folds c r && go rs cs
