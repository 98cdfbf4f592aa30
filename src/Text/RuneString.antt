-- ===== src/Text/RuneString.antt =====
-- Strings as their runes.
use mathlib.Core.List.{reverse}
use anilibria_torznab.Prelude.{ℕ, zero, suc, ◌+◌, ◌-◌, List, [], ◌∷◌, ◌++◌, leb, if◌then◌else◌}
use anilibria_torznab.Text.ByteString.{Bytes}
use anilibria_torznab.Text.Utf8.{runes}
use anilibria_torznab.Text.Spaces.{is_space}
use anilibria_torznab.Text.Case.{encode_rune}

abbrev pub Runes : Type 0
Runes = List ℕ

-- The string of some runes
unfoldable pub encode : Runes → Bytes
encode [] = []
encode (r ∷ rest) = encode_rune r ++ encode rest

unfoldable pub rune_values : List (ℕ × ℕ) → Runes
rune_values [] = []
rune_values ((r, width) ∷ rest) = r ∷ rune_values rest

-- The runes of a string
unfoldable pub decode : Bytes → Runes
decode s = rune_values (runes s)

-- The bytes that some runes of a string take
unfoldable pub byte_offset : ℕ → List (ℕ × ℕ) → ℕ
byte_offset zero rs = 0
byte_offset (suc n) [] = 0
byte_offset (suc n) ((r, width) ∷ rs) = width + byte_offset n rs

-- A text without the spaces that it starts with
unfoldable pub skip_space : Runes → Runes
skip_space [] = []
skip_space (r ∷ rest) = let later = skip_space rest in if is_space r then later else r ∷ rest

-- `strings.TrimSpace` on runes
unfoldable pub trim_runes : Runes → Runes
trim_runes value = reverse (skip_space (reverse (skip_space value)))

-- `strings.ToUpper` on ASCII letters
unfoldable pub to_upper_ascii : Runes → Runes
to_upper_ascii [] = []
to_upper_ascii (r ∷ rest) =
    (if leb b'a' r then if leb r b'z' then r - 32 else r else r) ∷ to_upper_ascii rest
