-- ===== src/Text/Spaces.antt =====
-- unicode.IsSpace and strings.TrimSpace.
use mathlib.Core.List.{reverse}
use anilibria_torznab.Prelude.{
  ℕ, zero, suc, Bool, ◌&&◌, ◌||◌, [], ◌∷◌, length, drop, leb, ◌==◌, if◌then◌else◌,
}
use anilibria_torznab.Text.ByteString.{Bytes}
use anilibria_torznab.Text.Utf8.{first_rune, last_rune_reversed}

-- `unicode.IsSpace`
unfoldable pub is_space : ℕ → Bool
is_space r =
    (leb 9 r && leb r 13)
    || r == 32
    || r == 0x85
    || r == 0xA0
    || r == 0x1680
    || (leb 0x2000 r && leb r 0x200A)
    || r == 0x2028
    || r == 0x2029
    || r == 0x202F
    || r == 0x205F
    || r == 0x3000

-- Every round takes a byte at least, so that the length of the string is enough fuel.
trim_left_loop : ℕ → Bytes → Bytes
unfolding first_rune is_space
trim_left_loop zero s = s
trim_left_loop (suc fuel) [] = []
trim_left_loop (suc fuel) (a ∷ s) =
    let (r, w) = first_rune (a ∷ s) in
    let rest = trim_left_loop fuel (drop w (a ∷ s)) in if is_space r then rest else a ∷ s

trim_right_loop : ℕ → Bytes → Bytes
unfolding last_rune_reversed is_space
trim_right_loop zero s = s
trim_right_loop (suc fuel) [] = []
trim_right_loop (suc fuel) (a ∷ s) =
    let (r, w) = last_rune_reversed (a ∷ s) in
    let rest = trim_right_loop fuel (drop w (a ∷ s)) in if is_space r then rest else a ∷ s

-- `strings.TrimSpace`
unfoldable pub trim_space : Bytes → Bytes
unfolding trim_left_loop trim_right_loop
trim_space s =
    let left = trim_left_loop (length s) s in reverse (trim_right_loop (length left) (reverse left))
