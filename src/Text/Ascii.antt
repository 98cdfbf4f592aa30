-- ===== src/Text/Ascii.antt =====
-- Texts of ASCII, which are their own runes.
use anilibria_torznab.Prelude.{◌≡◌, ◌<◌, refl, [], ◌∷◌, All, length, arith}
use anilibria_torznab.Text.ByteString.{Bytes}
use anilibria_torznab.Text.Utf8.{first_rune, runes_loop, runes}
use anilibria_torznab.Text.RuneString.{rune_values, decode}

abbrev pub IsAscii : Bytes → Type 0
IsAscii s = All (λ c. c < 128) s

loop-ascii : (s : Bytes) → IsAscii s → rune_values (runes_loop (length s) 0 s) ≡ s
unfolding rune_values runes_loop first_rune
loop-ascii [] h = refl
loop-ascii (c ∷ s) h = let rest = loop-ascii s h.1 in let small = h.0 in ground arith

pub decode-ascii : (s : Bytes) → IsAscii s → decode s ≡ s
unfolding decode runes
decode-ascii s h = loop-ascii s h
