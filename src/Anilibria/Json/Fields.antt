-- ===== src/Anilibria/Json/Fields.antt =====
-- The strings of a torrent that is accepted.
use anilibria_torznab.Prelude.{◌≢◌, ◌⊎◌, [], ◌∷◌}
use anilibria_torznab.Text.{Bytes}
use anilibria_torznab.Anilibria.Json.{last_byte}
use anilibria_torznab.Anilibria.Json.Encoding.{Encoded}

-- A raw JSON value is no string, or one that is well encoded.
abbrev pub IsFine : Bytes → Type 0
IsFine [] = Unit
IsFine (c ∷ s) = (c ≢ b'"') ⊎ ((last_byte s ≢ b'"') ⊎ Encoded s)
