-- ===== src/Anilibria/Models/Soundness.antt =====
-- What holds of every torrent that is accepted.
use anilibria_torznab.Prelude.{
  ℕ, suc, ◌+◌, ◌^◌, ◌≤◌, ◌<◌, ◌≡◌, refl, sym, ap, ◌∙◌, subst, inl, inr, ◌⊎◌, Bool, true, false,
  ◌&&◌, ◌||◌, Option, none, some, some-injective, List, [], ◌∷◌, ℤ, pos, negsuc, map, length, All,
  leb, Option-cases, arith,
}
use anilibria_torznab.Text.{Bytes, all_bytes, is_digit, lower_ascii, parse_int, parse_uint}
use anilibria_torznab.Service.Processing.{Torrent, maximum_int64}
use anilibria_torznab.Service.Processing.Feed.{IsInt64}
use anilibria_torznab.Anilibria.Models.{
  RawTorrent, Parsers, Validated, valid, flawed, check, ensure, is_hex_digit, normalize_info_hash,
  natural_of, non_negative_integer, above_zero, positive_integer, validate_texts, validate_fields,
  validate_torrent, validate_release, valid_torrents,
}

abbrev pub is_lower_hex : ℕ → Bool
is_lower_hex c = is_digit c || (leb b'a' c && leb c b'f')

-- A torrent with a normal hash, of a release with a number, and counts of 64 bits.
pub record IsSound (t : Torrent) : Type 0 where
  pub hash_length : length t.hash ≡ 40
  pub hash_digits : all_bytes is_lower_hex t.hash ≡ true
  pub counts : IsInt64 t
  pub size : t.size ≤ maximum_int64
  pub seeders : t.seeders ≤ maximum_int64
  pub completed_times : t.completed_times ≤ maximum_int64
  pub release : 1 ≤ t.release.id

length-lower : (s : Bytes) → length (map lower_ascii s) ≡ length s
length-lower [] = refl
length-lower (c ∷ s) = ap suc (length-lower s)

digits-lower :
    (s : Bytes)
    → all_bytes is_hex_digit s ≡ true
    → all_bytes is_lower_hex (map lower_ascii s) ≡ true
unfolding is_hex_digit
digits-lower [] h = refl
digits-lower (c ∷ s) h = ground (arith, digits-lower s)

normalize_info_hash-digits :
    (value hash : Bytes)
    → normalize_info_hash value ≡ some hash
    → (length hash ≡ 40) × (all_bytes is_lower_hex hash ≡ true)
unfolding normalize_info_hash
normalize_info_hash-digits value hash h =
    (ground (arith, length-lower value), ground (arith, digits-lower value))

parse_int-lt : (s : Bytes) (n : ℕ) → parse_int s ≡ some (pos n) → n < 2 ^ 63
unfolding parse_int parse_uint
parse_int-lt [] n h = absurd (ground arith)
parse_int-lt (c ∷ s) n h = ground arith

natural-lt : (value : Bytes) (n : ℕ) → non_negative_integer value ≡ some n → n ≤ maximum_int64
unfolding non_negative_integer natural_of
natural-lt value n h = elim (Option-cases (parse_int value)) [
  | inl e ↦ absurd (ground arith)
  | inr (z, e) ↦ bounded z e (ap natural_of (sym e) ∙ h)
]
  where
    bounded : (z : ℤ) → parse_int value ≡ some z → natural_of (some z) ≡ some n → n ≤ maximum_int64
    bounded (pos k) e e' = ground (arith, parse_int-lt value k e)
    bounded (negsuc k) e e' = absurd (ground arith)

positive_integer-le :
    (parsers : Parsers) (value : Bytes) (n : ℕ) → positive_integer parsers value ≡ some n → 1 ≤ n
unfolding positive_integer above_zero
positive_integer-le parsers value n h = ground arith

check-rule :
    {A B : Type 0} (P : B → Type 0) (o : Option A) (field : Bytes) (next : A → Validated B)
    → ((a : A) → o ≡ some a → (b : B) → next a ≡ valid b → P b)
    → (b : B) → check o field next ≡ valid b
    → P b
unfolding check
check-rule P none field next step b h = absurd (ground arith)
check-rule P (some a) field next step b h = step a refl b h

ensure-rule :
    {B : Type 0} (P : B → Type 0) (c : Bool) (field : Bytes) (next : Validated B)
    → ((b : B) → next ≡ valid b → P b)
    → (b : B) → ensure c field next ≡ valid b
    → P b
unfolding ensure
ensure-rule P true field next step b h = step b h
ensure-rule P false field next step b h = absurd (ground arith)

valid-rule : {A : Type 0} (P : A → Type 0) (a b : A) → P a → valid a ≡ valid b → P b
valid-rule P a b p h = let e : a ≡ b = ground arith in subst P e p

validate_texts-rule :
    (P : Torrent → Type 0) (parsers : Parsers) (raw : RawTorrent) (hash : Bytes) (t : Torrent)
    → P t
    → (b : Torrent) → validate_texts parsers raw hash t ≡ valid b
    → P b
unfolding validate_texts
validate_texts-rule P parsers raw hash t p = ensure-rule P _ _ _ (
    ensure-rule P _ _ _ (
      ensure-rule P _ _ _
        (ensure-rule P _ _ _ (ensure-rule P _ _ _ (λ b h. valid-rule P t b p h)))))

validate_fields-IsSound :
    (parsers : Parsers) (raw : RawTorrent) (t : Torrent)
    → validate_fields parsers raw ≡ valid t
    → IsSound t
unfolding validate_fields IsInt64
validate_fields-IsSound parsers raw = check-rule IsSound _ _ _ (λ hash eh.
    check-rule IsSound _ _ _ (λ size es. check-rule IsSound _ _ _ (λ seeders ee.
      check-rule IsSound _ _ _ (λ leechers el. check-rule IsSound _ _ _ (λ completed ec.
        check-rule IsSound _ _ _ (λ release_id ei. check-rule IsSound _ _ _ (λ year ey.
          ensure-rule IsSound _ _ _ (
            check-rule IsSound _ _ _ (λ updated_at eu.
              let (size_of, digits) = normalize_info_hash-digits raw.hash hash eh in
              validate_texts-rule IsSound parsers raw hash _ (record {
                hash_length = size_of;
                hash_digits = digits;
                counts = natural-lt raw.leechers leechers el;
                size = natural-lt raw.size size es;
                seeders = natural-lt raw.seeders seeders ee;
                completed_times = natural-lt raw.completed_times completed ec;
                release = positive_integer-le parsers raw.release_id release_id ei;
              }))))))))))

validate_torrent-IsSound :
    (parsers : Parsers) (raw : RawTorrent) (t : Torrent)
    → validate_torrent parsers raw ≡ valid t
    → IsSound t
unfolding validate_torrent
validate_torrent-IsSound parsers raw t h = elim (Option-cases raw.invalid_string) [
  | inl e ↦ validate_fields-IsSound parsers raw t (ground arith)
  | inr (field, e) ↦ absurd (ground arith)
]

-- A torrent of the release that was asked for, where one was
unfoldable pub IsOf : ℕ → Torrent → Type 0
IsOf expected t = IsSound t × ((expected ≡ 0) ⊎ (t.release.id ≡ expected))

validate_release-IsOf :
    (expected : ℕ) (v : Validated Torrent) (t : Torrent)
    → ((u : Torrent) → v ≡ valid u → IsSound u)
    → validate_release expected v ≡ valid t
    → IsOf expected t
unfolding validate_release IsOf
validate_release-IsOf expected (flawed field) t sound h = absurd (ground arith)
validate_release-IsOf expected (valid u) t sound h =
    let e : u ≡ t = ground arith in (subst IsSound e (sound u refl), ground arith)

Validated-cases :
    (v : Validated Torrent)
    → ((t : Torrent) × (v ≡ valid t)) ⊎ ((field : Bytes) × (v ≡ flawed field))
Validated-cases (valid t) = inl (t, refl)
Validated-cases (flawed field) = inr (field, refl)

-- The torrents that a response is turned into have a hash of 40 lower case hexadecimal digits, 64-bit
-- counts, a release with a number above zero, which is the one that was asked for, where one was; and
-- every torrent of the response is among them or counted as not valid.
pub valid_torrents-IsOf :
    (parsers : Parsers) (done : ℕ → Bool) (expected i : ℕ) (raws : List RawTorrent)
    (ts : List Torrent)
    → (valid_torrents parsers done expected i raws).1 ≡ some ts
    → All (IsOf expected) ts
      × ((valid_torrents parsers done expected i raws).0 + length ts ≡ length raws)
unfolding valid_torrents
valid_torrents-IsOf parsers done expected i [] ts h =
    let e : [] ≡ ts = some-injective _ _ h in (subst (All (IsOf expected)) e tt, ground arith)
valid_torrents-IsOf parsers done expected i (raw ∷ raws) ts h =
    let rest = valid_torrents parsers done expected (i + 1) raws in
    elim (Validated-cases (validate_release expected (validate_torrent parsers raw))) [
      | inr (field, e) ↦
          let (sound, counted) =
            valid_torrents-IsOf parsers done expected (i + 1) raws ts (ground arith) in
          (sound, ground arith)
      | inl (t, e) ↦ elim (Option-cases rest.1) [
        | inl e' ↦ absurd (ground arith)
        | inr (us, e') ↦
            let (sound, counted) = valid_torrents-IsOf parsers done expected (i + 1) raws us e' in
            let one =
              validate_release-IsOf expected (validate_torrent parsers raw) t
                (validate_torrent-IsSound parsers raw) e in
            let all : t ∷ us ≡ ts = ground arith in
            (subst (All (IsOf expected)) all (one, sound), ground arith)
      ]
    ]
