-- ===== src/Anilibria/Json/Leads.antt =====
-- What a character of a JSON string takes, and what the steps of the loop find.
use anilibria_torznab.Prelude.{
  ℕ, ◌≤◌, ◌<◌, ◌≡◌, ◌≢◌, ◌⊎◌, inl, inr, refl, ap, ◌∙◌, subst, Bool-cases, false, ◌&&◌, Option,
  Option-cases, none, some, [], ◌∷◌, length, take, drop, leb, ltb, ◌==◌, arith,
}
use anilibria_torznab.Text.{Bytes, first_rune, rune_error}
use anilibria_torznab.Anilibria.Json.{
  json_hex_quad, is_escaped_unit, low_width, pair_width, unit_width, escape_width, rune_width,
  width,
}

-- A text starts with the encoding of a character, of so many bytes, that ends before the closing quote: a byte
-- of ASCII, a backslash with any byte but u, a unit outside of the surrogates, a high surrogate with a low
-- one, or a rune of UTF-8.
pub data Leads : ℕ → Bytes → Type 0 where
  ascii : (c : ℕ) (s : Bytes) → c ≢ b'\\' → c < 0x80 → Leads 1 (c ∷ s)
  escaped : (c d : ℕ) (s : Bytes) → c ≢ b'u' → Leads 2 (b'\\' ∷ c ∷ d ∷ s)
  unit :
      (a b c d code : ℕ) (s : Bytes)
      → json_hex_quad (a ∷ b ∷ c ∷ d ∷ s) ≡ some code
      → (code < 0xd800) ⊎ (0xdfff < code)
      → Leads 6 (b'\\' ∷ b'u' ∷ a ∷ b ∷ c ∷ d ∷ s)
  pair :
      (a b c d e f g h i high low : ℕ) (s : Bytes)
      → json_hex_quad (a ∷ b ∷ c ∷ d ∷ []) ≡ some high
      → (0xd800 ≤ high) × (high ≤ 0xdbff)
      → json_hex_quad (e ∷ f ∷ g ∷ h ∷ []) ≡ some low
      → (0xdc00 ≤ low) × (low ≤ 0xdfff)
      → Leads 12 (b'\\' ∷ b'u' ∷ a ∷ b ∷ c ∷ d ∷ b'\\' ∷ b'u' ∷ e ∷ f ∷ g ∷ h ∷ i ∷ s)
  rune :
      (c d r n : ℕ) (s : Bytes)
      → 0x80 ≤ c
      → first_rune (take (length (d ∷ s)) (c ∷ d ∷ s)) ≡ (r, n)
      → (r ≢ rune_error) ⊎ (n ≢ 1)
      → Leads n (c ∷ d ∷ s)

json_hex_quad-behind :
    (a b c d : ℕ) (s t : Bytes)
    → json_hex_quad (a ∷ b ∷ c ∷ d ∷ s) ≡ json_hex_quad (a ∷ b ∷ c ∷ d ∷ t)
unfolding json_hex_quad
json_hex_quad-behind a b c d s t = refl

unit_width-outside :
    (code : ℕ) (s : Bytes) → (code < 0xd800) ⊎ (0xdfff < code) → unit_width (some code) s ≡ some 6
unfolding unit_width
unit_width-outside code s (inl h) = ground arith
unit_width-outside code s (inr h) = ground arith

unit_width-high :
    (high : ℕ) (s : Bytes)
    → (0xd800 ≤ high) × (high ≤ 0xdbff)
    → unit_width (some high) s ≡ pair_width s
unfolding unit_width
unit_width-high high s (l, h) = ground arith

pair_width-low :
    (e f g h i low : ℕ) (s : Bytes)
    → json_hex_quad (e ∷ f ∷ g ∷ h ∷ i ∷ s) ≡ some low
    → (0xdc00 ≤ low) × (low ≤ 0xdfff)
    → pair_width (b'\\' ∷ b'u' ∷ e ∷ f ∷ g ∷ h ∷ i ∷ s) ≡ some 12
unfolding pair_width is_escaped_unit low_width
pair_width-low e f g h i low s q (l, k) = ground arith

pub Leads-width : (n : ℕ) (s : Bytes) → Leads n s → width s ≡ some n
unfolding width escape_width rune_width
Leads-width _ _ (ascii c s h k) = ground arith
Leads-width _ _ (escaped c d s h) = ground arith
Leads-width _ _ (unit a b c d code s e out) =
    ap (λ o. unit_width o s) e ∙ unit_width-outside code s out
Leads-width _ _ (pair a b c d e f g h i high low s q1 b1 q2 b2) =
    let t = b'\\' ∷ b'u' ∷ e ∷ f ∷ g ∷ h ∷ i ∷ s in
    ap (λ o. unit_width o t) (json_hex_quad-behind a b c d t [] ∙ q1)
    ∙ unit_width-high high t b1
    ∙ pair_width-low e f g h i low s (json_hex_quad-behind e f g h (i ∷ s) [] ∙ q2) b2
Leads-width _ _ (rune c d r n s big e (inl h)) = ground arith
Leads-width _ _ (rune c d r n s big e (inr h)) = ground arith

pair_width-Leads :
    (a b c d high n : ℕ) (t : Bytes)
    → json_hex_quad (a ∷ b ∷ c ∷ d ∷ []) ≡ some high
    → (0xd800 ≤ high) × (high ≤ 0xdbff)
    → pair_width t ≡ some n
    → Leads n (b'\\' ∷ b'u' ∷ a ∷ b ∷ c ∷ d ∷ t)
unfolding pair_width is_escaped_unit low_width
pair_width-Leads a b c d high n (x ∷ y ∷ e ∷ f ∷ g ∷ h ∷ i ∷ s) q bounds k =
    elim (Option-cases (json_hex_quad (e ∷ f ∷ g ∷ h ∷ i ∷ s))) [
      | inl none_found ↦ absurd (ground arith)
      | inr (low, found) ↦
          let x92 : b'\\' ≡ x = ground arith in
          let y117 : b'u' ≡ y = ground arith in
          let n12 : 12 ≡ n = ground arith in
          let low_bounds : (0xdc00 ≤ low) × (low ≤ 0xdfff) = (ground arith, ground arith) in
          subst (λ n. Leads n (b'\\' ∷ b'u' ∷ a ∷ b ∷ c ∷ d ∷ x ∷ y ∷ e ∷ f ∷ g ∷ h ∷ i ∷ s)) n12
            (subst (λ x. Leads 12 (b'\\' ∷ b'u' ∷ a ∷ b ∷ c ∷ d ∷ x ∷ y ∷ e ∷ f ∷ g ∷ h ∷ i ∷ s))
              x92
              (subst
                (λ y. Leads 12 (b'\\' ∷ b'u' ∷ a ∷ b ∷ c ∷ d ∷ b'\\' ∷ y ∷ e ∷ f ∷ g ∷ h ∷ i ∷ s))
                y117
                (pair a b c d e f g h i high low s q bounds
                  (json_hex_quad-behind e f g h [] (i ∷ s) ∙ found) low_bounds)))
    ]
pair_width-Leads a b c d high n [] q bounds k = absurd (ground arith)
pair_width-Leads a b c d high n (x ∷ []) q bounds k = absurd (ground arith)
pair_width-Leads a b c d high n (x ∷ y ∷ []) q bounds k = absurd (ground arith)
pair_width-Leads a b c d high n (x ∷ y ∷ e ∷ []) q bounds k = absurd (ground arith)
pair_width-Leads a b c d high n (x ∷ y ∷ e ∷ f ∷ []) q bounds k = absurd (ground arith)
pair_width-Leads a b c d high n (x ∷ y ∷ e ∷ f ∷ g ∷ []) q bounds k = absurd (ground arith)
pair_width-Leads a b c d high n (x ∷ y ∷ e ∷ f ∷ g ∷ h ∷ []) q bounds k = absurd (ground arith)

unit_width-Leads :
    (a b c d n : ℕ) (s : Bytes) (o : Option ℕ)
    → json_hex_quad (a ∷ b ∷ c ∷ d ∷ s) ≡ o
    → unit_width o s ≡ some n
    → Leads n (b'\\' ∷ b'u' ∷ a ∷ b ∷ c ∷ d ∷ s)
unfolding unit_width
unit_width-Leads a b c d n s none q k = absurd (ground arith)
unit_width-Leads a b c d n s (some code) q k =
    elim (Bool-cases (leb 0xd800 code && leb code 0xdbff)) [
      | inl high ↦
          pair_width-Leads a b c d code n s (json_hex_quad-behind a b c d [] s ∙ q)
            (ground arith, ground arith) (ground arith)
      | inr other ↦
          let n6 : 6 ≡ n = ground arith in
          subst (λ n. Leads n (b'\\' ∷ b'u' ∷ a ∷ b ∷ c ∷ d ∷ s)) n6
            (unit a b c d code s q (outside code other (ground arith)))
    ]
  where
    outside :
        (code : ℕ)
        → (leb 0xd800 code && leb code 0xdbff) ≡ false
        → (leb 0xdc00 code && leb code 0xdfff) ≡ false
        → (code < 0xd800) ⊎ (0xdfff < code)
    outside code h l = elim (Bool-cases (ltb code 0xd800)) [
      | inl below ↦ inl (ground arith)
      | inr above ↦ inr (ground arith)
    ]

escape_width-Leads : (n : ℕ) (s : Bytes) → escape_width s ≡ some n → Leads n (b'\\' ∷ s)
unfolding escape_width json_hex_quad unit_width
escape_width-Leads n [] h = absurd (ground arith)
escape_width-Leads n (c ∷ []) h = absurd (ground arith)
escape_width-Leads n (x ∷ a ∷ s) h = elim (Bool-cases (x == b'u')) [
  | inr other ↦
      let n2 : 2 ≡ n = ground arith in
      subst (λ n. Leads n (b'\\' ∷ x ∷ a ∷ s)) n2 (escaped x a s (λ e. absurd (ground arith)))
  | inl u ↦
      let x117 : b'u' ≡ x = ground arith in
      subst (λ x. Leads n (b'\\' ∷ x ∷ a ∷ s)) x117 (by_digits a s (ground arith))
]
  where
    by_digits :
        (a : ℕ) (s : Bytes)
        → unit_width (json_hex_quad (a ∷ s)) (drop 4 (a ∷ s)) ≡ some n
        → Leads n (b'\\' ∷ b'u' ∷ a ∷ s)
    by_digits a [] h = absurd (ground arith)
    by_digits a (b ∷ []) h = absurd (ground arith)
    by_digits a (b ∷ c ∷ []) h = absurd (ground arith)
    by_digits a (b ∷ c ∷ d ∷ s) h = unit_width-Leads a b c d n s _ refl h

rune_width-some : (r k n : ℕ) → rune_width (r, k) ≡ some n → (k ≡ n) × ((r ≢ rune_error) ⊎ (n ≢ 1))
unfolding rune_width
rune_width-some r k n h = elim (Bool-cases (r == rune_error)) [
  | inl e ↦ (ground arith, inr (λ one. absurd (ground arith)))
  | inr e ↦ (ground arith, inl (λ same. absurd (ground arith)))
]

pub width-Leads : (n c d : ℕ) (s : Bytes) → width (c ∷ d ∷ s) ≡ some n → Leads n (c ∷ d ∷ s)
unfolding width rune_width
width-Leads n c d s h = elim (Bool-cases (c == b'\\')) [
  | inl escape ↦
      let c92 : b'\\' ≡ c = ground arith in
      subst (λ c. Leads n (c ∷ d ∷ s)) c92 (escape_width-Leads n (d ∷ s) (ground arith))
  | inr other ↦ elim (Bool-cases (ltb c 0x80)) [
    | inl small ↦
        let n1 : 1 ≡ n = ground arith in
        subst (λ n. Leads n (c ∷ d ∷ s)) n1
          (ascii c (d ∷ s) (λ e. absurd (ground arith)) (ground arith))
    | inr big ↦
        let decoded = first_rune (take (length (d ∷ s)) (c ∷ d ∷ s)) in
        let (same_width, fine) = rune_width-some decoded.0 decoded.1 n (ground arith) in
        rune c d decoded.0 n s (ground arith) (ap (λ k. (decoded.0, k)) same_width) fine
  ]
]
