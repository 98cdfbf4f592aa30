-- ===== src/Anilibria/Json/Encoding.antt =====
-- What `validJSONStringEncoding` accepts.
use anilibria_torznab.Prelude.{
  ℕ, zero, suc, ◌-◌, ◌≤◌, ◌<◌, ◌≡◌, inl, inr, ◌↔◌, refl, sym, ap, ◌∙◌, subst, Bool, true, false,
  Option, Option-cases, none, some, [], ◌∷◌, length, length-take, length-drop, take, drop, arith,
}
use anilibria_torznab.Text.{Bytes, first_rune-bounds}
use anilibria_torznab.Anilibria.Json.{
  hex_value, four_digits, json_hex_quad, width, encoding_loop, last_byte,
  valid_json_string_encoding,
}
use anilibria_torznab.Anilibria.Json.Leads.{
  Leads, Leads-width, width-Leads, ascii, escaped, unit, pair, rune,
}

-- What is left of a well encoded string is its closing quote, or starts with a character.
pub data Encoded : Bytes → Type 0 where
  closing : Encoded (b'"' ∷ [])
  next : (n : ℕ) (s : Bytes) → Leads n s → Encoded (drop n s) → Encoded s

Leads-pos : (n : ℕ) (s : Bytes) → Leads n s → 1 ≤ n
Leads-pos _ _ (ascii c s h k) = omega arith
Leads-pos _ _ (escaped c d s h) = omega arith
Leads-pos _ _ (unit a b c d code s e out) = omega arith
Leads-pos _ _ (pair a b c d e f g h i high low s q1 b1 q2 b2) = omega arith
Leads-pos _ _ (rune c d r n s big e fine) =
    let bound = first_rune-bounds c (take (length s) (d ∷ s)) in ground arith

encoding_loop-drop : (k : ℕ) (s : Bytes) → encoding_loop k s ≡ encoding_loop 0 (drop k s)
unfolding encoding_loop
encoding_loop-drop zero s = refl
encoding_loop-drop (suc k) [] = refl
encoding_loop-drop (suc k) (c ∷ s) = encoding_loop-drop k s

encoding_loop-next :
    (n : ℕ) (c d : ℕ) (s : Bytes)
    → width (c ∷ d ∷ s) ≡ some n
    → 1 ≤ n
    → encoding_loop 0 (c ∷ d ∷ s) ≡ encoding_loop 0 (drop n (c ∷ d ∷ s))
unfolding encoding_loop
encoding_loop-next zero c d s w h = absurd (omega arith)
encoding_loop-next (suc k) c d s w h =
    ap (λ o. elim o as (λ _. Bool) [ none ↦ false | some n ↦ encoding_loop (n - 1) (d ∷ s) ]) w
    ∙ ap (λ m. encoding_loop m (d ∷ s)) (omega arith)
    ∙ encoding_loop-drop k (d ∷ s)

Encoded-loop : (s : Bytes) → Encoded s → encoding_loop 0 s ≡ true
unfolding encoding_loop
Encoded-loop _ closing = refl
Encoded-loop _ (next n [] l e) = refl
Encoded-loop _ (next n (c ∷ []) l e) = refl
Encoded-loop _ (next n (c ∷ d ∷ s) l e) =
    encoding_loop-next n c d s (Leads-width n (c ∷ d ∷ s) l) (Leads-pos n (c ∷ d ∷ s) l)
    ∙ Encoded-loop (drop n (c ∷ d ∷ s)) e

four_digits-none : (a b c : Option ℕ) → four_digits a b c none ≡ none
unfolding four_digits
four_digits-none none b c = refl
four_digits-none (some a) none c = refl
four_digits-none (some a) (some b) none = refl
four_digits-none (some a) (some b) (some c) = refl

json_hex_quad-quote : (a b c code : ℕ) → json_hex_quad (a ∷ b ∷ c ∷ b'"' ∷ []) ≡ some code → ⊥
unfolding json_hex_quad hex_value
json_hex_quad-quote a b c code h =
    let no_value = four_digits-none (hex_value a) (hex_value b) (hex_value c) in
    absurd (ground arith)

Leads-lt :
    (n c d : ℕ) (s : Bytes)
    → last_byte (c ∷ d ∷ s) ≡ b'"'
    → Leads n (c ∷ d ∷ s)
    → n < length (c ∷ d ∷ s)
Leads-lt _ _ _ _ q (ascii c s h k) = omega arith
Leads-lt _ _ _ _ q (escaped c d s h) = omega arith
Leads-lt _ _ _ _ q (unit a b c d code [] e out) = absurd (no_quote a b c d code q e)
  where
    no_quote : (a b c d code : ℕ) → d ≡ b'"' → json_hex_quad (a ∷ b ∷ c ∷ d ∷ []) ≡ some code → ⊥
    no_quote a b c d code q e =
        let quote = ap (λ d. json_hex_quad (a ∷ b ∷ c ∷ d ∷ [])) (sym q) ∙ e in
        json_hex_quad-quote a b c code quote
Leads-lt _ _ _ _ q (unit a b c d code (x ∷ s) e out) = omega arith
Leads-lt _ _ _ _ q (pair a b c d e f g h i high low s q1 b1 q2 b2) = omega arith
Leads-lt _ _ _ _ q (rune c d r n s big e fine) =
    let bound = first_rune-bounds c (take (length s) (d ∷ s)) in
    let cut = length-take (length s) (d ∷ s) in ground arith

last_byte-drop : (n : ℕ) (s : Bytes) → n < length s → last_byte (drop n s) ≡ last_byte s
last_byte-drop zero s h = refl
last_byte-drop (suc n) [] h = absurd (omega arith)
last_byte-drop (suc n) (c ∷ []) h = absurd (omega arith)
last_byte-drop (suc n) (c ∷ d ∷ s) h = last_byte-drop n (d ∷ s) (omega arith)

loop-Encoded :
    (fuel : ℕ) (s : Bytes)
    → length s ≤ fuel
    → last_byte s ≡ b'"'
    → encoding_loop 0 s ≡ true
    → Encoded s
unfolding encoding_loop
loop-Encoded fuel [] fits q h = absurd (omega arith)
loop-Encoded fuel (c ∷ []) fits q h = subst (λ c. Encoded (c ∷ [])) (sym q) closing
loop-Encoded zero (c ∷ d ∷ s) fits q h = absurd (omega arith)
loop-Encoded (suc fuel) (c ∷ d ∷ s) fits q h = elim (Option-cases (width (c ∷ d ∷ s))) [
  | inl e ↦ absurd (ground arith)
  | inr (n, e) ↦
      let leads = width-Leads n c d s e in
      let pos = Leads-pos n (c ∷ d ∷ s) leads in
      let lt = Leads-lt n c d s q leads in
      let left = length-drop n (c ∷ d ∷ s) in
      next n (c ∷ d ∷ s) leads (
        loop-Encoded fuel (drop n (c ∷ d ∷ s)) (omega arith) (last_byte-drop n (c ∷ d ∷ s) lt ∙ q)
          (sym (encoding_loop-next n c d s e pos) ∙ h))
]

-- The strings that are found to be valid, of those between quotes, are the ones that are made of bytes of
-- ASCII, backslashes with what they escape, units outside of the surrogates, pairs of surrogates in order, and
-- runes of UTF-8.
pub valid_json_string_encoding_lem :
    (s : Bytes) → last_byte s ≡ b'"' → (valid_json_string_encoding (b'"' ∷ s) ≡ true) ↔ Encoded s
unfolding valid_json_string_encoding
valid_json_string_encoding_lem [] q = absurd (omega arith)
valid_json_string_encoding_lem (d ∷ s) q = (
  λ h. loop-Encoded (length (d ∷ s)) (d ∷ s) (omega arith) q (ground arith),
  λ e. let h = Encoded-loop (d ∷ s) e in ground arith,
)
