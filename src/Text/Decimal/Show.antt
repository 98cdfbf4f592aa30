-- ===== src/Text/Decimal/Show.antt =====
-- A number that is printed reads as itself.
use native.Mathlib.Nat.{pow-succ'}
use anilibria_torznab.Prelude.{
  ◌≤◌, length, ℕ, zero, suc, ◌+◌, ◌-◌, ◌*◌, ◌/◌, ◌%◌, ◌^◌, ◌<◌, ◌≡◌, refl, ap, ◌∙◌, true, false, [],
  ◌∷◌, ltb, if_rule, arith,
}
use anilibria_torznab.Text.ByteString.{Bytes, is_digit, all_bytes, is_empty}
use anilibria_torznab.Text.Decimal.{decimal_from, decimal, show_loop, show, show_padded}

-- A number of some digits
abbrev ShownAs : ℕ → Bytes → Bytes → Type 0
ShownAs n behind shown =
    (decimal shown ≡ decimal_from n behind)
    × (all_bytes is_digit behind ≡ true → all_bytes is_digit shown ≡ true)
    × (is_empty shown ≡ false)

last-ShownAs : (n : ℕ) (behind : Bytes) → n < 10 → ShownAs n behind ((48 + n) ∷ behind)
last-ShownAs n behind h =
    let value : 0 * 10 + (48 + n - 48) ≡ n = omega arith in
    (ap (λ k. decimal_from k behind) value, λ d. ground arith, refl)

more-ShownAs :
    (n : ℕ) (behind shown : Bytes)
    → ShownAs (n / 10) ((48 + n % 10) ∷ behind) shown
    → ShownAs n behind shown
more-ShownAs n behind shown (value, digits, some_digit) =
    let whole : n / 10 * 10 + (48 + n % 10 - 48) ≡ n = omega arith in
    (
      value ∙ ap (λ k. decimal_from k behind) whole,
      λ d. digits (let low : n % 10 < 10 = omega arith in ground arith),
      some_digit,
    )

show_loop-ShownAs :
    (count n : ℕ) (behind : Bytes)
    → n < 10 ^ suc count
    → ShownAs n behind (show_loop (suc count) n behind)
unfolding show_loop
show_loop-ShownAs zero n behind h =
    if_rule (ShownAs n behind) (ltb n 10) (λ e. last-ShownAs n behind (ground arith))
      (λ e. absurd (ground arith))
show_loop-ShownAs (suc count) n behind h =
    if_rule (ShownAs n behind) (ltb n 10) (λ e. last-ShownAs n behind (ground arith))
      (λ e.
        let power : 10 ^ suc (suc count) ≡ 10 * 10 ^ suc count = pow-succ' 10 (suc count) in
        more-ShownAs n behind _
          (show_loop-ShownAs count (n / 10) ((48 + n % 10) ∷ behind) (omega arith)))

-- A number of 64 bits that is printed is some digits that stand for it.
pub show_padded-ShownAs :
    (n : ℕ)
    → n < 10 ^ 20
    → (decimal (show_padded n) ≡ n)
      × (all_bytes is_digit (show_padded n) ≡ true)
      × (is_empty (show_padded n) ≡ false)
unfolding show_padded show
show_padded-ShownAs n h =
    let (value, digits, some_digit) = show_loop-ShownAs 19 n [] h in
    if_rule (λ (s : Bytes). (decimal s ≡ n) × (all_bytes is_digit s ≡ true) × (is_empty s ≡ false))
      (ltb n 10) (λ e. (value, digits refl, refl)) (λ e. (value, digits refl, some_digit))

pub decimal-show : (n : ℕ) → n < 10 ^ 20 → decimal (show n) ≡ n
unfolding show
decimal-show n h = (show_loop-ShownAs 19 n [] h).0

show_loop-length :
    (count n : ℕ) (behind : Bytes) → length (show_loop count n behind) ≤ count + length behind
unfolding show_loop
show_loop-length zero n behind = omega arith
show_loop-length (suc count) n behind =
    let more = show_loop-length count (n / 10) ((48 + n % 10) ∷ behind) in
    if_rule (λ (s : Bytes). length s ≤ suc count + length behind) (ltb n 10) (λ e. omega arith)
      (λ e. omega arith)

-- What is printed has 21 digits at most.
pub show_padded-length : (n : ℕ) → length (show_padded n) ≤ 21
unfolding show_padded show
show_padded-length n =
    let shown = show_loop-length 20 n [] in
    if_rule (λ (s : Bytes). length s ≤ 21) (ltb n 10) (λ e. omega arith) (λ e. omega arith)
