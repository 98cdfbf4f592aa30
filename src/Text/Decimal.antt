-- ===== src/Text/Decimal.antt =====
-- strconv: decimal numbers, and strings.TrimLeft(s, "0").
pub mod Show
use anilibria_torznab.Prelude.{
  ℕ, zero, suc, ◌+◌, ◌-◌, ◌*◌, ◌/◌, ◌%◌, ◌^◌, ◌≤◌, ◌≡◌, refl, true, false, ◌&&◌, Option, none, some,
  [], ◌∷◌, ℤ, pos, negsuc, arith, leb, ltb, ◌==◌, if◌then◌else◌, Bool-cases, inl, inr,
}
use anilibria_torznab.Text.ByteString.{Bytes, is_digit, all_bytes, is_empty}

-- The number that digits stand for, after those that make `acc`.
abbrev pub decimal_from : ℕ → Bytes → ℕ
decimal_from acc [] = acc
decimal_from acc (c ∷ s) = decimal_from (acc * 10 + (c - 48)) s

abbrev pub decimal : Bytes → ℕ
decimal s = decimal_from 0 s

-- `strconv.ParseUint(s, 10, bits)`: none is its error
unfoldable pub parse_uint : ℕ → Bytes → Option ℕ
parse_uint bits s =
    if is_empty s
    then none
    else if all_bytes is_digit s && ltb (decimal s) (2 ^ bits)
    then some (decimal s)
    else none

-- `strconv.ParseInt(s, 10, 64)`, and `strconv.Atoi` on 64 bits
unfoldable pub parse_int : Bytes → Option ℤ
unfolding parse_uint
parse_int [] = none
parse_int (c ∷ s) =
    if c == b'-'
    then elim (parse_uint 64 s) [
      | none ↦ none
      | some n ↦ if leb n (2 ^ 63) then some (negate n) else none
    ]
    else if c == b'+'
    then elim (parse_uint 64 s) [
      | none ↦ none
      | some n ↦ if ltb n (2 ^ 63) then some (pos n) else none
    ]
    else elim (parse_uint 64 (c ∷ s)) [
      | none ↦ none
      | some n ↦ if ltb n (2 ^ 63) then some (pos n) else none
    ]
  where
    negate : ℕ → ℤ
    negate zero = pos 0
    negate (suc n) = negsuc n

-- `strings.TrimLeft(s, "0")`
abbrev pub trim_zeros : Bytes → Bytes
trim_zeros [] = []
trim_zeros (c ∷ s) = let rest = trim_zeros s in if c == b'0' then rest else c ∷ s

-- Leading zeros do not count.
pub decimal-trim_zeros : (s : Bytes) → decimal (trim_zeros s) ≡ decimal s
decimal-trim_zeros [] = refl
decimal-trim_zeros (c ∷ s) = ground (arith, decimal-trim_zeros s)

pub decimal_from-le : (acc : ℕ) (s : Bytes) → acc ≤ decimal_from acc s
decimal_from-le acc [] = omega arith
decimal_from-le acc (c ∷ s) = omega (arith, decimal_from-le (acc * 10 + (c - 48)) s)

pub digits-trim_zeros :
    (s : Bytes) → all_bytes is_digit s ≡ true → all_bytes is_digit (trim_zeros s) ≡ true
digits-trim_zeros [] h = refl
digits-trim_zeros (c ∷ s) h = ground (arith, digits-trim_zeros s)

-- No zero stands first.
abbrev pub IsTrimmed : Bytes → Type 0
IsTrimmed [] = Unit
IsTrimmed (c ∷ s) = (c == b'0') ≡ false

pub trim_zeros-IsTrimmed : (s : Bytes) → IsTrimmed (trim_zeros s)
trim_zeros-IsTrimmed [] = tt
trim_zeros-IsTrimmed (c ∷ s) = elim (Bool-cases (c == b'0')) [
  | inl zero_first ↦ rw zero_first (trim_zeros-IsTrimmed s)
  | inr other ↦ rw other other
]

-- The digits of a number before those that are there, at most `count` of them
unfoldable pub show_loop : ℕ → ℕ → Bytes → Bytes
show_loop zero n shown = shown
show_loop (suc count) n shown =
    let more = show_loop count (n / 10) ((b'0' + n % 10) ∷ shown) in
    if ltb n 10 then (b'0' + n) ∷ shown else more

-- `strconv.Itoa` of a number of 64 bits, which has 20 digits at most
unfoldable pub show : ℕ → Bytes
unfolding show_loop
show n = show_loop 20 n []

-- `%02d`
unfoldable pub show_padded : ℕ → Bytes
unfolding show
show_padded n = if ltb n 10 then b'0' ∷ show n else show n
