-- ===== src/Config/Bounds.antt =====
-- What the settings are that are loaded.
use anilibria_torznab.Prelude.{
  ℕ, ◌*◌, ◌≤◌, ◌≡◌, refl, subst, inl, inr, true, ℤ, pos, negsuc, length, Option-cases, arith,
}
use anilibria_torznab.Text.{Bytes, valid_utf8, parse_int}
use anilibria_torznab.BaseUrl.Slash.{IsBase, with_slash-IsBase}
use anilibria_torznab.BaseUrl.{Url, with_slash}
use anilibria_torznab.Config.{
  Loaded, loaded, invalid, and_then, Environment, within, scale, split_unit, byte_size_of, api_key,
  parse_https_base_url, duration, integer, byte_size,
}

loaded-injective : {A : Type 0} {a b : A} → loaded a ≡ loaded b → a ≡ b
loaded-injective h = ground arith

-- What holds of the result for every value that the first step may load.
pub and_then-rule :
    {A B : Type 0} (P : B → Type 0) (m : Loaded A) (f : A → Loaded B)
    → ((a : A) → m ≡ loaded a → (b : B) → f a ≡ loaded b → P b)
    → (b : B) → and_then m f ≡ loaded b
    → P b
unfolding and_then
and_then-rule P (loaded a) f step b h = step a refl b h
and_then-rule P (invalid name) f step b h = absurd (ground arith)

pub loaded-rule : {A : Type 0} (P : A → Type 0) (a b : A) → P a → loaded a ≡ loaded b → P b
loaded-rule P a b p h = subst P (loaded-injective h) p

within-bounds :
    (name : Bytes) (low high : ℕ) (z : ℤ) (n : ℕ)
    → within name low high z ≡ loaded n
    → (low ≤ n) × (n ≤ high)
unfolding within
within-bounds name low high (negsuc k) n h = absurd (ground arith)
within-bounds name low high (pos k) n h = (ground arith, ground arith)

pub duration-bounds :
    (env : Environment) (name : Bytes) (fallback low high n : ℕ)
    → low ≤ fallback
    → fallback ≤ high
    → duration env name fallback low high ≡ loaded n
    → (low ≤ n) × (n ≤ high)
unfolding duration
duration-bounds env name fallback low high n hl hh h = elim (Option-cases (env.getenv name)) [
  | inl e ↦ ground arith
  | inr (raw, e) ↦ elim (Option-cases (env.parse_duration raw)) [
    | inl d ↦ absurd (ground arith)
    | inr (z, d) ↦ within-bounds name low high z n (ground arith)
  ]
]

pub integer-bounds :
    (env : Environment) (name : Bytes) (fallback low high n : ℕ)
    → low ≤ fallback
    → fallback ≤ high
    → integer env name fallback low high ≡ loaded n
    → (low ≤ n) × (n ≤ high)
unfolding integer
integer-bounds env name fallback low high n hl hh h = elim (Option-cases (env.getenv name)) [
  | inl e ↦ ground arith
  | inr (raw, e) ↦ elim (Option-cases (parse_int raw)) [
    | inl d ↦ absurd (ground arith)
    | inr (z, d) ↦ within-bounds name low high z n (ground arith)
  ]
]

scale-bounds :
    (name : Bytes) (low high multiplier : ℕ) (z : ℤ) (n : ℕ)
    → scale name low high multiplier z ≡ loaded n
    → (low ≤ n) × (n ≤ high)
unfolding scale
scale-bounds name low high multiplier (negsuc k) n h = absurd (ground arith)
scale-bounds name low high multiplier (pos k) n h =
    within-bounds name low high (pos (k * multiplier)) n (ground arith)

pub byte_size-bounds :
    (env : Environment) (name : Bytes) (fallback low high n : ℕ)
    → low ≤ fallback
    → fallback ≤ high
    → byte_size env name fallback low high ≡ loaded n
    → (low ≤ n) × (n ≤ high)
unfolding byte_size byte_size_of
byte_size-bounds env name fallback low high n hl hh h = elim (Option-cases (env.getenv name)) [
  | inl e ↦ ground arith
  | inr (raw, e) ↦ elim (Option-cases (parse_int (split_unit raw).0)) [
    | inl d ↦ absurd (ground arith)
    | inr (z, d) ↦ scale-bounds name low high (split_unit raw).1 z n (ground arith)
  ]
]

pub api_key-bounds :
    (env : Environment) (key : Bytes)
    → api_key env ≡ loaded key
    → (1 ≤ length key) × (length key ≤ 1024) × (valid_utf8 key ≡ true)
unfolding api_key
api_key-bounds env key h = (ground arith, ground arith, ground arith)

pub parse_https_base_url-IsBase :
    (env : Environment) (name raw : Bytes) (url : Url)
    → parse_https_base_url env name raw ≡ loaded url
    → IsBase url
unfolding parse_https_base_url
parse_https_base_url-IsBase env name raw url h = elim (Option-cases (env.net_url.parse raw)) [
  | inl e ↦ absurd (ground arith)
  | inr (u, e) ↦
      loaded-rule IsBase (with_slash env.net_url u) url
        (with_slash-IsBase env.net_url u (ground arith) (ground arith) (ground arith) (ground arith)
          (ground arith))
        (ground arith)
]
