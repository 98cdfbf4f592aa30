-- ===== src/Torznab/Document/Errors.antt =====
-- Which protocol errors have a document.
use anilibria_torznab.Prelude.{
  ℕ, ◌≡◌, ◌⊎◌, inl, inr, ◌↔◌, refl, ap, ◌∙◌, Bool, Bool-cases, true, ◌||◌, Option, some, ◌++◌, ◌==◌,
  arith,
}
use anilibria_torznab.Text.{Bytes, codes, same, same_iff}
use anilibria_torznab.Torznab.Parameter.{Parameter}
use anilibria_torznab.Torznab.Document.{Node, parameter_valid, error_document, error_of}

-- The text of a canonical parameter
unfoldable pub parameter_name : Parameter → Bytes
parameter_name Parameter.api_key = codes "apikey"
parameter_name Parameter.type = codes "t"
parameter_name Parameter.query = codes "q"
parameter_name Parameter.category = codes "cat"
parameter_name Parameter.limit = codes "limit"
parameter_name Parameter.offset = codes "offset"
parameter_name Parameter.extended = codes "extended"
parameter_name Parameter.season = codes "season"
parameter_name Parameter.episode = codes "ep"

parameter_name-valid : (p : Parameter) → parameter_valid (parameter_name p) ≡ true
unfolding parameter_valid parameter_name
parameter_name-valid Parameter.api_key = refl
parameter_name-valid Parameter.type = refl
parameter_name-valid Parameter.query = refl
parameter_name-valid Parameter.category = refl
parameter_name-valid Parameter.limit = refl
parameter_name-valid Parameter.offset = refl
parameter_name-valid Parameter.extended = refl
parameter_name-valid Parameter.season = refl
parameter_name-valid Parameter.episode = refl

abbrev Named : Bytes → Type 0
Named raw = (p : Parameter) × (raw ≡ parameter_name p)

same-name :
    (raw : Bytes) (p : Parameter) (b : Bool)
    → (same raw (parameter_name p) || b) ≡ true
    → (b ≡ true → Named raw)
    → Named raw
same-name raw p b h other = elim (Bool-cases (same raw (parameter_name p))) [
  | inl e ↦ (p, (same_iff raw (parameter_name p)).0 e)
  | inr e ↦ other (ground arith)
]

parameter_valid-Named : (raw : Bytes) → parameter_valid raw ≡ true → Named raw
unfolding parameter_valid parameter_name
parameter_valid-Named raw h = same-name raw Parameter.api_key _ h (λ h.
    same-name raw Parameter.type _ h (λ h. same-name raw Parameter.query _ h (λ h.
      same-name raw Parameter.category _ h (λ h. same-name raw Parameter.limit _ h (λ h.
        same-name raw Parameter.offset _ h (λ h. same-name raw Parameter.extended _ h (λ h.
          same-name raw Parameter.season _ h
            (λ h. (Parameter.episode, (same_iff raw (codes "ep")).0 h)))))))))

-- The codes that need no parameter, and those that name one
abbrev pub IsPlain : ℕ → Type 0
IsPlain code = (code ≡ 100) ⊎ ((code ≡ 202) ⊎ ((code ≡ 203) ⊎ (code ≡ 900)))

abbrev pub Renderable : ℕ → Bytes → Type 0
Renderable code raw =
    IsPlain code ⊎ (((code ≡ 200) ⊎ (code ≡ 201)) × ((p : Parameter) × (raw ≡ parameter_name p)))

abbrev HasDocument : Option Node → Type 0
HasDocument r = (document : Node) × (r ≡ some document)

plain-HasDocument : (code : ℕ) (raw : Bytes) → IsPlain code → HasDocument (error_of code raw)
unfolding error_of
plain-HasDocument code raw (inl h) = (_, ap (λ c. error_of c raw) h)
plain-HasDocument code raw (inr (inl h)) = (_, ap (λ c. error_of c raw) h)
plain-HasDocument code raw (inr (inr (inl h))) = (_, ap (λ c. error_of c raw) h)
plain-HasDocument code raw (inr (inr (inr h))) = (_, ap (λ c. error_of c raw) h)

named-HasDocument :
    (code : ℕ) (raw : Bytes)
    → (code ≡ 200) ⊎ (code ≡ 201)
    → parameter_valid raw ≡ true
    → HasDocument (error_of code raw)
unfolding error_of
named-HasDocument code raw (inl h) v =
    (error_document code (codes "Missing parameter: " ++ raw), ground arith)
named-HasDocument code raw (inr h) v =
    (error_document code (codes "Incorrect parameter: " ++ raw), ground arith)

error_of-Renderable :
    (code : ℕ) (raw : Bytes) (document : Node)
    → error_of code raw ≡ some document
    → Renderable code raw
unfolding error_of
error_of-Renderable code raw document h = elim (Bool-cases (code == 200 || code == 201)) [
  | inl e ↦ inr (ground arith, parameter_valid-Named raw (ground arith))
  | inr e ↦ inl (ground arith)
]

-- An error has a document just where its code needs no parameter, or it is 200 or 201 and names one of the
-- nine canonical parameters.
pub error_of_lem :
    (code : ℕ) (raw : Bytes)
    → ((document : Node) × (error_of code raw ≡ some document)) ↔ Renderable code raw
error_of_lem code raw = (
  λ found. error_of-Renderable code raw found.0 found.1,
  λ r. elim r [
    | inl plain ↦ plain-HasDocument code raw plain
    | inr (named, (p, e)) ↦
        named-HasDocument code raw named (ap parameter_valid e ∙ parameter_name-valid p)
  ],
)
