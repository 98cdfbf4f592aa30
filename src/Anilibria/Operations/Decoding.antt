-- ===== src/Anilibria/Operations/Decoding.antt =====
-- What the decode callbacks of the client return.
use anilibria_torznab.Prelude.{
  ◌⊎◌, Option-cases, ℕ, suc, ◌≤◌, ◌≡◌, refl, ap₂, subst, inl, inr, Bool, not, ◌||◌, Option, none,
  some, List, [], ◌∷◌, length, length-take, take, map, All, if_rule, arith,
}
use anilibria_torznab.Text.{Bytes, is_empty, trim_space}
use anilibria_torznab.Service.Processing.{Torrent}
use anilibria_torznab.Anilibria.Models.{
  RawTorrent, Parsers, above_zero, positive_integer, valid_torrents,
}
use anilibria_torznab.Anilibria.Models.Soundness.{IsOf, valid_torrents-IsOf}
use anilibria_torznab.Anilibria.GetJson.{Decoded, decoded, undecodable, cut_short}
use anilibria_torznab.Anilibria.Operations.{
  latest_limit, Decoders, Reading, and_then, decode_json, starts_with, release_ids, decode_search,
  decode_torrent_collection, accepted, accept_torrents, decode_torrents, decode_latest,
}

-- A result that is decoded satisfies `P`.
abbrev pub Decodes : {A : Type 0} → (A → Type 0) → Decoded A → Type 0
Decodes P (decoded a) = P a
Decodes P undecodable = Unit
Decodes P cut_short = Unit

and_then-Decodes :
    {A B : Type 0} (Q : B → Type 0) (r : Decoded A) (f : A → Decoded B)
    → ((a : A) → r ≡ decoded a → Decodes Q (f a))
    → Decodes Q (and_then r f)
unfolding and_then
and_then-Decodes Q (decoded a) f k = k a refl
and_then-Decodes Q undecodable f k = tt
and_then-Decodes Q cut_short f k = tt

-- The ids of a search, each of them the positive number that stands in the response
abbrev AreIds : Parsers → List Bytes → List ℕ → Type 0
AreIds parsers raws ids = map (positive_integer parsers) raws ≡ map some ids

release_ids-AreIds :
    (parsers : Parsers) (done : ℕ → Bool) (i : ℕ) (raws : List Bytes)
    → Decodes (AreIds parsers raws) (release_ids parsers done i raws)
unfolding release_ids
release_ids-AreIds parsers done i [] = refl
release_ids-AreIds parsers done i (raw ∷ raws) =
    if_rule (Decodes (AreIds parsers (raw ∷ raws))) (done i) (λ e. tt)
      (λ e.
        by_id (positive_integer parsers raw) refl (release_ids-AreIds parsers done (suc i) raws))
  where
    by_id :
        (o : Option ℕ)
        → positive_integer parsers raw ≡ o
        → Decodes (AreIds parsers raws) (release_ids parsers done (suc i) raws)
        → Decodes (AreIds parsers (raw ∷ raws)) (elim o as (λ _. Decoded (List ℕ)) [
          | none ↦ undecodable
          | some id ↦ and_then (release_ids parsers done (suc i) raws) (λ ids. decoded (id ∷ ids))
        ])
    by_id none e ih = tt
    by_id (some id) e ih =
        and_then-Decodes (AreIds parsers (raw ∷ raws)) (release_ids parsers done (suc i) raws) _
          (λ ids h.
            let same = subst (Decodes (AreIds parsers raws)) h ih in
            ap₂ (λ (x : Option ℕ) (xs : List (Option ℕ)). x ∷ xs) e same)

positive_integer-pos :
    (parsers : Parsers) (raw : Bytes) (id : ℕ) → positive_integer parsers raw ≡ some id → 1 ≤ id
unfolding positive_integer above_zero
positive_integer-pos parsers raw id h = ground arith

AreIds-pos :
    (parsers : Parsers) (raws : List Bytes) (ids : List ℕ)
    → AreIds parsers raws ids
    → All (λ id. 1 ≤ id) ids
AreIds-pos parsers raws [] h = tt
AreIds-pos parsers [] (id ∷ ids) h = absurd (ground arith)
AreIds-pos parsers (raw ∷ raws) (id ∷ ids) h =
    let first : positive_integer parsers raw ≡ some id = ground arith in
    let rest : AreIds parsers raws ids = ground arith in
    (positive_integer-pos parsers raw id first, AreIds-pos parsers raws ids rest)

-- What a search may return for a body
abbrev pub FromSearch : Decoders → Parsers → Bytes → List ℕ → Type 0
FromSearch d parsers body ids =
    (raws : List Bytes) × (rest : Bytes) × (d.release_ids (trim_space body) ≡ some (raws, rest))
    × AreIds parsers raws ids
    × All (λ id. 1 ≤ id) ids

decode_json-first :
    {A : Type 0} (d : Decoders) (first : Bytes → Option (A × Bytes)) (done : Bool) (body : Bytes)
    (a : A)
    → decode_json d first done body ≡ decoded a
    → (rest : Bytes) × (first body ≡ some (a, rest))
unfolding decode_json
decode_json-first d first done body a h = elim (Option-cases (first body)) [
  | inl e ↦ absurd (ground arith)
  | inr ((value, rest), e) ↦ (rest, ground arith)
]

pub decode_search-FromSearch :
    (d : Decoders) (parsers : Parsers) (r : Reading) (body : Bytes)
    → Decodes (FromSearch d parsers body) (decode_search d parsers r body)
unfolding decode_search
decode_search-FromSearch d parsers r body =
    let trimmed = trim_space body in
    if_rule (Decodes (FromSearch d parsers body))
      (is_empty trimmed || not (starts_with b'[' trimmed)) (λ e. tt)
      (λ e.
        and_then-Decodes (FromSearch d parsers body) (decode_json d d.release_ids r.done trimmed) _
          (λ raws h.
            let (rest, read) = decode_json-first d d.release_ids r.done trimmed raws h in
            numbered raws rest read (release_ids parsers r.done_at 0 raws)
              (release_ids-AreIds parsers r.done_at 0 raws)))
  where
    numbered :
        (raws : List Bytes) (rest : Bytes)
        → d.release_ids (trim_space body) ≡ some (raws, rest)
        → (ids : Decoded (List ℕ)) → Decodes (AreIds parsers raws) ids
        → Decodes (FromSearch d parsers body) ids
    numbered raws rest read (decoded ids) same =
        (raws, rest, read, same, AreIds-pos parsers raws ids same)
    numbered raws rest read undecodable same = tt
    numbered raws rest read cut_short same = tt

accept_torrents-IsOf :
    (parsers : Parsers) (r : Reading) (expected : ℕ) (raws : List RawTorrent)
    → Decodes
        (λ ts. All (IsOf expected) ts × (length ts ≤ length raws))
        (accept_torrents parsers r expected raws)
unfolding accept_torrents accepted
accept_torrents-IsOf parsers r expected raws =
    by_result (valid_torrents parsers r.done_at expected 0 raws).1 refl
  where
    by_result :
        (o : Option (List Torrent))
        → (valid_torrents parsers r.done_at expected 0 raws).1 ≡ o
        → Decodes (λ ts. All (IsOf expected) ts × (length ts ≤ length raws)) (accepted o)
    by_result none e = tt
    by_result (some ts) e =
        let (all, counted) = valid_torrents-IsOf parsers r.done_at expected 0 raws ts e in
        (all, omega arith)

-- The torrents of a body, which is an array of them or a single one
abbrev Collection : Decoders → Bytes → List RawTorrent → Type 0
Collection d body raws =
    ((rest : Bytes) × (d.torrents (trim_space body) ≡ some (raws, rest)))
    ⊎ ((raw : RawTorrent) × (rest : Bytes) × (d.torrent (trim_space body) ≡ some (raw, rest))
        × (raws ≡ raw ∷ []))

decoded-Decodes :
    {A : Type 0} (P : A → Type 0) (r : Decoded A) → ((a : A) → r ≡ decoded a → P a) → Decodes P r
decoded-Decodes P (decoded a) k = k a refl
decoded-Decodes P undecodable k = tt
decoded-Decodes P cut_short k = tt

decode_torrent_collection-Collection :
    (d : Decoders) (r : Reading) (body : Bytes)
    → Decodes (Collection d body) (decode_torrent_collection d r body)
unfolding decode_torrent_collection
decode_torrent_collection-Collection d r body =
    let trimmed = trim_space body in
    if_rule (Decodes (Collection d body)) (is_empty trimmed) (λ e. tt)
      (λ filled.
        if_rule (Decodes (Collection d body)) (starts_with b'[' trimmed)
          (λ e.
            decoded-Decodes (Collection d body) (decode_json d d.torrents r.done trimmed)
              (λ raws h. inl (decode_json-first d d.torrents r.done trimmed raws h)))
          (λ e.
            if_rule (Decodes (Collection d body)) (starts_with b'{' trimmed)
              (λ e.
                and_then-Decodes (Collection d body) (decode_json d d.torrent r.done trimmed) _
                  (λ raw h.
                    let (rest, read) = decode_json-first d d.torrent r.done trimmed raw h in
                    inr (raw, rest, read, refl)))
              (λ e. tt)))

-- What the torrents of a release may be for a body
abbrev pub FromCollection : Decoders → ℕ → Bytes → List Torrent → Type 0
FromCollection d id body ts =
    All (IsOf id) ts
    × ((raws : List RawTorrent) × Collection d body raws × (length ts ≤ length raws))

pub decode_torrents-FromCollection :
    (d : Decoders) (parsers : Parsers) (r : Reading) (id : ℕ) (body : Bytes)
    → Decodes (FromCollection d id body) (decode_torrents d parsers r id body)
unfolding decode_torrents
decode_torrents-FromCollection d parsers r id body =
    and_then-Decodes (FromCollection d id body) (decode_torrent_collection d r body) _ (λ raws h.
      let found =
        subst (Decodes (Collection d body)) h (decode_torrent_collection-Collection d r body) in
      decoded-Decodes (FromCollection d id body) (accept_torrents parsers r id raws) (λ ts e.
        let (all, fits) =
          subst (Decodes (λ ts. All (IsOf id) ts × (length ts ≤ length raws))) e
            (accept_torrents-IsOf parsers r id raws) in
        (all, (raws, found, fits))))

abbrev pub FromLatest : List Torrent → Type 0
FromLatest ts = All (IsOf 0) ts × (length ts ≤ latest_limit)

pub decode_latest-FromLatest :
    (d : Decoders) (parsers : Parsers) (r : Reading) (body : Bytes)
    → Decodes FromLatest (decode_latest d parsers r body)
unfolding decode_latest
decode_latest-FromLatest d parsers r body =
    and_then-Decodes FromLatest (decode_json d d.envelope r.done body) _ (λ items h.
      let trimmed = trim_space items in
      if_rule (Decodes FromLatest) (is_empty trimmed || not (starts_with b'[' trimmed)) (λ e. tt)
        (λ e.
          and_then-Decodes FromLatest (decode_json d d.torrents r.done_again trimmed) _ (λ raws h'.
            few raws (accept_torrents parsers r 0 (take latest_limit raws))
              (accept_torrents-IsOf parsers r 0 (take latest_limit raws)))))
  where
    few :
        (raws : List RawTorrent) (ts : Decoded (List Torrent))
        → Decodes (λ ts. All (IsOf 0) ts × (length ts ≤ length (take latest_limit raws))) ts
        → Decodes FromLatest ts
    few raws (decoded ts) h = (h.0, let n = length-take latest_limit raws in omega (arith, h.1))
    few raws undecodable h = tt
    few raws cut_short h = tt
