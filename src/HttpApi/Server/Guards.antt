-- ===== src/HttpApi/Server/Guards.antt =====
-- What the handlers of internal/httpapi/httpapi.go have checked before they call the executor, and
-- before they write a feed.
use anilibria_torznab.Prelude.{
  ℕ, ◌≤◌, ◌<◌, ◌^◌, ◌≡◌, refl, Bool, true, not, ◌||◌, some, List, [], ◌∷◌, All, length, arith, inl,
  inr, ◌⊎◌,
}
use anilibria_torznab.Text.{Bytes, codes}
use anilibria_torznab.Torznab.Parameter.{Parameter}
use anilibria_torznab.Torznab.Category.{parse_category_filter}
use anilibria_torznab.Service.Request.{Request, Result, ok, err, incorrect_parameter, upstream}
use anilibria_torznab.HttpApi.Values.{Values, entries, single}
use anilibria_torznab.HttpApi.Query.{parse_query, canonical_values, raw_api_key}
use anilibria_torznab.HttpApi.Server.{
  ErrorCode, Environment, Api, HttpRequest, valid_utf8_values, stop_for_context, complete_error,
  succeed, serialization_error, respond, or_empty, accept, reject, Checked,
}

-- The bounds of a request that the executor may count on.
pub record IsValidRequest (values : Values) (req : Request) : Type 0 where
  pub limit : req.limit ≤ 50
  pub offset : req.offset < 2 ^ 64
  pub query_given : (not req.tv_search || req.query_provided) ≡ true
  pub query_single : req.query ≡ or_empty (single values (codes "q"))
  pub season : req.explicit_season ≡ single values (codes "season")
  pub episode : req.explicit_episode ≡ single values (codes "ep")
  pub categories : parse_category_filter (single values (codes "cat")) ≡ some req.categories

-- The parameters of a request, as the handlers see them.
abbrev pub values_of : (ℕ → ℕ) → HttpRequest → Values
values_of lower r = canonical_values lower [] (parse_query r.raw_query).0

-- Given once at most, and in UTF-8.
abbrev pub IsSingle : Values → Bytes → Type 0
IsSingle values name =
    (length (entries name values) ≤ 1) × (valid_utf8_values (entries name values) ≡ true)

-- The parameters that a request may have once, besides the key
abbrev pub single_names : List Bytes
single_names =
    codes "t"
    ∷ codes "q"
    ∷ codes "cat"
    ∷ codes "limit"
    ∷ codes "offset"
    ∷ codes "extended"
    ∷ codes "season"
    ∷ codes "ep"
    ∷ []

-- A GET of `/api` with the one key of the server, and with single parameters.
pub record IsAdmitted {Response Feed : Type 0} (env : Environment Response Feed) (r : HttpRequest)
    (api : Api) : Type 0 where
  pub get : r.method ≡ codes "GET"
  pub path : r.path ≡ codes "/api"
  pub key : Bytes
  pub only_key : raw_api_key r.raw_query ≡ some key
  pub authentic : env.sha256 key ≡ api.api_key_digest
  pub well_formed : (parse_query r.raw_query).1 ≡ true
  pub singles : All (IsSingle (values_of env.lower r)) single_names

pub Checked-cases :
    (c : Checked)
    → ((code : ErrorCode) × (p : Parameter) × (c ≡ reject code p))
      ⊎ ((q : Request) × (c ≡ accept q))
Checked-cases (reject code p) = inl (code, p, refl)
Checked-cases (accept q) = inr (q, refl)

module _ {Response Feed : Type 0} (env : Environment Response Feed) where
  pub executed-respond :
      (req : Request) (result : Result Response) → (respond env req result).executed ≡ some req
  unfolding respond stop_for_context complete_error succeed serialization_error
  executed-respond req (ok response) = ground arith
  executed-respond req (err (incorrect_parameter p)) = ground arith
  executed-respond req (err upstream) = ground arith
