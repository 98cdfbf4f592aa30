-- ===== src/HttpApi/Server.antt =====
-- The handlers of internal/httpapi/httpapi.go. A handler returns what it writes, what it logs, and the
-- request on which it has called the executor.
pub mod Guards
pub mod Feeds
use anilibria_torznab.Prelude.{
  ℕ, zero, suc, ◌+◌, ◌%◌, ◌^◌, Bool, true, false, not, ◌&&◌, ◌||◌, Option, none, some, List, [],
  ◌∷◌, length, ltb, if◌then◌else◌,
}
use anilibria_torznab.Text.{Bytes, codes, same, is_empty, trim_space, to_lower, valid_utf8}
use anilibria_torznab.Torznab.Parameter
use anilibria_torznab.Torznab.Parameter.{Parameter}
use anilibria_torznab.Torznab.Category.{parse_category_filter}
use anilibria_torznab.Service.Request.{
  Request, Error, Result, ok, err, incorrect_parameter, upstream,
}
use anilibria_torznab.HttpApi.Values.{Values, entries, single}
use anilibria_torznab.HttpApi.Numbers.{parse_limit, parse_offset}
use anilibria_torznab.HttpApi.Query.{
  parse_query, canonical_values, raw_api_key, malformed_query_parameter,
}

-- `torznab.ErrorCode`
pub data ErrorCode : Type 0 where
  incorrect_credentials missing_parameter bad_parameter no_such_function function_unavailable :
      ErrorCode
  upstream_request_failed : ErrorCode

-- The state of a context: `context.Canceled`, `context.DeadlineExceeded`
pub data ContextError : Type 0 where
  canceled deadline_exceeded : ContextError

-- What reaches the client. A protocol error is an XML document with status 200.
pub data Written (Feed : Type 0) : Type 0 where
  not_found method_not_allowed health internal_error nothing caps : Written Feed
  protocol_error : ErrorCode → Parameter → Written Feed
  rss : Feed → Written Feed

-- The `outcome` of the log line.
pub data Outcome : Type 0 where
  authentication_failed invalid_request unsupported_operation serialization_failed success : Outcome
  upstream_failed deadline_passed cancelled write_failed not_logged : Outcome

pub record Answer (Feed : Type 0) : Type 0 where
  pub written : Written Feed
  pub outcome : Outcome
  pub executed : Option Request

-- The request as the server sees it.
pub record HttpRequest : Type 0 where
  pub method : Bytes
  pub path : Bytes
  pub raw_query : Bytes

-- `API`: the digest of its key and the counter of its requests
pub record Api : Type 0 where
  pub api_key_digest : Bytes
  pub request_counter : ℕ

-- What is outside of the handlers: the digest of a key (crypto/sha256), the table of unicode.ToLower,
-- the executor, the rendering, whether the client takes what is written, and the state of the request's
-- context at the times when the handler asks for it.
pub record Environment (Response Feed : Type 0) : Type 0 where
  pub sha256 : Bytes → Bytes
  pub lower : ℕ → ℕ
  pub execute : Request → Result Response
  pub render_caps : Bool
  pub render_rss : Response → Option Feed
  pub write_fails : Bool
  pub context : ℕ → Option ContextError

unfoldable pub singleton_parameters : List (Bytes × Parameter)
singleton_parameters =
    (codes "t", Parameter.type)
    ∷ (codes "q", Parameter.query)
    ∷ (codes "cat", Parameter.category)
    ∷ (codes "limit", Parameter.limit)
    ∷ (codes "offset", Parameter.offset)
    ∷ (codes "extended", Parameter.extended)
    ∷ (codes "season", Parameter.season)
    ∷ (codes "ep", Parameter.episode)
    ∷ []

-- `unavailableFunctions`
unfoldable pub unavailable_function : Bytes → Bool
unavailable_function op =
    same op (codes "book")
    || same op (codes "cartadd")
    || same op (codes "cartdel")
    || same op (codes "commentadd")
    || same op (codes "comments")
    || same op (codes "details")
    || same op (codes "get")
    || same op (codes "getnfo")
    || same op (codes "movie")
    || same op (codes "music")
    || same op (codes "register")
    || same op (codes "user")

-- `validUTF8Values`
unfoldable pub valid_utf8_values : List Bytes → Bool
valid_utf8_values [] = true
valid_utf8_values (v ∷ vs) = valid_utf8 v && valid_utf8_values vs

-- The loop over the singleton parameters: the first that is there twice or is no UTF-8
unfoldable pub bad_singleton : List (Bytes × Parameter) → Values → Option Parameter
bad_singleton [] values = none
bad_singleton ((name, parameter) ∷ rest) values =
    let found = entries name values in
    if ltb 1 (length found) || not (valid_utf8_values found)
    then some parameter
    else bad_singleton rest values

-- The `extended` check of `serveSearch`
unfoldable pub bad_extended : Option Bytes → Bool
bad_extended none = false
bad_extended (some e) = not (same e (codes "0")) && not (same e (codes "1"))

unfoldable pub or_empty : Option Bytes → Bytes
or_empty none = []
or_empty (some s) = s

unfoldable pub is_provided : Option Bytes → Bool
is_provided none = false
is_provided (some s) = true

-- What the checks of `serveSearch` come to.
pub data Checked : Type 0 where
  reject : ErrorCode → Parameter → Checked
  accept : Request → Checked

-- The checks of `serveSearch`, up to the call of the executor
unfoldable pub search_request : Bool → Values → Checked
search_request tv values =
    let query = single values (codes "q") in
    if tv && not (is_provided query)
    then reject missing_parameter Parameter.query
    else elim (parse_category_filter (single values (codes "cat"))) [
      | none ↦ reject bad_parameter Parameter.category
      | some categories ↦ elim (parse_limit values) [
        | none ↦ reject bad_parameter Parameter.limit
        | some limit ↦ elim (parse_offset values) [
          | none ↦ reject bad_parameter Parameter.offset
          | some offset ↦
              if bad_extended (single values (codes "extended"))
              then reject bad_parameter Parameter.extended
              else accept (record {
                query = or_empty query;
                query_provided = is_provided query;
                tv_search = tv;
                explicit_season = single values (codes "season");
                explicit_episode = single values (codes "ep");
                categories = categories;
                limit = limit;
                offset = offset;
              })
        ]
      ]
    ]

module _ {Response Feed : Type 0} (env : Environment Response Feed) where
  open env use {sha256, lower, execute, render_caps, render_rss, write_fails, context}

  -- `logWriteResult`
  unfoldable pub written_as : Outcome → Outcome
  written_as outcome = if write_fails then write_failed else outcome

  -- `completeProtocolError`
  unfoldable pub complete_error : ErrorCode → Parameter → Outcome → Option Request → Answer Feed
  complete_error code parameter outcome executed = record {
    written = protocol_error code parameter;
    outcome = written_as outcome;
    executed = executed;
  }

  -- `stopForContext`, at its `n`-th call: the answer if the handler stops there
  unfoldable pub stop_for_context : ℕ → Option Request → Answer Feed → Answer Feed
  stop_for_context n executed otherwise = elim (context n) [
    | none ↦ otherwise
    | some c ↦ elim c [
      | canceled ↦ record { written = nothing; outcome = cancelled; executed = executed }
      | deadline_exceeded ↦
          complete_error upstream_request_failed Parameter.type deadline_passed executed
    ]
  ]

  unfoldable pub serialization_error : Option Request → Answer Feed
  serialization_error executed = record {
    written = internal_error;
    outcome = written_as serialization_failed;
    executed = executed;
  }

  unfoldable pub succeed : Written Feed → Option Request → Answer Feed
  succeed body executed = record {
    written = body;
    outcome = written_as success;
    executed = executed;
  }

  -- The end of `serveSearch`, from the result of the executor on
  unfoldable pub respond : Request → Result Response → Answer Feed
  respond req (err e) = stop_for_context 0 (some req) (elim e [
    | incorrect_parameter p ↦ complete_error bad_parameter p invalid_request (some req)
    | upstream ↦ complete_error upstream_request_failed Parameter.type upstream_failed (some req)
  ])
  respond req (ok response) = stop_for_context 0 (some req) (elim (render_rss response) [
    | none ↦ stop_for_context 1 (some req) (serialization_error (some req))
    | some feed ↦ stop_for_context 1 (some req) (succeed (rss feed) (some req))
  ])

  unfoldable pub invalid : Parameter → Answer Feed
  invalid p = complete_error bad_parameter p invalid_request none

  -- `serveSearch`
  unfoldable pub serve_search : Bool → Values → Answer Feed
  serve_search tv values = elim (search_request tv values) [
    | reject code parameter ↦ complete_error code parameter invalid_request none
    | accept req ↦ respond req (execute req)
  ]

  -- The `switch` on the operation
  unfoldable pub serve_operation : Bytes → Values → Answer Feed
  serve_operation op values =
      if same op (codes "caps")
      then (if render_caps
          then stop_for_context 0 none (succeed caps none)
          else serialization_error none)
      else if same op (codes "search")
      then serve_search false values
      else if same op (codes "tvsearch")
      then serve_search true values
      else complete_error
          (if unavailable_function op then function_unavailable else no_such_function)
          Parameter.type unsupported_operation none

  -- `serveAPI` behind the parsed query
  unfoldable pub serve_values : Values → Answer Feed
  serve_values values = elim (bad_singleton singleton_parameters values) [
    | some p ↦ invalid p
    | none ↦ elim (single values (codes "t")) [
      | none ↦ complete_error missing_parameter Parameter.type invalid_request none
      | some t ↦
          let op = to_lower lower (trim_space t) in
          if is_empty op then invalid Parameter.type else serve_operation op values
    ]
  ]

  -- `authenticated`
  unfoldable pub authenticated : Api → Bytes → Bool
  authenticated api key = same (sha256 key) api.api_key_digest

  unfoldable pub is_authorized : Api → Bytes → Bool
  is_authorized api raw_query = elim (raw_api_key raw_query) [
    | none ↦ false
    | some key ↦ authenticated api key
  ]

  -- `serveAPI` on a GET
  unfoldable pub serve_get : Api → Bytes → Answer Feed
  serve_get api raw_query =
      let (values, fine) = parse_query raw_query in
      if is_authorized api raw_query
      then (if fine
          then serve_values (canonical_values lower [] values)
          else invalid (malformed_query_parameter lower raw_query))
      else complete_error incorrect_credentials Parameter.api_key authentication_failed none

  abbrev unlogged : Written Feed → Answer Feed
  unlogged w = record { written = w; outcome = not_logged; executed = none }

  -- `ServeHTTP`, with `serveHealth` and `serveAPI`: the counter gives the next request id.
  unfoldable pub serve_http : HttpRequest → Api → Api × Answer Feed
  serve_http r api =
      if same r.path (codes "/healthz")
      then (api, unlogged (if same r.method (codes "GET") then health else method_not_allowed))
      else if same r.path (codes "/api")
      then (if same r.method (codes "GET")
          then (
            record api { request_counter = (api.request_counter + 1) % 2 ^ 64 },
            serve_get api r.raw_query,
          )
          else (api, unlogged method_not_allowed))
      else (api, unlogged not_found)
