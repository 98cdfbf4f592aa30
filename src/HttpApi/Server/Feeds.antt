-- ===== src/HttpApi/Server/Feeds.antt =====
-- When the handlers of internal/httpapi/httpapi.go write a feed.
use anilibria_torznab.Prelude.{
  ◌≡◌, refl, sym, subst, ◌∙◌, Bool, true, false, Option, none, some, arith, inl, inr, ◌⊎◌,
}
use anilibria_torznab.Torznab.Parameter.{Parameter}
use anilibria_torznab.Service.Request.{Request, Result, ok, err, incorrect_parameter, upstream}
use anilibria_torznab.HttpApi.Values.{Values}
use anilibria_torznab.HttpApi.Server.{
  Environment, Answer, rss, Api, HttpRequest, stop_for_context, complete_error, invalid, succeed,
  serialization_error, respond, search_request, invalid_request, ErrorCode, Outcome, serve_search,
  serve_operation, serve_values, serve_get, serve_http,
}
use anilibria_torznab.HttpApi.Server.Guards.{Checked-cases, executed-respond, values_of}

module _ {Response Feed : Type 0} (env : Environment Response Feed) where
  -- A feed comes from the executor's response to the request, and the context was alive when the
  -- executor returned and when the feed was rendered.
  pub record IsServed (req : Request) (feed : Feed) : Type 0 where
    pub response : Response
    pub executes : env.execute req ≡ ok response
    pub renders : env.render_rss response ≡ some feed
    pub alive : env.context 0 ≡ none
    pub still_alive : env.context 1 ≡ none

  respond-IsServed :
      (req : Request) (result : Result Response) (feed : Feed)
      → (respond env req result).written ≡ rss feed
      → (response : Response) × (result ≡ ok response)
        × (env.render_rss response ≡ some feed)
        × (env.context 0 ≡ none)
        × (env.context 1 ≡ none)
  unfolding respond stop_for_context complete_error succeed serialization_error
  respond-IsServed req (ok response) feed h =
      (response, refl, ground arith, ground arith, ground arith)
  respond-IsServed req (err (incorrect_parameter p)) feed h = absurd (ground arith)
  respond-IsServed req (err upstream) feed h = absurd (ground arith)

  no_feed :
      (code : ErrorCode) (p : Parameter) (o : Outcome) (x : Option Request) (feed : Feed)
      → (complete_error env code p o x).written ≡ rss feed
      → ⊥
  unfolding complete_error
  no_feed code p o x feed h = cc

  serve_search-rss :
      (tv : Bool) (values : Values) (feed : Feed)
      → (serve_search env tv values).written ≡ rss feed
      → (req : Request) × ((serve_search env tv values).executed ≡ some req) × IsServed req feed
  unfolding serve_search
  serve_search-rss tv values feed h = elim (Checked-cases (search_request tv values)) [
    | inl (code, p, e) ↦
        let x : (complete_error env code p invalid_request none).written ≡ rss feed =
          rw (e, serve_search) at h in
        absurd (no_feed code p invalid_request none feed x)
    | inr (req, e) ↦
        let x : (respond env req (env.execute req)).written ≡ rss feed =
          rw (e, serve_search) at h in
        let (response, executes, renders, alive, still_alive) =
          respond-IsServed req (env.execute req) feed x in
        (
          req,
          rw (e, serve_search) (executed-respond env req (env.execute req)),
          record {
            response = response;
            executes = executes;
            renders = renders;
            alive = alive;
            still_alive = still_alive;
          },
        )
  ]

  serve_values-rss :
      (values : Values) (feed : Feed)
      → (serve_values env values).written ≡ rss feed
      → (serve_values env values ≡ serve_search env false values)
        ⊎ (serve_values env values ≡ serve_search env true values)
  unfolding serve_values serve_operation stop_for_context complete_error succeed serialization_error
      invalid
  serve_values-rss values feed h = ground arith

  serve_http-rss :
      (r : HttpRequest) (api : Api) (feed : Feed)
      → (serve_http env r api).1.written ≡ rss feed
      → (serve_http env r api).1 ≡ serve_values env (values_of env.lower r)
  unfolding serve_http serve_get complete_error invalid
  serve_http-rss r api feed h = ground arith

  -- What holds of the answer of a search holds of an answer that is that one.
  abbrev Served : Answer Feed → Feed → Type 0
  Served a feed = (req : Request) × (a.executed ≡ some req) × IsServed req feed

  Served-of_search :
      (a : Answer Feed) (tv : Bool) (values : Values) (feed : Feed)
      → a ≡ serve_search env tv values
      → a.written ≡ rss feed
      → Served a feed
  Served-of_search a tv values feed e h =
      subst (λ x. Served x feed) (sym e)
        (serve_search-rss tv values feed (subst (λ x. x.written ≡ rss feed) e h))

  -- A feed is written only where the executor was called, and then it is the rendering of the response
  -- to that very request, while the request's context was alive.
  pub written-IsServed :
      (r : HttpRequest) (api : Api) (feed : Feed)
      → (serve_http env r api).1.written ≡ rss feed
      → (req : Request) × ((serve_http env r api).1.executed ≡ some req) × IsServed req feed
  written-IsServed r api feed h =
      let values = values_of env.lower r in
      let e = serve_http-rss r api feed h in
      let w : (serve_values env values).written ≡ rss feed =
        subst (λ x. x.written ≡ rss feed) e h in
      elim (serve_values-rss values feed w) [
        | inl f ↦ Served-of_search (serve_http env r api).1 false values feed (e ∙ f) h
        | inr f ↦ Served-of_search (serve_http env r api).1 true values feed (e ∙ f) h
      ]
