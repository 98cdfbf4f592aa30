-- ===== src/HttpApi/Reply/Protocol.antt =====
-- The replies to requests that fail, and the ids of requests.
use anilibria_torznab.Prelude.{
  ℕ, ◌+◌, ◌%◌, ◌^◌, ◌<◌, ◌≡◌, ◌≢◌, inl, inr, refl, sym, ap, ◌∙◌, Option, Option-cases, none, some,
  List, [], ◌∷◌, ◌++◌, arith,
}
use anilibria_torznab.Text.{Bytes, codes, show, decimal}
use anilibria_torznab.Text.Decimal.Show.{decimal-show}
use anilibria_torznab.Torznab.Parameter.{Parameter}
use anilibria_torznab.Torznab.Document.{
  Node, xml_header, concat, marshal_document, error_of, render_error,
}
use anilibria_torznab.Torznab.Document.Errors.{parameter_name, Renderable, error_of_lem}
use anilibria_torznab.HttpApi.Server.{
  ErrorCode, incorrect_credentials, missing_parameter, bad_parameter, no_such_function,
  function_unavailable, upstream_request_failed, protocol_error,
}
use anilibria_torznab.HttpApi.Reply.{
  code_of, write_xml, xml_or_error, write_protocol_error, reply, request_id, next_request_id,
}

code_of-Renderable :
    (code : ErrorCode) (p : Parameter) → Renderable (code_of code) (parameter_name p)
unfolding code_of
code_of-Renderable incorrect_credentials p = inl (inl refl)
code_of-Renderable missing_parameter p = inr (inl refl, (p, refl))
code_of-Renderable bad_parameter p = inr (inr refl, (p, refl))
code_of-Renderable no_such_function p = inl (inr (inl refl))
code_of-Renderable function_unavailable p = inl (inr (inr (inl refl)))
code_of-Renderable upstream_request_failed p = inl (inr (inr (inr refl)))

-- A handler that answers with a protocol error always has a document for it, and the client gets that
-- document as XML with status 200, not the internal error, where encoding/xml can write this document.
pub protocol_error-reply :
    (encode : Node → Option (List Bytes)) (code : ErrorCode) (p : Parameter)
    → ((document : Node)
        → error_of (code_of code) (parameter_name p) ≡ some document
        → encode document ≢ none)
    → (document : Node) × (chunks : List Bytes) × (error_of (code_of code) (parameter_name p)
        ≡ some document)
      × (encode document ≡ some chunks)
      × (reply encode (protocol_error code p) ≡ some (write_xml (xml_header ++ concat chunks)))
unfolding reply write_protocol_error xml_or_error render_error marshal_document
protocol_error-reply encode code p writes =
    let (document, found) =
      (error_of_lem (code_of code) (parameter_name p)).1 (code_of-Renderable code p) in
    elim (Option-cases (encode document)) [
      | inl e ↦ absurd (writes document found e)
      | inr (chunks, e) ↦ (document, chunks, found, e, ground arith)
    ]

append-injective : (p s t : Bytes) → p ++ s ≡ p ++ t → s ≡ t
append-injective [] s t h = h
append-injective (c ∷ p) s t h = append-injective p s t (ground arith)

-- Two requests of one process have different ids, while the counter has not wrapped around.
pub request_id-injective :
    (prefix : Bytes) (a b : ℕ)
    → a < 2 ^ 64
    → b < 2 ^ 64
    → (next_request_id prefix a).1 ≡ (next_request_id prefix b).1
    → a ≡ b
unfolding next_request_id request_id
request_id-injective prefix a b ha hb h =
    let next_a = (a + 1) % 2 ^ 64 in
    let next_b = (b + 1) % 2 ^ 64 in
    let behind : codes "-" ++ show next_a ≡ codes "-" ++ show next_b =
      append-injective prefix (codes "-" ++ show next_a) (codes "-" ++ show next_b) h in
    let shown = append-injective (codes "-") (show next_a) (show next_b) behind in
    let same_next : next_a ≡ next_b =
      sym (decimal-show next_a (omega arith))
      ∙ ap decimal shown
      ∙ decimal-show next_b (omega arith) in
    omega arith
