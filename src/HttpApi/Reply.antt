-- ===== src/HttpApi/Reply.antt =====
-- internal/httpapi/httpapi.go: what an answer of the handlers is on the wire, and the ids of requests. The
-- answers of `http.NotFound` and `http.Error` are those of net/http.
pub mod Protocol
use anilibria_torznab.Prelude.{
  ℕ, ◌+◌, ◌%◌, ◌^◌, Bool, true, false, Option, none, some, List, [], ◌∷◌, ◌++◌, if◌then◌else◌,
}
use anilibria_torznab.Text.{Bytes, codes, show}
use anilibria_torznab.Torznab.Parameter.{Parameter}
use anilibria_torznab.Torznab.Document.{Node, render_caps, render_error}
use anilibria_torznab.Torznab.Document.Errors.{parameter_name}
use anilibria_torznab.HttpApi.Server.{
  ErrorCode, incorrect_credentials, missing_parameter, bad_parameter, no_such_function,
  function_unavailable, upstream_request_failed, Written, not_found, method_not_allowed, health,
  internal_error, nothing, caps, protocol_error, rss,
}

pub record Reply : Type 0 where
  pub status : ℕ
  pub headers : List (Bytes × Bytes)
  pub body : Bytes

-- The numbers of `ErrorCode`
unfoldable pub code_of : ErrorCode → ℕ
code_of incorrect_credentials = 100
code_of missing_parameter = 200
code_of bad_parameter = 201
code_of no_such_function = 202
code_of function_unavailable = 203
code_of upstream_request_failed = 900

abbrev pub plain_text : Bytes × Bytes
plain_text = (codes "Content-Type", codes "text/plain; charset=utf-8")

abbrev pub no_sniffing : Bytes × Bytes
no_sniffing = (codes "X-Content-Type-Options", codes "nosniff")

-- `writeXML`
unfoldable pub write_xml : Bytes → Reply
write_xml body = record {
  status = 200;
  headers = (codes "Content-Type", codes "application/xml; charset=utf-8") ∷ [];
  body = body;
}

-- `writeInternalError`
unfoldable pub write_internal_error : Reply
write_internal_error = record {
  status = 500;
  headers = plain_text ∷ no_sniffing ∷ [];
  body = codes "internal server error\n";
}

-- An XML document, or the internal error where it cannot be rendered
unfoldable pub xml_or_error : Option Bytes → Reply
xml_or_error none = write_internal_error
xml_or_error (some body) = write_xml body

-- `writeProtocolError`
unfoldable pub write_protocol_error : (Node → Option (List Bytes)) → ErrorCode → Parameter → Reply
write_protocol_error encode code parameter =
    xml_or_error (render_error encode (code_of code) (parameter_name parameter))

-- What the handlers write, on the feeds that are rendered; a request that is cancelled has no reply.
unfoldable pub reply : (Node → Option (List Bytes)) → Written Bytes → Option Reply
reply encode not_found = some (record {
  status = 404;
  headers = plain_text ∷ no_sniffing ∷ [];
  body = codes "404 page not found\n";
})
reply encode method_not_allowed = some (record {
  status = 405;
  headers = (codes "Allow", codes "GET") ∷ plain_text ∷ no_sniffing ∷ [];
  body = codes "method not allowed\n";
})
reply encode health = some (record { status = 200; headers = plain_text ∷ []; body = codes "ok\n" })
reply encode internal_error = some write_internal_error
reply encode nothing = none
reply encode caps = some (xml_or_error (render_caps encode))
reply encode (protocol_error code parameter) = some (write_protocol_error encode code parameter)
reply encode (rss body) = some (write_xml body)

-- `nextRequestID`: the id, on the counter that `Add` has returned
unfoldable pub request_id : Bytes → ℕ → Bytes
request_id prefix counter = prefix ++ (codes "-" ++ show counter)

unfoldable pub next_request_id : Bytes → ℕ → ℕ × Bytes
next_request_id prefix counter = let next = (counter + 1) % 2 ^ 64 in (next, request_id prefix next)
