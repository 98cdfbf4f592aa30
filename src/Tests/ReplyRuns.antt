-- ===== src/Tests/ReplyRuns.antt =====
-- The reply to a request with a wrong key, and the ids of two requests.
use anilibria_torznab.Prelude.{ℕ, ◌≡◌, refl, some, Option, List, [], ◌∷◌, ◌++◌, arith}
use anilibria_torznab.Text.{Bytes, codes}
use anilibria_torznab.Torznab.Parameter
use anilibria_torznab.Torznab.Document.{Node, xml_header, concat, error_of}
use anilibria_torznab.Torznab.Document.Errors.{parameter_name}
use anilibria_torznab.HttpApi.Server.{incorrect_credentials, protocol_error}
use anilibria_torznab.HttpApi.Reply.{code_of, write_xml, reply}
use anilibria_torznab.HttpApi.Reply.Protocol.{protocol_error-reply, request_id-injective}

abbrev encode : Node → Option (List Bytes)
encode document = some (codes "<error>" ∷ codes "</error>" ∷ [])

protocol_error-reply_example :
    (document : Node) × (chunks : List Bytes) × (error_of
        (code_of incorrect_credentials)
        (parameter_name Parameter.api_key)
      ≡ some document)
    × (encode document ≡ some chunks)
    × (reply encode (protocol_error incorrect_credentials Parameter.api_key)
        ≡ some (write_xml (xml_header ++ concat chunks)))
protocol_error-reply_example =
    protocol_error-reply encode incorrect_credentials Parameter.api_key
      (λ document found h. absurd (ground arith))

request_id-injective_example : ◌≡◌ {A = ℕ} 4 4
request_id-injective_example =
    request_id-injective (codes "a1") 4 4 (omega arith) (omega arith) refl
