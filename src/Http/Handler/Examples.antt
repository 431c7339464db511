-- ===== src/Http/Handler/Examples.antt =====
-- Content negotiation on concrete requests.
use acppsrv.Prelude.{◌≡◌, refl, ◌==◌, some}
use acppsrv.Http.Handler.{
  Request, json_body, protobuf_body, parse, error_response, unsupported_media_type,
}
use acppsrv.Http.Samples.{text_codec, echo_request}

abbrev wildcard : Request
wildcard = record echo_request { accept = some "*/*"; content_type = some "application/protobuf" }

not_json_not_protobuf :
    (parse ◌==◌ text_codec (record echo_request { content_type = some "text/plain" })).1.status
    ≡ unsupported_media_type
unfolding parse json_body protobuf_body error_response
not_json_not_protobuf = refl
