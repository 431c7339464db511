-- ===== src/Http/Handler/Negotiation.antt =====
-- Which format a request is read in and a response is written in.
use acppsrv.Prelude.{◌≡◌, ◌≢◌, ◌⊎◌, String, Bool, true, false, none, some, arith}
use acppsrv.Http.Handler.{
  Request, Response, ok, bad_request, not_acceptable, unsupported_media_type, error_response,
  handle_sync, content_type_protobuf, failure, Codec, is_one_of, json_body, protobuf_body, parse,
  serialize,
}

module _ (iequals : String → String → Bool) where
  json_body-no_accept :
      (request : Request)
      → request.accept ≡ none
      → json_body iequals request false ≡ json_body iequals request true
  unfolding json_body
  json_body-no_accept request e = rw e

  protobuf_body-no_accept :
      (request : Request)
      → request.accept ≡ none
      → protobuf_body iequals request false ≡ protobuf_body iequals request true
  unfolding protobuf_body
  protobuf_body-no_accept request e = rw e

  json_body-wildcard :
      (request : Request)
      → request.accept ≡ some "*/*"
      → json_body iequals request false ≡ json_body iequals request true
  unfolding json_body
  json_body-wildcard request e = rw e

  protobuf_body-wildcard :
      (request : Request)
      → request.accept ≡ some "*/*"
      → (protobuf_body iequals request false).0 ≡ is_one_of iequals "*/*" content_type_protobuf
  unfolding protobuf_body
  protobuf_body-wildcard request e = rw e

module _ (iequals : String → String → Bool) {A B : Type 0} (codec : Codec A B) where
  open codec use {from_json, from_protobuf, to_json, to_protobuf}

  -- If the client sends no `Accept` field, a response is written in the format in which the request
  -- was read: in JSON exactly if the request is JSON, else in protobuf; and a request that parses
  -- is never answered by 406.
  pub serialize_no_accept :
      (request : Request) (value : B) (response : Response) (a : A)
      → request.accept ≡ none
      → (parse iequals codec request).0 ≡ some a
      → (((json_body iequals request true).0 ≡ true)
          × ((serialize iequals codec request value response).1
              ≡ record response { body = (to_json value).1 }))
        ⊎ (((protobuf_body iequals request true).0 ≡ true)
            × ((serialize iequals codec request value response).1
                ≡ record response { body = (to_protobuf value).1 }))
  unfolding parse serialize
  serialize_no_accept request value response a e h =
      ground
        (arith, json_body-no_accept iequals request e, protobuf_body-no_accept iequals request e)

  -- The outcome of `parse`: a message with status 200, or no message with status 400; or no message
  -- with status 415, and then the content type is neither JSON nor protobuf.
  pub parse_status :
      (request : Request)
      → ((((parse iequals codec request).0 ≢ none) × ((parse iequals codec request).1.status ≡ ok))
          ⊎ (((parse iequals codec request).0 ≡ none)
              × ((parse iequals codec request).1.status ≡ bad_request)))
        ⊎ (((parse iequals codec request).0 ≡ none)
            × ((parse iequals codec request).1.status ≡ unsupported_media_type)
            × ((json_body iequals request true).0 ≡ false)
            × ((protobuf_body iequals request true).0 ≡ false))
  unfolding parse error_response handle_sync
  parse_status request = ground arith

  -- A client that sends protobuf and accepts anything, `Accept: */*`, is refused with 406: only
  -- `json_body` reads the wildcard as no preference.
  pub serialize_wildcard_protobuf :
      (request : Request) (value : B) (response : Response)
      → request.accept ≡ some "*/*"
      → (json_body iequals request true).0 ≡ false
      → is_one_of iequals "*/*" content_type_protobuf ≡ false
      → (serialize iequals codec request value response).0 ≡ false
        × ((serialize iequals codec request value response).1.status ≡ not_acceptable)
  unfolding serialize error_response
  serialize_wildcard_protobuf request value response e j p =
      ground (arith, json_body-wildcard iequals request e, protobuf_body-wildcard iequals request e)

  -- A response that cannot be written as JSON is not turned into an error: its status stays what
  -- it was, and its body is what the failed conversion has written.
  pub serialize_failure_status :
      (request : Request) (value : B) (response : Response) (code text out : String)
      → (json_body iequals request false).0 ≡ true
      → to_json value ≡ (failure code text, out)
      → serialize iequals codec request value response ≡ (false, record response { body = out })
  unfolding serialize
  serialize_failure_status request value response code text out j e = ground arith
