-- ===== src/Http/Handler.antt =====
-- Class `http_handler`: src/http_server.cpp and the templates of src/http_server_impl.hpp. Of the
-- header fields the model has those that the program reads or sets. `iequals` of Boost.Beast and the
-- coding of protobuf messages are arguments.
pub mod Negotiation
pub mod Examples
use acppsrv.Prelude.{
  ℕ, String, Bool, true, false, not, ◌&&◌, ◌||◌, ◌==◌, Option, none, some, List, [], ◌∷◌,
  if◌then◌else◌, str_append, join,
}

pub record Request : Type 0 where
  pub is_head : Bool
  pub target : String
  pub accept : Option String
  pub content_type : Option String
  pub expect : Option String
  pub keep_alive : Bool
  pub body : String

pub record Response : Type 0 where
  pub status : ℕ
  pub content_type : Option String
  pub server : Option String
  pub keep_alive : Bool
  pub body : String

abbrev pub ok : ℕ
ok = 200

abbrev pub bad_request : ℕ
bad_request = 400

abbrev pub not_acceptable : ℕ
not_acceptable = 406

abbrev pub payload_too_large : ℕ
payload_too_large = 413

abbrev pub unsupported_media_type : ℕ
unsupported_media_type = 415

abbrev pub internal_server_error : ℕ
internal_server_error = 500

-- `http_response_type{status, 11}`
abbrev pub new_response : ℕ → Response
new_response status = record {
  status = status;
  content_type = none;
  server = none;
  keep_alive = true;
  body = "";
}

unfoldable pub error_response : ℕ → String → Response
error_response status msg = record (new_response status) {
  content_type = some "text/plain";
  body = str_append msg "\n";
}

-- http_handler::handle_sync
unfoldable pub handle_sync : Request → Response
handle_sync request = new_response ok

abbrev pub content_type_json : List String
content_type_json = "application/json" ∷ []

abbrev pub content_type_protobuf : List String
content_type_protobuf =
    "application/protobuf" ∷ "application/x-protobuf" ∷ "application/vnd.google.protobuf" ∷ []

-- `request[field]`: the empty text if the field is not there.
abbrev pub field : Option String → String
field none = ""
field (some v) = v

abbrev if_empty : String → String → String
if_empty ct other = if ct == "" then other else ct

-- The status of a conversion between JSON and a message.
pub data Status : Type 0 where
  fine : Status
  -- the text of `error_code()`, and `ToString()`
  failure : String → String → Status

-- The coding of a request message `A` and a response message `B`.
pub record Codec (A B : Type 0) : Type 0 where
  pub from_json : String → Status × A
  pub from_protobuf : String → Bool × A
  -- What a failing conversion has written stays in the body.
  pub to_json : B → Status × String
  pub to_protobuf : B → Bool × String

module _ (iequals : String → String → Bool) where
  -- std::find_if over one of the two arrays
  unfoldable pub is_one_of : String → List String → Bool
  is_one_of ct [] = false
  is_one_of ct (v ∷ vs) = iequals ct v || is_one_of ct vs

  -- The content type that the two functions look at.
  unfoldable pub json_type : Request → Bool → String
  json_type request is_req =
      let accepted = field request.accept in
      let ct =
        if is_req then "" else if accepted == "*" || accepted == "*/*" then "" else accepted in
      if_empty ct (field request.content_type)

  unfoldable pub protobuf_type : Request → Bool → String
  protobuf_type request is_req =
      let ct = if is_req then "" else field request.accept in
      if_empty ct (field request.content_type)

  unfoldable pub json_body : Request → Bool → Bool × String
  unfolding is_one_of json_type
  json_body request is_req =
      let ct = json_type request is_req in (is_one_of ct content_type_json, ct)

  unfoldable pub protobuf_body : Request → Bool → Bool × String
  unfolding is_one_of protobuf_type
  protobuf_body request is_req =
      let ct = protobuf_type request is_req in (is_one_of ct content_type_protobuf, ct)

  module _ {A B : Type 0} (codec : Codec A B) where
    open codec use {from_json, from_protobuf, to_json, to_protobuf}

    abbrev parsed_json : Status × A → Response → Option A × Response
    parsed_json (fine, a) response = (some a, response)
    parsed_json (failure code text, a) response = (
      none,
      error_response bad_request (join ("Cannot parse JSON request: (" ∷ code ∷ ") " ∷ text ∷ [])),
    )

    abbrev parsed_protobuf : Bool × A → Response → Option A × Response
    parsed_protobuf (true, a) response = (some a, response)
    parsed_protobuf (false, a) response =
        (none, error_response bad_request "Cannot parse protobuf request")

    unfoldable pub parse : Request → Option A × Response
    parse request =
        let response = handle_sync request in
        if (json_body request true).0
        then parsed_json (from_json request.body) response
        else if (protobuf_body request true).0
        then parsed_protobuf (from_protobuf request.body) response
        else (none, error_response unsupported_media_type "Unsupported Content-Type")

    -- The error response that `serialize` makes after a failed conversion is a value that it drops:
    -- the response keeps its status, and the body holds what was written.
    abbrev serialized_json : Status × String → Response → Bool × Response
    serialized_json (fine, out) response = (true, record response { body = out })
    serialized_json (failure code text, out) response =
        let dropped =
          error_response internal_server_error
            (join ("Cannot serialize response to JSON: (" ∷ code ∷ ") " ∷ text ∷ [])) in
        (false, record response { body = out })

    abbrev serialized_protobuf : Bool × String → Response → Bool × Response
    serialized_protobuf (true, out) response = (true, record response { body = out })
    serialized_protobuf (false, out) response =
        let dropped = error_response internal_server_error "Cannot serialze response to protobuf" in
        (false, record response { body = out })

    unfoldable pub serialize : Request → B → Response → Bool × Response
    serialize request value response =
        if (json_body request false).0
        then serialized_json (to_json value) response
        else if (protobuf_body request false).0
        then serialized_protobuf (to_protobuf value) response
        else (
          false,
          error_response not_acceptable "Unsupported Content-Type requested by client for response",
        )
