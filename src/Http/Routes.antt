-- ===== src/Http/Routes.antt =====
-- The handlers of src/http_hnd_echo.cpp, src/http_hnd_stat.hpp, src/http_hnd_stat.cpp and
-- src/http_hnd_db.cpp, and the map `handlers` of src/http_server.cpp. What the database part does
-- with a request is an argument.
pub mod Statistics
pub mod Examples
use acppsrv.Prelude.{
  ℕ, ◌+◌, ◌%◌, ◌^◌, String, Bool, true, false, Option, none, some, List, [], ◌∷◌, if◌then◌else◌,
  lookup,
}
use acppsrv.Http.Handler.{
  Request, Response, new_response, ok, bad_request, error_response, handle_sync, Codec, parse,
  serialize,
}

-- echo::handle_sync
unfoldable pub handle_echo : Request → Response
unfolding handle_sync
handle_echo request = elim request.content_type [
  | some ct ↦ record (handle_sync request) { content_type = some ct; body = request.body }
  | none ↦ record (handle_sync request) {
    content_type = some "application/octet-stream";
    body = request.body;
  }
]

abbrev pub uint64_mod : ℕ
uint64_mod = 2 ^ 64

-- stat::data_t, four `std::atomic<uint64_t>`; also the response message.
pub record StatData : Type 0 where
  pub connections : ℕ
  pub requests : ℕ
  pub data_req : ℕ
  pub data_resp : ℕ

abbrev pub no_data : StatData
no_data = record { connections = 0; requests = 0; data_req = 0; data_resp = 0 }

-- The values that the response gets, and the counters after it: `exchange(0)` or a load.
unfoldable pub report : Bool → StatData → StatData × StatData
report reset data' = if reset then (data', no_data) else (data', data')

-- The request message of /stat holds `reset`.
module _ (iequals : String → String → Bool) (codec : Codec Bool StatData) where
  abbrev stat_response : Option Bool × Response → Request → StatData → Response × StatData
  stat_response (none, response) request data' = (response, data')
  stat_response (some reset, response) request data' =
      let (out, left) = report reset data' in
      ((serialize iequals codec request out response).1, left)

  -- stat::handle_sync
  unfoldable pub handle_stat : Request → StatData → Response × StatData
  handle_stat request data' = stat_response (parse iequals codec request) request data'

-- What the server uses and does not implement itself, and the database part.
pub record Env : Type 1 where
  pub Store : Type 0
  pub DbRequest : Type 0
  pub DbResponse : Type 0
  pub iequals : String → String → Bool
  pub db_codec : Codec DbRequest DbResponse
  pub stat_codec : Codec Bool StatData
  -- db_server::query: the response that its handler gets
  pub query : DbRequest → Store → DbResponse × Store

pub data Handler : Type 0 where
  db : Handler
  echo : Handler
  stat : Handler

unfoldable pub handlers : List (String × Handler)
handlers = ("/db", db) ∷ ("/echo", echo) ∷ ("/stat", stat) ∷ []

module _ (env : Env) where
  open env use {Store, DbRequest, DbResponse, iequals, db_codec, stat_codec, query}

  abbrev db_response : Option DbRequest × Response → Request → Store → Response × Store
  db_response (none, response) request store = (response, store)
  db_response (some input, response) request store =
      let (out, store') = query input store in
      ((serialize iequals db_codec request out response).1, store')

  -- db::handle_async
  unfoldable pub handle_db : Request → Store → Response × Store
  handle_db request store = db_response (parse iequals db_codec request) request store

  -- What the handlers and the connections share.
  pub record App : Type 0 where
    pub counters : StatData
    pub store : Store

  unfoldable pub handle : Handler → Request → App → Response × App
  unfolding handle_db handle_stat handle_echo
  handle db request app =
      let (response, store') = handle_db request app.store in
      (response, record app { store = store' })
  handle echo request app = (handle_echo request, app)
  handle stat request app =
      let (response, left) = handle_stat iequals stat_codec request app.counters in
      (response, record app { counters = left })

  -- The choice of the handler by the target of the request.
  unfoldable pub create_response : Request → App → Response × App
  unfolding handle handlers lookup
  create_response request app = elim (lookup request.target handlers) [
    | none ↦ (error_response bad_request "Unknown URI path", app)
    | some h ↦ handle h request app
  ]
