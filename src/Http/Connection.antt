-- ===== src/Http/Connection.antt =====
-- `http_server::handle_connection` of src/http_server.cpp for one connection. What the client and the
-- network do is a list of exchanges; the trace holds what the server does, the newest first. What
-- other connections do to the counters meanwhile is left out.
pub mod Rounds
pub mod KeepAlive
pub mod Timeouts
pub mod End
pub mod Examples
use Prim.Native.String.{len}
use acppsrv.Prelude.{
  ℕ, ◌+◌, ◌%◌, ◌^◌, String, Bool, true, false, not, ◌&&◌, ◌||◌, Option, none, some, List, [], ◌∷◌,
  if◌then◌else◌, ltb, nat_beq,
}
use acppsrv.Http.Server.{Server}
use acppsrv.Http.Handler.{Request, Response, new_response, payload_too_large, field}
use acppsrv.Http.Routes.{Env, App, StatData, create_response, uint64_mod}

-- boost::system::error_code, when it is an error
pub data Error : Type 0 where
  body_limit : Error
  other : String → Error

pub data Header : Type 0 where
  unread : Error → Header
  header : Request → Header

-- One round of the loop as the client and the network make it: the outcome of each operation. The
-- body is done after the listed reads.
pub record Exchange : Type 0 where
  pub read_header : Header
  pub write_continue : Option Error
  pub body_reads : List (Option Error)
  pub write_response : Option Error

pub data Action : Type 0 where
  -- expires_after, or expires_never
  expires : Option ℕ → Action
  reads_header : Action
  writes_continue : Action
  reads_some : Action
  writes : Response → Action
  -- the response after an error
  writes_error : Response → Action

module _ (env : Env) (srv : Server) (header_server : String) where
  open env use {iequals}

  pub record Conn : Type 0 where
    pub req_n : ℕ
    pub ec : Option Error
    pub stage : String
    pub app : App env
    pub trace : List Action

  -- A step goes on, or jumps to `abort_connection`.
  pub data Outcome (A : Type 0) : Type 0 where
    going : A → Conn → Outcome A
    abort : Conn → Outcome A

  abbrev M : Type 0 → Type 0
  M A = Conn → Outcome A

  infixl 5 ◌>>=◌ ◌>>◌
  abbrev ◌>>=◌ : {A B : Type 0} → M A → (A → M B) → M B
  ◌>>=◌ m f c = elim (m c) [ going a c' ↦ f a c' | abort c' ↦ abort c' ]

  abbrev ◌>>◌ : {A B : Type 0} → M A → M B → M B
  m >> n = m >>= λ _. n

  abbrev pub act : Action → Conn → Conn
  act a c = record c { trace = a ∷ c.trace }

  before_request_timeout : Bool → Conn → Conn
  before_request_timeout first c =
      act (expires (if first then srv.idle_timeout else srv.keepalive_timeout)) c

  in_request_timeout : Conn → Conn
  in_request_timeout c = act (expires srv.idle_timeout) c

  -- The outcome of an operation is stored, and then the stage; an error aborts.
  finish : String → Option Error → Conn → Outcome Unit
  finish stage none c = going tt (record c { ec = none; stage = stage })
  finish stage (some e) c = abort (record c { ec = some e; stage = stage })

  abbrev count_request : Conn → Conn
  count_request c = record c {
    req_n = (c.req_n + 1) % uint64_mod;
    app = record c.app {
      counters = record c.app.counters { requests = (c.app.counters.requests + 1) % uint64_mod };
    };
  }

  got_header : Header → M Request
  got_header (unread e) c = abort (record c { ec = some e; stage = "read_request_headers" })
  got_header (header request) c =
      going request (count_request (record c { ec = none; stage = "read_request_headers" }))

  unfoldable pub read_request : Exchange → M Request
  unfolding before_request_timeout got_header
  read_request x c =
      got_header x.read_header
        (act reads_header (before_request_timeout (nat_beq c.req_n 0) (record c { stage = "" })))

  unfoldable pub expect_continue : Exchange → Request → M Unit
  unfolding in_request_timeout finish
  expect_continue x request c =
      if iequals (field request.expect) "100-continue"
      then finish "write_100_continue" x.write_continue (act writes_continue (in_request_timeout c))
      else going tt c

  unfoldable pub read_body : List (Option Error) → M Unit
  unfolding in_request_timeout finish
  read_body [] c = going tt c
  read_body (none ∷ rs) c =
      read_body rs
        (record (act reads_some (in_request_timeout c)) { ec = none; stage = "read_request_body" })
  read_body (some e ∷ rs) c =
      finish "read_request_body" (some e) (act reads_some (in_request_timeout c))

  abbrev count_data : (StatData → StatData) → App env → App env
  count_data f app = record app { counters = f app.counters }

  -- `request.keep_alive() && (!keepalive_requests || req_n < *keepalive_requests)`
  abbrev pub below_limit : Option ℕ → ℕ → Bool
  below_limit none n = true
  below_limit (some k) n = ltb n k

  abbrev pub keeps_alive : Request → ℕ → Bool
  keeps_alive request req_n = request.keep_alive && below_limit srv.keepalive_requests req_n

  -- The response as it is sent, without the counters.
  abbrev sent : Request → ℕ → Response → Response
  sent request req_n response = record response {
    body = if request.is_head then "" else response.body;
    server = some header_server;
    keep_alive = keeps_alive request req_n;
  }

  answer : Exchange → Request → Response × App env → M Bool
  unfolding finish
  answer x request (made, app1) c =
      let response = sent request c.req_n made in
      let app2 =
        count_data (λ d. record d { data_resp = (d.data_resp + len response.body) % uint64_mod })
          app1 in
      (finish "write_response" x.write_response >> going (keeps_alive request c.req_n))
        (act (writes response) (act (expires none) (record c { app = app2 })))

  abbrev count_body : Request → App env → App env
  count_body request =
      count_data (λ d. record d { data_req = (d.data_req + len request.body) % uint64_mod })

  unfoldable pub respond : Exchange → Request → M Bool
  unfolding answer
  respond x request c = answer x request (create_response env request (count_body request c.app)) c

  -- The body of the loop; it returns `keepalive`.
  unfoldable pub round : Exchange → M Bool
  round x = do
    request ← read_request x
    expect_continue x request
    read_body x.body_reads
    respond x request

  -- The coroutine waits for a client that does nothing more, or it has ended.
  pub data Progress : Type 0 where
    waiting : Conn → Progress
    ended : Conn → Progress

  -- From `abort_connection` on.
  unfoldable pub send_error : Conn → Conn
  unfolding in_request_timeout
  send_error c = elim c.ec [
    | some body_limit ↦ act (writes_error (new_response payload_too_large)) (in_request_timeout c)
    | some (other e) ↦ c
    | none ↦ c
  ]

  unfoldable pub rounds : List Exchange → Conn → Progress
  unfolding send_error
  rounds [] c = waiting c
  rounds (x ∷ xs) c = elim (round x c) [
    | going true c' ↦ rounds xs c'
    | going false c' ↦ ended (send_error (record c' { ec = none; stage = "" }))
    | abort c' ↦ ended (send_error c')
  ]

  -- What a connection starts with.
  abbrev pub opened : App env → Conn
  opened app = record {
    req_n = 0;
    ec = none;
    stage = "";
    app = count_data (λ d. record d { connections = (d.connections + 1) % uint64_mod }) app;
    trace = [];
  }

  unfoldable pub handle_connection : List Exchange → App env → Progress
  unfolding rounds
  handle_connection xs app = rounds xs (opened app)
