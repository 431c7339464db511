-- ===== src/Http/Server.antt =====
-- The constructor of `http_server` and `http_server::run`, src/http_server.cpp. An acceptor's call is
-- its outcome: `none`, or the error.
pub mod Laws
pub mod Examples
use acppsrv.Prelude.{
  ℕ, ◌+◌, ◌-◌, ◌%◌, ◌^◌, String, Bool, true, false, ◌&&◌, Option, none, some, if◌then◌else◌, ltb,
  nat_beq,
}
use acppsrv.Config.{Float, Configuration, HttpServer, ThreadPools, http_port, get_time}

pub record Server : Type 0 where
  pub port : ℕ
  pub listen_queue : Option ℕ
  pub max_connections : Option ℕ
  -- nanoseconds
  pub idle_timeout : Option ℕ
  pub keepalive_timeout : Option ℕ
  pub keepalive_requests : Option ℕ
  pub max_request_headers : Option ℕ
  pub max_request_body : Option ℕ
  -- workers.size()
  pub workers : ℕ
  pub use_workers : ℕ

abbrev pub max_int : ℕ
max_int = 2 ^ 31 - 1

-- `if (auto v = …) field = v`
abbrev pub if_set : ℕ → ℕ → Option ℕ
if_set v stored = if nat_beq v 0 then none else some stored

-- A `uint64` stored in a `std::optional<uint32_t>`.
abbrev pub to_uint32 : ℕ → ℕ
to_uint32 v = v % 2 ^ 32

abbrev pub accept_pool_set : Option ThreadPools → Bool
accept_pool_set none = false
accept_pool_set (some tp) = tp.accept_pool

module _ (fl : Float) where
  open fl use {F}

  set_limits : Option (HttpServer F) → Server → Server
  set_limits none s = s
  set_limits (some http) s = record s {
    listen_queue =
        if_set http.listen_queue
          (if ltb max_int http.listen_queue then max_int else http.listen_queue);
    max_connections = if_set http.max_connections http.max_connections;
    idle_timeout = get_time fl http.idle_timeout;
    keepalive_timeout = get_time fl http.keepalive_timeout;
    keepalive_requests = if_set http.keepalive_requests http.keepalive_requests;
    max_request_headers = if_set http.max_request_headers (to_uint32 http.max_request_headers);
    max_request_body = if_set http.max_request_body (to_uint32 http.max_request_body);
  }

  -- The constructor, for the number of main pools. Its handlers are `Http.Routes`.
  unfoldable pub make_server : Configuration F → ℕ → Server
  unfolding set_limits
  make_server cfg workers = set_limits cfg.http_server (record {
    port = http_port cfg;
    listen_queue = none;
    max_connections = none;
    idle_timeout = none;
    keepalive_timeout = none;
    keepalive_requests = none;
    max_request_headers = none;
    max_request_body = none;
    workers = workers;
    use_workers =
        if ltb 1 workers && accept_pool_set cfg.thread_pools then workers - 1 else workers;
  })

-- What the calls of the acceptor give: `open` is called without an error code and throws.
pub record Acceptor : Type 0 where
  pub open_throws : Option String
  pub reuse_address : Option String
  pub bind : ℕ → Option String
  pub listen : ℕ → Option String

-- `run` throws, returns false, or starts the accept loop and returns true.
pub data Run : Type 0 where
  throws : String → Run
  failed : Run
  accepting : Run

-- The test of `ec` after `open`: it has just been constructed, and `open` does not set it.
after_open : Option String → Run → Run
after_open none next = next
after_open (some e) next = failed

pub value_or : Option ℕ → ℕ → ℕ
value_or none d = d
value_or (some v) d = v

-- `max_listen` is `max_listen_connections` of the system.
unfoldable pub run : Server → Acceptor → ℕ → Run
unfolding after_open value_or
run s a max_listen = elim a.open_throws [
  | some e ↦ throws e
  | none ↦ after_open none (elim a.reuse_address [
    | some e ↦ failed
    | none ↦ elim (a.bind s.port) [
      | some e ↦ failed
      | none ↦ elim (a.listen (value_or s.listen_queue max_listen)) [
        | some e ↦ failed
        | none ↦ accepting
      ]
    ]
  ])
]
