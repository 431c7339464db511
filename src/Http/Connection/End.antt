-- ===== src/Http/Connection/End.antt =====
-- The message that `active_connection_end` of src/http_server.cpp logs about a connection: the guard
-- `at_end` of `handle_connection` gives it the variables `ec`, `stage` and `req_n` as the end of the
-- coroutine leaves them.
pub mod Reports
pub mod Failures
pub mod Examples
use acppsrv.Prelude.{ℕ, String, Option, none, some}
use acppsrv.Log.{LogLevel, info, err}
use acppsrv.Http.Server.{Server}
use acppsrv.Http.Routes.{Env}
use acppsrv.Http.Connection.{Error, Conn}

-- `stage` and `error` are written only after an error.
pub record EndMessage : Type 0 where
  pub level : LogLevel
  pub requests : ℕ
  pub failure : Option (String × Error)

unfoldable pub active_connection_end : Option Error → String → ℕ → EndMessage
active_connection_end none stage requests = record {
  level = info;
  requests = requests;
  failure = none;
}
active_connection_end (some ec) stage requests = record {
  level = err;
  requests = requests;
  failure = some (stage, ec);
}

-- What `at_end` calls.
unfoldable pub at_end : {env : Env} {srv : Server} {name : String} → Conn env srv name → EndMessage
unfolding active_connection_end
at_end c = active_connection_end c.ec c.stage c.req_n
