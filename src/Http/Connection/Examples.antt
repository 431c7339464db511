-- ===== src/Http/Connection/Examples.antt =====
-- Connections with concrete clients.
use acppsrv.Prelude.{refl, none, some, [], ◌∷◌, arith}
use acppsrv.Http.Routes.{no_data, App}
use acppsrv.Http.Connection.{Exchange, header, body_limit, handle_connection}
use acppsrv.Http.Connection.KeepAlive.{KeepsLimit, handle_connection-KeepsLimit}
use acppsrv.Http.Connection.Timeouts.{RunsTimed, handle_connection-RunsTimed}
use acppsrv.Http.Samples.{env, server, echo_request}

abbrev pub app : App env
app = record { counters = no_data; store = 0 }

abbrev pub good : Exchange
good = record {
  read_header = header echo_request;
  write_continue = none;
  body_reads = none ∷ [];
  write_response = none;
}

abbrev pub too_large : Exchange
too_large = record good { body_reads = none ∷ some body_limit ∷ [] }

handle_connection-KeepsLimit_example :
    KeepsLimit env server "A" 2 (handle_connection env server "A" (good ∷ good ∷ good ∷ []) app)
handle_connection-KeepsLimit_example =
    handle_connection-KeepsLimit env server "A" 2 (omega arith) refl (good ∷ good ∷ good ∷ []) app
      (omega arith)

handle_connection-RunsTimed_example :
    RunsTimed env server "A" (handle_connection env server "A" (good ∷ too_large ∷ []) app)
handle_connection-RunsTimed_example =
    handle_connection-RunsTimed env server "A" (good ∷ too_large ∷ []) app
