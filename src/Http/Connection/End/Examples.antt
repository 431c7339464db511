-- ===== src/Http/Connection/End/Examples.antt =====
-- The end of a connection with concrete clients.
use acppsrv.Prelude.{◌≡◌, refl, some, [], ◌∷◌}
use acppsrv.Http.Connection.{body_limit, handle_connection}
use acppsrv.Http.Connection.Examples.{app, good, too_large}
use acppsrv.Http.Connection.End.Reports.{failure_of}
use acppsrv.Http.Connection.End.Failures.{Told, handle_connection-Told}
use acppsrv.Http.Samples.{env, server}

failure_of_run : failure_of env too_large ≡ some ("read_request_body", body_limit)
unfolding failure_of
failure_of_run = refl

handle_connection-Told_example :
    Told env server "A"
      (good ∷ too_large ∷ [])
      (handle_connection env server "A" (good ∷ too_large ∷ []) app)
handle_connection-Told_example = handle_connection-Told env server "A" (good ∷ too_large ∷ []) app
