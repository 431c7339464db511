-- ===== src/Http/Server/Examples.antt =====
-- The server's settings on concrete configurations.
use acppsrv.Prelude.{ℕ, ◌^◌, none, some}
use acppsrv.Config.{Configuration, HttpServer}
use acppsrv.Config.Examples.{sample, server}
use acppsrv.Http.Server.{Acceptor}

-- A body limit of 4 GiB.
abbrev large : HttpServer ℕ
large = record server { max_request_body = 2 ^ 32 }

abbrev large_config : Configuration ℕ
large_config = record sample { http_server = some large }

abbrev busy_port : Acceptor
busy_port = record {
  open_throws = none;
  reuse_address = none;
  bind = λ p. some "in use";
  listen = λ n. none;
}
