-- ===== src/Config/Examples.antt =====
-- Configurations on concrete inputs. The floats are whole numbers of seconds.
use acppsrv.Prelude.Int.{pos}
use acppsrv.Prelude.{ℕ, ◌*◌, ◌^◌, ◌≡◌, refl, true, false, none, some, ltb, ltb→lt, arith}
use acppsrv.Config.{Float, ThreadPools, HttpServer, Configuration, validate, load, contents}
use acppsrv.Config.Valid.{validate_iff}

abbrev pub seconds : Float
seconds = record {
  F = ℕ;
  is_pos = λ t. ltb 0 t;
  is_neg = λ t. false;
  to_nanos = λ t. t * 1_000_000_000;
  below_max = λ t. ltb t (2 ^ 63);
  to_rep = λ t. t;
  to_rep_lt = λ t h. ltb→lt t (2 ^ 63) h;
}

abbrev pools : ThreadPools
pools = record {
  main = none;
  control = some (record { threads = pos 1 });
  database = none;
  main_pools = pos 2;
  accept_pool = true;
}

abbrev pub server : HttpServer ℕ
server = record {
  port = 8080;
  listen_queue = 0;
  max_connections = 0;
  idle_timeout = 5;
  keepalive_timeout = 0;
  keepalive_requests = 100;
  max_request_headers = 0;
  max_request_body = 0;
}

abbrev pub sample : Configuration ℕ
sample = record {
  log = some (pos 6);
  thread_pools = some pools;
  http_server = some server;
  databases = none;
}

validate_iff_example : (validate seconds sample).result ≡ true
validate_iff_example =
    (validate_iff seconds sample).1 (omega arith, omega arith, (omega arith, refl, refl))

pub sample_loads : (load seconds (λ t. (true, sample)) (contents "{}")).is_valid ≡ true
unfolding load
sample_loads = (validate_iff seconds sample).1 (omega arith, omega arith, (omega arith, refl, refl))
