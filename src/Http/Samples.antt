-- ===== src/Http/Samples.antt =====
-- Concrete requests and an environment for the tests: names of formats are compared exactly, and a
-- message is its own text.
use acppsrv.Prelude.{ℕ, suc, String, Bool, true, false, ◌==◌, none, some, if◌then◌else◌, str_append}
use acppsrv.Http.Handler.{Request, fine, failure, Codec}
use acppsrv.Http.Routes.{StatData, Env}
use acppsrv.Http.Server.{Server}

abbrev pub text_codec : Codec String String
text_codec = record {
  from_json = λ s. (if s == "bad" then failure "3" "syntax" else fine, s);
  from_protobuf = λ s. (true, s);
  to_json = λ s. (if s == "bad" then failure "13" "broken" else fine, s);
  to_protobuf = λ s. (true, s);
}

abbrev pub stat_codec : Codec Bool StatData
stat_codec = record {
  from_json = λ s. (fine, s == "reset");
  from_protobuf = λ s. (true, s == "reset");
  to_json = λ d. (fine, "counters");
  to_protobuf = λ d. (true, "counters");
}

abbrev pub env : Env
env = record {
  Store = ℕ;
  DbRequest = String;
  DbResponse = String;
  iequals = ◌==◌;
  db_codec = text_codec;
  stat_codec = stat_codec;
  query = λ q s. (str_append q "!", suc s);
}

abbrev pub echo_request : Request
echo_request = record {
  is_head = false;
  target = "/echo";
  accept = none;
  content_type = some "application/json";
  expect = none;
  keep_alive = true;
  body = "hi";
}

abbrev pub server : Server
server = record {
  port = 8080;
  listen_queue = none;
  max_connections = some 2;
  idle_timeout = some 5;
  keepalive_timeout = some 9;
  keepalive_requests = some 2;
  max_request_headers = none;
  max_request_body = none;
  workers = 3;
  use_workers = 2;
}
