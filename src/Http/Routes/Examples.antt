-- ===== src/Http/Routes/Examples.antt =====
-- The handlers on concrete requests.
use acppsrv.Prelude.{◌≡◌, refl, ◌==◌, some, List, [], ◌∷◌}
use acppsrv.Http.Handler.{
  Request, bad_request, error_response, parse, serialize, json_body, protobuf_body, handle_sync,
}
use acppsrv.Http.Routes.{StatData, no_data, App, create_response, report, handle_stat}
use acppsrv.Http.Routes.Statistics.{
  Event, counts, asks, plus, final, reported, lost, HoldsCounters, counted, Same, is_reset,
  is_written, dropped, reported-final,
}
use acppsrv.Http.Samples.{env, stat_codec, echo_request}

abbrev one_request : StatData
one_request = record { connections = 0; requests = 1; data_req = 2; data_resp = 3 }

-- A reset whose response is accepted as JSON, and one that accepts no format of the server.
abbrev reset : Request
reset = record echo_request { target = "/stat"; body = "reset" }

abbrev history : List Event
history =
    counts one_request
    ∷ asks reset
    ∷ counts one_request
    ∷ asks (record reset { accept = some "text/html" })
    ∷ []

reported-final_example :
    HoldsCounters ◌==◌ stat_codec history no_data
    × Same
        (plus
          (plus (reported ◌==◌ stat_codec history no_data) (lost ◌==◌ stat_codec history no_data))
          (final ◌==◌ stat_codec history no_data))
        (plus no_data (counted history))
reported-final_example = reported-final ◌==◌ stat_codec history no_data

-- The counters of the second reset are in no response.
second_lost : lost ◌==◌ stat_codec history no_data ≡ one_request
unfolding lost dropped is_reset is_written handle_stat report parse serialize json_body
    protobuf_body handle_sync
second_lost = refl

abbrev app : App env
app = record { counters = one_request; store = 0 }

unknown_path :
    create_response env (record echo_request { target = "/none" }) app
    ≡ (error_response bad_request "Unknown URI path", app)
unfolding create_response
unknown_path = refl

db_runs : (create_response env (record echo_request { target = "/db" }) app).1.store ≡ 1
unfolding create_response parse json_body handle_sync
db_runs = refl

stat_resets :
    (create_response env (record echo_request { target = "/stat"; body = "reset" }) app).1.counters
    ≡ no_data
unfolding create_response parse json_body handle_sync report
stat_resets = refl
