-- ===== src/Db/Examples.antt =====
-- Queries of src/db_server.cpp on the small library of the wrapper's examples.
use acppsrv.Prelude.Int.{pos}
use acppsrv.Prelude.{
  ℕ, ◌≡◌, ◌≢◌, ◌≤◌, ◌<◌, refl, inl, inr, String, true, false, none, some, List, [], ◌∷◌, arith,
  get_elem?, lookup, set,
}
use acppsrv.Config.{Sqlite3Db, get_time}
use acppsrv.Config.Examples.{seconds}
use acppsrv.Sqlite.{
  connect, make_query, get_column, start, next_row, bind, Driver, Query, Cell, error_query,
  sqlite_row,
}
use acppsrv.Sqlite
use acppsrv.Sqlite.Examples.{script, select}
use acppsrv.Db.{
  bind_args, read_columns, DbDef, World, v_int64, v_text, Row, Request, Run, fetched, answered,
  out_of_range, of_cell, fetch, execute_query, run_query,
}
use acppsrv.Db.Setup.{
  open_thread, open_threads, open_database, prepare_queries, call, share_sync, capped_wait, run,
  opened, definitions,
}
use acppsrv.Db.Fetching.{Fetch, stop, more, free, again, fetch-Locks}
use acppsrv.Db.Fetching.{Steps}
use acppsrv.Db.Fuel.{execute_query-Ends}
use acppsrv.Db.Answers.{AnswersConsistent, run_query-Consistent, run_query-Locks}
use acppsrv.Db.Opening.{Ready, run-Ready}

abbrev pub numbers : DbDef script
numbers = record {
  db = record { file = "test.db"; handle = tt };
  queries = ("numbers", select) ∷ [];
  retries = 2;
  retry_wait = 1_000_000;
  sync = 0;
}

abbrev pub state : ℕ → World script
state n = record { lib = n; finished = true ∷ [] }

-- The state with the flag set.
abbrev pub signalled : ℕ → World script
signalled n = record { lib = n; finished = set (true ∷ []) 0 true }

abbrev pub two_rows : List (Row ℕ)
two_rows = (v_int64 (pos 1) ∷ []) ∷ (v_int64 (pos 0) ∷ []) ∷ []

pub two_rows-Fetch : Fetch script select 1 2 two_rows 0
unfolding read_columns of_cell get_column
two_rows-Fetch = more (refl, refl) (more (refl, refl) (stop (refl, refl)))

fetch-Locks_example :
    fetch script 5 numbers select 1 2 [] (state 3) ≡ fetched two_rows (signalled 0)
fetch-Locks_example =
    fetch-Locks script select numbers (again (inl (refl, refl)) (again (inr (refl, refl)) free))
      two_rows-Fetch 5 2 [] (true ∷ []) (omega arith) (omega arith)

abbrev locked_msg : Sqlite.Error
locked_msg = error_query script "sqlite3_step" select.connection select.sql_id 6

script_shrinks : (s t : ℕ) → Steps script select s sqlite_row t → t < s
script_shrinks s t (e, f) = ground arith

script_restarts : (s : ℕ) → script.reset tt s ≤ 5
script_restarts s = ground arith

execute_query-Ends_example : execute_query script 16 numbers select 2 [] (state 3) ≢ Run.no_fuel
execute_query-Ends_example =
    execute_query-Ends script select (λ s. s) 5 script_shrinks script_restarts 16 2 numbers []
      (state 3) (omega arith)

abbrev pub request : Request ℕ
request = record { db = "test"; query = "numbers"; args = v_text "x" ∷ []; retry_if_locked = true }

abbrev pub databases : List (List (String × DbDef script))
databases = (("test", numbers) ∷ []) ∷ []

run_query-Consistent_example :
    AnswersConsistent script (run_query script 0 databases 0 request (state 4))
    × ((run_query script 0 databases 0 request (state 4) ≡ out_of_range)
        → get_elem? databases 0 ≡ none)
run_query-Consistent_example = run_query-Consistent script 0 databases 0 request (state 4)

run_query-Locks_example :
    run_query script 9 databases 0 request (state 4)
    ≡ answered (record { ok = true; msg = "ok"; rows = two_rows }) (signalled 0)
unfolding lookup start bind_args bind
run_query-Locks_example =
    run_query-Locks script databases request 9 0 (state 4) refl refl refl refl refl
      (again (inr (refl, refl)) free) two_rows-Fetch (omega arith) (omega arith)

abbrev pub config : List (String × Sqlite3Db ℕ)
config =
    (
      "test",
      record {
        file = "test.db";
        queries = ("numbers", "select n from numbers") ∷ [];
        retries = 2;
        retry_wait = 90;
      },
    )
    ∷ []

abbrev opened_db : DbDef script
opened_db = record {
  db = record { file = "test.db"; handle = tt };
  queries = ("numbers", select) ∷ [];
  retries = 2;
  retry_wait = 60_000_000_000;
  sync = 0;
}

abbrev all_threads : List (List (String × DbDef script))
all_threads = (("test", opened_db) ∷ []) ∷ (("test", opened_db) ∷ []) ∷ []

run_two_threads :
    run script seconds (some config) 2 (record { lib = 0; finished = [] })
    ≡ opened all_threads (record { lib = 0; finished = false ∷ [] })
unfolding run open_thread open_threads open_database prepare_queries call connect make_query
    share_sync capped_wait get_time lookup
run_two_threads = refl

run-Ready_example : Ready script seconds (definitions script seconds (some config)) 2 all_threads
run-Ready_example =
    run-Ready script seconds (some config) 2 (record { lib = 0; finished = [] })
      (record { lib = 0; finished = false ∷ [] }) all_threads run_two_threads
