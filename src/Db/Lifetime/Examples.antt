-- ===== src/Db/Lifetime/Examples.antt =====
-- The databases of two threads of src/db_server.cpp, opened and released.
use acppsrv.Prelude.{ℕ, ◌≡◌, refl, String, false, some, List, [], ◌∷◌, lookup}
use acppsrv.Config.{get_time}
use acppsrv.Config.Examples.{seconds}
use acppsrv.Sqlite.{Query, connect, make_query}
use acppsrv.Sqlite.Handles.{Counted, counted}
use acppsrv.Sqlite.Examples.{script}
use acppsrv.Db.{DbDef}
use acppsrv.Db.Examples.{config}
use acppsrv.Db.Setup.{
  open_thread, open_threads, open_database, prepare_queries, call, share_sync, capped_wait, run,
  opened,
}
use acppsrv.Db.Lifetime.{destroy_databases}
use acppsrv.Db.Lifetime.Released.{run-Released}

abbrev library : ℕ → ℕ → Counted ℕ
library m n = record { inner = 0; connections = m; statements = n }

abbrev numbers : Query (counted script)
numbers = record {
  connection = record { file = "test.db"; handle = tt };
  sql = "select n from numbers";
  sql_id = "numbers";
  stmt = tt;
}

abbrev opened_db : DbDef (counted script)
opened_db = record {
  db = record { file = "test.db"; handle = tt };
  queries = ("numbers", numbers) ∷ [];
  retries = 2;
  retry_wait = 60_000_000_000;
  sync = 0;
}

abbrev all_threads : List (List (String × DbDef (counted script)))
all_threads = (("test", opened_db) ∷ []) ∷ (("test", opened_db) ∷ []) ∷ []

run_two_threads :
    run (counted script) seconds (some config) 2 (record { lib = library 5 7; finished = [] })
    ≡ opened all_threads (record { lib = library 7 9; finished = false ∷ [] })
unfolding run open_thread open_threads open_database prepare_queries call connect make_query
    share_sync capped_wait get_time lookup
run_two_threads = refl

run-Released_example :
    ((destroy_databases (counted script) all_threads (library 7 9)).connections ≡ 5)
    × ((destroy_databases (counted script) all_threads (library 7 9)).statements ≡ 7)
run-Released_example =
    run-Released script seconds (some config) 2 (record { lib = library 5 7; finished = [] })
      (record { lib = library 7 9; finished = false ∷ [] }) all_threads run_two_threads
