-- ===== src/Db/Lifetime/Released.antt =====
-- What `db_server::run` opens, the destructor of `db_server` releases.
use acppsrv.Prelude.{ℕ, ◌-◌, ◌≡◌, String, Option, List, [], ◌∷◌, length, arith}
use acppsrv.Config.{Float, Sqlite3Db}
use acppsrv.Sqlite.{Driver, Connection, Query}
use acppsrv.Sqlite.Handles.{Counted, counted, destroy_connection, destroy_query}
use acppsrv.Db.{DbDef}
use acppsrv.Db.Setup.{opened, run}
use acppsrv.Db.Lifetime.{destroy_queries, destroy_db, destroy_map, destroy_databases}
use acppsrv.Db.Lifetime.Opens.{Dbs, W, statements_in, all_statements, all_connections, run-Adds}

module _ (drv : Driver) (fl : Float) where
  open fl use {F}

  -- From `s` to `s'`, this many handles have been released.
  abbrev Frees : ℕ → ℕ → Counted drv.S → Counted drv.S → Type 0
  Frees m n s s' = (s'.connections ≡ s.connections - m) × (s'.statements ≡ s.statements - n)

  destroy_connection-Frees :
      (c : Connection (counted drv)) (s : Counted drv.S)
      → Frees 1 0 s (destroy_connection (counted drv) c s).1
  unfolding destroy_connection
  destroy_connection-Frees c s = ground arith

  destroy_queries-Frees :
      (qs : List (String × Query (counted drv))) (s : Counted drv.S)
      → Frees 0 (length qs) s (destroy_queries (counted drv) qs s)
  unfolding destroy_queries destroy_query
  destroy_queries-Frees [] s = omega arith
  destroy_queries-Frees ((name, q) ∷ qs) s =
      let (a, b) = destroy_queries-Frees qs (destroy_query (counted drv) q s) in
      (omega (arith, a), omega (arith, b))

  destroy_db-Frees :
      (db : DbDef (counted drv)) (s : Counted drv.S)
      → Frees 1 (length db.queries) s (destroy_db (counted drv) db s)
  unfolding destroy_db
  destroy_db-Frees db s =
      let s1 = destroy_queries (counted drv) db.queries s in
      let (a, b) = destroy_queries-Frees db.queries s in
      let (c, d) = destroy_connection-Frees db.db s1 in (omega (arith, a, c), omega (arith, b, d))

  destroy_map-Frees :
      (dbs : Dbs drv fl) (s : Counted drv.S)
      → Frees (length dbs) (statements_in drv fl dbs) s (destroy_map (counted drv) dbs s)
  unfolding destroy_map
  destroy_map-Frees [] s = omega arith
  destroy_map-Frees ((name, db) ∷ dbs) s =
      let (a, b) = destroy_db-Frees db s in
      let (c, d) = destroy_map-Frees dbs (destroy_db (counted drv) db s) in
      (omega (arith, a, c), omega (arith, b, d))

  destroy_databases-Frees :
      (databases : List (Dbs drv fl)) (s : Counted drv.S)
      → Frees
          (all_connections drv fl databases)
          (all_statements drv fl databases)
          s
          (destroy_databases (counted drv) databases s)
  unfolding destroy_databases
  destroy_databases-Frees [] s = omega arith
  destroy_databases-Frees (dbs ∷ rest) s =
      let (a, b) = destroy_map-Frees dbs s in
      let (c, d) = destroy_databases-Frees rest (destroy_map (counted drv) dbs s) in
      (omega (arith, a, c), omega (arith, b, d))

  -- When `run` has opened the databases of all threads, the destructor of the server releases as many
  -- connections and prepared statements as it opened: as many are open then as were before.
  pub run-Released :
      (cfg : Option (List (String × Sqlite3Db F))) (n : ℕ) (w w' : W drv fl)
      (databases : List (Dbs drv fl))
      → run (counted drv) fl cfg n w ≡ opened databases w'
      → ((destroy_databases (counted drv) databases w'.lib).connections ≡ w.lib.connections)
        × ((destroy_databases (counted drv) databases w'.lib).statements ≡ w.lib.statements)
  run-Released cfg n w w' databases h =
      let (a, b) = run-Adds drv fl cfg n w w' databases h in
      let (c, d) = destroy_databases-Frees databases w'.lib in
      (omega (arith, a, c), omega (arith, b, d))
