-- ===== src/Db/Lifetime/Opens.antt =====
-- What `db_server::run` opens, in a library that counts its open handles.
use acppsrv.Prelude.{
  ℕ, zero, suc, ◌+◌, ◌≡◌, sym, ap, ◌∙◌, String, false, Option, none, some, List, [], ◌∷◌, length,
  lookup, arith,
}
use acppsrv.Config.{Float, Sqlite3Db}
use acppsrv.Sqlite.{Driver, Connection, Query, connect, make_query}
use acppsrv.Sqlite.Handles.{counted}
use acppsrv.Db.{DbDef, World}
use acppsrv.Db.Setup.{
  Opened, opened, no_entry, call, pure, prepare_queries, share_sync, open_database, open_thread,
  open_threads, definitions, run,
}
use acppsrv.Db.Opening.{bind-opened}

module _ (drv : Driver) (fl : Float) where
  open fl use {F}

  abbrev pub Dbs : Type 0
  Dbs = List (String × DbDef (counted drv))

  abbrev pub W : Type 0
  W = World (counted drv)

  -- The statements of a map, and of the maps of all threads.
  abbrev pub statements_in : Dbs → ℕ
  statements_in [] = 0
  statements_in ((name, db) ∷ dbs) = length db.queries + statements_in dbs

  abbrev pub all_statements : List Dbs → ℕ
  all_statements [] = 0
  all_statements (dbs ∷ rest) = statements_in dbs + all_statements rest

  abbrev pub all_connections : List Dbs → ℕ
  all_connections [] = 0
  all_connections (dbs ∷ rest) = length dbs + all_connections rest

  -- From `w` to `w'`, this many handles more are open.
  abbrev pub Adds : ℕ → ℕ → W → W → Type 0
  Adds m n w w' =
      (w'.lib.connections ≡ w.lib.connections + m) × (w'.lib.statements ≡ w.lib.statements + n)

  connect-Adds :
      (file : String) (w w' : W) (c : Connection (counted drv))
      → call (counted drv) fl (connect (counted drv) file false) w ≡ opened c w'
      → Adds 1 0 w w'
  unfolding call connect
  connect-Adds file w w' c h = ground arith

  make_query-Adds :
      (c : Connection (counted drv)) (sql name : String) (w w' : W) (q : Query (counted drv))
      → call (counted drv) fl (make_query (counted drv) c sql name) w ≡ opened q w'
      → Adds 0 1 w w'
  unfolding call make_query
  make_query-Adds c sql name w w' q h = ground arith

  pure-Adds :
      {A : Type 0} (a b : A) (w w' : W)
      → pure (counted drv) fl a w ≡ opened b w'
      → (a ≡ b) × (w ≡ w')
  pure-Adds a b w w' h = (cc, cc)

  prepare_queries-Adds :
      (c : Connection (counted drv)) (qs : List (String × String)) (w w' : W)
      (r : List (String × Query (counted drv)))
      → prepare_queries (counted drv) fl c qs w ≡ opened r w'
      → Adds 0 (length r) w w'
  unfolding prepare_queries
  prepare_queries-Adds c [] w w' r h =
      let (e, e') = pure-Adds [] r w w' h in
      (
        ap (λ x. x.lib.connections) (sym e') ∙ omega arith,
        omega (arith, ap length e, ap (λ x. x.lib.statements) e'),
      )
  prepare_queries-Adds c ((name, sql) ∷ qs) w w' r h =
      let (q, v, e, h1) =
        bind-opened (counted drv) fl (call (counted drv) fl (make_query (counted drv) c sql name) w)
          _ w' r h in
      let (rest, v2, e2, h2) =
        bind-opened (counted drv) fl (prepare_queries (counted drv) fl c qs v) _ w' r h1 in
      let (e3, e4) = pure-Adds ((name, q) ∷ rest) r v2 w' h2 in
      let (a, b) = make_query-Adds c sql name w v q e in
      let (a', b') = prepare_queries-Adds c qs v v2 rest e2 in
      (
        omega (arith, a, a', ap (λ x. x.lib.connections) e4),
        omega (arith, b, b', ap length e3, ap (λ x. x.lib.statements) e4),
      )

  share_sync-lib :
      (first : Option Dbs) (name : String) (w w' : W) (n : ℕ)
      → share_sync (counted drv) fl first name w ≡ opened n w'
      → w.lib ≡ w'.lib
  unfolding share_sync
  share_sync-lib none name w w' n h = cc
  share_sync-lib (some first) name w w' n h = go (lookup name first) h
    where
      go :
          (r : Option (DbDef (counted drv)))
          → elim r as (λ _. Opened (counted drv) fl ℕ) [
            | none ↦ no_entry
            | some d ↦ opened d.sync w
          ]
            ≡ opened n w'
          → w.lib ≡ w'.lib
      go none e = cc
      go (some d) e = cc

  open_database-Adds :
      (first : Option Dbs) (name : String) (def : Sqlite3Db F) (w w' : W) (db : DbDef (counted drv))
      → open_database (counted drv) fl first (name, def) w ≡ opened db w'
      → Adds 1 (length db.queries) w w'
  unfolding open_database
  open_database-Adds first name def w w' db h =
      let (c, v, e, h1) =
        bind-opened (counted drv) fl
          (call (counted drv) fl (connect (counted drv) def.file false) w) _ w' db h in
      let (queries, v1, e1, h2) =
        bind-opened (counted drv) fl (prepare_queries (counted drv) fl c def.queries v) _ w' db
          h1 in
      let (sync, v2, e2, h3) =
        bind-opened (counted drv) fl (share_sync (counted drv) fl first name v1) _ w' db h2 in
      let (same, same_w) = pure-Adds _ db v2 w' h3 in
      let (a, b) = connect-Adds def.file w v c e in
      let (a', b') = prepare_queries-Adds c def.queries v v1 queries e1 in
      let kept = share_sync-lib first name v1 v2 sync e2 in
      (
        omega (arith, a, a', ap (λ x. x.connections) kept, ap (λ x. x.lib.connections) same_w),
        omega (
          arith,
          b,
          b',
          ap (λ x. x.statements) kept,
          ap (λ x. x.lib.statements) same_w,
          ap (λ x. length x.queries) same,
        ),
      )

  open_thread-Adds :
      (first : Option Dbs) (defs : List (String × Sqlite3Db F)) (w w' : W) (dbs : Dbs)
      → open_thread (counted drv) fl first defs w ≡ opened dbs w'
      → Adds (length dbs) (statements_in dbs) w w'
  unfolding open_thread
  open_thread-Adds first [] w w' dbs h =
      let (e, e') = pure-Adds [] dbs w w' h in
      (
        omega (arith, ap length e, ap (λ x. x.lib.connections) e'),
        omega (arith, ap statements_in e, ap (λ x. x.lib.statements) e'),
      )
  open_thread-Adds first ((name, def) ∷ defs) w w' dbs h =
      let (db, v, e, h1) =
        bind-opened (counted drv) fl (open_database (counted drv) fl first (name, def) w) _ w' dbs
          h in
      let (rest, v1, e1, h2) =
        bind-opened (counted drv) fl (open_thread (counted drv) fl first defs v) _ w' dbs h1 in
      let (same, same_w) = pure-Adds ((name, db) ∷ rest) dbs v1 w' h2 in
      let (a, b) = open_database-Adds first name def w v db e in
      let (a', b') = open_thread-Adds first defs v v1 rest e1 in
      (
        omega (arith, a, a', ap length same, ap (λ x. x.lib.connections) same_w),
        omega (arith, b, b', ap statements_in same, ap (λ x. x.lib.statements) same_w),
      )

  open_threads-Adds :
      (n : ℕ) (first : Dbs) (defs : List (String × Sqlite3Db F)) (w w' : W) (rest : List Dbs)
      → open_threads (counted drv) fl n first defs w ≡ opened rest w'
      → Adds (all_connections rest) (all_statements rest) w w'
  unfolding open_threads
  open_threads-Adds zero first defs w w' rest h =
      let (e, e') = pure-Adds [] rest w w' h in
      (
        omega (arith, ap all_connections e, ap (λ x. x.lib.connections) e'),
        omega (arith, ap all_statements e, ap (λ x. x.lib.statements) e'),
      )
  open_threads-Adds (suc n) first defs w w' rest h =
      let (dbs, v, e, h1) =
        bind-opened (counted drv) fl (open_thread (counted drv) fl (some first) defs w) _ w' rest
          h in
      let (more, v1, e1, h2) =
        bind-opened (counted drv) fl (open_threads (counted drv) fl n first defs v) _ w' rest h1 in
      let (same, same_w) = pure-Adds (dbs ∷ more) rest v1 w' h2 in
      let (a, b) = open_thread-Adds (some first) defs w v dbs e in
      let (a', b') = open_threads-Adds n first defs v v1 more e1 in
      (
        omega (arith, a, a', ap all_connections same, ap (λ x. x.lib.connections) same_w),
        omega (arith, b, b', ap all_statements same, ap (λ x. x.lib.statements) same_w),
      )

  pub run-Adds :
      (cfg : Option (List (String × Sqlite3Db F))) (n : ℕ) (w w' : W) (databases : List Dbs)
      → run (counted drv) fl cfg n w ≡ opened databases w'
      → Adds (all_connections databases) (all_statements databases) w w'
  unfolding run
  run-Adds cfg zero w w' databases h =
      let (e, e') = pure-Adds [] databases w w' h in
      (
        omega (arith, ap all_connections e, ap (λ x. x.lib.connections) e'),
        omega (arith, ap all_statements e, ap (λ x. x.lib.statements) e'),
      )
  run-Adds cfg (suc n) w w' databases h =
      let (dbs, v, e, h1) =
        bind-opened (counted drv) fl
          (open_thread (counted drv) fl none (definitions (counted drv) fl cfg) w) _ w' databases
          h in
      let (more, v1, e1, h2) =
        bind-opened (counted drv) fl
          (open_threads (counted drv) fl n dbs (definitions (counted drv) fl cfg) v) _ w' databases
          h1 in
      let (same, same_w) = pure-Adds (dbs ∷ more) databases v1 w' h2 in
      let (a, b) = open_thread-Adds none (definitions (counted drv) fl cfg) w v dbs e in
      let (a', b') = open_threads-Adds n dbs (definitions (counted drv) fl cfg) v v1 more e1 in
      (
        omega (arith, a, a', ap all_connections same, ap (λ x. x.lib.connections) same_w),
        omega (arith, b, b', ap all_statements same, ap (λ x. x.lib.statements) same_w),
      )
