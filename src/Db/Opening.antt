-- ===== src/Db/Opening.antt =====
-- What `db_server::run` has set up when it returns true.
use acppsrv.Prelude.{
  ℕ, zero, suc, ◌≤◌, ◌≡◌, refl, sym, ◌∙◌, subst, ap, String, false, Option, none, some, List, [],
  ◌∷◌, arith, lookup, All, lookup-All, Agrees, Pairs, no_pairs, one_pair, lookup-Pairs,
}
use acppsrv.Config.{Float, Sqlite3Db, get_time}
use acppsrv.Sqlite.{Driver, Query, Connection, connect, make_query}
use acppsrv.Db.{DbDef, World, max_retry_wait}
use acppsrv.Db.Setup.{
  Opened, opened, refused, stopped, no_entry, O, call, pure, prepare_queries, capped_wait,
  share_sync, open_database, open_thread, open_threads, definitions, run,
}

-- The wait between retries: none without a configured time, and else the smaller one of that time and
-- `max_retry_wait`.
abbrev pub Waits : Option ℕ → ℕ → Type 0
Waits none wait = wait ≡ 0
Waits (some t) wait = (t ≤ max_retry_wait → wait ≡ t) × (max_retry_wait ≤ t → wait ≡ max_retry_wait)

module _ (drv : Driver) (fl : Float) where
  open fl use {F}

  abbrev Dbs : Type 0
  Dbs = List (String × DbDef drv)

  -- What a bind that returned has gone through.
  pub bind-opened :
      {A B : Type 0} (r : Opened drv fl A) (f : A → O drv fl B) (w' : World drv) (b : B)
      → elim r [
        | opened a v ↦ f a v
        | refused e v ↦ refused e v
        | stopped ↦ stopped
        | no_entry ↦ no_entry
      ]
        ≡ opened b w'
      → (a : A) × (v : World drv) × (r ≡ opened a v) × (f a v ≡ opened b w')
  bind-opened (opened a v) f w' b h = (a, v, refl, h)
  bind-opened (refused e v) f w' b h = cc
  bind-opened stopped f w' b h = cc
  bind-opened no_entry f w' b h = cc

  pub opened-injective :
      {A : Type 0} {a b : A} {v w : World drv} → pure drv fl a v ≡ opened b w → a ≡ b
  opened-injective h = cc

  -- A query has its connection, the configured text, and its name for messages.
  abbrev pub MatchesSql : Connection drv → String → String → Query drv → Type 0
  MatchesSql c name sql q = (q.connection ≡ c) × (q.sql ≡ sql) × (q.sql_id ≡ name)

  -- An entry of a thread's map: the file, the retries, the wait, and the queries under their names.
  abbrev pub MatchesDef : String → Sqlite3Db F → DbDef drv → Type 0
  MatchesDef name def db =
      (db.db.file ≡ def.file)
      × (db.retries ≡ def.retries)
      × Waits (get_time fl def.retry_wait) db.retry_wait
      × ((q : String) → Agrees (MatchesSql db.db) q (lookup q def.queries) (lookup q db.queries))

  -- A thread's map has an entry for each configured database and no other.
  abbrev pub Matches : List (String × Sqlite3Db F) → Dbs → Type 0
  Matches defs dbs = (name : String) → Agrees MatchesDef name (lookup name defs) (lookup name dbs)

  make_query-MatchesSql :
      (c : Connection drv) (name sql : String) (w w' : World drv) (q : Query drv)
      → call drv fl (make_query drv c sql name) w ≡ opened q w'
      → MatchesSql c name sql q
  unfolding call make_query
  make_query-MatchesSql c name sql w w' q h = ground arith

  prepare_queries-Pairs :
      (c : Connection drv) (qs : List (String × String)) (w w' : World drv)
      (r : List (String × Query drv))
      → prepare_queries drv fl c qs w ≡ opened r w'
      → Pairs (MatchesSql c) qs r
  unfolding prepare_queries
  prepare_queries-Pairs c [] w w' r h =
      subst (Pairs (MatchesSql c) []) (opened-injective h) no_pairs
  prepare_queries-Pairs c ((name, sql) ∷ qs) w w' r h =
      let (q, v, e, h1) = bind-opened (call drv fl (make_query drv c sql name) w) _ w' r h in
      let (rest, v2, e2, h2) = bind-opened (prepare_queries drv fl c qs v) _ w' r h1 in
      subst (Pairs (MatchesSql c) ((name, sql) ∷ qs)) (opened-injective h2) (
        one_pair (make_query-MatchesSql c name sql w v q e)
          (prepare_queries-Pairs c qs v v2 rest e2))

  capped_wait-Waits : (t : Option ℕ) → Waits t (capped_wait drv fl t)
  unfolding capped_wait
  capped_wait-Waits none = refl
  capped_wait-Waits (some t) = (λ h. ground arith, λ h. ground arith)

  connect-file :
      (file : String) (w w' : World drv) (c : Connection drv)
      → call drv fl (connect drv file false) w ≡ opened c w'
      → c.file ≡ file
  unfolding call connect
  connect-file file w w' c h = ground arith

  open_database-MatchesDef :
      (first : Option Dbs) (name : String) (def : Sqlite3Db F) (w w' : World drv) (db : DbDef drv)
      → open_database drv fl first (name, def) w ≡ opened db w'
      → MatchesDef name def db
  unfolding open_database
  open_database-MatchesDef first name def w w' db h =
      let (c, v, e, h1) = bind-opened (call drv fl (connect drv def.file false) w) _ w' db h in
      let (queries, v1, e1, h2) = bind-opened (prepare_queries drv fl c def.queries v) _ w' db h1 in
      let (sync, v2, e2, h3) = bind-opened (share_sync drv fl first name v1) _ w' db h2 in
      let same = opened-injective h3 in
      let prepared = prepare_queries-Pairs c def.queries v v1 queries e1 in
      subst (λ d. MatchesDef name def d) same
        (
          connect-file def.file w v c e,
          refl,
          capped_wait-Waits (get_time fl def.retry_wait),
          lookup-Pairs (MatchesSql c) prepared,
        )

  open_thread-Pairs :
      (first : Option Dbs) (defs : List (String × Sqlite3Db F)) (w w' : World drv) (dbs : Dbs)
      → open_thread drv fl first defs w ≡ opened dbs w'
      → Pairs MatchesDef defs dbs
  unfolding open_thread
  open_thread-Pairs first [] w w' dbs h = subst (Pairs MatchesDef []) (opened-injective h) no_pairs
  open_thread-Pairs first ((name, def) ∷ defs) w w' dbs h =
      let (db, v, e, h1) = bind-opened (open_database drv fl first (name, def) w) _ w' dbs h in
      let (rest, v1, e1, h2) = bind-opened (open_thread drv fl first defs v) _ w' dbs h1 in
      subst (Pairs MatchesDef ((name, def) ∷ defs)) (opened-injective h2) (
        one_pair (open_database-MatchesDef first name def w v db e)
          (open_thread-Pairs first defs v v1 rest e1))

  open_thread-Matches :
      (first : Option Dbs) (defs : List (String × Sqlite3Db F)) (w w' : World drv) (dbs : Dbs)
      → open_thread drv fl first defs w ≡ opened dbs w'
      → Matches defs dbs
  open_thread-Matches first defs w w' dbs h =
      lookup-Pairs MatchesDef (open_thread-Pairs first defs w w' dbs h)

  -- The entry has the shared object of the first thread's entry of its name.
  unfoldable pub SharesWith : Dbs → String → DbDef drv → Type 0
  SharesWith first name db = (d : DbDef drv) × (lookup name first ≡ some d) × (db.sync ≡ d.sync)

  share_sync-found :
      (r : Option (DbDef drv)) (v w : World drv) (n : ℕ)
      → elim r [ none ↦ no_entry | some d ↦ pure drv fl d.sync v ] ≡ opened n w
      → (d : DbDef drv) × (r ≡ some d) × (n ≡ d.sync)
  share_sync-found none v w n h = cc
  share_sync-found (some d) v w n h = (d, refl, sym (opened-injective h))

  open_database-SharesWith :
      (first : Dbs) (name : String) (def : Sqlite3Db F) (w w' : World drv) (db : DbDef drv)
      → open_database drv fl (some first) (name, def) w ≡ opened db w'
      → SharesWith first name db
  unfolding open_database SharesWith share_sync
  open_database-SharesWith first name def w w' db h =
      let (c, v, e, h1) = bind-opened (call drv fl (connect drv def.file false) w) _ w' db h in
      let (queries, v1, e1, h2) = bind-opened (prepare_queries drv fl c def.queries v) _ w' db h1 in
      let (sync, v2, e2, h3) = bind-opened (share_sync drv fl (some first) name v1) _ w' db h2 in
      let (d, found, same) = share_sync-found (lookup name first) v1 v2 sync e2 in
      (d, found, sym (ap (λ x. x.sync) (opened-injective h3)) ∙ same)

  -- All entries of a thread that opened after the first one.
  abbrev pub Shares : Dbs → Dbs → Type 0
  Shares first dbs =
      (name : String) (db : DbDef drv) → lookup name dbs ≡ some db → SharesWith first name db

  open_thread-All :
      (first : Dbs) (defs : List (String × Sqlite3Db F)) (w w' : World drv) (dbs : Dbs)
      → open_thread drv fl (some first) defs w ≡ opened dbs w'
      → All (λ e. SharesWith first e.0 e.1) dbs
  unfolding open_thread
  open_thread-All first [] w w' dbs h =
      subst (All (λ e. SharesWith first e.0 e.1)) (opened-injective h) tt
  open_thread-All first ((name, def) ∷ defs) w w' dbs h =
      let (db, v, e, h1) =
        bind-opened (open_database drv fl (some first) (name, def) w) _ w' dbs h in
      let (rest, v1, e1, h2) = bind-opened (open_thread drv fl (some first) defs v) _ w' dbs h1 in
      subst (All (λ e. SharesWith first e.0 e.1)) (opened-injective h2)
        (open_database-SharesWith first name def w v db e, open_thread-All first defs v v1 rest e1)

  open_thread-Shares :
      (first : Dbs) (defs : List (String × Sqlite3Db F)) (w w' : World drv) (dbs : Dbs)
      → open_thread drv fl (some first) defs w ≡ opened dbs w'
      → Shares first dbs
  open_thread-Shares first defs w w' dbs h name db =
      lookup-All (SharesWith first) dbs name (open_thread-All first defs w w' dbs h)

  -- What every thread of the others has.
  unfoldable pub AllReady : Dbs → List (String × Sqlite3Db F) → ℕ → List Dbs → Type 0
  AllReady first defs zero [] = Unit
  AllReady first defs zero (dbs ∷ rest) = ⊥
  AllReady first defs (suc n) [] = ⊥
  AllReady first defs (suc n) (dbs ∷ rest) =
      Matches defs dbs × Shares first dbs × AllReady first defs n rest

  open_threads-AllReady :
      (n : ℕ) (first : Dbs) (defs : List (String × Sqlite3Db F)) (w w' : World drv) (all : List Dbs)
      → open_threads drv fl n first defs w ≡ opened all w'
      → AllReady first defs n all
  unfolding open_threads AllReady
  open_threads-AllReady zero first defs w w' all h =
      subst (AllReady first defs zero) (opened-injective h) tt
  open_threads-AllReady (suc n) first defs w w' all h =
      let (dbs, v, e, h1) = bind-opened (open_thread drv fl (some first) defs w) _ w' all h in
      let (rest, v1, e1, h2) = bind-opened (open_threads drv fl n first defs v) _ w' all h1 in
      subst (AllReady first defs (suc n)) (opened-injective h2) (
        open_thread-Matches (some first) defs w v dbs e,
        open_thread-Shares first defs w v dbs e,
        open_threads-AllReady n first defs v v1 rest e1,
      )

  -- One map for each thread, each with the configuration's databases, and the shared objects of the
  -- first thread in all others.
  unfoldable pub Ready : List (String × Sqlite3Db F) → ℕ → List Dbs → Type 0
  Ready defs zero [] = Unit
  Ready defs zero (dbs ∷ rest) = ⊥
  Ready defs (suc n) [] = ⊥
  Ready defs (suc n) (first ∷ rest) = Matches defs first × AllReady first defs n rest

  -- When `run` has opened the databases for `n` threads, there is one map for each thread. Each has
  -- an entry under the name of each configured database and under no other, with the configured file
  -- and number of retries, with the configured retry wait bounded by `max_retry_wait` (zero if none
  -- is given), and with a query under each configured name and no other, prepared on this database's
  -- connection from the configured text. Each entry of the other threads has the synchronization
  -- object of the first thread's database of the same name.
  pub run-Ready :
      (cfg : Option (List (String × Sqlite3Db F))) (n : ℕ) (w w' : World drv) (all : List Dbs)
      → run drv fl cfg n w ≡ opened all w'
      → Ready (definitions drv fl cfg) n all
  unfolding run Ready
  run-Ready cfg zero w w' all h =
      subst (Ready (definitions drv fl cfg) zero) (opened-injective h) tt
  run-Ready cfg (suc n) w w' all h =
      let defs = definitions drv fl cfg in
      let (first, v, e, h1) = bind-opened (open_thread drv fl none defs w) _ w' all h in
      let (rest, v1, e1, h2) = bind-opened (open_threads drv fl n first defs v) _ w' all h1 in
      subst (Ready defs (suc n)) (opened-injective h2)
        (open_thread-Matches none defs w v first e, open_threads-AllReady n first defs v v1 rest e1)
