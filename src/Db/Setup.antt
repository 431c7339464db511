-- ===== src/Db/Setup.antt =====
-- `db_server::run` of src/db_server.cpp: opening the databases of all threads. The lists of entries
-- stand for the maps of the source, whose keys are distinct, so each entry is a new one. Their order
-- is that in which the map of the configuration is visited; it is the same for all threads, and it
-- has no meaning: the source keeps the databases sorted by name.
use acppsrv.Prelude.{
  ℕ, zero, suc, String, false, Option, none, some, List, [], ◌∷◌, ◌++◌, if◌then◌else◌, ltb, lookup,
  length,
}
use acppsrv.Config.{Float, Sqlite3Db, get_time}
use acppsrv.Sqlite.{
  Driver, Connection, Query, Result, ok, raised, aborted, connect, make_query, Error,
}
use acppsrv.Db.{DbDef, World, max_retry_wait}

module _ (drv : Driver) (fl : Float) where
  open drv use {S}
  open fl use {F}

  -- How opening goes: it returns, a call throws `sqlite::error` (`run` then returns false), an
  -- assertion fails, or `at` finds no entry.
  pub data Opened (A : Type 0) : Type 0 where
    opened : A → World drv → Opened A
    refused : Error → World drv → Opened A
    stopped : Opened A
    no_entry : Opened A

  abbrev pub O : Type 0 → Type 0
  O A = World drv → Opened A

  infixl 5 ◌>>=◌
  abbrev pub ◌>>=◌ : {A B : Type 0} → O A → (A → O B) → O B
  ◌>>=◌ m f w = elim (m w) [
    | opened a w' ↦ f a w'
    | refused e w' ↦ refused e w'
    | stopped ↦ stopped
    | no_entry ↦ no_entry
  ]

  abbrev pub pure : {A : Type 0} → A → O A
  pure a w = opened a w

  -- A call of the wrapper, on the library's part of the state.
  unfoldable pub call : {A : Type 0} → (S → Result drv A) → O A
  call m w = elim (m w.lib) [
    | ok a s ↦ opened a (record w { lib = s })
    | raised e s ↦ refused e (record w { lib = s })
    | aborted ↦ stopped
  ]

  unfoldable pub prepare_queries :
      Connection drv → List (String × String) → O (List (String × Query drv))
  prepare_queries c [] = pure []
  prepare_queries c ((name, sql) ∷ qs) = do
    q ← call (make_query drv c sql name)
    rest ← prepare_queries c qs
    pure ((name, q) ∷ rest)

  -- `*t < max_retry_wait ? *t : max_retry_wait`, and zero if there is no time
  unfoldable pub capped_wait : Option ℕ → ℕ
  capped_wait none = 0
  capped_wait (some t) = if ltb t max_retry_wait then t else max_retry_wait

  -- The first thread makes the shared objects; the others take those of its map.
  unfoldable pub share_sync : Option (List (String × DbDef drv)) → String → O ℕ
  share_sync none name w =
      opened (length w.finished) (record w { finished = w.finished ++ false ∷ [] })
  share_sync (some first) name w = elim (lookup name first) [
    | none ↦ no_entry
    | some d ↦ opened d.sync w
  ]

  unfoldable pub open_database :
      Option (List (String × DbDef drv)) → String × Sqlite3Db F → O (DbDef drv)
  open_database first (name, def) = do
    c ← call (connect drv def.file false)
    queries ← prepare_queries c def.queries
    sync ← share_sync first name
    pure (record {
      db = c;
      queries = queries;
      retries = def.retries;
      retry_wait = capped_wait (get_time fl def.retry_wait);
      sync = sync;
    })

  -- The databases of one thread.
  unfoldable pub open_thread :
      Option (List (String × DbDef drv))
      → List (String × Sqlite3Db F)
      → O (List (String × DbDef drv))
  open_thread first [] = pure []
  open_thread first ((name, def) ∷ defs) = do
    db ← open_database first (name, def)
    rest ← open_thread first defs
    pure ((name, db) ∷ rest)

  unfoldable pub open_threads :
      ℕ
      → List (String × DbDef drv)
      → List (String × Sqlite3Db F)
      → O (List (List (String × DbDef drv)))
  open_threads zero first defs = pure []
  open_threads (suc n) first defs = do
    dbs ← open_thread (some first) defs
    rest ← open_threads n first defs
    pure (dbs ∷ rest)

  -- The databases that the configuration names; a null pointer names none.
  abbrev pub definitions : Option (List (String × Sqlite3Db F)) → List (String × Sqlite3Db F)
  definitions none = []
  definitions (some defs) = defs

  unfoldable pub run :
      Option (List (String × Sqlite3Db F)) → ℕ → O (List (List (String × DbDef drv)))
  run cfg zero = pure []
  run cfg (suc n) = do
    first ← open_thread none (definitions cfg)
    rest ← open_threads n first (definitions cfg)
    pure (first ∷ rest)
