-- ===== src/Bench/Partition.antt =====
-- The files of a partition in benchmark/benchmark.cpp: the constructor and the destructor of
-- `partition`, and the loop of the command `create` that makes all of them. The databases are
-- connections of the wrapper of src/sqlite3.cpp.
mod Files
pub mod Calls
pub mod Fresh
pub mod Examples
use acppsrv.Prelude.Int.{ℤ}
use acppsrv.Prelude.{
  ℕ, zero, suc, ◌+◌, String, Bool, true, false, Option, none, some, List, [], ◌∷◌, ◌++◌,
  if◌then◌else◌, ltb, join,
}
use acppsrv.Sqlite.{
  Driver, Error, Connection, Query, Result, ok, raised, aborted, M, connect, make_query, bind,
  start, next_row, string,
}
use acppsrv.Bench.Args.{CreateArgs}
pub use acppsrv.Bench.Partition.Files.{
  key_sz, Numbers, Platform, Failure, file_exists, keys_write, sqlite_error, create_data,
  create_idx, insert_text, get_text, update_text, cache_size,
}
unfoldable pub use acppsrv.Bench.Partition.Files.{
  page_size, path_data, path_idx, path_keys, path_of,
}

module _ (drv : Driver) (num : Numbers) (os : Platform drv) where
  open drv use {S, close_v2, finalize}
  open num use {text}
  open os use {File, exists, open_append, fclose}

  -- The destructor of a connection; what it logs is left out.
  abbrev pub close : Connection drv → S → S
  close c s = (close_v2 c.handle s).1

  -- A value, an exception, or a failed assertion.
  pub data Made (A : Type 0) : Type 0 where
    made : A → S → Made A
    failed : Failure → S → Made A
    asserted : Made A

  abbrev pub N : Type 0 → Type 0
  N A = S → Made A

  abbrev pub and_then : {A B : Type 0} → (A → N B) → Made A → Made B
  and_then f (made a s) = f a s
  and_then f (failed e s) = failed e s
  and_then f asserted = asserted

  infixl 5 ◌>>=◌ ◌>>◌
  abbrev pub ◌>>=◌ : {A B : Type 0} → N A → (A → N B) → N B
  ◌>>=◌ m f s = and_then f (m s)

  abbrev pub ◌>>◌ : {A B : Type 0} → N A → N B → N B
  m >> n = m >>= λ _. n

  abbrev pub pure : {A : Type 0} → A → N A
  pure a s = made a s

  abbrev pub lifted : {A : Type 0} → Result drv A → Made A
  lifted (ok a s) = made a s
  lifted (raised e s) = failed (sqlite_error e) s
  lifted aborted = asserted

  -- An operation of the wrapper.
  abbrev pub lift : {A : Type 0} → M drv A → N A
  lift m s = lifted (m s)

  abbrev pub finished : {A : Type 0} → (S → S) → Made A → Made A
  finished d (made a s) = made a (d s)
  finished d (failed e s) = failed e (d s)
  finished d asserted = asserted

  -- A destructor runs at the end, also by an exception.
  abbrev pub finally : {A : Type 0} → (S → S) → N A → N A
  finally d m s = finished d (m s)

  abbrev pub cleaned : {A : Type 0} → (S → S) → Made A → Made A
  cleaned d (made a s) = made a s
  cleaned d (failed e s) = failed e (d s)
  cleaned d asserted = asserted

  -- The destructor of a member runs if the rest of the constructor throws.
  abbrev pub on_failure : {A : Type 0} → (S → S) → N A → N A
  on_failure d m s = cleaned d (m s)

  -- A temporary query that is started, bound, and stepped once.
  unfoldable pub run_bound : (Query drv → N Unit) → Connection drv → String → N Unit
  run_bound binds db sql = do
    q ← lift (make_query drv db sql "")
    finally (finalize q.stmt)
        (do lift (start drv q false); binds q; lift (next_row drv q 0); pure tt)

  unfoldable pub run_sql : Connection drv → String → N Unit
  run_sql db sql = run_bound (λ q. pure tt) db sql

  -- Throws if the file exists.
  unfoldable pub require_new : String → N Unit
  require_new path s = if exists path s then failed (file_exists path) s else made tt s

  unfoldable pub create_files : String → N Unit
  create_files path = do
    require_new (path_data path)
    conn ← lift (connect drv (path_data path) true)
    finally (close conn) (do
      require_new (path_idx path)
      require_new (path_keys path)
      idx ← lift (connect drv (path_idx path) true)
      finally (close idx) (pure tt))

  unfoldable pub configure : CreateArgs → String → Connection drv → N Unit
  configure args path db = do
    run_bound (λ q. lift (bind drv q 0 (string (path_idx path)))) db "attach database ?1 as idx"
    run_sql db "pragma main.journal_mode = off"
    run_sql db "pragma idx.journal_mode = off"
    run_sql db "pragma main.synchronous = off"
    run_sql db "pragma idx.synchronous = off"
    run_sql db "pragma main.locking_mode = exclusive"
    run_sql db "pragma idx.locking_mode = exclusive"
    run_sql db (join ("pragma main.page_size = " ∷ text (ℤ.pos (page_size args.value_sz)) ∷ []))
    run_sql db "pragma idx.page_size = 512"
    run_sql db create_data
    run_sql db create_idx

  pub record Partition : Type 0 where
    pub path : String
    pub db : Connection drv
    pub keys_file : File
    pub insert_data : Query drv
    pub begin_transaction : Query drv
    pub commit_transaction : Query drv
    pub request_get : Query drv
    pub request_update : Query drv

  abbrev pub opened_keys : String → Option File × S → Made File
  opened_keys path (none, s) = failed (keys_write (path_keys path)) s
  opened_keys path (some file, s) = made file s

  unfoldable pub open_keys : String → N File
  open_keys path s = opened_keys path (open_append (path_keys path) s)

  -- A member query, and the rest of the constructor.
  unfoldable pub with_query : {A : Type 0} → Connection drv → String → (Query drv → N A) → N A
  with_query db sql f = do q ← lift (make_query drv db sql ""); on_failure (finalize q.stmt) (f q)

  unfoldable pub prepare_queries : String → Connection drv → File → N Partition
  prepare_queries path db file = with_query db insert_text λ inserting.
      with_query db "begin" λ beginning. with_query db "commit" λ committing.
        with_query db get_text λ getting. with_query db update_text λ updating. pure (record {
          path = path;
          db = db;
          keys_file = file;
          insert_data = inserting;
          begin_transaction = beginning;
          commit_transaction = committing;
          request_get = getting;
          request_update = updating;
        })

  -- What the constructor does with the open database.
  unfoldable pub set_up : CreateArgs → String → Bool → Connection drv → N Partition
  set_up args path create db = do
    if create then configure args path db else pure tt
    run_sql db "pragma main.synchronous = normal"
    run_sql db (join ("pragma main.cache_size = " ∷ text (cache_size num args) ∷ []))
    file ← open_keys path
    prepare_queries path db file

  unfoldable pub make_partition : CreateArgs → ℕ → Bool → N Partition
  make_partition args idx create =
      let path = path_of num args.path idx in
      do
        if create then create_files path else pure tt
        db ← lift (connect drv (path_data path) false)
        on_failure (close db) (set_up args path create db)

  -- The destructors of the members, from the last one.
  abbrev pub destroy_members : Partition → S → S
  destroy_members p s = close p.db (
      finalize p.insert_data.stmt (
        finalize p.begin_transaction.stmt (
          finalize p.commit_transaction.stmt
            (finalize p.request_get.stmt (finalize p.request_update.stmt s)))))

  -- partition::~partition; an exception in it, or a failed assertion, ends the program.
  unfoldable pub destroy : Partition → S → Option S
  destroy p s = elim (run_sql p.db "pragma main.journal_mode = wal" s) [
    | made tt s' ↦ some (destroy_members p (fclose p.keys_file s'))
    | failed e s' ↦ none
    | asserted ↦ none
  ]

  -- How a loop over the partitions ends: with all partitions; by an exception, with the partitions that are
  -- then destroyed; or by a failed assertion.
  pub data Created : Type 0 where
    through : List Partition → S → Created
    thrown : Failure → List Partition → S → Created
    assertion : Created

  -- What follows a partition: the rest of the loop, or the end of it.
  abbrev pub next : (List Partition → S → Created) → List Partition → Made Partition → Created
  next rest db (made p s) = rest (db ++ p ∷ []) s
  next rest db (failed e s) = thrown e db s
  next rest db asserted = assertion

  -- The loops of `create` and of `requests`, from the partition `part`, with the number of partitions
  -- that are left.
  unfoldable pub make_partitions : Bool → CreateArgs → ℕ → ℕ → List Partition → S → Created
  make_partitions create args zero part db s = through db s
  make_partitions create args (suc n) part db s =
      next (λ db' s'. make_partitions create args n (part + 1) db' s') db
        (make_partition args part create s)
