-- ===== src/Db.antt =====
-- src/db_server.hpp, src/db_server_impl.hpp, src/db_server.cpp and src/http_hnd_db.proto: the
-- databases of every thread, and the execution of one query with its retries. The state is that of
-- the SQLite library and the flags `finished` of the objects `db_sync_t`, which the threads share.
-- A wait for a flag ends by the flag or by the time; a request is one step here, and Db.Threads has
-- the threads that interleave.
pub mod Fetching
pub mod Fuel
pub mod Answers
pub mod Setup
pub mod Opening
pub mod Threads
pub mod Lifetime
pub mod Examples
use acppsrv.Prelude.Int.{ℤ}
use acppsrv.Prelude.{
  ℕ, zero, suc, ◌+◌, ◌-◌, ◌≡◌, String, Bool, true, false, Option, none, some, List, [], ◌∷◌, ◌++◌,
  if◌then◌else◌, ltb, nat_beq, join, lookup, ensure, length, set, get_elem?,
}
use acppsrv.Config.{Float, Sqlite3Db, get_time}
use acppsrv.Sqlite.{
  Driver, Cell, null, int64, double, string, blob, Status, row, done, locked, Connection, Query,
  Result, ok, raised, aborted, connect, interrupt_connection, make_query, bind, get_column,
  next_row, start, Error,
}

-- message Value
pub data Value (D : Type 0) : Type 0 where
  not_set : Value D
  v_null : Value D
  v_int64 : ℤ → Value D
  v_double : D → Value D
  v_text : String → Value D
  v_blob : String → Value D

abbrev pub Row : Type 0 → Type 0
Row D = List (Value D)

pub record Request (D : Type 0) : Type 0 where
  pub db : String
  pub query : String
  pub args : List (Value D)
  pub retry_if_locked : Bool

pub record Response (D : Type 0) : Type 0 where
  pub ok : Bool
  pub msg : String
  pub rows : List (Row D)

-- The `switch` of `db_server::bind`: what is bound for a value.
unfoldable pub to_cell : {D : Type 0} → Value D → Cell D
to_cell not_set = null
to_cell v_null = null
to_cell (v_int64 n) = int64 n
to_cell (v_double d) = double d
to_cell (v_text t) = string t
to_cell (v_blob b) = blob b

-- The `switch` of `execute_query`: what a column becomes in the response.
unfoldable pub of_cell : {D : Type 0} → Cell D → Value D
of_cell null = v_null
of_cell (int64 n) = v_int64 n
of_cell (double d) = v_double d
of_cell (string t) = v_text t
of_cell (blob b) = v_blob b

-- db_server::max_retry_wait, in nanoseconds
abbrev pub max_retry_wait : ℕ
max_retry_wait = 60_000_000_000

module _ (drv : Driver) where
  open drv use {S, D}

  -- db_def_t; `sync` is the address of the shared object.
  pub record DbDef : Type 0 where
    pub db : Connection drv
    pub queries : List (String × Query drv)
    pub retries : ℕ
    pub retry_wait : ℕ
    pub sync : ℕ

  pub record World : Type 0 where
    pub lib : S
    -- `finished` of each db_sync_t
    pub finished : List Bool

  -- How `execute_query` ends: with the rows, by an exception, by a failed assertion, or out of fuel.
  pub data Run : Type 0 where
    fetched : List (Row D) → World → Run
    failed : Error → World → Run
    stopped : Run
    no_fuel : Run

  -- One row: its columns from `c`, `n` of them.
  unfoldable pub read_columns : Query drv → ℕ → ℕ → S → Row D
  unfolding of_cell
  read_columns q c zero s = []
  read_columns q c (suc n) s = of_cell (get_column drv q c s) ∷ read_columns q (c + 1) n s

  -- `cond.wait_for`, by whatever it ends, and the reset of the flag; no wait for a zero time.
  wait_for_retry : DbDef → World → World
  wait_for_retry db w =
      if ltb 0 db.retry_wait then record w { finished = set w.finished db.sync false } else w

  -- signal_finished
  unfoldable pub signal_finished : DbDef → World → World
  signal_finished db w = record w { finished = set w.finished db.sync true }

  -- The loop of `execute_query`, with the rows so far and the scope's end.
  unfoldable pub fetch : ℕ → DbDef → Query drv → ℕ → ℕ → List (Row D) → World → Run
  unfolding wait_for_retry
  fetch zero db q columns retries rows w = no_fuel
  fetch (suc fuel) db q columns retries rows w = elim (next_row drv q retries w.lib) [
    | ok done s ↦ fetched rows (signal_finished db (record w { lib = s }))
    | ok locked s ↦ elim (start drv q true s) [
      | ok _ s' ↦
          fetch fuel db q columns (retries - 1) rows (record (wait_for_retry db w) { lib = s' })
      | raised e s' ↦ failed e (signal_finished db (record w { lib = s' }))
      | aborted ↦ stopped
    ]
    | ok row s ↦
        fetch fuel db q columns retries (rows ++ read_columns q 0 columns s ∷ [])
          (record w { lib = s })
    | raised e s ↦ failed e (signal_finished db (record w { lib = s }))
    | aborted ↦ stopped
  ]

  unfoldable pub execute_query : ℕ → DbDef → Query drv → ℕ → List (Row D) → World → Run
  execute_query fuel db q retries rows w =
      fetch fuel db q (drv.column_count q.stmt w.lib) retries rows w

  -- The loop over the arguments of a request.
  pub bind_args : Query drv → ℕ → List (Value D) → S → Result drv Unit
  bind_args q i [] s = ok tt s
  bind_args q i (v ∷ vs) s = elim (bind drv q i (to_cell v) s) [
    | ok _ s' ↦ bind_args q (i + 1) vs s'
    | raised e s' ↦ raised e s'
    | aborted ↦ aborted
  ]

  abbrev pub refusal : String → Response D
  refusal msg = record { ok = false; msg = msg; rows = [] }

  -- How `run_query` ends: a response, an exception that it does not catch (`at` of a vector), a
  -- failed assertion, or out of fuel.
  pub data Answer : Type 0 where
    answered : Response D → World → Answer
    out_of_range : Answer
    stopped : Answer
    no_fuel : Answer

  -- The response after the `try` block.
  respond : Run → Answer
  respond (fetched rows w) = answered (record { ok = true; msg = "ok"; rows = rows }) w
  respond (failed e w) = answered (refusal e.what) w
  respond (Run.stopped) = Answer.stopped
  respond (Run.no_fuel) = Answer.no_fuel

  -- `start(false)`, the arguments, and the query.
  run_prepared : ℕ → DbDef → Query drv → Request D → World → Run
  unfolding bind_args
  run_prepared fuel db q request w = elim (start drv q false w.lib) [
    | raised e s ↦ failed e (record w { lib = s })
    | aborted ↦ Run.stopped
    | ok _ s ↦ elim (bind_args q 0 request.args s) [
      | raised e s' ↦ failed e (record w { lib = s' })
      | aborted ↦ Run.stopped
      | ok _ s' ↦
          execute_query fuel db q (if request.retry_if_locked then db.retries else 0) []
            (record w { lib = s' })
    ]
  ]

  -- `databases`, one map for each thread, and the index of this thread.
  unfoldable pub run_query : ℕ → List (List (String × DbDef)) → ℕ → Request D → World → Answer
  unfolding run_prepared respond
  run_query fuel databases tid request w = elim (get_elem? databases tid) [
    | none ↦ out_of_range
    | some database ↦ elim (lookup request.db database) [
      | none ↦ answered (refusal (join ("Unknown database \"" ∷ request.db ∷ "\"" ∷ []))) w
      | some db ↦ elim (lookup request.query db.queries) [
        | none ↦
            answered
              (refusal (
                join (
                  "Unknown query \"" ∷ request.query ∷ "\" for database \"" ∷ request.db ∷ "\""
                  ∷ [])))
              w
        | some q ↦ respond (run_prepared fuel db q request w)
      ]
    ]
  ]

  -- db_server::interrupt: every connection of every thread.
  interrupt_all : List (String × DbDef) → S → S
  interrupt_all [] s = s
  interrupt_all ((name, db) ∷ dbs) s = interrupt_all dbs (interrupt_connection drv db.db s)

  unfoldable pub interrupt : List (List (String × DbDef)) → S → S
  unfolding interrupt_all
  interrupt [] s = s
  interrupt (dbs ∷ rest) s = interrupt rest (interrupt_all dbs s)
