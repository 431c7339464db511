-- ===== src/Sqlite.antt =====
-- src/sqlite3.hpp and src/sqlite3.cpp: the wrapper of the SQLite library. The library is the record
-- `Driver`: its state, its handles and its functions, with the status codes that they return. An
-- exception `sqlite::error` is a case of the result, beside the state that the calls have left.
pub mod Calls
pub mod Handles
pub mod Examples
use acppsrv.Prelude.Int.{ℤ}
use acppsrv.Prelude.{
  ℕ, suc, ◌+◌, ◌%◌, ◌≡◌, String, Bool, true, false, not, ◌&&◌, ◌||◌, ◌==◌, Option, none, some, List,
  [], ◌∷◌, if◌then◌else◌, ltb, nat_beq, join,
}

abbrev pub sqlite_ok : ℕ
sqlite_ok = 0

abbrev pub sqlite_busy : ℕ
sqlite_busy = 5

abbrev pub sqlite_locked : ℕ
sqlite_locked = 6

abbrev pub sqlite_row : ℕ
sqlite_row = 100

abbrev pub sqlite_done : ℕ
sqlite_done = 101

-- A value that is bound to a parameter, or read from a column; `D` is `double`.
pub data Cell (D : Type 0) : Type 0 where
  null : Cell D
  int64 : ℤ → Cell D
  double : D → Cell D
  string : String → Cell D
  blob : String → Cell D

pub record Driver : Type 1 where
  pub S : Type 0
  pub Db : Type 0
  pub Stmt : Type 0
  pub D : Type 0
  pub open_v2 : String → Bool → S → ℕ × Option Db × S
  pub exec : Db → String → S → ℕ × S
  pub close_v2 : Db → S → ℕ × S
  pub errmsg : Db → S → String
  pub interrupt : Db → S → S
  pub prepare : Db → String → S → ℕ × Option Stmt × S
  -- sqlite3_finalize, whose status is not read.
  pub finalize : Stmt → S → S
  pub step : Stmt → S → ℕ × S
  pub reset : Stmt → S → S
  pub clear_bindings : Stmt → S → ℕ × S
  -- The five functions sqlite3_bind_*, with an index from 1.
  pub bind_cell : Stmt → ℕ → Cell D → S → ℕ × S
  pub column_count : Stmt → S → ℕ
  pub column_type : Stmt → ℕ → S → ℕ
  pub column_int64 : Stmt → ℕ → S → ℤ
  pub column_double : Stmt → ℕ → S → D
  pub column_text : Stmt → ℕ → S → String
  pub column_blob : Stmt → ℕ → S → String

-- `sqlite::error`: the function that failed, which is only logged, and `what()`.
pub record Error : Type 0 where
  pub fun : String
  pub what : String

-- query::status
pub data Status : Type 0 where
  row : Status
  done : Status
  locked : Status

module _ (drv : Driver) where
  open drv use {
    S, Db, Stmt, D, open_v2, exec, errmsg, interrupt, prepare, step, reset, clear_bindings,
    bind_cell, column_count, column_type, column_int64, column_double, column_text, column_blob,
  }

  pub record Connection : Type 0 where
    pub file : String
    pub handle : Db

  pub record Query : Type 0 where
    pub connection : Connection
    pub sql : String
    pub sql_id : String
    pub stmt : Stmt

  -- A call returns, it throws, or an `assert` ends the program.
  pub data Result (A : Type 0) : Type 0 where
    ok : A → S → Result A
    raised : Error → S → Result A
    aborted : Result A

  abbrev pub M : Type 0 → Type 0
  M A = S → Result A

  infixl 5 ◌>>=◌ ◌>>◌
  abbrev pub ◌>>=◌ : {A B : Type 0} → M A → (A → M B) → M B
  ◌>>=◌ m f s = elim (m s) [ ok a s' ↦ f a s' | raised e s' ↦ raised e s' | aborted ↦ aborted ]

  abbrev pub ◌>>◌ : {A B : Type 0} → M A → M B → M B
  m >> n = m >>= λ _. n

  -- The three constructors of `error`.
  unfoldable pub error_file : String → String → Error
  error_file fun file = record {
    fun = fun;
    what = join ("sqlite3 error in db \"" ∷ file ∷ "\"" ∷ ": Cannot allocate database handle" ∷ []);
  }

  unfoldable pub error_query : String → Connection → String → S → Error
  error_query fun db sql_id s = record {
    fun = fun;
    what = join (
        "sqlite3 error in db \""
        ∷ db.file
        ∷ "\""
        ∷ (if sql_id == "" then "" else join (" (" ∷ sql_id ∷ ")" ∷ []))
        ∷ ": "
        ∷ errmsg db.handle s
        ∷ []);
  }

  unfoldable pub error_open : String → String → Db → S → Error
  error_open fun file handle s = record {
    fun = fun;
    what = join ("sqlite3 error in db \"" ∷ file ∷ "\"" ∷ ": " ∷ errmsg handle s ∷ []);
  }

  -- connection::impl::impl, and the constructor of `connection`. A status that is ok comes with a
  -- handle; without a handle there was no memory for one.
  abbrev opened : String → ℕ × Option Db × S → Result Connection
  opened file (status, none, s) = raised (error_file "sqlite3_open_v2" file) s
  opened file (status, some handle, s) =
      if nat_beq status sqlite_ok
      then set_pragma (exec handle "pragma synchronous = normal" s)
      else raised (error_open "sqlite3_open_v2" file handle s) s
    where
      set_pragma : ℕ × S → Result Connection
      set_pragma (st, s') =
          if nat_beq st sqlite_ok
          then ok (record { file = file; handle = handle }) s'
          else raised (error_open "sqlite3_exec(pragma)" file handle s') s'

  unfoldable pub connect : String → Bool → M Connection
  connect file create s = opened file (open_v2 file create s)

  -- connection::interrupt; a constructed connection has a handle.
  unfoldable pub interrupt_connection : Connection → S → S
  interrupt_connection c s = interrupt c.handle s

  -- A status that is not `SQLITE_OK` throws.
  check : {A : Type 0} → String → Query → A → ℕ × S → Result A
  check fun q a (status, s) =
      if nat_beq status sqlite_ok
      then ok a s
      else raised (error_query fun q.connection q.sql_id s) s

  -- query::impl::impl, and the constructor of `query`. A text with no SQL statement in it has no
  -- handle, and `assert(stmt)` fails; a handle beside an error would fail `assert(!stmt)`.
  abbrev prepared : Connection → String → String → ℕ × Option Stmt × S → Result Query
  prepared db sql sql_id (status, none, s) =
      if nat_beq status sqlite_ok
      then aborted
      else raised (error_query "sqlite3_prepare_v3" db sql_id s) s
  prepared db sql sql_id (status, some stmt, s) =
      if nat_beq status sqlite_ok
      then ok (record { connection = db; sql = sql; sql_id = sql_id; stmt = stmt }) s
      else aborted

  unfoldable pub make_query : Connection → String → String → M Query
  make_query db sql sql_id s = prepared db sql sql_id (prepare db.handle sql s)

  abbrev bind_fun : Cell D → String
  bind_fun null = "sqlite3_bind_null"
  bind_fun (int64 _) = "sqlite3_bind_int64"
  bind_fun (double _) = "sqlite3_bind_double"
  bind_fun (string _) = "sqlite3_bind_text"
  bind_fun (blob _) = "sqlite3_bind_blob"

  -- The four functions `bind` and `bind_blob`.
  unfoldable pub bind : Query → ℕ → Cell D → M Unit
  unfolding check
  bind q i v s = check (bind_fun v) q tt (bind_cell q.stmt (i + 1) v s)

  -- The `switch` of `get_column`, with the numbers of SQLITE_INTEGER and the other types.
  unfoldable pub get_column : Query → ℕ → S → Cell D
  get_column q i s =
      let type = column_type q.stmt i s in
      if nat_beq type 1
      then int64 (column_int64 q.stmt i s)
      else if nat_beq type 2
      then double (column_double q.stmt i s)
      else if nat_beq type 3
      then string (column_text q.stmt i s)
      else if nat_beq type 4
      then blob (column_blob q.stmt i s)
      else null

  -- The `switch` of `next_row`, on the primary code of the status.
  abbrev stepped : Query → ℕ → ℕ × S → Result Status
  stepped q retries (status, s) =
      let code = status % 256 in
      if nat_beq code sqlite_done
      then ok done s
      else if nat_beq code sqlite_row
      then ok row s
      else if (nat_beq code sqlite_busy || nat_beq code sqlite_locked) && ltb 0 retries
      then ok locked s
      else raised (error_query "sqlite3_step" q.connection q.sql_id s) s

  unfoldable pub next_row : Query → ℕ → M Status
  next_row q retries s = stepped q retries (step q.stmt s)

  unfoldable pub start : Query → Bool → M Unit
  unfolding check
  start q restart s =
      let s' = reset q.stmt s in
      if restart then ok tt s' else check "sqlite3_clear_bindings" q tt (clear_bindings q.stmt s')
