-- ===== src/Sqlite/Handles.antt =====
-- The destructors of src/sqlite3.cpp, and a library that counts its open handles.
pub mod Leaks
pub mod Examples
use acppsrv.Prelude.{
  ℕ, ◌+◌, ◌-◌, String, Bool, Option, none, some, List, [], ◌∷◌, if◌then◌else◌, nat_beq, join,
}
use acppsrv.Log.{LogLevel, emerg, debug}
use acppsrv.Sqlite.{Driver, Connection, Query, sqlite_ok}

module _ (drv : Driver) where
  open drv use {S, errmsg, close_v2, finalize}

  -- What `connection::impl::~impl` logs, for a status of `sqlite3_close_v2`.
  abbrev pub closed : Connection drv → ℕ × S → (LogLevel × String) × S
  closed c (status, s) =
      if nat_beq status sqlite_ok
      then ((debug, join ("Closed database \"" ∷ c.file ∷ "\"" ∷ [])), s)
      else (
        (
          emerg,
          join ("Cannot close database \"" ∷ c.file ∷ "\" handle: " ∷ errmsg c.handle s ∷ []),
        ),
        s,
      )

  unfoldable pub destroy_connection : Connection drv → S → (LogLevel × String) × S
  destroy_connection c s = closed c (close_v2 c.handle s)

  -- query::impl::~impl
  unfoldable pub destroy_query : Query drv → S → S
  destroy_query q s = finalize q.stmt s

-- A state of the library with the numbers of open connections and of prepared statements.
pub record Counted (S : Type 0) : Type 0 where
  pub inner : S
  pub connections : ℕ
  pub statements : ℕ

abbrev pub given : {A : Type 0} → Option A → ℕ
given none = 0
given (some a) = 1

abbrev pub lifted : {A S : Type 0} → Counted S → A × S → A × Counted S
lifted c (a, s) = (a, record c { inner = s })

-- The library `drv`, where every handle that a call gives is counted, also if its status is an error,
-- until it is closed or finalized. Closing a connection releases its handle also if it is deferred.
abbrev pub counted : Driver → Driver
counted drv = record {
  S = Counted drv.S;
  Db = drv.Db;
  Stmt = drv.Stmt;
  D = drv.D;
  open_v2 = λ file create c.
      let (status, h, s) = drv.open_v2 file create c.inner in
      (status, h, record c { inner = s; connections = c.connections + given h });
  exec = λ db sql c. lifted c (drv.exec db sql c.inner);
  close_v2 = λ db c.
      let (status, s) = drv.close_v2 db c.inner in
      (status, record c { inner = s; connections = c.connections - 1 });
  errmsg = λ db c. drv.errmsg db c.inner;
  interrupt = λ db c. record c { inner = drv.interrupt db c.inner };
  prepare = λ db sql c.
      let (status, h, s) = drv.prepare db sql c.inner in
      (status, h, record c { inner = s; statements = c.statements + given h });
  finalize = λ q c. record c { inner = drv.finalize q c.inner; statements = c.statements - 1 };
  step = λ q c. lifted c (drv.step q c.inner);
  reset = λ q c. record c { inner = drv.reset q c.inner };
  clear_bindings = λ q c. lifted c (drv.clear_bindings q c.inner);
  bind_cell = λ q i v c. lifted c (drv.bind_cell q i v c.inner);
  column_count = λ q c. drv.column_count q c.inner;
  column_type = λ q i c. drv.column_type q i c.inner;
  column_int64 = λ q i c. drv.column_int64 q i c.inner;
  column_double = λ q i c. drv.column_double q i c.inner;
  column_text = λ q i c. drv.column_text q i c.inner;
  column_blob = λ q i c. drv.column_blob q i c.inner;
}
