-- ===== src/Sqlite/Handles/Leaks.antt =====
-- Which handles the constructors of src/sqlite3.cpp leave open.
use acppsrv.Prelude.{
  ℕ, ◌+◌, ◌≡◌, ◌≢◌, refl, Bool, Option, none, some, String, nat_beq, Bool-cases, inl, inr, arith,
}
use acppsrv.Sqlite.{
  Driver, Connection, sqlite_ok, Error, Result, ok, raised, aborted, connect, make_query,
}
use acppsrv.Sqlite.Handles.{Counted, counted, given}

module _ (drv : Driver) where
  -- The counters after a call that returns or throws.
  abbrev pub Leaves : {A : Type 0} → Result (counted drv) A → ℕ → ℕ → Type 0
  Leaves (ok a s) m n = (s.connections ≡ m) × (s.statements ≡ n)
  Leaves (raised e s) m n = (s.connections ≡ m) × (s.statements ≡ n)
  Leaves aborted m n = Unit

  -- A constructor of `connection` that succeeds or throws leaves one handle more open than before
  -- if `sqlite3_open_v2` has given one, and none more otherwise; prepared statements are neither made
  -- nor released. It throws whenever the status of `sqlite3_open_v2` is not `SQLITE_OK`: a handle that
  -- came with such a status stays open then, although no connection owns it.
  pub connect-Leaves :
      (file : String) (create : Bool) (s : Counted drv.S)
      → Leaves
          (connect (counted drv) file create s)
          (s.connections + given (drv.open_v2 file create s.inner).1)
          s.statements
        × ((drv.open_v2 file create s.inner).0 ≢ sqlite_ok
            → (e : Error) × (t : Counted drv.S) × connect (counted drv) file create s ≡ raised e t)
  unfolding connect
  connect-Leaves file create s = (ground arith, λ h. fails (drv.open_v2 file create s.inner) refl h)
    where
      fails :
          (r : ℕ × Option drv.Db × drv.S)
          → drv.open_v2 file create s.inner ≡ r
          → (drv.open_v2 file create s.inner).0 ≢ sqlite_ok
          → (e : Error) × (t : Counted drv.S) × connect (counted drv) file create s ≡ raised e t
      fails (status, none, t) e h = rw (e, connect) (_, _, refl)
      fails (status, some handle, t) e h = elim (Bool-cases (nat_beq status sqlite_ok)) [
        | inl ok_status ↦ absurd (ground arith)
        | inr error ↦ rw (e, connect) (rw error (_, _, refl))
      ]

  pub make_query-Leaves :
      (c : Connection (counted drv)) (sql sql_id : String) (s : Counted drv.S)
      → Leaves
          (make_query (counted drv) c sql sql_id s)
          s.connections
          (s.statements + given (drv.prepare c.handle sql s.inner).1)
  unfolding make_query
  make_query-Leaves c sql sql_id s = ground arith
