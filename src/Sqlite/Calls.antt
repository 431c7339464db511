-- ===== src/Sqlite/Calls.antt =====
-- What the calls of the wrapper return for each status of the library.
use acppsrv.Prelude.{ℕ, ◌+◌, ◌*◌, ◌<◌, ◌%◌, ◌≡◌, ◌↔◌, ◌⊎◌, ◌≢◌, arith}
use acppsrv.Sqlite.{
  Driver, Status, row, done, locked, Query, Result, ok, raised, aborted, next_row, sqlite_busy,
  sqlite_locked, sqlite_row, sqlite_done, error_query,
}

module _ (drv : Driver) where
  open drv use {S, step, exec, open_v2}

  -- What `next_row` makes of a status with the primary code `code`: a row, the end, a lock, which is
  -- reported only while retries are left, or an exception for all else.
  abbrev pub Outcome : ℕ → ℕ → Result drv Status → (ok_state : S) → Type 0
  Outcome code retries r s =
      ((r ≡ ok row s) ↔ (code ≡ sqlite_row))
      × ((r ≡ ok done s) ↔ (code ≡ sqlite_done))
      × ((r ≡ ok locked s) ↔ ((0 < retries) × ((code ≡ sqlite_busy) ⊎ (code ≡ sqlite_locked))))
      × (r ≢ aborted)

  -- For every status of `sqlite3_step`, extended codes included, `next_row` reports a row, the end of
  -- the query or a lock exactly for these primary codes, a lock only while retries are left.
  pub next_row_lem :
      (q : Query drv) (retries : ℕ) (s : S)
      → Outcome ((step q.stmt s).0 % 256) retries (next_row drv q retries s) (step q.stmt s).1
  unfolding next_row
  next_row_lem q retries s = ground arith

  -- The code without its low byte is ignored: SQLITE_BUSY_SNAPSHOT is treated as SQLITE_BUSY.
  pub next_row_busy :
      (q : Query drv) (retries k : ℕ) (s s' : S)
      → step q.stmt s ≡ (k * 256 + sqlite_busy, s')
      → 0 < retries
      → next_row drv q retries s ≡ ok locked s'
  unfolding next_row
  next_row_busy q retries k s s' e h = ground arith

  -- Without retries left a lock throws.
  pub next_row_exhausted :
      (q : Query drv) (s : S)
      → (((step q.stmt s).0 % 256 ≡ sqlite_busy) ⊎ ((step q.stmt s).0 % 256 ≡ sqlite_locked))
      → next_row drv q 0 s
        ≡ raised
            (error_query drv "sqlite3_step" q.connection q.sql_id (step q.stmt s).1)
            (step q.stmt s).1
  unfolding next_row
  next_row_exhausted q s h = ground arith

  -- The state after a call that returns is the one that the step left.
  pub next_row-state :
      (q : Query drv) (retries : ℕ) (s s' : S) (r : Status)
      → next_row drv q retries s ≡ ok r s'
      → (step q.stmt s).1 ≡ s'
  unfolding next_row
  next_row-state q retries s s' r e = ground arith
