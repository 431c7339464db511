-- ===== src/Db/Fuel.antt =====
-- The loop of `execute_query` ends.
use acppsrv.Prelude.{
  ℕ, zero, suc, ◌+◌, ◌-◌, ◌*◌, ◌≤◌, ◌<◌, ◌≡◌, refl, sym, ◌∙◌, ap, ◌≢◌, List, arith,
}
use acppsrv.Sqlite.{
  Driver, Status, row, done, locked, Query, Result, ok, raised, aborted, next_row, start,
  sqlite_row,
}
use acppsrv.Sqlite.Calls.{next_row_lem, next_row-state}
use acppsrv.Db.{DbDef, World, Run, Row, fetch, execute_query}
use acppsrv.Db.Fetching.{Steps}

fewer :
    (r m l x fuel : ℕ) → 0 < r → x ≤ m → r * (m + 1) + l < suc fuel → (r - 1) * (m + 1) + x < fuel
fewer zero m l x fuel h k f = absurd (omega arith)
fewer (suc r) m l x fuel h k f = let same : suc r - 1 ≡ r = omega arith in rw same (omega arith)

-- `left` counts the rows that a query may still deliver: each row makes it smaller, and a reset makes
-- it at most `most`.
module _ (drv : Driver) (q : Query drv) (left : drv.S → ℕ) (most : ℕ)
    (shrinks : (s t : drv.S) → Steps drv q s sqlite_row t → left t < left s)
    (restarts : (s : drv.S) → left (drv.reset q.stmt s) ≤ most) where
  open drv use {S, D, step, reset}

  abbrev Ends : Run drv → Type 0
  Ends r = r ≢ Run.no_fuel

  row_left : (retries : ℕ) (s t : S) → next_row drv q retries s ≡ ok row t → left t < left s
  row_left retries s t e =
      let same = next_row-state drv q retries s t row e in
      shrinks s t ((next_row_lem drv q retries s).0.0 (e ∙ ap (ok row) (sym same)), same)

  locked_pos : (retries : ℕ) (s t : S) → next_row drv q retries s ≡ ok locked t → 0 < retries
  locked_pos retries s t e =
      let same = next_row-state drv q retries s t locked e in
      ((next_row_lem drv q retries s).2.0 (e ∙ ap (ok locked) (sym same))).0

  fetch-Ends :
      (fuel retries columns : ℕ) (db : DbDef drv) (rows : List (Row D)) (w : World drv)
      → retries * (most + 1) + left w.lib < fuel
      → Ends (fetch drv fuel db q columns retries rows w)
  unfolding fetch start
  fetch-Ends zero retries columns db rows w h = absurd (omega arith)
  fetch-Ends (suc fuel) retries columns db rows w h =
      go (next_row drv q retries w.lib) refl (fetch-Ends fuel)
    where
      go :
          (r : Result drv Status)
          → next_row drv q retries w.lib ≡ r
          → ((n c : ℕ) (db' : DbDef drv) (rows' : List (Row D)) (w' : World drv)
              → n * (most + 1) + left w'.lib < fuel
              → Ends (fetch drv fuel db' q c n rows' w'))
          → Ends (fetch drv (suc fuel) db q columns retries rows w)
      go (ok row s) e ih =
          rw (e, fetch) (ih retries columns db _ _ (omega (arith, row_left retries w.lib s e)))
      go (ok done s) e ih = rw (e, fetch) (λ c. cc)
      go (ok locked s) e ih =
          rw (e, fetch)
            (ih (retries - 1) columns db _ _ (
              fewer retries most (left w.lib) (left (reset q.stmt s)) fuel
                (locked_pos retries w.lib s e) (restarts s) h))
      go (raised err s) e ih = rw (e, fetch) (λ c. cc)
      go aborted e ih = rw (e, fetch) (λ c. cc)

  -- Whatever locks and rows the library reports, the loop ends, within as many rounds as the retries
  -- allow attempts of `most` rows.
  pub execute_query-Ends :
      (fuel retries : ℕ) (db : DbDef drv) (rows : List (Row D)) (w : World drv)
      → retries * (most + 1) + left w.lib < fuel
      → execute_query drv fuel db q retries rows w ≢ Run.no_fuel
  unfolding execute_query
  execute_query-Ends fuel retries db rows w h =
      fetch-Ends fuel retries (drv.column_count q.stmt w.lib) db rows w h
