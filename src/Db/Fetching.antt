-- ===== src/Db/Fetching.antt =====
-- What the loop of `execute_query` returns, against a description of one attempt of a query and of
-- the locks that the query meets.
use acppsrv.Prelude.{
  ℕ, zero, suc, ◌+◌, ◌-◌, ◌%◌, ◌≤◌, ◌<◌, ◌≡◌, refl, sym, ◌∙◌, ap, ◌⊎◌, inl, inr, Bool, true, false,
  List, [], ◌∷◌, ◌++◌, ltb, arith, set, length, append_assoc, append-nil, Bool-cases,
}
use acppsrv.Sqlite.{
  Driver, row, done, locked, Query, ok, raised, next_row, start, sqlite_busy, sqlite_locked,
  sqlite_row, sqlite_done, error_query,
}
use acppsrv.Sqlite.Calls.{next_row_lem, next_row_exhausted}
use acppsrv.Db.{
  DbDef, World, fetched, failed, Row, read_columns, wait_for_retry, signal_finished, fetch,
}

set-set : {A : Type 0} (xs : List A) (i : ℕ) (a b : A) → set (set xs i a) i b ≡ set xs i b
set-set [] i a b = refl
set-set (x ∷ xs) zero a b = refl
set-set (x ∷ xs) (suc i) a b = ap (λ t. x ∷ t) (set-set xs i a b)

module _ (drv : Driver) (q : Query drv) where
  open drv use {S, D, step, reset}

  -- The step from `s` returns a status with this primary code and leaves `t`.
  abbrev pub Steps : S → ℕ → S → Type 0
  Steps s code t = ((step q.stmt s).0 % 256 ≡ code) × ((step q.stmt s).1 ≡ t)

  -- One attempt from `s` without a lock: its rows, and the state when it is done.
  pub data Fetch (columns : ℕ) : S → List (Row D) → S → Type 0 where
    stop : {s t : S} → Steps s sqlite_done t → Fetch columns s [] t
    more :
        {s t u : S} {rows : List (Row D)}
        → Steps s sqlite_row t
        → Fetch columns t rows u
        → Fetch columns s (read_columns drv q 0 columns t ∷ rows) u

  abbrev pub IsLocked : S → S → Type 0
  IsLocked s t = Steps s sqlite_busy t ⊎ Steps s sqlite_locked t

  -- From `s` the query meets `n` locks one after the other, each before any row, and each is followed
  -- by a reset; then it is in `t`.
  pub data Locks : S → ℕ → S → Type 0 where
    free : {s : S} → Locks s 0 s
    again : {s t u : S} {n : ℕ} → IsLocked s t → Locks (reset q.stmt t) n u → Locks s (suc n) u

  next_row-done :
      {s t : S} (retries : ℕ) → Steps s sqlite_done t → next_row drv q retries s ≡ ok done t
  next_row-done {s} retries (c, e) = rw (← e) ((next_row_lem drv q retries s).1.1 c)

  next_row-row :
      {s t : S} (retries : ℕ) → Steps s sqlite_row t → next_row drv q retries s ≡ ok row t
  next_row-row {s} retries (c, e) = rw (← e) ((next_row_lem drv q retries s).0.1 c)

  next_row-locked :
      {s t : S} (retries : ℕ) → 0 < retries → IsLocked s t → next_row drv q retries s ≡ ok locked t
  next_row-locked {s} retries h (inl (c, e)) =
      rw (← e) ((next_row_lem drv q retries s).2.1 (h, inl c))
  next_row-locked {s} retries h (inr (c, e)) =
      rw (← e) ((next_row_lem drv q retries s).2.1 (h, inr c))

  module _ (db : DbDef drv) where
    -- The state of the library and the flags.
    abbrev pub world : S → List Bool → World drv
    world s f = record { lib = s; finished = f }

    pub fetch_done :
        {s t : S} (fuel columns retries : ℕ) (before : List (Row D)) (f : List Bool)
        → Steps s sqlite_done t
        → fetch drv (suc fuel) db q columns retries before (world s f)
          ≡ fetched before (world t (set f db.sync true))
    unfolding fetch signal_finished
    fetch_done fuel columns retries before f e = rw (next_row-done retries e, fetch)

    pub fetch_row :
        {s t : S} (fuel columns retries : ℕ) (before : List (Row D)) (f : List Bool)
        → Steps s sqlite_row t
        → fetch drv (suc fuel) db q columns retries before (world s f)
          ≡ fetch drv fuel db q columns retries
              (before ++ read_columns drv q 0 columns t ∷ [])
              (world t f)
    unfolding fetch
    fetch_row fuel columns retries before f e = rw (next_row-row retries e, fetch)

    -- A lock that may be retried. The flags are those of before but perhaps for the query's own,
    -- which is set in the end.
    pub fetch_locked :
        {s t : S} (fuel columns retries : ℕ) (before : List (Row D)) (f : List Bool)
        → 0 < retries
        → IsLocked s t
        → (g : List Bool) × (set g db.sync true ≡ set f db.sync true)
          × (fetch drv (suc fuel) db q columns retries before (world s f)
              ≡ fetch drv fuel db q columns (retries - 1) before (world (reset q.stmt t) g))
    unfolding fetch start wait_for_retry
    fetch_locked fuel columns retries before f h l = elim (Bool-cases (ltb 0 db.retry_wait)) [
      | inl wait ↦ (
        set f db.sync false,
        set-set f db.sync false true,
        rw (next_row-locked retries h l, fetch) (rw wait refl),
      )
      | inr no_wait ↦ (f, refl, rw (next_row-locked retries h l, fetch) (rw no_wait refl))
    ]

    fetch-Fetch :
        {columns : ℕ} {s t : S} {rows : List (Row D)}
        → Fetch columns s rows t
        → (fuel retries : ℕ) (before : List (Row D)) (f : List Bool) → length rows < fuel
        → fetch drv fuel db q columns retries before (world s f)
          ≡ fetched (before ++ rows) (world t (set f db.sync true))
    fetch-Fetch d zero retries before f h = absurd (omega arith)
    fetch-Fetch {columns} {s = s} {t = t} (stop e) (suc fuel) retries before f h =
        fetch_done fuel columns retries before f e
        ∙ ap (λ rs. fetched rs (world t (set f db.sync true))) (sym (append-nil before))
    fetch-Fetch {columns} {s = s} {t = u} (more {t = t} {rows = rows} e d) (suc fuel) retries before
          f h =
        fetch_row fuel columns retries before f e
        ∙ fetch-Fetch {columns = columns} {s = t} {t = u} d fuel retries
            (before ++ read_columns drv q 0 columns t ∷ []) f (omega arith)
        ∙ ap (λ rs. fetched rs (world u (set f db.sync true)))
            (append_assoc before (read_columns drv q 0 columns t ∷ []) rows)

    -- A query that meets `n` locks, at most as many as it may retry, and then delivers its rows,
    -- returns these rows behind those that the response had, and sets the flag of its database; it
    -- needs no more rounds than there are locks and rows, and one.
    pub fetch-Locks :
        {columns n : ℕ} {s t u : S} {rows : List (Row D)}
        → Locks s n t
        → Fetch columns t rows u
        → (fuel retries : ℕ) (before : List (Row D)) (f : List Bool) → n ≤ retries
        → n + length rows < fuel
        → fetch drv fuel db q columns retries before (world s f)
          ≡ fetched (before ++ rows) (world u (set f db.sync true))
    fetch-Locks free d fuel retries before f h k = fetch-Fetch d fuel retries before f (omega arith)
    fetch-Locks (again l ls) d zero retries before f h k = absurd (omega arith)
    fetch-Locks {columns} {n = suc m} {s = s} {t = v} {u = u} {rows = rows} (again {t = t} l ls) d
          (suc fuel) retries before f h k =
        let (g, same, e) = fetch_locked fuel columns retries before f (omega arith) l in
        e
        ∙ fetch-Locks {columns = columns} {n = m} {s = reset q.stmt t} {t = v} {u = u} {rows = rows}
            ls d fuel (retries - 1) before g (omega arith) (omega arith)
        ∙ ap (λ fl. fetched (before ++ rows) (world u fl)) same

    next_row-exhausted :
        {s t : S}
        → IsLocked s t
        → next_row drv q 0 s ≡ raised (error_query drv "sqlite3_step" q.connection q.sql_id t) t
    next_row-exhausted {s} (inl (c, e)) = rw (← e) (next_row_exhausted drv q s (inl c))
    next_row-exhausted {s} (inr (c, e)) = rw (← e) (next_row_exhausted drv q s (inr c))

    fetch_throws :
        {s t : S} (fuel columns : ℕ) (before : List (Row D)) (f : List Bool)
        → IsLocked s t
        → fetch drv (suc fuel) db q columns 0 before (world s f)
          ≡ failed
              (error_query drv "sqlite3_step" q.connection q.sql_id t)
              (world t (set f db.sync true))
    unfolding fetch signal_finished
    fetch_throws fuel columns before f l = rw (next_row-exhausted l, fetch)

    -- A query that meets one lock more than it may retry throws, whatever follows.
    pub fetch_exhausted :
        {n : ℕ} {s t u : S}
        → Locks s n t
        → IsLocked t u
        → (fuel columns : ℕ) (before : List (Row D)) (f : List Bool) → n < fuel
        → fetch drv fuel db q columns n before (world s f)
          ≡ failed
              (error_query drv "sqlite3_step" q.connection q.sql_id u)
              (world u (set f db.sync true))
    fetch_exhausted l m zero columns before f h = absurd (omega arith)
    fetch_exhausted free m (suc fuel) columns before f h = fetch_throws fuel columns before f m
    fetch_exhausted {n = suc k} {s = s} {t = v} {u = u} (again {t = t} l ls) m (suc fuel) columns
          before f h =
        let (g, same, e) = fetch_locked fuel columns (suc k) before f (omega arith) l in
        let left : suc k - 1 ≡ k = omega arith in
        e
        ∙ rw left (
            fetch_exhausted {n = k} {s = reset q.stmt t} {t = v} {u = u} ls m fuel columns before g
              (omega arith)
            ∙ ap
                (λ fl. failed (error_query drv "sqlite3_step" q.connection q.sql_id u) (world u fl))
                same)

    -- A lock after a row does not drop the row: the rows of the next attempt come behind it, so a row
    -- that this attempt delivers again is in the response twice.
    pub fetch_keeps_rows :
        {columns : ℕ} {s t u v : S} {rows : List (Row D)}
        → Steps s sqlite_row t
        → IsLocked t u
        → Fetch columns (reset q.stmt u) rows v
        → (fuel retries : ℕ) (before : List (Row D)) (f : List Bool) → 0 < retries
        → length rows + 2 < fuel
        → fetch drv fuel db q columns retries before (world s f)
          ≡ fetched (before ++ read_columns drv q 0 columns t ∷ rows) (world v (set f db.sync true))
    fetch_keeps_rows e l d zero retries before f h k = absurd (omega arith)
    fetch_keeps_rows e l d (suc zero) retries before f h k = absurd (omega arith)
    fetch_keeps_rows {columns} {t = t} {v = v} {rows = rows} e l d (suc (suc fuel)) retries before f
          h k =
        let r = read_columns drv q 0 columns t in
        let (g, same, locks) = fetch_locked fuel columns retries (before ++ r ∷ []) f h l in
        fetch_row (suc fuel) columns retries before f e
        ∙ locks
        ∙ fetch-Fetch d fuel (retries - 1) (before ++ r ∷ []) g (omega arith)
        ∙ ap (λ rs. fetched rs (world v (set g db.sync true))) (append_assoc before (r ∷ []) rows)
        ∙ ap (λ fl. fetched (before ++ r ∷ rows) (world v fl)) same
