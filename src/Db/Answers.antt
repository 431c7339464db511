-- ===== src/Db/Answers.antt =====
-- What `run_query` answers.
use acppsrv.Prelude.{
  ℕ, ◌+◌, ◌≤◌, ◌<◌, ◌≡◌, refl, ap, ◌≢◌, ◌⊎◌, inl, inr, String, true, false, none, some, List, [],
  lookup, get_elem?, length, if◌then◌else◌, set, Option-cases,
}
use acppsrv.Sqlite.{Driver, Query, Cell, ok, start}
use acppsrv.Db.{
  DbDef, World, Row, Request, Response, Run, fetched, failed, Answer, answered, out_of_range,
  to_cell, of_cell, respond, run_prepared, run_query, bind_args, execute_query,
}
use acppsrv.Db.Fetching.{Fetch, Locks, fetch-Locks}

-- A value that a query returns is bound unchanged when a client sends it back.
pub to_cell-of_cell : {D : Type 0} (c : Cell D) → to_cell (of_cell c) ≡ c
unfolding to_cell of_cell
to_cell-of_cell Cell.null = refl
to_cell-of_cell (Cell.int64 n) = refl
to_cell-of_cell (Cell.double d) = refl
to_cell-of_cell (Cell.string t) = refl
to_cell-of_cell (Cell.blob b) = refl

module _ (drv : Driver) where
  open drv use {S, D}

  -- A response has rows only if it is ok, and is ok exactly if its message says so.
  abbrev pub IsConsistent : Response D → Type 0
  IsConsistent r = ((r.ok ≡ true) × (r.msg ≡ "ok")) ⊎ ((r.ok ≡ false) × (r.rows ≡ []))

  abbrev pub AnswersConsistent : Answer drv → Type 0
  AnswersConsistent (answered r w) = IsConsistent r
  AnswersConsistent out_of_range = Unit
  AnswersConsistent (Answer.stopped) = Unit
  AnswersConsistent (Answer.no_fuel) = Unit

  respond-Consistent : (r : Run drv) → AnswersConsistent (respond drv r)
  unfolding respond
  respond-Consistent (fetched rows w) = inl (refl, refl)
  respond-Consistent (failed e w) = inr (refl, refl)
  respond-Consistent (Run.stopped) = tt
  respond-Consistent (Run.no_fuel) = tt

  respond_in_range : (r : Run drv) → respond drv r ≢ out_of_range
  unfolding respond
  respond_in_range (fetched rows w) c = cc
  respond_in_range (failed e w) c = cc
  respond_in_range (Run.stopped) c = cc
  respond_in_range (Run.no_fuel) c = cc

  -- Every response is either ok with the message "ok", or not ok and without rows: also after an
  -- error in the middle of a query no partial result is answered. The one exception that leaves
  -- `run_query` is that of a thread without databases.
  pub run_query-Consistent :
      (fuel : ℕ) (databases : List (List (String × DbDef drv))) (tid : ℕ) (request : Request D)
      (w : World drv)
      → AnswersConsistent (run_query drv fuel databases tid request w)
        × ((run_query drv fuel databases tid request w ≡ out_of_range)
            → get_elem? databases tid ≡ none)
  unfolding run_query
  run_query-Consistent fuel databases tid request w =
      elim (Option-cases (get_elem? databases tid)) [
        | inl e ↦ rw (e, run_query) (tt, λ _. refl)
        | inr (database, e) ↦
            rw (e, run_query)
              (elim (Option-cases (lookup request.db database)) [
                | inl e2 ↦ rw e2 (inr (refl, refl), λ c. cc)
                | inr (db, e2) ↦ rw e2 (elim (Option-cases (lookup request.query db.queries)) [
                  | inl e3 ↦ rw e3 (inr (refl, refl), λ c. cc)
                  | inr (q, e3) ↦
                      let r = run_prepared drv fuel db q request w in
                      rw e3 (respond-Consistent r, λ c. absurd (respond_in_range r c))
                ])
              ])
      ]

  run_prepared-Locks :
      (db : DbDef drv) (q : Query drv) (request : Request D) {s1 s2 t u : S} {n : ℕ}
      {rows : List (Row D)} (fuel : ℕ) (w : World drv)
      → start drv q false w.lib ≡ ok tt s1
      → bind_args drv q 0 request.args s1 ≡ ok tt s2
      → Locks drv q s2 n t
      → Fetch drv q (drv.column_count q.stmt s2) t rows u
      → n ≤ (if request.retry_if_locked then db.retries else 0)
      → n + length rows < fuel
      → run_prepared drv fuel db q request w
        ≡ fetched rows (record { lib = u; finished = set w.finished db.sync true })
  unfolding run_prepared execute_query
  run_prepared-Locks db q request fuel w started bound locks rows few enough =
      rw (started, run_prepared)
        (rw bound (
          fetch-Locks drv q db locks rows fuel (if request.retry_if_locked then db.retries else 0)
            [] w.finished few enough))

  -- For a known database and query, if the query starts, its parameters can be bound, the calls of
  -- the library then report at first only locks, each with a restart of the query that succeeds, no
  -- more of them than the database may retry (none, if the request does not ask for retries), and
  -- only after the last lock rows and the end, the answer is exactly these rows, with the state of
  -- the library after them and the flag set. The fuel is more than the locks and rows together. A
  -- lock after a row is not among these runs.
  pub run_query-Locks :
      (databases : List (List (String × DbDef drv))) (request : Request D)
      {database : List (String × DbDef drv)} {db : DbDef drv} {q : Query drv} {s1 s2 t u : S}
      {n : ℕ} {rows : List (Row D)} (fuel tid : ℕ) (w : World drv)
      → get_elem? databases tid ≡ some database
      → lookup request.db database ≡ some db
      → lookup request.query db.queries ≡ some q
      → start drv q false w.lib ≡ ok tt s1
      → bind_args drv q 0 request.args s1 ≡ ok tt s2
      → Locks drv q s2 n t
      → Fetch drv q (drv.column_count q.stmt s2) t rows u
      → n ≤ (if request.retry_if_locked then db.retries else 0)
      → n + length rows < fuel
      → run_query drv fuel databases tid request w
        ≡ answered
            (record { ok = true; msg = "ok"; rows = rows })
            (record { lib = u; finished = set w.finished db.sync true })
  unfolding run_query respond
  run_query-Locks databases request {db = db} {q = q} fuel tid w found known prepared started bound
        locks rows few enough =
      rw (found, run_query)
        (rw known (
          rw prepared (
            ap (respond drv)
              (run_prepared-Locks db q request fuel w started bound locks rows few enough))))
