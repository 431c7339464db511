-- ===== src/Db/Threads/Sequential.antt =====
-- The loop `fetch` of one call is a run of the threads in which no other thread takes part.
use acppsrv.Prelude.{
  ℕ, zero, suc, ◌-◌, ◌≡◌, refl, ap, ◌∙◌, Bool, true, false, some, List, [], ◌∷◌, ◌++◌, ltb,
  Bool-cases, inl, inr, if◌then◌else◌,
}
use acppsrv.Sqlite.{
  Driver, Status, row, done, locked, Query, Result, ok, raised, aborted, next_row, start,
}
use acppsrv.Db.{
  DbDef, Row, Run, fetched, failed, read_columns, wait_for_retry, signal_finished, fetch,
}
use acppsrv.Db.Threads.{
  Outcome, returned, threw, Pc, calling, locking, restarting, ending, over, Call, Thread, State,
  calls_next, restarts, got_done, got_row, got_lock, got_error, after_call, after_start,
}
use acppsrv.Db.Threads.Runs.{alone, Solo, Solo-trans, one_step, end_run, wait_run}

module _ (drv : Driver) where
  open drv use {S, D}

  -- The run that ends as `fetch` does; the flag is set then.
  abbrev pub Performs : State drv → Run drv → Type 0
  Performs s (fetched rows w) =
      (t : Thread drv) × Solo drv s (alone drv w.lib true t)
      × (t.rows ≡ rows)
      × (t.pc ≡ over returned)
      × (w.finished ≡ true ∷ [])
  Performs s (failed e w) =
      (t : Thread drv) × Solo drv s (alone drv w.lib true t)
      × (t.pc ≡ over (threw e))
      × (w.finished ≡ true ∷ [])
  Performs s (Run.stopped) = Unit
  Performs s (Run.no_fuel) = Unit

  Performs-first : {s t : State drv} (r : Run drv) → Solo drv s t → Performs t r → Performs s r
  Performs-first {s} {t} (fetched rows w) d (u, d', a, b, c) =
      (u, Solo-trans drv {s = s} {t = t} {u = alone drv w.lib true u} d d', a, b, c)
  Performs-first {s} {t} (failed e w) d (u, d', b, c) =
      (u, Solo-trans drv {s = s} {t = t} {u = alone drv w.lib true u} d d', b, c)
  Performs-first (Run.stopped) d p = tt
  Performs-first (Run.no_fuel) d p = tt

  module _ (db : DbDef drv) (q : Query drv) (columns allowed : ℕ) where
    -- A thread in the loop.
    abbrev pub thread : ℕ → List (Row D) → List (Call D) → Pc → Thread drv
    thread retries rows calls pc = record {
      query = q;
      retry_wait = db.retry_wait;
      allowed = allowed;
      columns = columns;
      retries = retries;
      rows = rows;
      calls = calls;
      pc = pc;
    }

    abbrev pub loop : ℕ → ℕ → List (Row D) → S → Bool → Run drv
    loop fuel retries rows l f =
        fetch drv fuel (record db { sync = 0 }) q columns retries rows
          (record { lib = l; finished = f ∷ [] })

    -- The step of a call of `next_row` with this result.
    called :
        (retries : ℕ) (rows : List (Row D)) (calls : List (Call D)) (l l' : S) (f : Bool)
        (t' : Thread drv)
        → after_call drv (thread retries rows calls calling) (next_row drv q retries l)
          ≡ some (t', l')
        → Solo drv (alone drv l f (thread retries rows calls calling)) (alone drv l' f t')
    called retries rows calls l l' f t' h =
        one_step drv (calls_next 0 (thread retries rows calls calling) t' l' refl refl h) tt

    -- The step of a call of `next_row` after which the loop ends, and the end of its scope.
    finished_run :
        (retries : ℕ) (rows : List (Row D)) (calls calls' : List (Call D)) (l s : S) (f : Bool)
        (o : Outcome)
        → after_call drv (thread retries rows calls calling) (next_row drv q retries l)
          ≡ some (thread retries rows calls' (ending o), s)
        → Solo drv
            (alone drv l f (thread retries rows calls calling))
            (alone drv s true (thread retries rows calls' (over o)))
    finished_run retries rows calls calls' l s f o h =
        Solo-trans drv {s = alone drv l f (thread retries rows calls calling)}
          {t = alone drv s f (thread retries rows calls' (ending o))}
          {u = alone drv s true (thread retries rows calls' (over o))}
          (called retries rows calls l s f (thread retries rows calls' (ending o)) h)
          (end_run drv s f (thread retries rows calls' (over o)) o)

    -- The restart of a query, from the thread that has met a lock, with or without a wait.
    restarted :
        (fuel retries : ℕ) (rows : List (Row D)) (calls : List (Call D)) (l : S) (f : Bool)
        → ((l' : S)
            → Performs
                (alone drv l' f (thread retries rows calls calling))
                (loop fuel retries rows l' f))
        → (r : Result drv Unit) → start drv q true l ≡ r
        → Performs (alone drv l f (thread retries rows calls restarting)) (elim r [
          | ok u s' ↦ loop fuel retries rows s' f
          | raised e s' ↦ failed e (record { lib = s'; finished = true ∷ [] })
          | aborted ↦ Run.stopped
        ])
    restarted fuel retries rows calls l f ih (ok u s') e =
        Performs-first {s = alone drv l f (thread retries rows calls restarting)}
          {t = alone drv s' f (thread retries rows calls calling)} (loop fuel retries rows s' f)
          (one_step drv
            (restarts 0 (thread retries rows calls restarting) (thread retries rows calls calling)
              s' refl refl (ap (after_start drv (thread retries rows calls restarting)) e))
            tt)
          (ih s')
    restarted fuel retries rows calls l f ih (raised x s') e =
        let t = thread retries rows calls (over (threw x)) in
        (
          t,
          Solo-trans drv {s = alone drv l f (thread retries rows calls restarting)}
              {t = alone drv s' f (thread retries rows calls (ending (threw x)))}
              {u = alone drv s' true t}
              (one_step drv
                (restarts 0 (thread retries rows calls restarting)
                  (thread retries rows calls (ending (threw x))) s' refl refl
                  (ap (after_start drv (thread retries rows calls restarting)) e))
                tt)
              (end_run drv s' f t (threw x)),
          refl,
          refl,
        )
    restarted fuel retries rows calls l f ih aborted e = tt

    -- The `locked` branch.
    locked_run :
        (b : Bool) (fuel retries : ℕ) (rows : List (Row D)) (calls : List (Call D)) (l : S)
        (f : Bool)
        → ((l' : S) (f' : Bool)
            → Performs
                (alone drv l' f' (thread retries rows calls calling))
                (loop fuel retries rows l' f'))
        → Performs
            (alone drv l f (thread retries rows calls (if b then locking else restarting)))
            (elim (start drv q true l) [
              | ok u s' ↦ loop fuel retries rows s' (if b then false else f)
              | raised e s' ↦ failed e (record { lib = s'; finished = true ∷ [] })
              | aborted ↦ Run.stopped
            ])
    locked_run true fuel retries rows calls l f ih =
        Performs-first {s = alone drv l f (thread retries rows calls locking)}
          {t = alone drv l false (thread retries rows calls restarting)} _
          (wait_run drv l f (thread retries rows calls locking))
          (restarted fuel retries rows calls l false (λ l'. ih l' false) (start drv q true l) refl)
    locked_run false fuel retries rows calls l f ih =
        restarted fuel retries rows calls l f (λ l'. ih l' f) (start drv q true l) refl

    -- Where the loop of one call returns or throws, as the model of `execute_query` computes it, there
    -- is a run of the threads from the same state that has only steps of this thread and the end of a
    -- wait by its time, so that no one else changes the library; and it ends in the same state of the
    -- library, with the same rows or the same exception, and with the flag set.
    pub fetch-Performs :
        (fuel retries : ℕ) (rows : List (Row D)) (calls : List (Call D)) (l : S) (f : Bool)
        → Performs (alone drv l f (thread retries rows calls calling)) (loop fuel retries rows l f)
    unfolding fetch signal_finished wait_for_retry start
    fetch-Performs zero retries rows calls l f = tt
    fetch-Performs (suc fuel) retries rows calls l f =
        go (next_row drv q retries l) refl (fetch-Performs fuel)
      where
        go :
            (r : Result drv Status)
            → next_row drv q retries l ≡ r
            → ((n : ℕ) (rs : List (Row D)) (cs : List (Call D)) (l' : S) (f' : Bool)
                → Performs (alone drv l' f' (thread n rs cs calling)) (loop fuel n rs l' f'))
            → Performs
                (alone drv l f (thread retries rows calls calling))
                (loop (suc fuel) retries rows l f)
        go (ok row s) e ih =
            let r = read_columns drv q 0 columns s in
            rw (e, fetch)
              (Performs-first {s = alone drv l f (thread retries rows calls calling)}
                {t = alone drv s f (thread retries (rows ++ r ∷ []) (got_row r ∷ calls) calling)} _
                (called retries rows calls l s f
                  (thread retries (rows ++ r ∷ []) (got_row r ∷ calls) calling)
                  (ap (after_call drv (thread retries rows calls calling)) e))
                (ih retries (rows ++ r ∷ []) (got_row r ∷ calls) s f))
        go (ok done s) e ih =
            rw (e, fetch)
              (
                thread retries rows (got_done ∷ calls) (over returned),
                finished_run retries rows calls (got_done ∷ calls) l s f returned
                    (ap (after_call drv (thread retries rows calls calling)) e),
                refl,
                refl,
                refl,
              )
        go (ok locked s) e ih =
            let t = λ (pc : Pc). thread (retries - 1) rows (got_lock ∷ calls) pc in
            let meets =
              λ (t' : Thread drv)
                  (h : after_call drv (thread retries rows calls calling) (ok locked s)
                    ≡ some (t', s)).
                called retries rows calls l s f t'
                  (ap (after_call drv (thread retries rows calls calling)) e ∙ h) in
            let goes_on = ih (retries - 1) rows (got_lock ∷ calls) in
            elim (Bool-cases (ltb 0 db.retry_wait)) [
              | inl wait ↦
                  rw (e, fetch)
                    (rw wait (
                      Performs-first {s = alone drv l f (thread retries rows calls calling)}
                        {t = alone drv s f (t locking)} _ (meets (t locking) (rw wait))
                        (locked_run true fuel (retries - 1) rows (got_lock ∷ calls) s f goes_on)))
              | inr no_wait ↦
                  rw (e, fetch)
                    (rw no_wait (
                      Performs-first {s = alone drv l f (thread retries rows calls calling)}
                        {t = alone drv s f (t restarting)} _ (meets (t restarting) (rw no_wait))
                        (locked_run false fuel (retries - 1) rows (got_lock ∷ calls) s f goes_on)))
            ]
        go (raised x s) e ih =
            rw (e, fetch)
              (
                thread retries rows (got_error x ∷ calls) (over (threw x)),
                finished_run retries rows calls (got_error x ∷ calls) l s f (threw x)
                    (ap (after_call drv (thread retries rows calls calling)) e),
                refl,
                refl,
              )
        go aborted e ih = rw (e, fetch) tt
