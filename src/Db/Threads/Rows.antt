-- ===== src/Db/Threads/Rows.antt =====
-- What the response of a thread holds, whatever the other threads do to the library meanwhile.
use acppsrv.Prelude.{
  ℕ, zero, suc, ◌+◌, ◌<◌, ◌≡◌, refl, sym, ap, ◌∙◌, subst, Bool, true, false, some, List, [], ◌∷◌,
  ◌++◌, get_elem?, set, if◌then◌else◌, arith, ltb, All, All-set,
}
use acppsrv.Sqlite.{
  Driver, Status, row, done, locked, Query, Result, ok, raised, aborted, next_row, start,
}
use acppsrv.Sqlite.Calls.{next_row_lem, next_row-state}
use acppsrv.Db.{Row, read_columns}
use acppsrv.Db.Threads.{
  Outcome, returned, threw, Pc, calling, locking, woken, timed_out, restarting, ending, signalling,
  over, Call, got_row, got_lock, got_done, got_error, with_lock, tested, Thread, State, met_lock,
  after_call, after_start, begun, Step, begins, calls_next, restarts, locks, tests, gives_up,
  signals, notifies, wakes, times_out, elsewhere, Reach, here, next,
}

-- The rows that the calls have reported, the oldest first.
abbrev pub rows_of : {D : Type 0} → List (Call D) → List (Row D)
rows_of [] = []
rows_of (got_row r ∷ cs) = rows_of cs ++ r ∷ []
rows_of (got_lock ∷ cs) = rows_of cs
rows_of (got_done ∷ cs) = rows_of cs
rows_of (got_error e ∷ cs) = rows_of cs

abbrev pub locks_of : {D : Type 0} → List (Call D) → ℕ
locks_of [] = 0
locks_of (got_row r ∷ cs) = locks_of cs
locks_of (got_lock ∷ cs) = suc (locks_of cs)
locks_of (got_done ∷ cs) = locks_of cs
locks_of (got_error e ∷ cs) = locks_of cs

-- The call is through without an exception, perhaps up to the signal.
abbrev pub is_returned : Pc → Bool
is_returned (ending returned) = true
is_returned (signalling returned) = true
is_returned (over returned) = true
is_returned _ = false

abbrev ends_done : {D : Type 0} → List (Call D) → Bool
ends_done (got_done ∷ cs) = true
ends_done _ = false

module _ (drv : Driver) where
  open drv use {S, D}

  -- The response has exactly the rows of the thread's own calls, in their order; each lock has used
  -- up a retry; and the call returns only after the end of its query.
  pub record IsAccounted (t : Thread drv) : Type 0 where
    pub own_rows : t.rows ≡ rows_of t.calls
    pub own_retries : t.retries + locks_of t.calls ≡ t.allowed
    pub complete : is_returned t.pc ≡ true → ends_done t.calls ≡ true

  waits : (b : Bool) → is_returned (if b then locking else restarting) ≡ false
  waits true = refl
  waits false = refl

  locked_pos :
      (q : Query drv) (retries : ℕ) (s t : S) → next_row drv q retries s ≡ ok locked t → 0 < retries
  locked_pos q retries s t e =
      let same = next_row-state drv q retries s t locked e in
      ((next_row_lem drv q retries s).2.0 (e ∙ ap (ok locked) (sym same))).0

  after_call-IsAccounted :
      (t t' : Thread drv) (s l : S) (r : Result drv Status)
      → next_row drv t.query t.retries s ≡ r
      → after_call drv t r ≡ some (t', l)
      → IsAccounted t
      → IsAccounted t'
  after_call-IsAccounted t t' s l (ok row u) e h a =
      let r = read_columns drv t.query 0 t.columns u in
      let same : record t { rows = t.rows ++ r ∷ []; calls = got_row r ∷ t.calls; pc = calling }
          ≡ t' =
        cc in
      subst IsAccounted same (record {
        own_rows = ap (λ x. x ++ r ∷ []) a.own_rows;
        own_retries = a.own_retries;
        complete = λ c. cc;
      })
  after_call-IsAccounted t t' s l (ok done u) e h a =
      let same : record t { calls = got_done ∷ t.calls; pc = ending returned } ≡ t' = cc in
      subst IsAccounted same
        (record { own_rows = a.own_rows; own_retries = a.own_retries; complete = λ c. refl })
  after_call-IsAccounted t t' s l (ok locked u) e h a =
      let same : met_lock drv t ≡ t' = cc in
      subst IsAccounted same (record {
        own_rows = a.own_rows;
        own_retries = omega (arith, a.own_retries, locked_pos t.query t.retries s u e);
        complete = λ c. cc (waits (ltb 0 t.retry_wait));
      })
  after_call-IsAccounted t t' s l (raised err u) e h a =
      let same : record t { calls = got_error err ∷ t.calls; pc = ending (threw err) } ≡ t' = cc in
      subst IsAccounted same
        (record { own_rows = a.own_rows; own_retries = a.own_retries; complete = λ c. cc })
  after_call-IsAccounted t t' s l aborted e h a = cc

  after_start-IsAccounted :
      (t t' : Thread drv) (l : S) (r : Result drv Unit)
      → after_start drv t r ≡ some (t', l)
      → IsAccounted t
      → IsAccounted t'
  after_start-IsAccounted t t' l (ok u s) h a =
      let same : record t { pc = calling } ≡ t' = cc in
      subst IsAccounted same
        (record { own_rows = a.own_rows; own_retries = a.own_retries; complete = λ c. cc })
  after_start-IsAccounted t t' l (raised e s) h a =
      let same : record t { pc = ending (threw e) } ≡ t' = cc in
      subst IsAccounted same
        (record { own_rows = a.own_rows; own_retries = a.own_retries; complete = λ c. cc })
  after_start-IsAccounted t t' l aborted h a = cc

  -- A thread moves on without a call; it has returned only if it had before.
  moved :
      (t : Thread drv) (p : Pc)
      → (is_returned p ≡ true → is_returned t.pc ≡ true)
      → IsAccounted t
      → IsAccounted (record t { pc = p })
  moved t p h a = record {
    own_rows = a.own_rows;
    own_retries = a.own_retries;
    complete = λ c. a.complete (h c);
  }

  with_lock-returned :
      (p p' : Pc) → with_lock p ≡ some p' → is_returned p' ≡ true → is_returned p ≡ true
  with_lock-returned p p' h c = ground arith

  over-returned :
      (p : Pc) (o : Outcome) → p ≡ signalling o → is_returned (over o) ≡ true → is_returned p ≡ true
  over-returned p returned e c = ap is_returned e
  over-returned p (threw x) e c = cc

  tested-returned : (b : Bool) → is_returned (tested b) ≡ false
  tested-returned true = refl
  tested-returned false = refl

  AllAccounted : State drv → Type 0
  AllAccounted s = All IsAccounted s.threads

  All-get :
      (ts : List (Thread drv)) (i : ℕ) (t : Thread drv)
      → All IsAccounted ts
      → get_elem? ts i ≡ some t
      → IsAccounted t
  All-get [] i t a h = cc
  All-get (u ∷ ts) zero t a h = let same : u ≡ t = cc in subst IsAccounted same a.0
  All-get (u ∷ ts) (suc i) t a h = All-get ts i t a.1 h

  -- One thread goes on.
  one :
      (ts : List (Thread drv)) (i : ℕ) (t t' : Thread drv)
      → get_elem? ts i ≡ some t
      → (IsAccounted t → IsAccounted t')
      → All IsAccounted ts
      → All IsAccounted (set ts i t')
  one ts i t t' h f a = All-set IsAccounted ts i t' a (f (All-get ts i t a h))

  Step-AllAccounted : {s s' : State drv} → Step drv s s' → AllAccounted s → AllAccounted s'
  unfolding AllAccounted
  Step-AllAccounted {s} (begins i t o q wait retries h e) a =
      one s.threads i t (begun drv q wait (drv.column_count q.stmt s.lib) retries) h
        (λ x. record { own_rows = refl; own_retries = omega arith; complete = λ c. cc }) a
  Step-AllAccounted {s} (calls_next i t t' l h e c) a =
      one s.threads i t t' h
        (after_call-IsAccounted t t' s.lib l (next_row drv t.query t.retries s.lib) refl c) a
  Step-AllAccounted {s} (restarts i t t' l h e c) a =
      one s.threads i t t' h (after_start-IsAccounted t t' l (start drv t.query true s.lib) c) a
  Step-AllAccounted {s} (locks i t p h e free) a =
      one s.threads i t _ h (moved t p (with_lock-returned t.pc p e)) a
  Step-AllAccounted {s} (tests i t h e own) a =
      one s.threads i t _ h (moved t (tested s.finished) (λ c. cc (tested-returned s.finished))) a
  Step-AllAccounted {s} (gives_up i t h e own) a =
      one s.threads i t _ h (moved t restarting (λ c. cc)) a
  Step-AllAccounted {s} (signals i t o h e own nobody) a =
      one s.threads i t _ h (moved t (over o) (over-returned t.pc o e)) a
  Step-AllAccounted {s} (notifies i j t u o h e own h' e') a =
      one (set s.threads i (record t { pc = over o })) j u _ h' (moved u woken (λ c. cc))
        (one s.threads i t _ h (moved t (over o) (over-returned t.pc o e)) a)
  Step-AllAccounted {s} (wakes i t h e) a = one s.threads i t _ h (moved t woken (λ c. cc)) a
  Step-AllAccounted {s} (times_out i t h e) a =
      one s.threads i t _ h (moved t timed_out (λ c. cc)) a
  Step-AllAccounted (elsewhere l) a = a

  -- If it holds of every thread at the start, then, whatever the other threads do to the library
  -- and to the flag between the calls of a thread, and in whatever order, it holds of each thread
  -- later: its response has exactly the rows of its own calls in their order, each lock has used up
  -- one of the retries that the call was given, and the call returns without an exception only
  -- after its query has reported its end.
  pub Reach-IsAccounted :
      {s s' : State drv} → All IsAccounted s.threads → Reach drv s s' → All IsAccounted s'.threads
  unfolding AllAccounted
  Reach-IsAccounted a here = a
  Reach-IsAccounted {s} a (next {t = t} {u = u} r st) =
      Step-AllAccounted {s = t} {s' = u} st (Reach-IsAccounted {s = s} {s' = t} a r)
