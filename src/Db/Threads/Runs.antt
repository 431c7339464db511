-- ===== src/Db/Threads/Runs.antt =====
-- Runs of one thread in which no other thread takes part: its own steps, so that also the library
-- changes only by its calls, and the end of a wait by its time. The end of a call and a wait.
use acppsrv.Prelude.{
  ℕ, zero, suc, ◌≡◌, refl, Bool, true, false, none, some, [], ◌∷◌, get_elem?, arith,
}
use acppsrv.Sqlite.{Driver}
use acppsrv.Db.Threads.{
  Outcome, locking, testing, blocked, timed_out, expired, restarting, ending, signalling, over,
  is_blocked, Thread, State, Step, begins, calls_next, restarts, locks, tests, gives_up, signals,
  notifies, wakes, times_out, elsewhere,
}

module _ (drv : Driver) where
  open drv use {S}

  -- One thread, and nobody owns the mutex.
  abbrev pub alone : S → Bool → Thread drv → State drv
  alone l f t = record { lib = l; owner = none; finished = f; threads = t ∷ [] }

  abbrev pub under : S → Bool → Thread drv → State drv
  under l f t = record { lib = l; owner = some 0; finished = f; threads = t ∷ [] }

  -- A step in which no other thread changes the library, and that needs no reason from outside.
  abbrev pub IsOwn : {s t : State drv} → Step drv s t → Type 0
  IsOwn (begins i t o q retry_wait retries e p) = Unit
  IsOwn (calls_next i t t' l e p h) = Unit
  IsOwn (restarts i t t' l e p h) = Unit
  IsOwn (locks i t pc' e p o) = Unit
  IsOwn (tests i t e p o) = Unit
  IsOwn (gives_up i t e p o) = Unit
  IsOwn (signals i t o e p h k) = Unit
  IsOwn (notifies i j t u o e p h k b) = Unit
  IsOwn (wakes i t e p) = ⊥
  IsOwn (times_out i t e p) = Unit
  IsOwn (elsewhere l) = ⊥

  pub data Solo (s : State drv) : State drv → Type 0 where
    alone_here : Solo s s
    alone_next : {t u : State drv} → Solo s t → (st : Step drv t u) → IsOwn st → Solo s u

  pub Solo-trans : {s t u : State drv} → Solo s t → Solo t u → Solo s u
  Solo-trans r alone_here = r
  Solo-trans {s} {t} r (alone_next {t = v} {u = u} q st o) =
      alone_next (Solo-trans {s = s} {t = t} {u = v} r q) st o

  pub one_step : {s t : State drv} (st : Step drv s t) → IsOwn st → Solo s t
  one_step st o = alone_next alone_here st o

  pub first_step : {s t u : State drv} (st : Step drv s t) → IsOwn st → Solo t u → Solo s u
  first_step {s} {t} {u} st o r = Solo-trans {s = s} {t = t} {u = u} (one_step st o) r

  not_blocked :
      (t : Thread drv)
      → is_blocked t.pc ≡ false
      → (j : ℕ) (u : Thread drv) → get_elem? (t ∷ []) j ≡ some u
      → is_blocked u.pc ≡ false
  not_blocked t e zero u h = ground arith
  not_blocked t e (suc j) u h = cc

  -- The scope's end: the mutex, the flag, and the notification of nobody.
  pub end_run :
      (l : S) (f : Bool) (t : Thread drv) (o : Outcome)
      → Solo (alone l f (record t { pc = ending o })) (alone l true (record t { pc = over o }))
  end_run l f t o =
      let t0 = record t { pc = ending o } in
      let t1 = record t { pc = signalling o } in
      first_step {s = alone l f t0} {t = under l f t1} (locks 0 t0 (signalling o) refl refl refl) tt
        (one_step (signals 0 t1 o refl refl refl (not_blocked t1 refl)) tt)

  -- A wait that nobody else ends: by the flag that is set already, or by the time.
  pub wait_run :
      (l : S) (f : Bool) (t : Thread drv)
      → Solo (alone l f (record t { pc = locking })) (alone l false (record t { pc = restarting }))
  wait_run l true t =
      let t0 = record t { pc = locking } in
      let t1 = record t { pc = testing } in
      first_step {s = alone l true t0} {t = under l true t1} (locks 0 t0 testing refl refl refl) tt
        (one_step (tests 0 t1 refl refl refl) tt)
  wait_run l false t =
      let t0 = record t { pc = locking } in
      let t1 = record t { pc = testing } in
      let t2 = record t { pc = blocked } in
      let t3 = record t { pc = timed_out } in
      let t4 = record t { pc = expired } in
      first_step {s = alone l false t0} {t = under l false t1} (locks 0 t0 testing refl refl refl)
        tt
        (first_step {s = under l false t1} {t = alone l false t2} (tests 0 t1 refl refl refl) tt (
          first_step {s = alone l false t2} {t = alone l false t3} (times_out 0 t2 refl refl) tt (
            first_step {s = alone l false t3} {t = under l false t4}
              (locks 0 t3 expired refl refl refl) tt (one_step (gives_up 0 t4 refl refl refl) tt))))
