-- ===== src/Db/Threads/Examples.antt =====
-- Two threads of src/db_server.cpp: the first meets a lock and waits, the second wakes it when its
-- query is through.
use acppsrv.Prelude.{
  ℕ, ◌≤◌, ◌<◌, ◌≡◌, refl, true, false, none, some, [], ◌∷◌, get_elem?, All, arith,
}
use acppsrv.Sqlite.{next_row}
use acppsrv.Sqlite.Examples.{script, select}
use acppsrv.Db.Examples.{numbers}
use acppsrv.Db.Threads.{
  returned, Pc, calling, locking, testing, blocked, woken, ending, signalling, over, got_done,
  got_lock, Thread, State, is_blocked, begun, begins, calls_next, locks, tests, notifies, elsewhere,
  Reach, here, next,
}
use acppsrv.Db.Threads.Counts.{is_inside, is_awake, count}
use acppsrv.Db.Threads.Wakeup.{IsIdle, Reach-WillBeTested}
use acppsrv.Db.Threads.Rows.{IsAccounted, Reach-IsAccounted}
use acppsrv.Db.Threads.Runs.{alone}
use acppsrv.Db.Threads.Sequential.{Performs, thread, loop, fetch-Performs}

abbrev first : Pc → Thread script
first pc = record (begun script select 90 1 2) { retries = 1; calls = got_lock ∷ []; pc = pc }

abbrev second : Pc → Thread script
second pc = record (begun script select 90 1 0) { calls = got_done ∷ []; pc = pc }

abbrev idle : Thread script
idle = record (begun script select 90 1 0) { calls = got_done ∷ []; pc = over returned }

abbrev state : ℕ → Thread script → Thread script → State script
state l t u = record { lib = l; owner = none; finished = false; threads = t ∷ u ∷ [] }

abbrev owned : ℕ → ℕ → Thread script → Thread script → State script
owned i l t u = record { lib = l; owner = some i; finished = false; threads = t ∷ u ∷ [] }

abbrev begin : State script
begin = state 3 idle idle

-- The first thread is in its wait.
first_waits : Reach script begin (state 4 (first blocked) idle)
unfolding next_row
first_waits =
    next {t = owned 0 4 (first testing) idle}
      (next {t = state 4 (first locking) idle}
        (next {t = state 3 (begun script select 90 1 2) idle}
          (next here (begins 0 idle returned select 90 2 refl refl))
          (calls_next 0 (begun script select 90 1 2) (first locking) 4 refl refl refl))
        (locks 0 (first locking) testing refl refl refl))
      (tests 0 (first testing) refl refl refl)

abbrev end : State script
end = record {
  lib = 0;
  owner = none;
  finished = true;
  threads = first woken ∷ second (over returned) ∷ [];
}

end-Reach : Reach script begin end
unfolding next_row
end-Reach =
    next {t = owned 1 0 (first blocked) (second (signalling returned))}
      (next {t = state 0 (first blocked) (second (ending returned))}
        (next {t = state 0 (first blocked) (begun script select 90 1 0)}
          (next {t = state 0 (first blocked) idle} (next first_waits (elsewhere 0))
            (begins 1 idle returned select 90 0 refl refl))
          (calls_next 1 (begun script select 90 1 0) (second (ending returned)) 0 refl refl refl))
        (locks 1 (second (ending returned)) (signalling returned) refl refl refl))
      (notifies 1 0 (second (signalling returned)) (first blocked) returned refl refl refl refl
        refl)

begin-IsIdle : IsIdle script begin
begin-IsIdle = (each, refl)
  where
    each :
        (i : ℕ) (t : Thread script)
        → get_elem? (idle ∷ idle ∷ []) i ≡ some t
        → (is_inside t.pc ≡ false) × (is_blocked t.pc ≡ false)
    each ℕ.zero t h = ground arith
    each (ℕ.suc ℕ.zero) t h = ground arith
    each (ℕ.suc (ℕ.suc i)) t h = cc

Reach-WillBeTested_example :
    (count script is_inside end.threads ≤ 1)
    × (true ≡ true
        → 0 < count script is_blocked end.threads
        → 0 < count script is_awake end.threads)
Reach-WillBeTested_example = Reach-WillBeTested script begin-IsIdle end-Reach

idle-IsAccounted : IsAccounted script idle
idle-IsAccounted = record { own_rows = refl; own_retries = omega arith; complete = λ c. refl }

Reach-IsAccounted_example : All (IsAccounted script) end.threads
Reach-IsAccounted_example =
    Reach-IsAccounted script (idle-IsAccounted, (idle-IsAccounted, tt)) end-Reach

-- The query of the wrapper's examples that meets a lock before its two rows.
fetch-Performs_example :
    Performs script
      (alone script 3 false (thread script numbers select 1 2 2 [] [] calling))
      (loop script numbers select 1 2 5 2 [] 3 false)
fetch-Performs_example = fetch-Performs script numbers select 1 2 5 2 [] [] 3 false
