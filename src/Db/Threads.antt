-- ===== src/Db/Threads.antt =====
-- `db_server::execute_query` of src/db_server.cpp in several threads that share a `db_sync_t`: a call
-- of the library, a locking of the mutex, and what is done under the mutex are the steps, and the
-- steps of the threads interleave in any order. A wait ends by a notification, by its time, or
-- without a reason. Other threads may change the library's state at any time.
pub mod Counts
pub mod Passive
pub mod Wakeup
pub mod Rows
pub mod Runs
pub mod Sequential
pub mod Examples
use acppsrv.Prelude.{
  ℕ, ◌+◌, ◌-◌, ◌≡◌, Bool, true, false, Option, none, some, List, [], ◌∷◌, ◌++◌, get_elem?, set,
  if◌then◌else◌, ltb,
}
use acppsrv.Sqlite.{
  Driver, Error, Status, row, done, locked, Query, Result, ok, raised, aborted, next_row, start,
}
use acppsrv.Db.{Row, read_columns}

-- How a call of `execute_query` ends.
pub data Outcome : Type 0 where
  returned : Outcome
  threw : Error → Outcome

-- Where a thread is: before a call of `next_row`, before it locks the mutex for its wait, with the
-- mutex before the test of the flag, in the wait, awake by a notification or after the time but
-- without the mutex, with the mutex after the time, before the restart of the query, at the end
-- before and with the mutex, and through.
pub data Pc : Type 0 where
  calling : Pc
  locking : Pc
  testing : Pc
  blocked : Pc
  woken : Pc
  timed_out : Pc
  expired : Pc
  restarting : Pc
  ending : Outcome → Pc
  signalling : Outcome → Pc
  over : Outcome → Pc

-- What a call of `next_row` has reported.
pub data Call (D : Type 0) : Type 0 where
  got_row : Row D → Call D
  got_lock : Call D
  got_done : Call D
  got_error : Error → Call D

-- The lock of the mutex that a thread waits for, and where it is with the lock.
abbrev pub with_lock : Pc → Option Pc
with_lock locking = some testing
with_lock woken = some testing
with_lock timed_out = some expired
with_lock (ending o) = some (signalling o)
with_lock calling = none
with_lock testing = none
with_lock blocked = none
with_lock expired = none
with_lock restarting = none
with_lock (signalling o) = none
with_lock (over o) = none

-- What the flag tells a thread in `wait_for`, and where it goes on: when the wait is over the flag is
-- reset.
abbrev pub tested : Bool → Pc
tested true = restarting
tested false = blocked

abbrev pub is_blocked : Pc → Bool
is_blocked blocked = true
is_blocked _ = false

module _ (drv : Driver) where
  open drv use {S, D}

  -- A thread with the arguments and the variables of its call, and the reports of its calls of
  -- `next_row`, the newest first. `allowed` is the argument `retries`.
  pub record Thread : Type 0 where
    pub query : Query drv
    pub retry_wait : ℕ
    pub allowed : ℕ
    pub columns : ℕ
    pub retries : ℕ
    pub rows : List (Row D)
    pub calls : List (Call D)
    pub pc : Pc

  -- The library, the mutex with its owner, the flag, and the threads.
  pub record State : Type 0 where
    pub lib : S
    pub owner : Option ℕ
    pub finished : Bool
    pub threads : List Thread

  -- The `locked` branch, up to the mutex.
  abbrev pub met_lock : Thread → Thread
  met_lock t = record t {
    retries = t.retries - 1;
    calls = got_lock ∷ t.calls;
    pc = if ltb 0 t.retry_wait then locking else restarting;
  }

  abbrev pub met_row : Thread → Row D → Thread
  met_row t r = record t { rows = t.rows ++ r ∷ []; calls = got_row r ∷ t.calls; pc = calling }

  -- A round of the loop from the result of `next_row`; a failed assertion leaves no state.
  abbrev pub after_call : Thread → Result drv Status → Option (Thread × S)
  after_call t (ok done s) = some (record t { calls = got_done ∷ t.calls; pc = ending returned }, s)
  after_call t (ok locked s) = some (met_lock t, s)
  after_call t (ok row s) = some (met_row t (read_columns drv t.query 0 t.columns s), s)
  after_call t (raised e s) =
      some (record t { calls = got_error e ∷ t.calls; pc = ending (threw e) }, s)
  after_call t aborted = none

  abbrev pub after_start : Thread → Result drv Unit → Option (Thread × S)
  after_start t (ok u s) = some (record t { pc = calling }, s)
  after_start t (raised e s) = some (record t { pc = ending (threw e) }, s)
  after_start t aborted = none

  -- The call of `execute_query` by which a thread begins.
  abbrev pub begun : Query drv → ℕ → ℕ → ℕ → Thread
  begun q retry_wait columns retries = record {
    query = q;
    retry_wait = retry_wait;
    allowed = retries;
    columns = columns;
    retries = retries;
    rows = [];
    calls = [];
    pc = calling;
  }

  abbrev pub at : State → ℕ → Thread → State
  at s i t = record s { threads = set s.threads i t }

  pub data Step (s : State) : State → Type 0 where
    begins :
        (i : ℕ) (t : Thread) (o : Outcome) (q : Query drv) (retry_wait retries : ℕ)
        → get_elem? s.threads i ≡ some t
        → t.pc ≡ over o
        → Step s (at s i (begun q retry_wait (drv.column_count q.stmt s.lib) retries))
    calls_next :
        (i : ℕ) (t t' : Thread) (l : S)
        → get_elem? s.threads i ≡ some t
        → t.pc ≡ calling
        → after_call t (next_row drv t.query t.retries s.lib) ≡ some (t', l)
        → Step s (at (record s { lib = l }) i t')
    restarts :
        (i : ℕ) (t t' : Thread) (l : S)
        → get_elem? s.threads i ≡ some t
        → t.pc ≡ restarting
        → after_start t (start drv t.query true s.lib) ≡ some (t', l)
        → Step s (at (record s { lib = l }) i t')
    locks :
        (i : ℕ) (t : Thread) (pc' : Pc)
        → get_elem? s.threads i ≡ some t
        → with_lock t.pc ≡ some pc'
        → s.owner ≡ none
        → Step s (at (record s { owner = some i }) i (record t { pc = pc' }))
    tests :
        (i : ℕ) (t : Thread)
        → get_elem? s.threads i ≡ some t
        → t.pc ≡ testing
        → s.owner ≡ some i
        → Step s (
            at
              (record s { owner = none; finished = false })
              i
              (record t { pc = tested s.finished }))
    gives_up :
        (i : ℕ) (t : Thread)
        → get_elem? s.threads i ≡ some t
        → t.pc ≡ expired
        → s.owner ≡ some i
        → Step s (at (record s { owner = none; finished = false }) i (record t { pc = restarting }))
    -- `notify_one` with nobody in the wait, and with a thread that it wakes.
    signals :
        (i : ℕ) (t : Thread) (o : Outcome)
        → get_elem? s.threads i ≡ some t
        → t.pc ≡ signalling o
        → s.owner ≡ some i
        → ((j : ℕ) (u : Thread) → get_elem? s.threads j ≡ some u → is_blocked u.pc ≡ false)
        → Step s (at (record s { owner = none; finished = true }) i (record t { pc = over o }))
    notifies :
        (i j : ℕ) (t u : Thread) (o : Outcome)
        → get_elem? s.threads i ≡ some t
        → t.pc ≡ signalling o
        → s.owner ≡ some i
        → get_elem? (set s.threads i (record t { pc = over o })) j ≡ some u
        → u.pc ≡ blocked
        → Step s (
            at
              (at (record s { owner = none; finished = true }) i (record t { pc = over o }))
              j
              (record u { pc = woken }))
    wakes :
        (i : ℕ) (t : Thread)
        → get_elem? s.threads i ≡ some t
        → t.pc ≡ blocked
        → Step s (at s i (record t { pc = woken }))
    times_out :
        (i : ℕ) (t : Thread)
        → get_elem? s.threads i ≡ some t
        → t.pc ≡ blocked
        → Step s (at s i (record t { pc = timed_out }))
    elsewhere : (l : S) → Step s (record s { lib = l })

  pub data Reach (s : State) : State → Type 0 where
    here : Reach s s
    next : {t u : State} → Reach s t → Step t u → Reach s u
