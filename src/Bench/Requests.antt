-- ===== src/Bench/Requests.antt =====
-- `requests_impl::worker` of benchmark/benchmark.cpp: the choice of a request, the counters, and the
-- tasks that post each other until the time is over. A call of `is_done` is a sequence of steps, one
-- for each access to an atomic variable or to the clock, and the steps of the calls in all threads
-- interleave in any order. The clock is steady and counts nanoseconds. What the message about the
-- processed requests says is left out.
pub mod Owed
pub mod Flow
pub mod Examples
use acppsrv.Prelude.{
  ℕ, zero, suc, ◌+◌, ◌-◌, ◌%◌, ◌≤◌, ◌≡◌, Bool, true, false, Option, none, some, List, [], ◌∷◌, ◌++◌,
  get_elem?, set, if◌then◌else◌, leb,
}
use acppsrv.Bench.Args.{Chars}
use acppsrv.Bench.Keys.{Key}
use acppsrv.Bench.Create.{without, ulong_mod}

-- worker::request
pub data Kind : Type 0 where
  get : Kind
  update : Kind
  insert : Kind

-- `create_request`, with the random number.
unfoldable pub choose : (chars : Chars) → chars.Real → chars.Real → chars.Real → Kind
choose chars inserts updates r =
    if chars.lt r inserts
    then insert
    else if chars.lt r (chars.add inserts updates)
    then update
    else get

abbrev pub second : ℕ
second = 1_000_000_000

-- The counters; `t0` is the start, and `tt` the time of the last message, or nothing while another
-- thread looks at it.
pub record Counters : Type 0 where
  pub t0 : ℕ
  pub tt : Option ℕ
  pub records : ℕ
  pub records1 : ℕ
  pub gets : ℕ
  pub gets1 : ℕ
  pub updates : ℕ
  pub updates1 : ℕ
  pub inserts : ℕ
  pub inserts1 : ℕ

abbrev pub count : ℕ → ℕ
count n = (n + 1) % ulong_mod

-- An access of `is_done`: to a counter of all requests or of one kind, in total or since the last
-- message; to the clock; or to `tt`.
pub data Op : Type 0 where
  adds : Option Kind → Op
  adds1 : Option Kind → Op
  clears1 : Option Kind → Op
  reads_clock : Op
  takes_time : Op
  puts_time : ℕ → Op

abbrev pub added : Option Kind → Counters → Counters
added none c = record c { records = count c.records }
added (some get) c = record c { gets = count c.gets }
added (some update) c = record c { updates = count c.updates }
added (some insert) c = record c { inserts = count c.inserts }

abbrev pub added1 : Option Kind → Counters → Counters
added1 none c = record c { records1 = count c.records1 }
added1 (some get) c = record c { gets1 = count c.gets1 }
added1 (some update) c = record c { updates1 = count c.updates1 }
added1 (some insert) c = record c { inserts1 = count c.inserts1 }

abbrev pub cleared1 : Option Kind → Counters → Counters
cleared1 none c = record c { records1 = 0 }
cleared1 (some get) c = record c { gets1 = 0 }
cleared1 (some update) c = record c { updates1 = 0 }
cleared1 (some insert) c = record c { inserts1 = 0 }

-- A posted task.
pub record Task : Type 0 where
  pub kind : Kind
  pub key : Key

-- A call of `is_done`: the accesses that it has still to make, `tnow`, and its result.
pub record Call : Type 0 where
  pub todo : List Op
  pub tnow : ℕ
  pub done : Bool

-- `is_done` up to the exchange in time_ref::test.
unfoldable pub is_done : Kind → Call
is_done kind = record {
  todo =
      adds none ∷ adds1 none ∷ adds (some kind) ∷ adds1 (some kind) ∷ reads_clock ∷ takes_time ∷ [];
  tnow = 0;
  done = false;
}

-- time_ref::test after the exchange: another thread looks at the time, or a message is due and the
-- counters behind it are reset, or it is not.
unfoldable pub after_exchange : ℕ → Option ℕ → List Op
after_exchange tnow none = []
after_exchange tnow (some t) =
    if leb second (tnow - t)
    then puts_time tnow
      ∷ clears1 none
      ∷ clears1 (some get)
      ∷ clears1 (some update)
      ∷ clears1 (some insert)
      ∷ []
    else puts_time t ∷ []

-- One access, with the duration of the test and the time of the clock; `rest` is what follows it.
unfoldable pub act : ℕ → ℕ → Op → List Op → Call → Counters → Call × Counters
act time now (adds k) rest r c = (record r { todo = rest }, added k c)
act time now (adds1 k) rest r c = (record r { todo = rest }, added1 k c)
act time now (clears1 k) rest r c = (record r { todo = rest }, cleared1 k c)
act time now reads_clock rest r c =
    (record { todo = rest; tnow = now; done = leb time (now - c.t0) }, c)
act time now takes_time rest r c =
    (record r { todo = after_exchange r.tnow c.tt ++ rest }, record c { tt = none })
act time now (puts_time t) rest r c = (record r { todo = rest }, record c { tt = some t })

pub record State : Type 0 where
  pub now : ℕ
  pub counters : Counters
  pub queue : List Task
  -- The handlers whose database operations have succeeded, in their calls of `is_done`.
  pub calls : List Call

-- worker::init
unfoldable pub start : ℕ → List Task → State
start t0 tasks = record {
  now = t0;
  counters = record {
    t0 = t0;
    tt = some t0;
    records = 0;
    records1 = 0;
    gets = 0;
    gets1 = 0;
    updates = 0;
    updates1 = 0;
    inserts = 0;
    inserts1 = 0;
  };
  queue = tasks;
  calls = [];
}

unfoldable pub begun : ℕ → Task → State → State
begun i task s = record s { queue = without i s.queue; calls = s.calls ++ is_done task.kind ∷ [] }

unfoldable pub acted : ℕ → ℕ → ℕ → Op → List Op → Call → State → State
acted time now j op rest r s =
    let (r', c) = act time now op rest r s.counters in
    record s { now = now; counters = c; calls = set s.calls j r' }

-- A handler posts the next request unless it is done.
unfoldable pub ended : ℕ → Call → Task → State → State
ended j r next s = record s {
  queue = if r.done then s.queue else s.queue ++ next ∷ [];
  calls = without j s.calls;
}

-- How many calls of `is_done` have begun, how many tasks have thrown, and how many have found the time
-- over.
pub data Reach (time : ℕ) (s : State) : ℕ → ℕ → ℕ → State → Type 0 where
  here : Reach time s 0 0 0 s
  begins :
      {t : State} {n lost over : ℕ} (i : ℕ) (task : Task)
      → Reach time s n lost over t
      → get_elem? t.queue i ≡ some task
      → Reach time s (suc n) lost over (begun i task t)
  acts :
      {t : State} {n lost over : ℕ} (now j : ℕ) (op : Op) (rest : List Op) (r : Call)
      → Reach time s n lost over t
      → t.now ≤ now
      → get_elem? t.calls j ≡ some r
      → r.todo ≡ op ∷ rest
      → Reach time s n lost over (acted time now j op rest r t)
  ends :
      {t : State} {n lost over : ℕ} (j : ℕ) (r : Call) (next : Task)
      → Reach time s n lost over t
      → get_elem? t.calls j ≡ some r
      → r.todo ≡ []
      → Reach time s n lost (if r.done then suc over else over) (ended j r next t)
  throws :
      {t : State} {n lost over : ℕ} (i : ℕ) (task : Task)
      → Reach time s n lost over t
      → get_elem? t.queue i ≡ some task
      → Reach time s n (suc lost) over (record t { queue = without i t.queue })
