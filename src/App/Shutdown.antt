-- ===== src/App/Shutdown.antt =====
-- `application::run` of src/application.cpp from "Start processing" to its end: the actions of the main
-- thread, and the handler of the termination signal, which runs in a thread of the control pool. What
-- a pool does inside is in the model of the pools. Here a wait returns once the context of its pool is
-- stopped, or, for the control pool, whose work guard is reset, once its only handler has run: it is
-- assumed that the handlers which still run in a stopped pool end.
pub mod Ordered
pub mod Stopped
pub mod Order
use acppsrv.Prelude.{
  ℕ, zero, suc, ◌+◌, ◌≡◌, Bool, true, false, ◌||◌, Option, none, some, List, [], ◌∷◌, ◌++◌, nat_beq,
}

pub data PoolName : Type 0 where
  control : PoolName
  main : ℕ → PoolName
  database : PoolName

-- The main thread runs a pool or waits for it.
pub data Act : Type 0 where
  runs : PoolName → Act
  waits : PoolName → Act

-- The signal handler stops a pool, or interrupts the queries.
pub data Stop : Type 0 where
  stops : PoolName → Stop
  interrupts : Stop

-- `for (auto&& p: main_pools)`, from pool `i` on.
abbrev pub each : {A : Type 0} → (ℕ → A) → ℕ → ℕ → List A
each f i zero = []
each f i (suc n) = f i ∷ each f (suc i) n

-- With `n` main pools.
abbrev pub program : ℕ → List Act
program n =
    runs control
    ∷ (each (λ i. runs (main i)) 0 n
        ++ runs database ∷ waits control ∷ (each (λ i. waits (main i)) 0 n ++ waits database ∷ []))

abbrev pub handler : ℕ → List Stop
handler n = each (λ i. stops (main i)) 0 n ++ stops database ∷ interrupts ∷ []

pub record State : Type 0 where
  -- The main thread: what it has done and what it has still to do.
  pub did : List Act
  pub todo : List Act
  -- The handler: nothing before the signal comes.
  pub handled : List Stop
  pub signal : Option (List Stop)

unfoldable pub start : ℕ → State
start n = record { did = []; todo = program n; handled = []; signal = none }

abbrev pub stops_main : ℕ → List Stop → Bool
stops_main i [] = false
stops_main i (stops (main j) ∷ rest) = nat_beq j i || stops_main i rest
stops_main i (_ ∷ rest) = stops_main i rest

abbrev pub stops_database : List Stop → Bool
stops_database [] = false
stops_database (stops database ∷ rest) = true
stops_database (_ ∷ rest) = stops_database rest

abbrev pub is_over : Option (List Stop) → Bool
is_over (some []) = true
is_over _ = false

-- `wait` can return: the pool was run before, and its threads end, if their handlers do.
abbrev pub returns : PoolName → State → Bool
returns control s = is_over s.signal
returns (main i) s = stops_main i s.handled
returns database s = stops_database s.handled

-- The signal set was made before the control pool was run.
abbrev pub control_runs : List Act → Bool
control_runs [] = false
control_runs (runs control ∷ rest) = true
control_runs (_ ∷ rest) = control_runs rest

pub data Step (n : ℕ) (s : State) : State → Type 0 where
  run_pool :
      (p : PoolName) (rest : List Act)
      → s.todo ≡ runs p ∷ rest
      → Step n s (record s { did = s.did ++ runs p ∷ []; todo = rest })
  wait_pool :
      (p : PoolName) (rest : List Act)
      → s.todo ≡ waits p ∷ rest
      → returns p s ≡ true
      → Step n s (record s { did = s.did ++ waits p ∷ []; todo = rest })
  signal_comes :
      s.signal ≡ none
      → control_runs s.did ≡ true
      → Step n s (record s { signal = some (handler n) })
  handles :
      (a : Stop) (rest : List Stop)
      → s.signal ≡ some (a ∷ rest)
      → Step n s (record s { handled = s.handled ++ a ∷ []; signal = some rest })

-- After so many steps.
pub data Reach (n : ℕ) : ℕ → State → Type 0 where
  here : Reach n 0 (start n)
  later : {k : ℕ} {s t : State} → Reach n k s → Step n s t → Reach n (suc k) t
