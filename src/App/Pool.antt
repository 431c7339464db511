-- ===== src/App/Pool.antt =====
-- `thread_pool` of src/worker.hpp and src/worker.cpp. The io_context is an interface: its state, and
-- what the documentation of Boost.Asio says of `stopped`. A call of `run` of the context that ends,
-- by returning or by an exception of a handler, is one step.
pub mod Soundness
pub mod Threads
use acppsrv.Prelude.Int.{ℤ, pos, negsuc}
use acppsrv.Prelude.{
  ℕ, zero, suc, ◌≡◌, String, Bool, true, false, ◌&&◌, Option, none, some, List, [], ◌∷◌, get_elem?,
  set, replicate, if◌then◌else◌,
}
use acppsrv.Config.{ThreadPool, num_threads}

-- A `std::thread` that is not joinable, or where its loop is: before the test of `stopped`, in `run`,
-- or behind the loop.
pub data Thread : Type 0 where
  absent : Thread
  at_test : Thread
  in_run : Thread
  ended : Thread

-- How a call of `run` ends.
pub data RunEnd : Type 0 where
  returned : RunEnd
  exception : String → RunEnd
  unknown_exception : RunEnd

pub record Context : Type 1 where
  pub S : Type 0
  pub stopped : S → Bool
  pub stop : S → S
  -- The reset of the work guard.
  pub release : S → S
  -- A call of `run` ends like this, between these states.
  pub Runs : S → RunEnd → S → Type 0
  -- Anything else that happens to the context.
  pub Changes : S → S → Type 0
  pub stop_stops : (s : S) → stopped (stop s) ≡ true
  pub release_keeps : (s : S) → stopped s ≡ true → stopped (release s) ≡ true
  pub runs_keeps : (s t : S) (e : RunEnd) → Runs s e t → stopped s ≡ true → stopped t ≡ true
  pub changes_keeps : (s t : S) → Changes s t → stopped s ≡ true → stopped t ≡ true
  -- A call of `run` on a stopped context ends: what it still runs is a handler that had begun.
  pub stopped_runs : (s : S) → stopped s ≡ true → (e : RunEnd) × (t : S) × Runs s e t
  -- `run` returns when the context is stopped, or stops it for want of work.
  pub returned_stopped : (s t : S) → Runs s returned t → stopped t ≡ true

-- What the constructor with a number of threads does.
pub data Created (A : Type 0) : Type 0 where
  created : A → Created A
  length_error : Created A
  asserts : Created A

abbrev pub joinable : Thread → Bool
joinable absent = false
joinable _ = true

abbrev pub front_joinable : List Thread → Bool
front_joinable [] = false
front_joinable (t ∷ ts) = joinable t

abbrev pub started : List Thread → List Thread
started [] = []
started (t ∷ ts) = at_test ∷ started ts

abbrev pub joined : List Thread → List Thread
joined [] = []
joined (t ∷ ts) = absent ∷ joined ts

abbrev pub is_ended : Thread → Bool
is_ended ended = true
is_ended _ = false

abbrev pub all_ended : List Thread → Bool
all_ended [] = true
all_ended (t ∷ ts) = is_ended t && all_ended ts

-- The loop of a thread: the test of `stopped`, and what follows a call of `run`. The handlers of
-- exceptions only log, so the loop goes on however `run` ends.
abbrev pub tested : Bool → Thread
tested true = ended
tested false = in_run

abbrev pub after_run : RunEnd → Thread
after_run returned = at_test
after_run (exception what) = at_test
after_run unknown_exception = at_test

module _ (asio : Context) where
  open asio use {S, stopped, stop, release, Runs, Changes}

  pub record Pool : Type 0 where
    pub ctx : S
    pub threads : List Thread

  -- A negative number is a vector that is too long.
  unfoldable pub make_pool : S → ℤ → Created Pool
  make_pool s (pos zero) = asserts
  make_pool s (pos (suc n)) = created (record { ctx = s; threads = replicate (suc n) absent })
  make_pool s (negsuc n) = length_error

  -- With the configuration of the pool, and the value of `hardware_concurrency`.
  unfoldable pub make_configured : S → ℕ → Option ThreadPool → Created Pool
  unfolding make_pool
  make_configured s hardware cfg = make_pool s (num_threads hardware cfg)

  -- thread_pool::run; `none` is the failed assertion.
  unfoldable pub run : Bool → Pool → Option Pool
  run persistent p =
      if front_joinable p.threads
      then none
      else some (record {
        ctx = if persistent then p.ctx else release p.ctx;
        threads = started p.threads;
      })

  unfoldable pub stop_pool : Pool → Pool
  stop_pool p = record p { ctx = stop p.ctx }

  -- thread_pool::wait; `none` while it blocks.
  unfoldable pub wait : Pool → Option Pool
  wait p =
      if front_joinable p.threads
      then if all_ended p.threads then some (record p { threads = joined p.threads }) else none
      else some p

  pub data Step (p : Pool) : Pool → Type 0 where
    test :
        (i : ℕ)
        → get_elem? p.threads i ≡ some at_test
        → Step p (record p { threads = set p.threads i (tested (stopped p.ctx)) })
    runs :
        (i : ℕ) (e : RunEnd) (t : S)
        → get_elem? p.threads i ≡ some in_run
        → Runs p.ctx e t
        → Step p (record { ctx = t; threads = set p.threads i (after_run e) })

  -- After so many steps of threads, with other changes of the context between them.
  pub data Reach (p : Pool) : ℕ → Pool → Type 0 where
    here : Reach p 0 p
    later : {n : ℕ} {q r : Pool} → Reach p n q → Step q r → Reach p (suc n) r
    changed :
        {n : ℕ} {q : Pool} (t : S)
        → Reach p n q
        → Changes q.ctx t
        → Reach p n (record q { ctx = t })
