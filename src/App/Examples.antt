-- ===== src/App/Examples.antt =====
-- Pools with a context that only knows whether it is stopped, and a whole stop of the server.
use acppsrv.Prelude.{◌+◌, ◌≤◌, ◌≡◌, refl, Bool, true, false, some, [], ◌∷◌, length, All}
use acppsrv.App.Pool.{
  absent, at_test, in_run, returned, exception, Context, Pool, run, stop_pool, test, runs, Reach,
  here, later,
}
use acppsrv.App.Pool.Soundness.{Works, all_steps_left}
use acppsrv.App.Pool.Threads.{run-Works, stop_pool-wait}
use acppsrv.App.Shutdown
use acppsrv.App.Shutdown.{
  PoolName, State, start, handler, program, run_pool, wait_pool, signal_comes, handles, control,
  main, database, stops, interrupts,
}
use acppsrv.App.Shutdown.Order.{Reach-handled, Reach-ends}
use acppsrv.App.Shutdown.Stopped.{has_waited, HasStopped, HasWaited}

abbrev pub bit : Context
bit = record {
  S = Bool;
  stopped = λ s. s;
  stop = λ s. true;
  release = λ s. s;
  Runs = λ s e t. (s ≡ true → t ≡ true) × (e ≡ returned → t ≡ true);
  Changes = λ s t. s ≡ true → t ≡ true;
  stop_stops = λ s. refl;
  release_keeps = λ s h. h;
  runs_keeps = λ s t e h. h.0;
  changes_keeps = λ s t h. h;
  stopped_runs = λ s h. (returned, true, (λ e. refl, λ e. refl));
  returned_stopped = λ s t h. h.1 refl;
}

abbrev idle : Pool bit
idle = record { ctx = false; threads = absent ∷ absent ∷ [] }

abbrev working : Pool bit
working = record { ctx = false; threads = at_test ∷ at_test ∷ [] }

-- The first thread enters `run`, and a handler throws.
one_threw : Reach bit working 2 working
one_threw =
    later {q = record { ctx = false; threads = in_run ∷ at_test ∷ [] }}
      (later {q = working} here (test 0 refl))
      (runs 0 (exception "commit failed") false refl (λ h. h, λ h. cc))

run-Works_example :
    All Works (at_test ∷ at_test ∷ [])
    × (length (at_test ∷ at_test ∷ []) ≡ length (absent ∷ absent ∷ []))
unfolding run
run-Works_example = run-Works bit true idle working {r = working} {n = 2} refl one_threw refl

stop_pool-wait_example : 0 + all_steps_left (at_test ∷ at_test ∷ []) ≤ 4
unfolding run stop_pool
stop_pool-wait_example =
    (stop_pool-wait bit true idle working {r = working} {u = stop_pool bit working} {n = 2} {m = 0}
      refl one_threw here).0

abbrev stopped_server : State
stopped_server = record { did = program 1; todo = []; handled = handler 1; signal = some [] }

stop_of_server : Shutdown.Reach 1 10 stopped_server
unfolding start
stop_of_server =
    Shutdown.later
      (Shutdown.later
        (Shutdown.later
          (Shutdown.later
            (Shutdown.later
              (Shutdown.later
                (Shutdown.later
                  (Shutdown.later
                    (Shutdown.later (Shutdown.later Shutdown.here (run_pool control _ refl))
                      (signal_comes refl refl))
                    (run_pool (main 0) _ refl))
                  (handles (stops (main 0)) _ refl))
                (run_pool database _ refl))
              (handles (stops database) _ refl))
            (handles interrupts _ refl))
          (wait_pool control _ refl refl))
        (wait_pool (main 0) _ refl refl))
      (wait_pool database _ refl refl)

Reach-handled_example :
    ((p : PoolName) → has_waited p stopped_server.did ≡ true → HasStopped 1 stopped_server.handled)
    × (stopped_server.todo ≡ [] → HasWaited 1 stopped_server.did)
Reach-handled_example = Reach-handled {n = 1} {k = 10} {s = stopped_server} stop_of_server

Reach-ends_example : (t : State) × Shutdown.Step 1 (start 1) t
unfolding start
Reach-ends_example = (Reach-ends {n = 1} {k = 0} {s = start 1} Shutdown.here).1 (λ h. cc)
