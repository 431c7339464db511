-- ===== src/Bench/Requests/Examples.antt =====
-- Requests of benchmark/benchmark.cpp whose calls of `is_done` interleave.
use acppsrv.Prelude.{◌+◌, ◌-◌, ◌%◌, ◌<◌, ◌≤◌, ◌≡◌, refl, true, false, none, some, [], ◌∷◌, arith}
use acppsrv.Bench.Create.{without, ulong_mod}
use acppsrv.Bench.Requests.{
  get, adds, adds1, reads_clock, takes_time, puts_time, Task, Call, is_done, after_exchange, act,
  Counters, State, start, begun, acted, ended, Reach, here, begins, acts, ends,
}
use acppsrv.Bench.Requests.Flow.{Reach-Flow}

abbrev reading : Task
reading = record { kind = get; key = record { partition = 0; hash = 7 } }

abbrev counters : Counters
counters = record {
  t0 = 10;
  tt = some 10;
  records = 1;
  records1 = 1;
  gets = 1;
  gets1 = 1;
  updates = 0;
  updates1 = 0;
  inserts = 0;
  inserts1 = 0;
}

abbrev late : State
late = record { now = 20; counters = counters; queue = []; calls = [] }

abbrev finished : Call
finished = record { todo = []; tnow = 20; done = true }

-- One request, which finds the time over.
one_over : Reach 5 (start 10 (reading ∷ [])) 1 0 1 late
unfolding start is_done begun acted act ended after_exchange without
one_over =
    ends 0 finished reading
      (acts 20 0 (puts_time 10) [] (record finished { todo = puts_time 10 ∷ [] })
        (acts 20 0 takes_time [] (record finished { todo = takes_time ∷ [] })
          (acts 20 0 reads_clock (takes_time ∷ [])
            (record { todo = reads_clock ∷ takes_time ∷ []; tnow = 0; done = false })
            (acts 12 0 (adds1 (some get)) (reads_clock ∷ takes_time ∷ [])
              (record (is_done get) { todo = adds1 (some get) ∷ reads_clock ∷ takes_time ∷ [] })
              (acts 12 0 (adds (some get)) (adds1 (some get) ∷ reads_clock ∷ takes_time ∷ [])
                (record (is_done get) {
                  todo = adds (some get) ∷ adds1 (some get) ∷ reads_clock ∷ takes_time ∷ [];
                })
                (acts 12 0 (adds1 none)
                  (adds (some get) ∷ adds1 (some get) ∷ reads_clock ∷ takes_time ∷ [])
                  (record (is_done get) {
                    todo =
                        adds1 none
                        ∷ adds (some get)
                        ∷ adds1 (some get)
                        ∷ reads_clock
                        ∷ takes_time
                        ∷ [];
                  })
                  (acts 12 0 (adds none)
                    (adds1 none
                      ∷ adds (some get)
                      ∷ adds1 (some get)
                      ∷ reads_clock
                      ∷ takes_time
                      ∷ [])
                    (is_done get) (begins 0 reading here refl) (omega arith) refl refl)
                  (omega arith) refl refl)
                (omega arith) refl refl)
              (omega arith) refl refl)
            (omega arith) refl refl)
          (omega arith) refl refl)
        (omega arith) refl refl)
      refl refl

Reach-Flow_example :
    (0 + 0 + 0 + 1 ≡ 1)
    × (0 < 1 → 5 ≤ 20 - 10)
    × (late.calls ≡ []
        → (1 % ulong_mod ≡ 1 % ulong_mod) × ((1 + 0 + 0) % ulong_mod ≡ 1 % ulong_mod))
Reach-Flow_example =
    Reach-Flow 5 10 (reading ∷ []) {n = 1} {lost = 0} {over = 1} {s = late} one_over
