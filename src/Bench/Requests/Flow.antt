-- ===== src/Bench/Requests/Flow.antt =====
-- The flow of the requests: how many are under way, and what the counters say.
use acppsrv.Prelude.{
  ℕ, suc, ◌+◌, ◌-◌, ◌%◌, ◌<◌, ◌≤◌, ◌≡◌, refl, ap, ◌∙◌, true, some, List, [], ◌∷◌, get_elem?, length,
  length-set, All, All-set, All-append, All-weaken, arith, Bool-cases, inl, inr, if◌then◌else◌,
}
use acppsrv.Bench.Create.{ulong_mod}
use acppsrv.Bench.Create.Count.{length-without, length_snoc}
use acppsrv.Bench.Requests.{
  Op, Task, Call, is_done, act, State, start, begun, acted, ended, Reach, here, begins, acts, ends,
  throws,
}
use acppsrv.Bench.Requests.Owed.{
  owed_all, owed_kinds, sum, sum-set, sum-without, sum_snoc, All-without, All_at, act-Pays, IsLate,
  act-IsLate,
}

-- After `n` calls that have begun, with so many tasks lost and so many that found the time over, of
-- `size` tasks.
record IsFlowing (time t0 size n lost over : ℕ) (s : State) : Type 0 where
  all : (s.counters.records + sum owed_all s.calls) % ulong_mod ≡ n % ulong_mod
  kinds :
      (s.counters.gets + s.counters.updates + s.counters.inserts + sum owed_kinds s.calls)
        % ulong_mod
      ≡ n % ulong_mod
  under_way : length s.queue + length s.calls + lost + over ≡ size
  started : s.counters.t0 ≡ t0
  calls_late : All (IsLate time t0 s.now) s.calls
  late : 0 < over → time ≤ s.now - t0

begun-IsFlowing :
    {time t0 size n lost over : ℕ} (s : State) (i : ℕ) (task : Task)
    → IsFlowing time t0 size n lost over s
    → get_elem? s.queue i ≡ some task
    → IsFlowing time t0 size (suc n) lost over (begun i task s)
unfolding begun is_done
begun-IsFlowing {time} {t0} s i task v e = record {
  all = omega (arith, v.all, sum_snoc owed_all s.calls (is_done task.kind));
  kinds = omega (arith, v.kinds, sum_snoc owed_kinds s.calls (is_done task.kind));
  under_way = omega (
    arith,
    v.under_way,
    length-without i s.queue task e,
    length_snoc s.calls (is_done task.kind),
  );
  started = v.started;
  calls_late =
      All-append (IsLate time t0 s.now) s.calls (is_done task.kind ∷ []) v.calls_late
        ((λ d. cc), tt);
  late = v.late;
}

acted-IsFlowing :
    {time t0 size n lost over : ℕ} (s : State) (now j : ℕ) (op : Op) (rest : List Op) (r : Call)
    → IsFlowing time t0 size n lost over s
    → s.now ≤ now
    → get_elem? s.calls j ≡ some r
    → r.todo ≡ op ∷ rest
    → IsFlowing time t0 size n lost over (acted time now j op rest r s)
unfolding acted
acted-IsFlowing {time} {t0} s now j op rest r v later e todo =
    let r' = (act time now op rest r s.counters).0 in
    let paid = act-Pays time now op rest r s.counters in
    let weaker = λ (x : Call) (h : IsLate time t0 s.now x) (d : x.done ≡ true).
      let before : time ≤ s.now - t0 = h d in
      let after : time ≤ now - t0 = omega (arith, before, later) in after in
    let calls =
      All-weaken (IsLate time t0 s.now) (IsLate time t0 now) weaker s.calls v.calls_late in
    record {
      all = omega (arith, v.all, paid.all, sum-set owed_all s.calls j r r' e, ap owed_all todo);
      kinds =
          omega
            (arith, v.kinds, paid.kinds, sum-set owed_kinds s.calls j r r' e, ap owed_kinds todo);
      under_way = omega (arith, v.under_way, length-set s.calls j r');
      started = paid.start_time ∙ v.started;
      calls_late = All-set (IsLate time t0 now) s.calls j r' calls (
          act-IsLate time t0 now op rest r s.counters v.started
            (All_at (IsLate time t0 now) s.calls j r calls e));
      late = λ z. omega (arith, v.late z, later);
    }

ended-IsFlowing :
    {time t0 size n lost over : ℕ} (s : State) (j : ℕ) (r : Call) (next : Task)
    → IsFlowing time t0 size n lost over s
    → get_elem? s.calls j ≡ some r
    → r.todo ≡ []
    → IsFlowing time t0 size n lost (if r.done then suc over else over) (ended j r next s)
unfolding ended
ended-IsFlowing {time} {t0} {size} {n} {lost} {over} s j r next v e todo =
    elim (Bool-cases r.done) [
      | inl done ↦
          rw (done, ended)
            (record {
              all = omega (arith, v.all, sum-without owed_all s.calls j r e, ap owed_all todo);
              kinds =
                  omega (arith, v.kinds, sum-without owed_kinds s.calls j r e, ap owed_kinds todo);
              under_way = omega (arith, v.under_way, length-without j s.calls r e);
              started = v.started;
              calls_late = All-without (IsLate time t0 s.now) s.calls j v.calls_late;
              late = λ z. All_at (IsLate time t0 s.now) s.calls j r v.calls_late e done;
            })
      | inr more ↦
          rw (more, ended)
            (record {
              all = omega (arith, v.all, sum-without owed_all s.calls j r e, ap owed_all todo);
              kinds =
                  omega (arith, v.kinds, sum-without owed_kinds s.calls j r e, ap owed_kinds todo);
              under_way =
                  omega
                    (arith, v.under_way, length-without j s.calls r e, length_snoc s.queue next);
              started = v.started;
              calls_late = All-without (IsLate time t0 s.now) s.calls j v.calls_late;
              late = v.late;
            })
    ]

Reach-IsFlowing :
    (time t0 : ℕ) (tasks : List Task) {n lost over : ℕ} {s : State}
    → Reach time (start t0 tasks) n lost over s
    → IsFlowing time t0 (length tasks) n lost over s
unfolding start
Reach-IsFlowing time t0 tasks here = record {
  all = refl;
  kinds = refl;
  under_way = omega arith;
  started = refl;
  calls_late = tt;
  late = λ z. omega arith;
}
Reach-IsFlowing time t0 tasks (begins {t = t} {n = n} {lost = lost} {over = over} i task r e) =
    begun-IsFlowing {time = time} {t0 = t0} {size = length tasks} {n = n} {lost = lost}
      {over = over} t i task (Reach-IsFlowing time t0 tasks {s = t} r) e
Reach-IsFlowing time t0 tasks
      (acts {t = t} {n = n} {lost = lost} {over = over} now j op rest c r later e todo) =
    acted-IsFlowing {time = time} {t0 = t0} {size = length tasks} {n = n} {lost = lost}
      {over = over} t now j op rest c (Reach-IsFlowing time t0 tasks {s = t} r) later e todo
Reach-IsFlowing time t0 tasks (ends {t = t} {n = n} {lost = lost} {over = over} j c next r e todo) =
    ended-IsFlowing {time = time} {t0 = t0} {size = length tasks} {n = n} {lost = lost}
      {over = over} t j c next (Reach-IsFlowing time t0 tasks {s = t} r) e todo
Reach-IsFlowing time t0 tasks (throws {t = t} {n = n} {lost = lost} {over = over} i task r e) =
    let v = Reach-IsFlowing time t0 tasks {n = n} {lost = lost} {over = over} {s = t} r in
    record {
      all = v.all;
      kinds = v.kinds;
      under_way = omega (arith, length-without i t.queue task e, v.under_way);
      started = v.started;
      calls_late = v.calls_late;
      late = v.late;
    }

-- Whatever the order of the accesses of all threads and the outcomes of the database operations, the
-- requests under way, posted or in a call of `is_done`, are those of the start, less the tasks that
-- threw and those that found the time over, which happens only after it is. In a state in which no
-- call is under way, the counter of all requests and the sum of those of the three kinds are the
-- number of the calls, modulo 2^64. Nothing is said of the counters since the last message.
pub Reach-Flow :
    (time t0 : ℕ) (tasks : List Task) {n lost over : ℕ} {s : State}
    → Reach time (start t0 tasks) n lost over s
    → (length s.queue + length s.calls + lost + over ≡ length tasks)
      × (0 < over → time ≤ s.now - t0)
      × (s.calls ≡ []
          → (s.counters.records % ulong_mod ≡ n % ulong_mod)
            × ((s.counters.gets + s.counters.updates + s.counters.inserts) % ulong_mod
                ≡ n % ulong_mod))
Reach-Flow time t0 tasks {s} r =
    let v = Reach-IsFlowing time t0 tasks {s = s} r in
    (
      v.under_way,
      v.late,
      λ e. (
        omega (arith, v.all, ap (sum owed_all) e),
        omega (arith, v.kinds, ap (sum owed_kinds) e),
      ),
    )
