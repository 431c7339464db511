-- ===== src/App/Pool/Threads.antt =====
-- The threads of a pool live as long as its context, and end when it is stopped.
use acppsrv.Prelude.Int.{ℤ, pos, negsuc, ◌≤ℤ◌}
use acppsrv.Prelude.{
  ℕ, zero, suc, ◌+◌, ◌*◌, ◌≤◌, ◌≡◌, ◌≢◌, refl, ap, ◌∙◌, subst, inl, inr, Bool, true, false, Option,
  none, some, List, [], ◌∷◌, get_elem?, length, All, All-weaken, replicate, arith,
}
use acppsrv.Config.{ThreadPool, num_threads}
use acppsrv.Config.Values.{num_threads_lem}
use acppsrv.App.Pool.{
  make_pool, Thread, absent, at_test, in_run, ended, returned, exception, unknown_exception,
  Context, created, Pool, make_configured, run, stop_pool, wait, all_ended, Step, test, runs, Reach,
  here, later, changed,
}
use acppsrv.App.Pool.Soundness.{
  IsSound, Works, IsSound-Works, IsSound-weaken, all_steps_left, all_steps_left-set,
  all_steps_left-bound, length-started, run-started, Reach-IsSound, Reach-length, run-IsSound,
}

module _ (asio : Context) where
  open asio use {S, stopped, stop, runs_keeps, changes_keeps, stop_stops, returned_stopped}

  -- However the handlers end, also by exceptions: until the context is stopped, all the threads that
  -- the pool has started stay in their loops.
  pub run-Works :
      (persistent : Bool) (p q : Pool asio) {r : Pool asio} {n : ℕ}
      → run asio persistent p ≡ some q
      → Reach asio q n r
      → stopped r.ctx ≡ false
      → All Works r.threads × (length r.threads ≡ length p.threads)
  run-Works persistent p q {r} h d open_ =
      let sound = Reach-IsSound asio {p = q} {q = r} d (run-IsSound asio persistent p q h) in
      (
        All-weaken (IsSound false) Works IsSound-Works r.threads
            (subst (λ b. All (IsSound b) r.threads) open_ sound),
        Reach-length asio {p = q} {q = r} d
            ∙ ap length (run-started asio persistent p q h)
            ∙ length-started asio p.threads,
      )

  -- Once the context is stopped, each step of a thread uses up one of those that are left.
  Step-stopped :
      {p q : Pool asio}
      → Step asio p q
      → stopped p.ctx ≡ true
      → (stopped q.ctx ≡ true) × (suc (all_steps_left q.threads) ≡ all_steps_left p.threads)
  Step-stopped {p} (test i h) st =
      (st, rw st (omega (arith, all_steps_left-set p.threads i at_test ended h)))
  Step-stopped {p} (runs i returned t h r) st = (
    runs_keeps p.ctx t returned r st,
    omega (arith, all_steps_left-set p.threads i in_run at_test h),
  )
  Step-stopped {p} (runs i (exception w) t h r) st = (
    runs_keeps p.ctx t (exception w) r st,
    omega (arith, all_steps_left-set p.threads i in_run at_test h),
  )
  Step-stopped {p} (runs i unknown_exception t h r) st = (
    runs_keeps p.ctx t unknown_exception r st,
    omega (arith, all_steps_left-set p.threads i in_run at_test h),
  )

  Reach-stopped :
      {p q : Pool asio} {n : ℕ}
      → Reach asio p n q
      → stopped p.ctx ≡ true
      → (stopped q.ctx ≡ true) × (n + all_steps_left q.threads ≡ all_steps_left p.threads)
  Reach-stopped here st = (st, omega arith)
  Reach-stopped {p} (later {q = q} {r = r} d s) st =
      let (st1, e1) = Reach-stopped {p = p} {q = q} d st in
      let (st2, e2) = Step-stopped {p = q} {q = r} s st1 in (st2, omega arith)
  Reach-stopped {p} (changed {q = q} t d c) st =
      let (st1, e1) = Reach-stopped {p = p} {q = q} d st in (changes_keeps q.ctx t c st1, e1)

  -- A pool that `wait` blocks on has a thread in its loop.
  working :
      (b : Bool) (ts : List Thread)
      → All (IsSound b) ts
      → all_ended ts ≡ false
      → (i : ℕ) × (t : Thread) × (get_elem? ts i ≡ some t) × Works t
  working b [] s h = absurd (cc)
  working b (absent ∷ ts) s h = absurd s.0
  working b (at_test ∷ ts) s h = (0, at_test, refl, inl refl)
  working b (in_run ∷ ts) s h = (0, in_run, refl, inr refl)
  working b (ended ∷ ts) s h = let (i, t, e, w) = working b ts s.1 h in (suc i, t, e, w)

  wait_blocks : (p : Pool asio) → wait asio p ≡ none → all_ended p.threads ≡ false
  unfolding wait
  wait_blocks p h = ground arith

  -- A thread in the loop of a stopped pool has a step: it leaves the loop, or its call of `run` ends.
  working-Step :
      (p : Pool asio) (i : ℕ) (t : Thread)
      → stopped p.ctx ≡ true
      → get_elem? p.threads i ≡ some t
      → Works t
      → (q : Pool asio) × Step asio p q
  working-Step p i t st h (inl e) = (_, test i (h ∙ ap some e))
  working-Step p i t st h (inr e) =
      let (end_, s, r) = asio.stopped_runs p.ctx st in (_, runs i end_ s (h ∙ ap some e) r)

  -- After `stop` the threads of a pool that was started make at most two steps for each thread in all,
  -- and as long as `wait` blocks one of them can make a step: a call of `run` on the stopped context
  -- ends, if the handlers that had begun do. So all threads end, and then `wait` returns.
  pub stop_pool-wait :
      (persistent : Bool) (p q : Pool asio) {r u : Pool asio} {n m : ℕ}
      → run asio persistent p ≡ some q
      → Reach asio q n r
      → Reach asio (stop_pool asio r) m u
      → (m + all_steps_left u.threads ≤ 2 * length p.threads)
        × (wait asio u ≡ none → (v : Pool asio) × Step asio u v)
  unfolding stop_pool
  stop_pool-wait persistent p q {r} {u} {n} {m} h d d' =
      let stopped_r = record r { ctx = stop r.ctx } in
      let (st, left) = Reach-stopped {p = stopped_r} {q = u} d' (stop_stops r.ctx) in
      let size : length r.threads ≡ length p.threads =
        Reach-length asio {p = q} {q = r} d
        ∙ ap length (run-started asio persistent p q h)
        ∙ length-started asio p.threads in
      let sound = Reach-IsSound asio {p = q} {q = r} d (run-IsSound asio persistent p q h) in
      let sound_stopped =
        All-weaken (IsSound (stopped r.ctx)) (IsSound (stopped (stop r.ctx)))
          (IsSound-weaken (stopped r.ctx) (stopped (stop r.ctx)) (λ z. stop_stops r.ctx)) r.threads
          sound in
      (
        omega (arith, all_steps_left-bound r.threads, size),
        λ b.
            let (i, t, e, w) =
              working (stopped u.ctx) u.threads
                (Reach-IsSound asio {p = stopped_r} {q = u} d' sound_stopped) (wait_blocks u b) in
            working-Step u i t st e w,
      )

  -- The pools that a configuration asks for can always be made, with at least one thread.
  pub make_configured-created :
      (s : S) (hardware : ℕ) (cfg : Option ThreadPool)
      → (p : Pool asio) × (make_configured asio s hardware cfg ≡ created p) × (p.threads ≢ [])
  unfolding make_configured make_pool
  make_configured-created s hardware cfg =
      go (num_threads hardware cfg) (num_threads_lem hardware cfg).0
    where
      go :
          (k : ℤ)
          → pos 1 ≤ℤ k
          → (p : Pool asio) × (make_pool asio s k ≡ created p) × (p.threads ≢ [])
      go (pos zero) h = absurd (omega arith)
      go (pos (suc n)) h = (record { ctx = s; threads = replicate (suc n) absent }, refl, λ e. cc)
      go (negsuc n) h = absurd (omega arith)
