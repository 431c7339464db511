-- ===== src/App/Shutdown/Order.antt =====
-- The order in which the server stops, and that it does.
use acppsrv.Prelude.{
  ℕ, zero, suc, ◌+◌, ◌*◌, ◌<◌, ◌≤◌, ◌≡◌, ◌≢◌, refl, sym, ap, ◌∙◌, subst, inl, inr, true, Option,
  none, some, List, [], ◌∷◌, ◌++◌, append-nil, length, length-append, nat_beq, arith, Bool-cases,
  All, All-append,
}
use acppsrv.App.Shutdown.{
  PoolName, control, main, database, Act, runs, waits, Stop, stops, interrupts, each, program,
  handler, State, start, stops_main, stops_database, returns, control_runs, Step, run_pool,
  wait_pool, signal_comes, handles, Reach, here, later,
}
use acppsrv.App.Shutdown.Ordered.{Handled, IsOrdered, Reach-IsOrdered, is_over-eq}
use acppsrv.App.Shutdown.Stopped.{
  has_waited, HasStopped, HasWaited, control_first, handler-HasStopped, program-HasWaited,
}

-- Whenever `application::run` has waited for a pool, the signal's handler has already stopped each
-- main pool in order, then the database pool, and then interrupted the queries, each once; and when
-- `application::run` is through, it has waited for the control pool, for each main pool and for the
-- database pool.
pub Reach-handled :
    {n k : ℕ} {s : State}
    → Reach n k s
    → ((p : PoolName) → has_waited p s.did ≡ true → HasStopped n s.handled)
      × (s.todo ≡ [] → HasWaited n s.did)
Reach-handled {n} {k} {s} r =
    let o = Reach-IsOrdered {n = n} {k = k} {s = s} r in
    (
      λ p h.
          let over =
            is_over-eq s.signal (o.control_over (control_first n p s.did s.todo o.main_thread h)) in
          subst (HasStopped n)
            (sym (sym (append-nil s.handled) ∙ subst (Handled n s.handled) over o.handler_run))
            (handler-HasStopped n),
      λ e.
          subst (HasWaited n)
            (sym (sym (append-nil s.did) ∙ ap (λ x. s.did ++ x) (sym e) ∙ o.main_thread))
            (program-HasWaited n),
    )

abbrev IsBelow : ℕ → Act → Type 0
IsBelow n (runs p) = Unit
IsBelow n (waits control) = Unit
IsBelow n (waits (main i)) = i < n
IsBelow n (waits database) = Unit

runs-IsBelow : (n j m : ℕ) → All (IsBelow n) (each (λ i. runs (main i)) j m)
runs-IsBelow n j zero = tt
runs-IsBelow n j (suc m) = (tt, runs-IsBelow n (suc j) m)

waits-IsBelow : (n j m : ℕ) → j + m ≤ n → All (IsBelow n) (each (λ i. waits (main i)) j m)
waits-IsBelow n j zero h = tt
waits-IsBelow n j (suc m) h = (omega arith, waits-IsBelow n (suc j) m (omega arith))

program-IsBelow : (n : ℕ) → All (IsBelow n) (program n)
program-IsBelow n = (
  tt,
  All-append (IsBelow n) (each (λ i. runs (main i)) 0 n) _ (runs-IsBelow n 0 n) (
    tt,
    (
      tt,
      All-append (IsBelow n) (each (λ i. waits (main i)) 0 n) _ (waits-IsBelow n 0 n (omega arith))
          (tt, tt),
    ),
  ),
)

All_middle :
    {A : Type 0} (P : A → Type 0) (xs : List A) (y : A) (ys : List A) → All P (xs ++ y ∷ ys) → P y
All_middle P [] y ys h = h.0
All_middle P (x ∷ xs) y ys h = All_middle P xs y ys h.1

control_ran :
    (did xs rest : List Act) (p : PoolName)
    → did ++ waits p ∷ rest ≡ runs control ∷ xs
    → control_runs did ≡ true
control_ran [] xs rest p h = cc
control_ran (a ∷ did) xs rest p h =
    let same : a ≡ runs control = cc in subst (λ x. control_runs (x ∷ did) ≡ true) (sym same) refl

stops_main-each :
    (i j m : ℕ) (xs : List Stop)
    → j ≤ i
    → i < j + m
    → stops_main i (each (λ i'. stops (main i')) j m ++ xs) ≡ true
stops_main-each i j zero xs h k = absurd (omega arith)
stops_main-each i j (suc m) xs h k = elim (Bool-cases (nat_beq j i)) [
  | inl here_ ↦ rw here_ refl
  | inr next ↦ rw next (stops_main-each i (suc j) m xs (ground arith) (omega arith))
]

stops_database-each :
    (j m : ℕ) (xs : List Stop)
    → stops_database (each (λ i. stops (main i)) j m ++ xs) ≡ stops_database xs
stops_database-each j zero xs = refl
stops_database-each j (suc m) xs = stops_database-each (suc j) m xs

returns_over :
    (n : ℕ) (p : PoolName) (s : State)
    → IsBelow n (waits p)
    → s.signal ≡ some []
    → s.handled ≡ handler n
    → returns p s ≡ true
returns_over n control s b e h = rw e refl
returns_over n (main i) s b e h = rw h (stops_main-each i 0 n _ (omega arith) (omega arith))
returns_over n database s b e h = rw h (stops_database-each 0 n _)

progress :
    (n : ℕ) (s : State) (todo : List Act) (signal : Option (List Stop))
    → s.todo ≡ todo
    → s.signal ≡ signal
    → todo ≢ []
    → IsOrdered n s
    → (t : State) × Step n s t
progress n s [] signal e g h o = absurd (h refl)
progress n s (runs p ∷ rest) signal e g h o = (_, run_pool p rest e)
progress n s (waits p ∷ rest) none e g h o =
    (_, signal_comes g (control_ran s.did _ rest p (ap (λ x. s.did ++ x) (sym e) ∙ o.main_thread)))
progress n s (waits p ∷ rest) (some (a ∷ as_)) e g h o = (_, handles a as_ g)
progress n s (waits p ∷ rest) (some []) e g h o =
    let below = All_middle (IsBelow n) s.did (waits p) rest (
      subst (All (IsBelow n)) (sym (ap (λ x. s.did ++ x) (sym e) ∙ o.main_thread))
        (program-IsBelow n)) in
    let all_handled = sym (append-nil s.handled) ∙ subst (Handled n s.handled) g o.handler_run in
    (_, wait_pool p rest e (returns_over n p s below g all_handled))

-- The steps that are left of the handler; the signal is one.
abbrev left : ℕ → Option (List Stop) → ℕ
left n none = suc (length (handler n))
left n (some rest) = length rest

Step-left :
    {n : ℕ} {s t : State}
    → Step n s t
    → suc (length t.todo + left n t.signal) ≡ length s.todo + left n s.signal
Step-left {n} {s} (run_pool p rest e) = omega (arith, ap length e)
Step-left {n} {s} (wait_pool p rest e w) = omega (arith, ap length e)
Step-left {n} {s} (signal_comes e c) = omega (arith, ap (left n) e)
Step-left {n} {s} (handles a rest e) = omega (arith, ap (left n) e)

Reach-left :
    {n k : ℕ} {s : State}
    → Reach n k s
    → k + (length s.todo + left n s.signal) ≡ length (program n) + suc (length (handler n))
unfolding start
Reach-left {n} here = omega arith
Reach-left {n} (later {k = k} {s = s} {t = t} r st) =
    omega (arith, Step-left {n = n} {s = s} {t = t} st, Reach-left {n = n} {k = k} {s = s} r)

length-each : {A : Type 0} (f : ℕ → A) (j m : ℕ) → length (each f j m) ≡ m
length-each f j zero = refl
length-each f j (suc m) = ap suc (length-each f (suc j) m)

length-program : (n : ℕ) → length (program n) ≡ 2 * n + 4
length-program n = omega (
  arith,
  length-append (each (λ i. runs (main i)) 0 n)
      (runs database ∷ waits control ∷ (each (λ i. waits (main i)) 0 n ++ waits database ∷ [])),
  length-append (each (λ i. waits (main i)) 0 n) (waits database ∷ []),
  length-each (λ i. runs (main i)) 0 n,
  length-each (λ i. waits (main i)) 0 n,
)

length-handler : (n : ℕ) → length (handler n) ≡ n + 2
length-handler n = omega (
  arith,
  length-append (each (λ i. stops (main i)) 0 n) (stops database ∷ interrupts ∷ []),
  length-each (λ i. stops (main i)) 0 n,
)

-- The main thread and the signal handler make at most 3 n + 7 steps with `n` main pools, the arrival
-- of the signal included, and in every state before the main thread is through one of them can make
-- a step or the signal can come: nothing waits for ever once it has come.
pub Reach-ends :
    {n k : ℕ} {s : State} → Reach n k s → (k ≤ 3 * n + 7) × (s.todo ≢ [] → (t : State) × Step n s t)
Reach-ends {n} {k} {s} r = (
  omega (arith, Reach-left {n = n} {k = k} {s = s} r, length-program n, length-handler n),
  λ h. progress n s s.todo s.signal refl refl h (Reach-IsOrdered {n = n} {k = k} {s = s} r),
)
