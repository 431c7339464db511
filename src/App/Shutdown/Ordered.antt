-- ===== src/App/Shutdown/Ordered.antt =====
-- What holds of the main thread and of the signal's handler in every state that they reach.
use acppsrv.Prelude.{
  ℕ, ◌≡◌, refl, sym, ap, ◌∙◌, subst, Bool, true, false, ◌||◌, Option, none, some, List, [], ◌∷◌,
  ◌++◌, append_assoc, arith,
}
use acppsrv.App.Shutdown.{
  PoolName, control, main, database, Act, runs, waits, Stop, program, handler, State, start,
  is_over, returns, Step, run_pool, wait_pool, signal_comes, handles, Reach, here, later,
}

-- Whether the main thread has waited for the control pool.
abbrev pub waited_control : List Act → Bool
waited_control [] = false
waited_control (waits control ∷ rest) = true
waited_control (_ ∷ rest) = waited_control rest

abbrev pub Handled : ℕ → List Stop → Option (List Stop) → Type 0
Handled n done none = done ≡ []
Handled n done (some rest) = done ++ rest ≡ handler n

pub record IsOrdered (n : ℕ) (s : State) : Type 0 where
  pub main_thread : s.did ++ s.todo ≡ program n
  pub handler_run : Handled n s.handled s.signal
  pub control_over : waited_control s.did ≡ true → is_over s.signal ≡ true

waited-append :
    (xs : List Act) (a : Act)
    → waited_control (xs ++ a ∷ []) ≡ waited_control xs || waited_control (a ∷ [])
waited-append [] a = refl
waited-append (runs p ∷ xs) a = waited-append xs a
waited-append (waits control ∷ xs) a = refl
waited-append (waits (main i) ∷ xs) a = waited-append xs a
waited-append (waits database ∷ xs) a = waited-append xs a

moved :
    {A : Type 0} (done : List A) (a : A) (rest : List A)
    → (done ++ a ∷ []) ++ rest ≡ done ++ a ∷ rest
moved done a rest = append_assoc done (a ∷ []) rest

apart : {A : Type 0} → false ≡ true → A
apart h = absurd (cc)

wait_over :
    (p : PoolName) (s : State)
    → (waited_control s.did ≡ true → is_over s.signal ≡ true)
    → returns p s ≡ true
    → waited_control (s.did ++ waits p ∷ []) ≡ true
    → is_over s.signal ≡ true
wait_over control s o w h = w
wait_over (main i) s o w h = o (ground (arith, waited-append s.did (waits (main i))))
wait_over database s o w h = o (ground (arith, waited-append s.did (waits database)))

start-IsOrdered : (n : ℕ) → IsOrdered n (start n)
unfolding start
start-IsOrdered n = record { main_thread = refl; handler_run = refl; control_over = λ h. cc }

Step-IsOrdered : {n : ℕ} {s t : State} → Step n s t → IsOrdered n s → IsOrdered n t
Step-IsOrdered {s = s} (run_pool p rest e) o = record {
  main_thread = moved s.did (runs p) rest ∙ ap (λ x. s.did ++ x) (sym e) ∙ o.main_thread;
  handler_run = o.handler_run;
  control_over = λ h. o.control_over (ground (arith, waited-append s.did (runs p)));
}
Step-IsOrdered {s = s} (wait_pool p rest e w) o = record {
  main_thread = moved s.did (waits p) rest ∙ ap (λ x. s.did ++ x) (sym e) ∙ o.main_thread;
  handler_run = o.handler_run;
  control_over = λ h. wait_over p s o.control_over w h;
}
Step-IsOrdered {n} {s = s} (signal_comes e c) o = record {
  main_thread = o.main_thread;
  handler_run = ap (λ d. d ++ handler n) (subst (Handled n s.handled) e o.handler_run);
  control_over = λ h. apart (subst (λ g. is_over g ≡ true) e (o.control_over h));
}
Step-IsOrdered {n} {s = s} (handles a rest e) o = record {
  main_thread = o.main_thread;
  handler_run = moved s.handled a rest ∙ subst (Handled n s.handled) e o.handler_run;
  control_over = λ h. apart (subst (λ g. is_over g ≡ true) e (o.control_over h));
}

pub Reach-IsOrdered : {n k : ℕ} {s : State} → Reach n k s → IsOrdered n s
Reach-IsOrdered {n} here = start-IsOrdered n
Reach-IsOrdered {n} (later {k = k} {s = s} {t = t} r st) =
    Step-IsOrdered {n = n} {s = s} {t = t} st (Reach-IsOrdered {n = n} {k = k} {s = s} r)

pub is_over-eq : (g : Option (List Stop)) → is_over g ≡ true → g ≡ some []
is_over-eq none h = apart h
is_over-eq (some []) h = refl
is_over-eq (some (a ∷ rest)) h = apart h
