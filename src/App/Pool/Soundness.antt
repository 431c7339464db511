-- ===== src/App/Pool/Soundness.antt =====
-- The places at which the threads of a pool can be, and the steps that they have left.
use acppsrv.Prelude.{
  ℕ, zero, suc, ◌+◌, ◌*◌, ◌≤◌, ◌≡◌, refl, sym, ap, ◌∙◌, subst, ◌⊎◌, inl, inr, Bool, true, false,
  none, some, List, [], ◌∷◌, get_elem?, set, length, All, All-set, All-weaken, length-set, arith,
  if◌then◌else◌,
}
use acppsrv.App.Pool.{
  Thread, absent, at_test, in_run, ended, RunEnd, returned, exception, unknown_exception, Context,
  Pool, run, started, front_joinable, tested, after_run, Step, test, runs, Reach, here, later,
  changed,
}

-- A thread that was started has ended only if the context is stopped.
abbrev pub IsSound : Bool → Thread → Type 0
IsSound b absent = ⊥
IsSound b at_test = Unit
IsSound b in_run = Unit
IsSound b ended = b ≡ true

abbrev pub Works : Thread → Type 0
Works t = (t ≡ at_test) ⊎ (t ≡ in_run)

pub IsSound-Works : (t : Thread) → IsSound false t → Works t
IsSound-Works absent h = absurd h
IsSound-Works at_test h = inl refl
IsSound-Works in_run h = inr refl
IsSound-Works ended h = cc

pub IsSound-weaken : (b c : Bool) → (b ≡ true → c ≡ true) → (t : Thread) → IsSound b t → IsSound c t
IsSound-weaken b c f absent h = h
IsSound-weaken b c f at_test h = tt
IsSound-weaken b c f in_run h = tt
IsSound-weaken b c f ended h = f h

tested-IsSound : (b : Bool) → IsSound b (tested b)
tested-IsSound true = refl
tested-IsSound false = tt

after_run-IsSound : (b : Bool) (e : RunEnd) → IsSound b (after_run e)
after_run-IsSound b returned = tt
after_run-IsSound b (exception what) = tt
after_run-IsSound b unknown_exception = tt

-- The steps that a thread can still make once the context is stopped.
abbrev pub steps_left : Thread → ℕ
steps_left absent = 0
steps_left at_test = 1
steps_left in_run = 2
steps_left ended = 0

abbrev pub all_steps_left : List Thread → ℕ
all_steps_left [] = 0
all_steps_left (t ∷ ts) = steps_left t + all_steps_left ts

pub all_steps_left-set :
    (ts : List Thread) (i : ℕ) (a b : Thread)
    → get_elem? ts i ≡ some a
    → all_steps_left (set ts i b) + steps_left a ≡ all_steps_left ts + steps_left b
all_steps_left-set [] i a b h = cc
all_steps_left-set (t ∷ ts) zero a b h = let same : t ≡ a = cc in omega (arith, ap steps_left same)
all_steps_left-set (t ∷ ts) (suc i) a b h = omega (arith, all_steps_left-set ts i a b h)

pub all_steps_left-bound : (ts : List Thread) → all_steps_left ts ≤ 2 * length ts
all_steps_left-bound [] = omega arith
all_steps_left-bound (absent ∷ ts) = omega (arith, all_steps_left-bound ts)
all_steps_left-bound (at_test ∷ ts) = omega (arith, all_steps_left-bound ts)
all_steps_left-bound (in_run ∷ ts) = omega (arith, all_steps_left-bound ts)
all_steps_left-bound (ended ∷ ts) = omega (arith, all_steps_left-bound ts)

module _ (asio : Context) where
  open asio use {S, stopped, stop, runs_keeps, changes_keeps, stop_stops, returned_stopped}

  abbrev pub IsSoundPool : Pool asio → Type 0
  IsSoundPool p = All (IsSound (stopped p.ctx)) p.threads

  started-Works : (b : Bool) (ts : List Thread) → All (IsSound b) (started ts)
  started-Works b [] = tt
  started-Works b (t ∷ ts) = (tt, started-Works b ts)

  pub length-started : (ts : List Thread) → length (started ts) ≡ length ts
  length-started [] = refl
  length-started (t ∷ ts) = ap suc (length-started ts)

  some-injective : {A : Type 0} {a b : A} → some a ≡ some b → a ≡ b
  some-injective h = cc

  pub run-started :
      (persistent : Bool) (p q : Pool asio)
      → run asio persistent p ≡ some q
      → q.threads ≡ started p.threads
  unfolding run
  run-started persistent p q h = go (front_joinable p.threads) h
    where
      go :
          (b : Bool)
          → (if b
              then none
              else some (record {
                ctx = if persistent then p.ctx else asio.release p.ctx;
                threads = started p.threads;
              }))
            ≡ some q
          → q.threads ≡ started p.threads
      go true e = cc
      go false e = sym (ap (λ r. r.threads) (some-injective e))

  Step-IsSound : {p q : Pool asio} → Step asio p q → IsSoundPool p → IsSoundPool q
  Step-IsSound {p} (test i h) s =
      All-set (IsSound (stopped p.ctx)) p.threads i (tested (stopped p.ctx)) s
        (tested-IsSound (stopped p.ctx))
  Step-IsSound {p} (runs i e t h r) s =
      All-set (IsSound (stopped t)) p.threads i (after_run e)
        (All-weaken (IsSound (stopped p.ctx)) (IsSound (stopped t))
          (IsSound-weaken (stopped p.ctx) (stopped t) (runs_keeps p.ctx t e r)) p.threads s)
        (after_run-IsSound (stopped t) e)

  pub Reach-IsSound : {p q : Pool asio} {n : ℕ} → Reach asio p n q → IsSoundPool p → IsSoundPool q
  Reach-IsSound here s = s
  Reach-IsSound {p} (later {q = q} {r = r} d st) s =
      Step-IsSound {p = q} {q = r} st (Reach-IsSound {p = p} {q = q} d s)
  Reach-IsSound {p} (changed {q = q} t d c) s =
      All-weaken (IsSound (stopped q.ctx)) (IsSound (stopped t))
        (IsSound-weaken (stopped q.ctx) (stopped t) (changes_keeps q.ctx t c)) q.threads
        (Reach-IsSound {p = p} {q = q} d s)

  Step-length : {p q : Pool asio} → Step asio p q → length q.threads ≡ length p.threads
  Step-length {p} (test i h) = length-set p.threads i (tested (stopped p.ctx))
  Step-length {p} (runs i e t h r) = length-set p.threads i (after_run e)

  pub Reach-length :
      {p q : Pool asio} {n : ℕ} → Reach asio p n q → length q.threads ≡ length p.threads
  Reach-length here = refl
  Reach-length {p} (later {q = q} {r = r} d st) =
      Step-length {p = q} {q = r} st ∙ Reach-length {p = p} {q = q} d
  Reach-length {p} (changed {q = q} t d c) = Reach-length {p = p} {q = q} d

  pub run-IsSound :
      (persistent : Bool) (p q : Pool asio) → run asio persistent p ≡ some q → IsSoundPool q
  run-IsSound persistent p q h =
      subst (All (IsSound (stopped q.ctx))) (sym (run-started persistent p q h))
        (started-Works (stopped q.ctx) p.threads)
