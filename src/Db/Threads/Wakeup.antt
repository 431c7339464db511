-- ===== src/Db/Threads/Wakeup.antt =====
-- The mutex and the flag of a `db_sync_t`: at most one thread is under the mutex, and a set flag that
-- a thread waits for is going to be looked at.
use acppsrv.Prelude.{
  ℕ, ◌≤◌, ◌<◌, ◌≡◌, refl, ap, Bool, true, false, none, some, get_elem?, set, arith,
}
use acppsrv.Sqlite.{Driver, next_row, start}
use acppsrv.Db.Threads.{
  Pc, woken, timed_out, restarting, over, with_lock, tested, blocked, is_blocked, Thread, State,
  Step, begins, calls_next, restarts, locks, tests, gives_up, signals, notifies, wakes, times_out,
  elsewhere, Reach, here, next,
}
use acppsrv.Db.Threads.Counts.{
  is_inside, is_awake, as_number, at_most, owners, at_most_one, count, count-set, count_none,
}
use acppsrv.Db.Threads.Passive.{
  IsSound, passive_step, after_call-IsPassive, after_start-IsPassive, pc-IsPassive,
}

tested_outside : (b : Bool) → is_inside (tested b) ≡ false
tested_outside true = refl
tested_outside false = refl

module _ (drv : Driver) where
  open drv use {S}

  -- What locking the mutex does to the counts.
  with_lock_lem :
      (p p' : Pc)
      → with_lock p ≡ some p'
      → (is_inside p ≡ false)
        × (is_inside p' ≡ true)
        × (is_blocked p' ≡ false)
        × (is_awake p ≡ true → is_awake p' ≡ true)
  with_lock_lem p p' h = ground arith

  -- A thread that leaves the mutex leaves nobody under it.
  leaves_mutex :
      (s : State drv) (i : ℕ) (t t' : Thread drv)
      → get_elem? s.threads i ≡ some t
      → is_inside t.pc ≡ true
      → is_inside t'.pc ≡ false
      → s.owner ≡ some i
      → IsSound drv s
      → count drv is_inside (set s.threads i t') ≡ 0
  leaves_mutex s i t t' h inside outside own sound = omega (
    arith,
    count-set drv is_inside s.threads i t t' h,
    ap as_number inside,
    ap as_number outside,
    ap owners own,
    sound.exclusive,
  )

  -- A waiting thread whose wait ends is awake, and not under the mutex.
  wait_ends :
      (s : State drv) (i : ℕ) (t : Thread drv) (pc' : Pc)
      → get_elem? s.threads i ≡ some t
      → t.pc ≡ blocked
      → is_inside pc' ≡ false
      → is_awake pc' ≡ true
      → IsSound drv s
      → IsSound drv (record s { threads = set s.threads i (record t { pc = pc' }) })
  wait_ends s i t pc' h e outside awake sound =
      let t' = record t { pc = pc' } in
      record {
        exclusive = omega (
          arith,
          count-set drv is_inside s.threads i t t' h,
          ap (λ p. as_number (is_inside p)) e,
          ap as_number outside,
          sound.exclusive,
        );
        not_lost = λ f w. omega (
          arith,
          count-set drv is_awake s.threads i t t' h,
          ap (λ p. as_number (is_awake p)) e,
          ap as_number awake,
        );
      }

  Step-IsSound : {s s' : State drv} → Step drv s s' → IsSound drv s → IsSound drv s'
  Step-IsSound {s} (begins i t o q wait retries h e) sound =
      passive_step drv s s.lib i t _ h (pc-IsPassive drv e (refl, refl, refl)) (refl, refl, refl)
        sound
  Step-IsSound {s} (calls_next i t t' l h e c) sound =
      passive_step drv s l i t t' h (pc-IsPassive drv e (refl, refl, refl))
        (after_call-IsPassive drv t t' (next_row drv t.query t.retries s.lib) l c) sound
  Step-IsSound {s} (restarts i t t' l h e c) sound =
      passive_step drv s l i t t' h (pc-IsPassive drv e (refl, refl, refl))
        (after_start-IsPassive drv t t' (start drv t.query true s.lib) l c) sound
  Step-IsSound {s} (locks i t pc' h e free) sound =
      let (a, b, c, d) = with_lock_lem t.pc pc' e in
      let t' = record t { pc = pc' } in
      record {
        exclusive = omega (
          arith,
          count-set drv is_inside s.threads i t t' h,
          ap as_number a,
          ap as_number b,
          ap owners free,
          sound.exclusive,
        );
        not_lost = λ f w.
            let w' : 0 < count drv is_blocked s.threads =
              omega (arith, count-set drv is_blocked s.threads i t t' h, ap as_number c, w) in
            let keeps : as_number (is_awake t.pc) ≤ as_number (is_awake pc') =
              at_most (is_awake t.pc) (is_awake pc') d in
            omega (arith, count-set drv is_awake s.threads i t t' h, keeps, sound.not_lost f w');
      }
  Step-IsSound {s} (tests i t h e o) sound = record {
    exclusive =
        leaves_mutex s i t (record t { pc = tested s.finished }) h (ap is_inside e)
          (tested_outside s.finished) o sound;
    not_lost = λ f w. cc;
  }
  Step-IsSound {s} (gives_up i t h e o) sound = record {
    exclusive = leaves_mutex s i t (record t { pc = restarting }) h (ap is_inside e) refl o sound;
    not_lost = λ f w. cc;
  }
  Step-IsSound {s} (signals i t o h e own nobody) sound =
      let t' = record t { pc = over o } in
      record {
        exclusive = leaves_mutex s i t t' h (ap is_inside e) refl own sound;
        not_lost = λ f w. absurd (
            omega (
              arith,
              count-set drv is_blocked s.threads i t t' h,
              count_none drv is_blocked s.threads nobody,
              w,
            ));
      }
  Step-IsSound {s} (notifies i j t u o h e own h' e') sound =
      let t' = record t { pc = over o } in
      let u' = record u { pc = woken } in
      let ts = set s.threads i t' in
      record {
        exclusive = omega (
          arith,
          leaves_mutex s i t t' h (ap is_inside e) refl own sound,
          count-set drv is_inside ts j u u' h',
          ap (λ p. as_number (is_inside p)) e',
        );
        not_lost = λ f w.
            omega (arith, count-set drv is_awake ts j u u' h', ap (λ p. as_number (is_awake p)) e');
      }
  Step-IsSound {s} (wakes i t h e) sound = wait_ends s i t woken h e refl refl sound
  Step-IsSound {s} (times_out i t h e) sound = wait_ends s i t timed_out h e refl refl sound
  Step-IsSound (elsewhere l) sound = record {
    exclusive = sound.exclusive;
    not_lost = sound.not_lost;
  }

  Reach-IsSound : {s s' : State drv} → Reach drv s s' → IsSound drv s → IsSound drv s'
  Reach-IsSound here sound = sound
  Reach-IsSound {s} (next {t = t} {u = u} r st) sound =
      Step-IsSound {s = t} {s' = u} st (Reach-IsSound {s = s} {s' = t} r sound)

  -- No thread is under the mutex or waits, and nobody owns the mutex.
  abbrev pub IsIdle : State drv → Type 0
  IsIdle s =
      ((i : ℕ) (t : Thread drv)
        → get_elem? s.threads i ≡ some t
        → (is_inside t.pc ≡ false) × (is_blocked t.pc ≡ false))
      × (s.owner ≡ none)

  -- From a state in which no thread holds the mutex or waits, whatever the order of the steps of
  -- the threads, at most one of them is under the mutex; and whenever the flag is set while some
  -- thread waits for it, a thread is awake, or has the mutex, that is to look at the flag before it
  -- waits. That thread may still find the flag reset by another one whose wait is over.
  pub Reach-WillBeTested :
      {s s' : State drv}
      → IsIdle s
      → Reach drv s s'
      → (count drv is_inside s'.threads ≤ 1)
        × (s'.finished ≡ true
            → 0 < count drv is_blocked s'.threads
            → 0 < count drv is_awake s'.threads)
  Reach-WillBeTested {s} {s'} (idle, free) r =
      let sound0 : IsSound drv s = record {
        exclusive =
            omega
              (arith, count_none drv is_inside s.threads (λ i t h. (idle i t h).0), ap owners free);
        not_lost = λ f w.
            absurd
              (omega (arith, count_none drv is_blocked s.threads (λ i t h. (idle i t h).1), w));
      } in
      let sound = Reach-IsSound {s = s} {s' = s'} r sound0 in
      (omega (arith, sound.exclusive, at_most_one s'.owner), sound.not_lost)
