-- ===== src/Db/Threads/Passive.antt =====
-- What holds of the mutex and the flag of a `db_sync_t` between two steps, and the steps that touch
-- neither.
use acppsrv.Prelude.{
  ℕ, ◌<◌, ◌≡◌, refl, sym, subst, ap, Bool, true, false, some, get_elem?, set, if◌then◌else◌, arith,
  ltb,
}
use acppsrv.Sqlite.{Driver, Status, row, done, locked, Result, ok, raised, aborted}
use acppsrv.Db.Threads.{Pc, locking, restarting, is_blocked, Thread, State, after_call, after_start}
use acppsrv.Db.Threads.Counts.{is_inside, is_awake, as_number, owners, count, count-set}

-- A pc that neither holds the mutex nor waits nor looks at the flag.
abbrev pub IsPassive : Pc → Type 0
IsPassive p = (is_inside p ≡ false) × (is_blocked p ≡ false) × (is_awake p ≡ false)

module _ (drv : Driver) where
  open drv use {S}

  -- What holds between any two steps.
  pub record IsSound (s : State drv) : Type 0 where
    pub exclusive : count drv is_inside s.threads ≡ owners s.owner
    pub not_lost :
        s.finished ≡ true → 0 < count drv is_blocked s.threads → 0 < count drv is_awake s.threads

  -- A step of a thread between two passive places.
  pub passive_step :
      (s : State drv) (l : S) (i : ℕ) (t t' : Thread drv)
      → get_elem? s.threads i ≡ some t
      → IsPassive t.pc
      → IsPassive t'.pc
      → IsSound s
      → IsSound (record s { lib = l; threads = set s.threads i t' })
  passive_step s l i t t' h (a, b, c) (a', b', c') sound = record {
    exclusive = omega (
      arith,
      count-set drv is_inside s.threads i t t' h,
      ap as_number a,
      ap as_number a',
      sound.exclusive,
    );
    not_lost = λ f w.
        let w' : 0 < count drv is_blocked s.threads = omega (
          arith,
          count-set drv is_blocked s.threads i t t' h,
          ap as_number b,
          ap as_number b',
          w,
        ) in
        omega (
          arith,
          count-set drv is_awake s.threads i t t' h,
          ap as_number c,
          ap as_number c',
          sound.not_lost f w',
        );
  }

  wait_or_restart : (b : Bool) → IsPassive (if b then locking else restarting)
  wait_or_restart true = (refl, refl, refl)
  wait_or_restart false = (refl, refl, refl)

  pub after_call-IsPassive :
      (t t' : Thread drv) (r : Result drv Status) (l : S)
      → after_call drv t r ≡ some (t', l)
      → IsPassive t'.pc
  after_call-IsPassive t t' (ok row s) l h = ground arith
  after_call-IsPassive t t' (ok done s) l h = ground arith
  after_call-IsPassive t t' (ok locked s) l h = ground (arith, wait_or_restart (ltb 0 t.retry_wait))
  after_call-IsPassive t t' (raised e s) l h = ground arith
  after_call-IsPassive t t' aborted l h = cc

  pub after_start-IsPassive :
      (t t' : Thread drv) (r : Result drv Unit) (l : S)
      → after_start drv t r ≡ some (t', l)
      → IsPassive t'.pc
  after_start-IsPassive t t' (ok u s) l h = ground arith
  after_start-IsPassive t t' (raised e s) l h = ground arith
  after_start-IsPassive t t' aborted l h = cc

  pub pc-IsPassive : {p q : Pc} → q ≡ p → IsPassive p → IsPassive q
  pc-IsPassive e h = subst IsPassive (sym e) h
