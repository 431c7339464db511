-- ===== src/Db/Threads/Counts.antt =====
-- How many threads are under the mutex of a `db_sync_t`, wait for its flag, or are to look at it.
use acppsrv.Prelude.{
  ℕ, zero, suc, ◌+◌, ◌≤◌, ◌≡◌, refl, ap, Bool, true, false, Option, none, some, List, [], ◌∷◌,
  get_elem?, set, if◌then◌else◌, arith,
}
use acppsrv.Sqlite.{Driver}
use acppsrv.Db.Threads.{Pc, testing, woken, timed_out, expired, signalling, Thread}

-- The thread holds the mutex.
abbrev pub is_inside : Pc → Bool
is_inside testing = true
is_inside expired = true
is_inside (signalling o) = true
is_inside _ = false

-- The thread is to look at the flag without waiting before.
abbrev pub is_awake : Pc → Bool
is_awake testing = true
is_awake woken = true
is_awake timed_out = true
is_awake expired = true
is_awake _ = false

abbrev pub as_number : Bool → ℕ
as_number b = if b then 1 else 0

pub at_most : (a b : Bool) → (a ≡ true → b ≡ true) → as_number a ≤ as_number b
at_most true b h = ground (arith, h refl)
at_most false b h = ground arith

abbrev pub owners : Option ℕ → ℕ
owners none = 0
owners (some i) = 1

pub at_most_one : (o : Option ℕ) → owners o ≤ 1
at_most_one none = omega arith
at_most_one (some i) = omega arith

module _ (drv : Driver) where
  open drv use {S}

  abbrev pub count : (Pc → Bool) → List (Thread drv) → ℕ
  count p [] = 0
  count p (t ∷ ts) = as_number (p t.pc) + count p ts

  pub count-set :
      (p : Pc → Bool) (ts : List (Thread drv)) (i : ℕ) (t t' : Thread drv)
      → get_elem? ts i ≡ some t
      → count p (set ts i t') + as_number (p t.pc) ≡ count p ts + as_number (p t'.pc)
  count-set p [] i t t' h = cc
  count-set p (u ∷ ts) zero t t' h =
      let same : u ≡ t = cc in omega (arith, ap (λ x. as_number (p x.pc)) same)
  count-set p (u ∷ ts) (suc i) t t' h = omega (arith, count-set p ts i t t' h)

  pub count_none :
      (p : Pc → Bool) (ts : List (Thread drv))
      → ((i : ℕ) (t : Thread drv) → get_elem? ts i ≡ some t → p t.pc ≡ false)
      → count p ts ≡ 0
  count_none p [] h = refl
  count_none p (t ∷ ts) h =
      omega (arith, ap as_number (h 0 t refl), count_none p ts (λ i. h (suc i)))
