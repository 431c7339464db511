-- ===== src/App/Shutdown/Stopped.antt =====
-- What the waits of `application::run` and the stops of its signal handler are, read from the two
-- records of what was done.
use acppsrv.Prelude.{
  ℕ, zero, suc, ◌+◌, ◌<◌, ◌≤◌, ◌≡◌, refl, sym, ap, ◌∙◌, subst, inl, inr, Bool, true, false, ◌||◌,
  some, List, [], ◌∷◌, ◌++◌, get_elem?, length, length-append, nat_beq, arith, Bool-cases,
}
use acppsrv.App.Shutdown.{
  PoolName, control, main, database, Act, runs, waits, Stop, stops, interrupts, each, program,
  handler,
}
use acppsrv.App.Shutdown.Ordered.{waited_control}

abbrev same_pool : PoolName → PoolName → Bool
same_pool control control = true
same_pool (main i) (main j) = nat_beq i j
same_pool database database = true
same_pool _ _ = false

-- The main thread has waited for the pool.
abbrev pub has_waited : PoolName → List Act → Bool
has_waited p [] = false
has_waited p (runs q ∷ rest) = has_waited p rest
has_waited p (waits q ∷ rest) = same_pool q p || has_waited p rest

-- `n` main pools, each once and in order, then the database pool, then the queries, and nothing else.
pub record HasStopped (n : ℕ) (handled : List Stop) : Type 0 where
  pub mains : (i : ℕ) → i < n → get_elem? handled i ≡ some (stops (main i))
  pub then_database : get_elem? handled n ≡ some (stops database)
  pub then_queries : get_elem? handled (suc n) ≡ some interrupts
  pub only : length handled ≡ n + 2

pub record HasWaited (n : ℕ) (did : List Act) : Type 0 where
  pub for_control : has_waited control did ≡ true
  pub for_mains : (i : ℕ) → i < n → has_waited (main i) did ≡ true
  pub for_database : has_waited database did ≡ true

-- Before the first wait is one for the control pool.
abbrev Leads : List Act → Type 0
Leads [] = Unit
Leads (runs p ∷ rest) = Leads rest
Leads (waits control ∷ rest) = Unit
Leads (waits (main i) ∷ rest) = ⊥
Leads (waits database ∷ rest) = ⊥

Leads-each : (j m : ℕ) (xs : List Act) → Leads xs → Leads (each (λ i. runs (main i)) j m ++ xs)
Leads-each j zero xs h = h
Leads-each j (suc m) xs h = Leads-each (suc j) m xs h

pub program-Leads : (n : ℕ) → Leads (program n)
program-Leads n = Leads-each 0 n _ tt

Leads-before : (xs ys : List Act) → Leads (xs ++ ys) → Leads xs
Leads-before [] ys h = tt
Leads-before (runs p ∷ xs) ys h = Leads-before xs ys h
Leads-before (waits control ∷ xs) ys h = tt
Leads-before (waits (main i) ∷ xs) ys h = h
Leads-before (waits database ∷ xs) ys h = h

control-Leads :
    (p : PoolName) (did : List Act)
    → Leads did
    → has_waited p did ≡ true
    → waited_control did ≡ true
control-Leads p [] l h = cc
control-Leads p (runs q ∷ did) l h = control-Leads p did l h
control-Leads p (waits control ∷ did) l h = refl
control-Leads p (waits (main i) ∷ did) l h = absurd l
control-Leads p (waits database ∷ did) l h = absurd l

-- Whoever has been waited for, the control pool has.
pub control_first :
    (n : ℕ) (p : PoolName) (did todo : List Act)
    → did ++ todo ≡ program n
    → has_waited p did ≡ true
    → waited_control did ≡ true
control_first n p did todo e =
    control-Leads p did (Leads-before did todo (subst Leads (sym e) (program-Leads n)))

get_elem?-each :
    (f : ℕ → Stop) (j m i : ℕ) (xs : List Stop)
    → i < m
    → get_elem? (each f j m ++ xs) i ≡ some (f (i + j))
get_elem?-each f j zero i xs h = absurd (omega arith)
get_elem?-each f j (suc m) zero xs h = let e : j ≡ 0 + j = omega arith in ap (λ k. some (f k)) e
get_elem?-each f j (suc m) (suc i) xs h =
    let e : i + suc j ≡ suc i + j = omega arith in
    get_elem?-each f (suc j) m i xs (omega arith) ∙ ap (λ k. some (f k)) e

get_elem?-past :
    (f : ℕ → Stop) (j m k : ℕ) (xs : List Stop)
    → get_elem? (each f j m ++ xs) (m + k) ≡ get_elem? xs k
get_elem?-past f j zero k xs = let e : 0 + k ≡ k = omega arith in ap (get_elem? xs) e
get_elem?-past f j (suc m) k xs =
    let e : suc m + k ≡ suc (m + k) = omega arith in
    ap (get_elem? (each f j (suc m) ++ xs)) e ∙ get_elem?-past f (suc j) m k xs

length-each : (f : ℕ → Stop) (j m : ℕ) → length (each f j m) ≡ m
length-each f j zero = refl
length-each f j (suc m) = ap suc (length-each f (suc j) m)

pub handler-HasStopped : (n : ℕ) → HasStopped n (handler n)
handler-HasStopped n = record {
  mains = λ i h.
      let e : i + 0 ≡ i = omega arith in
      get_elem?-each (λ i. stops (main i)) 0 n i (stops database ∷ interrupts ∷ []) h
      ∙ ap (λ k. some (stops (main k))) e;
  then_database =
      let e : n ≡ n + 0 = omega arith in
      ap (get_elem? (handler n)) e
      ∙ get_elem?-past (λ i. stops (main i)) 0 n 0 (stops database ∷ interrupts ∷ []);
  then_queries =
      let e : suc n ≡ n + 1 = omega arith in
      ap (get_elem? (handler n)) e
      ∙ get_elem?-past (λ i. stops (main i)) 0 n 1 (stops database ∷ interrupts ∷ []);
  only = omega (
    arith,
    length-append (each (λ i. stops (main i)) 0 n) (stops database ∷ interrupts ∷ []),
    length-each (λ i. stops (main i)) 0 n,
  );
}

waited-runs :
    (p : PoolName) (j m : ℕ) (xs : List Act)
    → has_waited p (each (λ i. runs (main i)) j m ++ xs) ≡ has_waited p xs
waited-runs p j zero xs = refl
waited-runs p j (suc m) xs = waited-runs p (suc j) m xs

waited-mains :
    (i j m : ℕ) (xs : List Act)
    → j ≤ i
    → i < j + m
    → has_waited (main i) (each (λ i'. waits (main i')) j m ++ xs) ≡ true
waited-mains i j zero xs h k = absurd (omega arith)
waited-mains i j (suc m) xs h k = elim (Bool-cases (nat_beq j i)) [
  | inl here_ ↦ rw here_ refl
  | inr next ↦ rw next (waited-mains i (suc j) m xs (ground arith) (omega arith))
]

waited-database :
    (j m : ℕ) (xs : List Act)
    → has_waited database (each (λ i. waits (main i)) j m ++ xs) ≡ has_waited database xs
waited-database j zero xs = refl
waited-database j (suc m) xs = waited-database (suc j) m xs

pub program-HasWaited : (n : ℕ) → HasWaited n (program n)
program-HasWaited n = record {
  for_control = waited-runs control 0 n _;
  for_mains = λ i h. waited-runs (main i) 0 n _ ∙ waited-mains i 0 n _ (omega arith) (omega arith);
  for_database = waited-runs database 0 n _ ∙ waited-database 0 n _;
}
