-- ===== src/Bench/Requests/Owed.antt =====
-- What the calls of `is_done` have still to count, and when they find the time over.
use acppsrv.Prelude.{
  ℕ, zero, suc, ◌+◌, ◌-◌, ◌%◌, ◌≤◌, ◌≡◌, refl, ap, subst, true, Option, none, some, List, [], ◌∷◌,
  ◌++◌, get_elem?, set, All, arith, Bool-cases, inl, inr, leb,
}
use acppsrv.Bench.Create.{without, ulong_mod}
use acppsrv.Bench.Requests.{
  get, update, insert, Counters, second, Op, adds, adds1, clears1, reads_clock, takes_time,
  puts_time, Call, after_exchange, act,
}

-- The increments that are left to a call: of the counter of all requests, and of those of the kinds.
abbrev pub owed_all : List Op → ℕ
owed_all [] = 0
owed_all (adds none ∷ ops) = suc (owed_all ops)
owed_all (_ ∷ ops) = owed_all ops

abbrev pub owed_kinds : List Op → ℕ
owed_kinds [] = 0
owed_kinds (adds (some k) ∷ ops) = suc (owed_kinds ops)
owed_kinds (_ ∷ ops) = owed_kinds ops

-- Over all calls.
abbrev pub sum : (List Op → ℕ) → List Call → ℕ
sum f [] = 0
sum f (r ∷ rs) = f r.todo + sum f rs

pub sum-set :
    (f : List Op → ℕ) (rs : List Call) (j : ℕ) (r r' : Call)
    → get_elem? rs j ≡ some r
    → sum f (set rs j r') + f r.todo ≡ sum f rs + f r'.todo
sum-set f [] j r r' h = cc
sum-set f (q ∷ rs) zero r r' h = let same : q ≡ r = cc in omega (arith, ap (λ x. f x.todo) same)
sum-set f (q ∷ rs) (suc j) r r' h = omega (arith, sum-set f rs j r r' h)

pub sum-without :
    (f : List Op → ℕ) (rs : List Call) (j : ℕ) (r : Call)
    → get_elem? rs j ≡ some r
    → sum f (without j rs) + f r.todo ≡ sum f rs
unfolding without
sum-without f [] j r h = cc
sum-without f (q ∷ rs) zero r h = let same : q ≡ r = cc in omega (arith, ap (λ x. f x.todo) same)
sum-without f (q ∷ rs) (suc j) r h = omega (arith, sum-without f rs j r h)

pub sum_snoc :
    (f : List Op → ℕ) (rs : List Call) (r : Call) → sum f (rs ++ r ∷ []) ≡ sum f rs + f r.todo
sum_snoc f [] r = omega arith
sum_snoc f (q ∷ rs) r = omega (arith, sum_snoc f rs r)

pub All-without : (P : Call → Type 0) (rs : List Call) (j : ℕ) → All P rs → All P (without j rs)
unfolding without
All-without P [] j a = tt
All-without P (q ∷ rs) zero a = a.1
All-without P (q ∷ rs) (suc j) a = (a.0, All-without P rs j a.1)

pub All_at :
    (P : Call → Type 0) (rs : List Call) (j : ℕ) (r : Call)
    → All P rs
    → get_elem? rs j ≡ some r
    → P r
All_at P [] j r a h = cc
All_at P (q ∷ rs) zero r a h = let same : q ≡ r = cc in subst P same a.0
All_at P (q ∷ rs) (suc j) r a h = All_at P rs j r a.1 h

after_exchange_owes :
    (tnow : ℕ) (t : Option ℕ) (rest : List Op)
    → (owed_all (after_exchange tnow t ++ rest) ≡ owed_all rest)
      × (owed_kinds (after_exchange tnow t ++ rest) ≡ owed_kinds rest)
unfolding after_exchange
after_exchange_owes tnow none rest = (refl, refl)
after_exchange_owes tnow (some t) rest = elim (Bool-cases (leb second (tnow - t))) [
  | inl due ↦ rw due (refl, refl)
  | inr early ↦ rw early (refl, refl)
]

-- What an access adds to the counters, it takes from what the call owes.
pub record Pays (todo : List Op) (c : Counters) (r' : Call) (c' : Counters) : Type 0 where
  pub all : (c'.records + owed_all r'.todo) % ulong_mod ≡ (c.records + owed_all todo) % ulong_mod
  pub kinds :
      (c'.gets + c'.updates + c'.inserts + owed_kinds r'.todo) % ulong_mod
      ≡ (c.gets + c.updates + c.inserts + owed_kinds todo) % ulong_mod
  pub start_time : c'.t0 ≡ c.t0

pub act-Pays :
    (time now : ℕ) (op : Op) (rest : List Op) (r : Call) (c : Counters)
    → Pays (op ∷ rest) c (act time now op rest r c).0 (act time now op rest r c).1
unfolding act
act-Pays time now (adds none) rest r c = record {
  all = omega arith;
  kinds = refl;
  start_time = refl;
}
act-Pays time now (adds (some get)) rest r c = record {
  all = refl;
  kinds = omega arith;
  start_time = refl;
}
act-Pays time now (adds (some update)) rest r c = record {
  all = refl;
  kinds = omega arith;
  start_time = refl;
}
act-Pays time now (adds (some insert)) rest r c = record {
  all = refl;
  kinds = omega arith;
  start_time = refl;
}
act-Pays time now (adds1 none) rest r c = record { all = refl; kinds = refl; start_time = refl }
act-Pays time now (adds1 (some get)) rest r c = record {
  all = refl;
  kinds = refl;
  start_time = refl;
}
act-Pays time now (adds1 (some update)) rest r c = record {
  all = refl;
  kinds = refl;
  start_time = refl;
}
act-Pays time now (adds1 (some insert)) rest r c = record {
  all = refl;
  kinds = refl;
  start_time = refl;
}
act-Pays time now (clears1 none) rest r c = record { all = refl; kinds = refl; start_time = refl }
act-Pays time now (clears1 (some get)) rest r c = record {
  all = refl;
  kinds = refl;
  start_time = refl;
}
act-Pays time now (clears1 (some update)) rest r c = record {
  all = refl;
  kinds = refl;
  start_time = refl;
}
act-Pays time now (clears1 (some insert)) rest r c = record {
  all = refl;
  kinds = refl;
  start_time = refl;
}
act-Pays time now reads_clock rest r c = record { all = refl; kinds = refl; start_time = refl }
act-Pays time now takes_time rest r c =
    let (a, b) = after_exchange_owes r.tnow c.tt rest in
    record {
      all = ap (λ k. (c.records + k) % ulong_mod) a;
      kinds = ap (λ k. (c.gets + c.updates + c.inserts + k) % ulong_mod) b;
      start_time = refl;
    }
act-Pays time now (puts_time t) rest r c = record { all = refl; kinds = refl; start_time = refl }

-- A call has the result that the time is over only if it is.
abbrev pub IsLate : ℕ → ℕ → ℕ → Call → Type 0
IsLate time t0 now r = r.done ≡ true → time ≤ now - t0

pub act-IsLate :
    (time t0 now : ℕ) (op : Op) (rest : List Op) (r : Call) (c : Counters)
    → c.t0 ≡ t0
    → IsLate time t0 now r
    → IsLate time t0 now (act time now op rest r c).0
unfolding act
act-IsLate time t0 now (adds k) rest r c e h = h
act-IsLate time t0 now (adds1 k) rest r c e h = h
act-IsLate time t0 now (clears1 k) rest r c e h = h
act-IsLate time t0 now reads_clock rest r c e h = λ d. ground (arith, e, d)
act-IsLate time t0 now takes_time rest r c e h = h
act-IsLate time t0 now (puts_time t) rest r c e h = h
