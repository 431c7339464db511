-- ===== src/Bench/Create/Count.antt =====
-- How many records `create` posts and counts.
use acppsrv.Prelude.{
  ℕ, zero, suc, ◌+◌, ◌-◌, ◌<◌, ◌≤◌, ◌≡◌, refl, ap, ◌∙◌, ◌⊎◌, inl, inr, Bool, true, false, not,
  Option, none, some, List, [], ◌∷◌, ◌++◌, min, length, get_elem?, arith, nat_beq, Bool-cases,
}
use acppsrv.Bench.Keys.{Key, written}
use acppsrv.Bench.Create.{
  Database, Partition, State, Outcome, End, posts, ends, throws_last, throws, lost_by, Reach, here,
  later, step, begun, handled, handle_create, finish, is_done, count_record, without, requests,
  ulong_mod, then_do, transaction_sz,
}

pub length-without :
    {A : Type 0} (i : ℕ) (xs : List A) (x : A)
    → get_elem? xs i ≡ some x
    → suc (length (without i xs)) ≡ length xs
unfolding without
length-without i [] x h = cc
length-without zero (y ∷ xs) x h = refl
length-without (suc i) (y ∷ xs) x h = ap suc (length-without i xs x h)

pub length_snoc : {A : Type 0} (xs : List A) (x : A) → length (xs ++ x ∷ []) ≡ suc (length xs)
length_snoc [] x = refl
length_snoc (y ∷ xs) x = ap suc (length_snoc xs x)

pub stored_all :
    (limit records : ℕ)
    → 0 < limit
    → records + 0 + 0 ≡ requests limit + min records (limit - 1)
    → records ≡ limit + requests limit - 1
stored_all limit records pos h = ground arith

more_posted :
    (limit records q n lost : ℕ)
    → 0 < limit
    → limit + 1_000 ≤ ulong_mod
    → records + suc q + lost ≡ requests limit + min records (limit - 1)
    → n ≡ count_record records
    → true ≡ not (is_done limit n)
    → n + suc q + (lost + 0) ≡ requests limit + min n (limit - 1)
more_posted limit records q n lost pos small h same r = ground arith

no_more_posted :
    (limit records q n lost : ℕ)
    → 0 < limit
    → limit + 1_000 ≤ ulong_mod
    → records + suc q + lost ≡ requests limit + min records (limit - 1)
    → n ≡ count_record records
    → false ≡ not (is_done limit n)
    → n + q + (lost + 0) ≡ requests limit + min n (limit - 1)
no_more_posted limit records q n lost pos small h same r = ground arith

lost_one :
    (limit records q n lost : ℕ)
    → 0 < limit
    → limit + 1_000 ≤ ulong_mod
    → records + suc q + lost ≡ requests limit + min records (limit - 1)
    → n ≡ count_record records
    → true ≡ not (is_done limit n)
    → n + q + (lost + 1) ≡ requests limit + min n (limit - 1)
lost_one limit records q n lost pos small h same r = ground arith

uncounted :
    (limit records q n lost : ℕ)
    → records + suc q + lost ≡ requests limit + min records (limit - 1)
    → n ≡ records
    → n + q + (lost + 1) ≡ requests limit + min n (limit - 1)
uncounted limit records q n lost h same = ground arith

module _ (sql : Database) (limit : ℕ) where
  open sql use {T, begin, insert, commit}

  -- How the counter has changed, by the end of the handler.
  abbrev pub CountedBy : ℕ → ℕ → End → Type 0
  CountedBy records n posts = (n ≡ count_record records) × (true ≡ not (is_done limit n))
  CountedBy records n ends = (n ≡ count_record records) × (false ≡ not (is_done limit n))
  CountedBy records n throws_last = (n ≡ count_record records) × (false ≡ not (is_done limit n))
  CountedBy records n throws =
      (n ≡ records) ⊎ ((n ≡ count_record records) × (true ≡ not (is_done limit n)))

  abbrev pub Counted : ℕ → Outcome sql → Type 0
  Counted records (p, n, e) = CountedBy records n e

  pub then_do-cases :
      (P : Outcome sql → Type 0) (r : Bool × T) (thrown f : T → Outcome sql)
      → ((t : T) → r ≡ (false, t) → P (thrown t))
      → ((t : T) → r ≡ (true, t) → P (f t))
      → P (then_do sql r thrown f)
  then_do-cases P (false, t) thrown f a b = a t refl
  then_do-cases P (true, t) thrown f a b = b t refl

  finish-Counted :
      (cur_tx records : ℕ) (keys : List Key) (file : List ℕ) (tx : T)
      → Counted records (finish sql limit cur_tx keys file records tx)
  unfolding finish
  finish-Counted cur_tx records keys file tx =
      elim (Bool-cases (is_done limit (count_record records))) [
        | inl last ↦
            rw (last, finish)
              (then_do-cases (Counted records) (commit tx) _ _ (λ t e. (refl, rw last refl))
                (λ t e. (refl, rw last refl)))
        | inr more ↦ elim (Bool-cases (nat_beq (cur_tx + 1) transaction_sz)) [
          | inl full ↦
              rw (more, finish)
                (rw full (
                  then_do-cases (Counted records) (commit tx) _ _ (λ t e. inr (refl, rw more refl))
                    (λ t e. (refl, rw more refl))))
          | inr part ↦ rw (more, finish) (rw part (refl, rw more refl))
        ]
      ]

  pub handle_create-Counted :
      (fails : Option ℕ) (key : Key) (records : ℕ) (p : Partition sql)
      → Counted records (handle_create sql limit fails key records p)
  unfolding handle_create
  handle_create-Counted (some n) key records p =
      then_do-cases (Counted records) (begun sql p) _ _ (λ t e. inl refl)
        (λ t e.
          then_do-cases (Counted records) (insert key t) _ _ (λ t' e'. inl refl)
            (λ t' e'. inl refl))
  handle_create-Counted none key records p =
      then_do-cases (Counted records) (begun sql p) _ _ (λ t e. inl refl)
        (λ t e.
          then_do-cases (Counted records) (insert key t) _ _ (λ t' e'. inl refl)
            (λ t' e'.
              finish-Counted p.cur_tx records (p.keys ++ key ∷ []) (p.file ++ written key) t'))

  -- The tasks that were posted, but for the lost ones.
  abbrev pub Posted : ℕ → State sql → Type 0
  Posted lost s = s.records + length s.queue + lost ≡ requests limit + min s.records (limit - 1)

  pub handled-Posted :
      (s : State sql) (lost i : ℕ) (key next : Key) (r : Outcome sql)
      → 0 < limit
      → limit + 1_000 ≤ ulong_mod
      → Posted lost s
      → get_elem? s.queue i ≡ some key
      → Counted s.records r
      → Posted (lost + lost_by r.2) (handled sql s i key.partition next r)
  unfolding handled lost_by
  handled-Posted s lost i key next (p', n, e) pos small h q c = go e c
    where
      before :
          s.records + suc (length (without i s.queue)) + lost
          ≡ requests limit + min s.records (limit - 1)
      before = ap (λ k. s.records + k + lost) (length-without i s.queue key q) ∙ h

      go :
          (e : End)
          → CountedBy s.records n e
          → Posted (lost + lost_by e) (handled sql s i key.partition next (p', n, e))
      go posts (same, r) =
          ap (λ k. n + k + (lost + 0)) (length_snoc (without i s.queue) next)
          ∙ more_posted limit s.records (length (without i s.queue)) n lost pos small before same r
      go ends (same, r) =
          no_more_posted limit s.records (length (without i s.queue)) n lost pos small before same r
      go throws_last (same, r) =
          no_more_posted limit s.records (length (without i s.queue)) n lost pos small before same r
      go throws (inl same) =
          uncounted limit s.records (length (without i s.queue)) n lost before same
      go throws (inr (same, r)) =
          lost_one limit s.records (length (without i s.queue)) n lost pos small before same r

  pub Reach-Posted :
      {s t : State sql} {lost : ℕ}
      → 0 < limit
      → limit + 1_000 ≤ ulong_mod
      → Posted 0 s
      → Reach sql limit s lost t
      → Posted lost t
  unfolding step
  Reach-Posted pos small h here = h
  Reach-Posted {s = s} pos small h (later {t = t} {lost = lost} i key next fails p r q found) =
      handled-Posted t lost i key next (handle_create sql limit fails key t.records p) pos small
        (Reach-Posted {s = s} {t = t} {lost = lost} pos small h r) q
        (handle_create-Counted fails key t.records p)
