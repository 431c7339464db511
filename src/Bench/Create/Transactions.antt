-- ===== src/Bench/Create/Transactions.antt =====
-- The transactions of a partition, with what the code relies on of SQLite's.
use acppsrv.Prelude.{
  ℕ, suc, ◌+◌, ◌%◌, ◌≡◌, ◌≢◌, refl, sym, ap, ◌∙◌, subst, inl, inr, Bool, true, false, not, Option,
  none, some, List, [], ◌∷◌, ◌++◌, length, arith, nat_beq, if◌then◌else◌, Bool-cases,
}
use acppsrv.Bench.Keys.{Key, written}
use acppsrv.Bench.Create.{
  Database, Partition, Outcome, posts, ends, begun, handle_create, finish, is_done, count_record,
  transaction_sz,
}
use acppsrv.Bench.Create.Count.{length_snoc, then_do-cases}

true_apart : true ≡ false → ⊥
true_apart h = cc

full_batch :
    (cur n : ℕ)
    → cur ≡ n % transaction_sz
    → nat_beq (cur + 1) transaction_sz ≡ true
    → 0 ≡ suc n % transaction_sz
full_batch cur n c f = ground arith

part_of_batch :
    (cur n : ℕ)
    → cur ≡ n % transaction_sz
    → nat_beq (cur + 1) transaction_sz ≡ false
    → cur + 1 ≡ suc n % transaction_sz
part_of_batch cur n c f = ground arith

-- Whether a transaction is open: `begin` opens it, `insert` keeps it, and `commit` closes it and needs
-- an open one.
module _ (sql : Database) (in_tx : sql.T → Bool)
    (begin_opens : (t t' : sql.T) → sql.begin t ≡ (true, t') → in_tx t' ≡ true)
    (insert_keeps : (k : Key) (t t' : sql.T) → sql.insert k t ≡ (true, t') → in_tx t' ≡ in_tx t)
    (commit_closes : (t t' : sql.T)
      → sql.commit t ≡ (true, t')
      → (in_tx t ≡ true) × (in_tx t' ≡ false)) where
  open sql use {T, begin, insert, commit}

  -- The counter of the transaction is that of the keys, and a transaction is open unless it is 0.
  abbrev pub IsBatched : Partition sql → Type 0
  IsBatched p =
      (p.cur_tx ≡ length p.keys % transaction_sz) × (in_tx p.tx ≡ not (nat_beq p.cur_tx 0))

  began :
      (p : Partition sql) (tx : T)
      → in_tx p.tx ≡ not (nat_beq p.cur_tx 0)
      → begun sql p ≡ (true, tx)
      → in_tx tx ≡ true
  began p tx b h = go (nat_beq p.cur_tx 0) b h
    where
      go :
          (z : Bool)
          → in_tx p.tx ≡ not z
          → (if z then begin p.tx else (true, p.tx)) ≡ (true, tx)
          → in_tx tx ≡ true
      go true i h' = begin_opens p.tx tx h'
      go false i h' = subst (λ t. in_tx t ≡ true) (ap (λ x. x.1) h') i

  -- Where a handler ends by posting, the partition is batched.
  abbrev Batched : Outcome sql → Type 0
  Batched (p, n, e) = e ≡ posts → IsBatched p

  finish-Batched :
      (limit cur records : ℕ) (keys : List Key) (file : List ℕ) (key : Key) (tx : T)
      → cur ≡ length keys % transaction_sz
      → in_tx tx ≡ true
      → Batched (finish sql limit cur (keys ++ key ∷ []) file records tx)
  unfolding finish
  finish-Batched limit cur records keys file key tx c i =
      let size = ap (λ k. k % transaction_sz) (sym (length_snoc keys key)) in
      elim (Bool-cases (is_done limit (count_record records))) [
        | inl last ↦
            rw (last, finish)
              (then_do-cases sql limit Batched (commit tx) _ _ (λ t e z. cc) (λ t e z. cc))
        | inr more ↦ elim (Bool-cases (nat_beq (cur + 1) transaction_sz)) [
          | inl full ↦
              rw (more, finish)
                (rw full (
                  then_do-cases sql limit Batched (commit tx) _ _ (λ t e z. cc)
                    (λ t e z.
                      (full_batch cur (length keys) c full ∙ size, (commit_closes tx t e).1))))
          | inr part ↦
              rw (more, finish)
                (rw part (λ z. (part_of_batch cur (length keys) c part ∙ size, i ∙ ground arith)))
        ]
      ]

  -- A handler that posts the next record keeps every hundred records of a partition in one
  -- transaction: a transaction is open after it unless the number of the partition's records is a
  -- multiple of a hundred, and `cur_tx` counts the records in it.
  pub handle_create-IsBatched :
      (limit records n : ℕ) (fails : Option ℕ) (key : Key) (p p' : Partition sql)
      → IsBatched p
      → handle_create sql limit fails key records p ≡ (p', n, posts)
      → IsBatched p'
  unfolding handle_create
  handle_create-IsBatched limit records n fails key p p' b h = subst Batched h (go fails) refl
    where
      go : (w : Option ℕ) → Batched (handle_create sql limit w key records p)
      go (some m) =
          then_do-cases sql limit Batched (begun sql p) _ _ (λ t e z. cc)
            (λ t e.
              then_do-cases sql limit Batched (insert key t) _ _ (λ t' e' z. cc) (λ t' e' z. cc))
      go none =
          then_do-cases sql limit Batched (begun sql p) _ _ (λ t e z. cc)
            (λ t e.
              then_do-cases sql limit Batched (insert key t) _ _ (λ t' e' z. cc)
                (λ t' e'.
                  finish-Batched limit p.cur_tx records p.keys (p.file ++ written key) key t' b.0
                    (insert_keeps key t t' e' ∙ began p t b.1 e)))

  -- After the last record: `commit` has closed the transaction, and `cur_tx` is as before. It needs an
  -- open transaction.
  abbrev Last : ℕ → Bool → Outcome sql → Type 0
  Last cur was (p, n, e) = e ≡ ends → (was ≡ true) × (in_tx p.tx ≡ false) × (p.cur_tx ≡ cur)

  finish-Last :
      (limit cur records : ℕ) (keys : List Key) (file : List ℕ) (tx : T)
      → is_done limit (count_record records) ≡ true
      → Last cur (in_tx tx) (finish sql limit cur keys file records tx)
  unfolding finish
  finish-Last limit cur records keys file tx d =
      rw (d, finish)
        (then_do-cases sql limit (Last cur (in_tx tx)) (commit tx) _ _ (λ t e z. cc)
          (λ t e z. ((commit_closes tx t e).0, (commit_closes tx t e).1, refl)))

  not_begun : (p : Partition sql) (tx : T) → p.cur_tx ≢ 0 → begun sql p ≡ (true, tx) → p.tx ≡ tx
  not_begun p tx h e = go (nat_beq p.cur_tx 0) (ground arith) e
    where
      go :
          (z : Bool) → z ≡ false → (if z then begin p.tx else (true, p.tx)) ≡ (true, tx) → p.tx ≡ tx
      go true z e' = absurd (cc)
      go false z e' = ap (λ x. x.1) e'

  -- In a partition whose transaction has begun before.
  handle_create-Last :
      (limit records : ℕ) (fails : Option ℕ) (key : Key) (p : Partition sql)
      → p.cur_tx ≢ 0
      → is_done limit (count_record records) ≡ true
      → Last p.cur_tx (in_tx p.tx) (handle_create sql limit fails key records p)
  unfolding handle_create
  handle_create-Last limit records (some m) key p o d =
      let L = Last p.cur_tx (in_tx p.tx) in
      then_do-cases sql limit L (begun sql p) _ _ (λ t e z. cc)
        (λ t e. then_do-cases sql limit L (insert key t) _ _ (λ t' e' z. cc) (λ t' e' z. cc))
  handle_create-Last limit records none key p o d =
      let L = Last p.cur_tx (in_tx p.tx) in
      then_do-cases sql limit L (begun sql p) _ _ (λ t e z. cc)
        (λ t e.
          then_do-cases sql limit L (insert key t) _ _ (λ t' e' z. cc)
            (λ t' e'.
              let same : in_tx t' ≡ in_tx p.tx =
                insert_keeps key t t' e' ∙ ap in_tx (sym (not_begun p t o e)) in
              subst
                (λ was. Last p.cur_tx was (
                  finish sql limit p.cur_tx (p.keys ++ key ∷ []) (p.file ++ written key) records
                    t'))
                same
                (finish-Last limit p.cur_tx records (p.keys ++ key ∷ []) (p.file ++ written key) t'
                  d)))

  -- After RECORDS are reached a handler commits but leaves `cur_tx` as it is. If it was not 0, the next
  -- handler of the partition does not begin a transaction, so it cannot end without an exception.
  pub handle_create_twice :
      (limit records records' n : ℕ) (fails fails' : Option ℕ) (key key' : Key)
      (p p' : Partition sql)
      → p.cur_tx ≢ 0
      → is_done limit (count_record records) ≡ true
      → is_done limit (count_record records') ≡ true
      → handle_create sql limit fails key records p ≡ (p', n, ends)
      → (handle_create sql limit fails' key' records' p').2 ≢ ends
  handle_create_twice limit records records' n fails fails' key key' p p' o d d' h e =
      let (was, closed, cur) =
        subst (Last p.cur_tx (in_tx p.tx)) h (handle_create-Last limit records fails key p o d)
          refl in
      let (was', _, _) =
        handle_create-Last limit records' fails' key' p' (λ z. o (sym cur ∙ z)) d' e in
      true_apart (sym was' ∙ closed)
