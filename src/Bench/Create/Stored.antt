-- ===== src/Bench/Create/Stored.antt =====
-- What `create` stores.
use acppsrv.Prelude.{
  ℕ, zero, suc, ◌+◌, ◌-◌, ◌<◌, ◌≤◌, ◌≡◌, refl, sym, ap, ◌∙◌, subst, inl, inr, Bool, true, false,
  Option, none, some, List, [], ◌∷◌, ◌++◌, min, length, get_elem?, set, All, All-set, arith,
  append_assoc, append-nil, nat_beq, Bool-cases,
}
use acppsrv.Bench.Keys.{Key, written, file_of}
use acppsrv.Bench.Create.{
  Database, Partition, State, Outcome, End, posts, ends, throws_last, throws, lost_by, Reach, here,
  later, start, step, begun, handled, handle_create, finish, is_done, count_record, requests, fresh,
  ulong_mod, transaction_sz,
}
use acppsrv.Bench.Create.Count.{
  length-without, length_snoc, stored_all, then_do-cases, Posted, Counted, CountedBy,
  handle_create-Counted, Reach-Posted,
}

file_of-snoc : (ks : List Key) (k : Key) → file_of (ks ++ k ∷ []) ≡ file_of ks ++ written k
unfolding file_of
file_of-snoc [] k = append-nil (written k)
file_of-snoc (j ∷ ks) k =
    ap (λ x. written j ++ x) (file_of-snoc ks k)
    ∙ sym (append_assoc (written j) (file_of ks) (written k))

-- The number of records of a database: `begin` keeps it, `insert` adds one, and `commit` keeps it, also
-- one that fails.
module _ (sql : Database) (rows : sql.T → ℕ)
    (begin_keeps : (t t' : sql.T) → sql.begin t ≡ (true, t') → rows t' ≡ rows t)
    (insert_adds : (k : Key) (t t' : sql.T) → sql.insert k t ≡ (true, t') → rows t' ≡ suc (rows t))
    (commit_keeps : (b : Bool) (t t' : sql.T) → sql.commit t ≡ (b, t') → rows t' ≡ rows t) where
  open sql use {T, begin, insert, commit}

  -- The records are in the database, also those of a transaction that is open still, and the file
  -- holds their keys and nothing else.
  abbrev pub IsStored : Partition sql → Type 0
  IsStored p = (rows p.tx ≡ length p.keys) × (p.file ≡ file_of p.keys)

  abbrev pub total : List (Partition sql) → ℕ
  total [] = 0
  total (p ∷ ps) = length p.keys + total ps

  total-set :
      (ps : List (Partition sql)) (i : ℕ) (p p' : Partition sql)
      → get_elem? ps i ≡ some p
      → total (set ps i p') + length p.keys ≡ total ps + length p'.keys
  total-set [] i p p' h = cc
  total-set (q ∷ ps) zero p p' h =
      let same : q ≡ p = cc in omega (arith, ap (λ x. length x.keys) same)
  total-set (q ∷ ps) (suc i) p p' h = omega (arith, total-set ps i p p' h)

  -- A handler that did not throw before its last commit has stored one record more.
  abbrev Adds : ℕ → Outcome sql → Type 0
  Adds size (p, n, throws) = Unit
  Adds size (p, n, posts) = (length p.keys ≡ suc size) × IsStored p
  Adds size (p, n, ends) = (length p.keys ≡ suc size) × IsStored p
  Adds size (p, n, throws_last) = (length p.keys ≡ suc size) × IsStored p

  finish-Adds :
      (limit cur records size : ℕ) (keys : List Key) (file : List ℕ) (tx : T)
      → length keys ≡ suc size
      → file ≡ file_of keys
      → rows tx ≡ suc size
      → Adds size (finish sql limit cur keys file records tx)
  unfolding finish
  finish-Adds limit cur records size keys file tx l f r =
      elim (Bool-cases (is_done limit (count_record records))) [
        | inl last ↦
            rw (last, finish)
              (then_do-cases sql limit (Adds size) (commit tx) _ _
                (λ t e. (l, (commit_keeps false tx t e ∙ r ∙ sym l, f)))
                (λ t e. (l, (commit_keeps true tx t e ∙ r ∙ sym l, f))))
        | inr more ↦ elim (Bool-cases (nat_beq (cur + 1) transaction_sz)) [
          | inl full ↦
              rw (more, finish)
                (rw full (
                  then_do-cases sql limit (Adds size) (commit tx) _ _ (λ t e. tt)
                    (λ t e. (l, (commit_keeps true tx t e ∙ r ∙ sym l, f)))))
          | inr part ↦ rw (more, finish) (rw part (l, (r ∙ sym l, f)))
        ]
      ]

  begun_keeps : (p : Partition sql) (tx : T) → begun sql p ≡ (true, tx) → rows tx ≡ rows p.tx
  begun_keeps p tx h = elim (Bool-cases (nat_beq p.cur_tx 0)) [
    | inl fresh ↦ begin_keeps p.tx tx (rw fresh at h)
    | inr open_ ↦ let same = rw open_ at h in let e : p.tx ≡ tx = cc in ap rows (sym e)
  ]

  handle_create-Adds :
      (limit : ℕ) (fails : Option ℕ) (key : Key) (records : ℕ) (p : Partition sql)
      → IsStored p
      → Adds (length p.keys) (handle_create sql limit fails key records p)
  unfolding handle_create
  handle_create-Adds limit (some m) key records p (r, f) =
      let A = Adds (length p.keys) in
      then_do-cases sql limit A (begun sql p) _ _ (λ t e. tt)
        (λ t e. then_do-cases sql limit A (insert key t) _ _ (λ t' e'. tt) (λ t' e'. tt))
  handle_create-Adds limit none key records p (r, f) =
      let A = Adds (length p.keys) in
      then_do-cases sql limit A (begun sql p) _ _ (λ t e. tt)
        (λ t e.
          then_do-cases sql limit A (insert key t) _ _ (λ t' e'. tt)
            (λ t' e'.
              finish-Adds limit p.cur_tx records (length p.keys) (p.keys ++ key ∷ [])
                (p.file ++ written key) t' (length_snoc p.keys key)
                (ap (λ x. x ++ written key) f ∙ sym (file_of-snoc p.keys key))
                (insert_adds key t t' e' ∙ ap suc (begun_keeps p t e ∙ r))))

  -- Without a lost task, all partitions hold what was counted.
  abbrev pub AllStored : State sql → Type 0
  AllStored s = All IsStored s.parts × (total s.parts ≡ s.records)

  handled-AllStored :
      (limit : ℕ) (s : State sql) (i place : ℕ) (next : Key) (p : Partition sql) (r : Outcome sql)
      → AllStored s
      → get_elem? s.parts place ≡ some p
      → suc s.records < ulong_mod
      → Adds (length p.keys) r
      → Counted sql limit s.records r
      → lost_by r.2 ≡ 0
      → AllStored (handled sql s i place next r)
  unfolding handled lost_by
  handled-AllStored limit s i place next p (p', n, e) (stored, same) found small adds c none_lost =
      go e adds c none_lost
    where
      one :
          length p'.keys ≡ suc (length p.keys)
          → n ≡ count_record s.records
          → IsStored p'
          → All IsStored (set s.parts place p') × (total (set s.parts place p') ≡ n)
      one l k q = (
        All-set IsStored s.parts place p' stored q,
        omega (arith, total-set s.parts place p p' found, same, l, k),
      )

      go :
          (e : End)
          → Adds (length p.keys) (p', n, e)
          → CountedBy sql limit s.records n e
          → lost_by e ≡ 0
          → AllStored (handled sql s i place next (p', n, e))
      go posts (l, q) (k, _) z = one l k q
      go ends (l, q) (k, _) z = one l k q
      go throws_last (l, q) (k, _) z = one l k q
      go throws a k z = cc

  All_at :
      (P : Partition sql → Type 0) (ps : List (Partition sql)) (i : ℕ) {p : Partition sql}
      → All P ps
      → get_elem? ps i ≡ some p
      → P p
  All_at P [] i a h = cc
  All_at P (q ∷ ps) zero {p} a h = let same : q ≡ p = cc in subst P same a.0
  All_at P (q ∷ ps) (suc i) {p} a h = All_at P ps i {p = p} a.1 h

  start-AllStored :
      (databases : List T) (keys : List Key)
      → All (λ t. rows t ≡ 0) databases
      → AllStored (start sql databases keys)
  unfolding start file_of
  start-AllStored [] keys a = (tt, refl)
  start-AllStored (t ∷ ts) keys a =
      let (stored, none_yet) = start-AllStored ts keys a.1 in
      (((a.0, refl), stored), omega (arith, none_yet))

  Reach-AllStored :
      (limit : ℕ) {s t : State sql} {lost : ℕ}
      → 0 < limit
      → limit + 1_000 ≤ ulong_mod
      → Posted sql limit 0 s
      → AllStored s
      → Reach sql limit s lost t
      → lost ≡ 0
      → AllStored t
  unfolding step
  Reach-AllStored limit pos small h a here z = a
  Reach-AllStored limit {s = s} pos small h a
        (later {t = t} {lost = lost} i key next fails p r q found) z =
      let posted = Reach-Posted sql limit {s = s} {t = t} {lost = lost} pos small h r in
      let now =
        Reach-AllStored limit {s = s} {t = t} {lost = lost} pos small h a r (omega (arith, z)) in
      handled-AllStored limit t i key.partition next p
        (handle_create sql limit fails key t.records p) now found
        (ground (arith, posted, length-without i t.queue key q))
        (handle_create-Adds limit fails key t.records p
          (All_at IsStored t.parts key.partition now.0 found))
        (handle_create-Counted sql limit fails key t.records p) (omega (arith, z))

  -- If the databases are empty at first, `begin` and `commit` keep the number of a database's records,
  -- also a `commit` that fails, and an `insert` that is done adds one, and if RECORDS is at least 1 and
  -- small enough that the counter does not wrap around, then whatever the order of the tasks: the
  -- counted records, the posted tasks and the lost ones are together the first requests and one more
  -- for each of the records but the last of the first RECORDS. A task is lost by an exception before
  -- its record is counted, or in a commit before RECORDS are reached. As long as none is lost, the
  -- records in the database of each partition are as many as the keys in its file, which holds these
  -- and nothing else, and over all partitions they are as many as were counted; the last ones of a
  -- partition may be in a transaction that is open still. So when no task is left and none was lost,
  -- RECORDS and all but one of the first requests are stored in this sense: one record for RECORDS = 1,
  -- and 999 too many from RECORDS = 1000 on.
  pub Reach-Stored :
      (limit : ℕ) (databases : List T) (keys : List Key) {s : State sql} {lost : ℕ}
      → All (λ t. rows t ≡ 0) databases
      → 0 < limit
      → limit + 1_000 ≤ ulong_mod
      → length keys ≡ requests limit
      → Reach sql limit (start sql databases keys) lost s
      → (s.records + length s.queue + lost ≡ requests limit + min s.records (limit - 1))
        × (lost ≡ 0 → AllStored s)
        × (s.queue ≡ [] → lost ≡ 0 → total s.parts ≡ limit + requests limit - 1)
  unfolding start
  Reach-Stored limit databases keys {s} {lost} empty pos small size r =
      let first = start sql databases keys in
      let before : Posted sql limit 0 first = ground arith in
      let posted = Reach-Posted sql limit {s = first} {t = s} {lost = lost} pos small before r in
      let stored =
        Reach-AllStored limit {s = first} {t = s} {lost = lost} pos small before
          (start-AllStored databases keys empty) r in
      (
        posted,
        stored,
        λ e z.
            (stored z).1
            ∙ stored_all limit s.records pos (
                ap (λ q. s.records + length q + 0) (sym e)
                ∙ ap (λ l. s.records + length s.queue + l) (sym z)
                ∙ posted),
      )
