-- ===== src/Bench/Create.antt =====
-- The command `create` of benchmark/benchmark.cpp: the tasks that the workers post to each other, and
-- the handler that stores one record in a partition, with its transaction. A posted task may run in
-- any order with those of other partitions; the tasks of one partition are serialized by its strand.
-- A handler is one step: what it shares with other partitions is the atomic counter and the posting.
pub mod Count
pub mod Stored
pub mod Transactions
use acppsrv.Prelude.{
  ℕ, zero, suc, ◌+◌, ◌%◌, ◌^◌, ◌≡◌, Bool, true, false, Option, none, some, List, [], ◌∷◌, ◌++◌, min,
  get_elem?, set, take, if◌then◌else◌, leb, nat_beq,
}
use acppsrv.Bench.Keys.{Key, written}

-- The database of a partition: what `begin`, `insert` and `commit` make of it, and whether they end
-- as done; otherwise an exception ends the handler.
pub record Database : Type 1 where
  pub T : Type 0
  pub begin : T → Bool × T
  pub insert : Key → T → Bool × T
  pub commit : T → Bool × T

abbrev pub transaction_sz : ℕ
transaction_sz = 100

abbrev pub request_queue_max : ℕ
request_queue_max = 1_000

-- The counter `records` is an `unsigned long`.
abbrev pub ulong_mod : ℕ
ulong_mod = 2 ^ 64

-- `worker::is_done`: the new value of the counter, and the result, with RECORDS.
abbrev pub count_record : ℕ → ℕ
count_record records = (records + 1) % ulong_mod

abbrev pub is_done : ℕ → ℕ → Bool
is_done limit records = leb limit records

unfoldable pub without : {A : Type 0} → ℕ → List A → List A
without i [] = []
without zero (x ∷ xs) = xs
without (suc i) (x ∷ xs) = x ∷ without i xs

-- How a handler ends: it posts another record, it is one after RECORDS are reached, its last `commit`
-- throws, or it throws before that.
pub data End : Type 0 where
  posts : End
  ends : End
  throws_last : End
  throws : End

-- A task that throws early has not posted the record that it should have.
unfoldable pub lost_by : End → ℕ
lost_by throws = 1
lost_by posts = 0
lost_by ends = 0
lost_by throws_last = 0

module _ (sql : Database) where
  open sql use {T, begin, insert, commit}

  pub record Partition : Type 0 where
    pub tx : T
    pub cur_tx : ℕ
    -- The keys that have been written as a whole, and the bytes of the file.
    pub keys : List Key
    pub file : List ℕ

  pub record State : Type 0 where
    pub parts : List Partition
    pub records : ℕ
    -- The tasks that are posted and have not begun.
    pub queue : List Key

  -- What a handler leaves: the partition, the counter, and how it ends.
  abbrev pub Outcome : Type 0
  Outcome = Partition × ℕ × End

  -- A statement that has to end as done, and what is left by its exception.
  abbrev pub then_do : Bool × T → (T → Outcome) → (T → Outcome) → Outcome
  then_do (false, tx) thrown f = thrown tx
  then_do (true, tx) thrown f = f tx

  abbrev pub left : ℕ → List Key → List ℕ → ℕ → End → T → Outcome
  left cur_tx keys file n e tx =
      (record { tx = tx; cur_tx = cur_tx; keys = keys; file = file }, n, e)

  -- The handler's end, when the record is stored.
  unfoldable pub finish : ℕ → ℕ → List Key → List ℕ → ℕ → T → Outcome
  finish limit cur_tx keys file records tx =
      let n = count_record records in
      if is_done limit n
      then then_do (commit tx) (left cur_tx keys file n throws_last) (left cur_tx keys file n ends)
      else if nat_beq (cur_tx + 1) transaction_sz
      then then_do (commit tx) (left (cur_tx + 1) keys file n throws) (left 0 keys file n posts)
      else left (cur_tx + 1) keys file n posts tx

  abbrev pub begun : Partition → Bool × T
  begun p = if nat_beq p.cur_tx 0 then begin p.tx else (true, p.tx)

  -- `partition::handle_create`; a call of fwrite fails after so many bytes of the two calls, or none.
  unfoldable pub handle_create : ℕ → Option ℕ → Key → ℕ → Partition → Outcome
  handle_create limit fails key records p =
      then_do (begun p) (left p.cur_tx p.keys p.file records throws) λ tx.
        then_do (insert key tx) (left p.cur_tx p.keys p.file records throws) λ tx'. elim fails [
          | none ↦ finish limit p.cur_tx (p.keys ++ key ∷ []) (p.file ++ written key) records tx'
          | some n ↦ left p.cur_tx p.keys (p.file ++ take n (written key)) records throws tx'
        ]

  -- A task has run: `i` is its place among the tasks, `next` the key of the record that it posts.
  unfoldable pub handled : State → ℕ → ℕ → Key → Outcome → State
  handled s i partition next (p, n, e) = record {
    parts = set s.parts partition p;
    records = n;
    queue = elim e [
      | posts ↦ without i s.queue ++ next ∷ []
      | ends ↦ without i s.queue
      | throws_last ↦ without i s.queue
      | throws ↦ without i s.queue
    ];
  }

  -- One task runs; the pool catches an exception and goes on.
  unfoldable pub step : ℕ → State → ℕ → Option ℕ → Key → Key → Partition → State
  step limit s i fails key next p =
      handled s i key.partition next (handle_create limit fails key s.records p)

  -- After tasks of which so many were cut by an exception before they could post the next record.
  pub data Reach (limit : ℕ) (s : State) : ℕ → State → Type 0 where
    here : Reach limit s 0 s
    later :
        {t : State} {lost : ℕ} (i : ℕ) (key next : Key) (fails : Option ℕ) (p : Partition)
        → Reach limit s lost t
        → get_elem? t.queue i ≡ some key
        → get_elem? t.parts key.partition ≡ some p
        → Reach limit s
            (lost + lost_by ((handle_create limit fails key t.records p).2))
            (step limit t i fails key next p)

  abbrev pub fresh : List T → List Partition
  fresh [] = []
  fresh (t ∷ ts) = record { tx = t; cur_tx = 0; keys = []; file = [] } ∷ fresh ts

  -- `worker::init` has posted the first records; `partition::partition` has made the partitions.
  unfoldable pub start : List T → List Key → State
  start databases keys = record { parts = fresh databases; records = 0; queue = keys }

-- The number of records that `create` posts at first.
abbrev pub requests : ℕ → ℕ
requests limit = min request_queue_max limit
