-- ===== src/Bench/Examples.antt =====
-- Small runs of `create` of benchmark/benchmark.cpp, and a small file of keys.
use acppsrv.Prelude.{
  ℕ, suc, ◌≡◌, ◌≢◌, refl, sym, ap, Bool, true, false, not, none, some, [], ◌∷◌, arith,
}
use acppsrv.Bench.Keys.{Key, written, file_of, get_key}
use acppsrv.Bench.Keys.File.{get_key-file_of}
use acppsrv.Bench.Create.{
  Database, Partition, State, ends, Reach, here, later, start, step, handled, handle_create, finish,
  without, lost_by,
}
use acppsrv.Bench.Create.Stored.{total, Reach-Stored}
use acppsrv.Bench.Create.Transactions.{IsBatched, handle_create-IsBatched, handle_create_twice}

-- A database is whether its transaction is open, and the number of its records.
abbrev flag : Database
flag = record {
  T = Bool × ℕ;
  begin = λ t. (not t.0, (true, t.1));
  insert = λ k t. (true, (t.0, suc t.1));
  commit = λ t. (t.0, (false, t.1));
}

flag_begins : (t t' : Bool × ℕ) → flag.begin t ≡ (true, t') → t'.0 ≡ true
flag_begins t t' h = ap (λ x. x.1.0) (sym h)

flag_inserts : (k : Key) (t t' : Bool × ℕ) → flag.insert k t ≡ (true, t') → t'.0 ≡ t.0
flag_inserts k t t' h = ap (λ x. x.1.0) (sym h)

flag_commits : (t t' : Bool × ℕ) → flag.commit t ≡ (true, t') → (t.0 ≡ true) × (t'.0 ≡ false)
flag_commits t t' h = (ap (λ x. x.0) h, ap (λ x. x.1.0) (sym h))

begin_keeps_rows : (t t' : Bool × ℕ) → flag.begin t ≡ (true, t') → t'.1 ≡ t.1
begin_keeps_rows t t' h = ap (λ x. x.1.1) (sym h)

insert_adds_row : (k : Key) (t t' : Bool × ℕ) → flag.insert k t ≡ (true, t') → t'.1 ≡ suc t.1
insert_adds_row k t t' h = ap (λ x. x.1.1) (sym h)

commit_keeps_rows : (b : Bool) (t t' : Bool × ℕ) → flag.commit t ≡ (b, t') → t'.1 ≡ t.1
commit_keeps_rows b t t' h = ap (λ x. x.1.1) (sym h)

abbrev in_0 : Key
in_0 = record { partition = 0; hash = 7 }

abbrev in_1 : Key
in_1 = record { partition = 1; hash = 1_000 }

abbrev new_partition : Partition flag
new_partition = record { tx = (false, 0); cur_tx = 0; keys = []; file = [] }

-- RECORDS is 2; the transaction of the first partition stays open.
abbrev ended : State flag
ended = record {
  parts =
      record { tx = (true, 1); cur_tx = 1; keys = in_0 ∷ []; file = file_of (in_0 ∷ []) }
      ∷ record {
        tx = (false, 2);
        cur_tx = 0;
        keys = in_1 ∷ in_1 ∷ [];
        file = file_of (in_1 ∷ in_1 ∷ []);
      }
      ∷ [];
  records = 3;
  queue = [];
}

three_stored : Reach flag 2 (start flag ((false, 0) ∷ (false, 0) ∷ []) (in_0 ∷ in_1 ∷ [])) 0 ended
unfolding start step handled handle_create finish without lost_by file_of written
three_stored =
    later 0 in_1 in_0 none
      (record { tx = (false, 1); cur_tx = 0; keys = in_1 ∷ []; file = file_of (in_1 ∷ []) })
      (later 0 in_1 in_0 none new_partition (later 0 in_0 in_1 none new_partition here refl refl)
        refl refl)
      refl refl

Reach-Stored_example :
    total flag (λ t. t.1) begin_keeps_rows insert_adds_row commit_keeps_rows ended.parts ≡ 3
Reach-Stored_example =
    (Reach-Stored flag (λ t. t.1) begin_keeps_rows insert_adds_row commit_keeps_rows 2
        ((false, 0) ∷ (false, 0) ∷ []) (in_0 ∷ in_1 ∷ []) {s = ended} {lost = 0} (refl, (refl, tt))
        (omega arith) (omega arith) refl three_stored).2
      refl refl

abbrev one_key : Partition flag
one_key = record { tx = (true, 1); cur_tx = 1; keys = in_0 ∷ []; file = file_of (in_0 ∷ []) }

handle_create-IsBatched_example :
    IsBatched flag (λ t. t.0) flag_begins flag_inserts flag_commits one_key
unfolding handle_create finish file_of written
handle_create-IsBatched_example =
    handle_create-IsBatched flag (λ t. t.0) flag_begins flag_inserts flag_commits 5 0 1 none in_0
      new_partition one_key (refl, refl) refl

abbrev committed : Partition flag
committed = record {
  tx = (false, 2);
  cur_tx = 1;
  keys = in_0 ∷ in_0 ∷ [];
  file = file_of (in_0 ∷ in_0 ∷ []);
}

handle_create_twice_example : (handle_create flag 2 none in_0 2 committed).2 ≢ ends
unfolding handle_create finish file_of written
handle_create_twice_example =
    handle_create_twice flag (λ t. t.0) flag_begins flag_inserts flag_commits 2 1 2 2 none none in_0
      in_0 one_key committed (λ h. absurd (omega (arith, h))) refl refl refl

get_key-file_of_example : get_key (file_of (in_0 ∷ in_1 ∷ [])) (in_0 ∷ []) 7 ≡ some in_1
get_key-file_of_example =
    get_key-file_of (in_0 ∷ in_1 ∷ []) (in_0 ∷ []) 7 2
      ((omega arith, omega arith), ((omega arith, omega arith), tt)) refl
