-- ===== src/Bench/Record.antt =====
-- The record that a thread of benchmark/benchmark.cpp makes its keys and values of: `db_record` with
-- its constructor and `update`. SHA256 is an argument. The process and the thread identifier are
-- their bytes, four and eight.
pub mod Filled
pub mod Examples
use acppsrv.Prelude.{ℕ, zero, suc, ◌+◌, ◌*◌, ◌/◌, ◌%◌, List, [], copy_to, resize}
use acppsrv.Bench.Keys.{partition_key, hash_key}
use acppsrv.Bench.Partition.{key_sz}

pub record DbRecord : Type 0 where
  pub partition : ℕ
  pub hash : ℕ
  pub counter : ℕ
  pub key : List ℕ
  pub value_ : List ℕ

-- The constructor with `thread_init`.
unfoldable pub thread_init : List ℕ → List ℕ → DbRecord
thread_init pid tid = record {
  partition = 0;
  hash = 0;
  counter = 0;
  key = copy_to 4 tid (copy_to 0 pid (resize key_sz []));
  value_ = [];
}

-- The rounds of the loop from `i` on, `n` of them.
unfoldable pub fill : ℕ → ℕ → List ℕ → List ℕ → List ℕ
fill zero i key v = v
fill (suc n) i key v = fill n (i + 1) key (copy_to (i * key_sz) key v)

unfoldable pub update : (List ℕ → List ℕ) → ℕ → ℕ → DbRecord → DbRecord
update sha256 partitions value_sz r =
    let key = copy_to 0 (sha256 r.key) (resize key_sz r.key) in
    record r {
      partition = partition_key key % partitions;
      hash = hash_key key;
      key = key;
      value_ = fill (value_sz / key_sz) 0 key (resize value_sz r.value_);
    }
