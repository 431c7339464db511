-- ===== src/Bench/Partition/Files.antt =====
-- The names, sizes and statements with which benchmark/benchmark.cpp makes the files of a partition,
-- and what it uses of the system.
use acppsrv.Prelude.Int.{ℤ}
use acppsrv.Prelude.{ℕ, String, Bool, Option, [], ◌∷◌, if◌then◌else◌, ltb, join}
use acppsrv.Sqlite.{Driver, Error}
use acppsrv.Bench.Args.{CreateArgs}

-- Numbers as texts, and the operations of `double` that the size of the cache needs.
pub record Numbers : Type 1 where
  pub F : Type 0
  -- setw(3) << setfill('0') << idx
  pub padded : ℕ → String
  -- std::to_string
  pub text : ℤ → String
  pub of_nat : ℕ → F
  pub plus : F → F → F
  pub times : F → F → F
  pub over : F → F → F
  pub negate : F → F
  pub to_int64 : F → ℤ

-- What the functions on files make of the state of the system.
pub record Platform (drv : Driver) : Type 1 where
  pub File : Type 0
  pub exists : String → drv.S → Bool
  -- fopen(path, "ab"), which may give no file
  pub open_append : String → drv.S → Option File × drv.S
  pub fclose : File → drv.S → drv.S

-- partition::exists, partition::keys_write, and the errors of the wrapper
pub data Failure : Type 0 where
  file_exists : String → Failure
  keys_write : String → Failure
  sqlite_error : Error → Failure

abbrev pub key_sz : ℕ
key_sz = 32

unfoldable pub page_size : ℕ → ℕ
page_size value_sz =
    if ltb value_sz 400
    then 512
    else if ltb value_sz 1900
    then 1024
    else if ltb value_sz 3900
    then 2048
    else 4096

unfoldable pub path_data : String → String
path_data path = join (path ∷ "_data.sqlite" ∷ [])

unfoldable pub path_idx : String → String
path_idx path = join (path ∷ "_idx.sqlite" ∷ [])

unfoldable pub path_keys : String → String
path_keys path = join (path ∷ "_keys.bin" ∷ [])

-- The statements of the constructor.
abbrev pub create_data : String
create_data =
    "\n            create table main.data\n                (key blob not null, hash int not null, counter int not null default 0, value blob not null default '')\n            "

abbrev pub create_idx : String
create_idx =
    "create table idx.idx (hash int not null, id int not null, primary key (hash, id)) without rowid"

abbrev pub insert_text : String
insert_text = "insert into main.data values (?1, ?2, ?3, ?4)"

abbrev pub get_text : String
get_text = "select hex(key), counter, hex(value) from data where hash = ?1 limit 1"

abbrev pub update_text : String
update_text = "update data set counter = counter + 1 where hash = ?1 returning hex(key), counter"

module _ (num : Numbers) where
  open num use {F, padded, of_nat, plus, times, over, negate, to_int64}

  -- The static `path_idx` with two arguments.
  unfoldable pub path_of : String → ℕ → String
  path_of path idx = join (path ∷ padded idx ∷ [])

  abbrev pub cache_sz : CreateArgs → F
  cache_sz args = over (of_nat args.cache_kib) (of_nat args.partitions)

  abbrev pub data_record : ℕ → F
  data_record value_sz =
      plus (plus (plus (plus (of_nat 8) (of_nat key_sz)) (of_nat 4)) (of_nat 8)) (of_nat value_sz)

  abbrev pub idx_record : F
  idx_record = plus (plus (of_nat 8) (of_nat 4)) (of_nat 4)

  abbrev pub cache_size : CreateArgs → ℤ
  cache_size args =
      let size = data_record args.value_sz in
      to_int64 (over (times (negate (cache_sz args)) size) (plus size idx_record))
