-- ===== src/Bench/Partition/Examples.antt =====
-- Two partitions of benchmark/benchmark.cpp on a disk that is the list of its files.
use acppsrv.Prelude.Int.{pos}
use acppsrv.Prelude.{
  ℕ, ◌+◌, ◌*◌, ◌<◌, ◌≡◌, refl, String, Bool, true, false, ◌||◌, ◌==◌, some, List, [], ◌∷◌,
  if◌then◌else◌, length, nat_beq, join,
}
use acppsrv.Sqlite.{Driver, Query, connect, make_query, bind, start, next_row}
use acppsrv.Bench.Args.{CreateArgs}
use acppsrv.Bench.Partition.{
  Numbers, Platform, Partition, file_exists, path_data, path_idx, path_keys, path_of, page_size,
  run_bound, run_sql, require_new, create_files, configure, open_keys, with_query, prepare_queries,
  set_up, make_partition, through, thrown, make_partitions, insert_text, get_text, update_text,
}
use acppsrv.Bench.Partition.Fresh.{FreshFrom, make_partitions-AllFresh}

unfoldable pub has : String → List String → Bool
has f [] = false
has f (g ∷ gs) = f == g || has f gs

abbrev pub disk : Driver
disk = record {
  S = List String;
  Db = Unit;
  Stmt = Unit;
  D = ℕ;
  open_v2 = λ file create s. (0, some tt, if create then file ∷ s else s);
  exec = λ db sql s. (0, s);
  close_v2 = λ db s. (0, s);
  errmsg = λ db s. "";
  interrupt = λ db s. s;
  prepare = λ db sql s. (0, some tt, s);
  finalize = λ q s. s;
  step = λ q s. (101, s);
  reset = λ q s. s;
  clear_bindings = λ q s. (0, s);
  bind_cell = λ q i v s. (0, s);
  column_count = λ q s. 0;
  column_type = λ q i s. 5;
  column_int64 = λ q i s. pos 0;
  column_double = λ q i s. 0;
  column_text = λ q i s. "";
  column_blob = λ q i s. "";
}

-- Numbers up to 3, and the cache sizes without fractions.
abbrev pub numbers : Numbers
numbers = record {
  F = ℕ;
  padded = λ n.
      if nat_beq n 0
      then "000"
      else if nat_beq n 1
      then "001"
      else if nat_beq n 2
      then "002"
      else "003";
  text = λ n. "1024";
  of_nat = λ n. n;
  plus = λ a b. a + b;
  times = λ a b. a * b;
  over = λ a b. a;
  negate = λ a. a;
  to_int64 = λ a. pos a;
}

abbrev pub system : Platform disk
system = record {
  File = Unit;
  exists = has;
  open_append = λ f s. (some tt, f ∷ s);
  fclose = λ f s. s;
}

abbrev args : CreateArgs
args = record {
  path = "/tmp/p";
  partitions = 2;
  records = 10;
  value_sz = 500;
  cache_kib = 64;
  threads = 1;
}

abbrev pub query_of : String → String → Query disk
query_of file sql = record {
  connection = record { file = file; handle = tt };
  sql = sql;
  sql_id = "";
  stmt = tt;
}

abbrev pub partition_of : String → Partition disk numbers system
partition_of path =
    let file = join (path ∷ "_data.sqlite" ∷ []) in
    record {
      path = path;
      db = record { file = file; handle = tt };
      keys_file = tt;
      insert_data = query_of file insert_text;
      begin_transaction = query_of file "begin";
      commit_transaction = query_of file "commit";
      request_get = query_of file get_text;
      request_update = query_of file update_text;
    }

abbrev both : List (Partition disk numbers system)
both = partition_of "/tmp/p000" ∷ partition_of "/tmp/p001" ∷ []

abbrev files : List String
files =
    "/tmp/p001_keys.bin" ∷ "/tmp/p001_idx.sqlite" ∷ "/tmp/p001_data.sqlite" ∷ "/tmp/p000_keys.bin"
    ∷ "/tmp/p000_idx.sqlite" ∷ "/tmp/p000_data.sqlite" ∷ []

two_partitions : make_partitions disk numbers system true args 2 0 [] [] ≡ through both files
unfolding has make_partitions make_partition create_files configure set_up prepare_queries
    with_query run_bound run_sql require_new open_keys path_data path_idx path_keys path_of
    page_size connect make_query bind start next_row
two_partitions = refl

make_partitions-AllFresh_example :
    ((ps : List (Partition disk numbers system)) (s' : List String)
      → make_partitions disk numbers system true args 2 0 [] [] ≡ through ps s'
      → (length ps ≡ 2) × FreshFrom disk numbers system args 0 [] s' ps)
    × (has (path_data (path_of numbers "/tmp/p" 0)) [] ≡ true
        → 0 < 2
        → make_partitions disk numbers system true args 2 0 [] []
          ≡ thrown (file_exists (path_data (path_of numbers "/tmp/p" 0))) [] [])
make_partitions-AllFresh_example = make_partitions-AllFresh disk numbers system args 2 []
