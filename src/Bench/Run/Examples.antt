-- ===== src/Bench/Run/Examples.antt =====
-- The command `create` of benchmark/benchmark.cpp with four partitions on an empty disk.
use acppsrv.Prelude.{false, ◌≡◌, refl, String, none, some, List, [], ◌∷◌}
use acppsrv.Log.{info}
use acppsrv.Sqlite.{connect, make_query, bind, start, next_row}
use acppsrv.App.Pool.{Pool, absent, make_pool}
use acppsrv.App.Examples.{bit}
use acppsrv.Bench.Args.{create_args}
use acppsrv.Bench.Args.Command.{run, dispatch}
use acppsrv.Bench.Args.Examples.{fours, create_line}
use acppsrv.Bench.Partition.{
  Partition, path_data, path_idx, path_keys, path_of, page_size, run_bound, run_sql, require_new,
  create_files, configure, open_keys, with_query, prepare_queries, set_up, make_partition,
  make_partitions,
}
use acppsrv.Bench.Partition.Examples.{has, disk, numbers, system, partition_of}
use acppsrv.Finally.Once.{state}
use acppsrv.Bench.Run.{Mapping, works, map_keys, start_create, start_run}
use acppsrv.Bench.Run.Descriptor.{recorded, IsClosed, map_keys-IsClosed}
use acppsrv.Bench.Run.Bounds.{InBounds, start_run-InBounds}

abbrev pub mapping : Mapping (List String)
mapping = record {
  Fd = Unit;
  open_read = λ f s. (some tt, s);
  close = λ fd s. s;
  file_size = λ f s. some 0;
  mmap = λ n fd s. (some [], s);
}

abbrev four_partitions : List (Partition disk numbers system)
four_partitions =
    partition_of "bench000"
    ∷ partition_of "bench001"
    ∷ partition_of "bench002"
    ∷ partition_of "bench003"
    ∷ []

abbrev two_threads : Pool bit
two_threads = record { ctx = false; threads = absent ∷ absent ∷ [] }

abbrev files : List String
files =
    "bench003_keys.bin" ∷ "bench003_idx.sqlite" ∷ "bench003_data.sqlite" ∷ "bench002_keys.bin"
    ∷ "bench002_idx.sqlite" ∷ "bench002_data.sqlite" ∷ "bench001_keys.bin" ∷ "bench001_idx.sqlite"
    ∷ "bench001_data.sqlite" ∷ "bench000_keys.bin" ∷ "bench000_idx.sqlite" ∷ "bench000_data.sqlite"
    ∷ []

pub starts :
    start_run disk numbers system mapping fours 2 bit false info ("create" ∷ create_line) []
    ≡ works two_threads four_partitions [] files
unfolding has make_pool start_run run dispatch create_args start_create make_partitions
    make_partition create_files configure set_up prepare_queries with_query run_bound run_sql
    require_new open_keys path_data path_idx path_keys path_of page_size connect make_query bind
    start next_row
starts = refl

start_run-InBounds_example :
    InBounds disk numbers system mapping fours 2 bit false two_threads four_partitions
start_run-InBounds_example =
    start_run-InBounds disk numbers system mapping fours 2 bit false info ("create" ∷ create_line)
      [] files two_threads four_partitions [] starts

-- The file is opened, and its mapping fails.
abbrev unmapped : Mapping (List String)
unmapped = record mapping { mmap = λ n fd s. (none, s) }

map_keys-IsClosed_example :
    IsClosed unmapped (state (map_keys (recorded unmapped) "bench_keys.bin" (files, []))).1
map_keys-IsClosed_example = map_keys-IsClosed unmapped "bench_keys.bin" files
