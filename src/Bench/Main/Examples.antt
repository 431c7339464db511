-- ===== src/Bench/Main/Examples.antt =====
-- A run of the program benchmark/benchmark.cpp: the command create with four partitions.
use acppsrv.Prelude.{ℕ, ◌≡◌, refl, String, false, some, List, [], ◌∷◌}
use acppsrv.Log.{info}
use acppsrv.App.Examples.{bit}
use acppsrv.App.Pool.{Pool}
use acppsrv.Bench.Args.Examples.{fours, create_line}
use acppsrv.Bench.Partition.{Partition, destroy, run_bound, run_sql}
use acppsrv.Bench.Partition.Examples.{disk, numbers, system, has}
use acppsrv.Bench.Run.{Exception, destroy_all}
use acppsrv.Bench.Run.Examples.{mapping, starts}
use acppsrv.Bench.Main.{destroy_keys, run_threads, main}
use acppsrv.Sqlite.{make_query, next_row, start}

abbrev tasks : Pool bit → List (Partition disk numbers system) → List ℕ → List String → List String
tasks pool db keys s = s

abbrev munmap : List ℕ → List String → List String
munmap keys s = s

abbrev message : Exception → String
message e = "error"

create_succeeds :
    (main disk numbers system mapping fours 2 bit false tasks munmap message info
      ("create" ∷ create_line)
      []).code
    ≡ some 0
unfolding main run_threads destroy_keys destroy_all destroy run_bound run_sql make_query next_row
    start has
create_succeeds = rw starts refl
