-- ===== src/Bench/Handlers/Examples.antt =====
-- The handlers of benchmark/benchmark.cpp over a library whose state is whether a row is left.
use acppsrv.Prelude.Int.{pos}
use acppsrv.Prelude.{ℕ, ◌<◌, refl, Bool, true, false, some, if◌then◌else◌, arith}
use acppsrv.Sqlite.{Driver, Query, next_row, sqlite_row}
use acppsrv.Sqlite.Examples.{script}
use acppsrv.Db.Fetching.{Steps}
use acppsrv.Bench.Handlers.{handle_update}
use acppsrv.Bench.Handlers.Asserts.{OneRow, handle_update-Ends, Ends}

abbrev one_row : ℕ → Driver
one_row columns = record script {
  S = Bool;
  open_v2 = λ file create s. (0, some tt, s);
  exec = λ db sql s. (0, s);
  close_v2 = λ db s. (0, s);
  errmsg = λ db s. "";
  interrupt = λ db s. s;
  prepare = λ db sql s. (0, some tt, s);
  finalize = λ q s. s;
  step = λ q s. (if s then 100 else 101, false);
  reset = λ q s. true;
  clear_bindings = λ q s. (0, s);
  bind_cell = λ q i v s. (0, s);
  column_count = λ q s. columns;
  column_type = λ q i s. 3;
  column_int64 = λ q i s. pos i;
  column_double = λ q i s. i;
  column_text = λ q i s. "";
  column_blob = λ q i s. "";
}

abbrev statement : (columns : ℕ) → Query (one_row columns)
statement columns = record {
  connection = record { file = "part000"; handle = tt };
  sql = "";
  sql_id = "";
  stmt = tt;
}

one_row-OneRow : OneRow (one_row 3) (statement 3)
unfolding next_row
one_row-OneRow true t u h = ground arith
one_row-OneRow false t u h = ground arith

abbrev rows_left : Bool → ℕ
rows_left true = 1
rows_left false = 0

rows_shrink :
    (s t : Bool) → Steps (one_row 2) (statement 2) s sqlite_row t → rows_left t < rows_left s
rows_shrink true t (c, e) = ground arith
rows_shrink false t (c, e) = ground arith

rows_bounded : (s : Bool) → rows_left s < 2
rows_bounded true = omega arith
rows_bounded false = omega arith

handle_update-Ends_example :
    Ends
      (one_row 2)
      (statement 2)
      rows_left
      2
      rows_shrink
      rows_bounded
      (handle_update (one_row 2) 2 (statement 2) 7 true)
handle_update-Ends_example =
    handle_update-Ends (one_row 2) (statement 2) rows_left 2 rows_shrink rows_bounded 2 7 true
      (omega arith) (λ t. refl)
