-- ===== src/Sqlite/Examples.antt =====
-- The wrapper of src/sqlite3.cpp over a small library whose state is a number that says what the
-- next step reports.
use acppsrv.Prelude.Int.{pos}
use acppsrv.Prelude.{ℕ, some, if◌then◌else◌, ltb, nat_beq}
use acppsrv.Sqlite.{Driver, Query}

-- 0 is the end; 3, 5 and 8 report locks, 3 with an extended code; a row is left after the others.
abbrev pub step_of : ℕ → ℕ × ℕ
step_of n =
    if nat_beq n 0
    then (101, 0)
    else if nat_beq n 1
    then (100, 0)
    else if nat_beq n 2
    then (100, 1)
    else if nat_beq n 3
    then (517, 4)
    else if nat_beq n 5
    then (6, 6)
    else if nat_beq n 8
    then (5, 6)
    else if nat_beq n 9
    then (100, 8)
    else (100, 3)

abbrev pub script : Driver
script = record {
  S = ℕ;
  Db = Unit;
  Stmt = Unit;
  D = ℕ;
  open_v2 = λ file create s. (0, some tt, s);
  exec = λ db sql s. (0, s);
  close_v2 = λ db s. (0, s);
  errmsg = λ db s. "database is locked";
  interrupt = λ db s. s;
  prepare = λ db sql s. (0, some tt, s);
  finalize = λ q s. s;
  step = λ q s. step_of s;
  reset = λ q s. if nat_beq s 4 then 5 else 2;
  clear_bindings = λ q s. (0, s);
  bind_cell = λ q i v s. (if ltb i 3 then 0 else 25, s);
  column_count = λ q s. 1;
  column_type = λ q i s. 1;
  column_int64 = λ q i s. pos s;
  column_double = λ q i s. s;
  column_text = λ q i s. "";
  column_blob = λ q i s. "";
}

abbrev pub select : Query script
select = record {
  connection = record { file = "test.db"; handle = tt };
  sql = "select n from numbers";
  sql_id = "numbers";
  stmt = tt;
}
