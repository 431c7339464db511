-- ===== src/Bench/Handlers.antt =====
-- The handlers of a partition in benchmark/benchmark.cpp for the requests: `handle_get`,
-- `handle_insert` and `handle_update`, over the wrapper of src/sqlite3.cpp. What follows the database
-- operations, `is_done` and the next request, is in the model of the requests.
pub mod Asserts
pub mod Examples
use acppsrv.Prelude.Int.{ℤ, pos}
use acppsrv.Prelude.{
  ℕ, zero, suc, ◌+◌, String, Bool, true, false, Option, none, some, if◌then◌else◌, nat_beq,
}
use acppsrv.Sqlite.{
  Driver, Cell, null, int64, double, string, blob, Status, row, done, locked, Query, Result, ok,
  raised, aborted, M, bind, get_column, next_row, start,
}

module _ (drv : Driver) where
  open drv use {S, column_count}

  infixl 5 ◌>>=◌ ◌>>◌
  abbrev pub ◌>>=◌ : {A B : Type 0} → M drv A → (A → M drv B) → M drv B
  ◌>>=◌ m f s = elim (m s) [ ok a s' ↦ f a s' | raised e s' ↦ raised e s' | aborted ↦ aborted ]

  abbrev pub ◌>>◌ : {A B : Type 0} → M drv A → M drv B → M drv B
  m >> n = m >>= λ _. n

  abbrev pub pure : {A : Type 0} → A → M drv A
  pure a s = ok a s

  abbrev pub assert : Bool → M drv Unit
  assert true s = ok tt s
  assert false s = aborted

  -- `std::get` of a column, which throws on a value of another type.
  abbrev pub text_of : Cell drv.D → M drv String
  text_of (string t) s = ok t s
  text_of _ s = raised (record { fun = "std::get"; what = "bad_variant_access" }) s

  abbrev pub int_of : Cell drv.D → M drv ℤ
  int_of (int64 n) s = ok n s
  int_of _ s = raised (record { fun = "std::get"; what = "bad_variant_access" }) s

  abbrev pub column : Query drv → ℕ → M drv (Cell drv.D)
  column q i s = ok (get_column drv q i s) s

  abbrev pub columns : Query drv → M drv ℕ
  columns q s = ok (column_count q.stmt s) s

  abbrev pub is_status_done : Status → Bool
  is_status_done done = true
  is_status_done _ = false

  -- The `switch` of `handle_get`.
  unfoldable pub after_get : Query drv → Status → M drv Unit
  after_get q row = do
    n ← columns q
    assert (nat_beq n 3)
    k ← column q 0
    text_of k
    c ← column q 1
    int_of c
    v ← column q 2
    text_of v
    st ← next_row drv q 0
    assert (is_status_done st)
  after_get q done = pure tt
  after_get q locked = assert false

  unfoldable pub handle_get : Query drv → ℕ → M drv Unit
  handle_get q hash = do
    start drv q false
    bind drv q 0 (int64 (pos hash))
    st ← next_row drv q 0
    after_get q st

  -- With the key, the hash and the value of the record; the counter is 0.
  unfoldable pub handle_insert : Query drv → String → ℕ → String → M drv Unit
  handle_insert q key hash value = do
    start drv q false
    bind drv q 0 (blob key)
    bind drv q 1 (int64 (pos hash))
    bind drv q 2 (int64 (pos 0))
    bind drv q 3 (blob value)
    st ← next_row drv q 0
    assert (is_status_done st)

  -- The loop over the other rows of an update, with the number of rows so far; `none` is out of fuel.
  unfoldable pub more_rows : ℕ → Query drv → ℕ → S → Option (Result drv ℕ)
  more_rows zero q n s = none
  more_rows (suc fuel) q n s = elim (next_row drv q 0 s) [
    | ok row s' ↦ more_rows fuel q (n + 1) s'
    | ok done s' ↦ some (ok n s')
    | ok locked s' ↦ some (ok n s')
    | raised e s' ↦ some (raised e s')
    | aborted ↦ some aborted
  ]

  -- The first row of an update.
  unfoldable pub first_row : Query drv → M drv Unit
  first_row q = do
    n ← columns q
    assert (nat_beq n 2)
    k ← column q 0
    text_of k
    c ← column q 1
    int_of c
    pure tt

  unfoldable pub update_rows : ℕ → Query drv → Result drv Unit → Option (Result drv ℕ)
  update_rows fuel q (ok _ s) = more_rows fuel q 1 s
  update_rows fuel q (raised e s) = some (raised e s)
  update_rows fuel q aborted = some aborted

  -- The `switch` of `handle_update`, with the number of updated rows.
  unfoldable pub after_update : ℕ → Query drv → Result drv Status → Option (Result drv ℕ)
  unfolding first_row update_rows
  after_update fuel q (ok row s) = update_rows fuel q (first_row q s)
  after_update fuel q (ok done s) = some (ok 0 s)
  after_update fuel q (ok locked s) = some aborted
  after_update fuel q (raised e s) = some (raised e s)
  after_update fuel q aborted = some aborted

  abbrev pub started_update : Query drv → ℕ → M drv Status
  started_update q hash = do start drv q false; bind drv q 0 (int64 (pos hash)); next_row drv q 0

  unfoldable pub handle_update : ℕ → Query drv → ℕ → S → Option (Result drv ℕ)
  unfolding after_update
  handle_update fuel q hash s = after_update fuel q (started_update q hash s)
