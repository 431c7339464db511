-- ===== src/Sqlite/Handles/Examples.antt =====
-- A database of src/sqlite3.cpp that cannot be opened, with a handle that stays open.
use acppsrv.Prelude.{ℕ, ◌≡◌, ◌≢◌, false, some}
use acppsrv.Sqlite.{Driver, Error, raised, connect}
use acppsrv.Sqlite.Handles.{Counted, counted}
use acppsrv.Sqlite.Handles.Leaks.{Leaves, connect-Leaves}
use acppsrv.Sqlite.Examples.{script}

-- The status 14 is SQLITE_CANTOPEN.
abbrev no_file : Driver
no_file = record script { open_v2 = λ file create s. (14, some tt, s) }

abbrev library : ℕ → Counted ℕ
library n = record { inner = 0; connections = n; statements = 0 }

connect-Leaves_example :
    Leaves no_file (connect (counted no_file) "test.db" false (library 2)) 3 0
    × (◌≢◌ {A = ℕ} 14 0
        → (e : Error) × (t : Counted ℕ) × connect (counted no_file) "test.db" false (library 2)
            ≡ raised e t)
connect-Leaves_example = connect-Leaves no_file "test.db" false (library 2)
