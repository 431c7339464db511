-- ===== src/Bench/Main/Codes.antt =====
-- When the exit code of benchmark/benchmark.cpp is that of success.
use acppsrv.Prelude.{
  ℕ, ◌≡◌, refl, ◌⊎◌, inl, inr, String, true, false, Option, none, some, List, arith,
}
use acppsrv.Log.{LogLevel}
use acppsrv.Sqlite.{Driver}
use acppsrv.App.Pool.{Context, Pool}
use acppsrv.Bench.Args.{Chars}
use acppsrv.Bench.Partition.{Numbers, Platform, Partition}
use acppsrv.Bench.Run.{
  Mapping, Exception, Start, works, returns, throws, asserts, terminates, start_run,
}
use acppsrv.Bench.Main.{run_threads, finished, main, final_exception, succeeded}

module _ (drv : Driver) (num : Numbers) (os : Platform drv) (map : Mapping drv.S) (chars : Chars)
    (hardware : ℕ) (asio : Context) (context : asio.S) where
  open drv use {S}

  module _ (tasks : Pool asio → List (Partition drv num os) → List ℕ → S → S)
      (munmap : List ℕ → S → S) (what : Exception → String) where
    abbrev Begun : Type 0
    Begun = Start drv num os map chars hardware asio context

    -- The help, or a command that has got through to its end.
    abbrev pub Succeeds : Begun → Type 0
    Succeeds start =
        (start ≡ returns true)
        ⊎ ((pool : Pool asio) × (db : List (Partition drv num os)) × (keys : List ℕ) × (s : S)
            × (t : S) × (start ≡ works pool db keys s)
            × (run_threads drv num os map chars hardware asio context tasks munmap what pool db keys
                  s
                ≡ some t))

    succeeded-code :
        (r : Option S)
        → (succeeded drv num os map chars hardware asio context tasks munmap what r).code ≡ some 0
        → (t : S) × (r ≡ some t)
    succeeded-code none h = cc
    succeeded-code (some t) h = (t, refl)

    finished-code :
        (start : Begun)
        → (finished drv num os map chars hardware asio context tasks munmap what start).code
          ≡ some 0
        → Succeeds start
    unfolding final_exception
    finished-code (works pool db keys s) h =
        let (t, e) =
          succeeded-code
            (run_threads drv num os map chars hardware asio context tasks munmap what pool db keys
              s)
            h in
        inr (pool, db, keys, s, t, refl, e)
    finished-code (returns true) h = inl refl
    finished-code (returns false) h = ground arith
    finished-code (throws e) h = ground arith
    finished-code asserts h = ground arith
    finished-code terminates h = ground arith

    -- The exit code is that of success only after the help, or when all partitions have been made, the
    -- threads have run, and no destructor of a partition has failed.
    main-code :
        (level : LogLevel) (args : List String) (s : S)
        → (main drv num os map chars hardware asio context tasks munmap what level args s).code
          ≡ some 0
        → Succeeds (start_run drv num os map chars hardware asio context level args s)
    unfolding main
    main-code level args s =
        finished-code (start_run drv num os map chars hardware asio context level args s)
