-- ===== src/Bench/Main.antt =====
-- `main` of benchmark/benchmark.cpp, and the commands create and requests from the start of their
-- threads to their end: the pool has run, the worker unmaps the known keys, and the partitions are
-- destroyed. What the tasks do to the state is an argument.
pub mod Codes
pub mod Examples
use acppsrv.Prelude.{
  ℕ, String, Bool, true, false, Option, none, some, List, [], ◌∷◌, join, if◌then◌else◌,
}
use acppsrv.Log.{LogLevel, emerg, crit, notice}
use acppsrv.Sqlite.{Driver}
use acppsrv.App.Pool.{Context, Pool}
use acppsrv.Bench.Args.{Chars}
use acppsrv.Bench.Partition.{Numbers, Platform, Partition}
use acppsrv.Bench.Run.{
  Mapping, Exception, Start, works, returns, throws, asserts, terminates, destroy_all, start_run,
}

-- What the process leaves: its exit code, none if it was aborted; its last message, and what it printed
-- besides.
pub record Exit : Type 0 where
  pub code : Option ℕ
  pub logged : Option (LogLevel × String)
  pub printed : String

abbrev pub finish : Bool → Exit
finish true = record {
  code = some 0;
  logged = some (notice, "Terminating successfully");
  printed = "";
}
finish false = record {
  code = some 1;
  logged = some (crit, "Terminating after error");
  printed = "";
}

-- The log never throws.
unfoldable pub final_exception : String → String → Exit
final_exception prefix msg = record {
  code = some 1;
  logged = some (emerg, join (prefix ∷ msg ∷ []));
  printed = join (prefix ∷ msg ∷ "\n" ∷ []);
}

abbrev pub aborted : Exit
aborted = record { code = none; logged = none; printed = "" }

module _ (drv : Driver) (num : Numbers) (os : Platform drv) (map : Mapping drv.S) (chars : Chars)
    (hardware : ℕ) (asio : Context) (context : asio.S) where
  open drv use {S}

  module _ (tasks : Pool asio → List (Partition drv num os) → List ℕ → S → S)
      (munmap : List ℕ → S → S) (what : Exception → String) where
    -- known_key_generator::~known_key_generator; without keys the file has not been mapped.
    unfoldable pub destroy_keys : List ℕ → S → S
    destroy_keys [] s = s
    destroy_keys (b ∷ bs) s = munmap (b ∷ bs) s

    -- After `wait`: the worker is destroyed before the partitions.
    unfoldable pub run_threads : Pool asio → List (Partition drv num os) → List ℕ → S → Option S
    unfolding destroy_keys
    run_threads pool db keys s =
        destroy_all drv num os map chars hardware asio context db
          (destroy_keys keys (tasks pool db keys s))

    abbrev pub succeeded : Option S → Exit
    succeeded none = aborted
    succeeded (some s) = finish true

    abbrev pub finished : Start drv num os map chars hardware asio context → Exit
    finished (works pool db keys s) = succeeded (run_threads pool db keys s)
    finished (returns ok) = finish ok
    finished (throws e) = final_exception "Terminated by unhandled exception: " (what e)
    finished asserts = aborted
    finished terminates = aborted

    unfoldable pub main : LogLevel → List String → S → Exit
    main level args s = finished (start_run drv num os map chars hardware asio context level args s)
