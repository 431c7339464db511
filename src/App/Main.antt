-- ===== src/App/Main.antt =====
-- `main` of src/acppsrv.cpp, and `application::run` of src/application.cpp up to "Start processing".
-- The databases, the acceptor, the file, and how the processing ends are the environment.
use acppsrv.Prelude.Int.{pos_part}
use acppsrv.Prelude.{
  ℕ, String, Bool, true, false, Option, none, some, List, [], ◌∷◌, if◌then◌else◌, nat_beq, join,
}
use acppsrv.Log.{LogLevel}
use acppsrv.Config.{
  Float, ThreadPool, ThreadPools, Configuration, ReadFile, load, main_pools, num_threads,
}
use acppsrv.Sqlite.{Driver}
use acppsrv.Db.{DbDef, World}
use acppsrv.Db.Setup
use acppsrv.Db.Setup.{Opened}
use acppsrv.Http.Server.{Acceptor, make_server}
use acppsrv.Http.Server

-- How `application::run` ends: it returns, an exception leaves it, or an assertion fails.
pub data AppEnd : Type 0 where
  returns : Bool → AppEnd
  throws : String → AppEnd
  aborts : AppEnd

-- `tp && tp->has_database() ? &tp->database() : nullptr`
abbrev pub database_pool : Option ThreadPools → Option ThreadPool
database_pool none = none
database_pool (some tp) = tp.database

-- How the running of the pools ends, when the acceptor listens: starting their threads may throw, a
-- failed assertion may end it, and it may not end at all; see `App.Shutdown`.
abbrev pub after_http : Option AppEnd → Server.Run → Option AppEnd
after_http processing (Server.Run.throws e) = some (throws e)
after_http processing Server.Run.failed = some (returns false)
after_http processing Server.Run.accepting = processing

module _ (drv : Driver) (fl : Float) where
  open fl use {F}

  pub record Environment : Type 0 where
    pub hardware : ℕ
    pub world : World drv
    pub acceptor : Acceptor
    pub max_listen : ℕ
    -- From "Start processing" on.
    pub processing : Option AppEnd

  abbrev pub open_databases :
      Environment → Configuration F → Opened drv fl (List (List (String × DbDef drv)))
  open_databases env c =
      Setup.run drv fl c.databases
        (pos_part (num_threads env.hardware (database_pool c.thread_pools))) env.world

  abbrev pub start_http : Environment → Configuration F → Server.Run
  start_http env c =
      Server.run (make_server fl c (pos_part (main_pools c))) env.acceptor env.max_listen

  -- `none` while it runs.
  unfoldable pub application : Environment → Configuration F → Option AppEnd
  application env c = elim (open_databases env c) [
    | Opened.opened databases w ↦ after_http env.processing (start_http env c)
    | Opened.refused e w ↦ some (returns false)
    | Opened.stopped ↦ some aborts
    | Opened.no_entry ↦ some (throws "map::at")
  ]

  -- What the process leaves: its exit code, the level of the logger, and its last message. An
  -- assertion leaves no exit code.
  pub record Exit : Type 0 where
    pub code : Option ℕ
    pub level : LogLevel
    pub message : String

  abbrev pub finish : Bool → LogLevel → Exit
  finish true level = record { code = some 0; level = level; message = "Terminating successfully" }
  finish false level = record { code = some 1; level = level; message = "Terminating after error" }

  abbrev pub final_exception : String → LogLevel → Exit
  final_exception what level = record {
    code = some 1;
    level = level;
    message = join ("Terminated by unhandled exception: " ∷ what ∷ []);
  }

  abbrev pub after_app : Option AppEnd → LogLevel → Option Exit
  after_app none level = none
  after_app (some (returns result)) level = some (finish result level)
  after_app (some (throws what)) level = some (final_exception what level)
  after_app (some aborts) level = some (record { code = none; level = level; message = "" })

  abbrev pub set_level : Option LogLevel → LogLevel → LogLevel
  set_level none level = level
  set_level (some l) level = l

  unfoldable pub run_main :
      Environment → (String → Bool × Configuration F) → ℕ → ReadFile → LogLevel → Option Exit
  run_main env parse argc file level =
      if nat_beq argc 2
      then (let cfg = load fl parse file in
          if cfg.is_valid
          then after_app (application env cfg.cfg) (set_level cfg.log_level level)
          else some (finish false level))
      else some (finish false level)
