-- ===== src/Bench/Args/Command.antt =====
-- `run` of benchmark/benchmark.cpp.
use acppsrv.Prelude.{ℕ, String, ◌==◌, Option, none, some, List, [], ◌∷◌, if◌then◌else◌}
use acppsrv.Log.{LogLevel, from_string}
use acppsrv.Bench.Args.{Chars, Parsed, accepted, usage, ◌>>=◌, CreateArgs, create_args}
use acppsrv.Bench.Args.Requests.{RequestsArgs, requests_args}

module _ (chars : Chars) (hardware : ℕ) where
  -- What `run` does: a command with its arguments, the help, or the usage, with the level it has set.
  pub data Command : Type 0 where
    create : CreateArgs → Command
    requests : RequestsArgs chars hardware → Command
    help : Command

  abbrev pub with_args : {A : Type 0} → (A → Command) → Parsed A → Parsed Command
  with_args f p = p >>= λ a. accepted (f a)

  unfoldable pub dispatch : List String → Parsed Command
  dispatch [] = usage
  dispatch (cmd ∷ args) =
      if cmd == "create"
      then with_args create (create_args chars hardware args)
      else if cmd == "help"
      then accepted help
      else if cmd == "requests"
      then with_args requests (requests_args chars hardware args)
      else usage

  abbrev pub known_level : LogLevel → List String → Option LogLevel → Parsed Command × LogLevel
  known_level level rest none = (usage, level)
  known_level level rest (some level') = (dispatch rest, level')

  abbrev pub level_option : LogLevel → List String → Parsed Command × LogLevel
  level_option level [] = (usage, level)
  level_option level (l ∷ rest) = known_level level rest (from_string l)

  -- `run` without the program's name.
  unfoldable pub run : LogLevel → List String → Parsed Command × LogLevel
  unfolding dispatch
  run level [] = (usage, level)
  run level (a ∷ args) = if a == "-l" then level_option level args else (dispatch (a ∷ args), level)
