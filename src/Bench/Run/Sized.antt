-- ===== src/Bench/Run/Sized.antt =====
-- The number of partitions of a command that the command line gives.
use acppsrv.Prelude.{
  ℕ, ◌≤◌, ◌≡◌, refl, subst, String, Bool, true, false, ◌==◌, Option, none, some, List, [], ◌∷◌,
  if◌then◌else◌,
}
use acppsrv.Log.{LogLevel, from_string}
use acppsrv.Bench.Args.{Chars, Parsed, accepted, usage, aborts, CreateArgs, create_args}
use acppsrv.Bench.Args.Requests.{RequestsArgs, requests_args}
use acppsrv.Bench.Args.Command.{
  Command, create, requests, help, with_args, dispatch, known_level, level_option, run,
}
use acppsrv.Bench.Args.Valid.{create_args-IsSized, requests_args-IsSized}

module _ (chars : Chars) (hardware : ℕ) where
  -- The number of partitions that a command works with.
  abbrev pub SizedCommand : Command chars hardware → Type 0
  SizedCommand (create a) = (1 ≤ a.partitions) × (a.partitions ≤ 256)
  SizedCommand (requests a) = (1 ≤ a.partitions) × (a.partitions ≤ 256)
  SizedCommand help = Unit

  create-SizedCommand :
      (args : List String) (c : Command chars hardware) (p : Parsed CreateArgs)
      → create_args chars hardware args ≡ p
      → with_args chars hardware create p ≡ accepted c
      → SizedCommand c
  create-SizedCommand args c (accepted a) e h =
      let (sized, _, _) = create_args-IsSized chars hardware args a e in
      let same : create a ≡ c = cc in
      subst SizedCommand same (sized.some_partitions, sized.partitions_fit)
  create-SizedCommand args c usage e h = cc
  create-SizedCommand args c aborts e h = cc

  requests-SizedCommand :
      (args : List String) (c : Command chars hardware) (p : Parsed (RequestsArgs chars hardware))
      → requests_args chars hardware args ≡ p
      → with_args chars hardware requests p ≡ accepted c
      → SizedCommand c
  requests-SizedCommand args c (accepted a) e h =
      let (sized, _, _, _) = requests_args-IsSized chars hardware args a e in
      let same : requests a ≡ c = cc in
      subst SizedCommand same (sized.some_partitions, sized.partitions_fit)
  requests-SizedCommand args c usage e h = cc
  requests-SizedCommand args c aborts e h = cc

  dispatch-SizedCommand :
      (args : List String) (c : Command chars hardware)
      → dispatch chars hardware args ≡ accepted c
      → SizedCommand c
  unfolding dispatch
  dispatch-SizedCommand [] c h = cc
  dispatch-SizedCommand (cmd ∷ args) c h =
      go (cmd == "create") (cmd == "help") (cmd == "requests") h
    where
      go :
          (b1 b2 b3 : Bool)
          → (if b1
              then with_args chars hardware create (create_args chars hardware args)
              else if b2
              then accepted help
              else if b3
              then with_args chars hardware requests (requests_args chars hardware args)
              else usage)
            ≡ accepted c
          → SizedCommand c
      go true b2 b3 e = create-SizedCommand args c (create_args chars hardware args) refl e
      go false true b3 e = let same : help ≡ c = cc in subst SizedCommand same tt
      go false false true e =
          requests-SizedCommand args c (requests_args chars hardware args) refl e
      go false false false e = cc

  option-SizedCommand :
      (level : LogLevel) (args : List String) (c : Command chars hardware)
      → (level_option chars hardware level args).0 ≡ accepted c
      → SizedCommand c
  option-SizedCommand level [] c h = cc
  option-SizedCommand level (l ∷ rest) c h = go (from_string l) h
    where
      go :
          (o : Option LogLevel)
          → (known_level chars hardware level rest o).0 ≡ accepted c
          → SizedCommand c
      go none e = cc
      go (some level') e = dispatch-SizedCommand rest c e

  pub run-SizedCommand :
      (level : LogLevel) (args : List String) (c : Command chars hardware)
      → (run chars hardware level args).0 ≡ accepted c
      → SizedCommand c
  unfolding run
  run-SizedCommand level [] c h = cc
  run-SizedCommand level (a ∷ args) c h = go (a == "-l") h
    where
      go :
          (b : Bool)
          → (if b
              then level_option chars hardware level args
              else (dispatch chars hardware (a ∷ args), level)).0
            ≡ accepted c
          → SizedCommand c
      go true e = option-SizedCommand level args c e
      go false e = dispatch-SizedCommand (a ∷ args) c e
