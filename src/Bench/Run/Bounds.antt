-- ===== src/Bench/Run/Bounds.antt =====
-- Where the threads of benchmark/benchmark.cpp start, each new record has its partition.
use acppsrv.Prelude.{
  ℕ, zero, replicate, suc, ◌%◌, ◌<◌, ◌≤◌, ◌≡◌, refl, ap, subst, String, true, false, Option, none,
  some, List, [], ◌∷◌, length, get_elem?, arith,
}
use acppsrv.Prelude.Int.{ℤ, pos, negsuc}
use acppsrv.Config.{to_int}
use acppsrv.App.Pool.{Context, Pool, absent, make_pool}
use acppsrv.Log.{LogLevel}
use acppsrv.Sqlite.{Driver}
use acppsrv.Finally.{normally, by_exception}
use acppsrv.Bench.Args.{Chars, Parsed, accepted, usage, aborts, CreateArgs}
use acppsrv.Bench.Args.Requests.{RequestsArgs}
use acppsrv.Bench.Args.Command.{Command, create, requests, help, run}
use acppsrv.Bench.Keys.{update}
use acppsrv.Bench.Partition.{
  Numbers, Platform, Failure, file_exists, Partition, Created, through, thrown, assertion,
  make_partitions,
}
use acppsrv.Bench.Partition.Fresh.{length-make_partitions}
use acppsrv.Bench.Run.{
  Mapping, of_partition, Mapped, map_keys, Start, works, throws, destroyed, pooled, with_pool,
  destroy_all, caught, created, start_create, base, with_keys, opened, start_requests,
  start_command, start_parsed, start_run, strand_of,
}
use acppsrv.Bench.Run.Sized.{SizedCommand, run-SizedCommand}

update-partition_lt : (digest : List ℕ) (n : ℕ) → 0 < n → (update digest n).partition < n
unfolding update
update-partition_lt digest n h = omega arith

get_elem?-some :
    {A : Type 0} (xs : List A) (i : ℕ) → i < length xs → (x : A) × (get_elem? xs i ≡ some x)
get_elem?-some [] i h = absurd (omega arith)
get_elem?-some (x ∷ xs) zero h = (x, refl)
get_elem?-some (x ∷ xs) (suc i) h = get_elem?-some xs i (omega arith)

module _ (drv : Driver) (num : Numbers) (os : Platform drv) (map : Mapping drv.S) (chars : Chars)
    (hardware : ℕ) (asio : Context) (context : asio.S) where
  open drv use {S}

  not_destroyed :
      {pool : Pool asio} {db : List (Partition drv num os)} {keys : List ℕ} {s : S}
      (start : Start drv num os map chars hardware asio context) (o : Option S)
      → destroyed drv num os map chars hardware asio context start o ≡ works pool db keys s
      → start ≡ works pool db keys s
  not_destroyed start none h = cc
  not_destroyed start (some s) h = h

  not_caught :
      {pool : Pool asio} {db : List (Partition drv num os)} {keys : List ℕ} {s : S} {A : Type 0}
      (e : Failure)
      → caught drv num os map chars hardware asio context e ≡ works pool db keys s
      → A
  not_caught (file_exists path) h = cc
  not_caught (Failure.keys_write path) h = cc
  not_caught (Failure.sqlite_error e) h = cc

  with_pool-works :
      {pool : Pool asio} {db : List (Partition drv num os)} {keys : List ℕ} {s : S} (threads : ℕ)
      (f : Pool asio → Start drv num os map chars hardware asio context)
      → with_pool drv num os map chars hardware asio context threads f ≡ works pool db keys s
      → (p : Pool asio) × (1 ≤ length p.threads) × (f p ≡ works pool db keys s)
  unfolding make_pool
  with_pool-works {pool} {db} {keys} {s} threads f h = go (to_int threads) h
    where
      go :
          (k : ℤ)
          → pooled drv num os map chars hardware asio context f (make_pool asio context k)
            ≡ works pool db keys s
          → (p : Pool asio) × (1 ≤ length p.threads) × (f p ≡ works pool db keys s)
      go (pos zero) e = cc
      go (pos (suc n)) e =
          (record { ctx = context; threads = replicate (suc n) absent }, omega arith, e)
      go (negsuc n) e = cc

  start_create-length :
      (args : CreateArgs) (s s' : S) (pool : Pool asio) (db : List (Partition drv num os))
      (keys : List ℕ)
      → start_create drv num os map chars hardware asio context args s ≡ works pool db keys s'
      → (length db ≡ args.partitions) × (1 ≤ length pool.threads)
  unfolding start_create
  start_create-length args s s' pool db keys h =
      let (p, some_threads, h') =
        with_pool-works args.threads
          (λ p.
            created drv num os map chars hardware asio context p
              (make_partitions drv num os true args args.partitions 0 [] s))
          h in
      go p some_threads (make_partitions drv num os true args args.partitions 0 [] s) refl h'
    where
      go :
          (p : Pool asio)
          → 1 ≤ length p.threads
          → (r : Created drv num os)
          → make_partitions drv num os true args args.partitions 0 [] s ≡ r
          → created drv num os map chars hardware asio context p r ≡ works pool db keys s'
          → (length db ≡ args.partitions) × (1 ≤ length pool.threads)
      go p t1 (through ps t) e w =
          let same : ps ≡ db = cc in
          let same_pool : p ≡ pool = cc in
          (
            omega (
              arith,
              length-make_partitions drv num os true args args.partitions 0 [] ps s t e,
              ap length same,
            ),
            subst (λ q. 1 ≤ length q.threads) same_pool t1,
          )
      go p t1 (thrown f ps t) e w = not_caught f (
          not_destroyed (caught drv num os map chars hardware asio context f)
            (destroy_all drv num os map chars hardware asio context ps t) w)
      go p t1 assertion e w = cc

  with_keys-same :
      {pool pool' : Pool asio} {db db' : List (Partition drv num os)} {keys : List ℕ} {s : S}
      (m : Mapped map)
      → with_keys drv num os map chars hardware asio context pool db m ≡ works pool' db' keys s
      → (db ≡ db') × (pool ≡ pool')
  with_keys-same (normally ks t) h = (cc, cc)
  with_keys-same {db = db} (by_exception e t) h =
      let no =
        not_destroyed (throws e) (destroy_all drv num os map chars hardware asio context db t) h in
      cc

  start_requests-length :
      (args : RequestsArgs chars hardware) (s s' : S) (pool : Pool asio)
      (db : List (Partition drv num os)) (keys : List ℕ)
      → start_requests drv num os map chars hardware asio context args s ≡ works pool db keys s'
      → (length db ≡ args.partitions) × (1 ≤ length pool.threads)
  unfolding start_requests
  start_requests-length args s s' pool db keys h =
      let (p, some_threads, h') =
        with_pool-works args.threads
          (λ p. opened drv num os map chars hardware asio context p args.keys (
            make_partitions drv num os false (base drv num os map chars hardware asio context args)
              args.partitions 0 [] s))
          h in
      go p some_threads
        (make_partitions drv num os false (base drv num os map chars hardware asio context args)
          args.partitions 0 [] s)
        refl h'
    where
      go :
          (p : Pool asio)
          → 1 ≤ length p.threads
          → (r : Created drv num os)
          → make_partitions drv num os false
              (base drv num os map chars hardware asio context args)
              args.partitions
              0
              []
              s
            ≡ r
          → opened drv num os map chars hardware asio context p args.keys r ≡ works pool db keys s'
          → (length db ≡ args.partitions) × (1 ≤ length pool.threads)
      go p t1 (through ps t) e w =
          let (same, same_pool) = with_keys-same (map_keys map args.keys t) w in
          (
            omega (
              arith,
              length-make_partitions drv num os false
                  (base drv num os map chars hardware asio context args) args.partitions 0 [] ps s t
                  e,
              ap length same,
            ),
            subst (λ q. 1 ≤ length q.threads) same_pool t1,
          )
      go p t1 (thrown f ps t) e w =
          let no =
            not_destroyed (throws (of_partition f))
              (destroy_all drv num os map chars hardware asio context ps t) w in
          cc
      go p t1 assertion e w = cc

  -- What holds of the partitions with which the threads start.
  abbrev pub InBounds : Pool asio → List (Partition drv num os) → Type 0
  InBounds pool db =
      (1 ≤ length pool.threads)
      × (1 ≤ length db)
      × (length db ≤ 256)
      × ((digest : List ℕ)
          → (p : Partition drv num os) × (strand_of drv num os map chars hardware asio context db
                (update digest (length db))
              ≡ some p)
            × ((update digest (length db)).partition % 256 ≡ (update digest (length db)).partition))

  sized-InBounds :
      (pool : Pool asio) (db : List (Partition drv num os)) (n : ℕ)
      → (length db ≡ n) × (1 ≤ length pool.threads)
      → (1 ≤ n) × (n ≤ 256)
      → InBounds pool db
  unfolding strand_of
  sized-InBounds pool db n (e, some_threads) (some_, fit) = (
    some_threads,
    omega arith,
    omega arith,
    λ digest.
        let small = update-partition_lt digest (length db) (omega arith) in
        let (p, found) = get_elem?-some db (update digest (length db)).partition small in
        (p, found, omega arith),
  )

  command-InBounds :
      (c : Command chars hardware) (s s' : S) (pool : Pool asio) (db : List (Partition drv num os))
      (keys : List ℕ)
      → SizedCommand chars hardware c
      → start_command drv num os map chars hardware asio context c s ≡ works pool db keys s'
      → InBounds pool db
  command-InBounds (create a) s s' pool db keys sized h =
      sized-InBounds pool db a.partitions (start_create-length a s s' pool db keys h) sized
  command-InBounds (requests a) s s' pool db keys sized h =
      sized-InBounds pool db a.partitions (start_requests-length a s s' pool db keys h) sized
  command-InBounds help s s' pool db keys sized h = cc

  -- Whatever the arguments, when a command starts its threads, there is a thread; there are partitions, at most 256; and
  -- every new record, whatever its digest is, has its partition in the vector, whose number the
  -- single byte of the file of keys holds.
  pub start_run-InBounds :
      (level : LogLevel) (args : List String) (s s' : S) (pool : Pool asio)
      (db : List (Partition drv num os)) (keys : List ℕ)
      → start_run drv num os map chars hardware asio context level args s ≡ works pool db keys s'
      → InBounds pool db
  unfolding start_run
  start_run-InBounds level args s s' pool db keys h = go (run chars hardware level args).0 refl h
    where
      go :
          (r : Parsed (Command chars hardware))
          → (run chars hardware level args).0 ≡ r
          → start_parsed drv num os map chars hardware asio context r s ≡ works pool db keys s'
          → InBounds pool db
      go (accepted c) e w =
          command-InBounds c s s' pool db keys (run-SizedCommand chars hardware level args c e) w
      go usage e w = cc
      go aborts e w = cc
