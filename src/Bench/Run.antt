-- ===== src/Bench/Run.antt =====
-- The commands `create` and `requests` of benchmark/benchmark.cpp from their arguments up to the
-- start of the threads, with the mapping of the file of keys.
pub mod Sized
pub mod Bounds
pub mod Descriptor
pub mod Examples
use acppsrv.Prelude.{ℕ, String, Bool, true, false, Option, none, some, List, [], ◌∷◌, get_elem?}
use acppsrv.Log.{LogLevel}
use acppsrv.Config.{to_int}
use acppsrv.App.Pool.{Context, Pool, make_pool}
use acppsrv.App.Pool
use acppsrv.Sqlite.{Driver}
use acppsrv.Finally.{Ending, normally, by_exception, finally}
use acppsrv.Bench.Args.{Chars, Parsed, accepted, usage, aborts, CreateArgs}
use acppsrv.Bench.Args.Requests.{RequestsArgs}
use acppsrv.Bench.Args.Command.{Command, create, requests, help, run}
use acppsrv.Bench.Keys.{Key}
use acppsrv.Bench.Partition.{
  Numbers, Platform, Failure, file_exists, Partition, destroy, Created, through, thrown, assertion,
  make_partitions,
}

-- The calls by which the file of keys is mapped into memory, and what they make of the state.
pub record Mapping (S : Type 0) : Type 1 where
  pub Fd : Type 0
  -- open(path, O_RDONLY)
  pub open_read : String → S → Option Fd × S
  pub close : Fd → S → S
  -- std::filesystem::file_size, which may throw
  pub file_size : String → S → Option ℕ
  -- The mapped bytes, or MAP_FAILED
  pub mmap : ℕ → Fd → S → Option (List ℕ) × S

-- An exception that reaches `main`: one of a partition's constructor, of the mapping, or of
-- `file_size`.
pub data Exception : Type 0 where
  of_partition : Failure → Exception
  keys_mmap : String → Exception
  filesystem_error : String → Exception
  -- From the vector of a pool with a negative number of threads.
  length_error : Exception

module _ {S : Type 0} (map : Mapping S) where
  open map use {Fd, open_read, close, file_size, mmap}

  -- What the constructor gives: the bytes, or an exception.
  abbrev pub Mapped : Type 0
  Mapped = Ending Exception (List ℕ) S

  -- The variable `fd` and the state; `none` is -1.
  abbrev pub Scope : Type 0
  Scope = Option Fd × S

  -- What the guard of the constructor calls.
  unfoldable pub fd_close : Scope → Scope
  fd_close (none, s) = (none, s)
  fd_close (some fd, s) = (some fd, close fd s)

  abbrev pub map_bytes : String → Fd → Option (List ℕ) × S → Ending Exception (List ℕ) Scope
  map_bytes path fd (none, s) = by_exception (keys_mmap path) (some fd, s)
  map_bytes path fd (some data_, s) = normally data_ (some fd, s)

  abbrev pub map_sized : String → Fd → S → Option ℕ → Ending Exception (List ℕ) Scope
  map_sized path fd s none = by_exception (filesystem_error path) (some fd, s)
  map_sized path fd s (some n) = map_bytes path fd (mmap n fd s)

  abbrev pub map_opened : String → Scope → Ending Exception (List ℕ) Scope
  map_opened path (none, s) = by_exception (keys_mmap path) (none, s)
  map_opened path (some fd, s) = map_sized path fd s (file_size path s)

  -- Behind the guard.
  abbrev pub map_scope : String → Scope → Ending Exception (List ℕ) Scope
  map_scope path (fd, s) = map_opened path (open_read path s)

  abbrev pub without_fd : Ending Exception (List ℕ) Scope → Mapped
  without_fd (normally data_ (fd, s)) = normally data_ s
  without_fd (by_exception e (fd, s)) = by_exception e s

  -- known_key_generator::known_key_generator
  unfoldable pub map_keys : String → S → Mapped
  unfolding finally
  map_keys path s = without_fd (finally fd_close (map_scope path) (none, s))

module _ (drv : Driver) (num : Numbers) (os : Platform drv) (map : Mapping drv.S) (chars : Chars)
    (hardware : ℕ) (asio : Context) (context : asio.S) where
  open drv use {S}

  -- How far a command comes: the threads of its pool start with its partitions and its known keys, it returns
  -- whether it succeeded, an exception reaches `main`, an assertion fails, or an exception leaves
  -- a destructor.
  pub data Start : Type 0 where
    works : Pool asio → List (Partition drv num os) → List ℕ → S → Start
    returns : Bool → Start
    throws : Exception → Start
    asserts : Start
    terminates : Start

  abbrev pub then_destroy : Partition drv num os → (S → Option S) → S → Option S
  then_destroy p rest s = elim (destroy drv num os p s) [ none ↦ none | some s' ↦ rest s' ]

  -- The destructor of the vector; the order of its elements is not specified, here from the front.
  unfoldable pub destroy_all : List (Partition drv num os) → S → Option S
  destroy_all [] s = some s
  destroy_all (p ∷ ps) s = then_destroy p (λ s'. destroy_all ps s') s

  abbrev pub destroyed : Start → Option S → Start
  destroyed start none = terminates
  destroyed start (some s) = start

  -- `partition::exists` is caught where the partitions are created.
  abbrev pub caught : Failure → Start
  caught (file_exists path) = returns false
  caught e = throws (of_partition e)

  -- The pool has as many threads as an `int` makes of the argument.
  abbrev pub pooled : (Pool asio → Start) → Pool.Created (Pool asio) → Start
  pooled f (Pool.created pool) = f pool
  pooled f Pool.length_error = throws length_error
  pooled f Pool.asserts = asserts

  abbrev pub with_pool : ℕ → (Pool asio → Start) → Start
  with_pool threads f = pooled f (make_pool asio context (to_int threads))

  abbrev pub created : Pool asio → Created drv num os → Start
  created pool (through db s) = works pool db [] s
  created pool (thrown e db s) = destroyed (caught e) (destroy_all db s)
  created pool assertion = asserts

  unfoldable pub start_create : CreateArgs → S → Start
  start_create args s =
      with_pool args.threads
        λ pool. created pool (make_partitions drv num os true args args.partitions 0 [] s)

  -- The base class of the arguments; RECORDS is not used.
  abbrev pub base : RequestsArgs chars hardware → CreateArgs
  base args = record {
    path = args.path;
    partitions = args.partitions;
    records = 0;
    value_sz = args.value_sz;
    cache_kib = args.cache_kib;
    threads = args.threads;
  }

  -- The worker's constructor maps the file of keys.
  abbrev pub with_keys : Pool asio → List (Partition drv num os) → Mapped map → Start
  with_keys pool db (normally keys s) = works pool db keys s
  with_keys pool db (by_exception e s) = destroyed (throws e) (destroy_all db s)

  abbrev pub opened : Pool asio → String → Created drv num os → Start
  opened pool keys (through db s) = with_keys pool db (map_keys map keys s)
  opened pool keys (thrown e db s) = destroyed (throws (of_partition e)) (destroy_all db s)
  opened pool keys assertion = asserts

  unfoldable pub start_requests : RequestsArgs chars hardware → S → Start
  start_requests args s = with_pool args.threads λ pool.
      opened pool args.keys (make_partitions drv num os false (base args) args.partitions 0 [] s)

  abbrev pub start_command : Command chars hardware → S → Start
  start_command (create args) s = start_create args s
  start_command (requests args) s = start_requests args s
  start_command help s = returns true

  abbrev pub start_parsed : Parsed (Command chars hardware) → S → Start
  start_parsed (accepted c) s = start_command c s
  start_parsed usage s = returns false
  start_parsed aborts s = asserts

  unfoldable pub start_run : LogLevel → List String → S → Start
  start_run level args s = start_parsed (run chars hardware level args).0 s

  -- Where a record or a known key is posted; `none` is behind the end of the vector.
  unfoldable pub strand_of : List (Partition drv num os) → Key → Option (Partition drv num os)
  strand_of db k = get_elem? db k.partition
