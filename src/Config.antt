-- ===== src/Config.antt =====
-- src/configuration.proto, src/configuration.hpp and src/configuration.cpp: the configuration
-- message, its validation, and the values that the other parts read from it. Floats are the record
-- `Float`; reading and parsing the file are arguments of `load`.
pub mod Valid
pub mod Values
pub mod Examples
use Prim.Native.Nat.{◌^◌}
use acppsrv.Prelude.Int.{ℤ, pos, negsuc, ◌-ℤ◌, ltb_ℤ, max_ℤ, sub_ℕ}
use acppsrv.Prelude.{
  ℕ, ◌+◌, ◌-◌, ◌%◌, ◌<◌, ◌≡◌, String, Bool, true, false, not, ◌&&◌, ◌||◌, Option, none, some, List,
  [], ◌∷◌, ◌++◌, if◌then◌else◌, ltb, leb, nat_beq, join,
}
use acppsrv.Log.{LogLevel, valid}

-- The largest `std::chrono::nanoseconds::rep`, a signed 64-bit integer.
abbrev pub max_rep : ℕ
max_rep = 2 ^ 63 - 1

-- `float` and what the program does with it. `is_pos` is false for a NaN.
pub record Float : Type 1 where
  pub F : Type 0
  -- t > 0 and t < 0
  pub is_pos : F → Bool
  pub is_neg : F → Bool
  -- t * 1e9F
  pub to_nanos : F → F
  -- t < float(max), where float(max) is 2 ^ 63
  pub below_max : F → Bool
  -- rep(t), the conversion that drops the fraction
  pub to_rep : F → ℕ
  pub to_rep_lt : (t : F) → below_max t ≡ true → to_rep t < 2 ^ 63

pub record ThreadPool : Type 0 where
  pub threads : ℤ

pub record ThreadPools : Type 0 where
  pub main : Option ThreadPool
  pub control : Option ThreadPool
  pub database : Option ThreadPool
  pub main_pools : ℤ
  pub accept_pool : Bool

pub record HttpServer (F : Type 0) : Type 0 where
  pub port : ℕ
  pub listen_queue : ℕ
  pub max_connections : ℕ
  pub idle_timeout : F
  pub keepalive_timeout : F
  pub keepalive_requests : ℕ
  pub max_request_headers : ℕ
  pub max_request_body : ℕ

pub record Sqlite3Db (F : Type 0) : Type 0 where
  pub file : String
  pub queries : List (String × String)
  pub retries : ℕ
  pub retry_wait : F

-- A message that is not set is `none`; an enum field holds any `int32`.
pub record Configuration (F : Type 0) : Type 0 where
  pub log : Option ℤ
  pub thread_pools : Option ThreadPools
  pub http_server : Option (HttpServer F)
  pub databases : Option (List (String × Sqlite3Db F))

-- `enum LogLevel` of the .proto file: the names that its JSON form accepts.
unfoldable pub proto_levels : List (String × ℤ)
proto_levels =
    ("unspec", pos 0)
    ∷ ("off", pos 1)
    ∷ ("X", pos 2)
    ∷ ("emerg", pos 2)
    ∷ ("emergency", pos 2)
    ∷ ("A", pos 3)
    ∷ ("alert", pos 3)
    ∷ ("C", pos 4)
    ∷ ("crit", pos 4)
    ∷ ("critical", pos 4)
    ∷ ("E", pos 5)
    ∷ ("err", pos 5)
    ∷ ("error", pos 5)
    ∷ ("W", pos 6)
    ∷ ("warning", pos 6)
    ∷ ("warn", pos 6)
    ∷ ("N", pos 7)
    ∷ ("notice", pos 7)
    ∷ ("I", pos 8)
    ∷ ("info", pos 8)
    ∷ ("D", pos 9)
    ∷ ("debug", pos 9)
    ∷ []

-- `log_level(l - 2)`
abbrev pub of_proto : ℤ → LogLevel
of_proto l = l -ℤ pos 2

-- The conversion of an `unsigned` to `int`.
abbrev pub to_int : ℕ → ℤ
to_int n = let m = n % 2 ^ 32 in if ltb m (2 ^ 31) then pos m else sub_ℕ m (2 ^ 32)

threads_of : Option ThreadPool → ℤ
threads_of none = pos 0
threads_of (some p) = p.threads

abbrev is_zero : ℤ → Bool
is_zero (pos ℕ.zero) = true
is_zero _ = false

-- `num_threads`, with the value of `hardware_concurrency()`.
unfoldable pub num_threads : ℕ → Option ThreadPool → ℤ
unfolding threads_of
num_threads hardware cfg =
    let n = threads_of cfg in max_ℤ (if is_zero n then to_int hardware else n) (pos 1)

abbrev pub http_port_default : ℕ
http_port_default = 80

-- What `validate` returns, stores and logs.
pub record Validated : Type 0 where
  pub result : Bool
  pub log_level : Option LogLevel
  pub errors : List String

abbrev reject : String → Validated → Validated
reject msg v = record v { result = false; errors = v.errors ++ msg ∷ [] }

validate_log : Option ℤ → Validated → Validated
validate_log none v = v
validate_log (some (pos ℕ.zero)) v = v
validate_log (some l) v =
    if valid (of_proto l)
    then record v { log_level = some (of_proto l) }
    else reject "Invalid log level" v

-- `p.threads() < 0`, for a pool that is set.
abbrev is_negative : Option ThreadPool → Bool
is_negative none = false
is_negative (some p) = ltb_ℤ p.threads (pos 0)

-- The operands of `||` in order: the second pool is tested only if the first passes.
validate_pools : Option ThreadPools → Validated → Validated
validate_pools none v = v
validate_pools (some tp) v =
    if is_negative tp.main
    then reject "Negative number of threads in pool main" v
    else if is_negative tp.control
    then reject "Negative number of threads in pool control" v
    else v

abbrev reject_if : Bool → String → Validated → Validated
reject_if b msg v = if b then reject msg v else v

-- What reading the file gives: it cannot be opened, it is not read to its end, or its text.
pub data ReadFile : Type 0 where
  cannot_read : ReadFile
  not_to_end : ReadFile
  contents : String → ReadFile

-- The members of class `configuration`.
pub record Loaded (F : Type 0) : Type 0 where
  pub is_valid : Bool
  pub cfg : Configuration F
  pub log_level : Option LogLevel

module _ {F : Type 0} where
  unfoldable pub main_pools : Configuration F → ℤ
  main_pools c = elim c.thread_pools [ none ↦ pos 1 | some tp ↦ max_ℤ (pos 1) tp.main_pools ]

  unfoldable pub http_port : Configuration F → ℕ
  http_port c = elim c.http_server [
    | none ↦ http_port_default
    | some h ↦ if leb 1 h.port && leb h.port 65535 then h.port % 2 ^ 16 else http_port_default
  ]

module _ (fl : Float) where
  open fl use {F, is_pos, is_neg, to_nanos, below_max, to_rep}

  unfoldable pub get_time : F → Option ℕ
  get_time t0 =
      let t = to_nanos t0 in
      if is_pos t then if below_max t then some (to_rep t) else some max_rep else none

  validate_http : Option (HttpServer F) → Validated → Validated
  validate_http none v = v
  validate_http (some h) v =
      reject_if (is_neg h.keepalive_timeout) "Negative HTTP server idle timeout" (
        reject_if (is_neg h.idle_timeout) "Negative HTTP server idle timeout"
          (reject_if (ltb 65535 h.port) "Invalid HTTP server port number" v))

  unfoldable pub validate : Configuration F → Validated
  unfolding validate_log validate_pools validate_http
  validate c = validate_http c.http_server (
      validate_pools c.thread_pools
        (validate_log c.log (record { result = true; log_level = none; errors = [] })))

  abbrev pub empty_cfg : Configuration F
  empty_cfg = record { log = none; thread_pools = none; http_server = none; databases = none }

  -- The constructor. `parse` is `JsonStringToMessage`: whether its status is ok, and the message.
  unfoldable pub load : (String → Bool × Configuration F) → ReadFile → Loaded F
  load parse cannot_read = record { is_valid = false; cfg = empty_cfg; log_level = none }
  load parse not_to_end = record { is_valid = false; cfg = empty_cfg; log_level = none }
  load parse (contents text) =
      let (ok, cfg) = parse text in
      let v = validate cfg in
      if ok
      then record { is_valid = v.result; cfg = cfg; log_level = v.log_level }
      else record { is_valid = false; cfg = cfg; log_level = none }
