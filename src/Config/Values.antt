-- ===== src/Config/Values.antt =====
-- The values that the other parts read from a configuration.
use acppsrv.Prelude.Int.{ℤ, pos, ◌≤ℤ◌}
use acppsrv.Prelude.{
  ℕ, zero, ◌≤◌, ◌≡◌, refl, Bool, true, false, ◌↔◌, Option, none, some, [], arith, String, ◌≢◌,
  nat_beq, if◌then◌else◌,
}
use acppsrv.Log.{LogLevel, valid}
use acppsrv.Config.{
  Float, ThreadPool, ThreadPools, HttpServer, Configuration, num_threads, main_pools, http_port,
  get_time, max_rep, validate, Validated, load, validate_log, validate_pools, validate_http,
  contents,
}
use acppsrv.Config.Valid.{validate_iff, LogOk, PoolsOk, HttpOk}

-- Every pool has at least one thread, whatever the configuration and the hardware say, and a
-- positive number of threads is taken as it is.
pub num_threads_lem :
    (hardware : ℕ) (cfg : Option ThreadPool)
    → (pos 1 ≤ℤ num_threads hardware cfg)
      × ((p : ThreadPool)
          → cfg ≡ some p
          → pos 1 ≤ℤ p.threads
          → num_threads hardware cfg ≡ p.threads)
unfolding num_threads
num_threads_lem hardware none = ground arith
num_threads_lem hardware (some p) = (ground arith, ground arith)

module _ {F : Type 0} where
  main_pools-pos : (c : Configuration F) → pos 1 ≤ℤ main_pools c
  unfolding main_pools
  main_pools-pos c = ground arith

  -- The port is one of the 65535 ports, and the configured one if that is in range.
  pub http_port_bounds :
      (c : Configuration F)
      → (1 ≤ http_port c)
        × (http_port c ≤ 65535)
        × ((h : HttpServer F)
            → c.http_server ≡ some h
            → 1 ≤ h.port
            → h.port ≤ 65535
            → http_port c ≡ h.port)
  unfolding http_port
  http_port_bounds c = (ground arith, ground arith, ground arith)

module _ (fl : Float) where
  open fl use {F, is_pos, to_nanos, to_rep_lt}

  -- A time is given exactly for a positive number of seconds, and fits into a signed 64-bit
  -- integer.
  pub get_time_lem :
      (t : F)
      → ((is_pos (to_nanos t) ≡ true) ↔ (get_time fl t ≢ none))
        × ((n : ℕ) → get_time fl t ≡ some n → n ≤ max_rep)
  unfolding get_time
  get_time_lem t = (ground arith, ground (arith, to_rep_lt (to_nanos t)))

  validate_log-valid :
      (l : Option ℤ) (v : Validated)
      → ((k : LogLevel) → v.log_level ≡ some k → valid k ≡ true)
      → (k : LogLevel) → (validate_log l v).log_level ≡ some k
      → valid k ≡ true
  unfolding validate_log
  validate_log-valid none v h k e = h k e
  validate_log-valid (some (pos zero)) v h k e = h k e
  validate_log-valid (some l) v h k e = ground (arith, h k)

  validate-log_level :
      (c : Configuration F)
      → (validate fl c).log_level
        ≡ (validate_log c.log (record { result = true; log_level = none; errors = [] })).log_level
  unfolding validate validate_pools validate_http
  validate-log_level c = ground arith

  HttpOk-port :
      (o : Option (HttpServer F)) (h : HttpServer F) → o ≡ some h → HttpOk fl o → h.port ≤ 65535
  HttpOk-port none h e k = absurd (cc)
  HttpOk-port (some h') h e k = ground arith

  -- The database pool is not validated: whatever it is set to, also a negative number of threads,
  -- the result, the stored level and the logged errors stay the same.
  pub validate_ignores_database :
      (c : Configuration F) (tp : ThreadPools) (p : Option ThreadPool)
      → c.thread_pools ≡ some tp
      → validate fl (record c { thread_pools = some (record tp { database = p }) }) ≡ validate fl c
  unfolding validate validate_pools
  validate_ignores_database c tp p e = rw e (refl)

  -- A configuration that loads as valid has been parsed, its message is one that `validate`
  -- accepts, its port is the configured one, or 80 for 0, and the level that it sets, if any, is a
  -- valid one.
  pub load-valid :
      (parse : String → Bool × Configuration F) (text : String) (ok : Bool) (c : Configuration F)
      → parse text ≡ (ok, c)
      → (load fl parse (contents text)).is_valid ≡ true
      → (ok ≡ true)
        × (LogOk c.log × PoolsOk c.thread_pools × HttpOk fl c.http_server)
        × ((h : HttpServer F)
            → c.http_server ≡ some h
            → http_port c ≡ (if nat_beq h.port 0 then 80 else h.port))
        × ((k : LogLevel) → (load fl parse (contents text)).log_level ≡ some k → valid k ≡ true)
  unfolding load http_port
  load-valid parse text false c e h = absurd (ground arith)
  load-valid parse text true c e h =
      let good : (validate fl c).result ≡ true = ground arith in
      let parts = (validate_iff fl c).0 good in
      (
        refl,
        parts,
        (λ h' q. ground (arith, HttpOk-port c.http_server h' q parts.2)),
        (λ k q.
            validate_log-valid c.log (record { result = true; log_level = none; errors = [] })
              (λ k' r. absurd (cc)) k (ground (arith, validate-log_level c))),
      )
