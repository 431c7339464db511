-- ===== src/Config/Valid.antt =====
-- What `configuration::validate` accepts.
use acppsrv.Prelude.Int.{ℤ, pos, ◌≤ℤ◌}
use acppsrv.Prelude.{
  zero, ◌≤◌, ◌≡◌, refl, true, false, ◌↔◌, Option, none, some, [], arith, String, lookup, lookup-All,
  All, ◌⊎◌,
}
use acppsrv.Log.{valid, from_string}
use acppsrv.Config.{
  Float, ThreadPool, ThreadPools, HttpServer, Configuration, Validated, validate_log,
  validate_pools, validate_http, validate, of_proto, proto_levels,
}

-- Unspecified, or one of the nine levels.
abbrev pub LogOk : Option ℤ → Type 0
LogOk none = Unit
LogOk (some l) = (pos 0 ≤ℤ l) × (l ≤ℤ pos 9)

abbrev PoolOk : Option ThreadPool → Type 0
PoolOk none = Unit
PoolOk (some p) = pos 0 ≤ℤ p.threads

-- The database pool is not looked at.
abbrev pub PoolsOk : Option ThreadPools → Type 0
PoolsOk none = Unit
PoolsOk (some tp) = PoolOk tp.main × PoolOk tp.control

validate_log-result :
    (l : Option ℤ) (v : Validated)
    → ((validate_log l v).result ≡ true) ↔ ((v.result ≡ true) × LogOk l)
unfolding validate_log valid
validate_log-result none v = ground arith
validate_log-result (some (pos zero)) v = ground arith
validate_log-result (some l) v = ground arith

validate_pools-result :
    (tp : Option ThreadPools) (v : Validated)
    → ((validate_pools tp v).result ≡ true) ↔ ((v.result ≡ true) × PoolsOk tp)
unfolding validate_pools
validate_pools-result none v = ground arith
validate_pools-result (some tp) v = ground arith

module _ (fl : Float) where
  open fl use {F, is_neg}

  abbrev pub HttpOk : Option (HttpServer F) → Type 0
  HttpOk none = Unit
  HttpOk (some h) =
      (h.port ≤ 65535) × (is_neg h.idle_timeout ≡ false) × (is_neg h.keepalive_timeout ≡ false)

  validate_http-result :
      (h : Option (HttpServer F)) (v : Validated)
      → ((validate_http fl h v).result ≡ true) ↔ ((v.result ≡ true) × HttpOk h)
  unfolding validate_http
  validate_http-result none v = ground arith
  validate_http-result (some h) v = ground arith

  -- A configuration is accepted exactly when its log level is unspecified or a level, no main or
  -- control pool has a negative number of threads, the port is at most 65535 and no timeout is
  -- negative.
  pub validate_iff :
      (c : Configuration F)
      → ((validate fl c).result ≡ true)
        ↔ (LogOk c.log × PoolsOk c.thread_pools × HttpOk c.http_server)
  unfolding validate
  validate_iff c =
      let v0 : Validated = record { result = true; log_level = none; errors = [] } in
      let v1 = validate_log c.log v0 in
      let v2 = validate_pools c.thread_pools v1 in
      let http = validate_http-result c.http_server v2 in
      let pools = validate_pools-result c.thread_pools v1 in
      let log = validate_log-result c.log v0 in
      (
        (λ h. let (h2, h3) = http.0 h in let (h1, k2) = pools.0 h2 in ((log.0 h1).1, k2, h3)),
        (λ (k1, k2, k3). http.1 (pools.1 (log.1 (refl, k1), k2), k3)),
      )

abbrev SameLevel : String → ℤ → Type 0
SameLevel name l = (l ≡ pos 0) ⊎ (from_string name ≡ some (of_proto l))

proto_levels-SameLevel : All (λ e. SameLevel e.0 e.1) proto_levels
unfolding proto_levels from_string
proto_levels-SameLevel = ground arith

-- The level stored for a name of the .proto file, if it is not `unspec`, is the one that
-- `from_string` of log.cpp gives to the name.
pub of_proto-from_string :
    (name : String) (l : ℤ)
    → lookup name proto_levels ≡ some l
    → (l ≡ pos 0) ⊎ (from_string name ≡ some (of_proto l))
of_proto-from_string name l h = lookup-All SameLevel proto_levels name proto_levels-SameLevel h
