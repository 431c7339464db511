-- ===== src/Http/Server/Laws.antt =====
-- What the constructor of `http_server` stores, and what `run` returns.
use acppsrv.Prelude.{
  ℕ, ◌+◌, ◌*◌, ◌^◌, ◌≤◌, ◌<◌, ◌≡◌, ◌↔◌, String, none, some, arith, Option-cases, inl, inr,
}
use acppsrv.Config.{Float, Configuration, HttpServer}
use acppsrv.Http.Server.{
  Server, make_server, if_set, Acceptor, throws, accepting, run, value_or, to_uint32,
}

if_set_multiple : (v k : ℕ) → v ≡ (k + 1) * 2 ^ 32 → if_set v (to_uint32 v) ≡ some 0
if_set_multiple v k h = ground arith

module _ (fl : Float) where
  open fl use {F}

  -- With at least one main pool, the number of pools that handle connections is positive, at most
  -- the number of main pools and at least that number less one.
  pub make_server_use_workers :
      (cfg : Configuration F) (workers : ℕ)
      → 1 ≤ workers
      → let s = make_server fl cfg workers in
        (1 ≤ s.use_workers) × (s.use_workers ≤ workers) × (workers ≤ s.use_workers + 1)
  unfolding make_server
  make_server_use_workers cfg workers h = elim (Option-cases cfg.http_server) [
    | inl e ↦ rw (e, make_server) (ground arith)
    | inr (http, e) ↦ rw (e, make_server) (ground arith)
  ]

  -- The size limits are 64-bit in the configuration and kept in 32 bits: a limit below 2 ^ 32 is
  -- stored as it is, 0 as no limit, and a positive multiple of 2 ^ 32 as the limit 0.
  pub make_server_limits :
      (cfg : Configuration F) (http : HttpServer F) (workers : ℕ)
      → cfg.http_server ≡ some http
      → let s = make_server fl cfg workers in
        (http.max_request_body < 2 ^ 32
          → 0 < http.max_request_body
          → s.max_request_body ≡ some http.max_request_body)
        × (http.max_request_body ≡ 0 → s.max_request_body ≡ none)
        × ((k : ℕ) → http.max_request_body ≡ (k + 1) * 2 ^ 32 → s.max_request_body ≡ some 0)
  unfolding make_server
  make_server_limits cfg http workers e = (
    ground arith,
    ground arith,
    λ k h. rw (e, make_server) (if_set_multiple http.max_request_body k h),
  )

-- The accept loop is started exactly when every call of the acceptor succeeds, and `listen` gets
-- the configured queue or the maximum; a failing `open` is the one failure that throws.
pub run_iff :
    (s : Server) (a : Acceptor) (max_listen : ℕ)
    → ((run s a max_listen ≡ accepting) ↔ (
        (a.open_throws ≡ none)
        × (a.reuse_address ≡ none)
        × (a.bind s.port ≡ none)
        × (a.listen (value_or s.listen_queue max_listen) ≡ none)))
      × ((e : String) → (run s a max_listen ≡ throws e) ↔ (a.open_throws ≡ some e))
unfolding run
run_iff s a max_listen = (ground arith, λ e. ground arith)
