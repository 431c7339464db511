-- ===== src/Http/Accept/Wakeup.antt =====
-- The accept loop is never left asleep, and never hands a connection to a pool out of range.
use acppsrv.Prelude.{
  ℕ, ◌-◌, ◌^◌, ◌<◌, ◌≡◌, refl, ◌≢◌, true, false, inl, inr, Option, some, List, [], ◌∷◌, arith, All,
  Bool-cases, Option-cases, subst,
}
use acppsrv.Config.{Float, Configuration, HttpServer, ThreadPools}
use acppsrv.Http.Server.{make_server, if_set}
use acppsrv.Http.Accept.{
  Pc, at_limit, holding, suspended, at_accept, failed, Accept, start, conn_limit, conn_limit_init,
  resume, connected, accept, is_open, active_connection_end, Step, check, store, wake, new, close,
  Reach,
}
use acppsrv.Http.Accept.Invariant.{Inv, LimitOk, Reach-Inv, length-remove}

-- Without a limit or with a positive one that is a `uint32_t`, and with at least one pool: while
-- the accept loop waits for its handler to be called, connections are open, nobody holds the mutex,
-- and the end of any one of them posts the handler.
pub end_wakes :
    (m : Option ℕ) (k : ℕ) {s : Accept}
    → LimitOk m
    → 0 < k
    → Reach (start m k) s
    → s.pc ≡ suspended
    → s.posted ≡ false
    → (s.conns ≢ [])
      × (s.locked ≡ false)
      × ((sid : ℕ) → is_open sid s.conns ≡ true → (active_connection_end sid s).posted ≡ true)
unfolding active_connection_end
end_wakes m k {s} lim p r e h =
    let v = Reach-Inv lim p r in
    (ground arith, ground arith, λ sid o. ground (arith, length-remove sid s.conns o))

if_set-LimitOk : (n : ℕ) → n < 2 ^ 32 → LimitOk (if_set n n)
if_set-LimitOk n h = ground arith

first_open : (cs : List (ℕ × ℕ)) → cs ≢ [] → (sid : ℕ) × (is_open sid cs ≡ true)
unfolding is_open
first_open [] h = absurd (h refl)
first_open ((i, w) ∷ cs) h = (i, ground arith)

at_limit_free : {m : Option ℕ} {k : ℕ} {s : Accept} → Inv m k s → s.pc ≡ at_limit → s.locked ≡ false
at_limit_free v e = ground arith

-- Without a limit or with a positive one that is a `uint32_t`, and with at least one pool, the
-- system never deadlocks: in every reachable state where no exception has ended the accept loop,
-- some step is possible.
pub Step-exists :
    (m : Option ℕ) (k : ℕ) {s : Accept}
    → LimitOk m
    → 0 < k
    → Reach (start m k) s
    → s.pc ≢ failed
    → (t : Accept) × Step s t
Step-exists m k {s} lim p r going = go s.pc refl
  where
    go : (pc : Pc) → s.pc ≡ pc → (t : Accept) × Step s t
    go at_limit e = (conn_limit s, check e (at_limit_free (Reach-Inv lim p r) e))
    go holding e = (conn_limit_init s, store e)
    go failed e = absurd (going e)
    go at_accept e = (accept connected s, new e connected)
    go suspended e = elim (Bool-cases s.posted) [
      | inl up ↦ (resume s, wake e up)
      | inr not_up ↦
          let (open_conns, free, _) = end_wakes m k lim p r e not_up in
          let (sid, o) = first_open s.conns open_conns in
          (active_connection_end sid s, close sid o free)
    ]

module _ (fl : Float) where
  open fl use {F}

  make_server-LimitOk :
      (cfg : Configuration F) (workers : ℕ)
      → ((h : HttpServer F) → cfg.http_server ≡ some h → h.max_connections < 2 ^ 32)
      → LimitOk (make_server fl cfg workers).max_connections
  unfolding make_server
  make_server-LimitOk cfg workers h = elim (Option-cases cfg.http_server) [
    | inl e ↦ rw (e, make_server) tt
    | inr (http, e) ↦ rw (e, make_server) (if_set-LimitOk http.max_connections (h http e))
  ]

  make_server-use_workers :
      (cfg : Configuration F) (tp : ThreadPools) (workers : ℕ)
      → 1 < workers
      → cfg.thread_pools ≡ some tp
      → tp.accept_pool ≡ true
      → (make_server fl cfg workers).use_workers ≡ workers - 1
  unfolding make_server
  make_server-use_workers cfg tp workers w e a = elim (Option-cases cfg.http_server) [
    | inl none_set ↦ rw (none_set, make_server) (rw e (ground arith))
    | inr (http, set) ↦ rw (set, make_server) (rw e (ground arith))
  ]

  -- With several main pools and `accept_pool` set, no connection is ever handled by the last pool,
  -- which runs the acceptor.
  pub accept_pool_reserved :
      (cfg : Configuration F) (tp : ThreadPools) (workers : ℕ) {s : Accept}
      → ((h : HttpServer F) → cfg.http_server ≡ some h → h.max_connections < 2 ^ 32)
      → 1 < workers
      → cfg.thread_pools ≡ some tp
      → tp.accept_pool ≡ true
      → let srv = make_server fl cfg workers in
        Reach (start srv.max_connections srv.use_workers) s → All (λ c. c.1 < workers - 1) s.conns
  accept_pool_reserved cfg tp workers {s} h w e a r =
      let k = make_server-use_workers cfg tp workers w e a in
      let v = Reach-Inv (make_server-LimitOk cfg workers h) (omega arith) r in
      subst (λ j. All (λ c. c.1 < j) s.conns) k v.conn_pools
