-- ===== src/Http/Accept/Invariant.antt =====
-- The connection limit holds in every reachable state.
use acppsrv.Prelude.{
  ℕ, suc, ◌+◌, ◌%◌, ◌^◌, ◌≤◌, ◌<◌, ◌≡◌, Bool, true, false, ◌⊎◌, Option, none, some, List, [], ◌∷◌,
  arith, length, All,
}
use acppsrv.Http.Accept.{
  Pc, at_limit, holding, suspended, at_accept, failed, Accept, size_mod, start, conn_limit,
  conn_limit_init, resume, Accepted, cannot_accept, no_endpoint, connected, endpoint_throws, accept,
  is_open, remove, active_connection_end, Step, check, store, wake, new, close, Reach, here, later,
}

-- `n` connections leave room for one more; they do not; they are within the limit.
abbrev pub Room : Option ℕ → ℕ → Type 0
Room none n = Unit
Room (some m) n = n < m

abbrev pub Full : Option ℕ → ℕ → Type 0
Full none n = ⊥
Full (some m) n = m ≤ n

abbrev pub Within : Option ℕ → ℕ → Type 0
Within none n = Unit
Within (some m) n = n ≤ m

-- A limit that the constructor can store: positive, and a `uint32_t`.
abbrev pub LimitOk : Option ℕ → Type 0
LimitOk none = Unit
LimitOk (some m) = (0 < m) × (m < 2 ^ 32)

-- What the place of the accept loop says about the other fields, for `n` open connections.
abbrev pub PcOk : Pc → Option ℕ → ℕ → Bool → Bool → Bool → Type 0
PcOk at_limit m n locked handler posted = (locked ≡ false) × (handler ≡ false) × (posted ≡ false)
PcOk holding m n locked handler posted =
    (locked ≡ true) × (handler ≡ false) × (posted ≡ false) × Full m n
PcOk suspended m n locked handler posted =
    (locked ≡ false)
    × (((handler ≡ true) × (posted ≡ false) × Full m n)
        ⊎ ((handler ≡ false) × (posted ≡ true) × Room m n))
PcOk at_accept m n locked handler posted =
    (locked ≡ false) × (handler ≡ false) × (posted ≡ false) × Room m n
PcOk failed m n locked handler posted = (locked ≡ false) × (handler ≡ false) × (posted ≡ false)

-- The connections that are counted and have no coroutine.
abbrev pub lost : Pc → ℕ
lost failed = 1
lost _ = 0

abbrev pub PoolsBelow : ℕ → List (ℕ × ℕ) → Type 0
PoolsBelow k cs = All (λ c. c.1 < k) cs

pub record Inv (m : Option ℕ) (k : ℕ) (s : Accept) : Type 0 where
  pub limit : s.max_connections ≡ m
  pub limit_ok : LimitOk m
  pub pools : s.use_workers ≡ k
  pub counted : s.active_connections ≡ (length s.conns + lost s.pc) % size_mod
  pub within : Within m (length s.conns)
  pub place : PcOk s.pc m (length s.conns) s.locked s.handler s.posted
  pub worker : s.worker_i < k
  pub conn_pools : PoolsBelow k s.conns

start-Inv : (m : Option ℕ) (k : ℕ) → LimitOk m → 0 < k → Inv m k (start m k)
unfolding start
start-Inv none k h p = ground arith
start-Inv (some m) k h p = ground arith

pub length-remove :
    (sid : ℕ) (cs : List (ℕ × ℕ)) → is_open sid cs ≡ true → suc (length (remove sid cs)) ≡ length cs
unfolding is_open remove
length-remove sid [] h = absurd (cc)
length-remove sid (c ∷ cs) h = ground (arith, length-remove sid cs)

remove-PoolsBelow : (k sid : ℕ) (cs : List (ℕ × ℕ)) → PoolsBelow k cs → PoolsBelow k (remove sid cs)
unfolding remove
remove-PoolsBelow k sid [] h = tt
remove-PoolsBelow k sid (c ∷ cs) h = ground (arith, remove-PoolsBelow k sid cs h.1)

module _ (m : Option ℕ) (k : ℕ) (s : Accept) (v : Inv m k s) where
  check-Inv : s.pc ≡ at_limit → Inv m k (conn_limit s)
  unfolding conn_limit
  check-Inv e = ground arith

  store-Inv : s.pc ≡ holding → Inv m k (conn_limit_init s)
  unfolding conn_limit_init
  store-Inv e = ground arith

  wake-Inv : s.pc ≡ suspended → s.posted ≡ true → Inv m k (resume s)
  unfolding resume
  wake-Inv e h = ground arith

  new-Inv : s.pc ≡ at_accept → (r : Accepted) → Inv m k (accept r s)
  unfolding accept
  new-Inv e cannot_accept = ground arith
  new-Inv e no_endpoint = ground arith
  new-Inv e connected = ground arith
  new-Inv e endpoint_throws = ground arith

  close-Inv :
      (sid : ℕ)
      → is_open sid s.conns ≡ true
      → s.locked ≡ false
      → Inv m k (active_connection_end sid s)
  unfolding active_connection_end
  close-Inv sid h l =
      ground (arith, length-remove sid s.conns h, remove-PoolsBelow k sid s.conns v.conn_pools)

lost_le : (pc : Pc) → lost pc ≤ 1
lost_le at_limit = omega arith
lost_le holding = omega arith
lost_le suspended = omega arith
lost_le at_accept = omega arith
lost_le failed = omega arith

-- Every step keeps the invariant.
pub Step-Inv : {m : Option ℕ} {k : ℕ} {s t : Accept} → Step s t → Inv m k s → Inv m k t
Step-Inv {m} {k} {s} (check e l) v = check-Inv m k s v e
Step-Inv {m} {k} {s} (store e) v = store-Inv m k s v e
Step-Inv {m} {k} {s} (wake e h) v = wake-Inv m k s v e h
Step-Inv {m} {k} {s} (new e r) v = new-Inv m k s v e r
Step-Inv {m} {k} {s} (close sid h l) v = close-Inv m k s v sid h l

pub Reach-Inv :
    {m : Option ℕ} {k : ℕ} {s : Accept} → LimitOk m → 0 < k → Reach (start m k) s → Inv m k s
Reach-Inv {m} {k} lim p here = start-Inv m k lim p
Reach-Inv lim p (later r st) = Step-Inv st (Reach-Inv lim p r)

-- With a positive limit on the connections that is a `uint32_t`, and at least one pool, in every
-- state that the server reaches, whatever the order of the accept loop's steps, new connections and
-- ends of connections, the number of open connections is within the limit, and `active_connections`
-- is that number, or one more if an exception has ended the accept loop.
pub connection_limit :
    (m k : ℕ) {s : Accept}
    → 0 < m
    → m < 2 ^ 32
    → 0 < k
    → Reach (start (some m) k) s
    → (s.active_connections ≡ length s.conns + lost s.pc) × (length s.conns ≤ m)
connection_limit m k {s} pm small pk r =
    let v = Reach-Inv (pm, small) pk r in
    (omega (arith, v.counted, v.within, lost_le s.pc), v.within)
