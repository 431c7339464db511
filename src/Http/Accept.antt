-- ===== src/Http/Accept.antt =====
-- `conn_limit`, `conn_limit_init`, `accept_loop` and `active_connection_end` of src/http_server.cpp:
-- the accept loop and the ends of connections as atomic steps of a transition system. The mutex
-- `active_connections_mtx` is a flag; `conn_limit` keeps it locked until its handler is stored.
pub mod Invariant
pub mod Wakeup
pub mod Failure
pub mod Examples
use acppsrv.Prelude.{
  ℕ, suc, ◌+◌, ◌-◌, ◌%◌, ◌^◌, ◌≡◌, Bool, true, false, ◌&&◌, Option, none, some, List, [], ◌∷◌,
  if◌then◌else◌, ltb, leb, nat_beq,
}

-- Where the accept loop is: before `conn_limit`, inside it with the mutex held, waiting for its
-- handler to be called, or in `async_accept`; or an exception has ended it.
pub data Pc : Type 0 where
  at_limit : Pc
  holding : Pc
  suspended : Pc
  at_accept : Pc
  failed : Pc

pub record Accept : Type 0 where
  pub max_connections : Option ℕ
  pub use_workers : ℕ
  -- std::atomic<size_t>
  pub active_connections : ℕ
  pub locked : Bool
  -- active_connections_hnd has a value
  pub handler : Bool
  -- The handler is queued in the executor of the acceptor.
  pub posted : Bool
  pub session : ℕ
  pub worker_i : ℕ
  pub pc : Pc
  -- The connections whose coroutine has not ended, by session, with their pool.
  pub conns : List (ℕ × ℕ)

abbrev pub size_mod : ℕ
size_mod = 2 ^ 64

unfoldable pub start : Option ℕ → ℕ → Accept
start max_connections use_workers = record {
  max_connections = max_connections;
  use_workers = use_workers;
  active_connections = 0;
  locked = false;
  handler = false;
  posted = false;
  session = 0;
  worker_i = 0;
  pc = at_limit;
  conns = [];
}

-- `max_connections && active_connections >= *max_connections`
abbrev pub is_full : Option ℕ → ℕ → Bool
is_full none n = false
is_full (some m) n = leb m n

-- `max_connections && active_connections < *max_connections`
abbrev pub has_room : Option ℕ → ℕ → Bool
has_room none n = false
has_room (some m) n = ltb n m

-- It takes the mutex; if there is room the lock is released by the end of the function.
unfoldable pub conn_limit : Accept → Accept
conn_limit s =
    if is_full s.max_connections s.active_connections
    then record s { locked = true; pc = holding }
    else record s { pc = at_accept }

-- conn_limit_init::operator()
unfoldable pub conn_limit_init : Accept → Accept
conn_limit_init s = record s { handler = true; locked = false; pc = suspended }

-- The posted handler runs, and `co_await` returns.
unfoldable pub resume : Accept → Accept
resume s = record s { posted = false; pc = at_accept }

-- What `async_accept` and `remote_endpoint` give. The message about a new connection asks for the
-- remote endpoint once more, without an error code: if the client has gone, that throws.
pub data Accepted : Type 0 where
  cannot_accept : Accepted
  no_endpoint : Accepted
  connected : Accepted
  endpoint_throws : Accepted

abbrev next_worker : Accept → Accept
next_worker s = record s { worker_i = (s.worker_i + 1) % s.use_workers; pc = at_limit }

-- The rest of the loop's body, and its step to the next round.
unfoldable pub accept : Accepted → Accept → Accept
accept cannot_accept s = next_worker s
accept no_endpoint s = next_worker s
accept connected s = next_worker (record s {
  active_connections = (s.active_connections + 1) % size_mod;
  session = (s.session + 1) % size_mod;
  conns = (s.session, s.worker_i) ∷ s.conns;
})
accept endpoint_throws s = record s {
  active_connections = (s.active_connections + 1) % size_mod;
  session = (s.session + 1) % size_mod;
  pc = failed;
}

unfoldable pub is_open : ℕ → List (ℕ × ℕ) → Bool
is_open sid [] = false
is_open sid ((i, w) ∷ cs) = if nat_beq i sid then true else is_open sid cs

unfoldable pub remove : ℕ → List (ℕ × ℕ) → List (ℕ × ℕ)
remove sid [] = []
remove sid ((i, w) ∷ cs) = if nat_beq i sid then cs else (i, w) ∷ remove sid cs

-- It runs with the mutex held, and releases it.
unfoldable pub active_connection_end : ℕ → Accept → Accept
active_connection_end sid s =
    let active = (s.active_connections + size_mod - 1) % size_mod in
    let ended = record s { active_connections = active; conns = remove sid s.conns } in
    if has_room s.max_connections active && s.handler
    then record ended { handler = false; posted = true }
    else ended

-- One step of the accept loop, or the end of one connection on another thread.
pub data Step (s : Accept) : Accept → Type 0 where
  check : s.pc ≡ at_limit → s.locked ≡ false → Step s (conn_limit s)
  store : s.pc ≡ holding → Step s (conn_limit_init s)
  wake : s.pc ≡ suspended → s.posted ≡ true → Step s (resume s)
  new : s.pc ≡ at_accept → (r : Accepted) → Step s (accept r s)
  close :
      (sid : ℕ)
      → is_open sid s.conns ≡ true
      → s.locked ≡ false
      → Step s (active_connection_end sid s)

pub data Reach (s : Accept) : Accept → Type 0 where
  here : Reach s s
  later : {t u : Accept} → Reach s t → Step t u → Reach s u
