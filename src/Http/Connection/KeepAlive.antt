-- ===== src/Http/Connection/KeepAlive.antt =====
-- How many requests a connection serves, and when it is closed.
use acppsrv.Prelude.{
  ℕ, ◌^◌, ◌≤◌, ◌<◌, ◌≡◌, refl, sym, ◌∙◌, ap, inl, inr, String, Bool, true, false, none, some, List,
  [], ◌∷◌, arith, length, All,
}
use acppsrv.Http.Server.{Server}
use acppsrv.Http.Handler.{Response}
use acppsrv.Http.Routes.{Env, App}
use acppsrv.Http.Connection.{
  Exchange, Conn, Outcome, going, abort, round, below_limit, Progress, waiting, ended, send_error,
  rounds, opened, handle_connection,
}
use acppsrv.Http.Connection.Rounds.{
  responses, KeepsAlive, OnlyNewestCloses, Post, next_n, Aborted, Answered, round-Post,
  send_error-responses, send_error-req_n, send_error-ec,
}

module _ (env : Env) (srv : Server) (header_server : String) where
  -- Before a round: every request has been answered, and one more is within the limit.
  pub record Looping (k : ℕ) (c : Conn env srv header_server) : Type 0 where
    pub answered : length (responses c.trace) ≡ c.req_n
    pub open_all : All KeepsAlive (responses c.trace)
    pub room : c.req_n < k

  pub record Served (k : ℕ) (c : Conn env srv header_server) : Type 0 where
    pub answered : length (responses c.trace) ≤ c.req_n
    pub limit : c.req_n ≤ k
    pub only_newest : OnlyNewestCloses (responses c.trace)
    pub closed :
        c.ec ≡ none
        → (r : Response) × (rs : List Response) × (responses c.trace ≡ r ∷ rs)
          × (r.keep_alive ≡ false)

  abbrev pub KeepsLimit : ℕ → Progress env srv header_server → Type 0
  KeepsLimit k (waiting c) = Looping k c
  KeepsLimit k (ended c) = Served k c

  newest_alone : (rs : List Response) → All KeepsAlive rs → OnlyNewestCloses rs
  newest_alone [] h = tt
  newest_alone (r ∷ rs) h = h.1

  module _ (k : ℕ) (small : k < 2 ^ 32) (set : srv.keepalive_requests ≡ some k) where
    going_on :
        (c c' : Conn env srv header_server)
        → Looping k c
        → Answered env srv header_server c true c'
        → Looping k c'
    going_on c c' l a =
        let (r, e, alive) = a.answer in
        let below : below_limit env srv header_server (some k) (next_n env srv header_server c)
            ≡ true =
          rw set at (a.limited refl) in
        record {
          answered = omega (arith, ap length e, l.answered, l.room, a.counted);
          open_all = rw e (alive, l.open_all);
          room = ground (arith, a.counted);
        }

    ending :
        (c c' : Conn env srv header_server)
        → Looping k c
        → Answered env srv header_server c false c'
        → Served k (send_error env srv header_server (record c' { ec = none; stage = "" }))
    ending c c' l a =
        let (r, e, closes) = a.answer in
        let c'' : Conn env srv header_server = record c' { ec = none; stage = "" } in
        let same : responses (send_error env srv header_server c'').trace ≡ r ∷ responses c.trace =
          send_error-responses env srv header_server c'' ∙ e in
        let n = send_error-req_n env srv header_server c'' in
        record {
          answered = omega (arith, ap length same, l.answered, l.room, a.counted, n);
          limit = omega (arith, l.room, a.counted, n);
          only_newest = rw same l.open_all;
          closed = λ _. (r, responses c.trace, same, closes);
        }

    failing :
        (c c' : Conn env srv header_server)
        → Aborted env srv header_server c c'
        → (rs : List Response) → responses c'.trace ≡ rs
        → length rs ≤ c'.req_n
        → c'.req_n ≤ k
        → OnlyNewestCloses rs
        → Served k (send_error env srv header_server c')
    failing c c' a rs e few within newest =
        let same : responses (send_error env srv header_server c').trace ≡ rs =
          send_error-responses env srv header_server c' ∙ e in
        let n = send_error-req_n env srv header_server c' in
        record {
          answered = omega (arith, ap length same, few, n);
          limit = omega (arith, within, n);
          only_newest = rw same newest;
          closed = λ q. absurd (a.failed (sym (send_error-ec env srv header_server c') ∙ q));
        }

    aborting :
        (c c' : Conn env srv header_server)
        → Looping k c
        → Aborted env srv header_server c c'
        → Served k (send_error env srv header_server c')
    aborting c c' l a = elim a.counted [
      | inl (n, e) ↦
          failing c c' a _ e (omega (arith, l.answered, n)) (omega (arith, l.room, n))
            (newest_alone _ l.open_all)
      | inr (n, inl e) ↦
          failing c c' a _ e (omega (arith, l.answered, l.room, n)) (omega (arith, l.room, n))
            (newest_alone _ l.open_all)
      | inr (n, inr (r, e)) ↦
          failing c c' a (r ∷ responses c.trace) e (omega (arith, l.answered, l.room, n))
            (omega (arith, l.room, n)) l.open_all
    ]

    rounds-KeepsLimit :
        (xs : List Exchange) (c : Conn env srv header_server)
        → Looping k c
        → KeepsLimit k (rounds env srv header_server xs c)
    unfolding rounds
    rounds-KeepsLimit [] c l = l
    rounds-KeepsLimit (x ∷ xs) c l =
        go (round env srv header_server x c) refl (round-Post env srv header_server x c)
          (rounds-KeepsLimit xs)
      where
        go :
            (o : Outcome env srv header_server Bool)
            → round env srv header_server x c ≡ o
            → Post env srv header_server
                (Answered env srv header_server c)
                (Aborted env srv header_server c)
                o
            → ((c' : Conn env srv header_server)
                → Looping k c'
                → KeepsLimit k (rounds env srv header_server xs c'))
            → KeepsLimit k (rounds env srv header_server (x ∷ xs) c)
        go (going true c') e p rest = rw (e, rounds) (rest c' (going_on c c' l p))
        go (going false c') e p rest = rw (e, rounds) (ending c c' l p)
        go (abort c') e p rest = rw (e, rounds) (aborting c c' l p)

    -- With a limit on the requests of one connection, whatever the client, the network and the
    -- handlers do, a connection serves at most that many requests and sends at most one response to
    -- each; every response but the last announces keep-alive, and a connection that ends without an
    -- error has announced its end in the last one.
    pub handle_connection-KeepsLimit :
        (xs : List Exchange) (app : App env)
        → 0 < k
        → KeepsLimit k (handle_connection env srv header_server xs app)
    unfolding handle_connection
    handle_connection-KeepsLimit xs app pos_k =
        rounds-KeepsLimit xs (opened env srv header_server app)
          (record { answered = refl; open_all = tt; room = pos_k })
