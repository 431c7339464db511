-- ===== src/Http/Connection/Timeouts.antt =====
-- Under which timeout a connection waits, and what it sends after an error.
use acppsrv.Prelude.{
  ℕ, ◌≡◌, refl, ◌⊎◌, inl, inr, ◌≢◌, String, Bool, true, false, Option, none, some, List, [], ◌∷◌,
  if◌then◌else◌, Bool-cases, Option-cases, nat_beq,
}
use acppsrv.Http.Server.{Server}
use acppsrv.Http.Handler.{Request, Response, field, new_response, payload_too_large}
use acppsrv.Http.Routes.{Env, App, create_response}
use acppsrv.Http.Connection.{
  Error, body_limit, other, Header, unread, header, Exchange, Action, expires, reads_header,
  writes_continue, reads_some, writes, writes_error, Conn, Outcome, going, abort, M, read_request,
  expect_continue, read_body, respond, round, got_header, finish, answer, count_body, Progress,
  waiting, ended, send_error, rounds, opened, handle_connection,
}

-- The last timeout that was set is `d`.
abbrev pub Under : Option ℕ → List Action → Type 0
Under d [] = ⊥
Under d (expires e ∷ t) = e ≡ d
Under d (_ ∷ t) = ⊥

module _ (idle keepalive : Option ℕ) where
  -- In a trace, the newest action first: a header is awaited under the idle or the keep-alive
  -- timeout, all else that waits for the client under the idle timeout, and a response is sent
  -- under none; no error response.
  abbrev pub Timed : List Action → Type 0
  Timed [] = Unit
  Timed (expires _ ∷ t) = Timed t
  Timed (reads_header ∷ t) = (Under idle t ⊎ Under keepalive t) × Timed t
  Timed (writes_continue ∷ t) = Under idle t × Timed t
  Timed (reads_some ∷ t) = Under idle t × Timed t
  Timed (writes r ∷ t) = Under none t × Timed t
  Timed (writes_error r ∷ t) = ⊥

module _ (env : Env) (srv : Server) (header_server : String) where
  abbrev C : Type 0
  C = Conn env srv header_server

  abbrev TimedConn : C → Type 0
  TimedConn c = Timed srv.idle_timeout srv.keepalive_timeout c.trace

  abbrev TimedAfter : {A : Type 0} → Outcome env srv header_server A → Type 0
  TimedAfter (going a c) = TimedConn c
  TimedAfter (abort c) = TimedConn c

  TimedAfter-bind :
      {A B : Type 0} (o : Outcome env srv header_server A) (f : A → M env srv header_server B)
      → TimedAfter o
      → ((a : A) (c : C) → TimedConn c → TimedAfter (f a c))
      → TimedAfter (elim o [ going a c' ↦ f a c' | abort c' ↦ abort c' ])
  TimedAfter-bind (going a c) f p h = h a c p
  TimedAfter-bind (abort c) f p h = p

  got_header-Timed :
      (h : Header) (c : C) → TimedConn c → TimedAfter (got_header env srv header_server h c)
  unfolding got_header
  got_header-Timed (unread e) c t = t
  got_header-Timed (header request) c t = t

  first_timeout :
      (b : Bool)
      → ((if b then srv.idle_timeout else srv.keepalive_timeout) ≡ srv.idle_timeout)
        ⊎ ((if b then srv.idle_timeout else srv.keepalive_timeout) ≡ srv.keepalive_timeout)
  first_timeout true = inl refl
  first_timeout false = inr refl

  read_request-Timed :
      (x : Exchange) (c : C) → TimedConn c → TimedAfter (read_request env srv header_server x c)
  unfolding read_request
  read_request-Timed x c t = got_header-Timed x.read_header _ (first_timeout (nat_beq c.req_n 0), t)

  finish-Timed :
      (stage : String) (o : Option Error) (c : C)
      → TimedConn c
      → TimedAfter (finish env srv header_server stage o c)
  unfolding finish
  finish-Timed stage none c t = t
  finish-Timed stage (some e) c t = t

  expect_continue-Timed :
      (x : Exchange) (request : Request) (c : C)
      → TimedConn c
      → TimedAfter (expect_continue env srv header_server x request c)
  unfolding expect_continue
  expect_continue-Timed x request c t =
      elim (Bool-cases (env.iequals (field request.expect) "100-continue")) [
        | inl e ↦
            rw (e, expect_continue) (finish-Timed "write_100_continue" x.write_continue _ (refl, t))
        | inr e ↦ rw (e, expect_continue) t
      ]

  read_body-Timed :
      (rs : List (Option Error)) (c : C)
      → TimedConn c
      → TimedAfter (read_body env srv header_server rs c)
  unfolding read_body
  read_body-Timed [] c t = t
  read_body-Timed (none ∷ rs) c t =
      read_body-Timed rs
        (record c {
          ec = none;
          stage = "read_request_body";
          trace = reads_some ∷ expires srv.idle_timeout ∷ c.trace;
        })
        (refl, t)
  read_body-Timed (some e ∷ rs) c t =
      finish-Timed "read_request_body" (some e)
        (record c { trace = reads_some ∷ expires srv.idle_timeout ∷ c.trace }) (refl, t)

  answer-Timed :
      (x : Exchange) (request : Request) (made : Response × App env) (c : C)
      → TimedConn c
      → TimedAfter (answer env srv header_server x request made c)
  unfolding answer
  answer-Timed x request (made, app') c t = elim (Option-cases x.write_response) [
    | inl e ↦ rw (e, answer) (refl, t)
    | inr (err, e) ↦ rw (e, answer) (refl, t)
  ]

  respond-Timed :
      (x : Exchange) (request : Request) (c : C)
      → TimedConn c
      → TimedAfter (respond env srv header_server x request c)
  unfolding respond
  respond-Timed x request c t =
      answer-Timed x request
        (create_response env request (count_body env srv header_server request c.app)) c t

  round-Timed : (x : Exchange) (c : C) → TimedConn c → TimedAfter (round env srv header_server x c)
  unfolding round
  round-Timed x c t =
      TimedAfter-bind (read_request env srv header_server x c) _ (read_request-Timed x c t)
        λ request c1 t1.
          TimedAfter-bind (expect_continue env srv header_server x request c1) _
            (expect_continue-Timed x request c1 t1)
            λ _ c2 t2.
              TimedAfter-bind (read_body env srv header_server x.body_reads c2) _
                (read_body-Timed x.body_reads c2 t2) λ _ c3 t3. respond-Timed x request c3 t3

  -- The end of a connection: 413 under the idle timeout if the body was too large, else nothing.
  abbrev pub EndsWell : C → Type 0
  EndsWell c =
      ((c.ec ≡ some body_limit)
        × ((t : List Action) × (c.trace
              ≡ writes_error (new_response payload_too_large) ∷ expires srv.idle_timeout ∷ t)
            × Timed srv.idle_timeout srv.keepalive_timeout t))
      ⊎ ((c.ec ≢ some body_limit) × TimedConn c)

  abbrev pub RunsTimed : Progress env srv header_server → Type 0
  RunsTimed (waiting c) = TimedConn c
  RunsTimed (ended c) = EndsWell c

  send_error-EndsWell : (c : C) → TimedConn c → EndsWell (send_error env srv header_server c)
  unfolding send_error
  send_error-EndsWell c t = go c.ec refl
    where
      go : (o : Option Error) → c.ec ≡ o → EndsWell (send_error env srv header_server c)
      go none e = rw (e, send_error) (inr ((λ q. cc), t))
      go (some body_limit) e = rw (e, send_error) (inl (e, (c.trace, refl, t)))
      go (some (other m)) e = rw (e, send_error) (inr ((λ q. cc), t))

  rounds-RunsTimed :
      (xs : List Exchange) (c : C) → TimedConn c → RunsTimed (rounds env srv header_server xs c)
  unfolding rounds
  rounds-RunsTimed [] c t = t
  rounds-RunsTimed (x ∷ xs) c t =
      go (round env srv header_server x c) refl (round-Timed x c t) (rounds-RunsTimed xs)
    where
      go :
          (o : Outcome env srv header_server Bool)
          → round env srv header_server x c ≡ o
          → TimedAfter o
          → ((c' : C) → TimedConn c' → RunsTimed (rounds env srv header_server xs c'))
          → RunsTimed (rounds env srv header_server (x ∷ xs) c)
      go (going true c') e p rest = rw (e, rounds) (rest c' p)
      go (going false c') e p rest =
          rw (e, rounds) (send_error-EndsWell (record c' { ec = none; stage = "" }) p)
      go (abort c') e p rest = rw (e, rounds) (send_error-EndsWell c' p)

  -- A connection waits for the client only under the idle or keep-alive timeout and sends responses
  -- under none; its last action is the response 413, under the idle timeout, exactly if it ended
  -- with the body over its limit, and it never sends that response otherwise.
  pub handle_connection-RunsTimed :
      (xs : List Exchange) (app : App env)
      → RunsTimed (handle_connection env srv header_server xs app)
  unfolding handle_connection
  handle_connection-RunsTimed xs app = rounds-RunsTimed xs (opened env srv header_server app) tt
