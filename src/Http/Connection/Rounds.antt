-- ===== src/Http/Connection/Rounds.antt =====
-- What one round of a connection does to its count of requests and to its responses.
use acppsrv.Prelude.{
  ℕ, ◌+◌, ◌%◌, ◌≡◌, refl, ap, ◌≢◌, ◌⊎◌, inl, inr, String, Bool, true, Option, none, some, List, [],
  ◌∷◌, arith, All, Bool-cases, Option-cases,
}
use acppsrv.Http.Server.{Server}
use acppsrv.Http.Handler.{Request, Response, field}
use acppsrv.Http.Routes.{Env, App, uint64_mod, create_response}
use acppsrv.Http.Connection.{
  Error, Header, unread, header, Exchange, Action, expires, reads_header, writes_continue,
  reads_some, writes, writes_error, Conn, Outcome, going, abort, M, read_request, expect_continue,
  read_body, respond, got_header, finish, sent, answer, count_body, round, below_limit, send_error,
}

-- The responses that a trace holds, the newest first; not the one that follows an error.
abbrev pub responses : List Action → List Response
responses [] = []
responses (writes r ∷ t) = r ∷ responses t
responses (expires _ ∷ t) = responses t
responses (reads_header ∷ t) = responses t
responses (writes_continue ∷ t) = responses t
responses (reads_some ∷ t) = responses t
responses (writes_error _ ∷ t) = responses t

abbrev pub KeepsAlive : Response → Type 0
KeepsAlive r = r.keep_alive ≡ true

-- Every response but the newest announces that the connection stays open.
abbrev pub OnlyNewestCloses : List Response → Type 0
OnlyNewestCloses [] = Unit
OnlyNewestCloses (r ∷ rs) = All KeepsAlive rs

module _ (env : Env) (srv : Server) (header_server : String) where
  abbrev pub Post :
      {A : Type 0}
      → (A → Conn env srv header_server → Type 0)
      → (Conn env srv header_server → Type 0)
      → Outcome env srv header_server A
      → Type 0
  Post P Q (going a c) = P a c
  Post P Q (abort c) = Q c

  abbrev pub C : Type 0
  C = Conn env srv header_server

  pub Post-bind :
      {A B : Type 0} (P : A → C → Type 0) (R : B → C → Type 0) (Q : C → Type 0)
      (o : Outcome env srv header_server A) (f : A → M env srv header_server B)
      → Post P Q o
      → ((a : A) (c : C) → P a c → Post R Q (f a c))
      → Post R Q (elim o [ going a c' ↦ f a c' | abort c' ↦ abort c' ])
  Post-bind P R Q (going a c) f p h = h a c p
  Post-bind P R Q (abort c) f p h = p

  abbrev pub next_n : C → ℕ
  next_n c = (c.req_n + 1) % uint64_mod

  -- What a round that started in `c` may leave behind when it aborts.
  pub record Aborted (c c' : C) : Type 0 where
    pub failed : c'.ec ≢ none
    pub counted :
        (c'.req_n ≡ c.req_n) × (responses c'.trace ≡ responses c.trace)
        ⊎ (c'.req_n ≡ next_n c)
          × ((responses c'.trace ≡ responses c.trace)
              ⊎ ((r : Response) × (responses c'.trace ≡ r ∷ responses c.trace)))

  -- The request has been counted, and nothing has been answered yet.
  pub record Read (c c' : C) : Type 0 where
    pub counted : c'.req_n ≡ next_n c
    pub silent : responses c'.trace ≡ responses c.trace

  pub record Answered (c : C) (k : Bool) (c' : C) : Type 0 where
    pub counted : c'.req_n ≡ next_n c
    pub answer : (r : Response) × (responses c'.trace ≡ r ∷ responses c.trace) × (r.keep_alive ≡ k)
    pub limited :
        k ≡ true → below_limit env srv header_server srv.keepalive_requests (next_n c) ≡ true

  got_header-Post :
      (h : Header) (c c0 : C)
      → c0.req_n ≡ c.req_n
      → responses c0.trace ≡ responses c.trace
      → Post (λ _. Read c) (Aborted c) (got_header env srv header_server h c0)
  unfolding got_header
  got_header-Post (unread e) c c0 n r = record { failed = λ q. cc; counted = inl (n, r) }
  got_header-Post (header request) c c0 n r = record {
    counted = ap (λ k. (k + 1) % uint64_mod) n;
    silent = r;
  }

  read_request-Post :
      (x : Exchange) (c : C)
      → Post (λ _. Read c) (Aborted c) (read_request env srv header_server x c)
  unfolding read_request
  read_request-Post x c = got_header-Post x.read_header c _ refl refl

  finish-Post :
      (stage : String) (o : Option Error) (c c' : C)
      → Read c c'
      → Post (λ _. Read c) (Aborted c) (finish env srv header_server stage o c')
  unfolding finish
  finish-Post stage none c c' h = record { counted = h.counted; silent = h.silent }
  finish-Post stage (some e) c c' h = record {
    failed = λ q. cc;
    counted = inr (h.counted, inl h.silent);
  }

  expect_continue-Post :
      (x : Exchange) (request : Request) (c c' : C)
      → Read c c'
      → Post (λ _. Read c) (Aborted c) (expect_continue env srv header_server x request c')
  unfolding expect_continue
  expect_continue-Post x request c c' h =
      elim (Bool-cases (env.iequals (field request.expect) "100-continue")) [
        | inl yes_continue ↦
            rw (yes_continue, expect_continue)
              (finish-Post "write_100_continue" x.write_continue c _
                (record { counted = h.counted; silent = h.silent }))
        | inr not_continue ↦ rw (not_continue, expect_continue) h
      ]

  read_body-Post :
      (rs : List (Option Error)) (c c' : C)
      → Read c c'
      → Post (λ _ c''. Read c c'') (Aborted c) (read_body env srv header_server rs c')
  unfolding read_body
  read_body-Post [] c c' h = h
  read_body-Post (none ∷ rs) c c' h =
      read_body-Post rs c
        (record c' {
          ec = none;
          stage = "read_request_body";
          trace = reads_some ∷ expires srv.idle_timeout ∷ c'.trace;
        })
        (record { counted = h.counted; silent = h.silent })
  read_body-Post (some e ∷ rs) c c' h =
      finish-Post "read_request_body" (some e) c
        (record c' { trace = reads_some ∷ expires srv.idle_timeout ∷ c'.trace })
        (record { counted = h.counted; silent = h.silent })

  answer-Post :
      (x : Exchange) (request : Request) (made : Response × App env) (c c' : C)
      → Read c c'
      → Post (Answered c) (Aborted c) (answer env srv header_server x request made c')
  unfolding answer
  answer-Post x request (made, app') c c' h =
      let r = sent env srv header_server request c'.req_n made in
      elim (Option-cases x.write_response) [
        | inl e ↦
            rw (e, answer)
              (record {
                counted = h.counted;
                answer = (r, ap (λ t. r ∷ t) h.silent, refl);
                limited = λ k. ground (arith, h.counted);
              })
        | inr (err, e) ↦
            rw (e, answer)
              (record {
                failed = λ q. cc;
                counted = inr (h.counted, inr (r, ap (λ t. r ∷ t) h.silent));
              })
      ]

  respond-Post :
      (x : Exchange) (request : Request) (c c' : C)
      → Read c c'
      → Post (Answered c) (Aborted c) (respond env srv header_server x request c')
  unfolding respond
  respond-Post x request c c' h =
      answer-Post x request
        (create_response env request (count_body env srv header_server request c'.app)) c c' h

  pub round-Post :
      (x : Exchange) (c : C) → Post (Answered c) (Aborted c) (round env srv header_server x c)
  unfolding round
  round-Post x c =
      Post-bind (λ _. Read c) (Answered c) (Aborted c) (read_request env srv header_server x c) _
        (read_request-Post x c)
        λ request c1 h1.
          Post-bind (λ _. Read c) (Answered c) (Aborted c)
            (expect_continue env srv header_server x request c1) _
            (expect_continue-Post x request c c1 h1)
            λ _ c2 h2.
              Post-bind (λ _. Read c) (Answered c) (Aborted c)
                (read_body env srv header_server x.body_reads c2) _
                (read_body-Post x.body_reads c c2 h2) λ _ c3 h3. respond-Post x request c c3 h3

  pub send_error-responses :
      (c : C) → responses (send_error env srv header_server c).trace ≡ responses c.trace
  unfolding send_error
  send_error-responses c = ground arith

  pub send_error-req_n : (c : C) → (send_error env srv header_server c).req_n ≡ c.req_n
  unfolding send_error
  send_error-req_n c = ground arith

  pub send_error-ec : (c : C) → (send_error env srv header_server c).ec ≡ c.ec
  unfolding send_error
  send_error-ec c = ground arith
