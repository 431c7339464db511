-- ===== src/Http/Connection/End/Reports.antt =====
-- The first operation of a round that fails is the one that `round` stops with.
use acppsrv.Prelude.{
  ◌≡◌, refl, String, Bool, Option, none, some, List, [], ◌∷◌, if◌then◌else◌, Bool-cases,
  Option-cases, inl, inr,
}
use acppsrv.Log.{LogLevel, info, err}
use acppsrv.Http.Server.{Server}
use acppsrv.Http.Handler.{Request, Response, field}
use acppsrv.Http.Routes.{Env, App, create_response}
use acppsrv.Http.Connection.{
  Error, Header, unread, header, Exchange, Conn, Outcome, going, abort, read_request,
  expect_continue, read_body, respond, got_header, finish, answer, count_body, round,
}
use acppsrv.Http.Connection.Rounds.{Post}

abbrev pub Failure : Type 0
Failure = Option (String × Error)

abbrev first_of : Failure → Failure → Failure
first_of none g = g
first_of (some f) g = some f

abbrev tagged : String → Option Error → Failure
tagged stage none = none
tagged stage (some e) = some (stage, e)

abbrev body_failure : List (Option Error) → Failure
body_failure [] = none
body_failure (none ∷ rs) = body_failure rs
body_failure (some e ∷ rs) = some ("read_request_body", e)

abbrev pub level_of : Failure → LogLevel
level_of none = info
level_of (some f) = err

module _ (env : Env) where
  open env use {iequals}

  abbrev continue_failure : Request → Exchange → Failure
  continue_failure request x =
      if iequals (field request.expect) "100-continue"
      then tagged "write_100_continue" x.write_continue
      else none

  abbrev after_header : Exchange → Header → Failure
  after_header x (unread e) = some ("read_request_headers", e)
  after_header x (header request) =
      first_of (continue_failure request x)
        (first_of (body_failure x.body_reads) (tagged "write_response" x.write_response))

  -- The first operation of a round that fails, by its stage and its error.
  unfoldable pub failure_of : Exchange → Failure
  failure_of x = after_header x x.read_header

module _ (env : Env) (srv : Server) (header_server : String) where
  abbrev C : Type 0
  C = Conn env srv header_server

  -- The connection has stopped with this failure.
  abbrev pub Named : Failure → C → Type 0
  Named f c = (e : Error) × (c.ec ≡ some e) × (f ≡ some (c.stage, e))

  abbrev pub Reports : {A : Type 0} → Failure → Outcome env srv header_server A → Type 0
  Reports f o = Post env srv header_server (λ _ _. f ≡ none) (Named f) o

  finish-Reports :
      (stage : String) (o : Option Error) (c : C)
      → Reports (tagged stage o) (finish env srv header_server stage o c)
  unfolding finish
  finish-Reports stage none c = refl
  finish-Reports stage (some e) c = (e, refl, refl)

  expect_continue-Reports :
      (x : Exchange) (request : Request) (c : C)
      → Reports (continue_failure env request x) (expect_continue env srv header_server x request c)
  unfolding expect_continue
  expect_continue-Reports x request c =
      elim (Bool-cases (env.iequals (field request.expect) "100-continue")) [
        | inl yes_continue ↦
            rw (yes_continue, expect_continue)
              (finish-Reports "write_100_continue" x.write_continue _)
        | inr not_continue ↦ rw (not_continue, expect_continue) refl
      ]

  read_body-Reports :
      (rs : List (Option Error)) (c : C)
      → Reports (body_failure rs) (read_body env srv header_server rs c)
  unfolding read_body finish
  read_body-Reports [] c = refl
  read_body-Reports (none ∷ rs) c = read_body-Reports rs _
  read_body-Reports (some e ∷ rs) c = (e, refl, refl)

  answer-Reports :
      (x : Exchange) (request : Request) (made : Response × App env) (c : C)
      → Reports
          (tagged "write_response" x.write_response)
          (answer env srv header_server x request made c)
  unfolding answer finish
  answer-Reports x request (made, app') c = elim (Option-cases x.write_response) [
    | inl e ↦ rw (e, answer) refl
    | inr (f, e) ↦ rw (e, answer) (f, refl, refl)
  ]

  respond-Reports :
      (x : Exchange) (request : Request) (c : C)
      → Reports
          (tagged "write_response" x.write_response)
          (respond env srv header_server x request c)
  unfolding respond
  respond-Reports x request c =
      answer-Reports x request
        (create_response env request (count_body env srv header_server request c.app)) c

  -- A failure that is the first of two, and one behind what has not failed.
  Reports-then :
      {A B : Type 0} (f g : Failure) (o : Outcome env srv header_server A)
      (h : A → C → Outcome env srv header_server B)
      → Reports f o
      → ((a : A) (c : C) → Reports g (h a c))
      → Reports (first_of f g) (elim o [ going a c ↦ h a c | abort c ↦ abort c ])
  Reports-then f g (going a c) h p q = rw p (q a c)
  Reports-then f g (abort c) h (e, ec, named) q = (e, ec, rw named refl)

  -- A round behind its header.
  abbrev behind_header : Exchange → Request → C → Outcome env srv header_server Bool
  behind_header x request c = elim (expect_continue env srv header_server x request c) [
    | going _ c' ↦ elim (read_body env srv header_server x.body_reads c') [
      | going _ c'' ↦ respond env srv header_server x request c''
      | abort c'' ↦ abort c''
    ]
    | abort c' ↦ abort c'
  ]

  behind_header-Reports :
      (x : Exchange) (request : Request) (c : C)
      → Reports (after_header env x (header request)) (behind_header x request c)
  behind_header-Reports x request c =
      Reports-then (continue_failure env request x)
        (first_of (body_failure x.body_reads) (tagged "write_response" x.write_response))
        (expect_continue env srv header_server x request c) _ (expect_continue-Reports x request c)
        λ _ c'.
          Reports-then (body_failure x.body_reads) (tagged "write_response" x.write_response)
            (read_body env srv header_server x.body_reads c') _ (read_body-Reports x.body_reads c')
            λ _ c''. respond-Reports x request c''

  pub round-Reports :
      (x : Exchange) (c : C) → Reports (failure_of env x) (round env srv header_server x c)
  unfolding round read_request got_header failure_of
  round-Reports x c = go x.read_header _
    where
      go :
          (h : Header) (c0 : C)
          → Reports (after_header env x h) (elim (got_header env srv header_server h c0) [
            | going request c1 ↦ behind_header x request c1
            | abort c1 ↦ abort c1
          ])
      go (unread e) c0 = (e, refl, refl)
      go (header request) c0 = behind_header-Reports x request _
