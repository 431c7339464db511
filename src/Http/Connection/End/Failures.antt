-- ===== src/Http/Connection/End/Failures.antt =====
-- The error with which a connection ends, and the stage that its last message names.
use acppsrv.Prelude.{
  ◌≡◌, refl, sym, ap, subst, String, Bool, true, false, none, List, [], ◌∷◌, ◌++◌, All, arith,
}
use acppsrv.Http.Server.{Server}
use acppsrv.Http.Routes.{Env, App}
use acppsrv.Http.Connection.{
  Exchange, Conn, Outcome, going, abort, round, rounds, send_error, Progress, waiting, ended,
  opened, handle_connection,
}
use acppsrv.Http.Connection.End.{active_connection_end, at_end}
use acppsrv.Http.Connection.End.Reports.{
  Failure, level_of, failure_of, Named, Reports, round-Reports,
}

module _ (env : Env) (srv : Server) (header_server : String) where
  abbrev C : Type 0
  C = Conn env srv header_server

  -- The connection waits after exchanges without failures, or it has ended in the exchange `x` behind
  -- such exchanges, and its message tells the failure of `x`, if there is one.
  abbrev pub Told : List Exchange → Progress env srv header_server → Type 0
  Told xs (waiting c) = All (λ x. failure_of env x ≡ none) xs
  Told xs (ended c) =
      (before : List Exchange) × (x : Exchange) × (after : List Exchange) × (xs
        ≡ before ++ x ∷ after)
      × All (λ y. failure_of env y ≡ none) before
      × ((at_end c).failure ≡ failure_of env x)
      × ((at_end c).level ≡ level_of (failure_of env x))

  Told-here :
      (x : Exchange) (xs : List Exchange) (c : C)
      → ((at_end c).failure ≡ failure_of env x) × ((at_end c).level ≡ level_of (failure_of env x))
      → Told (x ∷ xs) (ended c)
  Told-here x xs c (f, l) = ([], x, xs, refl, tt, f, l)

  Told-later :
      (x : Exchange) (xs : List Exchange) (p : Progress env srv header_server)
      → failure_of env x ≡ none
      → Told xs p
      → Told (x ∷ xs) p
  Told-later x xs (waiting c) h t = (h, t)
  Told-later x xs (ended c) h (before, y, after, e, all, f, l) =
      (x ∷ before, y, after, ap (λ ys. x ∷ ys) e, (h, all), f, l)

  send_error-at_end : (c : C) → at_end (send_error env srv header_server c) ≡ at_end c
  unfolding send_error at_end active_connection_end
  send_error-at_end c = ground arith

  at_end-Named :
      (f : Failure) (c : C)
      → Named env srv header_server f c
      → ((at_end c).failure ≡ f) × ((at_end c).level ≡ level_of f)
  unfolding at_end active_connection_end
  at_end-Named f c (e, ec, named) = rw named (ground arith, ground arith)

  at_end-none :
      (f : Failure) (c : C)
      → f ≡ none
      → c.ec ≡ none
      → ((at_end c).failure ≡ f) × ((at_end c).level ≡ level_of f)
  unfolding at_end active_connection_end
  at_end-none f c h ec = rw h (ground arith, ground arith)

  rounds-Told : (xs : List Exchange) (c : C) → Told xs (rounds env srv header_server xs c)
  unfolding rounds
  rounds-Told [] c = tt
  rounds-Told (x ∷ xs) c =
      go (round env srv header_server x c) refl (round-Reports env srv header_server x c)
        (rounds-Told xs)
    where
      go :
          (o : Outcome env srv header_server Bool)
          → round env srv header_server x c ≡ o
          → Reports env srv header_server (failure_of env x) o
          → ((c' : C) → Told xs (rounds env srv header_server xs c'))
          → Told (x ∷ xs) (rounds env srv header_server (x ∷ xs) c)
      go (going true c') e p rest = rw (e, rounds) (Told-later x xs _ p (rest c'))
      go (going false c') e p rest =
          rw (e, rounds)
            (Told-here x xs _
              (at_end-none (failure_of env x) (record c' { ec = none; stage = "" }) p refl))
      go (abort c') e p rest =
          rw (e, rounds)
            (Told-here x xs _ (
              subst (λ m. (m.failure ≡ failure_of env x) × (m.level ≡ level_of (failure_of env x)))
                (sym (send_error-at_end c')) (at_end-Named (failure_of env x) c' p)))

  -- Whatever the client and the network do: a connection that has ended has done so in some exchange
  -- behind exchanges in which no operation failed, and the message about its end is an error exactly if
  -- an operation of that exchange failed, and then names the stage and the error of the first that did;
  -- while it waits, none has failed.
  pub handle_connection-Told :
      (xs : List Exchange) (app : App env)
      → Told xs (handle_connection env srv header_server xs app)
  unfolding handle_connection
  handle_connection-Told xs app = rounds-Told xs (opened env srv header_server app)
