-- ===== src/Bench/Partition/Calls.antt =====
-- What is known of a call that has returned a value.
use acppsrv.Prelude.{◌≡◌, refl, String, false, Bool-cases, inl, inr}
use acppsrv.Sqlite.{Driver, Connection, Query, Result, ok, raised, aborted, make_query}
use acppsrv.Bench.Partition.{
  Numbers, Platform, Made, made, failed, asserted, N, and_then, lifted, lift, finished, cleaned,
  on_failure, require_new, with_query,
}

module _ (drv : Driver) (num : Numbers) (os : Platform drv) where
  open drv use {S, finalize}
  open os use {exists}

  -- The calls of a sequence that has returned.
  pub and_then-made :
      {A B : Type 0} (f : A → N drv num os B) (r : Made drv num os A) (s : S) (b : B)
      → and_then drv num os f r ≡ made b s
      → (a : A) × (t : S) × (r ≡ made a t) × (f a t ≡ made b s)
  and_then-made f (made a t) s b h = (a, t, refl, h)
  and_then-made f (failed e t) s b h = cc
  and_then-made f asserted s b h = cc

  pub lifted-made :
      {A : Type 0} (r : Result drv A) (s : S) (a : A) → lifted drv num os r ≡ made a s → r ≡ ok a s
  lifted-made (ok b t) s a h = cc
  lifted-made (raised e t) s a h = cc
  lifted-made aborted s a h = cc

  pub finished-made :
      {A : Type 0} (d : S → S) (r : Made drv num os A) (s : S) (a : A)
      → finished drv num os d r ≡ made a s
      → (t : S) × (r ≡ made a t)
  finished-made d (made b t) s a h = (t, cc)
  finished-made d (failed e t) s a h = cc
  finished-made d asserted s a h = cc

  pub cleaned-made :
      {A : Type 0} (d : S → S) (r : Made drv num os A) (s : S) (a : A)
      → cleaned drv num os d r ≡ made a s
      → r ≡ made a s
  cleaned-made d (made b t) s a h = h
  cleaned-made d (failed e t) s a h = cc
  cleaned-made d asserted s a h = cc

  pub require_new-made :
      (path : String) (s s' : S) (u : Unit)
      → require_new drv num os path s ≡ made u s'
      → (exists path s ≡ false) × (s ≡ s')
  unfolding require_new
  require_new-made path s s' u h = elim (Bool-cases (exists path s)) [
    | inl e ↦ cc
    | inr e ↦ (e, cc)
  ]

  -- Where a constructor has prepared one more query, it has gone on with it.
  pub with_query-made :
      {A : Type 0} (P : A → Type 0) (db : Connection drv) (sql : String)
      (f : Query drv → N drv num os A)
      → ((q : Query drv) (s s' : S) (a : A) → f q s ≡ made a s' → P a)
      → (s s' : S) (a : A) → with_query drv num os db sql f s ≡ made a s'
      → P a
  unfolding with_query
  with_query-made P db sql f step s s' a h =
      let (q, t, e, e') =
        and_then-made (λ q. on_failure drv num os (finalize q.stmt) (f q))
          (lift drv num os (make_query drv db sql "") s) s' a h in
      step q t s' a (cleaned-made (finalize q.stmt) (f q t) s' a e')
