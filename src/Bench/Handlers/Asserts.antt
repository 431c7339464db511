-- ===== src/Bench/Handlers/Asserts.antt =====
-- The assertions of the handlers hold, and the loop of an update ends.
use acppsrv.Prelude.Int.{ℤ, pos}
use acppsrv.Prelude.{
  ℕ, zero, suc, ◌+◌, ◌<◌, ◌≤◌, ◌≡◌, ◌≢◌, refl, sym, ap, ◌∙◌, subst, String, Bool, true, false,
  Option, none, some, arith, nat_beq,
}
use acppsrv.Sqlite.{
  Driver, Cell, null, int64, double, string, blob, Status, row, done, locked, Query, Result, ok,
  raised, aborted, M, bind, get_column, next_row, start, sqlite_row,
}
use acppsrv.Sqlite.Calls.{next_row_lem, next_row-state}
use acppsrv.Db.Fetching.{Steps}
use acppsrv.Bench.Handlers.{
  ◌>>=◌, assert, text_of, int_of, is_status_done, after_get, handle_get, handle_insert, more_rows,
  first_row, update_rows, after_update, started_update, handle_update,
}

module _ (drv : Driver) (q : Query drv) where
  open drv use {S, D, step, column_count}

  -- What a bind that does not abort needs of its parts.
  bind-ne-aborted :
      {A B : Type 0} (m : Result drv A) (f : A → M drv B)
      → m ≢ aborted
      → ((a : A) (s : S) → m ≡ ok a s → f a s ≢ aborted)
      → elim m [ ok a s' ↦ f a s' | raised e s' ↦ raised e s' | aborted ↦ aborted ] ≢ aborted
  bind-ne-aborted (ok a s) f m h = h a s refl
  bind-ne-aborted (raised e s) f m h = λ c. cc
  bind-ne-aborted aborted f m h = absurd (m refl)

  start-ne-aborted : (restart : Bool) (s : S) → start drv q restart s ≢ aborted
  unfolding start
  start-ne-aborted true s c = cc
  start-ne-aborted false s c = ground arith

  bind_ne_aborted : (i : ℕ) (v : Cell D) (s : S) → bind drv q i v s ≢ aborted
  unfolding bind
  bind_ne_aborted i v s c = ground arith

  text_ne_aborted : (v : Cell D) (s : S) → text_of drv v s ≢ aborted
  text_ne_aborted null s c = cc
  text_ne_aborted (int64 n) s c = cc
  text_ne_aborted (double d) s c = cc
  text_ne_aborted (string t) s c = cc
  text_ne_aborted (blob b) s c = cc

  int_ne_aborted : (v : Cell D) (s : S) → int_of drv v s ≢ aborted
  int_ne_aborted null s c = cc
  int_ne_aborted (int64 n) s c = cc
  int_ne_aborted (double d) s c = cc
  int_ne_aborted (string t) s c = cc
  int_ne_aborted (blob b) s c = cc

  -- Without retries no lock is reported.
  never_locked : (s s' : S) → next_row drv q 0 s ≢ ok locked s'
  never_locked s s' h =
      let same = next_row-state drv q 0 s s' locked h in
      absurd (omega (arith, ((next_row_lem drv q 0 s).2.0 (h ∙ ap (ok locked) (sym same))).0))

  next_row_ne_aborted : (s : S) → next_row drv q 0 s ≢ aborted
  next_row_ne_aborted s = (next_row_lem drv q 0 s).3

  text_state : (v : Cell D) (s : S) {a : String} {t : S} → text_of drv v s ≡ ok a t → t ≡ s
  text_state null s e = cc
  text_state (int64 n) s e = cc
  text_state (double d) s e = cc
  text_state (string x) s e = cc
  text_state (blob b) s e = cc

  int_state : (v : Cell D) (s : S) {a : ℤ} {t : S} → int_of drv v s ≡ ok a t → t ≡ s
  int_state null s e = cc
  int_state (int64 n) s e = cc
  int_state (double d) s e = cc
  int_state (string x) s e = cc
  int_state (blob b) s e = cc

  -- A call of `next_row` that cannot report a row satisfies the assertion that it is done.
  assert_done :
      (s : S)
      → ((t : S) → next_row drv q 0 s ≢ ok row t)
      → ◌>>=◌ drv (next_row drv q 0) (λ st. assert drv (is_status_done drv st)) s ≢ aborted
  assert_done s h =
      bind-ne-aborted (next_row drv q 0 s) (λ st. assert drv (is_status_done drv st))
        (next_row_ne_aborted s) (λ st t e. go st t e)
    where
      go :
          (st : Status) (t : S)
          → next_row drv q 0 s ≡ ok st t
          → assert drv (is_status_done drv st) t ≢ aborted
      go row t e = absurd (h t e)
      go done t e = λ c. cc
      go locked t e = absurd (never_locked s t e)

  -- After a row of the query there is no other one: its statement has `limit 1`.
  abbrev pub OneRow : Type 0
  OneRow = (s t u : S) → next_row drv q 0 s ≡ ok row t → next_row drv q 0 t ≢ ok row u

  after_get_ne_aborted :
      (st : Status) (s t : S)
      → column_count q.stmt t ≡ 3
      → OneRow
      → next_row drv q 0 s ≡ ok st t
      → after_get drv q st t ≢ aborted
  unfolding after_get
  after_get_ne_aborted row s t n one e =
      let three : nat_beq (column_count q.stmt t) 3 ≡ true = ground arith in
      rw three (
        bind-ne-aborted (text_of drv (get_column drv q 0 t) t) _ (text_ne_aborted _ t) (λ a t1 e1.
          bind-ne-aborted (int_of drv (get_column drv q 1 t1) t1) _ (int_ne_aborted _ t1)
            (λ b t2 e2.
              bind-ne-aborted (text_of drv (get_column drv q 2 t2) t2) _ (text_ne_aborted _ t2)
                (λ c t3 e3. assert_done t3 (λ u h.
                  let back =
                    text_state (get_column drv q 2 t2) t2 e3
                    ∙ int_state (get_column drv q 1 t1) t1 e2
                    ∙ text_state (get_column drv q 0 t) t e1 in
                  one s t u e (subst (λ x. next_row drv q 0 x ≡ ok row u) back h))))))
  after_get_ne_aborted done s t n one e = λ c. cc
  after_get_ne_aborted locked s t n one e = absurd (never_locked s t e)

  -- `handle_get` fails no assertion, for a query of three columns that delivers at most one row:
  -- without retries the library's locks are exceptions, and the branch for a lock is never taken.
  pub handle_get_asserts :
      (hash : ℕ) (s : S)
      → ((t : S) → column_count q.stmt t ≡ 3)
      → OneRow
      → handle_get drv q hash s ≢ aborted
  unfolding handle_get
  handle_get_asserts hash s three one =
      bind-ne-aborted (start drv q false s) _ (start-ne-aborted false s) (λ u t e.
        bind-ne-aborted (bind drv q 0 (int64 (pos hash)) t) _
          (bind_ne_aborted 0 (int64 (pos hash)) t)
          (λ u' t' e'.
            bind-ne-aborted (next_row drv q 0 t') _ (next_row_ne_aborted t')
              (λ st t2 e2. after_get_ne_aborted st t' t2 (three t2) one e2)))

  -- `handle_insert` fails no assertion, for a statement that delivers no rows.
  pub handle_insert_asserts :
      (key : String) (hash : ℕ) (value : String) (s : S)
      → ((t u : S) → next_row drv q 0 t ≢ ok row u)
      → handle_insert drv q key hash value s ≢ aborted
  unfolding handle_insert
  handle_insert_asserts key hash value s no_rows =
      bind-ne-aborted (start drv q false s) _ (start-ne-aborted false s) (λ _ t _.
        bind-ne-aborted (bind drv q 0 (blob key) t) _ (bind_ne_aborted 0 (blob key) t) (λ _ t1 _.
          bind-ne-aborted (bind drv q 1 (int64 (pos hash)) t1) _
            (bind_ne_aborted 1 (int64 (pos hash)) t1)
            (λ _ t2 _.
              bind-ne-aborted (bind drv q 2 (int64 (pos 0)) t2) _
                (bind_ne_aborted 2 (int64 (pos 0)) t2)
                (λ _ t3 _.
                  bind-ne-aborted (bind drv q 3 (blob value) t3) _
                    (bind_ne_aborted 3 (blob value) t3) (λ _ t4 _. assert_done t4 (no_rows t4))))))

  module _ (left : S → ℕ) (most : ℕ)
      (shrinks : (s t : S) → Steps drv q s sqlite_row t → left t < left s)
      (bounded : (s : S) → left s < most) where
    row_left : (s t : S) → next_row drv q 0 s ≡ ok row t → left t < left s
    row_left s t e =
        let same = next_row-state drv q 0 s t row e in
        shrinks s t ((next_row_lem drv q 0 s).0.0 (e ∙ ap (ok row) (sym same)), same)

    -- A result that is not a failed assertion.
    abbrev pub Ends : Option (Result drv ℕ) → Type 0
    Ends none = ⊥
    Ends (some (ok n s)) = Unit
    Ends (some (raised e s)) = Unit
    Ends (some aborted) = ⊥

    more_rows-Ends : (fuel n : ℕ) (s : S) → left s < fuel → Ends (more_rows drv fuel q n s)
    unfolding more_rows
    more_rows-Ends zero n s h = absurd (omega arith)
    more_rows-Ends (suc fuel) n s h = go (next_row drv q 0 s) refl (more_rows-Ends fuel)
      where
        go :
            (r : Result drv Status)
            → next_row drv q 0 s ≡ r
            → ((n' : ℕ) (s' : S) → left s' < fuel → Ends (more_rows drv fuel q n' s'))
            → Ends (more_rows drv (suc fuel) q n s)
        go (ok row t) e ih = rw (e, more_rows) (ih (n + 1) t (omega (arith, row_left s t e)))
        go (ok done t) e ih = rw (e, more_rows) tt
        go (ok locked t) e ih = rw (e, more_rows) tt
        go (raised x t) e ih = rw (e, more_rows) tt
        go aborted e ih = absurd (next_row_ne_aborted s e)

    first_row_ne_aborted : (s : S) → column_count q.stmt s ≡ 2 → first_row drv q s ≢ aborted
    unfolding first_row
    first_row_ne_aborted s n =
        let two : nat_beq (column_count q.stmt s) 2 ≡ true = ground arith in
        rw two (
          bind-ne-aborted (text_of drv (get_column drv q 0 s) s) _ (text_ne_aborted _ s) (λ a t e.
            bind-ne-aborted (int_of drv (get_column drv q 1 t) t) _ (int_ne_aborted _ t)
              (λ b u e' c. cc)))

    update_rows-Ends :
        (fuel : ℕ) (r : Result drv Unit)
        → most < suc fuel
        → r ≢ aborted
        → Ends (update_rows drv fuel q r)
    unfolding update_rows
    update_rows-Ends fuel (ok u s) h a = more_rows-Ends fuel 1 s (omega (arith, bounded s))
    update_rows-Ends fuel (raised e s) h a = tt
    update_rows-Ends fuel aborted h a = absurd (a refl)

    after_update-Ends :
        (fuel : ℕ) (r : Result drv Status)
        → most < suc fuel
        → ((t : S) → column_count q.stmt t ≡ 2)
        → r ≢ aborted
        → ((t : S) → r ≢ ok locked t)
        → Ends (after_update drv fuel q r)
    unfolding after_update
    after_update-Ends fuel (ok row s) h two a l =
        update_rows-Ends fuel (first_row drv q s) h (first_row_ne_aborted s (two s))
    after_update-Ends fuel (ok done s) h two a l = tt
    after_update-Ends fuel (ok locked s) h two a l = absurd (l s refl)
    after_update-Ends fuel (raised e s) h two a l = tt
    after_update-Ends fuel aborted h two a l = absurd (a refl)

    bind-ne-locked :
        {A : Type 0} (m : Result drv A) (f : A → M drv Status)
        → ((a : A) (s t : S) → f a s ≢ ok locked t)
        → (t : S)
        → elim m [ ok a s' ↦ f a s' | raised e s' ↦ raised e s' | aborted ↦ aborted ] ≢ ok locked t
    bind-ne-locked (ok a s) f h t = h a s t
    bind-ne-locked (raised e s) f h t = λ c. cc
    bind-ne-locked aborted f h t = λ c. cc

    -- For a query of two columns that delivers fewer than `most` rows from any state, `handle_update`
    -- ends within `most` rounds of its loop, by its end or an exception: it fails no assertion.
    pub handle_update-Ends :
        (fuel hash : ℕ) (s : S)
        → most ≤ fuel
        → ((t : S) → column_count q.stmt t ≡ 2)
        → Ends (handle_update drv fuel q hash s)
    unfolding handle_update
    handle_update-Ends fuel hash s h two =
        after_update-Ends fuel (started_update drv q hash s) (omega arith) two
          (bind-ne-aborted (start drv q false s) _ (start-ne-aborted false s) (λ _ t _.
            bind-ne-aborted (bind drv q 0 (int64 (pos hash)) t) _
              (bind_ne_aborted 0 (int64 (pos hash)) t) (λ _ t' _. next_row_ne_aborted t')))
          (bind-ne-locked (start drv q false s) _ (λ _ t u.
            bind-ne-locked (bind drv q 0 (int64 (pos hash)) t) _ (λ _ t' u'. never_locked t' u') u))
