-- ===== src/Http/Accept/Failure.antt =====
-- What becomes of the server when an exception ends the accept loop.
use acppsrv.Prelude.{ℕ, ◌+◌, ◌%◌, ◌≡◌, refl, ap, ◌∙◌, sym, true, List, [], ◌∷◌, arith}
use acppsrv.Http.Accept.{
  Accept, failed, size_mod, endpoint_throws, accept, is_open, remove, active_connection_end, Step,
  check, store, wake, new, close, Reach, here, later,
}

remove-is_open :
    (sid i : ℕ) (cs : List (ℕ × ℕ)) → is_open i (remove sid cs) ≡ true → is_open i cs ≡ true
unfolding is_open remove
remove-is_open sid i [] h = h
remove-is_open sid i ((j, w) ∷ cs) h = ground (arith, remove-is_open sid i cs)

-- What a failed state keeps.
record IsKept (s t : Accept) : Type 0 where
  over : t.pc ≡ failed
  session : t.session ≡ s.session
  no_more : (sid : ℕ) → is_open sid t.conns ≡ true → is_open sid s.conns ≡ true

close-IsKept : {s t : Accept} (sid : ℕ) → IsKept s t → IsKept s (active_connection_end sid t)
unfolding active_connection_end
close-IsKept {s} {t} sid kept =
    let ends : (active_connection_end sid t).conns ≡ remove sid t.conns = ground arith in
    let pc : (active_connection_end sid t).pc ≡ t.pc = ground arith in
    let session : (active_connection_end sid t).session ≡ t.session = ground arith in
    record {
      over = pc ∙ kept.over;
      session = session ∙ kept.session;
      no_more = λ i h.
          kept.no_more i (remove-is_open sid i t.conns (sym (ap (λ cs. is_open i cs) ends) ∙ h));
    }

Step-IsKept : {s t u : Accept} → Step t u → IsKept s t → IsKept s u
Step-IsKept (check e l) kept = absurd (let f = kept.over in cc)
Step-IsKept (store e) kept = absurd (let f = kept.over in cc)
Step-IsKept (wake e h) kept = absurd (let f = kept.over in cc)
Step-IsKept (new e r) kept = absurd (let f = kept.over in cc)
Step-IsKept {s} {t} (close sid h l) kept = close-IsKept {s = s} {t = t} sid kept

Reach-IsKept : {s t : Accept} → Reach s t → s.pc ≡ failed → IsKept s t
Reach-IsKept {s} here e = record { over = e; session = refl; no_more = λ sid h. h }
Reach-IsKept {s} (later {t = t} {u = u} r st) e =
    Step-IsKept {s = s} {t = t} {u = u} st (Reach-IsKept {s = s} {t = t} r e)

-- If the client of a new connection is gone when the message about it asks for its address again,
-- the exception ends the accept loop for good: whatever happens later, the loop does not go on, no
-- further session is given out, and no connection opens.
pub endpoint_throws-failed :
    (s : Accept) {t : Accept}
    → Reach (accept endpoint_throws s) t
    → (t.pc ≡ failed)
      × (t.session ≡ (s.session + 1) % size_mod)
      × ((sid : ℕ) → is_open sid t.conns ≡ true → is_open sid s.conns ≡ true)
unfolding accept
endpoint_throws-failed s {t} r =
    let kept = Reach-IsKept {s = accept endpoint_throws s} {t = t} r refl in
    (kept.over, kept.session, kept.no_more)
