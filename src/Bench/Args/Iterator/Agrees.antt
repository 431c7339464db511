-- ===== src/Bench/Args/Iterator/Agrees.antt =====
-- The iterator of `requests` reads the arguments one by one from the front.
use acppsrv.Prelude.{
  ℕ, zero, suc, ◌+◌, ◌≤◌, ◌<◌, ◌≡◌, refl, sym, ap, subst, ◌⊎◌, inl, inr, String, true, false, List,
  [], ◌∷◌, length, drop, get_or, arith, nat_beq, if◌then◌else◌,
}
use acppsrv.Bench.Args.{
  Chars, Parsed, accepted, usage, aborts, at_least, in_range, default_threads, value_sz_min,
  partitions_min, partitions_max,
}
use acppsrv.Bench.Args.Requests.{
  RequestsArgs, Reader, read_args, requests_args, without_rest, fraction, sum_of_fractions,
}
use acppsrv.Bench.Args.Requests
use acppsrv.Bench.Args.Iterator.{
  end, check, next_arg, checked, threads_arg, no_more, walk_args, without_it, walk,
}

-- What is left agrees with where the iterator is.
abbrev Rel : Type 1
Rel = List String → ℕ → Type 0

abbrev Agree : {A : Type 0} → Rel → Parsed (A × List String) → Parsed (A × ℕ) → Type 0
Agree R (accepted (a, rest)) (accepted (b, it)) = (a ≡ b) × R rest it
Agree R usage usage = Unit
Agree R aborts aborts = Unit
Agree R _ _ = ⊥

Agree-bind :
    {A B : Type 0} (R R' : Rel) (m : Parsed (A × List String)) (w : Parsed (A × ℕ))
    (f : A → List String → Parsed (B × List String)) (g : A → ℕ → Parsed (B × ℕ))
    → Agree R m w
    → ((a : A) (rest : List String) (it : ℕ) → R rest it → Agree R' (f a rest) (g a it))
    → Agree R'
        (elim m [ accepted (a, rest) ↦ f a rest | usage ↦ usage | aborts ↦ aborts ])
        (elim w [ accepted (a, it) ↦ g a it | usage ↦ usage | aborts ↦ aborts ])
Agree-bind R R' (accepted (a, rest)) (accepted (b, it)) f g (e, r) h =
    subst (λ x. Agree R' (f a rest) (g x it)) e (h a rest it r)
Agree-bind R R' usage usage f g p h = tt
Agree-bind R R' aborts aborts f g p h = tt
Agree-bind R R' (accepted (a, rest)) usage f g p h = absurd p
Agree-bind R R' (accepted (a, rest)) aborts f g p h = absurd p
Agree-bind R R' usage (accepted (b, it)) f g p h = absurd p
Agree-bind R R' usage aborts f g p h = absurd p
Agree-bind R R' aborts (accepted (b, it)) f g p h = absurd p
Agree-bind R R' aborts usage f g p h = absurd p

Agree-check :
    {A : Type 0} (R : Rel) (p : Parsed A) (rest : List String) (it : ℕ)
    → R rest it
    → Agree R (Requests.check p rest) (check p it)
Agree-check R (accepted a) rest it r = (refl, r)
Agree-check R usage rest it r = tt
Agree-check R aborts rest it r = tt

drop-get_or :
    (xs : List String) (i : ℕ) (d : String)
    → i < length xs
    → drop i xs ≡ get_or xs i d ∷ drop (i + 1) xs
drop-get_or [] i d h = absurd (omega arith)
drop-get_or (x ∷ xs) zero d h = refl
drop-get_or (x ∷ xs) (suc i) d h =
    let e : suc i + 1 ≡ suc (i + 1) = omega arith in rw e (drop-get_or xs i d (omega arith))

drop-length : (xs : List String) → drop (length xs) xs ≡ []
drop-length [] = refl
drop-length (x ∷ xs) = drop-length xs

module _ (args : List String) where
  -- On the last argument that was read.
  abbrev On : Rel
  On rest it = (it < end args) × (rest ≡ drop (it + 1) args)

  -- Also before the first one.
  abbrev Reading : Rel
  Reading rest it = ((it ≡ end args) × (rest ≡ args)) ⊎ On rest it

  -- Behind the last one that was read.
  abbrev Behind : Rel
  Behind rest it = (it ≤ end args) × (rest ≡ drop it args)

  not_end : (i : ℕ) → i < end args → nat_beq i (end args) ≡ false
  not_end i h = ground arith

  at_end : nat_beq (end args) (end args) ≡ true
  at_end = ground arith

  le_cases : (i : ℕ) → i ≤ end args → (i ≡ end args) ⊎ (i < end args)
  le_cases i h = ground arith

  moved-Agree :
      (i : ℕ)
      → i ≤ end args
      → Agree On
          (Requests.next_arg (drop i args))
          (if nat_beq i (end args) then usage else accepted (get_or args i "", i))
  moved-Agree i h = elim (le_cases i h) [
    | inl e ↦ rw e (rw at_end (rw (drop-length args) tt))
    | inr lt ↦ rw (not_end i lt) (rw (drop-get_or args i "" lt) (refl, (lt, refl)))
  ]

  next_arg-Agree :
      (rest : List String) (it : ℕ)
      → Reading rest it
      → Agree On (Requests.next_arg rest) (next_arg args it)
  unfolding next_arg
  next_arg-Agree rest it (inl (e, r)) = rw e (rw at_end (rw r (moved-Agree 0 (omega arith))))
  next_arg-Agree rest it (inr (h, r)) =
      rw (not_end it h) (rw r (moved-Agree (it + 1) (omega arith)))

  checked-Agree :
      {A : Type 0} (f : String → Parsed A) (rest : List String) (it : ℕ)
      → On rest it
      → Agree On (Requests.checked f rest) (checked args f it)
  checked-Agree f rest it h =
      Agree-bind On On (Requests.next_arg rest) (next_arg args it) _ _
        (next_arg-Agree rest it (inr h)) λ a rest' it' h'. Agree-check On (f a) rest' it' h'

  module _ (chars : Chars) (hardware : ℕ) where
    threads_arg-Agree :
        (rest : List String) (it : ℕ)
        → On rest it
        → Agree Behind
            (Requests.threads_arg chars hardware rest)
            (threads_arg args (λ t. at_least 1 (chars.unsigned t)) (default_threads hardware) it)
    unfolding threads_arg
    threads_arg-Agree rest it (h, r) = elim (le_cases (it + 1) (omega arith)) [
      | inl e ↦ rw r (
          rw e (
            rw at_end (
              rw (drop-length args) (
                Agree-check Behind (default_threads hardware) [] (end args)
                  (omega arith, sym (drop-length args))))))
      | inr lt ↦ rw r (
          rw (not_end (it + 1) lt) (
            rw (drop-get_or args (it + 1) "" lt) (
              Agree-check Behind (at_least 1 (chars.unsigned (get_or args (it + 1) "")))
                (drop (it + 1 + 1) args) (it + 1 + 1) (omega arith, refl))))
    ]

  no_more-Agree :
      (rest : List String) (it : ℕ)
      → Behind rest it
      → Agree Behind (Requests.no_more rest) (no_more args it)
  unfolding no_more
  no_more-Agree rest it (h, r) = elim (le_cases it h) [
    | inl e ↦
        rw r
          (rw e (rw at_end (rw (drop-length args) (refl, (omega arith, sym (drop-length args))))))
    | inr lt ↦ rw r (rw (not_end it lt) (rw (drop-get_or args it "" lt) tt))
  ]

  module _ (chars : Chars) (hardware : ℕ) where
    open chars use {real, unsigned, ulong}

    -- One argument, checked, and what comes behind it.
    then_checked :
        {A B : Type 0} (f : String → Parsed A) (rest : List String) (it : ℕ)
        (m : A → List String → Parsed (B × List String)) (w : A → ℕ → Parsed (B × ℕ))
        → On rest it
        → ((a : A) (rest' : List String) (it' : ℕ)
            → On rest' it'
            → Agree Behind (m a rest') (w a it'))
        → Agree Behind
            (elim (Requests.checked f rest) [
              | accepted (a, r) ↦ m a r
              | usage ↦ usage
              | aborts ↦ aborts
            ])
            (elim (checked args f it) [ accepted (a, i) ↦ w a i | usage ↦ usage | aborts ↦ aborts ])
    then_checked f rest it m w h =
        Agree-bind On Behind (Requests.checked f rest) (checked args f it) m w
          (checked-Agree f rest it h)

    read_args-Agree :
        Agree Behind (read_args chars hardware args) (walk_args args chars hardware (end args))
    unfolding read_args walk_args
    read_args-Agree =
        Agree-bind On Behind (Requests.next_arg args) (next_arg args (end args)) _ _
          (next_arg-Agree args (end args) (inl (refl, refl)))
          λ path r1 i1 h1.
            Agree-bind On Behind (Requests.next_arg r1) (next_arg args i1) _ _
              (next_arg-Agree r1 i1 (inr h1))
              λ keys r2 i2 h2.
                then_checked (λ p. in_range partitions_min partitions_max (unsigned p)) r2 i2 _ _ h2
                  λ partitions r3 i3 h3.
                    then_checked (λ t. at_least 1 (unsigned t)) r3 i3 _ _ h3
                      λ time r4 i4 h4.
                        then_checked (λ i. fraction chars hardware (real i)) r4 i4 _ _ h4
                          λ inserts r5 i5 h5.
                            then_checked (λ u. fraction chars hardware (real u)) r5 i5 _ _ h5
                              λ updates r6 i6 h6.
                                Agree-bind On Behind
                                  (Requests.check (sum_of_fractions chars hardware inserts updates)
                                    r6)
                                  (check (sum_of_fractions chars hardware inserts updates) i6) _ _
                                  (Agree-check On (sum_of_fractions chars hardware inserts updates)
                                    r6 i6 h6)
                                  λ _ r7 i7 h7.
                                    then_checked (λ v. at_least value_sz_min (ulong v)) r7 i7 _ _ h7
                                      λ value_sz r8 i8 h8.
                                        then_checked (λ c. at_least 0 (unsigned c)) r8 i8 _ _ h8
                                          λ cache_kib r9 i9 h9.
                                            Agree-bind Behind Behind
                                              (Requests.threads_arg chars hardware r9)
                                              (threads_arg args (λ t. at_least 1 (unsigned t))
                                                (default_threads hardware) i9)
                                              _ _ (threads_arg-Agree chars hardware r9 i9 h9)
                                              λ threads r10 i10 h10.
                                                Agree-bind Behind Behind (Requests.no_more r10)
                                                  (no_more args i10) _ _ (no_more-Agree r10 i10 h10)
                                                  λ _ r11 i11 h11. (refl, h11)

    without-Agree :
        (m : Parsed (RequestsArgs chars hardware × List String))
        (w : Parsed (RequestsArgs chars hardware × ℕ))
        → Agree Behind m w
        → without_it args chars hardware w ≡ without_rest chars hardware m
    without-Agree (accepted (a, rest)) (accepted (b, it)) (e, h) = ap accepted (sym e)
    without-Agree usage usage h = refl
    without-Agree aborts aborts h = refl
    without-Agree (accepted (a, rest)) usage h = absurd h
    without-Agree (accepted (a, rest)) aborts h = absurd h
    without-Agree usage (accepted (b, it)) h = absurd h
    without-Agree usage aborts h = absurd h
    without-Agree aborts (accepted (b, it)) h = absurd h
    without-Agree aborts usage h = absurd h

    -- Reading the arguments of `requests` by an iterator that starts at their end, and whose first step
    -- leads to their beginning, gives what taking the arguments one by one from the front gives, for every
    -- list of arguments: values, the usage, or a failed assertion.
    pub walk-requests_args : walk args chars hardware ≡ requests_args chars hardware args
    unfolding walk requests_args
    walk-requests_args =
        without-Agree (read_args chars hardware args) (walk_args args chars hardware (end args))
          read_args-Agree
