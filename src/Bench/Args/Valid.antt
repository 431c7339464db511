-- ===== src/Bench/Args/Valid.antt =====
-- What the accepted arguments of the benchmark's commands satisfy.
use acppsrv.Prelude.{
  ℕ, suc, ◌^◌, ◌<◌, ◌≤◌, ◌≡◌, refl, ap, subst, ◌⊎◌, inl, inr, String, Bool, true, false, ◌||◌,
  Option, none, some, List, [], ◌∷◌, length, ltb, arith, if◌then◌else◌,
}
use acppsrv.Bench.Args.{
  Chars, Parsed, accepted, usage, ◌>>=◌, at_least, in_range, CreateArgs, create_args,
  default_threads,
}
use acppsrv.Bench.Args.Requests.{
  Reader, check, next_arg, checked, no_more, pure, fraction, sum_of_fractions, RequestsArgs,
  read_args, requests_args, without_rest,
}
use acppsrv.Bench.Args.Requests
use acppsrv.Bench.Args.Accepted.{
  >>=-accepted, accepted-injective, at_least-accepted, in_range-accepted, default_threads-accepted,
  refused, read-accepted, next_arg-accepted, check-accepted, checked-accepted, no_more-accepted,
  without_rest-accepted, length_read,
}

module _ (chars : Chars) (hardware : ℕ) where
  open chars use {Real, lt, add, zero, one, real, unsigned, ulong, unsigned_lt, ulong_lt}

  -- What both commands check.
  pub record IsSized (partitions value_sz cache_kib threads : ℕ) : Type 0 where
    pub some_partitions : 1 ≤ partitions
    pub partitions_fit : partitions ≤ 256
    pub some_value : 1 ≤ value_sz
    pub value_fits : value_sz < 2 ^ 64
    pub cache_fits : cache_kib < 2 ^ 32
    pub some_threads : 0 < threads

  abbrev partitions_of : String → Parsed ℕ
  partitions_of p = in_range 1 256 (unsigned p)

  abbrev value_of : String → Parsed ℕ
  value_of v = at_least 1 (ulong v)

  abbrev cache_of : String → Parsed ℕ
  cache_of c = at_least 0 (unsigned c)

  sized :
      (p v c : String) {partitions value_sz cache_kib threads : ℕ}
      → partitions_of p ≡ accepted partitions
      → value_of v ≡ accepted value_sz
      → cache_of c ≡ accepted cache_kib
      → 0 < threads
      → IsSized partitions value_sz cache_kib threads
  sized p v c {value_sz = value_sz} {cache_kib = cache_kib} ep ev ec k =
      let (_, p1, p2) = in_range-accepted 1 256 (unsigned p) ep in
      let (v0, v1) = at_least-accepted 1 (ulong v) ev in
      let (c0, _) = at_least-accepted 0 (unsigned c) ec in
      record {
        some_partitions = p1;
        partitions_fit = p2;
        some_value = v1;
        value_fits = ulong_lt v value_sz v0;
        cache_fits = unsigned_lt c cache_kib c0;
        some_threads = k;
      }

  create_args-accepted :
      (path p r v c : String) (rest : List String) (threads : Parsed ℕ) (a : CreateArgs)
      → ((k : ℕ) → threads ≡ accepted k → 0 < k)
      → (do
        partitions ← in_range 1 256 (unsigned p)
        records ← at_least 1 (ulong r)
        value_sz ← at_least 1 (ulong v)
        cache_kib ← at_least 0 (unsigned c)
        k ← threads
        accepted (record {
          path = path;
          partitions = partitions;
          records = records;
          value_sz = value_sz;
          cache_kib = cache_kib;
          threads = k;
        }))
        ≡ accepted a
      → IsSized a.partitions a.value_sz a.cache_kib a.threads
        × (1 ≤ a.records)
        × (a.records < 2 ^ 64)
  create_args-accepted path p r v c rest threads a pos h =
      let (partitions, e1, h1) = >>=-accepted (in_range 1 256 (unsigned p)) _ h in
      let (records, e2, h2) = >>=-accepted (at_least 1 (ulong r)) _ h1 in
      let (value_sz, e3, h3) = >>=-accepted (at_least 1 (ulong v)) _ h2 in
      let (cache_kib, e4, h4) = >>=-accepted (at_least 0 (unsigned c)) _ h3 in
      let (k, e5, h5) = >>=-accepted threads _ h4 in
      let same = accepted-injective h5 in
      let (r0, r1) = at_least-accepted 1 (ulong r) e2 in
      subst
        (λ x.
          IsSized x.partitions x.value_sz x.cache_kib x.threads
          × (1 ≤ x.records)
          × (x.records < 2 ^ 64))
        same (sized p v c e1 e3 e4 (pos k e5), r1, ulong_lt r records r0)

  -- `create` goes on only with five or six arguments, from 1 to 256 partitions, and positive numbers of
  -- records, of bytes and of threads that fit into their types.
  pub create_args-IsSized :
      (args : List String) (a : CreateArgs)
      → create_args chars hardware args ≡ accepted a
      → IsSized a.partitions a.value_sz a.cache_kib a.threads
        × ((1 ≤ a.records) × (a.records < 2 ^ 64))
        × ((length args ≡ 5) ⊎ (length args ≡ 6))
  unfolding create_args
  create_args-IsSized [] a h = cc
  create_args-IsSized (_ ∷ []) a h = cc
  create_args-IsSized (_ ∷ _ ∷ []) a h = cc
  create_args-IsSized (_ ∷ _ ∷ _ ∷ []) a h = cc
  create_args-IsSized (_ ∷ _ ∷ _ ∷ _ ∷ []) a h = cc
  create_args-IsSized (path ∷ p ∷ r ∷ v ∷ c ∷ []) a h =
      let (s, r1, r2) =
        create_args-accepted path p r v c [] (default_threads hardware) a
          (λ k e. default_threads-accepted hardware e) h in
      (s, (r1, r2), inl (omega arith))
  create_args-IsSized (path ∷ p ∷ r ∷ v ∷ c ∷ t ∷ []) a h =
      let (s, r1, r2) =
        create_args-accepted path p r v c [] (at_least 1 (unsigned t)) a
          (λ k e. (at_least-accepted 1 (unsigned t) e).1) h in
      (s, (r1, r2), inr (omega arith))
  create_args-IsSized (path ∷ p ∷ r ∷ v ∷ c ∷ t ∷ t' ∷ rest) a h =
      absurd (refused (ltb 1 (length (t ∷ t' ∷ rest))) _ (ground arith) h)

  -- A fraction that no comparison refuses.
  abbrev pub IsFraction : Real → Type 0
  IsFraction x = (lt x zero ≡ false) × (lt one x ≡ false)

  fraction-accepted :
      (o : Option Real) {x : Real} → fraction chars hardware o ≡ accepted x → IsFraction x
  fraction-accepted none h = cc
  fraction-accepted (some y) {x} h = go (lt y zero) (lt one y) refl refl h
    where
      go :
          (l m : Bool)
          → lt y zero ≡ l
          → lt one y ≡ m
          → (if l || m then usage else accepted y) ≡ accepted x
          → (lt x zero ≡ false) × (lt one x ≡ false)
      go true m e e' q = cc
      go false true e e' q = cc
      go false false e e' q =
          subst (λ z. (lt z zero ≡ false) × (lt one z ≡ false)) (accepted-injective q) (e, e')

  sum-accepted :
      (x y : Real) {u : Unit}
      → sum_of_fractions chars hardware x y ≡ accepted u
      → lt one (add x y) ≡ false
  sum-accepted x y {u} h = go (lt one (add x y)) h
    where
      go : (l : Bool) → (if l then usage else accepted tt) ≡ accepted u → l ≡ false
      go true q = cc
      go false q = refl

  threads_arg-accepted :
      (args : List String) {k : ℕ} {rest : List String}
      → Requests.threads_arg chars hardware args ≡ accepted (k, rest)
      → (0 < k) × ((length args ≡ length rest) ⊎ (length args ≡ suc (length rest)))
  threads_arg-accepted [] h =
      let (e, l) = check-accepted (default_threads hardware) [] h in
      (default_threads-accepted hardware e, inl l)
  threads_arg-accepted (t ∷ args) h =
      let (e, l) = check-accepted (at_least 1 (unsigned t)) args h in
      ((at_least-accepted 1 (unsigned t) e).1, inr (ap suc l))

  abbrev pub Accepted : List String → RequestsArgs chars hardware → Type 0
  Accepted args a =
      IsSized a.partitions a.value_sz a.cache_kib a.threads
      × (1 ≤ a.time)
      × (IsFraction a.inserts × IsFraction a.updates × (lt one (add a.inserts a.updates) ≡ false))
      × ((length args ≡ 8) ⊎ (length args ≡ 9))

  abbrev time_of : String → Parsed ℕ
  time_of t = at_least 1 (unsigned t)

  abbrev fraction_of : String → Parsed Real
  fraction_of f = fraction chars hardware (real f)

  -- `requests` goes on only with eight or nine arguments: sizes as for `create`, a positive time, and
  -- fractions that no comparison puts below 0 or, one by one or in their sum, above 1.
  pub requests_args-IsSized :
      (args : List String) (a : RequestsArgs chars hardware)
      → requests_args chars hardware args ≡ accepted a
      → Accepted args a
  unfolding requests_args read_args
  requests_args-IsSized args a h =
      let (end, h0) = without_rest-accepted (read_args chars hardware args) h in
      read-accepted (next_arg args) _ h0 λ path s1 e1 h1.
        read-accepted (next_arg s1) _ h1 λ keys s2 e2 h2.
          read-accepted (checked partitions_of s2) _ h2 λ partitions s3 e3 h3.
            read-accepted (checked time_of s3) _ h3 λ time s4 e4 h4.
              read-accepted (checked fraction_of s4) _ h4 λ inserts s5 e5 h5.
                read-accepted (checked fraction_of s5) _ h5 λ updates s6 e6 h6.
                  read-accepted (check (sum_of_fractions chars hardware inserts updates) s6) _ h6
                    λ u s7 e7 h7. read-accepted (checked value_of s7) _ h7 λ value_sz s8 e8 h8.
                      read-accepted (checked cache_of s8) _ h8 λ cache_kib s9 e9 h9.
                        read-accepted (Requests.threads_arg chars hardware s9) _ h9
                          λ threads s10 e10 h10. read-accepted (no_more s10) _ h10 λ u' s11 e11 h11.
                            let (p, ep, l3) = checked-accepted partitions_of s2 e3 in
                            let (t, et, l4) = checked-accepted time_of s3 e4 in
                            let (i, ei, l5) = checked-accepted fraction_of s4 e5 in
                            let (w, ew, l6) = checked-accepted fraction_of s5 e6 in
                            let (sum, l7) =
                              check-accepted (sum_of_fractions chars hardware inserts updates) s6
                                e7 in
                            let (v, ev, l8) = checked-accepted value_of s7 e8 in
                            let (c, ec, l9) = checked-accepted cache_of s8 e9 in
                            let (k1, k2) = threads_arg-accepted s9 e10 in
                            let read =
                              length_read args s1 s2 s3 s4 s5 s6 s7 s8 s9 s10
                                (next_arg-accepted args e1) (next_arg-accepted s1 e2) l3 l4 l5 l6 l7
                                l8 l9 k2 (no_more-accepted s10 e11) in
                            subst (Accepted args) (ap (λ q. q.0) (accepted-injective h11)) (
                              sized p v c ep ev ec k1,
                              (at_least-accepted 1 (unsigned t) et).1,
                              (
                                fraction-accepted (real i) ei,
                                fraction-accepted (real w) ew,
                                sum-accepted inserts updates sum,
                              ),
                              read,
                            )
