-- ===== src/Bench/Args/Requests.antt =====
-- The arguments of the command `requests` of benchmark/benchmark.cpp, read one by one.
use acppsrv.Prelude.{ℕ, String, ◌||◌, Option, none, some, List, [], ◌∷◌, if◌then◌else◌}
use acppsrv.Bench.Args.{
  Chars, Parsed, accepted, usage, aborts, at_least, in_range, partitions_min, partitions_max,
  value_sz_min, default_threads,
}

-- Reading from the arguments that are left.
abbrev pub Reader : Type 0 → Type 0
Reader A = List String → Parsed (A × List String)

infixl 5 ◌>>=◌ ◌>>◌
abbrev pub ◌>>=◌ : {A B : Type 0} → Reader A → (A → Reader B) → Reader B
◌>>=◌ m f args = elim (m args) [ accepted (a, rest) ↦ f a rest | usage ↦ usage | aborts ↦ aborts ]

abbrev pub ◌>>◌ : {A B : Type 0} → Reader A → Reader B → Reader B
m >> n = m >>= λ _. n

abbrev pub pure : {A : Type 0} → A → Reader A
pure a args = accepted (a, args)

-- A check of what was read.
abbrev pub check : {A : Type 0} → Parsed A → Reader A
check (accepted a) args = accepted (a, args)
check usage args = usage
check aborts args = aborts

-- Without an argument it throws `args_count`, which ends in the usage.
abbrev pub next_arg : Reader String
next_arg [] = usage
next_arg (a ∷ rest) = accepted (a, rest)

-- The next argument, checked.
abbrev pub checked : {A : Type 0} → (String → Parsed A) → Reader A
checked f = next_arg >>= λ a. check (f a)

-- `if (it != args.end()) throw args_count{}`
abbrev pub no_more : Reader Unit
no_more [] = accepted (tt, [])
no_more (a ∷ rest) = usage

module _ (chars : Chars) (hardware : ℕ) where
  open chars use {Real, lt, add, zero, one, real, unsigned, ulong}

  -- `requests_args`; the time is in seconds.
  pub record RequestsArgs : Type 0 where
    pub path : String
    pub keys : String
    pub partitions : ℕ
    pub time : ℕ
    pub inserts : Real
    pub updates : Real
    pub value_sz : ℕ
    pub cache_kib : ℕ
    pub threads : ℕ

  -- A fraction is refused if it is below 0 or above 1.
  abbrev pub fraction : Option Real → Parsed Real
  fraction none = usage
  fraction (some x) = if lt x zero || lt one x then usage else accepted x

  abbrev pub sum_of_fractions : Real → Real → Parsed Unit
  sum_of_fractions inserts updates = if lt one (add inserts updates) then usage else accepted tt

  -- The optional last argument.
  abbrev pub threads_arg : Reader ℕ
  threads_arg [] = check (default_threads hardware) []
  threads_arg (t ∷ rest) = check (at_least 1 (unsigned t)) rest

  unfoldable pub read_args : Reader RequestsArgs
  read_args = do
    path ← next_arg
    keys ← next_arg
    partitions ← checked (λ p. in_range partitions_min partitions_max (unsigned p))
    time ← checked (λ t. at_least 1 (unsigned t))
    inserts ← checked (λ i. fraction (real i))
    updates ← checked (λ u. fraction (real u))
    check (sum_of_fractions inserts updates)
    value_sz ← checked (λ v. at_least value_sz_min (ulong v))
    cache_kib ← checked (λ c. at_least 0 (unsigned c))
    threads ← threads_arg
    no_more
    pure (record {
      path = path;
      keys = keys;
      partitions = partitions;
      time = time;
      inserts = inserts;
      updates = updates;
      value_sz = value_sz;
      cache_kib = cache_kib;
      threads = threads;
    })

  abbrev pub without_rest : {A : Type 0} → Parsed (A × List String) → Parsed A
  without_rest (accepted (a, rest)) = accepted a
  without_rest usage = usage
  without_rest aborts = aborts

  -- The arguments of `requests`.
  unfoldable pub requests_args : List String → Parsed RequestsArgs
  unfolding read_args
  requests_args args = without_rest (read_args args)
