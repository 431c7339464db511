-- ===== src/Bench/Args/Iterator.antt =====
-- The arguments of the command `requests` of benchmark/benchmark.cpp, read by its iterator: `it` starts
-- at the end of the arguments, and its first step leads to their beginning. An iterator is a position,
-- the number of the arguments is that of the end.
pub mod Agrees
use acppsrv.Prelude.{ℕ, ◌+◌, String, List, length, get_or, nat_beq, if◌then◌else◌}
use acppsrv.Bench.Args.{
  Chars, Parsed, accepted, usage, aborts, at_least, in_range, partitions_min, partitions_max,
  value_sz_min, default_threads,
}
use acppsrv.Bench.Args.Requests.{RequestsArgs, fraction, sum_of_fractions}

-- Code that moves the iterator.
abbrev pub Walker : Type 0 → Type 0
Walker A = ℕ → Parsed (A × ℕ)

infixl 5 ◌>>=◌ ◌>>◌
abbrev pub ◌>>=◌ : {A B : Type 0} → Walker A → (A → Walker B) → Walker B
◌>>=◌ m f it = elim (m it) [ accepted (a, it') ↦ f a it' | usage ↦ usage | aborts ↦ aborts ]

abbrev pub ◌>>◌ : {A B : Type 0} → Walker A → Walker B → Walker B
m >> n = m >>= λ _. n

abbrev pub pure : {A : Type 0} → A → Walker A
pure a it = accepted (a, it)

abbrev pub check : {A : Type 0} → Parsed A → Walker A
check (accepted a) it = accepted (a, it)
check usage it = usage
check aborts it = aborts

module _ (args : List String) where
  abbrev pub end : ℕ
  end = length args

  -- `it = args.begin()` from the end, `++it` from elsewhere
  abbrev pub moved : ℕ → ℕ
  moved it = if nat_beq it end then 0 else it + 1

  -- `args_count` ends in the usage.
  unfoldable pub next_arg : Walker String
  next_arg it =
      let it' = moved it in if nat_beq it' end then usage else accepted (get_or args it' "", it')

  abbrev pub checked : {A : Type 0} → (String → Parsed A) → Walker A
  checked f = next_arg >>= λ a. check (f a)

  unfoldable pub threads_arg : (String → Parsed ℕ) → Parsed ℕ → Walker ℕ
  threads_arg f default it =
      let it' = it + 1 in
      if nat_beq it' end then check default it' else check (f (get_or args it' "")) (it' + 1)

  unfoldable pub no_more : Walker Unit
  no_more it = if nat_beq it end then accepted (tt, it) else usage

  module _ (chars : Chars) (hardware : ℕ) where
    open chars use {real, unsigned, ulong}

    unfoldable pub walk_args : Walker (RequestsArgs chars hardware)
    walk_args = do
      path ← next_arg
      keys ← next_arg
      partitions ← checked (λ p. in_range partitions_min partitions_max (unsigned p))
      time ← checked (λ t. at_least 1 (unsigned t))
      inserts ← checked (λ i. fraction chars hardware (real i))
      updates ← checked (λ u. fraction chars hardware (real u))
      check (sum_of_fractions chars hardware inserts updates)
      value_sz ← checked (λ v. at_least value_sz_min (ulong v))
      cache_kib ← checked (λ c. at_least 0 (unsigned c))
      threads ← threads_arg (λ t. at_least 1 (unsigned t)) (default_threads hardware)
      no_more
      pure (record {
        path = path;
        keys = keys;
        partitions = partitions;
        time = time;
        inserts = inserts;
        updates = updates;
        value_sz = value_sz;
        cache_kib = cache_kib;
        threads = threads;
      })

    abbrev pub without_it :
        Parsed (RequestsArgs chars hardware × ℕ) → Parsed (RequestsArgs chars hardware)
    without_it (accepted (a, it)) = accepted a
    without_it usage = usage
    without_it aborts = aborts

    unfoldable pub walk : Parsed (RequestsArgs chars hardware)
    walk = without_it (walk_args end)
