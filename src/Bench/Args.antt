-- ===== src/Bench/Args.antt =====
-- The command line of benchmark/benchmark.cpp: the arguments of the command `create`. The conversions
-- of `std::from_chars` and the `double` are an interface.
pub mod Requests
pub mod Iterator
pub mod Command
pub mod Accepted
pub mod Valid
pub mod Examples
use acppsrv.Prelude.{
  ℕ, ◌^◌, ◌<◌, ◌≡◌, String, Bool, true, false, ◌||◌, Option, none, some, List, [], ◌∷◌,
  if◌then◌else◌, ltb, length,
}

-- `none` is a conversion with an error; text behind the number is not one.
pub record Chars : Type 1 where
  pub Real : Type 0
  pub lt : Real → Real → Bool
  pub add : Real → Real → Real
  pub zero : Real
  pub one : Real
  pub real : String → Option Real
  pub unsigned : String → Option ℕ
  pub ulong : String → Option ℕ
  pub unsigned_lt : (s : String) (n : ℕ) → unsigned s ≡ some n → n < 2 ^ 32
  pub ulong_lt : (s : String) (n : ℕ) → ulong s ≡ some n → n < 2 ^ 64

-- What reading the arguments gives: a value, the usage message, or a failed assertion.
pub data Parsed (A : Type 0) : Type 0 where
  accepted : A → Parsed A
  usage : Parsed A
  aborts : Parsed A

infixl 5 ◌>>=◌ ◌>>◌
abbrev pub ◌>>=◌ : {A B : Type 0} → Parsed A → (A → Parsed B) → Parsed B
accepted a >>= f = f a
usage >>= f = usage
aborts >>= f = aborts

abbrev pub ◌>>◌ : {A B : Type 0} → Parsed A → Parsed B → Parsed B
m >> n = m >>= λ _. n

-- The value is converted, and is not below or above what is allowed.
abbrev pub at_least : ℕ → Option ℕ → Parsed ℕ
at_least lo none = usage
at_least lo (some n) = if ltb n lo then usage else accepted n

abbrev pub in_range : ℕ → ℕ → Option ℕ → Parsed ℕ
in_range lo hi none = usage
in_range lo hi (some n) = if ltb n lo || ltb hi n then usage else accepted n

abbrev pub partitions_min : ℕ
partitions_min = 1

abbrev pub partitions_max : ℕ
partitions_max = 256

abbrev pub value_sz_min : ℕ
value_sz_min = 1

pub record CreateArgs : Type 0 where
  pub path : String
  pub partitions : ℕ
  pub records : ℕ
  pub value_sz : ℕ
  pub cache_kib : ℕ
  pub threads : ℕ

-- `hardware_concurrency()`, with the assertion that it is known.
abbrev pub default_threads : ℕ → Parsed ℕ
default_threads hardware = if ltb 0 hardware then accepted hardware else aborts

module _ (chars : Chars) (hardware : ℕ) where
  open chars use {unsigned, ulong}

  threads_arg : List String → Parsed ℕ
  threads_arg [] = default_threads hardware
  threads_arg (t ∷ rest) = at_least 1 (unsigned t)

  -- The arguments of `create`.
  unfoldable pub create_args : List String → Parsed CreateArgs
  unfolding threads_arg
  create_args (path ∷ p ∷ r ∷ v ∷ c ∷ rest) = if ltb 1 (length rest) then usage else do
    partitions ← in_range partitions_min partitions_max (unsigned p)
    records ← at_least 1 (ulong r)
    value_sz ← at_least value_sz_min (ulong v)
    cache_kib ← at_least 0 (unsigned c)
    threads ← threads_arg rest
    accepted (record {
      path = path;
      partitions = partitions;
      records = records;
      value_sz = value_sz;
      cache_kib = cache_kib;
      threads = threads;
    })
  create_args _ = usage
