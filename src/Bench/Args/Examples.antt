-- ===== src/Bench/Args/Examples.antt =====
-- Command lines of benchmark/benchmark.cpp whose numbers are all 4; a fraction is in hundredths.
use acppsrv.Prelude.{
  ℕ, ◌+◌, ◌^◌, ◌<◌, ◌≤◌, ◌≡◌, refl, String, ◌==◌, Option, none, some, List, [], ◌∷◌, if◌then◌else◌,
  ltb, arith,
}
use acppsrv.Log.{info, debug, from_string, levels}
use acppsrv.Bench.Args.{Chars, accepted}
use acppsrv.Bench.Args.Requests.{RequestsArgs, requests_args}
use acppsrv.Bench.Args.Iterator.{walk, walk_args, next_arg, threads_arg, no_more}
use acppsrv.Bench.Args.Iterator.Agrees.{walk-requests_args}
use acppsrv.Bench.Args.Valid.{Accepted, requests_args-IsSized}
use acppsrv.Bench.Args.Command.{run, dispatch, help}

abbrev four : String → Option ℕ
four s = if s == "4" then some 4 else none

four-lt : (s : String) (n : ℕ) → four s ≡ some n → n < 5
four-lt s n h = ground arith

pub four_fits : (k : ℕ) → 5 ≤ k → (s : String) (n : ℕ) → four s ≡ some n → n < k
four_fits k b s n h = omega (arith, four-lt s n h)

abbrev pub fours : Chars
fours = record {
  Real = ℕ;
  lt = λ x y. ltb x y;
  add = λ x y. x + y;
  zero = 0;
  one = 100;
  real = four;
  unsigned = four;
  ulong = four;
  unsigned_lt = four_fits (2 ^ 32) (omega arith);
  ulong_lt = four_fits (2 ^ 64) (omega arith);
}

abbrev pub create_line : List String
create_line = "bench" ∷ "4" ∷ "4" ∷ "4" ∷ "4" ∷ []

abbrev requests_line : List String
requests_line = "bench" ∷ "keys" ∷ "4" ∷ "4" ∷ "4" ∷ "4" ∷ "4" ∷ "4" ∷ "4" ∷ []

abbrev requested : RequestsArgs fours 2
requested = record {
  path = "bench";
  keys = "keys";
  partitions = 4;
  time = 4;
  inserts = 4;
  updates = 4;
  value_sz = 4;
  cache_kib = 4;
  threads = 4;
}

requests_args-IsSized_example : Accepted fours 2 requests_line requested
unfolding requests_args
requests_args-IsSized_example = requests_args-IsSized fours 2 requests_line requested refl

walk-requests_args_example : walk requests_line fours 2 ≡ requests_args fours 2 requests_line
walk-requests_args_example = walk-requests_args requests_line fours 2

walk_run : walk requests_line fours 2 ≡ accepted requested
unfolding walk walk_args next_arg threads_arg no_more
walk_run = refl

run_help : run fours 2 info ("-l" ∷ "debug" ∷ "help" ∷ []) ≡ (accepted help, debug)
unfolding run dispatch from_string levels
run_help = refl
