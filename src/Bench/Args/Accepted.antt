-- ===== src/Bench/Args/Accepted.antt =====
-- What follows when the steps that read the benchmark's arguments accept them.
use acppsrv.Prelude.{
  ℕ, suc, ◌<◌, ◌≤◌, ◌≡◌, refl, ap, ◌∙◌, ◌⊎◌, inl, inr, String, Bool, true, false, Option, none,
  some, List, [], ◌∷◌, length, arith, if◌then◌else◌,
}
use acppsrv.Bench.Args.{Parsed, accepted, usage, aborts, ◌>>=◌, at_least, in_range, default_threads}
use acppsrv.Bench.Args.Requests.{Reader, check, next_arg, checked, no_more}

pub >>=-accepted :
    {A B : Type 0} (m : Parsed A) (f : A → Parsed B) {b : B}
    → (m >>= f) ≡ accepted b
    → (a : A) × (m ≡ accepted a) × (f a ≡ accepted b)
>>=-accepted (accepted a) f h = (a, refl, h)
>>=-accepted usage f h = cc
>>=-accepted aborts f h = cc

pub accepted-injective : {A : Type 0} {a b : A} → accepted a ≡ accepted b → a ≡ b
accepted-injective h = cc

pub at_least-accepted :
    (lo : ℕ) (o : Option ℕ) {n : ℕ} → at_least lo o ≡ accepted n → (o ≡ some n) × (lo ≤ n)
at_least-accepted lo none h = cc
at_least-accepted lo (some k) h = ground arith

pub in_range-accepted :
    (lo hi : ℕ) (o : Option ℕ) {n : ℕ}
    → in_range lo hi o ≡ accepted n
    → (o ≡ some n) × (lo ≤ n) × (n ≤ hi)
in_range-accepted lo hi none h = cc
in_range-accepted lo hi (some k) h = ground arith

pub default_threads-accepted :
    (hardware : ℕ) {n : ℕ} → default_threads hardware ≡ accepted n → 0 < n
default_threads-accepted hardware h = ground arith

pub refused :
    {A : Type 0} (b : Bool) (m : Parsed A) {a : A}
    → b ≡ true
    → (if b then usage else m) ≡ accepted a
    → ⊥
refused true m e h = cc
refused false m e h = cc

-- To use what a bind of the reader that is accepted has gone through.
pub read-accepted :
    {A B P : Type 0} (m : Parsed (A × List String)) (f : A → Reader B) {b : B × List String}
    → elim m [ accepted (a, rest) ↦ f a rest | usage ↦ usage | aborts ↦ aborts ] ≡ accepted b
    → ((a : A) (rest : List String) → m ≡ accepted (a, rest) → f a rest ≡ accepted b → P)
    → P
read-accepted (accepted (a, rest)) f h k = k a rest refl h
read-accepted usage f h k = cc
read-accepted aborts f h k = cc

pub next_arg-accepted :
    (args : List String) {a : String} {rest : List String}
    → next_arg args ≡ accepted (a, rest)
    → length args ≡ suc (length rest)
next_arg-accepted [] h = cc
next_arg-accepted (x ∷ args) h = ap (λ q. suc (length q.1)) (accepted-injective h)

pub check-accepted :
    {A : Type 0} (p : Parsed A) (args : List String) {a : A} {rest : List String}
    → check p args ≡ accepted (a, rest)
    → (p ≡ accepted a) × (length args ≡ length rest)
check-accepted (accepted b) args h =
    (ap (λ q. accepted q.0) (accepted-injective h), ap (λ q. length q.1) (accepted-injective h))
check-accepted usage args h = cc
check-accepted aborts args h = cc

pub checked-accepted :
    {A : Type 0} (f : String → Parsed A) (args : List String) {a : A} {rest : List String}
    → checked f args ≡ accepted (a, rest)
    → (s : String) × (f s ≡ accepted a) × (length args ≡ suc (length rest))
checked-accepted f args h = read-accepted (next_arg args) _ h λ s s1 e1 h1.
    let (e, l) = check-accepted (f s) s1 h1 in (s, e, next_arg-accepted args e1 ∙ ap suc l)

pub no_more-accepted :
    (args : List String) {u : Unit} {rest : List String}
    → no_more args ≡ accepted (u, rest)
    → length args ≡ 0
no_more-accepted [] h = refl
no_more-accepted (x ∷ args) h = cc

pub without_rest-accepted :
    {A : Type 0} (r : Parsed (A × List String)) {a : A}
    → elim r [ accepted (a', rest) ↦ accepted a' | usage ↦ usage | aborts ↦ aborts ] ≡ accepted a
    → (rest : List String) × (r ≡ accepted (a, rest))
without_rest-accepted (accepted (b, rest)) h =
    (rest, ap (λ x. accepted (x, rest)) (accepted-injective h))
without_rest-accepted usage h = cc
without_rest-accepted aborts h = cc

pub length_read :
    (s0 s1 s2 s3 s4 s5 s6 s7 s8 s9 s10 : List String)
    → length s0 ≡ suc (length s1)
    → length s1 ≡ suc (length s2)
    → length s2 ≡ suc (length s3)
    → length s3 ≡ suc (length s4)
    → length s4 ≡ suc (length s5)
    → length s5 ≡ suc (length s6)
    → length s6 ≡ length s7
    → length s7 ≡ suc (length s8)
    → length s8 ≡ suc (length s9)
    → (length s9 ≡ length s10) ⊎ (length s9 ≡ suc (length s10))
    → length s10 ≡ 0
    → (length s0 ≡ 8) ⊎ (length s0 ≡ 9)
length_read s0 s1 s2 s3 s4 s5 s6 s7 s8 s9 s10 a b c d e f g h i (inl j) k = inl (omega arith)
length_read s0 s1 s2 s3 s4 s5 s6 s7 s8 s9 s10 a b c d e f g h i (inr j) k = inr (omega arith)
