-- ===== src/Log/Stamp/Padded.antt =====
-- The microseconds of a time stamp have six digits.
use acppsrv.Prelude.{
  ℕ, zero, suc, ◌+◌, ◌-◌, ◌/◌, ◌%◌, ◌≤◌, ◌<◌, ◌≡◌, refl, sym, ap, ◌∙◌, append_assoc, List, [], ◌∷◌,
  ◌++◌, length, replicate, length-append, arith, ltb, lt→ltb, Bool, true, false,
}
use acppsrv.Prelude.{copy_to, copy_to-append, copy_to_over, length-replicate, replicate-add}
use acppsrv.Log.Stamp.{decimal, to_string, stamp}

-- The last `k` decimal digits of a number.
unfoldable pub digits : ℕ → ℕ → List ℕ
digits zero n = []
digits (suc k) n = digits k (n / 10) ++ (48 + n % 10) ∷ []

-- The number has `k` digits, without leading zeros.
abbrev HasDigits : ℕ → ℕ → Type 0
HasDigits zero n = ⊥
HasDigits (suc zero) n = n < 10
HasDigits (suc (suc k)) n = (10 ≤ n) × HasDigits (suc k) (n / 10)

decimal-digits : (k fuel n : ℕ) → HasDigits k n → k ≤ fuel → decimal fuel n ≡ digits k n
unfolding decimal digits
decimal-digits zero fuel n d h = absurd d
decimal-digits (suc k) zero n d h = absurd (omega arith)
decimal-digits (suc zero) (suc fuel) n d h =
    rw (lt→ltb n 10 d) (ap (λ x. (48 + x) ∷ []) (omega arith))
decimal-digits (suc (suc k)) (suc fuel) n (d, e) h =
    let more : ltb n 10 ≡ false = ground arith in
    rw more
      (ap (λ t. t ++ (48 + n % 10) ∷ []) (decimal-digits (suc k) fuel (n / 10) e (omega arith)))

digit_count :
    (n : ℕ)
    → n < 1_000_000
    → (k : ℕ) × (1 ≤ k)
      × (k ≤ 6)
      × HasDigits k n
      × (digits 6 n ≡ replicate (6 - k) 48 ++ digits k n)
unfolding digits
digit_count n h =
    go (ltb n 10) (ltb n 100) (ltb n 1_000) (ltb n 10_000) (ltb n 100_000) refl refl refl refl refl
  where
    go :
        (a b c d e : Bool)
        → ltb n 10 ≡ a
        → ltb n 100 ≡ b
        → ltb n 1_000 ≡ c
        → ltb n 10_000 ≡ d
        → ltb n 100_000 ≡ e
        → (k : ℕ) × (1 ≤ k)
          × (k ≤ 6)
          × HasDigits k n
          × (digits 6 n ≡ replicate (6 - k) 48 ++ digits k n)
    go true b c d e p q r s t = (1, omega arith, omega arith, ground arith, ground arith)
    go false true c d e p q r s t = (2, omega arith, omega arith, ground arith, ground arith)
    go false false true d e p q r s t = (3, omega arith, omega arith, ground arith, ground arith)
    go false false false true e p q r s t =
        (4, omega arith, omega arith, ground arith, ground arith)
    go false false false false true p q r s t =
        (5, omega arith, omega arith, ground arith, ground arith)
    go false false false false false p q r s t = (6, omega arith, omega arith, ground arith, refl)

length-digits : (k n : ℕ) → length (digits k n) ≡ k
unfolding digits
length-digits zero n = refl
length-digits (suc k) n =
    omega (arith, length-append (digits k (n / 10)) ((48 + n % 10) ∷ []), length-digits k (n / 10))

-- A copy over the end of the zeros, whose number is that of the characters at least.
copy_to-replicate :
    (usec zone : List ℕ) (m : ℕ)
    → copy_to m usec (replicate (m + length usec) 48 ++ zone) ≡ replicate m 48 ++ (usec ++ zone)
copy_to-replicate usec zone m =
    let k = length usec in
    let split : replicate (m + k) 48 ++ zone ≡ replicate m 48 ++ (replicate k 48 ++ zone) =
      ap (λ t. t ++ zone) (replicate-add m k 48)
      ∙ append_assoc (replicate m 48) (replicate k 48) zone in
    let pos : m ≡ length (replicate m 48) + 0 = omega (arith, length-replicate {A = ℕ} m 48) in
    ap (λ b. copy_to m usec b) split
    ∙ ap (λ p. copy_to p usec (replicate m 48 ++ (replicate k 48 ++ zone))) pos
    ∙ copy_to-append (replicate m 48) usec (replicate k 48 ++ zone) 0
    ∙ ap (λ t. replicate m 48 ++ t)
        (copy_to_over usec (replicate k 48) zone (sym (length-replicate k 48)))

-- Where `strftime` has printed a date of 20 characters, six zeros and the zone, the time stamp is that
-- date, then the last six decimal digits of the microseconds, with leading zeros, and then the zone.
pub stamp-digits :
    (date zone : List ℕ) (now : ℕ)
    → length date ≡ 20
    → stamp (date ++ (replicate 6 48 ++ zone)) now ≡ date ++ (digits 6 (now % 1_000_000) ++ zone)
unfolding stamp to_string
stamp-digits date zone now hd =
    let n = now % 1_000_000 in
    let (k, lo, hi, shape, value) = digit_count n (ground arith) in
    let text : decimal 20 n ≡ digits k n = decimal-digits k 20 n shape (omega arith) in
    let size : length (digits k n) ≡ k = length-digits k n in
    let pos : 26 - length (digits k n) ≡ length date + (6 - k) = omega arith in
    let zeros : 6 ≡ (6 - k) + length (digits k n) = omega arith in
    rw text (
      ap (λ p. copy_to p (digits k n) (date ++ (replicate 6 48 ++ zone))) pos
      ∙ copy_to-append date (digits k n) (replicate 6 48 ++ zone) (6 - k)
      ∙ ap (λ t. date ++ t)
          (ap (λ z. copy_to (6 - k) (digits k n) (replicate z 48 ++ zone)) zeros
            ∙ copy_to-replicate (digits k n) zone (6 - k)
            ∙ sym (append_assoc (replicate (6 - k) 48) (digits k n) zone)
            ∙ ap (λ t. t ++ zone) (sym value)))
