-- ===== src/Prelude/Buffers.antt =====
-- Buffers of characters or bytes: a copy into one, and a change of its size.
use Prim.Native.Nat.{ℕ, zero, suc, ◌+◌}
use mathlib.Core.Path.{◌≡◌, refl, ap}
use mathlib.Core.List.{List, [], ◌∷◌, ◌++◌}
use native.Mathlib.Omega.{arith}
use acppsrv.Prelude.Lists.{length, replicate}

-- std::copy into a buffer, from a position on.
unfoldable pub copy_to : ℕ → List ℕ → List ℕ → List ℕ
copy_to pos [] buf = buf
copy_to pos (c ∷ cs) [] = []
copy_to zero (c ∷ cs) (b ∷ bs) = c ∷ copy_to zero cs bs
copy_to (suc pos) (c ∷ cs) (b ∷ bs) = b ∷ copy_to pos (c ∷ cs) bs

-- `resize` of a string, whose new characters are zeros.
unfoldable pub resize : ℕ → List ℕ → List ℕ
resize zero bs = []
resize (suc n) [] = 0 ∷ resize n []
resize (suc n) (b ∷ bs) = b ∷ resize n bs

-- A copy behind a prefix leaves the prefix alone.
pub copy_to-append :
    (pre cs buf : List ℕ) (pos : ℕ)
    → copy_to (length pre + pos) cs (pre ++ buf) ≡ pre ++ copy_to pos cs buf
unfolding copy_to
copy_to-append pre [] buf pos = refl
copy_to-append [] (c ∷ cs) buf pos = let e : 0 + pos ≡ pos = omega arith in rw e refl
copy_to-append (b ∷ pre) (c ∷ cs) buf pos =
    let e : suc (length pre) + pos ≡ suc (length pre + pos) = omega arith in
    rw e (ap (λ t. b ∷ t) (copy_to-append pre (c ∷ cs) buf pos))

-- A copy over as many characters.
pub copy_to_over :
    (cs old rest : List ℕ) → length cs ≡ length old → copy_to 0 cs (old ++ rest) ≡ cs ++ rest
unfolding copy_to
copy_to_over [] [] rest h = refl
copy_to_over [] (o ∷ old) rest h = absurd (omega arith)
copy_to_over (c ∷ cs) [] rest h = absurd (omega arith)
copy_to_over (c ∷ cs) (o ∷ old) rest h = ap (λ t. c ∷ t) (copy_to_over cs old rest (omega arith))

pub resize-[] : (n : ℕ) → resize n [] ≡ replicate n 0
unfolding resize
resize-[] zero = refl
resize-[] (suc n) = ap (λ t. 0 ∷ t) (resize-[] n)

pub resize-length : (bs : List ℕ) → resize (length bs) bs ≡ bs
unfolding resize
resize-length [] = refl
resize-length (b ∷ bs) = ap (λ t. b ∷ t) (resize-length bs)
