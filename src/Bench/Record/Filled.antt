-- ===== src/Bench/Record/Filled.antt =====
-- The value of a record is made of copies of its key.
use acppsrv.Prelude.{
  ℕ, zero, suc, ◌+◌, ◌*◌, ◌/◌, ◌%◌, ◌≡◌, refl, sym, ap, subst, ◌∙◌, ◌⊎◌, inl, inr, List, [], ◌∷◌,
  ◌++◌, length, length-append, replicate, length-replicate, replicate-add, append_assoc, append-nil,
  arith, copy_to, resize, copy_to-append, copy_to_over, resize-[], resize-length,
}
use acppsrv.Bench.Keys.{partition_key, hash_key}
use acppsrv.Bench.Keys
use acppsrv.Bench.Record.{DbRecord, fill, update}

unfoldable pub copies : ℕ → List ℕ → List ℕ
copies zero key = []
copies (suc n) key = key ++ copies n key

-- As many copies of the key as the size holds, and then zeros.
unfoldable pub filled : ℕ → List ℕ → List ℕ
filled value_sz key = copies (value_sz / 32) key ++ replicate (value_sz % 32) 0

unfoldable pub IsFilled : ℕ → DbRecord → Type 0
IsFilled value_sz r = (length r.key ≡ 32) × (r.value_ ≡ filled value_sz r.key)

length-copies : (n : ℕ) (key : List ℕ) → length key ≡ 32 → length (copies n key) ≡ n * 32
unfolding copies
length-copies zero key h = refl
length-copies (suc n) key h = omega (arith, length-append key (copies n key), length-copies n key h)

-- The first bytes of a buffer, and the others.
split_at :
    (n : ℕ) (bs : List ℕ) (m : ℕ)
    → length bs ≡ n + m
    → (xs : List ℕ) × (ys : List ℕ) × (length xs ≡ n) × (length ys ≡ m) × (bs ≡ xs ++ ys)
split_at zero bs m h = ([], bs, refl, omega arith, refl)
split_at (suc n) [] m h = absurd (omega arith)
split_at (suc n) (b ∷ bs) m h =
    let (xs, ys, hx, hy, e) = split_at n bs m (omega arith) in
    (b ∷ xs, ys, omega arith, hy, ap (λ t. b ∷ t) e)

fill-copies :
    (n i : ℕ) (key pre old rest : List ℕ)
    → length key ≡ 32
    → length pre ≡ i * 32
    → length old ≡ n * 32
    → fill n i key (pre ++ (old ++ rest)) ≡ pre ++ (copies n key ++ rest)
unfolding fill copies
fill-copies zero i key pre [] rest hk hp ho = refl
fill-copies zero i key pre (o ∷ old) rest hk hp ho = absurd (omega arith)
fill-copies (suc n) i key pre old rest hk hp ho =
    let (front, back, hf, hb, e) = split_at 32 old (n * 32) (omega arith) in
    let at : i * 32 ≡ length pre + 0 = omega arith in
    let cut : old ++ rest ≡ front ++ (back ++ rest) =
      ap (λ t. t ++ rest) e ∙ append_assoc front back rest in
    let copied : copy_to (i * 32) key (pre ++ (old ++ rest)) ≡ (pre ++ key) ++ (back ++ rest) =
      ap (λ t. copy_to (i * 32) key (pre ++ t)) cut
      ∙ ap (λ p. copy_to p key (pre ++ (front ++ (back ++ rest)))) at
      ∙ copy_to-append pre key (front ++ (back ++ rest)) 0
      ∙ ap (λ t. pre ++ t) (copy_to_over key front (back ++ rest) (omega arith))
      ∙ sym (append_assoc pre key (back ++ rest)) in
    ap (λ t. fill n (i + 1) key t) copied
    ∙ fill-copies n (i + 1) key (pre ++ key) back rest hk (omega (arith, length-append pre key)) hb
    ∙ append_assoc pre key (copies n key ++ rest)
    ∙ ap (λ t. pre ++ t) (sym (append_assoc key (copies n key) rest))

-- Before the loop: the place of the copies, and the zeros behind them.
abbrev OldValue : ℕ → List ℕ → Type 0
OldValue value_sz v =
    (old : List ℕ) × (length old ≡ value_sz / 32 * 32)
    × (resize value_sz v ≡ old ++ replicate (value_sz % 32) 0)

OldValue-[] : (value_sz : ℕ) → OldValue value_sz []
OldValue-[] n =
    let size : n ≡ n / 32 * 32 + n % 32 = omega arith in
    (
      replicate (n / 32 * 32) 0,
      length-replicate {A = ℕ} (n / 32 * 32) 0,
      resize-[] n ∙ ap (λ m. replicate m 0) size ∙ replicate-add (n / 32 * 32) (n % 32) 0,
    )

OldValue-filled :
    (value_sz : ℕ) (key : List ℕ) → length key ≡ 32 → OldValue value_sz (filled value_sz key)
unfolding filled
OldValue-filled n key h =
    let v = copies (n / 32) key ++ replicate (n % 32) 0 in
    let size : length v ≡ n = omega (
      arith,
      length-append (copies (n / 32) key) (replicate (n % 32) 0),
      length-copies (n / 32) key h,
      length-replicate {A = ℕ} (n % 32) 0,
    ) in
    (
      copies (n / 32) key,
      length-copies (n / 32) key h,
      ap (λ m. resize m v) (sym size) ∙ resize-length v,
    )

length-resize : (n : ℕ) (bs : List ℕ) → length (resize n bs) ≡ n
unfolding resize
length-resize zero bs = refl
length-resize (suc n) [] = omega (arith, length-resize n [])
length-resize (suc n) (b ∷ bs) = omega (arith, length-resize n bs)

-- The new key is the digest.
copy_to-resize :
    (digest bs : List ℕ) → length digest ≡ 32 → copy_to 0 digest (resize 32 bs) ≡ digest
copy_to-resize digest bs h =
    ap (λ t. copy_to 0 digest t) (sym (append-nil (resize 32 bs)))
    ∙ copy_to_over digest (resize 32 bs) [] (omega (arith, length-resize 32 bs))
    ∙ append-nil digest

filled_by :
    (value_sz : ℕ) (key v : List ℕ)
    → length key ≡ 32
    → OldValue value_sz v
    → fill (value_sz / 32) 0 key (resize value_sz v) ≡ filled value_sz key
unfolding filled
filled_by n key v h (old, size, e) =
    ap (λ t. fill (n / 32) 0 key t) e
    ∙ fill-copies (n / 32) 0 key [] old (replicate (n % 32) 0) h refl size

-- With a digest of 32 bytes, a record whose value is empty, as after the constructor, or filled for the
-- same size has after `update` the digest of its old key as its key, and a value of that size made of
-- copies of the new key, as many as there is room for, and zeros.
pub update-IsFilled :
    (sha256 : List ℕ → List ℕ) (partitions value_sz : ℕ) (r : DbRecord)
    → ((k : List ℕ) → length (sha256 k) ≡ 32)
    → (r.value_ ≡ []) ⊎ IsFilled value_sz r
    → ((update sha256 partitions value_sz r).key ≡ sha256 r.key)
      × IsFilled value_sz (update sha256 partitions value_sz r)
unfolding update IsFilled
update-IsFilled sha256 partitions n r digest h =
    let key = copy_to 0 (sha256 r.key) (resize 32 r.key) in
    let new : key ≡ sha256 r.key = copy_to-resize (sha256 r.key) r.key (digest r.key) in
    let size : length key ≡ 32 = ap (λ k. length k) new ∙ digest r.key in
    (new, (size, filled_by n key r.value_ size (old_value h)))
  where
    old_value : (r.value_ ≡ []) ⊎ IsFilled n r → OldValue n r.value_
    old_value (inl e) = subst (λ v. OldValue n v) (sym e) (OldValue-[] n)
    old_value (inr (k, e)) = subst (λ v. OldValue n v) (sym e) (OldValue-filled n r.key k)

-- The partition and the hash are those of the model of keys, of the digest.
update-Key :
    (sha256 : List ℕ → List ℕ) (partitions value_sz : ℕ) (r : DbRecord)
    → length (sha256 r.key) ≡ 32
    → ((update sha256 partitions value_sz r).partition
        ≡ (Keys.update (sha256 r.key) partitions).partition)
      × ((update sha256 partitions value_sz r).hash ≡ (Keys.update (sha256 r.key) partitions).hash)
unfolding update Keys.update
update-Key sha256 partitions n r h =
    let new = copy_to-resize (sha256 r.key) r.key h in
    (ap (λ k. partition_key k % partitions) new, ap (λ k. hash_key k) new)
