-- ===== src/Bench/Keys/File.antt =====
-- The file of keys holds what was written to it.
use acppsrv.Prelude.{
  ℕ, zero, suc, ◌+◌, ◌-◌, ◌*◌, ◌/◌, ◌%◌, ◌<◌, ◌≤◌, ◌≡◌, refl, sym, ap, ◌∙◌, inl, inr, some, List,
  [], ◌∷◌, ◌++◌, All, length, drop, get_elem?, arith, ltb, Bool-cases, ltb→lt,
}
use acppsrv.Bench.Keys.{
  Key, partition_key, from_bytes, hash_key, update, written, file_of, key_sz, read_key, get_key,
}

-- The fields fit into a byte and into a `uint32_t`.
abbrev pub Fits : Key → Type 0
Fits k = (k.partition < 256) × (k.hash < 4_294_967_296)

length-file_of : (ks : List Key) → length (file_of ks) ≡ length ks * 5
unfolding file_of written
length-file_of [] = refl
length-file_of (k ∷ ks) = rw (length-file_of ks) (omega arith)

bytes_lem :
    (h : ℕ)
    → h < 4_294_967_296
    → from_bytes (h % 256) (h / 256 % 256) (h / 65_536 % 256) (h / 16_777_216 % 256) ≡ h
bytes_lem h b = omega arith

read_key-written : (k : Key) (bytes : List ℕ) → Fits k → read_key (written k ++ bytes) ≡ k
unfolding read_key written partition_key hash_key
read_key-written k bytes (p, h) =
    let same : k.partition % 256 ≡ k.partition = omega arith in
    ap
      (λ x. record {
        partition = x;
        hash =
            from_bytes (k.hash % 256) (k.hash / 256 % 256) (k.hash / 65_536 % 256)
              (k.hash / 16_777_216 % 256);
      })
      same
    ∙ ap (λ x. record { partition = k.partition; hash = x }) (bytes_lem k.hash h)

read_key-file_of :
    (ks : List Key) (i : ℕ)
    → All Fits ks
    → i < length ks
    → some (read_key (drop (i * key_sz) (file_of ks))) ≡ get_elem? ks i
unfolding file_of written
read_key-file_of [] i a h = absurd (omega arith)
read_key-file_of (k ∷ ks) zero a h = ap some (read_key-written k (file_of ks) a.0)
read_key-file_of (k ∷ ks) (suc i) a h =
    let next : suc i * key_sz ≡ suc (suc (suc (suc (suc (i * key_sz))))) = omega arith in
    rw next (read_key-file_of ks i a.1 (omega arith))

get_elem?-front :
    {A : Type 0} (xs ys : List A) (i : ℕ) → i < length xs → get_elem? (xs ++ ys) i ≡ get_elem? xs i
get_elem?-front [] ys i h = absurd (omega arith)
get_elem?-front (x ∷ xs) ys zero h = refl
get_elem?-front (x ∷ xs) ys (suc i) h = get_elem?-front xs ys i (omega arith)

get_elem?-back :
    {A : Type 0} (xs ys : List A) (i : ℕ)
    → length xs ≤ i
    → get_elem? (xs ++ ys) i ≡ get_elem? ys (i - length xs)
get_elem?-back [] ys i h = ap (get_elem? ys) (omega arith)
get_elem?-back (x ∷ xs) ys zero h = absurd (omega arith)
get_elem?-back (x ∷ xs) ys (suc i) h =
    get_elem?-back xs ys i (omega arith) ∙ ap (get_elem? ys) (omega arith)

-- Whatever the random number is, `get_key` over the file of some written keys and the keys added
-- later gives the key at the drawn place of both together.
pub get_key-file_of :
    (ks added : List Key) (random n : ℕ)
    → All Fits ks
    → length ks + length added ≡ suc n
    → get_key (file_of ks) added random ≡ get_elem? (ks ++ added) (random % suc n)
unfolding get_key
get_key-file_of ks added random n fit size =
    let count : length (file_of ks) / key_sz ≡ length ks = rw (length-file_of ks) (omega arith) in
    let i = random % suc n in
    rw (count, get_key)
      (rw size (
        rw count (elim (Bool-cases (ltb i (length ks))) [
          | inl in_file ↦ rw in_file (
              read_key-file_of ks i fit (ltb→lt i (length ks) in_file)
              ∙ sym (get_elem?-front ks added i (ltb→lt i (length ks) in_file)))
          | inr later ↦ rw later (sym (get_elem?-back ks added i (ground arith)))
        ])))

abbrev pub IsByte : ℕ → Type 0
IsByte b = b < 256

-- For a digest of bytes and a positive number of partitions, the key of a record has an existing
-- partition, and both its fields fit into what the file of keys has for them.
pub update-Fits :
    (digest : List ℕ) (partitions : ℕ)
    → All IsByte digest
    → 0 < partitions
    → Fits (update digest partitions) × ((update digest partitions).partition < partitions)
unfolding update partition_key hash_key
update-Fits [] n a h = ground arith
update-Fits (p ∷ []) n a h = ground arith
update-Fits (p ∷ b0 ∷ []) n a h = ground arith
update-Fits (p ∷ b0 ∷ b1 ∷ []) n a h = ground arith
update-Fits (p ∷ b0 ∷ b1 ∷ b2 ∷ []) n a h = ground arith
update-Fits (p ∷ b0 ∷ b1 ∷ b2 ∷ b3 ∷ bs) n (ap_, (a0, (a1, (a2, (a3, _))))) h = ground arith
