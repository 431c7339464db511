-- ===== src/Bench/Keys.antt =====
-- The keys of benchmark/benchmark.cpp: partitions and hashes from a digest, the file of keys, and the
-- choice of a known key. A byte is a number below 256; the bytes of a `uint32_t` are in the order of
-- a little-endian machine, both where it is copied from a key and in the file.
pub mod File
use acppsrv.Prelude.{
  ℕ, suc, ◌+◌, ◌-◌, ◌*◌, ◌/◌, ◌%◌, String, Option, none, some, List, [], ◌∷◌, ◌++◌, length, drop,
  get_elem?, if◌then◌else◌, ltb,
}

-- known_key_generator::key
pub record Key : Type 0 where
  pub partition : ℕ
  pub hash : ℕ

unfoldable pub partition_key : List ℕ → ℕ
partition_key [] = 0
partition_key (b ∷ bs) = b

abbrev pub from_bytes : ℕ → ℕ → ℕ → ℕ → ℕ
from_bytes b0 b1 b2 b3 = b0 + b1 * 256 + b2 * 65_536 + b3 * 16_777_216

-- A key of fewer than five bytes has the hash 0.
unfoldable pub hash_key : List ℕ → ℕ
hash_key (p ∷ b0 ∷ b1 ∷ b2 ∷ b3 ∷ bs) = from_bytes b0 b1 b2 b3
hash_key _ = 0

-- `db_record::update`, with the digest of the old key.
unfoldable pub update : List ℕ → ℕ → Key
update digest partitions = record {
  partition = partition_key digest % partitions;
  hash = hash_key digest;
}

-- What `handle_create` appends to the file.
unfoldable pub written : Key → List ℕ
written k =
    k.partition % 256
    ∷ k.hash % 256
    ∷ k.hash / 256 % 256
    ∷ k.hash / 65_536 % 256
    ∷ k.hash / 16_777_216 % 256
    ∷ []

unfoldable pub file_of : List Key → List ℕ
file_of [] = []
file_of (k ∷ ks) = written k ++ file_of ks

-- known_key_generator::key_sz
abbrev pub key_sz : ℕ
key_sz = 5

-- The key at the front of the bytes.
unfoldable pub read_key : List ℕ → Key
read_key bytes = record { partition = partition_key bytes; hash = hash_key bytes }

-- `known_key_generator::get_key` with a random number; without keys the division by zero is `none`.
unfoldable pub get_key : List ℕ → List Key → ℕ → Option Key
get_key bytes added random =
    let sz = length bytes / key_sz in
    elim (sz + length added) [
      | ℕ.zero ↦ none
      | suc n ↦
          let i = random % suc n in
          if ltb i sz then some (read_key (drop (i * key_sz) bytes)) else get_elem? added (i - sz)
    ]
