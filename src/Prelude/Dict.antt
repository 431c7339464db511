-- ===== src/Prelude/Dict.antt =====
-- `std::map` with text keys, as an association list without duplicate keys.
use Prim.Native.String.{String}
use mathlib.Core.Path.{◌≡◌, refl}
use mathlib.Core.Bool.{Bool, true, false}
use mathlib.Core.Option.{Option, none, some}
use mathlib.Core.List.{List, [], ◌∷◌}
use native.Mathlib.Omega.{arith}
use text.Mathlib.Text.{◌==◌}
use text.Mathlib.TextEquality.{eq_iff}
use text.Mathlib.TextPositions.{eq_refl}
use mathlib.Core.Option.{some-injective}
use mathlib.Core.Logic.{inl, inr}
use mathlib.Core.Path.{subst, subst₂}
use acppsrv.Prelude.Tests.{if◌then◌else◌, Bool-cases}
use acppsrv.Prelude.Lists.{All}

module _ {ℓ} {V : Type ℓ} where
  unfoldable pub lookup : String → List (String × V) → Option V
  lookup k [] = none
  lookup k ((j, v) ∷ m) = if j == k then some v else lookup k m

  unfoldable pub contains_key : String → List (String × V) → Bool
  contains_key k [] = false
  contains_key k ((j, v) ∷ m) = if j == k then true else contains_key k m

  -- `m.emplace(k, v)`: a key that is there keeps its value.
  pub ensure : String → V → List (String × V) → List (String × V)
  ensure k v [] = (k, v) ∷ []
  ensure k v ((j, w) ∷ m) = if j == k then (j, w) ∷ m else (j, w) ∷ ensure k v m

  abbrev found_or : Option V → V → V
  found_or none v = v
  found_or (some w) v = w

  pub lookup-ensure :
      (k j : String) (v : V) (m : List (String × V))
      → lookup j (ensure k v m) ≡ (if k == j then some (found_or (lookup k m) v) else lookup j m)
  unfolding lookup ensure
  lookup-ensure k j v [] = refl
  lookup-ensure k j v ((i, w) ∷ m) =
      ground (arith, eq_iff k j, eq_iff i k, eq_iff i j, eq_refl k, lookup-ensure k j v m)

  pub lookup-ensure_self :
      (k : String) (v : V) (m : List (String × V))
      → lookup k m ≡ none
      → lookup k (ensure k v m) ≡ some v
  lookup-ensure_self k v m h = ground (arith, lookup-ensure k k v m, eq_refl k, h)

module _ {ℓ κ} {V : Type ℓ} (P : String → V → Type κ) where
  pub lookup-All :
      (m : List (String × V)) (k : String) {v : V}
      → All (λ e. P e.0 e.1) m
      → lookup k m ≡ some v
      → P k v
  unfolding lookup
  lookup-All [] k h e = absurd (cc)
  lookup-All ((j, w) ∷ m) k h e = elim (Bool-cases (j == k)) [
    | inl hit ↦ subst₂ P ((eq_iff j k).0 hit) (some-injective _ _ (rw hit at e)) h.0
    | inr miss ↦ lookup-All m k h.1 (rw miss at e)
  ]

-- Dictionaries with related values under each key, and with the same keys.
module _ {ℓ κ} {V : Type ℓ} {W : Type κ} (P : String → V → W → Type 0) where
  abbrev pub Agrees : String → Option V → Option W → Type 0
  Agrees k none none = Unit
  Agrees k none (some w) = ⊥
  Agrees k (some v) none = ⊥
  Agrees k (some v) (some w) = P k v w

  -- Made one entry after the other.
  pub data Pairs : List (String × V) → List (String × W) → Type (ℓ ⊔ κ) where
    no_pairs : Pairs [] []
    one_pair :
        {k : String} {v : V} {w : W} {m : List (String × V)} {n : List (String × W)}
        → P k v w
        → Pairs m n
        → Pairs ((k, v) ∷ m) ((k, w) ∷ n)

  pub lookup-Pairs :
      {m : List (String × V)} {n : List (String × W)}
      → Pairs m n
      → (k : String) → Agrees k (lookup k m) (lookup k n)
  unfolding lookup
  lookup-Pairs no_pairs k = tt
  lookup-Pairs (one_pair {k = j} {v = v} {w = w} {m = m} {n = n} h hs) k =
      elim (Bool-cases (j == k)) [
        | inl hit ↦ rw hit (subst (λ x. P x v w) ((eq_iff j k).0 hit) h)
        | inr miss ↦ rw miss (lookup-Pairs {m = m} {n = n} hs k)
      ]
