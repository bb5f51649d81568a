-- ===== src/Prelude/Assoc.antt =====
-- A hash map as the list of its entries, in the order in which it is iterated. Keys are numbers.
use Prim.Native.Nat.{ℕ}
use mathlib.Core.Path.{◌≡◌, refl}
use mathlib.Core.Bool.{Bool, false, ◌||◌}
use mathlib.Core.Option.{Option, none, some}
use mathlib.Core.List.{List, [], ◌∷◌}
use native.Mathlib.Omega.{arith}
use mcts.Prelude.Tests.{◌==◌, if◌then◌else◌}

module _ {ℓ} {V : Type ℓ} where
  abbrev pub lookup : ℕ → List (ℕ × V) → Option V
  lookup k [] = none
  lookup k ((j, v) ∷ m) = if j == k then some v else lookup k m

  abbrev pub insert : ℕ → V → List (ℕ × V) → List (ℕ × V)
  insert k v [] = (k, v) ∷ []
  insert k v ((j, w) ∷ m) = if j == k then (k, v) ∷ m else (j, w) ∷ insert k v m

  abbrev pub keys : List (ℕ × V) → List ℕ
  keys [] = []
  keys ((k, v) ∷ m) = k ∷ keys m

  pub lookup-insert :
      (k j : ℕ) (v : V) (m : List (ℕ × V))
      → lookup j (insert k v m) ≡ (if k == j then some v else lookup j m)
  lookup-insert k j v [] = refl
  lookup-insert k j v ((i, w) ∷ m) = ground (arith, lookup-insert k j v m)

abbrev pub contains : ℕ → List ℕ → Bool
contains k [] = false
contains k (j ∷ js) = j == k || contains k js

module _ {ℓ} {V : Type ℓ} where
  pub contains-keys-insert :
      (k j : ℕ) (v : V) (m : List (ℕ × V))
      → contains j (keys (insert k v m)) ≡ (k == j || contains j (keys m))
  contains-keys-insert k j v [] = refl
  contains-keys-insert k j v ((i, w) ∷ m) = ground (arith, contains-keys-insert k j v m)

-- The keys of a hash map, and the elements of a hash set, are distinct.
abbrev pub Distinct : List ℕ → Type 0
Distinct [] = Unit
Distinct (k ∷ ks) = (contains k ks ≡ false) × Distinct ks

pub lookup-none {ℓ} :
    {V : Type ℓ} (k : ℕ) (m : List (ℕ × V)) → contains k (keys m) ≡ false → lookup k m ≡ none
lookup-none k [] h = refl
lookup-none k ((j, v) ∷ m) h = ground (arith, lookup-none k m)

-- The value at a key, or the default for a key that is missing.
abbrev pub lookup_or {ℓ} : {V : Type ℓ} → ℕ → List (ℕ × V) → V → V
lookup_or k [] d = d
lookup_or k ((j, v) ∷ m) d = if j == k then v else lookup_or k m d

pub lookup_or-default {ℓ} :
    {V : Type ℓ} (k : ℕ) (m : List (ℕ × V)) (d : V)
    → contains k (keys m) ≡ false
    → lookup_or k m d ≡ d
lookup_or-default k [] d h = refl
lookup_or-default k ((j, v) ∷ m) d h = ground (arith, lookup_or-default k m d)
