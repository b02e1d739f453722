-- ===== src/Prelude/Dicts.antt =====
-- A Python dict with text keys, in insertion order.
use mathlib.Core.Path.{◌≡◌, refl}
use mathlib.Core.Option.{Option, none, some}
use mathlib.Core.List.{List, [], ◌∷◌}
use native.Mathlib.Omega.{arith}
use geopilot_hvac.Prelude.Tests.{if◌then◌else◌}
use geopilot_hvac.Prelude.Strings.{Text, ◌==◌, eq_iff, eq_refl}

abbrev pub Dict {ℓ} : Type ℓ → Type ℓ
Dict V = List (Text × V)

module _ {ℓ} {V : Type ℓ} where
  -- `d.get(k)`
  unfoldable pub lookup : Text → Dict V → Option V
  lookup k [] = none
  lookup k ((j, v) ∷ d) = if j == k then some v else lookup k d

  -- `d[k] = v`
  unfoldable pub insert : Text → V → Dict V → Dict V
  insert k v [] = (k, v) ∷ []
  insert k v ((j, w) ∷ d) = if j == k then (k, v) ∷ d else (j, w) ∷ insert k v d

  -- `d.values()`
  abbrev pub values : Dict V → List V
  values [] = []
  values ((k, v) ∷ d) = v ∷ values d

  pub lookup-insert :
      (k j : Text) (v : V) (d : Dict V)
      → lookup j (insert k v d) ≡ (if k == j then some v else lookup j d)
  unfolding lookup insert
  lookup-insert k j v [] = refl
  lookup-insert k j v ((i, w) ∷ d) =
      ground (arith, eq_iff k j, eq_iff i k, eq_iff i j, lookup-insert k j v d)

  pub lookup-insert_self : (k : Text) (v : V) (d : Dict V) → lookup k (insert k v d) ≡ some v
  lookup-insert_self k v d = simp (lookup-insert, eq_refl)

-- the last of the items that have the key
abbrev pub last_with : {A : Type 0} → (A → Text) → Text → List A → Option A
last_with key k [] = none
last_with key k (x ∷ xs) = elim (last_with key k xs) [
  | some later ↦ some later
  | none ↦ if key x == k then some x else none
]

-- the last such item as a value of a dict, or what was there before
abbrev pub value_or : {A B : Type 0} → (A → B) → Option B → Option A → Option B
value_or value before none = before
value_or value before (some a) = some (value a)

pub value_or-last_with :
    {A B : Type 0} (key : A → Text) (value : A → B) (k : Text) (x : A) (xs : List A) (d : Dict B)
    → value_or value (lookup k (insert (key x) (value x) d)) (last_with key k xs)
      ≡ value_or value (lookup k d) (last_with key k (x ∷ xs))
value_or-last_with key value k x xs d = rw (lookup-insert (key x) k (value x) d) (ground arith)
