-- ===== src/Configuration/Registered.antt =====
-- runtime.py: a loop that adds new assets below known parents to the registry never raises.
use mathlib.Core.Path.{◌≡◌, refl, sym, ◌∙◌, ap}
use mathlib.Core.List.{append-nil, append_assoc}
use native.Mathlib.Omega.{arith}
use geopilot_hvac.Prelude.{
  List, [], ◌∷◌, ◌++◌, map, none, some, Text, ◌==◌, eq_iff, true, false, Dict, lookup, insert,
  Result, ok,
}
use geopilot_hvac.Prelude.Results.{◌>>=◌, ◌>>◌}
use geopilot_hvac.Prelude.Dicts.{lookup-insert}
use geopilot_hvac.Prelude.Tests.{Bool-cases}
use geopilot_hvac.Historian.{is_member}
use geopilot_hvac.Registry.{AssetRegistry, RegistryError, reject_duplicate, require_parent}
use geopilot_hvac.Configuration.Accepted.{either_false, AllOf, IsDistinct, AreKnown}
use geopilot_hvac.Configuration.Assembly.{add_each}
use geopilot_hvac.Prelude.{inl}
use geopilot_hvac.Prelude.{inr}

-- the assets by id, in their order
abbrev pub keyed : {A : Type 0} → (A → Text) → List A → Dict A
keyed id items = map (λ a. (id a, a)) items

module _ {A : Type 0} where
  insert-fresh :
      (k : Text) (a : A) (d : Dict A) → lookup k d ≡ none → insert k a d ≡ d ++ (k, a) ∷ []
  unfolding insert lookup
  insert-fresh k a [] h = refl
  insert-fresh k a ((j, b) ∷ d) h = ground (arith, insert-fresh k a d)

  -- An id of one of the assets finds an asset.
  lookup-keyed :
      (id : A → Text) (items : List A) (k : Text)
      → is_member k (map id items) ≡ true
      → (a : A) × (lookup k (keyed id items) ≡ some a)
  unfolding lookup is_member
  lookup-keyed id [] k h = cc h
  lookup-keyed id (a ∷ items) k h = elim (Bool-cases (id a == k)) [
    | inl same ↦ (a, rw same refl)
    | inr other ↦ rw other (lookup-keyed id items k (sym (rw (other, is_member) refl) ∙ h))
  ]

  pub AllOf-map :
      {P Q : A → Type 0} (f : (a : A) → P a → Q a) (items : List A) → AllOf P items → AllOf Q items
  AllOf-map f [] h = tt
  AllOf-map f (a ∷ items) (h, rest) = (f a h, AllOf-map f items rest)

  -- what `add_each` asks of assets that it is to add to `d`
  abbrev AreNew : (A → Text) → Dict A → List A → Type 0
  AreNew id d items = AllOf (λ a. lookup (id a) d ≡ none) items

  AreNew-insert :
      (id : A → Text) (a : A) (d : Dict A) (items : List A)
      → is_member (id a) (map id items) ≡ false
      → AreNew id d items
      → AreNew id (insert (id a) a d) items
  unfolding is_member
  AreNew-insert id a d [] apart new = tt
  AreNew-insert id a d (b ∷ items) apart (fresh, new) =
      let (other, later) = either_false (id b == id a) (is_member (id a) (map id items)) apart in
      let at = lookup-insert (id a) (id b) a d in
      (
        ground (arith, eq_iff (id a) (id b), eq_iff (id b) (id a), at, other, fresh),
        AreNew-insert id a d items later new,
      )

  pub AreNew-empty : (id : A → Text) (items : List A) → AreNew id [] items
  unfolding lookup
  AreNew-empty id [] = tt
  AreNew-empty id (a ∷ items) = (refl, AreNew-empty id items)

-- A loop of one of the registry's methods, whose dict and parents are `assets` and `parents`.
module _ {A P : Type 0} (id parent : A → Text) (assets : AssetRegistry → Dict A)
    (parents : AssetRegistry → Dict P) (put : Dict A → AssetRegistry → AssetRegistry)
    (add : A → AssetRegistry → Result RegistryError AssetRegistry)
    (adds : (a : A) (g : AssetRegistry) (p : P)
      → lookup (id a) (assets g) ≡ none
      → lookup (parent a) (parents g) ≡ some p
      → add a g ≡ ok (put (insert (id a) a (assets g)) g))
    (got : (d : Dict A) (g : AssetRegistry) → assets (put d g) ≡ d)
    (kept : (d : Dict A) (g : AssetRegistry) → parents (put d g) ≡ parents g)
    (again : (d e : Dict A) (g : AssetRegistry) → put d (put e g) ≡ put d g)
    (same : (g : AssetRegistry) → put (assets g) g ≡ g) where
  abbrev HaveParents : Dict P → List A → Type 0
  HaveParents ps items = AllOf (λ a. (p : P) × (lookup (parent a) ps ≡ some p)) items

  pub add_each-new :
      (items : List A) (g : AssetRegistry)
      → IsDistinct (map id items)
      → AreNew id (assets g) items
      → HaveParents (parents g) items
      → add_each add items g ≡ ok (put (assets g ++ keyed id items) g)
  unfolding add_each
  add_each-new [] g distinct new known = rw (append-nil, same) refl
  add_each-new (a ∷ items) g (apart, distinct) (fresh, new) ((p, at), known) =
      let d = insert (id a) a (assets g) in
      let later =
        add_each-new items (put d g) distinct
          (rw (got d g) (AreNew-insert id a (assets g) items apart new)) (rw (kept d g) known) in
      let grown : d ≡ assets g ++ (id a, a) ∷ [] = insert-fresh (id a) a (assets g) fresh in
      ap (λ r. r >>= add_each add items) (adds a g p fresh at)
      ∙ later
      ∙ rw
          (
            got d g,
            again (d ++ keyed id items) d g,
            grown,
            append_assoc (assets g) ((id a, a) ∷ []) (keyed id items),
          )
          refl

reject_duplicate-new :
    {A : Type 0} (id : Text) (assets : Dict A)
    → lookup id assets ≡ none
    → reject_duplicate id assets ≡ ok tt
unfolding reject_duplicate
reject_duplicate-new id assets fresh = rw (fresh, reject_duplicate) refl

require_parent-known :
    {P : Type 0} (id parent : Text) (parents : Dict P) (p : P)
    → lookup parent parents ≡ some p
    → require_parent id parent parents ≡ ok tt
unfolding require_parent
require_parent-known id parent parents p at = rw (at, require_parent) refl

-- A method that accepts a new id below a known parent: its two checks pass.
pub checks_pass :
    {A P G : Type 0} (id parent : Text) (assets : Dict A) (parents : Dict P) (g : G) (p : P)
    → lookup id assets ≡ none
    → lookup parent parents ≡ some p
    → (reject_duplicate id assets >> (require_parent id parent parents >> ok g)) ≡ ok g
checks_pass id parent assets parents g p fresh at =
    ap (λ r. r >> (require_parent id parent parents >> ok g)) (reject_duplicate-new id assets fresh)
    ∙ ap (λ r. r >> ok g) (require_parent-known id parent parents p at)

-- Parents that the ids of a list name are found under their ids.
pub AreKnown-found :
    {A B : Type 0} (id : B → Text) (reference : A → Text) (owners : List B) (items : List A)
    → AreKnown reference (map id owners) items
    → AllOf (λ a. (b : B) × (lookup (reference a) (keyed id owners) ≡ some b)) items
AreKnown-found id reference owners items known =
    AllOf-map (λ a h. lookup-keyed id owners (reference a) h) items known
