-- ===== src/Prelude/Mapped.antt =====
-- A sort and a selection commute with a map that keeps the order and the test.
use mathlib.Core.Path.{◌≡◌, refl, ap, ◌∙◌}
use mathlib.Core.Logic.{inl, inr}
use mathlib.Core.Bool.{Bool, false}
use mathlib.Core.List.{List, [], ◌∷◌, map}
use geopilot_hvac.Prelude.Tests.{Bool-cases}
use geopilot_hvac.Prelude.Sort.{keep, sort, insert_sorted}

module _ {A B : Type 0} (f : A → B) where
  pub keep-map :
      (test : A → Bool) (test' : B → Bool)
      → ((a : A) → test' (f a) ≡ test a)
      → (xs : List A) → keep test' (map f xs) ≡ map f (keep test xs)
  unfolding keep
  keep-map test test' same [] = refl
  keep-map test test' same (x ∷ xs) = elim (Bool-cases (test x)) [
    | inl e ↦ rw (same x, e) (ap (λ l. f x ∷ l) (keep-map test test' same xs))
    | inr e ↦ rw (same x, e) (keep-map test test' same xs)
  ]

  module _ (le : A → A → Bool) (le' : B → B → Bool)
      (same : (a b : A) → le' (f a) (f b) ≡ le a b) where
    insert_sorted-map :
        (a : A) (xs : List A) → insert_sorted le' (f a) (map f xs) ≡ map f (insert_sorted le a xs)
    unfolding insert_sorted
    insert_sorted-map a [] = refl
    insert_sorted-map a (x ∷ xs) = elim (Bool-cases (le a x)) [
      | inl e ↦ rw (same a x, e) refl
      | inr e ↦ rw (same a x, e) (ap (λ l. f x ∷ l) (insert_sorted-map a xs))
    ]

    pub sort-map : (xs : List A) → sort le' (map f xs) ≡ map f (sort le xs)
    unfolding sort
    sort-map [] = refl
    sort-map (x ∷ xs) =
        ap (insert_sorted le' (f x)) (sort-map xs) ∙ insert_sorted-map x (sort le xs)

pub keep_congr :
    {A : Type 0} (p q : A → Bool) → ((a : A) → p a ≡ q a) → (xs : List A) → keep p xs ≡ keep q xs
unfolding keep
keep_congr p q same [] = refl
keep_congr p q same (x ∷ xs) = elim (Bool-cases (q x)) [
  | inl e ↦ rw (same x, e) (ap (λ l. x ∷ l) (keep_congr p q same xs))
  | inr e ↦ rw (same x, e) (keep_congr p q same xs)
]

-- Nothing passes a test that is never met.
pub keep_none :
    {A : Type 0} (p : A → Bool) → ((a : A) → p a ≡ false) → (xs : List A) → keep p xs ≡ []
unfolding keep
keep_none p never [] = refl
keep_none p never (x ∷ xs) = rw (never x) (keep_none p never xs)
