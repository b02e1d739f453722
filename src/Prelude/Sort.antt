-- ===== src/Prelude/Sort.antt =====
-- Python's `sorted`: a stable sort by a Boolean order.
use mathlib.Core.Path.{◌≡◌, sym, ap, ◌∙◌}
use mathlib.Core.Logic.{inl, inr}
use mathlib.Core.Bool.{Bool, true, false, ◌&&◌, ◌||◌}
use mathlib.Core.List.{List, [], ◌∷◌}
use mathlib.Core.List.Perm
use mathlib.Core.List.{Perm, Mem, mem-cons, mem-cons_of_mem, not-mem-nil}
use mathlib.Core.Logic.Or
use geopilot_hvac.Prelude.Tests.{if◌then◌else◌, Bool-cases, ltb, eqb}
use geopilot_hvac.Prelude.Strings.{Text}

-- `s <= t` of two strings, by their code points
unfoldable pub leb_text : Text → Text → Bool
leb_text [] t = true
leb_text (c ∷ s) [] = false
leb_text (c ∷ s) (d ∷ t) = ltb c d || (eqb c d && leb_text s t)

-- the items that pass a test, in order
unfoldable pub keep : {A : Type 0} → (A → Bool) → List A → List A
keep test [] = []
keep test (a ∷ xs) = if test a then a ∷ keep test xs else keep test xs

module _ {A : Type 0} (le : A → A → Bool) where
  unfoldable pub insert_sorted : A → List A → List A
  insert_sorted a [] = a ∷ []
  insert_sorted a (b ∷ bs) = if le a b then a ∷ b ∷ bs else b ∷ insert_sorted a bs

  -- `sorted(items)`: an item goes before the later items that it is not greater than
  unfoldable pub sort : List A → List A
  unfolding insert_sorted
  sort [] = []
  sort (a ∷ xs) = insert_sorted a (sort xs)

  -- Each item is at most its successor.
  abbrev pub IsSorted : List A → Type 0
  IsSorted [] = Unit
  IsSorted (a ∷ []) = Unit
  IsSorted (a ∷ b ∷ bs) = (le a b ≡ true) × IsSorted (b ∷ bs)

  insert_sorted-Perm : (a : A) (xs : List A) → Perm (insert_sorted a xs) (a ∷ xs)
  unfolding insert_sorted
  insert_sorted-Perm a [] = Perm.refl (a ∷ [])
  insert_sorted-Perm a (b ∷ bs) =
      elim (le a b) as (λ t. Perm (if t then a ∷ b ∷ bs else b ∷ insert_sorted a bs) (a ∷ b ∷ bs)) [
        | true ↦ Perm.refl (a ∷ b ∷ bs)
        | false ↦ Perm.trans (Perm.cons b (insert_sorted-Perm a bs)) (Perm.swap a b bs)
      ]

  pub sort-Perm : (xs : List A) → Perm (sort xs) xs
  unfolding sort
  sort-Perm [] = Perm.refl []
  sort-Perm (a ∷ xs) = Perm.trans (insert_sorted-Perm a (sort xs)) (Perm.cons a (sort-Perm xs))

  module _ (total : (a b : A) → le a b ≡ false → le b a ≡ true) where
    insert_sorted-IsSorted : (a : A) (xs : List A) → IsSorted xs → IsSorted (insert_sorted a xs)
    unfolding insert_sorted
    insert_sorted-IsSorted a [] h = tt
    insert_sorted-IsSorted a (b ∷ []) h = elim (Bool-cases (le a b)) [
      | inl e ↦ rw e (e, tt)
      | inr e ↦ rw e (total a b e, tt)
    ]
    insert_sorted-IsSorted a (b ∷ c ∷ cs) (h, hs) = elim (Bool-cases (le a b)) [
      | inl e ↦ rw e (e, (h, hs))
      | inr e ↦ elim (Bool-cases (le a c)) [
        | inl e' ↦ rw (e, e') (total a b e, rw e' at (insert_sorted-IsSorted a (c ∷ cs) hs))
        | inr e' ↦ rw (e, e') (h, rw e' at (insert_sorted-IsSorted a (c ∷ cs) hs))
      ]
    ]

    pub sort-IsSorted : (xs : List A) → IsSorted (sort xs)
    unfolding sort
    sort-IsSorted [] = tt
    sort-IsSorted (a ∷ xs) = insert_sorted-IsSorted a (sort xs) (sort-IsSorted xs)

module _ {A : Type 0} (test : A → Bool) where
  pub Mem-keep : (a : A) (xs : List A) → Mem a (keep test xs) → Mem a xs × (test a ≡ true)
  unfolding keep
  Mem-keep a [] m = absurd (not-mem-nil m)
  Mem-keep a (x ∷ xs) m = elim (Bool-cases (test x)) [
    | inr drop ↦
        let (there, passes) = Mem-keep a xs (rw drop at m) in (mem-cons_of_mem x there, passes)
    | inl kept ↦
        Or.elim {C = Mem a (x ∷ xs) × (test a ≡ true)} (hlevel) (mem-cons.0 (rw kept at m))
          (λ e. (mem-cons.1 ∣ inl e ∣₁, ap test e ∙ kept))
          (λ there. let (m', passes) = Mem-keep a xs there in (mem-cons_of_mem x m', passes))
  ]

  pub keep-Mem : (a : A) (xs : List A) → Mem a xs → test a ≡ true → Mem a (keep test xs)
  unfolding keep
  keep-Mem a [] m passes = m
  keep-Mem a (x ∷ xs) m passes =
      Or.elim {C = Mem a (if test x then x ∷ keep test xs else keep test xs)} (hlevel)
        (mem-cons.0 m) (λ e. rw (sym (ap test e) ∙ passes) (mem-cons.1 ∣ inl e ∣₁))
        (λ there. elim (Bool-cases (test x)) [
          | inl kept ↦ rw kept (mem-cons_of_mem x (keep-Mem a xs there passes))
          | inr drop ↦ rw drop (keep-Mem a xs there passes)
        ])
