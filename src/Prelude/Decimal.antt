-- ===== src/Prelude/Decimal.antt =====
-- Python's `str` of an integer, and that it tells integers apart.
use Prim.Native.Nat.{ℕ, zero, suc, ◌+◌, ◌-◌, ◌*◌, ◌/◌, ◌%◌, ◌≤◌, ◌<◌}
use mathlib.Core.Path.{◌≡◌, refl, sym, ap, ◌∙◌}
use mathlib.Core.List.{[], ◌∷◌, ◌++◌}
use mathlib.Core.Logic.{inl, inr}
use native.Mathlib.Omega.{arith}
use geopilot_hvac.Prelude.Tests.{if◌then◌else◌, ltb, Bool-cases}
use geopilot_hvac.Prelude.Int.{ℤ, pos, negsuc}
use geopilot_hvac.Prelude.Strings.{Text}

-- the digits of `n`, for which `n + 1` rounds are enough
unfoldable pub show_from : ℕ → ℕ → Text
show_from zero n = []
show_from (suc fuel) n =
    let front = show_from fuel (n / 10) in
    if ltb n 10 then (48 + n) ∷ [] else front ++ (48 + n % 10) ∷ []

-- `str(n)` of a natural number
unfoldable pub show_nat : ℕ → Text
unfolding show_from
show_nat n = show_from (suc n) n

-- `str(n)`
unfoldable pub show_int : ℤ → Text
unfolding show_nat
show_int (pos n) = show_nat n
show_int (negsuc n) = 45 ∷ show_nat (suc n)

-- the number that digits stand for, behind a number that was read
read_from : ℕ → Text → ℕ
read_from n [] = n
read_from n (c ∷ s) = read_from (n * 10 + (c - 48)) s

read_from-append : (n c : ℕ) (s : Text) → read_from n (s ++ c ∷ []) ≡ read_from n s * 10 + (c - 48)
unfolding read_from
read_from-append n c [] = refl
read_from-append n c (d ∷ s) = read_from-append (n * 10 + (d - 48)) c s

read_from-show_from : (fuel n : ℕ) → n < fuel → read_from 0 (show_from fuel n) ≡ n
unfolding show_from read_from
read_from-show_from zero n h = absurd (omega arith)
read_from-show_from (suc fuel) n h = elim (Bool-cases (ltb n 10)) [
  | inl short ↦ rw short (omega arith)
  | inr long ↦ rw long (
      read_from-append 0 (48 + n % 10) (show_from fuel (n / 10))
      ∙ omega (arith, read_from-show_from fuel (n / 10) (ground arith)))
]

-- the first character of a text, or a digit
head_of : Text → ℕ
head_of [] = 48
head_of (c ∷ s) = c

head_of-append : (s : Text) (c : ℕ) → 48 ≤ head_of s → 48 ≤ c → 48 ≤ head_of (s ++ c ∷ [])
unfolding head_of
head_of-append [] c h k = k
head_of-append (d ∷ s) c h k = h

-- A number begins with a digit.
head_of-show_from : (fuel n : ℕ) → 48 ≤ head_of (show_from fuel n)
unfolding show_from head_of
head_of-show_from zero n = omega arith
head_of-show_from (suc fuel) n = elim (Bool-cases (ltb n 10)) [
  | inl short ↦ rw short (omega arith)
  | inr long ↦ rw long (
      head_of-append (show_from fuel (n / 10)) (48 + n % 10) (head_of-show_from fuel (n / 10))
        (omega arith))
]

show_nat_cancel : (m n : ℕ) → show_nat m ≡ show_nat n → m ≡ n
unfolding show_nat
show_nat_cancel m n e =
    sym (read_from-show_from (suc m) m (omega arith))
    ∙ ap (read_from 0) e
    ∙ read_from-show_from (suc n) n (omega arith)

-- A natural number is not written with a sign.
show_nat-unsigned : (n : ℕ) (s : Text) → show_nat n ≡ 45 ∷ s → ⊥
unfolding show_nat head_of
show_nat-unsigned n s e = omega (arith, head_of-show_from (suc n) n, ap head_of e)

pub show_int_cancel : (a b : ℤ) → show_int a ≡ show_int b → a ≡ b
unfolding show_int
show_int_cancel (pos m) (pos n) e = ap pos (show_nat_cancel m n e)
show_int_cancel (pos m) (negsuc n) e = absurd (show_nat-unsigned m _ e)
show_int_cancel (negsuc m) (pos n) e = absurd (show_nat-unsigned n _ (sym e))
show_int_cancel (negsuc m) (negsuc n) e =
    let same : suc m ≡ suc n = show_nat_cancel (suc m) (suc n) (cc e) in
    ap negsuc (omega (arith, same))
