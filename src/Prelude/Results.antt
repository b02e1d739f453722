-- ===== src/Prelude/Results.antt =====
-- A Python call that returns or raises, with the exceptions as a type `E`.
use mathlib.Core.Path.{◌≡◌, refl}
use mathlib.Core.Bool.{Bool, true, false}

pub data Result (E A : Type 0) : Type 0 where
  ok : A → Result E A
  err : E → Result E A

infixl 5 ◌>>=◌ ◌>>◌
abbrev pub ◌>>=◌ : {E A B : Type 0} → Result E A → (A → Result E B) → Result E B
ok a >>= f = f a
err e >>= f = err e

abbrev pub ◌>>◌ : {E B : Type 0} → Result E (Unit {0}) → Result E B → Result E B
m >> k = m >>= λ _. k

-- `if test: raise e`
abbrev pub raise_if : {E : Type 0} → Bool → E → Result E (Unit {0})
raise_if true e = err e
raise_if false e = ok tt

abbrev pub map_err : {E F A : Type 0} → (E → F) → Result E A → Result F A
map_err f (ok a) = ok a
map_err f (err e) = err (f e)

-- A block that returned went through its first step.
pub then_ok :
    {E A B : Type 0} (f : A → Result E B) (r : Result E A) {b : B}
    → (r >>= f) ≡ ok b
    → (a : A) × (r ≡ ok a) × (f a ≡ ok b)
then_ok f (ok a) h = (a, refl, h)
then_ok f (err e) h = cc h

pub raise_if_ok :
    {E A : Type 0} (test : Bool) (e : E) (r : Result E A) {a : A}
    → (raise_if test e >> r) ≡ ok a
    → (test ≡ false) × (r ≡ ok a)
raise_if_ok true e r h = cc h
raise_if_ok false e r h = (refl, h)

pub map_err_ok :
    {E F A : Type 0} (f : E → F) (r : Result E A) {a : A} → map_err f r ≡ ok a → r ≡ ok a
map_err_ok f (ok a) h = cc h
map_err_ok f (err e) h = cc h

pub ok_cancel : {E A : Type 0} {a b : A} → (let r : Result E A = ok a in r) ≡ ok b → a ≡ b
ok_cancel h = cc h

-- The same, for what follows from the value that the first step returned.
pub then_elim :
    {E A B Q : Type 0} {f : A → Result E B} (r : Result E A) {b : B}
    → (r >>= f) ≡ ok b
    → ((a : A) → r ≡ ok a → f a ≡ ok b → Q)
    → Q
then_elim (ok a) h go = go a refl h
then_elim (err e) h go = cc h

pub raise_if_elim :
    {E A Q : Type 0} (test : Bool) (e : E) {r : Result E A} {a : A}
    → (raise_if test e >> r) ≡ ok a
    → (test ≡ false → r ≡ ok a → Q)
    → Q
raise_if_elim true e h go = cc h
raise_if_elim false e h go = go refl h
