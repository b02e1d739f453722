-- ===== src/Prelude/Exec.antt =====
-- A Python method: it changes the state `S`, and returns or raises. What was written stays
-- written when it raises.
use mathlib.Core.Path.{◌≡◌, refl}
use geopilot_hvac.Prelude.Results.{Result, ok, err}

abbrev pub Exec : Type 0 → Type 0 → Type 0 → Type 0
Exec S E A = S → Result E A × S

abbrev pub pure : {S E A : Type 0} → A → Exec S E A
pure a s = (ok a, s)

abbrev pub raise : {S E A : Type 0} → E → Exec S E A
raise e s = (err e, s)

abbrev pub lift : {S E A : Type 0} → Result E A → Exec S E A
lift r s = (r, s)

abbrev pub gets : {S E A : Type 0} → (S → A) → Exec S E A
gets f s = (ok (f s), s)

abbrev pub modify : {S E : Type 0} → (S → S) → Exec S E (Unit {0})
modify f s = (ok tt, f s)

-- The rest of the block, on what the first part left.
abbrev pub bind : {S E A B : Type 0} → (A → Exec S E B) → Result E A × S → Result E B × S
bind f (ok a, s) = f a s
bind f (err e, s) = (err e, s)

infixl 5 ◌>>=◌ ◌>>◌
abbrev pub ◌>>=◌ : {S E A B : Type 0} → Exec S E A → (A → Exec S E B) → Exec S E B
◌>>=◌ m f s = bind f (m s)

abbrev pub ◌>>◌ : {S E B : Type 0} → Exec S E (Unit {0}) → Exec S E B → Exec S E B
m >> k = m >>= λ _. k

-- A block that returned went through each of its steps.
pub bind_ok :
    {S E A B : Type 0} (f : A → Exec S E B) (x : Result E A × S) {b : B}
    → (bind f x).0 ≡ ok b
    → (a : A) × (x.0 ≡ ok a) × ((f a x.1).0 ≡ ok b)
bind_ok f (ok a, s) h = (a, refl, h)
bind_ok f (err e, s) h = cc

-- A block whose first part returned goes on from there.
pub bind_then :
    {S E A B : Type 0} (f : A → Exec S E B) (x : Result E A × S) {a : A}
    → x.0 ≡ ok a
    → bind f x ≡ f a x.1
bind_then f (ok b, s) h = cc
bind_then f (err e, s) h = cc

-- A last part that changes no state leaves the state of the first.
pub bind-lift_state :
    {S E A B : Type 0} (f : A → Result E B) (x : Result E A × S)
    → (bind (λ a. lift {S = S} (f a)) x).1 ≡ x.1
bind-lift_state f (ok a, s) = refl
bind-lift_state f (err e, s) = refl
