-- ===== src/Historian/Order.antt =====
-- The order of `measurement_sort_key` is total and transitive.
use geopilot_hvac.Prelude.{◌≡◌, refl, arith, true, false, [], ◌∷◌, Text}
use geopilot_hvac.Prelude.Sort.{leb_text}
use geopilot_hvac.Domain.Observation.{Measurement}
use geopilot_hvac.Historian.{leb_key}

leb_text_total : (s t : Text) → leb_text s t ≡ false → leb_text t s ≡ true
unfolding leb_text
leb_text_total [] t h = cc h
leb_text_total (c ∷ s) [] h = refl
leb_text_total (c ∷ s) (d ∷ t) h = ground (arith, leb_text_total s t)

leb_text_trans : (s t u : Text) → leb_text s t ≡ true → leb_text t u ≡ true → leb_text s u ≡ true
unfolding leb_text
leb_text_trans [] t u h k = refl
leb_text_trans (c ∷ s) [] u h k = cc h
leb_text_trans (c ∷ s) (d ∷ t) [] h k = cc k
leb_text_trans (c ∷ s) (d ∷ t) (e ∷ u) h k = ground (arith, leb_text_trans s t u)

pub leb_key_total : {V : Type 0} (m n : Measurement V) → leb_key m n ≡ false → leb_key n m ≡ true
unfolding leb_key
leb_key_total m n h = ground (arith, leb_text_total m.id n.id)

pub leb_key_trans :
    {V : Type 0} (m n o : Measurement V)
    → leb_key m n ≡ true
    → leb_key n o ≡ true
    → leb_key m o ≡ true
unfolding leb_key
leb_key_trans m n o h k = ground (arith, leb_text_trans m.id n.id o.id)
