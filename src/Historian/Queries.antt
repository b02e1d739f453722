-- ===== src/Historian/Queries.antt =====
-- What the queries of the historian return.
use geopilot_hvac.Prelude.{
  ◌⊎◌, ap, ◌∙◌, Bool, subst, sym, ◌≡◌, ◌↔◌, refl, arith, true, false, ◌&&◌, Bool-cases, inl, inr,
  Option, none, some, List, [], ◌∷◌, Text, ◌==◌, eq_iff, ok, ◌≤ℤ◌,
}
use geopilot_hvac.Prelude.Sort.{keep, sort, IsSorted, sort-IsSorted, sort-Perm, Mem-keep, keep-Mem}
use mathlib.Core.List.{Mem, mem-cons, mem-cons_self, mem-cons_of_mem, not-mem-nil}
use mathlib.Core.Logic.Or
use mathlib.Core.List.Perm
use geopilot_hvac.Datetime.{Datetime}
use geopilot_hvac.Domain.Observation.{Measurement}
use geopilot_hvac.Historian.{
  Historian, leb_key, in_window, validate_window, query_sensor, latest_for_sensor, greatest,
  greatest_of,
}
use geopilot_hvac.Historian.Order.{leb_key_total, leb_key_trans}

abbrev pub IsFrom : Option Datetime → Datetime → Type 0
IsFrom none at = Unit
IsFrom (some start) at = start.instant ≤ℤ at.instant

abbrev pub IsUntil : Option Datetime → Datetime → Type 0
IsUntil none at = Unit
IsUntil (some end) at = end.instant ≤ℤ at.instant → ⊥

-- From the start on, where there is one, and before the end, where there is one.
abbrev pub IsInWindow : Option Datetime → Option Datetime → Datetime → Type 0
IsInWindow start end at = IsFrom start at × IsUntil end at

in_window_lem :
    (start end : Option Datetime) (at : Datetime)
    → (in_window start end at ≡ true) ↔ IsInWindow start end at
unfolding in_window
in_window_lem none none at = (λ h. (tt, tt), λ h. refl)
in_window_lem (some s) none at = (λ h. (ground arith, tt), λ (h, _). ground arith)
in_window_lem none (some e) at = (λ h. (tt, λ le. ground arith), λ (_, h). ground arith)
in_window_lem (some s) (some e) at =
    (λ h. (ground arith, λ le. ground arith), λ (h, k). ground arith)

and_parts : (a b : Bool) → a && b ≡ true → (a ≡ true) × (b ≡ true)
and_parts true b h = (refl, h)
and_parts false b h = cc h

query_sensor_ok :
    {V : Type 0} (sensor_id : Text) (start end : Option Datetime) (h : Historian V)
    {ms : List (Measurement V)}
    → query_sensor sensor_id start end h ≡ ok ms
    → ms
      ≡ sort leb_key
          (keep (λ m. m.sensor_id == sensor_id && in_window start end m.observed_at) h.measurements)
unfolding query_sensor validate_window
query_sensor_ok sensor_id start end h e = ground arith

-- What a query for a sensor returns is in the order of observation, arrival and id, and a
-- measurement is in it exactly if the historian has it, it is the sensor's, and it was observed
-- from the start on and before the end, where the query has a start or an end.
pub query_sensor_sound :
    {V : Type 0} (sensor_id : Text) (start end : Option Datetime) (h : Historian V)
    (ms : List (Measurement V))
    → query_sensor sensor_id start end h ≡ ok ms
    → IsSorted leb_key ms
      × ((m : Measurement V)
          → (Mem m ms
              → Mem m h.measurements
                × (m.sensor_id ≡ sensor_id)
                × IsInWindow start end m.observed_at)
            × (Mem m h.measurements
                → m.sensor_id ≡ sensor_id
                → IsInWindow start end m.observed_at
                → Mem m ms))
query_sensor_sound sensor_id start end h ms e =
    let test =
      λ (m : Measurement _). m.sensor_id == sensor_id && in_window start end m.observed_at in
    let found = keep test h.measurements in
    let is_sorted = query_sensor_ok sensor_id start end h e in
    (
      subst (IsSorted leb_key) (sym is_sorted) (sort-IsSorted leb_key leb_key_total found),
      λ m. (
        λ there.
            let (stored, passes) =
              Mem-keep test m h.measurements
                (Perm.subset (sort-Perm leb_key found) m (subst (Mem m) is_sorted there)) in
            let (named, inside) = and_parts _ _ passes in
            (
              stored,
              (eq_iff m.sensor_id sensor_id).0 named,
              (in_window_lem start end m.observed_at).0 inside,
            ),
        λ stored named inside.
            let passes : test m ≡ true =
              rw
                (
                  (eq_iff m.sensor_id sensor_id).1 named,
                  (in_window_lem start end m.observed_at).1 inside,
                )
                refl in
            subst (Mem m) (sym is_sorted) (
              Perm.subset (Perm.symm (sort-Perm leb_key found)) m
                (keep-Mem test m h.measurements stored passes)),
      ),
    )

leb_key_refl : {V : Type 0} (m : Measurement V) → leb_key m m ≡ true
leb_key_refl m = elim (Bool-cases (leb_key m m)) [ inl e ↦ e | inr e ↦ leb_key_total m m e ]

-- `g` is one of the list, and none of the list is greater.
IsGreatest : {V : Type 0} → Measurement V → List (Measurement V) → Type 0
IsGreatest {V} g ms = Mem g ms × ((m : Measurement V) → Mem m ms → leb_key m g ≡ true)

-- The greater of the first two items stands for both.
IsGreatest-cons :
    {V : Type 0} (best n next g : Measurement V) (ms : List (Measurement V))
    → ((next ≡ best) ⊎ (next ≡ n))
    → leb_key best next ≡ true
    → leb_key n next ≡ true
    → IsGreatest g (next ∷ ms)
    → IsGreatest g (best ∷ n ∷ ms)
unfolding IsGreatest
IsGreatest-cons best n next g ms which first second (there, above) =
    let up = above next mem-cons_self in
    (
      Or.elim {C = Mem g (best ∷ n ∷ ms)} (hlevel) (mem-cons.0 there)
          (λ e. elim which [
            | inl b ↦ mem-cons.1 ∣ inl (e ∙ b) ∣₁
            | inr b ↦ mem-cons_of_mem best (mem-cons.1 ∣ inl (e ∙ b) ∣₁)
          ])
          (λ t. mem-cons_of_mem best (mem-cons_of_mem n t)),
      λ m t.
          Or.elim {C = leb_key m g ≡ true} (hlevel) (mem-cons.0 t)
            (λ e. leb_key_trans m next g (ap (λ k. leb_key k next) e ∙ first) up)
            (λ t'.
              Or.elim {C = leb_key m g ≡ true} (hlevel) (mem-cons.0 t')
                (λ e. leb_key_trans m next g (ap (λ k. leb_key k next) e ∙ second) up)
                (λ t''. above m (mem-cons_of_mem next t''))),
    )

greatest-IsGreatest :
    {V : Type 0} (best : Measurement V) (ms : List (Measurement V))
    → IsGreatest (greatest best ms) (best ∷ ms)
unfolding greatest IsGreatest
greatest-IsGreatest best [] = (
  mem-cons_self,
  λ m there.
      Or.elim {C = leb_key m best ≡ true} (hlevel) (mem-cons.0 there)
        (λ e. ap (λ k. leb_key k best) e ∙ leb_key_refl best) (λ t. absurd (not-mem-nil t)),
)
greatest-IsGreatest best (n ∷ ms) = elim (Bool-cases (leb_key n best)) [
  | inl e ↦ rw e (
      IsGreatest-cons best n best (greatest best ms) ms (inl refl) (leb_key_refl best) e
        (greatest-IsGreatest best ms))
  | inr e ↦ rw e (
      IsGreatest-cons best n n (greatest n ms) ms (inr refl) (leb_key_total n best e)
        (leb_key_refl n) (greatest-IsGreatest n ms))
]

-- A list with a member has a greatest item.
greatest_of_lem :
    {V : Type 0} (ms : List (Measurement V)) (m : Measurement V)
    → Mem m ms
    → (best : Measurement V) × (greatest_of ms ≡ some best) × IsGreatest best ms
unfolding greatest_of
greatest_of_lem [] m there = absurd (not-mem-nil there)
greatest_of_lem (n ∷ ms) m there = (greatest n ms, refl, greatest-IsGreatest n ms)

latest_for_sensor_ok :
    {V : Type 0} (sensor_id : Text) (h : Historian V) {latest : Option (Measurement V)}
    → latest_for_sensor sensor_id h ≡ ok latest
    → latest ≡ greatest_of (keep (λ m. m.sensor_id == sensor_id) h.measurements)
unfolding latest_for_sensor
latest_for_sensor_ok sensor_id h e = ground arith

-- Where the historian has a measurement of a sensor, the latest measurement of the sensor is one
-- that it has, of that sensor, and no measurement of the sensor comes after it in the order of
-- observation, arrival and id.
pub latest_for_sensor_greatest :
    {V : Type 0} (sensor_id : Text) (h : Historian V) (latest : Option (Measurement V))
    → latest_for_sensor sensor_id h ≡ ok latest
    → (m : Measurement V) → Mem m h.measurements
    → m.sensor_id ≡ sensor_id
    → (best : Measurement V) × (latest ≡ some best)
      × (Mem best h.measurements)
      × (best.sensor_id ≡ sensor_id)
      × (leb_key m best ≡ true)
unfolding IsGreatest
latest_for_sensor_greatest sensor_id h latest e m stored named =
    let test = λ (n : Measurement _). n.sensor_id == sensor_id in
    let found = keep test h.measurements in
    let there = keep-Mem test m h.measurements stored ((eq_iff m.sensor_id sensor_id).1 named) in
    let (best, is_best, (one, above)) = greatest_of_lem found m there in
    let (held, own) = Mem-keep test best h.measurements one in
    (
      best,
      latest_for_sensor_ok sensor_id h e ∙ is_best,
      held,
      (eq_iff best.sensor_id sensor_id).0 own,
      above m there,
    )
