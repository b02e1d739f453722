-- ===== src/Provenance/Complete.antt =====
-- provenance.py: a comparison that finds nothing has missed nothing.
use geopilot_hvac.Prelude.{
  ◌≡◌, refl, sym, ap, ◌∙◌, subst, arith, Bool, true, false, not, ◌||◌, Bool-cases, inl, inr, Option,
  none, some, List, [], ◌∷◌, ◌++◌, Text, ◌==◌, eq_iff, Dict, lookup,
}
use geopilot_hvac.Prelude.{Option-cases, if◌then◌else◌}
use geopilot_hvac.Prelude.Dicts.{last_with, value_or, value_or-last_with}
use geopilot_hvac.Prelude.Numbers.{Numbers}
use geopilot_hvac.Prelude.Sort.{keep, sort, insert_sorted, leb_text}
use geopilot_hvac.Configuration.Accepted.{either_false}
use geopilot_hvac.Historian.{is_member}
use geopilot_hvac.Provenance.{
  SensorProvenance, ProvenanceKind, onewire, register, bit, same_kind, kind_name, Field, kind,
  reference, unit, scale, offset, inverted, by_sensor, keys, union_keys, same_field, field_changes,
  compared_fields, sensor_changes, changes_for, compare,
}

is_member-append :
    (k : Text) (xs ys : List Text) → is_member k (xs ++ ys) ≡ (is_member k xs || is_member k ys)
unfolding is_member
is_member-append k [] ys = refl
is_member-append k (x ∷ xs) ys = ground (arith, is_member-append k xs ys)

is_member-insert_sorted :
    (le : Text → Text → Bool) (k x : Text) (xs : List Text)
    → is_member k (insert_sorted le x xs) ≡ is_member k (x ∷ xs)
unfolding is_member insert_sorted
is_member-insert_sorted le k x [] = refl
is_member-insert_sorted le k x (y ∷ ys) = elim (Bool-cases (le x y)) [
  | inl e ↦ rw e refl
  | inr e ↦ rw e (ground (arith, is_member-insert_sorted le k x ys))
]

is_member-sort :
    (le : Text → Text → Bool) (k : Text) (xs : List Text)
    → is_member k (sort le xs) ≡ is_member k xs
unfolding is_member sort
is_member-sort le k [] = refl
is_member-sort le k (x ∷ xs) =
    ground (arith, is_member-insert_sorted le k x (sort le xs), is_member-sort le k xs)

-- A key that passes the test is kept.
is_member-keep :
    (test : Text → Bool) (k : Text) (xs : List Text)
    → test k ≡ true
    → is_member k (keep test xs) ≡ is_member k xs
unfolding is_member keep
is_member-keep test k [] h = refl
is_member-keep test k (x ∷ xs) h = elim (Bool-cases (test x)) [
  | inl e ↦ rw e (ap (λ b. x == k || b) (is_member-keep test k xs h))
  | inr e ↦
      let apart : (x == k) ≡ false = elim (Bool-cases (x == k)) [
        | inl s ↦ let same = (eq_iff x k).0 s in cc (same, e, h)
        | inr n ↦ n
      ] in
      rw (e, apart) (is_member-keep test k xs h)
]

module _ {A : Type 0} where
  lookup-not_key : (k : Text) (d : Dict A) → is_member k (keys d) ≡ false → lookup k d ≡ none
  unfolding is_member lookup
  lookup-not_key k [] h = refl
  lookup-not_key k ((j, a) ∷ d) h = ground (arith, lookup-not_key k d)

  -- What is in neither dict is not in the union.
  union_keys-missing :
      (k : Text) (old new : Dict A)
      → is_member k (union_keys old new) ≡ false
      → (is_member k (keys old) ≡ false) × (is_member k (keys new) ≡ false)
  unfolding union_keys
  union_keys-missing k old new h =
      let test = λ (id : Text). not (is_member id (keys old)) in
      let (a, b) =
        either_false (is_member k (keys old)) (is_member k (keep test (keys new)))
          (sym (is_member-append k (keys old) (keep test (keys new))) ∙ h) in
      (a, sym (is_member-keep test k (keys new) (rw a refl)) ∙ b)

append_nil_both : {A : Type 0} (xs ys : List A) → xs ++ ys ≡ [] → (xs ≡ []) × (ys ≡ [])
append_nil_both [] ys h = (refl, h)
append_nil_both (x ∷ xs) ys h = cc h

same_kind_iff : (k l : ProvenanceKind) → same_kind k l ≡ true → k ≡ l
unfolding same_kind kind_name ◌==◌
same_kind_iff onewire onewire h = refl
same_kind_iff onewire register h = cc h
same_kind_iff onewire bit h = cc h
same_kind_iff register onewire h = cc h
same_kind_iff register register h = refl
same_kind_iff register bit h = cc h
same_kind_iff bit onewire h = cc h
same_kind_iff bit register h = cc h
same_kind_iff bit bit h = refl

same_bool : (b c : Bool) → (if b then c else not c) ≡ true → b ≡ c
same_bool true true h = refl
same_bool true false h = cc h
same_bool false true h = cc h
same_bool false false h = refl

-- the last entry of a sensor
abbrev pub last_entry :
    {V : Type 0} → Text → List (SensorProvenance V) → Option (SensorProvenance V)
last_entry {V} id entries = last_with (λ (e : SensorProvenance V). e.sensor_id) id entries

lookup-by_sensor :
    {V : Type 0} (id : Text) (es : List (SensorProvenance V)) (d : Dict (SensorProvenance V))
    → lookup id (by_sensor es d) ≡ value_or (λ e. e) (lookup id d) (last_entry id es)
unfolding by_sensor
lookup-by_sensor id [] d = refl
lookup-by_sensor {V} id (e ∷ es) d =
    lookup-by_sensor id es _
    ∙ value_or-last_with (λ (x : SensorProvenance V). x.sensor_id) (λ x. x) id e es d

lookup-by_sensor_nil :
    {V : Type 0} (id : Text) (es : List (SensorProvenance V))
    → lookup id (by_sensor es []) ≡ last_entry id es
unfolding lookup
lookup-by_sensor_nil id es = elim (Option-cases (last_entry id es)) [
  | inl e ↦ lookup-by_sensor id es [] ∙ rw e refl
  | inr (x, e) ↦ lookup-by_sensor id es [] ∙ rw e refl
]

module _ {V : Type 0} (numbers : Numbers V) where
  changes_for_nil :
      (old new : Dict (SensorProvenance V)) (ids : List Text) (id : Text)
      → changes_for numbers old new ids ≡ []
      → is_member id ids ≡ true
      → sensor_changes numbers id (lookup id old) (lookup id new) ≡ []
  unfolding changes_for is_member
  changes_for_nil old new [] id h found = cc found
  changes_for_nil old new (j ∷ ids) id h found =
      let (here, later) =
        append_nil_both (sensor_changes numbers j (lookup j old) (lookup j new))
          (changes_for numbers old new ids) h in
      elim (Bool-cases (j == id)) [
        | inl same ↦
            subst (λ k. sensor_changes numbers k (lookup k old) (lookup k new) ≡ [])
              ((eq_iff j id).0 same) here
        | inr other ↦
            changes_for_nil old new ids id later (sym (rw (other, is_member) refl) ∙ found)
      ]

  -- Both entries give the sensor's value the same derivation; numbers are compared as `!=` does.
  pub record IsAgreed (p q : SensorProvenance V) : Type 0 where
    pub kind : p.kind ≡ q.kind
    pub reference : p.reference ≡ q.reference
    pub unit : p.unit ≡ q.unit
    pub scale : numbers.same p.scale q.scale ≡ true
    pub offset : numbers.same p.offset q.offset ≡ true
    pub inverted : p.inverted ≡ q.inverted

  -- Both have no such sensor, or both have it and agree.
  abbrev pub AreAlike : Option (SensorProvenance V) → Option (SensorProvenance V) → Type 0
  AreAlike none none = Unit
  AreAlike none (some q) = ⊥
  AreAlike (some p) none = ⊥
  AreAlike (some p) (some q) = IsAgreed p q

  field_changes-cons :
      (id : Text) (f : Field) (fs : List Field) (p q : SensorProvenance V)
      → field_changes numbers id (f ∷ fs) p q ≡ []
      → (same_field numbers f p q ≡ true) × (field_changes numbers id fs p q ≡ [])
  unfolding field_changes
  field_changes-cons id f fs p q h = elim (Bool-cases (same_field numbers f p q)) [
    | inl e ↦ (e, rw (e, field_changes) at h)
    | inr e ↦ let bad = rw (e, field_changes) at h in cc bad
  ]

  field_changes_nil :
      (id : Text) (p q : SensorProvenance V)
      → field_changes numbers id (compared_fields numbers) p q ≡ []
      → IsAgreed p q
  unfolding same_field
  field_changes_nil id p q h =
      let (a, h) = field_changes-cons id kind _ p q h in
      let (b, h) = field_changes-cons id reference _ p q h in
      let (c, h) = field_changes-cons id unit _ p q h in
      let (d, h) = field_changes-cons id scale _ p q h in
      let (e, h) = field_changes-cons id offset _ p q h in
      let (g, h) = field_changes-cons id inverted _ p q h in
      record {
        kind = same_kind_iff p.kind q.kind a;
        reference = (eq_iff p.reference q.reference).0 b;
        unit = (eq_iff p.unit q.unit).0 c;
        scale = d;
        offset = e;
        inverted = same_bool p.inverted q.inverted g;
      }

  sensor_changes_nil :
      (id : Text) (o n : Option (SensorProvenance V))
      → sensor_changes numbers id o n ≡ []
      → AreAlike o n
  unfolding sensor_changes
  sensor_changes_nil id none none h = tt
  sensor_changes_nil id none (some q) h = cc h
  sensor_changes_nil id (some p) none h = cc h
  sensor_changes_nil id (some p) (some q) h = field_changes_nil id p q h

  -- Where compare finds no change between two provenances, each sensor is in both or in neither,
  -- and the last entry of the sensor in the one has the kind, the reference, the unit and the
  -- inversion of the last entry in the other, and a scale and an offset that compare equal; other
  -- entries of the sensor are not looked at.
  pub compare_complete :
      (before after : List (SensorProvenance V)) (id : Text)
      → compare numbers before after ≡ []
      → AreAlike (last_entry id before) (last_entry id after)
  unfolding compare
  compare_complete before after id h =
      let old = by_sensor before [] in
      let new = by_sensor after [] in
      let known : AreAlike (lookup id old) (lookup id new) =
        elim (Bool-cases (is_member id (sort leb_text (union_keys old new)))) [
          | inl found ↦
              sensor_changes_nil id (lookup id old) (lookup id new)
                (changes_for_nil old new (sort leb_text (union_keys old new)) id h found)
          | inr missing ↦
              let (a, b) =
                union_keys-missing id old new
                  (sym (is_member-sort leb_text id (union_keys old new)) ∙ missing) in
              rw (lookup-not_key id old a, lookup-not_key id new b) tt
        ] in
      rw (lookup-by_sensor_nil id before, lookup-by_sensor_nil id after) at known
