-- ===== src/Configuration/Accepted.antt =====
-- configuration.py: what its checks establish where they let a list of entries pass.
use mathlib.Core.Path.{◌≡◌, refl, sym, ap}
use geopilot_hvac.Prelude.Results
use geopilot_hvac.Prelude.Results.{
  Result, ok, err, ◌>>=◌, then_ok, then_elim, raise_if_elim, raise_if_ok, map_err_ok, ok_cancel,
}
use geopilot_hvac.Domain.Assets
use geopilot_hvac.Domain.Assets.{Residence, HvacSystem, hvac_system}
use geopilot_hvac.Datetime.{Datetime, is_aware}
use geopilot_hvac.Prelude.{text, is_blank}
use geopilot_hvac.Configuration.Sections.{system_types}
use geopilot_hvac.Configuration.{
  require_text, require_enum, domain_error, ConfigurationError, require_array, Table, unique_from,
  require_unique, each,
}
use geopilot_hvac.Configuration.Parse.{array_of, all_known, both_known, parse_system}
use geopilot_hvac.Historian.{is_member}
use native.Mathlib.Omega.{arith}
use geopilot_hvac.Prelude.{eq_iff, ◌==◌, if◌then◌else◌, List, Text, ◌∷◌, [], true, false, map, not}
use geopilot_hvac.Prelude.{Bool}
use geopilot_hvac.Prelude.{◌||◌}

-- `P` of every element
abbrev pub AllOf : {A : Type 0} → (A → Type 0) → List A → Type 0
AllOf P [] = Unit
AllOf P (a ∷ rest) = P a × AllOf P rest

-- No id stands twice.
abbrev pub IsDistinct : List Text → Type 0
IsDistinct [] = Unit
IsDistinct (id ∷ ids) = (is_member id ids ≡ false) × IsDistinct ids

-- The reference of each element is one of `ids`.
abbrev pub AreKnown : {A : Type 0} → (A → Text) → List Text → List A → Type 0
AreKnown reference ids items = AllOf (λ a. is_member (reference a) ids ≡ true) items

-- `if not test: raise e` let the call pass.
required_ok :
    {A : Type 0} (test : Bool) (e : ConfigurationError) (r : Result ConfigurationError A) {a : A}
    → Results.◌>>◌ (Results.raise_if (not test) e) r ≡ ok a
    → (test ≡ true) × (r ≡ ok a)
required_ok true e r h = (refl, h)
required_ok false e r h = cc h

-- `if test: raise e` let the call pass, where what follows is computed first.
unless_ok :
    {A : Type 0} (test : Bool) (e : ConfigurationError) (r : Result ConfigurationError A) {a : A}
    → (if test then err e else r) ≡ ok a
    → (test ≡ false) × (r ≡ ok a)
unless_ok true e r h = cc h
unless_ok false e r h = (refl, h)

-- A test that fails fails on each side.
pub either_false : (a b : Bool) → (a || b) ≡ false → (a ≡ false) × (b ≡ false)
either_false false b h = (refl, h)
either_false true b h = cc h

AllOf-unseen :
    (id : Text) (ids seen : List Text)
    → AllOf (λ j. is_member j (id ∷ seen) ≡ false) ids
    → (is_member id ids ≡ false) × AllOf (λ j. is_member j seen ≡ false) ids
unfolding is_member
AllOf-unseen id [] seen h = (refl, tt)
AllOf-unseen id (j ∷ ids) seen (apart, h) =
    let (other, fresh) = either_false (id == j) (is_member j seen) apart in
    let (later, unseen) = AllOf-unseen id ids seen h in
    (ground (arith, eq_iff id j, eq_iff j id, other, later), (fresh, unseen))

-- Ids that the loop accepts are distinct, and new to those that it has seen.
unique_from_ok :
    (label : Text) (ids seen : List Text)
    → unique_from label ids seen ≡ ok tt
    → IsDistinct ids × AllOf (λ id. is_member id seen ≡ false) ids
unfolding unique_from
unique_from_ok label [] seen h = (tt, tt)
unique_from_ok label (id ∷ ids) seen h =
    let (fresh, h) = unless_ok (is_member id seen) _ _ h in
    let (distinct, apart) = unique_from_ok label ids (id ∷ seen) h in
    let (alone, unseen) = AllOf-unseen id ids seen apart in ((alone, distinct), (fresh, unseen))

module _ {A : Type 0} where
  all_known_ok :
      (reference : A → Text) (ids : List Text) (error : Text → ConfigurationError) (items : List A)
      → all_known reference ids error items ≡ ok tt
      → AreKnown reference ids items
  unfolding all_known
  all_known_ok reference ids error [] h = tt
  all_known_ok reference ids error (a ∷ rest) h =
      let (known, h) = required_ok (is_member (reference a) ids) _ _ h in
      (known, all_known_ok reference ids error rest h)

  pub both_known_ok :
      (first : A → Text) (firsts : List Text) (error : Text → ConfigurationError)
      (second : A → Text) (seconds : List Text) (error' : Text → ConfigurationError)
      (items : List A)
      → both_known first firsts error second seconds error' items ≡ ok tt
      → AreKnown first firsts items × AreKnown second seconds items
  unfolding both_known
  both_known_ok first firsts error second seconds error' [] h = (tt, tt)
  both_known_ok first firsts error second seconds error' (a ∷ rest) h =
      let (known, h) = required_ok (is_member (first a) firsts) _ _ h in
      let (known', h) = required_ok (is_member (second a) seconds) _ _ h in
      let (l, r) = both_known_ok first firsts error second seconds error' rest h in
      ((known, l), (known', r))

  each_ok :
      {T : Type 0} (P : A → Type 0) (parse : T → Result ConfigurationError A)
      → ((t : T) (a : A) → parse t ≡ ok a → P a)
      → (ts : List T) (items : List A) → each parse ts ≡ ok items
      → AllOf P items
  unfolding each
  each_ok P parse holds [] items h =
      let e : (let l : List A = [] in l) ≡ items = cc h in rw (sym e) tt
  each_ok P parse holds (t ∷ ts) items h =
      let (a, at, h) = then_ok _ _ h in
      let (rest, later, h) = then_ok _ _ h in
      let e : (a ∷ rest) ≡ items = cc h in
      rw (sym e) (holds t a at, each_ok P parse holds ts rest later)

  array_of_ok :
      {V : Type 0} (P : A → Type 0) (document : Table V) (key label : Text) (id : A → Text)
      (parse : Table V → Result ConfigurationError A)
      → ((t : Table V) (a : A) → parse t ≡ ok a → P a)
      → (items : List A) → array_of document key label id parse ≡ ok items
      → IsDistinct (map id items) × AllOf P items
  unfolding array_of
  array_of_ok P document key label id parse holds items h =
      let (entries, _, h) = then_ok _ (require_array document key) h in
      let (found, parsed, h) = then_ok _ (each parse entries) h in
      let (_, distinct, h) = then_ok _ (require_unique label (map id found)) h in
      let e : found ≡ items = cc h in
      rw (sym e)
        ((unique_from_ok label _ [] distinct).0, each_ok P parse holds entries found parsed)

module _ {A B Q : Type 0} where
  pub all_known_elim :
      (reference : A → Text) (ids : List Text) (error : Text → ConfigurationError) (items : List A)
      {r : Result ConfigurationError B} {b : B}
      → Results.◌>>◌ (all_known reference ids error items) r ≡ ok b
      → (AreKnown reference ids items → r ≡ ok b → Q)
      → Q
  all_known_elim reference ids error items h go =
      then_elim (all_known reference ids error items) h
        λ _ known h. go (all_known_ok reference ids error items known) h

  pub both_known_elim :
      (first : A → Text) (firsts : List Text) (error : Text → ConfigurationError)
      (second : A → Text) (seconds : List Text) (error' : Text → ConfigurationError)
      (items : List A) {r : Result ConfigurationError B} {b : B}
      → Results.◌>>◌ (both_known first firsts error second seconds error' items) r ≡ ok b
      → (AreKnown first firsts items → AreKnown second seconds items → r ≡ ok b → Q)
      → Q
  both_known_elim first firsts error second seconds error' items h go =
      then_elim (both_known first firsts error second seconds error' items) h λ _ known h.
        let (l, r) = both_known_ok first firsts error second seconds error' items known in go l r h

  pub array_of_elim :
      {V : Type 0} (P : A → Type 0) (document : Table V) (key label : Text) (id : A → Text)
      (parse : Table V → Result ConfigurationError A) {r : List A → Result ConfigurationError B}
      {b : B}
      → (array_of document key label id parse >>= r) ≡ ok b
      → ((t : Table V) (a : A) → parse t ≡ ok a → P a)
      → ((items : List A) → IsDistinct (map id items) → AllOf P items → r items ≡ ok b → Q)
      → Q
  array_of_elim P document key label id parse h holds go =
      then_elim (array_of document key label id parse) h λ items at h.
        let (distinct, all) = array_of_ok P document key label id parse holds items at in
        go items distinct all h

  pub distinct_elim :
      {V : Type 0} (document : Table V) (key label : Text) (id : A → Text)
      (parse : Table V → Result ConfigurationError A) {r : List A → Result ConfigurationError B}
      {b : B}
      → (array_of document key label id parse >>= r) ≡ ok b
      → ((items : List A) → IsDistinct (map id items) → r items ≡ ok b → Q)
      → Q
  distinct_elim document key label id parse h go =
      array_of_elim (λ _. Unit) document key label id parse h (λ _ _ _. tt)
        λ items distinct _ h. go items distinct h

-- What the constructor returns has the fields of the call.
hvac_system_ok : (s s' : HvacSystem) → hvac_system s ≡ ok s' → s ≡ s'
unfolding Assets.hvac_system
hvac_system_ok s s' h = raise_if_elim (is_blank s.id) _ h λ _ h.
    raise_if_elim (is_blank s.residence_id) _ h λ _ h.
      raise_if_elim (is_blank s.name) _ h
        λ _ h. raise_if_elim (not (is_aware s.created_at)) _ h λ _ h. cc h

pub parse_system_ok :
    {V : Type 0} (stamp : Datetime) (r : Residence) (t : Table V) (s : HvacSystem)
    → parse_system stamp r t ≡ ok s
    → s.residence_id ≡ r.id
unfolding parse_system
parse_system_ok stamp r t s h = then_elim (require_text t (text "id")) h λ id _ h.
    then_elim (require_text t (text "name")) h λ name _ h.
      then_elim (require_enum system_types t (text "system_type")) h λ kind _ h.
        ap (λ s. s.residence_id) (sym (hvac_system_ok _ s (map_err_ok domain_error _ h)))
