-- ===== src/Configuration.antt =====
-- backend/src/geopilot/configuration.py. A parsed TOML document is a table of values; reading the file and
-- parsing it are the library's. `V` is the type of floats.
pub mod Sections
pub mod Parse
pub mod Assembly
pub mod Accepted
pub mod Consistent
pub mod Registered
pub mod Registration
pub mod Relays
mod Tests
use geopilot_hvac.Prelude.{
  Bool, true, false, Option, none, some, List, [], ◌∷◌, ℤ, pos, ltb_ℤ, Text, text, ◌==◌, is_blank,
  Result, ok, err, map_err, if◌then◌else◌,
}
use geopilot_hvac.Prelude.Results.{◌>>=◌, ◌>>◌, raise_if}
use geopilot_hvac.Domain.{DomainError}
use geopilot_hvac.Control
use geopilot_hvac.Historian.{is_member}

mutual
  pub data Value (V : Type 0) : Type 0 where
    text_value : Text → Value V
    int_value : ℤ → Value V
    float_value : V → Value V
    bool_value : Bool → Value V
    time_value : Value V
    array_value : Items V → Value V
    table_value : Table V → Value V

  pub data Items (V : Type 0) : Type 0 where
    nil : Items V
    cons : Value V → Items V → Items V

  pub data Table (V : Type 0) : Type 0 where
    end : Table V
    slot : Text → Value V → Table V → Table V

-- `ConfigurationError`, by the check that raised it, and what the constructors that it calls raise
pub data ConfigurationError : Type 0 where
  table_required array_required text_required : Text → ConfigurationError
  integer_required below_minimum number_required too_large : Text → ConfigurationError
  boolean_required not_allowed : Text → ConfigurationError
  duplicate_id : Text → Text → ConfigurationError
  unsupported_version : ℤ → ConfigurationError
  no_system control_table : ConfigurationError
  unknown_system unknown_equipment unknown_source unknown_sensor : Text → ConfigurationError
  unknown_target : Text → ConfigurationError
  shared_source : ConfigurationError
  blank_residence : ConfigurationError
  domain_error : DomainError → ConfigurationError
  control_error : Control.ConfigurationError → ConfigurationError

-- `enum_type(raw)`, over the values of an enumeration
unfoldable pub member_of : {A : Type 0} → List (Text × A) → Text → Option A
member_of [] raw = none
member_of ((value, a) ∷ members) raw = if value == raw then some a else member_of members raw

module _ {V : Type 0} where
  -- `table.get(key)`
  unfoldable pub get : Text → Table V → Option (Value V)
  get key end = none
  get key (slot k v rest) = if k == key then some v else get key rest

  -- `_require_table`
  unfoldable pub require_table : Table V → Text → Result ConfigurationError (Table V)
  require_table document key = elim (get key document) [
    | some (table_value t) ↦ ok t
    | _ ↦ err (table_required key)
  ]

  -- the items of an array, where they are all tables
  unfoldable pub tables_of : Items V → Option (List (Table V))
  tables_of nil = some []
  tables_of (cons (table_value t) rest) =
      let later = tables_of rest in elim later [ none ↦ none | some ts ↦ some (t ∷ ts) ]
  tables_of (cons _ rest) = none

  -- `_require_array`
  unfoldable pub require_array : Table V → Text → Result ConfigurationError (List (Table V))
  require_array document key = elim (get key document) [
    | none ↦ ok []
    | some (array_value items) ↦ elim (tables_of items) [
      | some ts ↦ ok ts
      | none ↦ err (array_required key)
    ]
    | some _ ↦ err (array_required key)
  ]

  -- `_require_text`
  unfoldable pub require_text : Table V → Text → Result ConfigurationError Text
  require_text table key = elim (get key table) [
    | some (text_value value) ↦ if is_blank value then err (text_required key) else ok value
    | _ ↦ err (text_required key)
  ]

  -- `_optional_text`
  unfoldable pub optional_text : Table V → Text → Text → Result ConfigurationError Text
  optional_text table key default = elim (get key table) [
    | none ↦ ok default
    | some _ ↦ require_text table key
  ]

  -- `_require_int`
  unfoldable pub require_int : Table V → Text → ℤ → Result ConfigurationError ℤ
  require_int table key minimum = elim (get key table) [
    | some (int_value value) ↦ if ltb_ℤ value minimum then err (below_minimum key) else ok value
    | _ ↦ err (integer_required key)
  ]

  -- `_optional_int`
  unfoldable pub optional_int : Table V → Text → ℤ → Result ConfigurationError ℤ
  optional_int table key default = elim (get key table) [
    | none ↦ ok default
    | some _ ↦ require_int table key (pos 0)
  ]

  -- `_optional_number`; `to_float` is `float` of an integer, which raises where it is too large
  unfoldable pub optional_number : (ℤ → Option V) → Table V → Text → V → Result ConfigurationError V
  optional_number to_float table key default = elim (get key table) [
    | none ↦ ok default
    | some (int_value value) ↦ elim (to_float value) [ none ↦ err (too_large key) | some v ↦ ok v ]
    | some (float_value value) ↦ ok value
    | some _ ↦ err (number_required key)
  ]

  -- `_optional_bool`
  unfoldable pub optional_bool : Table V → Text → Bool → Result ConfigurationError Bool
  optional_bool table key default = elim (get key table) [
    | none ↦ ok default
    | some (bool_value value) ↦ ok value
    | some _ ↦ err (boolean_required key)
  ]

  -- `_require_enum`
  unfoldable pub require_enum :
      {A : Type 0} → List (Text × A) → Table V → Text → Result ConfigurationError A
  require_enum members table key = do
    raw ← require_text table key
    elim (member_of members raw) [ none ↦ err (not_allowed key) | some a ↦ ok a ]

  -- `_optional_enum`
  unfoldable pub optional_enum :
      {A : Type 0} → List (Text × A) → Table V → Text → Result ConfigurationError (Option A)
  optional_enum members table key = elim (get key table) [
    | none ↦ ok none
    | some _ ↦ do a ← require_enum members table key; ok (some a)
  ]

-- the loop of `_require_unique`
unfoldable pub unique_from : Text → List Text → List Text → Result ConfigurationError (Unit {0})
unique_from label [] seen = ok tt
unique_from label (value ∷ values) seen =
    let rest = unique_from label values (value ∷ seen) in
    if is_member value seen then err (duplicate_id label value) else rest

-- `_require_unique`
abbrev pub require_unique : Text → List Text → Result ConfigurationError (Unit {0})
require_unique label values = unique_from label values []

-- `tuple(... for entry in ...)`
unfoldable pub each : {E A B : Type 0} → (A → Result E B) → List A → Result E (List B)
each f [] = ok []
each f (a ∷ rest) = do b ← f a; bs ← each f rest; ok (b ∷ bs)
