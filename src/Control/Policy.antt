-- ===== src/Control/Policy.antt =====
-- What may be operated: `ControlTarget` and `ControlPolicy`, with the checks of their constructors.
use geopilot_hvac.Prelude.{
  ℕ, Bool, false, ◌||◌, Option, none, some, List, [], ◌∷◌, ℤ, pos, ltb_ℤ, pos_part, Text, ◌==◌,
  is_blank, Result, ok, err, if◌then◌else◌,
}
use geopilot_hvac.Prelude.Results.{◌>>◌, raise_if}

-- `ControlConfigurationError`, by the check that raised it.
pub data ConfigurationError : Type 0 where
  blank_field unit_id_range address_range negative_interval : ConfigurationError
  duplicate_target : Text → ConfigurationError

pub record ControlTarget : Type 0 where
  pub target_id : Text
  pub unit_id : ℕ
  pub address : ℕ
  pub minimum_interval : ℕ
  pub description : Text

-- `value < 0 or value > bound`
abbrev pub out_of_range : ℤ → ℕ → Bool
out_of_range value bound = ltb_ℤ value (pos 0) || ltb_ℤ (pos bound) value

-- `ControlTarget(...)` with `__post_init__`
unfoldable pub control_target : Text → ℤ → ℤ → ℤ → Text → Result ConfigurationError ControlTarget
control_target target_id unit_id address minimum_interval description = do
  raise_if (is_blank target_id) blank_field
  raise_if (out_of_range unit_id 0xff) unit_id_range
  raise_if (out_of_range address 0xffff) address_range
  raise_if (ltb_ℤ minimum_interval (pos 0)) negative_interval
  ok (record {
    target_id = target_id;
    unit_id = pos_part unit_id;
    address = pos_part address;
    minimum_interval = pos_part minimum_interval;
    description = description;
  })

pub record ControlPolicy : Type 0 where
  pub enabled : Bool
  pub targets : List ControlTarget

-- `target_id in seen`
unfoldable pub is_seen : Text → List Text → Bool
is_seen k [] = false
is_seen k (j ∷ seen) = j == k || is_seen k seen

-- the loop of `ControlPolicy.__post_init__`
unfoldable pub check_unique : List Text → List ControlTarget → Result ConfigurationError (Unit {0})
unfolding is_seen
check_unique seen [] = ok tt
check_unique seen (t ∷ ts) =
    let rest = check_unique (t.target_id ∷ seen) ts in
    if is_seen t.target_id seen then err (duplicate_target t.target_id) else rest

-- `ControlPolicy(...)`
unfoldable pub control_policy : Bool → List ControlTarget → Result ConfigurationError ControlPolicy
unfolding check_unique
control_policy enabled targets = do
  check_unique [] targets
  ok (record { enabled = enabled; targets = targets })

-- `ControlPolicy.target`
unfoldable pub find_target : Text → List ControlTarget → Option ControlTarget
find_target target_id [] = none
find_target target_id (candidate ∷ ts) =
    if candidate.target_id == target_id then some candidate else find_target target_id ts
