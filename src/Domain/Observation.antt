-- ===== src/Domain/Observation.antt =====
-- What domain.py keeps of the plant's behaviour: measurements, states, events and alerts.
use geopilot_hvac.Prelude.{Option, List, [], ◌∷◌, Text, Result, ok}
use geopilot_hvac.Prelude.Results.{◌>>◌}
use geopilot_hvac.Datetime.{Datetime}
use geopilot_hvac.Domain.{
  DomainError, DataQuality, EquipmentOperationalState, Severity, require_identifier, require_text,
  require_aware_datetime, when_given,
}

pub record Measurement (V : Type 0) : Type 0 where
  pub id : Text
  pub sensor_id : Text
  pub observed_at : Datetime
  pub received_at : Datetime
  pub value : V
  pub unit : Text
  pub quality : DataQuality
  pub source_id : Text

-- `Measurement(...)` with `__post_init__`, on the fields of the call
unfoldable pub measurement : {V : Type 0} → Measurement V → Result DomainError (Measurement V)
measurement m = do
  require_identifier m.id
  require_identifier m.sensor_id
  require_aware_datetime m.observed_at
  require_aware_datetime m.received_at
  require_identifier m.unit
  require_identifier m.source_id
  ok m

pub record EquipmentState : Type 0 where
  pub id : Text
  pub equipment_id : Text
  pub observed_at : Datetime
  pub state : EquipmentOperationalState
  pub source_id : Text
  pub quality : DataQuality

-- `EquipmentState(...)` with `__post_init__`
unfoldable pub equipment_state : EquipmentState → Result DomainError EquipmentState
equipment_state s = do
  require_identifier s.id
  require_identifier s.equipment_id
  require_aware_datetime s.observed_at
  require_identifier s.source_id
  ok s

pub record Event : Type 0 where
  pub id : Text
  pub occurred_at : Datetime
  pub event_type : Text
  pub severity : Severity
  pub message : Text
  pub source_id : Text
  pub equipment_id : Option Text

-- `Event(...)` with `__post_init__`
unfoldable pub event : Event → Result DomainError Event
event e = do
  require_identifier e.id
  require_aware_datetime e.occurred_at
  require_identifier e.event_type
  require_text e.message
  require_identifier e.source_id
  when_given require_identifier e.equipment_id
  ok e

pub record Alert : Type 0 where
  pub id : Text
  pub triggered_at : Datetime
  pub severity : Severity
  pub summary : Text
  pub source_id : Text
  pub cleared_at : Option Datetime
  pub related_measurement_ids : List Text

-- the loop over `related_measurement_ids`
unfoldable pub require_identifiers : List Text → Result DomainError (Unit {0})
require_identifiers [] = ok tt
require_identifiers (id ∷ ids) = do require_identifier id; require_identifiers ids

-- `Alert(...)` with `__post_init__`
unfoldable pub alert : Alert → Result DomainError Alert
alert a = do
  require_identifier a.id
  require_aware_datetime a.triggered_at
  require_text a.summary
  require_identifier a.source_id
  when_given require_aware_datetime a.cleared_at
  require_identifiers a.related_measurement_ids
  ok a
