-- ===== src/Decoder.antt =====
-- backend/src/geopilot/register_decoder.py: register words become raw measurements.
--
-- `struct.unpack(">f", …)` of two words is a parameter, as are the operations on floats.
pub mod Words
use geopilot_hvac.Prelude.{
  ℕ, ◌≤◌, Bool, not, ◌||◌, List, [], ◌∷◌, ℤ, pos, pos_part, ltb_ℤ, ◌-ℤ◌, leb, eqb, Text, text, ◌==◌,
  is_blank, Result, ok, err, map_err, if◌then◌else◌, length, get_or,
}
use geopilot_hvac.Prelude.Results.{◌>>=◌, ◌>>◌, raise_if}
use geopilot_hvac.Prelude.Numbers.{Numbers}
use geopilot_hvac.Datetime.{Datetime, is_aware}
use geopilot_hvac.Domain.{good}
use geopilot_hvac.Ingestion.{
  IngestionError, RawMeasurement, raw_measurement, MetadataValue, text_value,
}

pub data RegisterDataType : Type 0 where
  uint16 int16 float32 float32_swapped : RegisterDataType

-- `RegisterDecoderError`, by the check that raised it, and what `RawMeasurement` raises
pub data DecoderError : Type 0 where
  blank_identifier blank_text naive_datetime not_finite zero_scale no_words : DecoderError
  word_range register_mismatch word_count : DecoderError
  ingestion_error : IngestionError → DecoderError

pub record RegisterDefinition (V : Type 0) : Type 0 where
  pub register_id : Text
  pub source_id : Text
  pub sensor_id : Text
  pub unit : Text
  pub data_type : RegisterDataType
  pub scale : V
  pub offset : V
  pub source_reference : Text

pub record RegisterPayload : Type 0 where
  pub register_id : Text
  pub words : List ℕ
  pub observed_at : Datetime

-- the loop over the words of a payload
unfoldable pub check_words : List ℤ → Result DecoderError (List ℕ)
check_words [] = ok []
check_words (word ∷ words) = do
  raise_if (ltb_ℤ word (pos 0) || ltb_ℤ (pos 0xffff) word) word_range
  rest ← check_words words
  ok (pos_part word ∷ rest)

abbrev pub is_empty : List ℤ → Bool
is_empty words = eqb (length words) 0

-- `SimulatedRegisterPayload(...)` with `__post_init__`
unfoldable pub register_payload : Text → List ℤ → Datetime → Result DecoderError RegisterPayload
register_payload register_id words observed_at = do
  raise_if (is_blank register_id) blank_identifier
  raise_if (not (is_aware observed_at)) naive_datetime
  raise_if (is_empty words) no_words
  checked ← check_words words
  ok (record { register_id = register_id; words = checked; observed_at = observed_at })

-- `_decode_int16`
unfoldable pub decode_int16 : ℕ → ℤ
decode_int16 word = if leb word 0x7fff then pos word else pos word -ℤ pos 0x10000

-- `_require_word_count`
abbrev pub require_word_count : List ℕ → ℕ → Result DecoderError (Unit {0})
require_word_count words expected = raise_if (not (eqb (length words) expected)) word_count

module _ {V : Type 0} (numbers : Numbers V) (unpack_float : ℕ → ℕ → V) where
  -- `RegisterDefinition(...)` with `__post_init__`, on the fields of the call
  unfoldable pub register_definition :
      RegisterDefinition V → Result DecoderError (RegisterDefinition V)
  register_definition d = do
    raise_if (is_blank d.register_id) blank_identifier
    raise_if (is_blank d.source_id) blank_identifier
    raise_if (is_blank d.sensor_id) blank_identifier
    raise_if (is_blank d.unit) blank_identifier
    raise_if (is_blank d.source_reference) blank_text
    raise_if (not (numbers.is_finite d.scale)) not_finite
    raise_if (not (numbers.is_finite d.offset)) not_finite
    raise_if (numbers.same d.scale (numbers.of_int (pos 0))) zero_scale
    ok d

  -- `_decode_float32`
  unfoldable pub decode_float32 : ℕ → ℕ → Result DecoderError V
  decode_float32 high low = do
    raise_if (not (numbers.is_finite (unpack_float high low))) not_finite
    ok (unpack_float high low)

  -- `decode_words`
  unfoldable pub decode_words : List ℕ → RegisterDataType → Result DecoderError V
  decode_words words uint16 = do
    require_word_count words 1
    ok (numbers.of_int (pos (get_or words 0 0)))
  decode_words words int16 = do
    require_word_count words 1
    ok (numbers.of_int (decode_int16 (get_or words 0 0)))
  decode_words words float32 = do
    require_word_count words 2
    decode_float32 (get_or words 0 0) (get_or words 1 0)
  decode_words words float32_swapped = do
    require_word_count words 2
    decode_float32 (get_or words 1 0) (get_or words 0 0)

  -- `RegisterDecoder.decode`
  unfoldable pub decode :
      RegisterDefinition V → RegisterPayload → Result DecoderError (RawMeasurement V)
  decode d payload = do
    raise_if (not (payload.register_id == d.register_id)) register_mismatch
    raw_value ← decode_words payload.words d.data_type
    map_err ingestion_error (
        raw_measurement numbers (record {
          source_id = d.source_id;
          sensor_id = d.sensor_id;
          value = numbers.plus (numbers.times raw_value d.scale) d.offset;
          unit = d.unit;
          timestamp = payload.observed_at;
          quality = good;
          metadata =
              (text "register_id", text_value d.register_id)
              ∷ (text "source_reference", text_value d.source_reference)
              ∷ [];
        }))
