-- ===== src/Decoder/Words.antt =====
-- What words decode to.
use geopilot_hvac.Prelude.{
  ℕ, is_blank, List, ap₂, map, subst, ◌||◌, ltb_ℤ, pos_part, eqb, length, Text, ◌∙◌, ◌<◌, ◌-◌, ◌≡◌,
  ◌∷◌, [], refl, arith, Bool, not, true, false, ℤ, pos, negsuc, ◌≤ℤ◌, ◌-ℤ◌, eq_iff, ok,
}
use geopilot_hvac.Datetime.{Datetime, is_aware}
use geopilot_hvac.Prelude.Results.{ok_cancel, then_ok, map_err_ok, raise_if_ok}
use geopilot_hvac.Prelude.Numbers.{Numbers}
use geopilot_hvac.Ingestion.{text_value, RawMeasurement, raw_measurement}
use geopilot_hvac.Decoder.{
  ingestion_error, blank_identifier, naive_datetime, no_words, is_empty, uint16, int16, float32,
  float32_swapped, DecoderError, RegisterDataType, check_words, register_payload, decode_float32,
  RegisterDefinition, RegisterPayload, decode_int16, decode_words, decode,
}
use geopilot_hvac.Prelude.{ap}
use geopilot_hvac.Prelude.{sym}
use geopilot_hvac.Prelude.Strings.{text}

-- the word that a register holds for a signed number, in two's complement
abbrev pub encode_int16 : ℤ → ℕ
encode_int16 (pos n) = n
encode_int16 (negsuc n) = 65535 - n

-- A 16-bit word decodes to a number from -32768 to 32767, and that number's two's complement is
-- the word.
pub decode_int16-encode :
    (word : ℕ)
    → word < 65536
    → (negsuc 32767 ≤ℤ decode_int16 word)
      × (decode_int16 word ≤ℤ pos 32767)
      × (encode_int16 (decode_int16 word) ≡ word)
unfolding decode_int16 ◌-ℤ◌
decode_int16-encode word h = ground arith

not-false : (b : Bool) → not b ≡ false → b ≡ true
not-false true h = refl
not-false false h = cc h

raw_measurement_same :
    {V : Type 0} (numbers : Numbers V) (raw : RawMeasurement V) {other : RawMeasurement V}
    → raw_measurement numbers raw ≡ ok other
    → raw ≡ other
unfolding raw_measurement
raw_measurement_same numbers raw h = ground arith

abbrev pub AreWords : List ℕ → Type 0
AreWords [] = Unit
AreWords (w ∷ ws) = (w < 65536) × AreWords ws

check_words_cons :
    (z : ℤ)
    → (ltb_ℤ z (pos 0) || ltb_ℤ (pos 0xffff) z) ≡ false
    → (z ≡ pos (pos_part z)) × (pos_part z < 65536)
check_words_cons (pos n) h = (refl, ground arith)
check_words_cons (negsuc n) h = absurd (ground arith)

-- the words of a payload are the numbers that it was made of
check_words_ok :
    (zs : List ℤ) {ws : List ℕ} → check_words zs ≡ ok ws → (zs ≡ map pos ws) × AreWords ws
unfolding check_words
check_words_ok [] {ws = []} h = (refl, tt)
check_words_ok [] {ws = w ∷ ws} h = cc h
check_words_ok (z ∷ zs) {ws} h =
    let (range, rest) = raise_if_ok _ _ _ h in
    let (checked, e, last) = then_ok _ (check_words zs) rest in
    let (same, small) = check_words_cons z range in
    let (tail, all) = check_words_ok zs e in
    let whole : pos_part z ∷ checked ≡ ws = ok_cancel {E = DecoderError} last in
    subst (λ ws. (z ∷ zs ≡ map pos ws) × AreWords ws) whole
      (ap₂ (λ x xs. x ∷ xs) same tail, (small, all))

one_word : (ws : List ℕ) → not (eqb (length ws) 1) ≡ false → (w : ℕ) × (ws ≡ w ∷ [])
one_word [] h = cc h
one_word (w ∷ []) h = (w, refl)
one_word (w ∷ x ∷ ws) h = absurd (ground arith)

two_words : (ws : List ℕ) → not (eqb (length ws) 2) ≡ false → (v w : ℕ) × (ws ≡ v ∷ w ∷ [])
two_words [] h = cc h
two_words (v ∷ []) h = cc h
two_words (v ∷ w ∷ []) h = (v, w, refl)
two_words (v ∷ w ∷ x ∷ ws) h = absurd (ground arith)

module _ {V : Type 0} (numbers : Numbers V) (unpack_float : ℕ → ℕ → V) where
  -- The value that register words have by their type.
  abbrev pub IsValueOf : List ℤ → RegisterDataType → V → Type 0
  IsValueOf words uint16 value =
      (n : ℕ) × (words ≡ pos n ∷ []) × (n < 65536) × (value ≡ numbers.of_int (pos n))
  IsValueOf words int16 value =
      (n : ℤ) × (words ≡ pos (encode_int16 n) ∷ [])
      × (negsuc 32767 ≤ℤ n)
      × (n ≤ℤ pos 32767)
      × (value ≡ numbers.of_int n)
  IsValueOf words float32 value =
      (high low : ℕ) × (words ≡ pos high ∷ pos low ∷ [])
      × (value ≡ unpack_float high low)
      × (numbers.is_finite value ≡ true)
  IsValueOf words float32_swapped value =
      (high low : ℕ) × (words ≡ pos low ∷ pos high ∷ [])
      × (value ≡ unpack_float high low)
      × (numbers.is_finite value ≡ true)

  decode_float32_ok :
      (high low : ℕ) {value : V}
      → decode_float32 numbers unpack_float high low ≡ ok value
      → (value ≡ unpack_float high low) × (numbers.is_finite value ≡ true)
  unfolding decode_float32
  decode_float32_ok high low h =
      let (finite, last) = raise_if_ok _ _ _ h in
      let same = ok_cancel {E = DecoderError} last in
      (sym same, ap numbers.is_finite (sym same) ∙ not-false _ finite)

  decode_words-IsValueOf :
      (type : RegisterDataType) (ws : List ℕ) {value : V}
      → AreWords ws
      → decode_words numbers unpack_float ws type ≡ ok value
      → IsValueOf (map pos ws) type value
  unfolding decode_words
  decode_words-IsValueOf uint16 ws all h =
      let (size, last) = raise_if_ok _ _ _ h in
      let (w, e) = one_word ws size in
      (w, rw e refl, (rw e at all).0, sym (ok_cancel {E = DecoderError} (rw e at last)))
  decode_words-IsValueOf int16 ws all h =
      let (size, last) = raise_if_ok _ _ _ h in
      let (w, e) = one_word ws size in
      let (low, high, code) = decode_int16-encode w (rw e at all).0 in
      (
        decode_int16 w,
        rw (e, code) refl,
        low,
        high,
        sym (ok_cancel {E = DecoderError} (rw e at last)),
      )
  decode_words-IsValueOf float32 ws all h =
      let (size, last) = raise_if_ok _ _ _ h in
      let (v, w, e) = two_words ws size in
      let (same, finite) = decode_float32_ok v w (rw e at last) in (v, w, rw e refl, same, finite)
  decode_words-IsValueOf float32_swapped ws all h =
      let (size, last) = raise_if_ok _ _ _ h in
      let (v, w, e) = two_words ws size in
      let (same, finite) = decode_float32_ok w v (rw e at last) in (w, v, rw e refl, same, finite)

  -- the steps of a decode that returns
  pub decode_fields :
      (d : RegisterDefinition V) (payload : RegisterPayload) (raw : RawMeasurement V)
      → decode numbers unpack_float d payload ≡ ok raw
      → (value : V) × (decode_words numbers unpack_float payload.words d.data_type ≡ ok value)
        × (raw.value ≡ numbers.plus (numbers.times value d.scale) d.offset)
        × (payload.register_id ≡ d.register_id)
        × (raw.source_id ≡ d.source_id)
        × (raw.sensor_id ≡ d.sensor_id)
        × (raw.unit ≡ d.unit)
        × (raw.timestamp ≡ payload.observed_at)
  unfolding decode
  decode_fields d payload raw h =
      let (mine, rest) = raise_if_ok _ _ _ h in
      let (value, e, last) =
        then_ok _ (decode_words numbers unpack_float payload.words d.data_type) rest in
      let same = raw_measurement_same numbers _ (map_err_ok ingestion_error _ last) in
      (
        value,
        e,
        ap (λ (r : RawMeasurement V). r.value) (sym same),
        (eq_iff _ _).0 (not-false _ mine),
        ap (λ (r : RawMeasurement V). r.source_id) (sym same),
        ap (λ (r : RawMeasurement V). r.sensor_id) (sym same),
        ap (λ (r : RawMeasurement V). r.unit) (sym same),
        ap (λ (r : RawMeasurement V). r.timestamp) (sym same),
      )

  payload_words :
      (id : Text) (words : List ℤ) (at : Datetime) {payload : RegisterPayload}
      → register_payload id words at ≡ ok payload
      → (words ≡ map pos payload.words)
        × AreWords payload.words
        × (payload.register_id ≡ id)
        × (payload.observed_at ≡ at)
  unfolding register_payload
  payload_words id words at h =
      let (_, h) = raise_if_ok (is_blank id) blank_identifier _ h in
      let (_, h) = raise_if_ok (not (is_aware at)) naive_datetime _ h in
      let (_, h) = raise_if_ok (is_empty words) no_words _ h in
      let (checked, e, last) =
        then_ok {E = DecoderError}
          (λ ws. ok (record { register_id = id; words = ws; observed_at = at })) (check_words words)
          h in
      let (same, all) = check_words_ok words e in
      subst
        (λ (p : RegisterPayload).
          (words ≡ map pos p.words)
          × AreWords p.words
          × (p.register_id ≡ id)
          × (p.observed_at ≡ at))
        (ok_cancel {E = DecoderError} last) (same, all, refl, refl)

  -- A raw measurement that is decoded of a payload made of an id, words and a time is of the
  -- definition's register, with the definition's source, sensor and unit and the payload's time,
  -- and its value is that of the words, times the scale, plus the offset; the words are one word
  -- that is the number (uint16), one word that is the two's complement of a number from -32768 to
  -- 32767 (int16), or two whose float is finite, the high word first (float32) or last
  -- (float32_swapped).
  pub decode_ok :
      (d : RegisterDefinition V) (id : Text) (words : List ℤ) (at : Datetime)
      (payload : RegisterPayload) (raw : RawMeasurement V)
      → register_payload id words at ≡ ok payload
      → decode numbers unpack_float d payload ≡ ok raw
      → (value : V) × IsValueOf words d.data_type value
        × (raw.value ≡ numbers.plus (numbers.times value d.scale) d.offset)
        × (d.register_id ≡ id)
        × (raw.source_id ≡ d.source_id)
        × (raw.sensor_id ≡ d.sensor_id)
        × (raw.unit ≡ d.unit)
        × (raw.timestamp ≡ at)
  decode_ok d id words at payload raw made h =
      let (same, all, named, seen) = payload_words id words at made in
      let (value, e, result, mine, source, sensor, unit, time) = decode_fields d payload raw h in
      (
        value,
        subst (λ ws. IsValueOf ws d.data_type value) (sym same)
            (decode_words-IsValueOf d.data_type payload.words all e),
        result,
        sym mine ∙ named,
        source,
        sensor,
        unit,
        time ∙ seen,
      )

  -- The metadata of a raw measurement that is decoded name the definition.
  pub decode_metadata :
      (d : RegisterDefinition V) (payload : RegisterPayload) (raw : RawMeasurement V)
      → decode numbers unpack_float d payload ≡ ok raw
      → raw.metadata
        ≡ (text "register_id", text_value d.register_id)
          ∷ (text "source_reference", text_value d.source_reference)
          ∷ []
  unfolding decode
  decode_metadata d payload raw h =
      let (mine, rest) = raise_if_ok _ _ _ h in
      let (value, e, last) =
        then_ok _ (decode_words numbers unpack_float payload.words d.data_type) rest in
      ap (λ (r : RawMeasurement V). r.metadata)
        (sym (raw_measurement_same numbers _ (map_err_ok ingestion_error _ last)))
