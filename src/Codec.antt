-- ===== src/Codec.antt =====
-- `encode_envelope` and `decode_envelope` of app/queue/events.py: an envelope as the string fields
-- of a Redis stream entry. JSON is a parameter, with the law that what was dumped is loaded back.
use onramp_stt_api.Base.{
  ◌≡◌, refl, Bool, true, Option, none, some, List, [], ◌∷◌, Text, codes, eq_text, if◌then◌else◌,
}
use onramp_stt_api.Errors.{Error, Result, ok, err}

-- `json.dumps` and `json.loads`
pub record Json (P : Type 0) : Type 0 where
  pub dumps : P → Text
  pub loads : Text → Result P
  pub loads-dumps : (p : P) → loads (dumps p) ≡ ok p

-- `StreamEnvelope`
pub record StreamEnvelope (P : Type 0) : Type 0 where
  pub event_id : Text
  pub event_type : Text
  pub schema_version : Text
  pub payload : P

-- `fields.get(key)`
unfoldable pub get : Text → List (Text × Text) → Option Text
get key [] = none
get key ((k, v) ∷ fields) = let rest = get key fields in if eq_text k key then some v else rest

abbrev key_error : Text → Error
key_error key = Error.other (codes "KeyError") key

-- `fields[key]`, and what is made of it
abbrev with_field : {A : Type 0} → Option Text → Text → (Text → Result A) → Result A
with_field none key f = err (key_error key)
with_field (some v) key f = f v

abbrev version_or : Option Text → Text
version_or none = codes "1.0"
version_or (some v) = v

abbrev with_payload : {P A : Type 0} → Result P → (P → Result A) → Result A
with_payload (ok p) f = f p
with_payload (err x) f = err x

-- The only version that `schema_version` allows.
abbrev pub is_version_1 : Text → Bool
is_version_1 v = eq_text v (codes "1.0")

-- The validation by the model: any other version is refused.
abbrev validated : {P : Type 0} → StreamEnvelope P → Result (StreamEnvelope P)
validated env =
    if is_version_1 env.schema_version
    then ok env
    else err (Error.other (codes "ValidationError") [])

module _ {P : Type 0} ⦃json : Json P⦄ where
  -- `encode_envelope`
  unfoldable pub encode_envelope : StreamEnvelope P → List (Text × Text)
  encode_envelope env =
      (codes "event_id", env.event_id)
      ∷ (codes "event_type", env.event_type)
      ∷ (codes "schema_version", env.schema_version)
      ∷ (codes "payload", json.dumps env.payload)
      ∷ []

  -- `decode_envelope`
  unfoldable pub decode_envelope : List (Text × Text) → Result (StreamEnvelope P)
  unfolding get
  decode_envelope fields = with_field (get (codes "event_id") fields) (codes "event_id") λ id.
      with_field (get (codes "event_type") fields) (codes "event_type") λ kind.
        with_field (get (codes "payload") fields) (codes "payload") λ text.
          with_payload (json.loads text) λ p. validated (record {
            event_id = id;
            event_type = kind;
            schema_version = version_or (get (codes "schema_version") fields);
            payload = p;
          })

  -- An envelope of the one schema version is decoded as it was encoded.
  pub decode-encode :
      (env : StreamEnvelope P)
      → is_version_1 env.schema_version ≡ true
      → decode_envelope (encode_envelope env) ≡ ok env
  unfolding decode_envelope encode_envelope eq_text get
  decode-encode env h = rw (h, json.loads-dumps env.payload) refl
