-- ===== src/Provider.antt =====
-- app/stt/providers/clova.py: the call of the speech service and what is made of its answer. The
-- `httpx` client is its outcome; how Python reads the values of a JSON text is a parameter.
pub mod Answers
use onramp_stt_api.Base.{
  ℕ, Bool, true, false, not, ◌&&◌, ◌||◌, Option, none, some, List, [], ◌∷◌, ◌++◌, map, length, leb,
  ◌==◌, Text, codes, eq_text, str_int, strip, join, if◌then◌else◌,
}
use onramp_stt_api.Errors.{Error, Result, ok, err}
use onramp_stt_api.Float.{Float}
use onramp_stt_api.Db.{Segment}
use onramp_stt_api.Clova.{ProviderResult}

-- A JSON value, a number by its literal.
mutual
  pub data Json : Type 0 where
    null : Json
    bool : Bool → Json
    number : Text → Json
    string : Text → Json
    array : Items → Json
    object : Members → Json

  pub data Items : Type 0 where
    end : Items
    item : Json → Items → Items

  -- the members of an object, each key once
  pub data Members : Type 0 where
    close : Members
    member : Text → Json → Members → Members

-- What `float(value)` does: a number, a `TypeError` or `ValueError`, or an `OverflowError`.
pub data Converted (F : Type 0) : Type 0 where
  number : F → Converted F
  rejected : Converted F
  overflow : Converted F

-- Python's `str(value)` of a value that is no text, and whether a number is 0.
pub record Values : Type 0 where
  pub str_of : Json → Text
  pub is_zero : Text → Bool

-- `float(value)` and `x / 1000`
pub record Numbers (F : Type 0) : Type 0 where
  pub float_of : Json → Converted F
  pub over_1000 : F → F

-- The outcome of the request: an exception of `httpx`, or a status with the JSON of the body, `none`
-- for a `ValueError`.
pub data Answer : Type 0 where
  timeout : Answer
  transport_failure : Answer
  raised : Text → Text → Answer
  response : ℕ → Option Json → Answer

abbrev pub members : Json → Members
members (Json.object ms) = ms
members v = Members.close

abbrev pub items : Json → Items
items (Json.array vs) = vs
items v = Items.end

-- `data.get(key)`
unfoldable pub get : Text → Members → Json
get key Members.close = Json.null
get key (Members.member k v ms) = let rest = get key ms in if eq_text k key then v else rest

module _ ⦃py : Values⦄ where
  unfoldable pub is_falsy : Json → Bool
  is_falsy Json.null = true
  is_falsy (Json.bool b) = not b
  is_falsy (Json.number n) = py.is_zero n
  is_falsy (Json.string t) = length t == 0
  is_falsy (Json.array Items.end) = true
  is_falsy (Json.array (Items.item v vs)) = false
  is_falsy (Json.object Members.close) = true
  is_falsy (Json.object (Members.member k v ms)) = false

  -- `str(value)`
  unfoldable pub str : Json → Text
  str (Json.string t) = t
  str v = py.str_of v

  -- `str(a or b or "")`
  unfoldable pub first_text : Json → Json → Text
  unfolding is_falsy str
  first_text a b = if not (is_falsy a) then str a else if not (is_falsy b) then str b else []

  -- `_optional_string`
  unfoldable pub optional_string : Json → Option Text
  unfolding str
  optional_string Json.null = none
  optional_string v = some (str v)

  -- `... or None`
  abbrev pub or_none : Text → Option Text
  or_none [] = none
  or_none (c ∷ s) = some (c ∷ s)

  -- the speaker of an item
  unfoldable pub speaker_of : Json → Option Text
  unfolding first_text optional_string
  speaker_of (Json.object ms) =
      or_none (first_text (get (codes "label") ms) (get (codes "name") ms))
  speaker_of v = optional_string v

  -- the text of an item, which is blank for what is no object
  unfoldable pub text_of : Json → Text
  unfolding first_text
  text_of (Json.object ms) = strip (first_text (get (codes "text") ms) Json.null)
  text_of v = []

module _ {F : Type 0} ⦃nums : Numbers F⦄ where
  -- `_milliseconds_to_seconds`, and its 0.0
  unfoldable pub seconds_of : F → Converted F → Result F
  seconds_of zero_sec (Converted.number x) = ok (nums.over_1000 x)
  seconds_of zero_sec Converted.rejected = ok zero_sec
  seconds_of zero_sec Converted.overflow =
      err (Error.other (codes "OverflowError") (codes "int too large to convert to float"))

  -- `_optional_float`
  unfoldable pub float_or_none : Converted F → Result (Option F)
  float_or_none (Converted.number x) = ok (some x)
  float_or_none Converted.rejected = ok none
  float_or_none Converted.overflow =
      err (Error.other (codes "OverflowError") (codes "int too large to convert to float"))

  unfoldable pub optional_float : Json → Result (Option F)
  unfolding float_or_none
  optional_float Json.null = ok none
  optional_float v = float_or_none (nums.float_of v)

-- `do`, one result after the other
abbrev pub after : {A B : Type 0} → Result A → (A → Result B) → Result B
after (err e) f = err e
after (ok a) f = f a

abbrev pub add_segment :
    {F : Type 0} → Result (Segment F) → Result (List (Segment F)) → Result (List (Segment F))
add_segment (err e) rest = err e
add_segment (ok g) (err e) = err e
add_segment (ok g) (ok gs) = ok (g ∷ gs)

module _ {F : Type 0} ⦃py : Values⦄ where
  unfoldable pub full_text_of : Members → List (Segment F) → Text
  unfolding first_text
  full_text_of payload gs =
      let full_text =
        strip (first_text (get (codes "text") payload) (get (codes "fullText") payload)) in
      if length full_text == 0 then join (codes "\n") (map (λ g. g.text) gs) else full_text

module _ {F : Type 0} ⦃py : Values⦄ ⦃nums : Numbers F⦄ ⦃fl : Float F⦄ where
  -- The segment of an item whose text is not blank.
  unfoldable pub segment_of : Text → Members → Result (Segment F)
  unfolding seconds_of optional_float speaker_of
  segment_of text ms =
      after (seconds_of (fl.of_int 0) (nums.float_of (get (codes "start") ms))) (λ start.
        after (seconds_of (fl.of_int 0) (nums.float_of (get (codes "end") ms))) (λ end.
          after (optional_float (get (codes "confidence") ms)) (λ confidence. ok (record {
            start_time_sec = start;
            end_time_sec = end;
            text = text;
            speaker = speaker_of (get (codes "speaker") ms);
            confidence = confidence;
          }))))

  -- the loop of `_normalize`
  unfoldable pub segments_of : Items → Result (List (Segment F))
  unfolding segment_of text_of
  segments_of Items.end = ok []
  segments_of (Items.item v vs) =
      let rest = segments_of vs in
      let with = add_segment (segment_of (text_of v) (members v)) rest in
      if length (text_of v) == 0 then rest else with

  -- `_normalize`
  unfoldable pub normalize : Members → Result (ProviderResult F)
  unfolding segments_of full_text_of
  normalize payload = after (segments_of (items (get (codes "segments") payload))) (λ gs.
      ok (record {
        provider = codes "clova";
        full_text = full_text_of payload gs;
        segments = gs;
        provider_job_id = optional_string (get (codes "id") payload);
      }))

  -- the body of a response that is no error
  unfoldable pub read_body : Option Json → Result (ProviderResult F)
  unfolding normalize
  read_body none =
      err (Error.provider_error (codes "CLOVA Speech returned invalid JSON.") false none)
  read_body (some (Json.object payload)) = normalize payload
  read_body (some v) =
      err (
        Error.provider_error (codes "CLOVA Speech returned an invalid response object.") false none)

  -- `transcribe`, from the outcome of the request
  unfoldable pub transcribe : Answer → Result (ProviderResult F)
  unfolding read_body
  transcribe Answer.timeout =
      err (Error.provider_error (codes "CLOVA Speech request timed out.") true none)
  transcribe Answer.transport_failure =
      err (Error.provider_error (codes "CLOVA Speech transport failed.") true none)
  transcribe (Answer.raised name text) = err (Error.other name text)
  transcribe (Answer.response status body) =
      let result = read_body body in
      if leb 400 status
      then err (
          Error.provider_error (codes "CLOVA Speech returned HTTP " ++ str_int status ++ codes ".")
            (status == 429 || leb 500 status) (some status))
      else result
