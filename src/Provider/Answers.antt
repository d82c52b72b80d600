-- ===== src/Provider/Answers.antt =====
-- What app/stt/providers/clova.py makes of an answer: which failures are tried again, and the
-- segments of a success.
use mathlib.Core.Path.{subst}
use mathlib.Core.List.{append_assoc}
use onramp_stt_api.Base.{
  ◌⊎◌, ◌≡◌, inl, inr, refl, ◌∙◌, Bool, true, false, ◌||◌, Option, none, some, List, [], ◌∷◌, ◌++◌,
  map, All, length, length-append, leb, ◌==◌, Text, codes, strip, join, empty-strip-strip,
  Bool-cases, arith,
}
use onramp_stt_api.Float.{Float}
use onramp_stt_api.Errors.{Error, Result, ok, err, retryable}
use onramp_stt_api.Db.{Segment}
use onramp_stt_api.Clova.{ProviderResult}
use onramp_stt_api.Provider.{
  first_text, Json, Items, Members, Values, Numbers, Converted, Answer, get, items, members,
  text_of, seconds_of, float_or_none, optional_float, segment_of, add_segment, segments_of,
  full_text_of, normalize, read_body, transcribe, after,
}

-- The failures after which the same request may succeed: no answer in time, a broken transport, too
-- many requests, or an error of the server.
abbrev pub is_transient : Answer → Bool
is_transient Answer.timeout = true
is_transient Answer.transport_failure = true
is_transient (Answer.raised name text) = false
is_transient (Answer.response status body) = status == 429 || leb 500 status

-- What holds of a result: a property of the value, or a mark of the error.
abbrev Gives : {A : Type 0} → (A → Type 0) → Bool → Result A → Type 0
Gives P transient (ok a) = P a
Gives P transient (err e) = retryable e ≡ transient

after-Gives :
    {A B : Type 0} (P : A → Type 0) (Q : B → Type 0) (t : Bool) (r : Result A) (f : A → Result B)
    → Gives P t r
    → ((a : A) → P a → Gives Q t (f a))
    → Gives Q t (after r f)
after-Gives P Q t (ok a) f h k = k a h
after-Gives P Q t (err e) f h k = h

abbrev Anything : {A : Type 0} → A → Type 0
Anything a = Unit

text_of-strip :
    ⦃py : Values⦄ → (v : Json) → (length (strip (text_of v)) == 0) ≡ (length (text_of v) == 0)
unfolding text_of strip
text_of-strip Json.null = refl
text_of-strip (Json.bool b) = refl
text_of-strip (Json.number n) = refl
text_of-strip (Json.string t) = refl
text_of-strip (Json.array vs) = refl
text_of-strip (Json.object ms) = empty-strip-strip (first_text (get (codes "text") ms) Json.null)

join-not_empty :
    (sep p : Text) (ps : List Text)
    → (length p == 0) ≡ false
    → (length (join sep (p ∷ ps)) == 0) ≡ false
unfolding join
join-not_empty sep p [] h = h
join-not_empty sep p (q ∷ ps) h =
    rw (append_assoc p sep (join sep (q ∷ ps)))
      (ground (arith, length-append p (sep ++ join sep (q ∷ ps))))

module _ {F : Type 0} where
  -- The text is not blank.
  abbrev HasText : Segment F → Type 0
  HasText g = ((length g.text == 0) ≡ false) × ((length (strip g.text) == 0) ≡ false)

  add_segment-Gives :
      (r : Result (Segment F)) (rest : Result (List (Segment F)))
      → Gives HasText false r
      → Gives (All HasText) false rest
      → Gives (All HasText) false (add_segment r rest)
  add_segment-Gives (err e) rest h k = h
  add_segment-Gives (ok g) (err e) h k = k
  add_segment-Gives (ok g) (ok gs) h k = (h, k)

  full_text_of-not_empty :
      ⦃py : Values⦄
      → (payload : Members) (gs : List (Segment F)) → All HasText gs
      → (gs ≡ []) ⊎ ((length (full_text_of payload gs) == 0) ≡ false)
  unfolding full_text_of
  full_text_of-not_empty payload [] h = inl refl
  full_text_of-not_empty payload (g ∷ gs) h =
      let full = strip (first_text (get (codes "text") payload) (get (codes "fullText") payload)) in
      inr (elim (Bool-cases (length full == 0)) [
        | inr there ↦ rw (there, there) refl
        | inl empty ↦ rw empty (join-not_empty (codes "\n") g.text (map (λ g. g.text) gs) h.0.0)
      ])

module _ (F : Type 0) ⦃nums : Numbers F⦄ where
  seconds_of-Gives : (d : F) (c : Converted F) → Gives Anything false (seconds_of d c)
  unfolding seconds_of retryable
  seconds_of-Gives d (Converted.number x) = tt
  seconds_of-Gives d Converted.rejected = tt
  seconds_of-Gives d Converted.overflow = refl

  float_or_none-Gives : (c : Converted F) → Gives Anything false (float_or_none c)
  unfolding float_or_none retryable
  float_or_none-Gives (Converted.number x) = tt
  float_or_none-Gives Converted.rejected = tt
  float_or_none-Gives Converted.overflow = refl

  optional_float-Gives : (v : Json) → Gives Anything false (optional_float {F = F} v)
  unfolding optional_float
  optional_float-Gives Json.null = tt
  optional_float-Gives (Json.bool b) = float_or_none-Gives (nums.float_of (Json.bool b))
  optional_float-Gives (Json.number n) = float_or_none-Gives (nums.float_of (Json.number n))
  optional_float-Gives (Json.string t) = float_or_none-Gives (nums.float_of (Json.string t))
  optional_float-Gives (Json.array vs) = float_or_none-Gives (nums.float_of (Json.array vs))
  optional_float-Gives (Json.object ms) = float_or_none-Gives (nums.float_of (Json.object ms))

module _ (F : Type 0) ⦃py : Values⦄ ⦃nums : Numbers F⦄ ⦃fl : Float F⦄ where
  segment_of-Gives :
      (text : Text) (ms : Members)
      → (length text == 0) ≡ false
      → (length (strip text) == 0) ≡ false
      → Gives (HasText {F = F}) false (segment_of text ms)
  unfolding segment_of
  segment_of-Gives text ms full kept =
      after-Gives Anything HasText false
        (seconds_of (fl.of_int 0) (nums.float_of (get (codes "start") ms))) _
        (seconds_of-Gives F (fl.of_int 0) (nums.float_of (get (codes "start") ms)))
        (λ start u.
          after-Gives Anything HasText false
            (seconds_of (fl.of_int 0) (nums.float_of (get (codes "end") ms))) _
            (seconds_of-Gives F (fl.of_int 0) (nums.float_of (get (codes "end") ms)))
            (λ end v.
              after-Gives Anything HasText false (optional_float (get (codes "confidence") ms)) _
                (optional_float-Gives F (get (codes "confidence") ms))
                (λ confidence w. (full, kept))))

  segments_of-Gives : (vs : Items) → Gives (All (HasText {F = F})) false (segments_of vs)
  unfolding segments_of
  segments_of-Gives Items.end = tt
  segments_of-Gives (Items.item v vs) = elim (Bool-cases (length (text_of v) == 0)) [
    | inl blank ↦ rw blank (segments_of-Gives vs)
    | inr full ↦ rw full (
        add_segment-Gives (segment_of (text_of v) (members v)) (segments_of vs)
          (segment_of-Gives (text_of v) (members v) full (text_of-strip v ∙ full))
          (segments_of-Gives vs))
  ]

  -- segments with a text, and a full text if there are any
  abbrev pub IsFilled : ProviderResult F → Type 0
  IsFilled r = All HasText r.segments × ((r.segments ≡ []) ⊎ ((length r.full_text == 0) ≡ false))

  read_body-Gives : (body : Option Json) → Gives IsFilled false (read_body body)
  unfolding read_body normalize retryable
  read_body-Gives none = refl
  read_body-Gives (some Json.null) = refl
  read_body-Gives (some (Json.bool b)) = refl
  read_body-Gives (some (Json.number n)) = refl
  read_body-Gives (some (Json.string t)) = refl
  read_body-Gives (some (Json.array vs)) = refl
  read_body-Gives (some (Json.object payload)) =
      let vs = items (get (codes "segments") payload) in
      after-Gives (All HasText) IsFilled false (segments_of vs) _ (segments_of-Gives vs)
        (λ gs h. (h, full_text_of-not_empty payload gs h))

  transcribe-Gives : (answer : Answer) → Gives IsFilled (is_transient answer) (transcribe answer)
  unfolding transcribe retryable
  transcribe-Gives Answer.timeout = refl
  transcribe-Gives Answer.transport_failure = refl
  transcribe-Gives (Answer.raised name text) = refl
  transcribe-Gives (Answer.response status body) = elim (Bool-cases (leb 400 status)) [
    | inl failed ↦ rw failed refl
    | inr fine ↦
        let low : is_transient (Answer.response status body) ≡ false = ground arith in
        rw (fine, low) (read_body-Gives body)
  ]

  -- A failure of `transcribe` is marked to be tried again exactly if it is transient: no answer in
  -- time, a broken transport, status 429, or a status of 500 or more.
  pub retryable_answers :
      (answer : Answer) {e : Error}
      → transcribe {F = F} answer ≡ err e
      → retryable e ≡ is_transient answer
  retryable_answers answer {e} h =
      subst (λ r. Gives IsFilled (is_transient answer) r) h (transcribe-Gives answer)

  -- Every segment of a success has a text that is neither empty nor blank, and the full text is empty
  -- only if there are no segments.
  pub transcribed_texts :
      (answer : Answer) {r : ProviderResult F}
      → transcribe answer ≡ ok r
      → All HasText r.segments × ((r.segments ≡ []) ⊎ ((length r.full_text == 0) ≡ false))
  transcribed_texts answer {r} h =
      subst (λ r. Gives IsFilled (is_transient answer) r) h (transcribe-Gives answer)
