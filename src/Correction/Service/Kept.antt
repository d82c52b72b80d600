-- ===== src/Correction/Service/Kept.antt =====
-- The text that app/correction/service.py returns, whatever the language model answers, and its
-- segments.
use onramp_stt_api.Base.{
  All, ◌≡◌, ◌⊎◌, inl, inr, refl, Bool, true, false, Option, none, some, List, [], ◌∷◌, map, length,
  ◌==◌, ==_iff, length-map, Text, Unicode, contains, splitlines, if◌then◌else◌, Bool-cases, arith,
}
use onramp_stt_api.Float.{Float}
use onramp_stt_api.Db.{Segment}
use onramp_stt_api.Merger.{RawSegment, or_default, optional_string}
use onramp_stt_api.Validator.{terms_kept, choose-outcome}
use onramp_stt_api.Correction.{elem}
use onramp_stt_api.Correction.Rules
use onramp_stt_api.Correction.Rules.Rewrite.{protected_stand, ReplacedIn, replaced_protected}
use onramp_stt_api.Correction.Service.{
  CorrectionService, with_lines, build_corrected_segments, asked, answered, prompt_for, final_text,
  client_of, correct,
}
use onramp_stt_api.Correction.Audit.{text_of}

-- The final text against the first pass and the raw text, taken or not.
abbrev pub HasSource : Text → Text → Text × Bool → Type 0
HasSource raw first (text, taken) =
    ((taken ≡ false) × (text ≡ first))
    ⊎ ((taken ≡ true) × (length (splitlines text) ≡ length (splitlines raw)))

module _ {F : Type 0} ⦃fl : Float F⦄ where
  answered-contains :
      (s : CorrectionService F) (raw first : Text) (terms : List Text) (answer : Option Text)
      (t : Text)
      → elem t terms ≡ true
      → contains first t ≡ true
      → contains (answered s raw first terms answer).0 t ≡ true
  unfolding answered
  answered-contains s raw first terms none t h k = k
  answered-contains s raw first terms (some candidate) t h k =
      terms_kept raw first candidate terms s.stt_correction_min_response_ratio t h k

  asked-contains :
      (s : CorrectionService F) (raw first : Text) (terms : List Text) (prompt : Text)
      (client : Option (Text → Option Text)) (t : Text)
      → elem t terms ≡ true
      → contains first t ≡ true
      → contains (asked s raw first terms prompt client).0 t ≡ true
  unfolding asked
  asked-contains s raw first terms prompt none t h k = k
  asked-contains s raw first terms prompt (some client) t h k =
      answered-contains s raw first terms (client prompt) t h k

  final-contains :
      ⦃u : Unicode⦄
      → (s : CorrectionService F) (raw : Text) (gs : List (RawSegment F)) (t : Text)
      → elem t (Rules.correct s.term_dictionary raw).protected ≡ true
      → contains (correct s raw gs).corrected_text t ≡ true
  unfolding correct final_text
  final-contains s raw gs t h =
      let r = Rules.correct s.term_dictionary raw in
      asked-contains s raw r.corrected_text r.protected (prompt_for s raw) (client_of s) t h
        (protected_stand s.term_dictionary raw t h)

  -- The match is no replacement, or its canonical form stands in the text.
  abbrev pub Kept : Text → Rules.Match F → Type 0
  Kept text m = (Rules.is_replaced m.action ≡ false) ⊎ (contains text m.term.canonical ≡ true)

  all-Kept :
      (ts : List Text) (text : Text) (ms : List (Rules.Match F))
      → ((t : Text) → elem t ts ≡ true → contains text t ≡ true)
      → All (ReplacedIn ts) ms
      → All (Kept text) ms
  all-Kept ts text [] h a = tt
  all-Kept ts text (m ∷ ms) h (inl kept, a) = (inl kept, all-Kept ts text ms h a)
  all-Kept ts text (m ∷ ms) h (inr here, a) =
      (inr (h m.term.canonical here), all-Kept ts text ms h a)

  -- The canonical form of every match that the rules replace is in the final text, whatever the
  -- language model answers and whether or not it is asked.
  pub final_keeps_terms :
      ⦃u : Unicode⦄
      → (s : CorrectionService F) (raw : Text) (gs : List (RawSegment F))
      → All
          (Kept (correct s raw gs).corrected_text)
          (Rules.correct s.term_dictionary raw).correction_logs
  final_keeps_terms s raw gs =
      all-Kept (Rules.correct s.term_dictionary raw).protected (correct s raw gs).corrected_text
        (Rules.correct s.term_dictionary raw).correction_logs (final-contains s raw gs)
        (replaced_protected s.term_dictionary raw)

  answered-HasSource :
      (s : CorrectionService F) (raw first : Text) (terms : List Text) (answer : Option Text)
      → HasSource raw first (answered s raw first terms answer)
  unfolding answered
  answered-HasSource s raw first terms none = inl (refl, refl)
  answered-HasSource s raw first terms (some candidate) =
      choose-outcome raw first candidate terms s.stt_correction_min_response_ratio

  asked-HasSource :
      (s : CorrectionService F) (raw first : Text) (terms : List Text) (prompt : Text)
      (client : Option (Text → Option Text))
      → HasSource raw first (asked s raw first terms prompt client)
  unfolding asked
  asked-HasSource s raw first terms prompt none = inl (refl, refl)
  asked-HasSource s raw first terms prompt (some client) =
      answered-HasSource s raw first terms (client prompt)

  -- A text that is not the language model's is the rules' text, and one that is has as many lines as
  -- the raw text.
  pub final_text_source :
      ⦃u : Unicode⦄
      → (s : CorrectionService F) (raw : Text) (gs : List (RawSegment F))
      → HasSource raw
          (Rules.correct s.term_dictionary raw).corrected_text
          ((correct s raw gs).corrected_text, (correct s raw gs).llm_applied)
  unfolding correct final_text
  final_text_source s raw gs =
      let r = Rules.correct s.term_dictionary raw in
      asked-HasSource s raw r.corrected_text r.protected (prompt_for s raw) (client_of s)

  -- Times, speaker and confidence of a corrected segment, and what a raw one gives for them.
  abbrev pub shape_of : Segment F → F × F × Option Text × Option F
  shape_of g = (g.start_time_sec, g.end_time_sec, g.speaker, g.confidence)

  abbrev pub raw_shape : RawSegment F → F × F × Option Text × Option F
  raw_shape g = (
    or_default g.start_time_sec (fl.of_int 0),
    or_default g.end_time_sec (fl.of_int 0),
    optional_string g.speaker,
    g.confidence,
  )

  segments-shape :
      (gs : List (RawSegment F)) (lines : List Text)
      → length lines ≡ length gs
      → map (λ g. g.text) (with_lines gs lines) ≡ lines
        × map shape_of (with_lines gs lines) ≡ map raw_shape gs
  unfolding with_lines
  segments-shape [] [] h = (refl, refl)
  segments-shape [] (l ∷ ls) h = absurd (omega (arith, h))
  segments-shape (g ∷ gs) [] h = absurd (omega (arith, h))
  segments-shape (g ∷ gs) (l ∷ ls) h =
      let (a, b) = segments-shape gs ls (omega arith) in (rw a refl, rw b refl)

  -- Each raw segment has one corrected segment, with its times, speaker and confidence. The texts are
  -- the lines of the corrected text if these are as many as the segments, and else the raw texts.
  pub corrected_segments_shape :
      ⦃u : Unicode⦄
      → (s : CorrectionService F) (raw : Text) (gs : List (RawSegment F))
      → map (λ g. g.text) (correct s raw gs).corrected_segments ≡ (
          if length (splitlines (correct s raw gs).corrected_text) == length gs
          then splitlines (correct s raw gs).corrected_text
          else map text_of gs)
        × map shape_of (correct s raw gs).corrected_segments ≡ map raw_shape gs
  unfolding correct build_corrected_segments
  corrected_segments_shape s raw gs =
      let text = (final_text s raw).0 in
      elim (Bool-cases (length (splitlines text) == length gs)) [
        | inl same ↦ rw same (
            segments-shape gs (splitlines text)
              ((==_iff (length (splitlines text)) (length gs)).0 same))
        | inr other ↦ rw other (segments-shape gs (map text_of gs) (length-map text_of gs))
      ]
