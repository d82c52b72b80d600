-- ===== src/Correction/Service.antt =====
-- app/correction/service.py: the rules correct a text, a language model may better it, and the
-- result is cut into segments, logs and candidates for a review. `hashlib` is a parameter.
pub mod Kept
pub mod Places
pub mod Logs
pub mod Reviews
use onramp_stt_api.Base.{
  ℕ, ◌+◌, ◌-◌, Bool, true, false, not, ◌&&◌, Option, none, some, List, [], ◌∷◌, ◌++◌, map,
  get_elem?, take, drop, select, length, ltb, ◌==◌, Text, codes, eq_text, Unicode, strip, join,
  contains, splitlines, if◌then◌else◌,
}
use onramp_stt_api.Float.{Float}
use onramp_stt_api.Db.{Segment, ReviewCandidate}
use onramp_stt_api.Merger.{RawSegment, or_default, optional_string}
use onramp_stt_api.Validator.{choose_validated_output}
use onramp_stt_api.CorrectionWorker.{CorrectionAuditLog, CorrectionResult}
use onramp_stt_api.Correction.{DomainTerm, TermDictionary, term_by_id}
use onramp_stt_api.Correction.Rules.{Action, Match, UnmatchedCandidate}
use onramp_stt_api.Correction.Rules
use onramp_stt_api.Correction.Glossary.{build_glossary_entries}
use onramp_stt_api.Correction.Lines.{line_ranges, segment_index_for_range}
use onramp_stt_api.Correction.Audit.{
  add_candidate, add_log, after_colon, audit_log, build_correction_logs, build_review_candidates,
  canonical_or, context_evidence, decision_of, has_canonical, placed, review_candidate, segment_at,
  text_of,
}
use onramp_stt_api.Correction.Prompt.{prompt_version_name, build_correction_prompt, complete}

-- `CorrectionService` with the settings that it reads; a client's `none` is an exception.
pub record CorrectionService (F : Type 0) : Type 0 where
  pub stt_correction_enable_llm : Bool
  pub stt_correction_glossary_max_items : ℕ
  pub stt_correction_min_response_ratio : F
  pub openai_api_key : Text
  pub term_dictionary : TermDictionary F
  pub llm_client : Option (Text → Option Text)
  pub responses : Text → Text → Option Text
  pub sha256 : Text → Text

module _ {F : Type 0} where
  -- the client that `correct` asks, if any
  unfoldable pub client_of : CorrectionService F → Option (Text → Option Text)
  unfolding complete
  client_of s =
      if s.stt_correction_enable_llm
      then elim s.llm_client [
        | some client ↦ some client
        | none ↦
            if not (length s.openai_api_key == 0)
            then some (complete s.responses s.openai_api_key)
            else none
      ]
      else none

module _ {F : Type 0} ⦃fl : Float F⦄ where
  -- One segment for each line.
  unfoldable pub with_lines : List (RawSegment F) → List Text → List (Segment F)
  with_lines [] lines = []
  with_lines (g ∷ gs) [] = []
  with_lines (g ∷ gs) (line ∷ lines) =
      record {
        start_time_sec = or_default g.start_time_sec (fl.of_int 0);
        end_time_sec = or_default g.end_time_sec (fl.of_int 0);
        text = line;
        speaker = optional_string g.speaker;
        confidence = g.confidence;
      }
      ∷ with_lines gs lines

  -- `_build_corrected_segments`
  unfoldable pub build_corrected_segments : List (RawSegment F) → Text → List (Segment F)
  unfolding with_lines
  build_corrected_segments raw_segments corrected_text =
      let corrected_lines = splitlines corrected_text in
      with_lines raw_segments (
        if not (length corrected_lines == length raw_segments)
        then map text_of raw_segments
        else corrected_lines)

  -- The final text and whether the language model's is taken: an exception leaves the first pass.
  unfoldable pub answered :
      CorrectionService F → Text → Text → List Text → Option Text → Text × Bool
  answered s raw_text first_pass terms none = (first_pass, false)
  answered s raw_text first_pass terms (some candidate) =
      choose_validated_output raw_text first_pass candidate terms
        s.stt_correction_min_response_ratio

  unfoldable pub asked :
      CorrectionService F
      → Text
      → Text
      → List Text
      → Text
      → Option (Text → Option Text)
      → Text × Bool
  unfolding answered
  asked s raw_text first_pass terms prompt none = (first_pass, false)
  asked s raw_text first_pass terms prompt (some client) =
      answered s raw_text first_pass terms (client prompt)

  unfoldable pub prompt_for : ⦃u : Unicode⦄ → CorrectionService F → Text → Text
  prompt_for s raw_text =
      let rule_result = Rules.correct s.term_dictionary raw_text in
      let glossary_entries =
        build_glossary_entries raw_text s.term_dictionary
          (map (λ m. m.term.term_id) rule_result.correction_logs)
          s.stt_correction_glossary_max_items in
      build_correction_prompt raw_text rule_result.corrected_text glossary_entries
        rule_result.unmatched_candidates

  unfoldable pub final_text : ⦃u : Unicode⦄ → CorrectionService F → Text → Text × Bool
  unfolding asked client_of prompt_for
  final_text s raw_text =
      let rule_result = Rules.correct s.term_dictionary raw_text in
      asked s raw_text rule_result.corrected_text rule_result.protected (prompt_for s raw_text)
        (client_of s)

  -- `CorrectionService.correct`
  unfoldable pub correct :
      ⦃u : Unicode⦄ → CorrectionService F → Text → List (RawSegment F) → CorrectionResult F
  unfolding final_text build_corrected_segments build_correction_logs build_review_candidates
  correct s raw_text raw_segments =
      let rule_result = Rules.correct s.term_dictionary raw_text in
      let (text, llm_applied) = final_text s raw_text in
      record {
        dictionary_version = s.term_dictionary.version;
        raw_text_sha256 = s.sha256 raw_text;
        corrected_text = text;
        corrected_segments = build_corrected_segments raw_segments text;
        corrected_text_sha256 = s.sha256 text;
        correction_logs =
            build_correction_logs s.term_dictionary raw_text text raw_segments llm_applied
              rule_result.correction_logs;
        review_candidates =
            build_review_candidates s.term_dictionary raw_text raw_segments
              rule_result.unmatched_candidates;
        prompt_version = prompt_version_name;
        llm_applied = llm_applied;
      }
