-- ===== src/Tests/Correction.antt =====
-- app/correction on a small dictionary: the rules, the service with a model that answers, the glossary
-- and the upkeep of the dictionary.
use onramp_stt_api.Base.{
  ℕ, ◌≤◌, ◌<◌, arith, strip, find_row, ◌≡◌, refl, true, none, some, List, [], ◌∷◌, map, All, length,
  Text, codes, eq_text, contains, splitlines, splitlines_keepends, ◌==◌, if◌then◌else◌,
}
use onramp_stt_api.Merger.{RawSegment}
use onramp_stt_api.Validator.{choose_validated_output}
use onramp_stt_api.Correction.{DomainTerm, TermDictionary, iter_matchable_terms, term_by_id}
use onramp_stt_api.Correction.Rules
use onramp_stt_api.Correction.Rules.Select.{IsCut, Apart}
use onramp_stt_api.Correction.Rules.Rewrite.{Rewrites, correct-Rewrites}
use onramp_stt_api.Correction.Glossary.{build_glossary_entries}
use onramp_stt_api.Correction.Glossary.Distinct.{Distinct, glossary_bounded}
use onramp_stt_api.Correction.Lines.{
  line_ranges, segment_index_for_range, HasPosition, position_in_line,
}
use onramp_stt_api.Correction.Service.{CorrectionService, correct}
use onramp_stt_api.Correction.Audit.{text_of}
use onramp_stt_api.Correction.Service.Kept.{
  HasSource, shape_of, raw_shape, Kept, final_keeps_terms, final_text_source,
  corrected_segments_shape,
}
use onramp_stt_api.Correction.Service.Logs.{IsLog, logs_of_segments}
use onramp_stt_api.Correction.Service.Reviews.{IsReview, reviews_name_terms}
use onramp_stt_api.Tests.Scenario.{float, unicode}

abbrev kube : DomainTerm ℕ
kube = record {
  term_id = codes "K8S_001";
  canonical = codes "Kube";
  category = codes "kubernetes";
  aliases = [];
  stt_variants = codes "cube" ∷ [];
  description = [];
  source = codes "manual";
  confidence = 900_000;
  replace_policy = codes "safe";
  source_url = none;
  context_keywords = [];
}

abbrev pod : DomainTerm ℕ
pod = record {
  term_id = codes "K8S_002";
  canonical = codes "Pod";
  category = codes "kubernetes";
  aliases = [];
  stt_variants = codes "pot" ∷ [];
  description = [];
  source = codes "manual";
  confidence = 900_000;
  replace_policy = codes "context_required";
  source_url = none;
  context_keywords = codes "node" ∷ [];
}

abbrev dictionary : TermDictionary ℕ
dictionary = record { terms = kube ∷ pod ∷ []; version = codes "v1" }

abbrev raw : Text
raw = codes "a cube\nthe pot"

abbrev segments : List (RawSegment ℕ)
segments =
    record {
      text = some (codes "a cube");
      start_time_sec = some 0;
      end_time_sec = some 1;
      speaker = some (codes "1");
      confidence = none;
    }
    ∷ record {
      text = some (codes "the pot");
      start_time_sec = some 1;
      end_time_sec = some 2;
      speaker = none;
      confidence = none;
    }
    ∷ []

-- a model that drops the protected term
abbrev service : CorrectionService ℕ
service = record {
  stt_correction_enable_llm = true;
  stt_correction_glossary_max_items = 5;
  stt_correction_min_response_ratio = 0;
  openai_api_key = [];
  term_dictionary = dictionary;
  llm_client = some (λ prompt. some (codes "a pipe\nthe Pod"));
  responses = λ key prompt. none;
  sha256 = λ t. t;
}

-- The model's answer is refused, the phrase of the safe term is replaced, and the other is logged.
rules_test :
    ((Rules.correct dictionary raw).corrected_text ≡ codes "a Kube\nthe pot")
    × (map (λ m. m.start) (Rules.correct dictionary raw).correction_logs ≡ 2 ∷ 11 ∷ [])
unfolding Rules.correct iter_matchable_terms strip eq_text contains
rules_test = (refl, refl)

service_test :
    ((correct service raw segments).corrected_text ≡ codes "a Kube\nthe pot")
    × (map (λ l. l.decision) (correct service raw segments).correction_logs
        ≡ codes "replaced" ∷ codes "review_required" ∷ [])
    × (map (λ r. r.canonical) (correct service raw segments).review_candidates ≡ codes "Pod" ∷ [])
unfolding correct choose_validated_output strip splitlines Rules.correct iter_matchable_terms
    eq_text contains segment_index_for_range line_ranges splitlines_keepends term_by_id find_row
service_test = (refl, refl, refl)

correct-Rewrites_example :
    Rewrites raw
      (Rules.correct dictionary raw).corrected_text
      (Rules.correct dictionary raw).correction_logs
    × All (IsCut raw) (Rules.correct dictionary raw).correction_logs
    × Apart 0 (Rules.correct dictionary raw).correction_logs
correct-Rewrites_example = correct-Rewrites raw dictionary

final_keeps_terms_example :
    All
      (Kept (correct service raw segments).corrected_text)
      (Rules.correct dictionary raw).correction_logs
final_keeps_terms_example = final_keeps_terms service raw segments

final_text_source_example :
    HasSource raw
      (Rules.correct dictionary raw).corrected_text
      ((correct service raw segments).corrected_text, (correct service raw segments).llm_applied)
final_text_source_example = final_text_source service raw segments

corrected_segments_shape_example :
    map (λ g. g.text) (correct service raw segments).corrected_segments ≡ (
      if length (splitlines (correct service raw segments).corrected_text) == 2
      then splitlines (correct service raw segments).corrected_text
      else map text_of segments)
    × map shape_of (correct service raw segments).corrected_segments ≡ map raw_shape segments
corrected_segments_shape_example = corrected_segments_shape service raw segments

logs_of_segments_example :
    All
      (IsLog dictionary raw
        (correct service raw segments).corrected_text
        segments
        (correct service raw segments).llm_applied
        (Rules.correct dictionary raw).correction_logs)
      (correct service raw segments).correction_logs
logs_of_segments_example = logs_of_segments service raw segments

reviews_name_terms_example :
    All
      (IsReview dictionary raw segments (Rules.correct dictionary raw).correction_logs)
      (correct service raw segments).review_candidates
unfolding Rules.correct iter_matchable_terms strip eq_text contains
reviews_name_terms_example = reviews_name_terms service raw segments (refl, (refl, tt))

glossary_bounded_example :
    length (build_glossary_entries raw dictionary (codes "K8S_001" ∷ codes "K8S_001" ∷ []) 2) ≤ 2
    × Distinct (
        map
          (λ e. e.term_id)
          (build_glossary_entries raw dictionary (codes "K8S_001" ∷ codes "K8S_001" ∷ []) 2))
glossary_bounded_example =
    glossary_bounded raw dictionary (codes "K8S_001" ∷ codes "K8S_001" ∷ []) 2

position_in_line_example :
    (i : ℕ) × segment_index_for_range 11 (line_ranges raw) ≡ some i
    × i < length (splitlines raw)
    × HasPosition 0 11 (splitlines_keepends raw) i
position_in_line_example = position_in_line raw 11 (omega arith)
