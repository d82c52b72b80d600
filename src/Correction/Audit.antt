-- ===== src/Correction/Audit.antt =====
-- The logs and the candidates for a review of app/correction/service.py.
use onramp_stt_api.Base.{
  ℕ, ◌+◌, ◌-◌, Bool, false, not, ◌&&◌, Option, none, some, List, [], ◌∷◌, map, get_elem?, take,
  drop, select, length, ltb, ◌==◌, Text, codes, eq_text, strip, join, contains, splitlines,
  if◌then◌else◌,
}
use onramp_stt_api.Float.{Float}
use onramp_stt_api.Db.{ReviewCandidate}
use onramp_stt_api.Merger.{RawSegment, or_default}
use onramp_stt_api.CorrectionWorker.{CorrectionAuditLog}
use onramp_stt_api.Correction.{DomainTerm, TermDictionary, term_by_id}
use onramp_stt_api.Correction.Rules.{Action, Match, UnmatchedCandidate}
use onramp_stt_api.Correction.Lines.{line_ranges, segment_index_for_range}

-- `str(segment.get("text") or "")`
abbrev pub text_of : {F : Type 0} → RawSegment F → Text
text_of g = or_default g.text []

-- `reason.split(":", 1)[1]`; every reason has a colon
unfoldable pub after_colon : Text → Text
after_colon [] = []
after_colon (c ∷ s) = let rest = after_colon s in if c == b':' then s else rest

module _ {F : Type 0} where
  -- `_context_evidence`
  unfoldable pub context_evidence : List (RawSegment F) → ℕ → Option (DomainTerm F) → Option Text
  context_evidence raw_segments index none = none
  context_evidence raw_segments index (some term) =
      let start = index - 1 in
      let end = if ltb (length raw_segments) (index + 2) then length raw_segments else index + 2 in
      let evidence =
        select (λ t. not (length t == 0))
          (map (λ g. strip (text_of g)) (take (end - start) (drop start raw_segments))) in
      if length term.context_keywords == 0
      then none
      else if length evidence == 0
      then none
      else some (join (codes " | ") evidence)

  abbrev pub has_canonical : Option (DomainTerm F) → Text → Bool
  has_canonical none t = false
  has_canonical (some term) t = contains t term.canonical

  -- the decision of `_build_correction_logs`
  unfoldable pub decision_of : Action → Bool → Text → Text → Option (DomainTerm F) → Text
  decision_of Action.candidate llm_applied original corrected term =
      if llm_applied && (not (eq_text corrected original) && has_canonical term corrected)
      then codes "llm_verified"
      else codes "review_required"
  decision_of Action.replaced llm_applied original corrected term =
      if not (eq_text corrected original) then codes "replaced" else codes "kept"

  -- The segment of a position, if there is one.
  abbrev pub placed : ℕ → Option (RawSegment F) → Option (ℕ × RawSegment F)
  placed i none = none
  placed i (some g) = some (i, g)

  unfoldable pub segment_at : List (RawSegment F) → Option ℕ → Option (ℕ × RawSegment F)
  segment_at raw_segments none = none
  segment_at raw_segments (some i) = placed i (get_elem? raw_segments i)

  abbrev pub canonical_or : Text → Option (DomainTerm F) → Text
  canonical_or term_id none = term_id
  canonical_or term_id (some term) = term.canonical

  -- A candidate of `_build_review_candidates`.
  unfoldable pub review_candidate :
      TermDictionary F → UnmatchedCandidate → ℕ × RawSegment F → ReviewCandidate
  unfolding after_colon
  review_candidate d c (i, g) =
      let term_id = after_colon c.reason in
      record {
        segment_index = i;
        text = c.text;
        canonical = canonical_or term_id (term_by_id d term_id);
        reason = c.reason;
        context_evidence = text_of g;
      }

  abbrev pub add_candidate :
      TermDictionary F
      → UnmatchedCandidate
      → Option (ℕ × RawSegment F)
      → List ReviewCandidate
      → List ReviewCandidate
  add_candidate d c none rest = rest
  add_candidate d c (some at) rest = review_candidate d c at ∷ rest

  -- `_build_review_candidates`
  unfoldable pub build_review_candidates :
      TermDictionary F → Text → List (RawSegment F) → List UnmatchedCandidate → List ReviewCandidate
  unfolding segment_at review_candidate
  build_review_candidates d raw_text raw_segments [] = []
  build_review_candidates d raw_text raw_segments (c ∷ cs) =
      add_candidate d c
        (segment_at raw_segments (segment_index_for_range c.start (line_ranges raw_text)))
        (build_review_candidates d raw_text raw_segments cs)

module _ {F : Type 0} ⦃fl : Float F⦄ where
  -- A log of `_build_correction_logs`.
  unfoldable pub audit_log :
      TermDictionary F
      → List (RawSegment F)
      → List Text
      → Bool
      → Match F
      → ℕ × RawSegment F
      → CorrectionAuditLog F
  unfolding context_evidence decision_of
  audit_log d raw_segments corrected_lines llm_applied m (i, g) =
      let original = text_of g in
      let corrected = or_default (get_elem? corrected_lines i) original in
      let term = term_by_id d m.term.term_id in
      record {
        segment_index = i;
        start_time_sec = or_default g.start_time_sec (fl.of_int 0);
        end_time_sec = or_default g.end_time_sec (fl.of_int 0);
        term_id = m.term.term_id;
        replace_policy = m.term.replace_policy;
        original_text = original;
        corrected_text = corrected;
        context_evidence = context_evidence raw_segments i term;
        decision = decision_of m.action llm_applied original corrected term;
      }

  abbrev pub add_log :
      TermDictionary F
      → List (RawSegment F)
      → List Text
      → Bool
      → Match F
      → Option (ℕ × RawSegment F)
      → List (CorrectionAuditLog F)
      → List (CorrectionAuditLog F)
  add_log d raw_segments corrected_lines llm_applied m none rest = rest
  add_log d raw_segments corrected_lines llm_applied m (some at) rest =
      audit_log d raw_segments corrected_lines llm_applied m at ∷ rest

  -- `_build_correction_logs`
  unfoldable pub build_correction_logs :
      TermDictionary F
      → Text
      → Text
      → List (RawSegment F)
      → Bool
      → List (Match F)
      → List (CorrectionAuditLog F)
  unfolding segment_at audit_log
  build_correction_logs d raw_text corrected_text raw_segments llm_applied [] = []
  build_correction_logs d raw_text corrected_text raw_segments llm_applied (m ∷ ms) =
      add_log d raw_segments (splitlines corrected_text) llm_applied m
        (segment_at raw_segments (segment_index_for_range m.start (line_ranges raw_text)))
        (build_correction_logs d raw_text corrected_text raw_segments llm_applied ms)
