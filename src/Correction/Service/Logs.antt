-- ===== src/Correction/Service/Logs.antt =====
-- The logs that app/correction/service.py makes: each stands for a match and belongs to a raw segment.
use onramp_stt_api.Base.{
  ℕ, ◌≡◌, ◌⊎◌, inl, inr, refl, Bool, true, false, ◌&&◌, Option, none, some, List, [], ◌∷◌, All,
  get_elem?, Text, codes, eq_text, Unicode, splitlines, not, Bool-cases, arith,
}
use onramp_stt_api.Float.{Float}
use onramp_stt_api.Merger.{RawSegment, or_default}
use onramp_stt_api.CorrectionWorker.{CorrectionAuditLog}
use onramp_stt_api.Correction.{DomainTerm, TermDictionary, term_by_id}
use onramp_stt_api.Correction.Lines.{line_ranges, segment_index_for_range}
use onramp_stt_api.Correction.Rules.{Action, Match, UnmatchedCandidate, is_replaced, unmatched_of}
use onramp_stt_api.Correction.Rules
use onramp_stt_api.Correction.Service.{CorrectionService, final_text, correct}
use onramp_stt_api.Correction.Audit.{
  text_of, has_canonical, decision_of, segment_at, audit_log, add_log, build_correction_logs,
}
use onramp_stt_api.Correction.Service.Places.{
  OnSegment, IsPlace, segment_at-IsPlace, OfOne, all-OfOne,
}

module _ {F : Type 0} where
  -- A decision `llm_verified` is made only on a text that the model gave, that changed the segment
  -- and that has the canonical form.
  decision-verified :
      (action : Action) (llm_applied : Bool) (original corrected : Text)
      (term : Option (DomainTerm F))
      → (eq_text (decision_of action llm_applied original corrected term) (codes "llm_verified")
          ≡ false)
        ⊎ ((llm_applied ≡ true)
            × (eq_text corrected original ≡ false)
            × (has_canonical term corrected ≡ true))
  unfolding decision_of eq_text
  decision-verified Action.candidate llm_applied original corrected term =
      elim (Bool-cases
        (llm_applied && (not (eq_text corrected original) && has_canonical term corrected))) [
          | inl met ↦ inr (ground arith, ground arith, ground arith)
          | inr unmet ↦ inl (rw unmet refl)
        ]
  decision-verified Action.replaced llm_applied original corrected term =
      elim (Bool-cases (eq_text corrected original)) [
        | inl same ↦ inl (rw same refl)
        | inr new ↦ inl (rw new refl)
      ]

module _ {F : Type 0} ⦃fl : Float F⦄ where
  -- The log stands for the match: it has its term's id and policy, the text and the times of the raw
  -- segment of its line, and the line of the final text with the segment's index, if there is one;
  -- and a decision `llm_verified` is made only where the language model's text is taken, changed the
  -- segment and has the canonical form.
  abbrev pub LogOf :
      TermDictionary F
      → Text
      → Text
      → List (RawSegment F)
      → Bool
      → CorrectionAuditLog F
      → Match F
      → Type 0
  LogOf d raw text gs llm_applied l m =
      (l.term_id ≡ m.term.term_id)
      × (l.replace_policy ≡ m.term.replace_policy)
      × ((g : RawSegment F) × OnSegment raw gs m.start l.segment_index g
          × l.original_text ≡ text_of g
          × l.corrected_text ≡ or_default (get_elem? (splitlines text) l.segment_index) (text_of g)
          × l.start_time_sec ≡ or_default g.start_time_sec (fl.of_int 0)
          × l.end_time_sec ≡ or_default g.end_time_sec (fl.of_int 0))
      × ((eq_text l.decision (codes "llm_verified") ≡ false)
          ⊎ ((llm_applied ≡ true)
              × (eq_text l.corrected_text l.original_text ≡ false)
              × (has_canonical (term_by_id d l.term_id) l.corrected_text ≡ true)))

  abbrev pub IsLog :
      TermDictionary F
      → Text
      → Text
      → List (RawSegment F)
      → Bool
      → List (Match F)
      → CorrectionAuditLog F
      → Type 0
  IsLog d raw text gs llm_applied ms l = OfOne ms (LogOf d raw text gs llm_applied l)

  add_log-IsLog :
      (d : TermDictionary F) (raw text : Text) (gs : List (RawSegment F)) (llm_applied : Bool)
      (m : Match F) (ms : List (Match F)) (o : Option (ℕ × RawSegment F))
      (rest : List (CorrectionAuditLog F))
      → IsPlace raw gs m.start o
      → All (IsLog d raw text gs llm_applied (m ∷ ms)) rest
      → All
          (IsLog d raw text gs llm_applied (m ∷ ms))
          (add_log d gs (splitlines text) llm_applied m o rest)
  unfolding audit_log
  add_log-IsLog d raw text gs llm_applied m ms none rest p a = a
  add_log-IsLog d raw text gs llm_applied m ms (some (i, g)) rest p a = (
    (
      0,
      m,
      refl,
      (
        refl,
        refl,
        (g, p, refl, refl, refl, refl),
        decision-verified m.action llm_applied (text_of g)
            (or_default (get_elem? (splitlines text) i) (text_of g)) (term_by_id d m.term.term_id),
      ),
    ),
    a,
  )

  logs-IsLog :
      (d : TermDictionary F) (raw text : Text) (gs : List (RawSegment F)) (llm_applied : Bool)
      (ms : List (Match F))
      → All
          (IsLog d raw text gs llm_applied ms)
          (build_correction_logs d raw text gs llm_applied ms)
  unfolding build_correction_logs
  logs-IsLog d raw text gs llm_applied [] = tt
  logs-IsLog d raw text gs llm_applied (m ∷ ms) =
      let o = segment_index_for_range m.start (line_ranges raw) in
      let rest = build_correction_logs d raw text gs llm_applied ms in
      add_log-IsLog d raw text gs llm_applied m ms (segment_at gs o) rest
        (segment_at-IsPlace raw gs m.start o refl)
        (all-OfOne (LogOf d raw text gs llm_applied) m ms rest
          (logs-IsLog d raw text gs llm_applied ms))

  -- Every log of a correction stands for a match of the rules: it has the match's term, the text and
  -- times of the raw segment whose line has the match in it, and that line of the final text, if it
  -- has as many; and it says `llm_verified` only if the language model's text is taken, changed the
  -- segment's line and has the canonical form of the term in it.
  pub logs_of_segments :
      ⦃u : Unicode⦄
      → (s : CorrectionService F) (raw : Text) (gs : List (RawSegment F))
      → All
          (IsLog s.term_dictionary raw
            (correct s raw gs).corrected_text
            gs
            (correct s raw gs).llm_applied
            (Rules.correct s.term_dictionary raw).correction_logs)
          (correct s raw gs).correction_logs
  unfolding correct
  logs_of_segments s raw gs =
      logs-IsLog s.term_dictionary raw (final_text s raw).0 gs (final_text s raw).1
        (Rules.correct s.term_dictionary raw).correction_logs
