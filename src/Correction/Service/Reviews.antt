-- ===== src/Correction/Service/Reviews.antt =====
-- The candidates for a review that app/correction/service.py makes: each stands for a match that was
-- not replaced.
use mathlib.Core.Path.{subst}
use onramp_stt_api.Base.{
  ℕ, ◌≡◌, inl, inr, refl, false, Option, none, some, List, [], ◌∷◌, ◌++◌, All, any, ◌==◌, Text,
  codes, Unicode, Bool-cases, arith,
}
use onramp_stt_api.Float.{Float}
use onramp_stt_api.Db.{ReviewCandidate}
use onramp_stt_api.Merger.{RawSegment}
use onramp_stt_api.Correction.{TermDictionary, term_by_id}
use onramp_stt_api.Correction.Lines.{line_ranges, segment_index_for_range}
use onramp_stt_api.Correction.Rules.{Action, Match, UnmatchedCandidate, is_replaced, unmatched_of}
use onramp_stt_api.Correction.Rules
use onramp_stt_api.Correction.Service.{CorrectionService, correct}
use onramp_stt_api.Correction.Audit.{
  text_of, after_colon, canonical_or, segment_at, review_candidate, add_candidate,
  build_review_candidates,
}
use onramp_stt_api.Correction.Service.Places.{
  OnSegment, IsPlace, segment_at-IsPlace, OfOne, all-OfOne,
}

after_colon-reason :
    (policy id : Text)
    → any (λ c. c == b':') policy ≡ false
    → after_colon (policy ++ codes ":" ++ id) ≡ id
unfolding after_colon
after_colon-reason [] id h = refl
after_colon-reason (c ∷ policy) id h = ground (arith, after_colon-reason policy id)

module _ {F : Type 0} where
  -- The candidate stands for the match, which is none of the replaced ones: it has its text, the raw
  -- segment of its line, with the segment's text as evidence, its policy and id as the reason, and
  -- the canonical form that the dictionary has for this id.
  abbrev pub ReviewOf :
      TermDictionary F → Text → List (RawSegment F) → ReviewCandidate → Match F → Type 0
  ReviewOf d raw gs r m =
      (is_replaced m.action ≡ false)
      × r.text ≡ m.original
      × ((g : RawSegment F) × OnSegment raw gs m.start r.segment_index g
          × r.context_evidence ≡ text_of g)
      × r.reason ≡ m.term.replace_policy ++ codes ":" ++ m.term.term_id
      × r.canonical ≡ canonical_or m.term.term_id (term_by_id d m.term.term_id)

  abbrev pub IsReview :
      TermDictionary F → Text → List (RawSegment F) → List (Match F) → ReviewCandidate → Type 0
  IsReview d raw gs ms r = OfOne ms (ReviewOf d raw gs r)

  add_candidate-IsReview :
      (d : TermDictionary F) (raw : Text) (gs : List (RawSegment F)) (m : Match F)
      (ms : List (Match F)) (c : UnmatchedCandidate) (o : Option (ℕ × RawSegment F))
      (rest : List ReviewCandidate)
      → is_replaced m.action ≡ false
      → c.text ≡ m.original
      → c.reason ≡ m.term.replace_policy ++ codes ":" ++ m.term.term_id
      → IsPlace raw gs m.start o
      → any (λ c. c == b':') m.term.replace_policy ≡ false
      → All (IsReview d raw gs (m ∷ ms)) rest
      → All (IsReview d raw gs (m ∷ ms)) (add_candidate d c o rest)
  unfolding review_candidate
  add_candidate-IsReview d raw gs m ms c none rest left text reason p plain a = a
  add_candidate-IsReview d raw gs m ms c (some (i, g)) rest left text reason p plain a =
      let named = after_colon-reason m.term.replace_policy m.term.term_id plain in
      ((0, m, refl, (left, text, (g, p, refl), reason, rw (reason, named) refl)), a)

  reviews-IsReview :
      ⦃u : Unicode⦄
      → (d : TermDictionary F) (raw : Text) (gs : List (RawSegment F)) (ms : List (Match F))
      → All (λ m. any (λ c. c == b':') m.term.replace_policy ≡ false) ms
      → All (IsReview d raw gs ms) (build_review_candidates d raw gs (unmatched_of ms))
  unfolding build_review_candidates unmatched_of
  reviews-IsReview d raw gs [] h = tt
  reviews-IsReview d raw gs (m ∷ ms) (plain, h) =
      let rest = build_review_candidates d raw gs (unmatched_of ms) in
      let older = all-OfOne (ReviewOf d raw gs) m ms rest (reviews-IsReview d raw gs ms h) in
      elim (Bool-cases (is_replaced m.action)) [
        | inl done ↦ rw done older
        | inr left ↦
            let c : UnmatchedCandidate = record {
              text = m.original;
              reason = m.term.replace_policy ++ codes ":" ++ m.term.term_id;
              start = m.start;
              end = m.end;
            } in
            let o = segment_index_for_range m.start (line_ranges raw) in
            let new =
              add_candidate-IsReview d raw gs m ms c (segment_at gs o) rest left refl refl
                (segment_at-IsPlace raw gs m.start o refl) plain older in
            let same : add_candidate d c (segment_at gs o) rest
                ≡ build_review_candidates d raw gs (unmatched_of (m ∷ ms)) =
              rw left refl in
            subst (All (IsReview d raw gs (m ∷ ms))) same new
      ]

module _ {F : Type 0} ⦃fl : Float F⦄ where
  -- Every candidate for a review stands for a match that the rules did not replace: it has its text,
  -- the raw segment whose line has the match in it, its policy and id as the reason, and the
  -- canonical form that the dictionary has for the id; if no policy of the matched terms has a
  -- colon.
  pub reviews_name_terms :
      ⦃u : Unicode⦄
      → (s : CorrectionService F) (raw : Text) (gs : List (RawSegment F))
      → All
          (λ m. any (λ c. c == b':') m.term.replace_policy ≡ false)
          (Rules.correct s.term_dictionary raw).correction_logs
      → All
          (IsReview s.term_dictionary raw gs (Rules.correct s.term_dictionary raw).correction_logs)
          (correct s raw gs).review_candidates
  unfolding correct Rules.correct
  reviews_name_terms s raw gs h =
      reviews-IsReview s.term_dictionary raw gs (Rules.collect_matches s.term_dictionary raw) h
