-- ===== src/Api/Views.antt =====
-- What the views of app/api/v1/internal_transcriptions.py show of the pipeline.
use mathlib.Core.Path.{subst}
use onramp_stt_api.Base.{
  is_none, Option, none, ◌≤◌, ◌<◌, ◌≡◌, inl, inr, refl, sym, false, some, List, [], ◌∷◌, select,
  count, Text, eq_text, Bool-cases, arith, Unicode,
}
use onramp_stt_api.Float.{Float}
use onramp_stt_api.Status.{JobStatus}
use onramp_stt_api.Errors.{ok}
use onramp_stt_api.Events.{Group, TranscriptCompleted}
use onramp_stt_api.Db.{Store, TranscriptionJob, CorrectedTranscript}
use onramp_stt_api.Db.Session.{get_job, is_processed}
use onramp_stt_api.CorrectionWorker.{Draw, CorrectionResult, save, is_version}
use onramp_stt_api.Pipeline.Step.{Reach, Step, empty, merged_has_all}
use onramp_stt_api.Pipeline.Rows.{get_job-key}
use onramp_stt_api.Pipeline.Saved.{versions, save_saves_once}
use onramp_stt_api.Api.{
  TranscriptionResultResponse, Reply, newest, later, newest_corrected, result_view, result_of,
  get_transcription_result,
}

text_there : (o : Option Text) → is_none o ≡ false → (t : Text) × o ≡ some t
text_there none h = cc
text_there (some t) h = (t, refl)

module _ {F : Type 0} where
  newest-exists :
      (tid version : Text) (cs : List (CorrectedTranscript F))
      → 0 < count (is_version tid version) cs
      → (c : CorrectedTranscript F) × newest (select (λ c. eq_text c.transcription_id tid) cs)
          ≡ some c
  unfolding count newest
  newest-exists tid version [] h = absurd (omega (arith, h))
  newest-exists tid version (c ∷ cs) h = elim (Bool-cases (eq_text c.transcription_id tid)) [
    | inl mine ↦ (later c (newest (select (λ c. eq_text c.transcription_id tid) cs)), rw mine refl)
    | inr other ↦ let (d, e) = newest-exists tid version cs (ground arith) in (d, rw other e)
  ]

module _ {F : Type 0} ⦃fl : Float F⦄ ⦃u : Unicode⦄ where
  -- When a correction is saved in a store that the pipeline reaches, for a job that is stored, an
  -- event that is not processed and at most one row of the job and the dictionary version, the result
  -- of the job is shown, with the merged text of the job.
  pub saved_is_shown :
      (sha256 : Text → Text) (d : Draw) (e : Text) (p : TranscriptCompleted) (key : Text)
      (result : CorrectionResult F) (j : TranscriptionJob F) (s s' : Store F)
      → Reach empty s
      → get_job p.transcription_id s ≡ some j
      → is_processed Group.correction_workers e s ≡ false
      → versions j.id result.dictionary_version s ≤ 1
      → save d e p key result s ≡ ok (tt, s')
      → (r : TranscriptionResultResponse F) × get_transcription_result sha256 p.transcription_id s'
          ≡ Reply.found r
        × some r.raw.text ≡ j.merged_text
  unfolding get_transcription_result result_of newest_corrected
  saved_is_shown sha256 d e p key result j s s' reached stored fresh few h =
      let tid = p.transcription_id in
      let (completed, one) = save_saves_once d e p key result j s s' stored fresh few h in
      let j' = record j { status = JobStatus.correction_completed; completed_at = some d.now } in
      let there =
        merged_has_all s' tid j' (Reach.next reached (Step.correction_saved d e p key result h))
          completed refl in
      let (t, merged) = text_there j.merged_text there.1 in
      let (c, made) =
        newest-exists j.id result.dictionary_version s'.corrected (omega (arith, one)) in
      let newest : newest_corrected tid s' ≡ some c =
        subst (λ id. newest_corrected id s' ≡ some c) (get_job-key tid s j stored) made in
      (result_view sha256 s' j' t c, rw (completed, merged, newest) refl, sym merged)
