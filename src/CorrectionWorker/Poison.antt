-- ===== src/CorrectionWorker/Poison.antt =====
-- What app/workers/correction.py does with a transcript whose job has failed.
use onramp_stt_api.Base.{
  ℕ, ◌≡◌, ◌⊎◌, inl, inr, refl, true, false, some, Text, find_row, Bool-cases, Option-cases,
}
use onramp_stt_api.Float.{Float}
use onramp_stt_api.Status.{JobStatus, job_transition}
use onramp_stt_api.Errors.{Error, ok, err, Result-cases}
use onramp_stt_api.Events.{Group, TranscriptCompleted}
use onramp_stt_api.Db.{Store, TranscriptionJob}
use onramp_stt_api.Db.Session.{get_job, is_processed, ensure_job_transition}
use onramp_stt_api.CorrectionWorker.{
  CorrectionResult, Draw, result_object_key, start_job, start, build_result, save_job, save,
  is_version, key_taken, complete_status,
}
use onramp_stt_api.CorrectionWorker.Failure.{tries_again, fail_job, record_failure}
use onramp_stt_api.CorrectionWorker.Process.{World, process, Fate, fate_of, handle}

module _ {F : Type 0} (e tid : Text) (j : TranscriptionJob F) (s : Store F)
    (stored : get_job tid s ≡ some j) (failed : j.status ≡ JobStatus.failed)
    (fresh : is_processed Group.correction_workers e s ≡ false) where
  -- No result can be saved: even if its row has a new key, the table has no way from `failed` to `correcting`.
  save_refused :
      (d : Draw) (p : TranscriptCompleted) (key : Text) (result : CorrectionResult F)
      → p.transcription_id ≡ tid
      → (y : Error) × save d e p key result s ≡ err y
  unfolding save save_job complete_status ensure_job_transition job_transition
  save_refused d p key result same =
      let o = find_row (is_version j.id result.dictionary_version) s.corrected in
      elim (Bool-cases (key_taken d key result j o s)) [
        | inl taken ↦ (Error.integrity_error, rw (fresh, same, stored, taken) refl)
        | inr free ↦ (
          Error.invalid_job_transition JobStatus.failed JobStatus.correcting,
          rw (fresh, same, stored, free, failed) refl,
        )
      ]

  start_passes : (p : TranscriptCompleted) → p.transcription_id ≡ tid → start e p s ≡ ok (true, s)
  unfolding start start_job
  start_passes p same = rw (same, stored, failed) refl

module _ {F : Type 0} ⦃fl : Float F⦄ (e tid : Text) (j : TranscriptionJob F) (s : Store F)
    (stored : get_job tid s ≡ some j) (failed : j.status ≡ JobStatus.failed)
    (fresh : is_processed Group.correction_workers e s ≡ false) where
  -- Nor can the failure be recorded, unless it is one to be tried again.
  failure_unrecorded :
      (lower : Text → Text) (limit : ℕ) (d : Draw) (p : TranscriptCompleted) (x : Error)
      → p.transcription_id ≡ tid
      → ((fate_of s (record_failure lower limit d e p x s)).0 ≡ Fate.left_pending)
        ⊎ (fate_of s (record_failure lower limit d e p x s)
            ≡ (Fate.crashed (Error.invalid_job_transition JobStatus.failed JobStatus.failed), s))
  unfolding record_failure fail_job ensure_job_transition job_transition
  failure_unrecorded lower limit d p x same = elim (Bool-cases (tries_again limit x j)) [
    | inl again ↦ inl (rw (fresh, same, stored, again) refl)
    | inr last ↦ inr (rw (fresh, same, stored, last, failed) refl)
  ]

  process_raises :
      (w : World F) (d : Draw) (others : Store F → Store F) (p : TranscriptCompleted)
      → p.transcription_id ≡ tid
      → others s ≡ s
      → (x : Error) × (process w d others (record { event_id = e; payload = p }) s ≡ (err x, s))
  unfolding process
  process_raises w d others p same quiet =
      let key = result_object_key p.tenant_id p.transcription_id in
      elim (Result-cases (build_result w.correct (get_job p.transcription_id s))) [
        | inl (x, unbuilt) ↦
            (x, rw (fresh, start_passes e tid j s stored failed fresh p same, unbuilt) refl)
        | inr (result, built) ↦ elim (Option-cases (w.upload key)) [
          | inr (x, lost) ↦ (
            x,
            rw (fresh, start_passes e tid j s stored failed fresh p same, built, lost, quiet) refl,
          )
          | inl fine ↦
              let (y, refused) = save_refused e tid j s stored failed fresh d p key result same in
              (
                y,
                rw
                    (
                      fresh,
                      start_passes e tid j s stored failed fresh p same,
                      built,
                      fine,
                      quiet,
                      refused,
                    )
                    refl,
              )
        ]
      ]

  -- A transcript whose job has `failed`, announced by an event that is not processed, is never
  -- acknowledged while no other worker changes the database: whatever the correction and the
  -- storage answer, the message is left pending, or the exception of the transition from `failed`
  -- to `failed` ends the worker with the database as it was.
  pub failed_job_never_acked :
      (w : World F) (limit : ℕ) (d d' : Draw) (others : Store F → Store F) (p : TranscriptCompleted)
      → p.transcription_id ≡ tid
      → others s ≡ s
      → ((handle w limit d d' others (record { event_id = e; payload = p }) s).0
          ≡ Fate.left_pending)
        ⊎ (handle w limit d d' others (record { event_id = e; payload = p }) s
            ≡ (Fate.crashed (Error.invalid_job_transition JobStatus.failed JobStatus.failed), s))
  unfolding handle
  failed_job_never_acked w limit d d' others p same quiet =
      let (x, raised) = process_raises w d others p same quiet in
      rw raised (failure_unrecorded w.lower limit d' p x same)
