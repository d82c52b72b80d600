-- ===== src/Pipeline/Correction/Failure.antt =====
-- `_record_failure` of app/services/correction_worker.py keeps the pipeline's invariant.
use mathlib.Core.Path.{subst}
use onramp_stt_api.Base.{
  ℕ, ◌≡◌, refl, sym, Bool, true, some, [], ◌∷◌, Text, count, Bool-cases, inl, inr, arith,
}
use onramp_stt_api.Float.{Float}
use onramp_stt_api.Status.{JobStatus}
use onramp_stt_api.Errors.{Error, ok}
use onramp_stt_api.Events.{Group, TranscriptCompleted}
use onramp_stt_api.Db.{Store, TranscriptionJob}
use onramp_stt_api.Db.Session.{
  ◌>>◌, >>=-ok, or_raise, or_raise-ok, pure, modify, put_job, get_job, is_processed, mark_processed,
  add_outbox, ensure_job_transition,
}
use onramp_stt_api.Clova.Effects.{mark_processed-ok, add_outbox-ok, receipt}
use onramp_stt_api.Clova.Outcome.{requests_in, announced_in}
use onramp_stt_api.CorrectionWorker.{Draw}
use onramp_stt_api.CorrectionWorker.Failure.{
  counted_failure, failed_progress_row, dead_letter, tries_again, fail_job, record_failure,
  error_code,
}
use onramp_stt_api.Pipeline.{Inv}
use onramp_stt_api.Pipeline.Quiet.{receipt-Inv, events-Inv, job-Inv}
use onramp_stt_api.Pipeline.Correction.{ensure-ok}

module _ {F : Type 0} ⦃fl : Float F⦄ where
  failure_rows-silent :
      (d : Draw) (code : Text) (j : TranscriptionJob F)
      → ((tid : Text) (i : ℕ) → requests_in tid i (failed_progress_row d j ∷ []) ≡ 0)
        × ((tid : Text) → announced_in tid (failed_progress_row d j ∷ []) ≡ 0)
        × ((tid : Text) (i : ℕ) → requests_in tid i (dead_letter d code j ∷ []) ≡ 0)
        × ((tid : Text) → announced_in tid (dead_letter d code j ∷ []) ≡ 0)
  unfolding count failed_progress_row dead_letter
  failure_rows-silent d code j = (λ tid i. refl, λ tid. refl, λ tid i. refl, λ tid. refl)

  fail_job-Inv :
      (lower : Text → Text) (limit : ℕ) (d : Draw) (e : Text) (x : Error) (tid : Text)
      (j : TranscriptionJob F) (b : Bool) (s s' : Store F)
      → Inv s
      → get_job tid s ≡ some j
      → fail_job lower limit d e x j s ≡ ok (b, s')
      → Inv s'
  unfolding fail_job
  fail_job-Inv lower limit d e x tid j b s s' v stored h =
      let j' = counted_failure lower x j in
      let lost = record j' { status = JobStatus.failed } in
      let code = error_code lower x in
      elim (Bool-cases (tries_again limit x j)) [
        | inl again ↦
            let k = rw again at h in
            let same : put_job j' s ≡ s' = ground arith in
            subst Inv same (job-Inv s v tid j j' stored refl refl refl refl (λ m. m))
        | inr last ↦
            let (_, s1, allowed, h1) =
              >>=-ok (ensure_job_transition j.status JobStatus.failed)
                (λ _.
                  modify (put_job lost)
                  >> (add_outbox (failed_progress_row d lost)
                      >> (add_outbox (dead_letter d code lost)
                          >> (mark_processed Group.correction_workers e j.id >> pure true))))
                s (rw last at h) in
            let (_, e1) = ensure-ok j.status JobStatus.failed s s1 allowed in
            let s2 = put_job lost s1 in
            let (_, s3, sent, h3) =
              >>=-ok (add_outbox (failed_progress_row d lost))
                (λ _.
                  add_outbox (dead_letter d code lost)
                  >> (mark_processed Group.correction_workers e j.id >> pure true))
                s2 h1 in
            let (_, s4, buried, h4) =
              >>=-ok (add_outbox (dead_letter d code lost))
                (λ _. mark_processed Group.correction_workers e j.id >> pure true) s3 h3 in
            let (_, s5, marked, h5) =
              >>=-ok (mark_processed Group.correction_workers e j.id) (λ _. pure true) s4 h4 in
            let (q3, a3, q4, a4) = failure_rows-silent d code lost in
            let v2 =
              job-Inv s1 (subst Inv (sym e1) v) tid j lost
                (subst (λ t. get_job tid t ≡ some j) (sym e1) stored) refl refl refl refl
                (λ m. ground arith) in
            let e3 = add_outbox-ok (failed_progress_row d lost) s2 s3 sent in
            let v3 =
              subst Inv (sym e3) (events-Inv s2 v2 (failed_progress_row d lost ∷ []) q3 a3) in
            let e4 = add_outbox-ok (dead_letter d code lost) s3 s4 buried in
            let v4 = subst Inv (sym e4) (events-Inv s3 v3 (dead_letter d code lost ∷ []) q4 a4) in
            let (e5, _) = mark_processed-ok Group.correction_workers e j.id s4 s5 marked in
            let v5 =
              subst Inv (sym e5) (receipt-Inv s4 v4 (receipt Group.correction_workers e j.id)) in
            let same : s5 ≡ s' = ground arith in subst Inv same v5
      ]

  -- Recording the failure of a correction keeps the invariant.
  pub record_failure-Inv :
      (lower : Text → Text) (limit : ℕ) (d : Draw) (e : Text) (p : TranscriptCompleted) (x : Error)
      (b : Bool) (s s' : Store F)
      → Inv s
      → record_failure lower limit d e p x s ≡ ok (b, s')
      → Inv s'
  unfolding record_failure
  record_failure-Inv lower limit d e p x b s s' v h =
      elim (Bool-cases (is_processed Group.correction_workers e s)) [
        | inl seen ↦ let k = rw seen at h in let same : s ≡ s' = ground arith in subst Inv same v
        | inr fresh ↦
            let (j, s1, owner, h1) =
              >>=-ok (or_raise (get_job p.transcription_id s) Error.row_disappeared)
                (λ j. fail_job lower limit d e x j) s (rw fresh at h) in
            let (stored, e1) =
              or_raise-ok (get_job p.transcription_id s) Error.row_disappeared s owner in
            fail_job-Inv lower limit d e x p.transcription_id j b s s' v stored
              (subst (λ t. fail_job lower limit d e x j t ≡ ok (b, s')) e1 h1)
      ]
