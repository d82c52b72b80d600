-- ===== src/Pipeline/Correction.antt =====
-- The transactions of app/services/correction_worker.py that begin a correction and save it keep the
-- pipeline's invariant.
pub mod Failure
use mathlib.Core.Path.{subst}
use onramp_stt_api.Base.{
  ℕ, ◌≡◌, refl, sym, ap, ◌∙◌, Bool, true, false, Option, none, some, List, [], ◌∷◌, Text, count,
  find_row, Bool-cases, inl, inr, arith,
}
use onramp_stt_api.Float.{Float}
use onramp_stt_api.Status.{
  JobStatus, is_correction_completed, is_transcript_completed, job_transition,
}
use onramp_stt_api.Errors.{Error, ok}
use onramp_stt_api.Events.{Group, TranscriptCompleted}
use onramp_stt_api.Db.{Store, TranscriptionJob, CorrectedTranscript, SttCorrectionLog}
use onramp_stt_api.Db.Session.{
  Tx, ◌>>=◌, ◌>>◌, >>=-ok, after_check, or_raise, or_raise-ok, pure, modify, put_job, get_job,
  is_job, is_processed, mark_processed, add_outbox, ensure_job_transition,
}
use onramp_stt_api.Clova.Effects.{mark_processed-ok, add_outbox-ok, receipt}
use onramp_stt_api.Clova.Outcome.{requests_in, announced_in}
use onramp_stt_api.CorrectionWorker.{
  Draw, CorrectionResult, start_job, start, store_transcript, complete_status, completed_row,
  save_job, save, is_version, key_taken, finish_job,
}
use onramp_stt_api.CorrectionWorker.Failure.{
  counted_failure, failed_progress_row, dead_letter, tries_again, fail_job, record_failure,
  error_code,
}
use onramp_stt_api.Pipeline.{Inv, is_merged}
use onramp_stt_api.Pipeline.Quiet.{receipt-Inv, events-Inv, job-Inv}

pub ensure-ok :
    {S : Type 0} (t u : JobStatus) (s s' : S)
    → ensure_job_transition t u s ≡ ok (tt, s')
    → (job_transition t u ≡ true) × (s' ≡ s)
unfolding ensure_job_transition
ensure-ok t u s s' h = ground arith

module _ {F : Type 0} where
  start_job-Inv :
      (e tid : Text) (j : TranscriptionJob F) (b : Bool) (s s' : Store F)
      → Inv s
      → get_job tid s ≡ some j
      → start_job e j s ≡ ok (b, s')
      → Inv s'
  unfolding start_job
  start_job-Inv e tid j b s s' v stored h = elim (Bool-cases (is_correction_completed j.status)) [
    | inl done ↦
        let (_, s1, marked, h1) =
          >>=-ok (mark_processed Group.correction_workers e j.id) (λ _. pure false) s
            (rw done at h) in
        let (e1, _) = mark_processed-ok Group.correction_workers e j.id s s1 marked in
        let e2 : s' ≡ s1 = ground arith in
        subst Inv (sym (e2 ∙ e1)) (receipt-Inv s v (receipt Group.correction_workers e j.id))
    | inr more ↦ elim (Bool-cases (is_transcript_completed j.status)) [
      | inr other ↦
          let k = rw (more, other) at h in let same : s ≡ s' = ground arith in subst Inv same v
      | inl ready ↦
          let j' = record j { status = JobStatus.correcting } in
          let (_, s1, allowed, h1) =
            >>=-ok (ensure_job_transition j.status JobStatus.correcting)
              (λ _. modify (put_job j') >> pure true) s (rw (more, ready) at h) in
          let (_, e1) = ensure-ok j.status JobStatus.correcting s s1 allowed in
          let e2 : s' ≡ put_job j' s1 = ground arith in
          subst Inv (sym (e2 ∙ ap (put_job j') e1))
            (job-Inv s v tid j j' stored refl refl refl refl (λ _. was_merged j.status ready))
    ]
  ]
    where
      was_merged : (t : JobStatus) → is_transcript_completed t ≡ true → is_merged t ≡ true
      was_merged t h = ground arith

  -- Starting a correction keeps the invariant.
  pub start-Inv :
      (e : Text) (p : TranscriptCompleted) (b : Bool) (s s' : Store F)
      → Inv s
      → start e p s ≡ ok (b, s')
      → Inv s'
  unfolding start
  start-Inv e p b s s' v h =
      let (j, s1, owner, h1) =
        >>=-ok (or_raise (get_job p.transcription_id s) Error.job_not_found) (λ j. start_job e j) s
          h in
      let (stored, e1) = or_raise-ok (get_job p.transcription_id s) Error.job_not_found s owner in
      start_job-Inv e p.transcription_id j b s s' v stored
        (subst (λ t. start_job e j t ≡ ok (b, s')) e1 h1)

  -- The status that `save` leaves was merged before.
  complete_status-merged :
      (t u : JobStatus) (s s' : Store F)
      → complete_status t s ≡ ok (u, s')
      → (is_merged t ≡ true) × (s' ≡ s)
  unfolding complete_status ensure_job_transition job_transition
  complete_status-merged JobStatus.queued u s s' h = cc
  complete_status-merged t u s s' h = ground arith

  outside-Inv :
      (cs : List (CorrectedTranscript F)) (ls : List (SttCorrectionLog F)) (s : Store F)
      → Inv s
      → Inv (record s { corrected = cs; logs = ls })
  unfolding is_processed
  outside-Inv cs ls s v = record {
    live = v.live;
    chunkless = v.chunkless;
    counted = v.counted;
    sized = v.sized;
    jobless = v.jobless;
    announced = v.announced;
    unannounced = v.unannounced;
    complete = v.complete;
    worded = v.worded;
  }

  store_transcript-Inv :
      (d : Draw) (key : Text) (result : CorrectionResult F) (j : TranscriptionJob F)
      (o : Option (CorrectedTranscript F)) (s : Store F)
      → Inv s
      → Inv (store_transcript d key result j o s).1
        × ((store_transcript d key result j o s).1.jobs ≡ s.jobs)
  unfolding store_transcript
  store_transcript-Inv d key result j (some c) s v = (v, refl)
  store_transcript-Inv d key result j none s v = (outside-Inv _ _ s v, refl)

  completed_row-silent :
      (d : Draw) (key : Text) (result : CorrectionResult F) (c : CorrectedTranscript F)
      (j : TranscriptionJob F)
      → ((tid : Text) (i : ℕ) → requests_in tid i (completed_row d key result c j ∷ []) ≡ 0)
        × ((tid : Text) → announced_in tid (completed_row d key result c j ∷ []) ≡ 0)
  unfolding count completed_row
  completed_row-silent d key result c j = (λ tid i. refl, λ tid. refl)

  save_job-Inv :
      (d : Draw) (e key : Text) (result : CorrectionResult F) (tid : Text) (j : TranscriptionJob F)
      (s s' : Store F)
      → Inv s
      → get_job tid s ≡ some j
      → save_job d e key result j s ≡ ok (tt, s')
      → Inv s'
  unfolding save_job
  save_job-Inv d e key result tid j s s' v stored h =
      let o = find_row (is_version j.id result.dictionary_version) s.corrected in
      let c = (store_transcript d key result j o s).0 in
      let s1 = (store_transcript d key result j o s).1 in
      let (_, h1) =
        after_check (key_taken d key result j o s) Error.integrity_error
          (λ s.
            finish_job d e key result j (store_transcript d key result j o s).0
              (store_transcript d key result j o s).1)
          s h in
      let (v1, same_jobs) = store_transcript-Inv d key result j o s v in
      let (t, s2, moved, h2) =
        >>=-ok (complete_status j.status)
          (λ t.
            modify (put_job (record j { status = t; completed_at = some d.now }))
            >> (add_outbox (completed_row d key result c j)
                >> mark_processed Group.correction_workers e c.id))
          s1 h1 in
      let (merged, e2) = complete_status-merged j.status t s1 s2 moved in
      let j' = record j { status = t; completed_at = some d.now } in
      let s3 = put_job j' s2 in
      let stored2 : get_job tid s2 ≡ some j =
        rw e2 (subst (λ l. find_row (is_job tid) l ≡ some j) (sym same_jobs) stored) in
      let v3 =
        job-Inv s2 (subst Inv (sym e2) v1) tid j j' stored2 refl refl refl refl (λ _. merged) in
      let (_, s4, sent, h4) =
        >>=-ok (add_outbox (completed_row d key result c j))
          (λ _. mark_processed Group.correction_workers e c.id) s3 h2 in
      let e4 = add_outbox-ok (completed_row d key result c j) s3 s4 sent in
      let (q, a) = completed_row-silent d key result c j in
      let v4 = subst Inv (sym e4) (events-Inv s3 v3 (completed_row d key result c j ∷ []) q a) in
      let (e5, _) = mark_processed-ok Group.correction_workers e c.id s4 s' h4 in
      subst Inv (sym e5) (receipt-Inv s4 v4 (receipt Group.correction_workers e c.id))

  -- Saving a correction keeps the invariant.
  pub save-Inv :
      (d : Draw) (e : Text) (p : TranscriptCompleted) (key : Text) (result : CorrectionResult F)
      (s s' : Store F)
      → Inv s
      → save d e p key result s ≡ ok (tt, s')
      → Inv s'
  unfolding save
  save-Inv d e p key result s s' v h =
      elim (Bool-cases (is_processed Group.correction_workers e s)) [
        | inl seen ↦ let k = rw seen at h in let same : s ≡ s' = ground arith in subst Inv same v
        | inr fresh ↦
            let (j, s1, owner, h1) =
              >>=-ok (or_raise (get_job p.transcription_id s) Error.row_disappeared)
                (λ j. save_job d e key result j) s (rw fresh at h) in
            let (stored, e1) =
              or_raise-ok (get_job p.transcription_id s) Error.row_disappeared s owner in
            save_job-Inv d e key result p.transcription_id j s s' v stored
              (subst (λ t. save_job d e key result j t ≡ ok (tt, s')) e1 h1)
      ]
