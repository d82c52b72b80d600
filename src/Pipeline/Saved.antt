-- ===== src/Pipeline/Saved.antt =====
-- What the last transaction of `process` in app/services/correction_worker.py saves.
use mathlib.Core.Path.{subst}
use onramp_stt_api.Base.{
  ℕ, ◌≤◌, ◌≡◌, refl, sym, ap, ◌∙◌, Bool, true, false, Option, none, some, List, [], ◌∷◌, Text,
  eq_text_refl, count, count-append, count-singleton, find_row, Option-cases, inl, inr, arith,
}
use onramp_stt_api.Status.{job_transition, JobStatus}
use onramp_stt_api.Errors.{Error, ok}
use onramp_stt_api.Events.{Group, TranscriptCompleted}
use onramp_stt_api.Db.{Store, TranscriptionJob, CorrectedTranscript}
use onramp_stt_api.Db.Session.{
  ◌>>◌, >>=-ok, after_check, modify, put_job, get_job, is_job, is_processed, mark_processed,
  add_outbox, ensure_job_transition,
}
use onramp_stt_api.Clova.Effects.{mark_processed-ok, add_outbox-ok}
use onramp_stt_api.CorrectionWorker.{
  CorrectionResult, Draw, store_transcript, new_transcript, complete_status, completed_row,
  save_job, save, is_version, key_taken, finish_job,
}
use onramp_stt_api.Pipeline.Results.{put_job_found}

count_found :
    {R : Type 0} (p : R → Bool) (rs : List R) {r : R} → find_row p rs ≡ some r → 1 ≤ count p rs
unfolding find_row count
count_found p [] h = cc
count_found p (x ∷ rs) {r} h = ground (arith, count_found p rs {r = r})

count_absent : {R : Type 0} (p : R → Bool) (rs : List R) → find_row p rs ≡ none → count p rs ≡ 0
unfolding find_row count
count_absent p [] h = refl
count_absent p (x ∷ rs) h = ground (arith, count_absent p rs)

module _ {F : Type 0} where
  -- The corrected transcripts of a job by one version of the dictionary.
  abbrev pub versions : Text → Text → Store F → ℕ
  versions tid version s = count (is_version tid version) s.corrected

  one_version :
      (d : Draw) (key : Text) (result : CorrectionResult F) (j : TranscriptionJob F) (s : Store F)
      → versions j.id result.dictionary_version s ≤ 1
      → versions j.id result.dictionary_version
          (store_transcript d key result j
            (find_row (is_version j.id result.dictionary_version) s.corrected)
            s).1
        ≡ 1
  unfolding store_transcript
  one_version d key result j s h =
      let p = is_version j.id result.dictionary_version in
      elim (Option-cases (find_row p s.corrected)) [
        | inl new ↦
            let row = new_transcript d key result j in
            let hit : p row ≡ true =
              rw (eq_text_refl j.id, eq_text_refl result.dictionary_version) refl in
            rw new (
              count-append p s.corrected (row ∷ [])
              ∙ (rw (count_absent p s.corrected new, count-singleton p row, hit) refl))
        | inr (c, old) ↦ rw old (omega (arith, count_found p s.corrected {r = c} old))
      ]

  same_jobs :
      (d : Draw) (key : Text) (result : CorrectionResult F) (j : TranscriptionJob F)
      (o : Option (CorrectedTranscript F)) (s : Store F)
      → (store_transcript d key result j o s).1.jobs ≡ s.jobs
  unfolding store_transcript
  same_jobs d key result j none s = refl
  same_jobs d key result j (some c) s = refl

  completes :
      (t t' : JobStatus) (s s' : Store F)
      → complete_status t s ≡ ok (t', s')
      → (t' ≡ JobStatus.correction_completed) × (s' ≡ s)
  unfolding complete_status ensure_job_transition job_transition
  completes JobStatus.queued u s s' h = cc
  completes t u s s' h = ground arith

  save_job_saves :
      (d : Draw) (e key : Text) (result : CorrectionResult F) (tid : Text) (j : TranscriptionJob F)
      (s s' : Store F)
      → get_job tid s ≡ some j
      → versions j.id result.dictionary_version s ≤ 1
      → save_job d e key result j s ≡ ok (tt, s')
      → (get_job tid s'
          ≡ some (record j { status = JobStatus.correction_completed; completed_at = some d.now }))
        × (versions j.id result.dictionary_version s' ≡ 1)
  unfolding save_job
  save_job_saves d e key result tid j s s' stored few h =
      let o = find_row (is_version j.id result.dictionary_version) s.corrected in
      let c = (store_transcript d key result j o s).0 in
      let s1 = (store_transcript d key result j o s).1 in
      let (_, h1) =
        after_check (key_taken d key result j o s) Error.integrity_error
          (λ s.
            finish_job d e key result j (store_transcript d key result j o s).0
              (store_transcript d key result j o s).1)
          s h in
      let (t, s2, moved, h2) =
        >>=-ok (complete_status j.status)
          (λ t.
            modify (put_job (record j { status = t; completed_at = some d.now }))
            >> (add_outbox (completed_row d key result c j)
                >> mark_processed Group.correction_workers e c.id))
          s1 h1 in
      let (done, e2) = completes j.status t s1 s2 moved in
      let j' = record j { status = t; completed_at = some d.now } in
      let s3 = put_job j' s2 in
      let stored2 : get_job tid s2 ≡ some j = rw e2 (
        subst (λ l. find_row (is_job tid) l ≡ some j) (sym (same_jobs d key result j o s))
          stored) in
      let (_, s4, sent, h4) =
        >>=-ok (add_outbox (completed_row d key result c j))
          (λ _. mark_processed Group.correction_workers e c.id) s3 h2 in
      let e4 = add_outbox-ok (completed_row d key result c j) s3 s4 sent in
      let (e5, _) = mark_processed-ok Group.correction_workers e c.id s4 s' h4 in
      let jobs : s'.jobs ≡ s3.jobs =
        ap (λ (x : Store F). x.jobs) e5 ∙ ap (λ (x : Store F). x.jobs) e4 in
      let rows : s'.corrected ≡ s1.corrected =
        ap (λ (x : Store F). x.corrected) e5
        ∙ (ap (λ (x : Store F). x.corrected) e4 ∙ ap (λ (x : Store F). x.corrected) e2) in
      (
        ap (λ l. find_row (is_job tid) l) jobs
            ∙ (put_job_found tid j j' s2 stored2 refl
                ∙ ap (λ x. some (record j { status = x; completed_at = some d.now })) done),
        ap (λ l. count (is_version j.id result.dictionary_version) l) rows
            ∙ one_version d key result j s few,
      )

  -- When the result of a correction is saved, for an event that is not processed and a job that had
  -- at most one corrected transcript of the dictionary's version: the job is `correction_completed`
  -- and has exactly one corrected transcript of that version.
  pub save_saves_once :
      (d : Draw) (e : Text) (p : TranscriptCompleted) (key : Text) (result : CorrectionResult F)
      (j : TranscriptionJob F) (s s' : Store F)
      → get_job p.transcription_id s ≡ some j
      → is_processed Group.correction_workers e s ≡ false
      → versions j.id result.dictionary_version s ≤ 1
      → save d e p key result s ≡ ok (tt, s')
      → (get_job p.transcription_id s'
          ≡ some (record j { status = JobStatus.correction_completed; completed_at = some d.now }))
        × (versions j.id result.dictionary_version s' ≡ 1)
  unfolding save
  save_saves_once d e p key result j s s' stored fresh few h =
      let k : save_job d e key result j s ≡ ok (tt, s') = rw (fresh, stored) at h in
      save_job_saves d e key result p.transcription_id j s s' stored few k
