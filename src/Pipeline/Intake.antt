-- ===== src/Pipeline/Intake.antt =====
-- `_ensure_job` and `_mark_failed` of app/services/orchestrator.py keep the pipeline's invariant.
pub mod Stored
use mathlib.Core.Path.{subst}
use onramp_stt_api.Base.{
  ℕ, ◌+◌, ◌≤◌, ◌≡◌, ◌⊎◌, refl, sym, ap, ◌∙◌, true, false, not, ◌&&◌, none, some, List, [], ◌∷◌,
  ◌++◌, Text, codes, eq_text, ◌==◌, b_to_n, find_row, find_row-append_found, find_row-append_none,
  any, length, Bool-cases, Option-cases, ==_iff, inl, inr, arith,
}
use onramp_stt_api.Float.{Float}
use onramp_stt_api.Errors.{Error, ok}
use onramp_stt_api.Events.{Group, Stream, Payload, TranscriptionRequested}
use onramp_stt_api.Db.{Store, TranscriptionJob, TranscriptionChunk, EventOutbox}
use onramp_stt_api.Db.Session.{
  ◌>>=◌, ◌>>◌, >>=-ok, or_raise, or_raise-ok, pure, modify, gets, branch, put_job, get_job,
  get_chunk, is_job, is_chunk, is_processed, mark_processed, add_outbox, new_event,
}
use onramp_stt_api.Vad.{VadChunk}
use onramp_stt_api.Clova.{chunk_aggregate}
use onramp_stt_api.Clova.Effects.{mark_processed-ok, add_outbox-ok, receipt, with_events}
use onramp_stt_api.Orchestrator.{
  AudioMetadata, new_job, ensure_found, ensure_job, add_chunk, add_chunks, chunk_row, request_of,
  transcribing_job, store_chunks, mark_failed_found, mark_failed,
}
use onramp_stt_api.Pipeline.{Inv, is_merged, is_done, announcements, chunk_rows, completed_rows}
use onramp_stt_api.Pipeline.Rows.{get_job-key, completed_le_rows}
use onramp_stt_api.Pipeline.Quiet.{receipt-Inv, job-Inv, put_job_cases, put_job-none}
use onramp_stt_api.Pipeline.Filling.{Filling, Filling-Inv, filled-Filling, any-find_row}

module _ {F : Type 0} ⦃fl : Float F⦄ where
  found_unchanged :
      (now : ℕ) (r : TranscriptionRequested) (j : TranscriptionJob F) (s s' : Store F)
      → ensure_found now r (some j) s ≡ ok (tt, s')
      → s' ≡ s
  unfolding ensure_found
  found_unchanged now r j s s' h = ground arith

  abbrev with_job : TranscriptionJob F → Store F → Store F
  with_job j s = record s { jobs = s.jobs ++ j ∷ [] }

  new_appended :
      (now : ℕ) (r : TranscriptionRequested) (s s' : Store F)
      → ensure_found now r none s ≡ ok (tt, s')
      → s' ≡ with_job (new_job now r) s
  unfolding ensure_found
  new_appended now r s s' h = ground arith

  get_job-with_job :
      (t : Text) (j y : TranscriptionJob F) (s : Store F)
      → get_job t (with_job j s) ≡ some y
      → (get_job t s ≡ some y) ⊎ ((get_job t s ≡ none) × (j ≡ y) × (eq_text j.id t ≡ true))
  unfolding find_row
  get_job-with_job t j y s h = elim (Option-cases (get_job t s)) [
    | inr (x, was) ↦ inl (was ∙ sym (find_row-append_found (is_job t) s.jobs (j ∷ []) was) ∙ h)
    | inl absent ↦
        let e = sym (find_row-append_none (is_job t) s.jobs (j ∷ []) absent) ∙ h in
        inr (absent, ground arith, ground arith)
  ]

  get_job-with_job-none :
      (t : Text) (j : TranscriptionJob F) (s : Store F)
      → get_job t (with_job j s) ≡ none
      → get_job t s ≡ none
  get_job-with_job-none t j s h = elim (Option-cases (get_job t s)) [
    | inl absent ↦ absent
    | inr (x, was) ↦
        let e : some x ≡ none = sym (find_row-append_found (is_job t) s.jobs (j ∷ []) was) ∙ h in cc
  ]

  append-Inv :
      (now : ℕ) (r : TranscriptionRequested) (s : Store F)
      → Inv s
      → get_job r.transcription_id s ≡ none
      → Inv (with_job (new_job now r) s)
  unfolding is_processed
  append-Inv now r s v absent = record {
    live = v.live;
    chunkless = v.chunkless;
    counted = λ t y h. elim (get_job-with_job t (new_job now r) y s h) [
      | inl was ↦ v.counted t y was
      | inr (gone, e, _) ↦ rw (← e) (omega (arith, v.jobless t gone, completed_le_rows t s))
    ];
    sized = λ t y h. elim (get_job-with_job t (new_job now r) y s h) [
      | inl was ↦ v.sized t y was
      | inr (gone, e, _) ↦ rw (← e) (sym (v.jobless t gone))
    ];
    jobless = λ t h. v.jobless t (get_job-with_job-none t (new_job now r) s h);
    announced = λ t y h. elim (get_job-with_job t (new_job now r) y s h) [
      | inl was ↦ v.announced t y was
      | inr (gone, e, _) ↦ rw (← e) (v.unannounced t gone)
    ];
    unannounced = λ t h. v.unannounced t (get_job-with_job-none t (new_job now r) s h);
    complete = λ t y h m. elim (get_job-with_job t (new_job now r) y s h) [
      | inl was ↦ v.complete t y was m
      | inr (gone, e, _) ↦ rw (← e) refl
    ];
    worded = λ t y h m. elim (get_job-with_job t (new_job now r) y s h) [
      | inl was ↦ v.worded t y was m
      | inr (gone, e, _) ↦ let k = rw (← e) at m in cc
    ];
  }

  -- Adding a job, or finding it, keeps the invariant.
  pub ensure_job-Inv :
      (now : ℕ) (r : TranscriptionRequested) (s s' : Store F)
      → Inv s
      → ensure_job now r s ≡ ok (tt, s')
      → Inv s'
  unfolding ensure_job
  ensure_job-Inv now r s s' v h = elim (Option-cases (get_job r.transcription_id s)) [
    | inr (j, stored) ↦
        let k = rw stored at h in
        let same : s' ≡ s = found_unchanged now r j s s' k in subst Inv (sym same) v
    | inl absent ↦
        let k = rw absent at h in
        let e = new_appended now r s s' k in subst Inv (sym e) (append-Inv now r s v absent)
  ]

  -- Marking a job as failed keeps the invariant.
  pub mark_failed-Inv : (tid : Text) (x : Error) (s : Store F) → Inv s → Inv (mark_failed tid x s)
  unfolding mark_failed
  mark_failed-Inv tid x s v = elim (Option-cases (get_job tid s)) [
    | inl absent ↦ rw (absent, mark_failed_found) v
    | inr (j, stored) ↦
        rw (stored, mark_failed_found)
          (job-Inv s v tid j _ stored refl refl refl refl (λ m. ground arith))
  ]
