-- ===== src/Pipeline/Record/Kept.antt =====
-- `_record_success` and `_record_failure` of app/services/clova_worker.py keep the pipeline's
-- invariant, for a request that was published.
use mathlib.Core.Path.{subst}
use onramp_stt_api.Base.{
  ◌+◌, ◌≡◌, sym, ap, ◌∙◌, true, some, [], ◌∷◌, Text, write_row_same, Bool-cases, inl, inr, Unicode,
}
use onramp_stt_api.Float.{Float}
use onramp_stt_api.Status.{is_completed}
use onramp_stt_api.Errors.{Error, ok}
use onramp_stt_api.Events.{Group, ChunkRequested}
use onramp_stt_api.Db.{Store, TranscriptionJob, TranscriptionChunk}
use onramp_stt_api.Db.Session.{get_job, is_job, put_chunk}
use onramp_stt_api.Clova.{Settings, ProviderResult, Draw}
use onramp_stt_api.Clova.Record.{World, settle_success, record_success, succeeded}
use onramp_stt_api.Clova.Failure.{
  settle_failure, record_failure, can_retry, retry_row, dead_row, failed_job,
}
use onramp_stt_api.Clova.Effects.{
  mark_processed-ok, receipt, with_receipt, with_events, progress_rows, progressed_job,
}
use onramp_stt_api.Clova.Outcome.{
  settle_success-ok, settle_success_repeated, settle_failure-retry, settle_failure-dead, outcome,
  waiting, dead,
}
use onramp_stt_api.Pipeline.{Inv}
use onramp_stt_api.Pipeline.Rows.{get_job-key}
use onramp_stt_api.Pipeline.Deliver.Counters.{delivery-Inv}
use onramp_stt_api.Pipeline.Quiet.{receipt-Inv}
use onramp_stt_api.Pipeline.Record.{
  Published, both_found, success-Delivery, retry-Delivery, dead-Delivery,
}

module _ {F : Type 0} ⦃fl : Float F⦄ ⦃u : Unicode⦄ where
  -- Writing a job back unchanged is no write.
  same_jobs :
      (cfg : Settings F) (w : World F) (d : Draw) (r : ChunkRequested) (e : Text) (x : Error)
      (c : TranscriptionChunk F) (j : TranscriptionJob F) (s : Store F)
      → get_job r.transcription_id s ≡ some j
      → with_receipt (receipt Group.clova_workers e c.id) (
          with_events
            (retry_row cfg w d r (c.retry_count + 1) ∷ [])
            (put_chunk (waiting cfg w d x c) s))
        ≡ outcome (waiting cfg w d x c) j (retry_row cfg w d r (c.retry_count + 1) ∷ []) e s
  same_jobs cfg w d r e x c j s owner =
      ap
        (λ l. with_receipt (receipt Group.clova_workers e c.id) (
          with_events (retry_row cfg w d r (c.retry_count + 1) ∷ [])
            (put_chunk (waiting cfg w d x c) (record s { jobs = l }))))
        (sym (
          write_row_same (is_job j.id) s.jobs (
            subst (λ t. get_job t s ≡ some j) (sym (get_job-key r.transcription_id s j owner))
              owner)))

  -- Recording a success keeps the invariant.
  pub record_success-Inv :
      (w : World F) (d : Draw) (r : ChunkRequested) (e raw_key : Text) (result : ProviderResult F)
      (s s' : Store F)
      → Inv s
      → Published r e s
      → record_success w d r e raw_key result s ≡ ok (tt, s')
      → Inv s'
  unfolding record_success
  record_success-Inv w d r e raw_key result s s' v p h =
      let (c, j, stored, owner, k) =
        both_found Unit r (λ c j. settle_success w d e raw_key result c j) s (tt, s') h in
      elim (Bool-cases (is_completed c.status)) [
        | inl done ↦
            let (e1, _) =
              mark_processed-ok Group.clova_workers e c.id s s'
                (sym (settle_success_repeated w d e raw_key result c j s done) ∙ k) in
            subst Inv (sym e1) (receipt-Inv s v (receipt Group.clova_workers e c.id))
        | inr more ↦
            let (j', es, adv, e1, fresh) = settle_success-ok w d e raw_key result c j s s' more k in
            subst Inv (sym e1) (
              delivery-Inv s c (succeeded raw_key result c) j j' es e p.row v
                (success-Delivery s r e p c j stored owner fresh raw_key result j' es adv))
      ]

  -- Recording a failure keeps the invariant.
  pub record_failure-Inv :
      (cfg : Settings F) (w : World F) (d : Draw) (r : ChunkRequested) (e : Text) (x : Error)
      (s s' : Store F)
      → Inv s
      → Published r e s
      → record_failure cfg w d r e x s ≡ ok (tt, s')
      → Inv s'
  unfolding record_failure
  record_failure-Inv cfg w d r e x s s' v p h =
      let (c, j, stored, owner, k) =
        both_found Unit r (λ c j. settle_failure cfg w d r e x c j) s (tt, s') h in
      elim (Bool-cases (can_retry cfg x c)) [
        | inl again ↦
            let (e1, fresh) = settle_failure-retry cfg w d r e x c j s s' again k in
            subst Inv (sym (e1 ∙ same_jobs cfg w d r e x c j s owner)) (
              delivery-Inv s c (waiting cfg w d x c) j j
                (retry_row cfg w d r (c.retry_count + 1) ∷ []) e p.row v
                (retry-Delivery s r e p c j stored owner fresh cfg w d x (c.retry_count + 1)))
        | inr last ↦
            let (e1, fresh) = settle_failure-dead cfg w d r e x c j s s' last k in
            subst Inv (sym e1) (
              delivery-Inv s c (dead x c) j (progressed_job d true (failed_job r x j))
                (dead_row d r (c.retry_count + 1) x ∷ progress_rows d true (failed_job r x j)) e
                p.row v (dead-Delivery s r e p c j stored owner fresh d x (c.retry_count + 1)))
      ]
