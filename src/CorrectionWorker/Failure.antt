-- ===== src/CorrectionWorker/Failure.antt =====
-- app/services/correction_worker.py: `record_failure`.
use onramp_stt_api.Base.{
  ℕ, ◌+◌, Bool, true, false, ◌&&◌, some, Text, codes, leb, if◌then◌else◌, take,
}
use onramp_stt_api.Float.{Float}
use onramp_stt_api.Status.{JobStatus}
use onramp_stt_api.Errors.{Error, is_stt_error, retryable, code_of, type_name, message}
use onramp_stt_api.Events.{Stream, Group, Payload, TranscriptCompleted}
use onramp_stt_api.Db.{Store, TranscriptionJob, EventOutbox}
use onramp_stt_api.Db.Session.{
  Tx, pure, gets, modify, or_raise, branch, ◌>>=◌, ◌>>◌, get_job, put_job, is_processed,
  mark_processed, add_outbox, new_event, ensure_job_transition,
}
use onramp_stt_api.Clova.{progress_ratio}
use onramp_stt_api.CorrectionWorker.{Draw}

-- `_error_code`; `lower` is `str.lower`
unfoldable pub error_code : (Text → Text) → Error → Text
error_code lower x = if is_stt_error x then code_of x else lower (type_name x)

module _ {F : Type 0} ⦃fl : Float F⦄ where
  -- `job` with the failure counted
  abbrev pub counted_failure : (Text → Text) → Error → TranscriptionJob F → TranscriptionJob F
  counted_failure lower x j = record j {
    correction_retry_count = j.correction_retry_count + 1;
    error_code = some (error_code lower x);
    error_message = some (take 2000 (message x));
  }

  unfoldable pub failed_progress_row : Draw → TranscriptionJob F → EventOutbox F
  failed_progress_row d j =
      new_event d.first_id (codes "transcription") j.id Stream.progress
        (Payload.progressed (record {
          transcription_id = j.id;
          tenant_id = j.tenant_id;
          status = JobStatus.failed;
          completed_chunks = j.completed_chunks;
          total_chunks = j.total_chunks;
          failed_chunks = j.failed_chunks;
          progress_ratio = progress_ratio j;
          occurred_at = d.now;
        }))
        d.now d.now

  unfoldable pub dead_letter : Draw → Text → TranscriptionJob F → EventOutbox F
  dead_letter d code j =
      new_event d.second_id (codes "transcription") j.id Stream.dlq
        (Payload.correction_failed j.id j.tenant_id j.correction_retry_count code) d.now d.now

  -- `isinstance(error, SttError) and error.retryable and job.correction_retry_count <= …`
  abbrev pub tries_again : ℕ → Error → TranscriptionJob F → Bool
  tries_again limit x j = retryable x && leb (j.correction_retry_count + 1) limit

  -- `record_failure` from the job on: whether the message is finished with
  unfoldable pub fail_job :
      (Text → Text) → ℕ → Draw → Text → Error → TranscriptionJob F → Tx (Store F) Bool
  unfolding failed_progress_row dead_letter
  fail_job lower limit d e x j =
      let j' = counted_failure lower x j in
      let lost = record j' { status = JobStatus.failed } in
      branch (tries_again limit x j) (do modify (put_job j'); pure false)
        (do
          ensure_job_transition j.status JobStatus.failed
          modify (put_job lost)
          add_outbox (failed_progress_row d lost)
          add_outbox (dead_letter d (error_code lower x) lost)
          mark_processed Group.correction_workers e j.id
          pure true)

  unfoldable pub record_failure :
      (Text → Text) → ℕ → Draw → Text → TranscriptCompleted → Error → Tx (Store F) Bool
  unfolding fail_job
  record_failure lower limit d e p x = do
    seen ← gets (is_processed Group.correction_workers e)
    branch seen (pure true) (do
      found ← gets (get_job p.transcription_id)
      j ← or_raise found Error.row_disappeared
      fail_job lower limit d e x j)
