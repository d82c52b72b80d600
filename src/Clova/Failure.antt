-- ===== src/Clova/Failure.antt =====
-- app/services/clova_worker.py: `_record_failure`.
use onramp_stt_api.Base.{
  ℕ, ◌+◌, ◌-◌, ◌^◌, Bool, true, ◌&&◌, none, some, ◌++◌, Text, codes, leb, take, str_int, Unicode,
}
use onramp_stt_api.Float.{Float, fmin}
use onramp_stt_api.Status.{JobStatus, ChunkStatus}
use onramp_stt_api.Errors.{Error, retryable, code_of, message}
use onramp_stt_api.Events.{Stream, Group, Payload, ChunkRequested}
use onramp_stt_api.Db.{Store, TranscriptionJob, TranscriptionChunk, EventOutbox}
use onramp_stt_api.Db.Session.{
  Tx, gets, modify, or_raise, ◌>>=◌, ◌>>◌, branch, get_job, get_chunk, put_job, put_chunk,
  mark_processed, add_outbox, new_event,
}
use onramp_stt_api.Clova.{Settings, Draw, chunk_aggregate, record_progress}
use onramp_stt_api.Clova.Record.{World}

module _ {F : Type 0} ⦃fl : Float F⦄ ⦃u : Unicode⦄ where
  -- `min(backoff_max, backoff_base * 2 ** (retry_count - 1))`, and the jitter on top
  unfoldable pub backoff : Settings F → ℕ → F
  backoff cfg retries =
      fmin cfg.clova_backoff_max_sec
        (fl.mul cfg.clova_backoff_base_sec (fl.of_int (2 ^ (retries - 1))))

  unfoldable pub retry_at : Settings F → World F → Draw → ℕ → ℕ
  unfolding backoff
  retry_at cfg w d retries =
      let delay = backoff cfg retries in
      d.now
      + fl.micros (fl.add delay (w.uniform (fmin (fl.of_int 1) (fl.mul delay (fl.quot 1 10)))))

  -- the chunk as `_record_failure` leaves it, but for its status and `next_retry_at`
  abbrev pub set_back : Error → TranscriptionChunk F → TranscriptionChunk F
  set_back x c = record c {
    retry_count = c.retry_count + 1;
    error_code = some (code_of x);
    error_message = some (take 2000 (message x));
    lease_owner = none;
    lease_expires_at = none;
  }

  -- `error.retryable and chunk.retry_count <= settings.clova_max_retry_count`, after the increment
  abbrev pub can_retry : Settings F → Error → TranscriptionChunk F → Bool
  can_retry cfg x c = retryable x && leb (c.retry_count + 1) cfg.clova_max_retry_count

  abbrev pub failed_job : ChunkRequested → Error → TranscriptionJob F → TranscriptionJob F
  failed_job r x j = record j {
    failed_chunks = j.failed_chunks + 1;
    status = JobStatus.failed;
    error_code = some (code_of x);
    error_message =
        some (take 2000 (codes "Chunk " ++ str_int r.chunk_index ++ codes ": " ++ message x));
  }

  -- the chunk's event, to be published again at a later time
  unfoldable pub retry_row : Settings F → World F → Draw → ChunkRequested → ℕ → EventOutbox F
  unfolding retry_at
  retry_row cfg w d r retries =
      new_event d.first_id (codes "transcription_chunk")
        (chunk_aggregate r.transcription_id r.chunk_index) Stream.chunks (Payload.chunk_requested r)
        (retry_at cfg w d retries) d.now

  -- the dead letter of a chunk
  unfoldable pub dead_row : Draw → ChunkRequested → ℕ → Error → EventOutbox F
  dead_row d r retries x =
      new_event d.first_id (codes "transcription_chunk")
        (chunk_aggregate r.transcription_id r.chunk_index) Stream.dlq
        (Payload.chunk_failed r retries (code_of x)) d.now d.now

  -- `_record_failure` from the stored chunk and job on
  unfoldable pub settle_failure :
      Settings F
      → World F
      → Draw
      → ChunkRequested
      → Text
      → Error
      → TranscriptionChunk F
      → TranscriptionJob F
      → Tx (Store F) (Unit {0})
  unfolding record_progress retry_row dead_row
  settle_failure cfg w d r e x c j =
      let c' = set_back x c in
      branch (can_retry cfg x c)
        (do
          modify (
              put_chunk (record c' {
                status = ChunkStatus.retry_wait;
                next_retry_at = some (retry_at cfg w d c'.retry_count);
              }))
          add_outbox (retry_row cfg w d r c'.retry_count)
          mark_processed Group.clova_workers e c.id)
        (do
          modify (put_chunk (record c' { status = ChunkStatus.failed }))
          add_outbox (dead_row d r c'.retry_count x)
          j' ← record_progress d true (failed_job r x j)
          modify (put_job j')
          mark_processed Group.clova_workers e c.id)

  -- `_record_failure`
  unfoldable pub record_failure :
      Settings F → World F → Draw → ChunkRequested → Text → Error → Tx (Store F) (Unit {0})
  unfolding settle_failure
  record_failure cfg w d r e x = do
    found ← gets (get_chunk r.transcription_id r.chunk_index)
    c ← or_raise found Error.row_disappeared
    owner ← gets (get_job r.transcription_id)
    j ← or_raise owner Error.row_disappeared
    settle_failure cfg w d r e x c j
