-- ===== src/Clova/Record.antt =====
-- app/services/clova_worker.py: `_record_success` and `_merge_transcription`, and what the worker
-- calls.
use onramp_stt_api.Base.{
  ◌+◌, Bool, true, false, not, ◌||◌, Option, none, some, List, [], ◌∷◌, map, Text, codes, eq_text,
  leb, ◌==◌, if◌then◌else◌, any, select, length, Unicode,
}
use onramp_stt_api.Float.{Float}
use onramp_stt_api.Status.{JobStatus, ChunkStatus, is_completed}
use onramp_stt_api.Errors.{Error, Result}
use onramp_stt_api.Events.{Stream, Group, Payload, ChunkRequested}
use onramp_stt_api.Db.{Store, TranscriptionJob, TranscriptionChunk, EventOutbox, Segment}
use onramp_stt_api.Db.Session.{
  Tx, pure, raise_if, raise_some, gets, modify, or_raise, ◌>>=◌, ◌>>◌, branch, get_job, get_chunk,
  put_job, put_chunk, mark_processed, add_outbox, new_event,
}
use onramp_stt_api.Merger.{asdict, or_default, merge_chunk_segments, render_plain_text}
use onramp_stt_api.Clova.{ProviderResult, Draw, result_key, record_progress}

-- What lies outside: the object storage and the provider, as each answers one call. `uniform b` is
-- `random.uniform(0, b)`.
pub record World (F : Type 0) : Type 0 where
  pub download : Text → Option Error
  pub transcribe : Text → Result (ProviderResult F)
  pub upload : Text → Option Error
  pub uniform : F → F

module _ {F : Type 0} where
  -- `.order_by(TranscriptionChunk.chunk_index)`
  unfoldable pub insert_by_index :
      TranscriptionChunk F → List (TranscriptionChunk F) → List (TranscriptionChunk F)
  insert_by_index c [] = c ∷ []
  insert_by_index c (d ∷ ds) =
      if leb c.chunk_index d.chunk_index then c ∷ d ∷ ds else d ∷ insert_by_index c ds

  unfoldable pub order_by_index : List (TranscriptionChunk F) → List (TranscriptionChunk F)
  unfolding insert_by_index
  order_by_index [] = []
  order_by_index (c ∷ cs) = insert_by_index c (order_by_index cs)

  -- the chunks of a job, in order
  unfoldable pub chunks_of : Text → Store F → List (TranscriptionChunk F)
  unfolding order_by_index
  chunks_of tid s = order_by_index (select (λ c. eq_text c.transcription_id tid) s.chunks)

module _ {F : Type 0} ⦃fl : Float F⦄ ⦃u : Unicode⦄ where
  -- The merged transcript of completed chunks.
  unfoldable pub merged_segments : List (TranscriptionChunk F) → List (Segment F)
  merged_segments cs =
      merge_chunk_segments (
        map (λ c. (c.source_mapping_json, map asdict (or_default c.normalized_segments_json [])))
          cs)

  -- the event "transcription.transcript.completed" of a job
  unfoldable pub transcript_row : Draw → TranscriptionJob F → EventOutbox F
  transcript_row d j =
      new_event d.first_id (codes "transcription") j.id Stream.transcript_completed
        (Payload.transcript_done (record {
          transcription_id = j.id;
          tenant_id = j.tenant_id;
          result_object_key = result_key j.tenant_id j.id;
        }))
        d.now d.now

  -- the job as `_merge_transcription` leaves it
  abbrev pub merged_job :
      Draw → List (TranscriptionChunk F) → TranscriptionJob F → TranscriptionJob F
  merged_job d cs j = record j {
    result_object_key = some (result_key j.tenant_id j.id);
    merged_text = some (render_plain_text (merged_segments cs));
    merged_segments_json = some (merged_segments cs);
    status = JobStatus.transcript_completed;
    completed_at = some d.now;
  }

  -- `len(chunks) != job.total_chunks or any(chunk.status != completed …)`
  abbrev pub is_incomplete : List (TranscriptionChunk F) → TranscriptionJob F → Bool
  is_incomplete cs j =
      not (length cs == j.total_chunks) || any (λ c. not (is_completed c.status)) cs

  -- `_merge_transcription`
  unfoldable pub merge_transcription :
      World F → Draw → TranscriptionJob F → Tx (Store F) (TranscriptionJob F)
  unfolding merged_segments chunks_of
  merge_transcription w d j = do
    cs ← gets (chunks_of j.id)
    raise_if (is_incomplete cs j) Error.incomplete_chunks
    raise_some (w.upload (result_key j.tenant_id j.id))
    add_outbox (transcript_row d j)
    pure (merged_job d cs j)

  -- the chunk as `_record_success` leaves it
  abbrev pub succeeded : Text → ProviderResult F → TranscriptionChunk F → TranscriptionChunk F
  succeeded raw_key result c = record c {
    status = ChunkStatus.completed;
    provider_job_id = result.provider_job_id;
    raw_response_object_key = some raw_key;
    recognized_text = some result.full_text;
    normalized_segments_json = some result.segments;
    next_retry_at = none;
    lease_owner = none;
    lease_expires_at = none;
  }

  -- the job of a completed chunk: merged, if that was the last one, with its progress reported
  unfoldable pub advance_job :
      World F → Draw → TranscriptionJob F → Tx (Store F) (TranscriptionJob F)
  unfolding merge_transcription record_progress
  advance_job w d j =
      let counted = record j { completed_chunks = j.completed_chunks + 1 } in
      branch (counted.completed_chunks == counted.total_chunks)
        (do
          merged ← merge_transcription w d (record counted { status = JobStatus.merging })
          record_progress d true merged)
        (record_progress d false counted)

  -- `_record_success` from the stored chunk and job on
  unfoldable pub settle_success :
      World F
      → Draw
      → Text
      → Text
      → ProviderResult F
      → TranscriptionChunk F
      → TranscriptionJob F
      → Tx (Store F) (Unit {0})
  unfolding advance_job
  settle_success w d e raw_key result c j =
      branch (is_completed c.status) (mark_processed Group.clova_workers e c.id) (do
        modify (put_chunk (succeeded raw_key result c))
        j' ← advance_job w d j
        modify (put_job j')
        mark_processed Group.clova_workers e c.id)

  -- `_record_success`
  unfoldable pub record_success :
      World F → Draw → ChunkRequested → Text → Text → ProviderResult F → Tx (Store F) (Unit {0})
  unfolding settle_success
  record_success w d r e raw_key result = do
    found ← gets (get_chunk r.transcription_id r.chunk_index)
    c ← or_raise found Error.row_disappeared
    owner ← gets (get_job r.transcription_id)
    j ← or_raise owner Error.row_disappeared
    settle_success w d e raw_key result c j
