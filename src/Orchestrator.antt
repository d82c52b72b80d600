-- ===== src/Orchestrator.antt =====
-- app/services/orchestrator.py: a transcription request becomes a job, its audio is cut into
-- chunks, and one transaction stores the chunks with a request for each.
pub mod Process
use onramp_stt_api.Base.{
  ℕ, suc, ◌+◌, ◌≡◌, refl, Bool, true, false, not, ◌&&◌, ◌||◌, Option, none, some, List, [], ◌∷◌,
  ◌++◌, map, Text, codes, eq_text, ◌==◌, if◌then◌else◌, is_none, length, take, ltb, str_int,
  format_04d, any,
}
use onramp_stt_api.Float.{Float, flt}
use onramp_stt_api.Status.{JobStatus, ChunkStatus}
use onramp_stt_api.Errors.{Error, Result, ok, err, code_or_name, message}
use onramp_stt_api.Events.{Stream, Group, Payload, TranscriptionRequested, ChunkRequested, Envelope}
use onramp_stt_api.Db.{Store, TranscriptionJob, TranscriptionChunk}
use onramp_stt_api.Db.Session.{
  Tx, pure, raise, raise_if, gets, modify, or_raise, branch, ◌>>=◌, ◌>>◌, committed, get_job,
  is_chunk, put_job, is_processed, mark_processed, add_outbox, new_event,
}
use onramp_stt_api.Vad.{VadChunk, WavFormat}
use onramp_stt_api.Vad
use onramp_stt_api.Vad.Pack.{split}
use onramp_stt_api.Clova.{chunk_aggregate}

-- the parts of `AudioMetadata` that the service reads
pub record AudioMetadata (F : Type 0) : Type 0 where
  pub duration_sec : F
  pub size_bytes : ℕ

-- `Path(key).name`: the last part of the key that is neither empty nor a dot
name_from : Text → Text → Text → Text
name_from best current [] =
    if eq_text current [] || eq_text current (codes ".") then best else current
name_from best current (c ∷ s) =
    if c == b'/'
    then name_from (if eq_text current [] || eq_text current (codes ".") then best else current) []
        s
    else name_from best (current ++ c ∷ []) s

unfoldable pub path_name : Text → Text
unfolding name_from
path_name s = name_from [] [] s

-- `request.source_filename or Path(request.source_object_key).name`
unfoldable pub filename_of : TranscriptionRequested → Text
unfolding path_name
filename_of r = elim r.source_filename [
  | none ↦ path_name r.source_object_key
  | some n ↦ if eq_text n [] then path_name r.source_object_key else n
]

unfoldable pub object_prefix : Text → Text → Text
object_prefix tenant tid = codes "tenants/" ++ tenant ++ codes "/transcriptions/" ++ tid

unfoldable pub normalized_key : TranscriptionRequested → Text
unfolding object_prefix
normalized_key r = object_prefix r.tenant_id r.transcription_id ++ codes "/normalized/source.wav"

unfoldable pub chunk_key : TranscriptionRequested → ℕ → Text
unfolding object_prefix
chunk_key r i =
    object_prefix r.tenant_id r.transcription_id ++ codes "/chunks/" ++ format_04d i ++ codes ".wav"

module _ {F : Type 0} ⦃fl : Float F⦄ where
  -- The row that `_ensure_job` adds, with the column defaults.
  abbrev pub new_job : ℕ → TranscriptionRequested → TranscriptionJob F
  new_job now r = record {
    id = r.transcription_id;
    tenant_id = r.tenant_id;
    status = JobStatus.preprocessing;
    provider = codes "clova";
    source_object_key = r.source_object_key;
    normalized_object_key = none;
    source_filename = filename_of r;
    source_content_type = r.source_content_type;
    source_size_bytes = r.source_size_bytes;
    audio_duration_sec = none;
    total_chunks = 0;
    completed_chunks = 0;
    failed_chunks = 0;
    result_object_key = none;
    merged_text = none;
    merged_segments_json = none;
    last_progress_ratio = fl.of_int 0;
    last_progress_at = none;
    correction_retry_count = 0;
    error_code = none;
    error_message = none;
    started_at = some now;
    completed_at = none;
  }

  -- `_ensure_job` with the row that it finds
  unfoldable pub ensure_found :
      ℕ → TranscriptionRequested → Option (TranscriptionJob F) → Tx (Store F) (Unit {0})
  ensure_found now r (some j) =
      raise_if
        (not (eq_text j.tenant_id r.tenant_id)
          || not (eq_text j.source_object_key r.source_object_key))
        Error.event_job_mismatch
  ensure_found now r none = modify (λ s. record s { jobs = s.jobs ++ new_job now r ∷ [] })

  -- `_ensure_job`
  unfoldable pub ensure_job : ℕ → TranscriptionRequested → Tx (Store F) (Unit {0})
  unfolding ensure_found
  ensure_job now r s = ensure_found now r (get_job r.transcription_id s) s

  -- A chunk's row and its event; `ids i` is the chunk's `uuid4()` and `events i` its event's id.
  abbrev pub chunk_row :
      (ℕ → Text) → TranscriptionRequested → Text → VadChunk F → TranscriptionChunk F
  chunk_row ids r tid c = record {
    id = ids c.index;
    transcription_id = tid;
    chunk_index = c.index;
    status = ChunkStatus.pending;
    chunk_object_key = chunk_key r c.index;
    chunk_duration_sec = c.duration_sec;
    source_mapping_json = c.source_mappings;
    provider_job_id = none;
    raw_response_object_key = none;
    recognized_text = none;
    normalized_segments_json = none;
    retry_count = 0;
    next_retry_at = none;
    error_code = none;
    error_message = none;
    lease_owner = none;
    lease_expires_at = none;
  }

  -- A second row for one chunk index of a job is refused (`uq_transcription_chunk_index`).
  unfoldable pub add_chunk : TranscriptionChunk F → Tx (Store F) (Unit {0})
  add_chunk c s =
      if any (is_chunk c.transcription_id c.chunk_index) s.chunks
      then err Error.integrity_error
      else ok (tt, record s { chunks = s.chunks ++ c ∷ [] })

  abbrev pub request_of : TranscriptionRequested → TranscriptionJob F → VadChunk F → ChunkRequested
  request_of r j c = record {
    transcription_id = j.id;
    tenant_id = j.tenant_id;
    chunk_index = c.index;
    chunk_object_key = chunk_key r c.index;
  }

  -- The loop over the uploaded chunks.
  unfoldable pub add_chunks :
      ℕ
      → (ℕ → Text)
      → (ℕ → Text)
      → TranscriptionRequested
      → TranscriptionJob F
      → List (VadChunk F)
      → Tx (Store F) (Unit {0})
  unfolding add_chunk
  add_chunks now ids events r j [] = pure tt
  add_chunks now ids events r j (c ∷ cs) = do
    add_chunk (chunk_row ids r j.id c)
    add_outbox (
        new_event (events c.index) (codes "transcription_chunk") (chunk_aggregate j.id c.index)
          Stream.chunks (Payload.chunk_requested (request_of r j c)) now now)
    add_chunks now ids events r j cs

  abbrev pub transcribing_job :
      AudioMetadata F → TranscriptionRequested → ℕ → TranscriptionJob F → TranscriptionJob F
  transcribing_job m r n j = record j {
    status = JobStatus.transcribing;
    normalized_object_key = some (normalized_key r);
    audio_duration_sec = some m.duration_sec;
    source_size_bytes = m.size_bytes;
    total_chunks = n;
  }

  -- The transaction of `_preprocess`: the chunks are stored once.
  unfoldable pub store_chunks :
      ℕ
      → (ℕ → Text)
      → (ℕ → Text)
      → TranscriptionRequested
      → Text
      → AudioMetadata F
      → List (VadChunk F)
      → Tx (Store F) (Unit {0})
  unfolding add_chunks
  store_chunks now ids events r e m cs = do
    owner ← gets (get_job r.transcription_id)
    j ← or_raise owner Error.row_disappeared
    seen ← gets (is_processed Group.orchestrators e)
    branch seen (pure tt) (
        branch (not (j.total_chunks == 0)) (mark_processed Group.orchestrators e j.id) (do
          modify (put_job (transcribing_job m r (length cs) j))
          add_chunks now ids events r j cs
          mark_processed Group.orchestrators e j.id))

  -- `_mark_failed`
  unfoldable pub mark_failed_found : Error → Option (TranscriptionJob F) → Store F → Store F
  mark_failed_found x none s = s
  mark_failed_found x (some j) s =
      put_job
        (record j {
          status = JobStatus.failed;
          error_code = code_or_name x;
          error_message = some (take 2000 (message x));
        })
        s

  unfoldable pub mark_failed : Text → Error → Store F → Store F
  unfolding mark_failed_found
  mark_failed tid x s = mark_failed_found x (get_job tid s) s
