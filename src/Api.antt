-- ===== src/Api.antt =====
-- app/api/v1/internal_transcriptions.py: the two views of a job, as functions of the database. The
-- routes, and the check of the responses by pydantic, are FastAPI's.
pub mod Views
use onramp_stt_api.Base.{
  ℕ, Bool, true, false, not, ◌||◌, Option, none, some, List, [], ◌∷◌, map, select, count, length,
  ltb, Text, codes, eq_text, if◌then◌else◌, is_none,
}
use onramp_stt_api.Status.{JobStatus, ChunkStatus, is_correction_completed}
use onramp_stt_api.Db.{Store, TranscriptionJob, TranscriptionChunk, CorrectedTranscript, Segment}
use onramp_stt_api.Db.Session.{get_job}
use onramp_stt_api.Merger.{or_default}
use onramp_stt_api.Clova.Record.{chunks_of}

pub record ChunkStatusResponse : Type 0 where
  pub chunk_index : ℕ
  pub status : ChunkStatus
  pub retry_count : ℕ
  pub recognized_text : Option Text
  pub error_code : Option Text

pub record TranscriptionStatusResponse (F : Type 0) : Type 0 where
  pub transcription_id : Text
  pub tenant_id : Text
  pub status : JobStatus
  pub provider : Text
  pub total_chunks : ℕ
  pub completed_chunks : ℕ
  pub failed_chunks : ℕ
  pub audio_duration_sec : Option F
  pub result_available : Bool
  pub chunks : List ChunkStatusResponse

pub record TranscriptBodyResponse (F : Type 0) : Type 0 where
  pub text_sha256 : Text
  pub text : Text
  pub segments : List (Segment F)

pub record CorrectedTranscriptBodyResponse (F : Type 0) : Type 0 where
  pub body : TranscriptBodyResponse F
  pub correction_count : ℕ
  pub review_candidate_count : ℕ

pub record TranscriptionResultResponse (F : Type 0) : Type 0 where
  pub transcription_id : Text
  pub tenant_id : Text
  pub provider : Text
  pub audio_duration_sec : Option F
  pub dictionary_version : Text
  pub raw : TranscriptBodyResponse F
  pub corrected : CorrectedTranscriptBodyResponse F

-- A response, or an `HTTPException` with its status code.
pub data Reply (A : Type 0) : Type 0 where
  found : A → Reply A
  http_exception : ℕ → Text → Reply A

module _ {F : Type 0} where
  abbrev pub chunk_view : TranscriptionChunk F → ChunkStatusResponse
  chunk_view c = record {
    chunk_index = c.chunk_index;
    status = c.status;
    retry_count = c.retry_count;
    recognized_text = c.recognized_text;
    error_code = c.error_code;
  }

  abbrev pub status_view : Store F → TranscriptionJob F → TranscriptionStatusResponse F
  status_view s j = record {
    transcription_id = j.id;
    tenant_id = j.tenant_id;
    status = j.status;
    provider = j.provider;
    total_chunks = j.total_chunks;
    completed_chunks = j.completed_chunks;
    failed_chunks = j.failed_chunks;
    audio_duration_sec = j.audio_duration_sec;
    result_available = is_correction_completed j.status;
    chunks = map chunk_view (chunks_of j.id s);
  }

  -- the answer, with the chunks of the store at the time of the second query
  unfoldable pub status_of :
      Store F → Option (TranscriptionJob F) → Reply (TranscriptionStatusResponse F)
  status_of s none = Reply.http_exception 404 (codes "Transcription not found.")
  status_of s (some j) = Reply.found (status_view s j)

  -- `get_transcription_status`: two queries, each on the store of its own moment. The chunks that are
  -- asked for by the id are those of the job.
  unfoldable pub get_transcription_status :
      Text → Store F → Store F → Reply (TranscriptionStatusResponse F)
  unfolding status_of
  get_transcription_status tid s later = status_of later (get_job tid s)

  -- `ORDER BY created_at DESC`, its first row: of rows with one time, the first
  unfoldable pub later :
      CorrectedTranscript F → Option (CorrectedTranscript F) → CorrectedTranscript F
  later c none = c
  later c (some d) = if ltb c.created_at d.created_at then d else c

  unfoldable pub newest : List (CorrectedTranscript F) → Option (CorrectedTranscript F)
  unfolding later
  newest [] = none
  newest (c ∷ cs) = some (later c (newest cs))

  unfoldable pub newest_corrected : Text → Store F → Option (CorrectedTranscript F)
  unfolding newest
  newest_corrected tid s = newest (select (λ c. eq_text c.transcription_id tid) s.corrected)

  -- `correction_count`
  unfoldable pub count_logs : CorrectedTranscript F → Store F → ℕ
  count_logs c s = count (λ l. eq_text l.corrected_transcript_id c.id) s.logs

  unfoldable pub result_view :
      (Text → Text)
      → Store F
      → TranscriptionJob F
      → Text
      → CorrectedTranscript F
      → TranscriptionResultResponse F
  unfolding count_logs
  result_view sha256 s j merged_text c = record {
    transcription_id = j.id;
    tenant_id = j.tenant_id;
    provider = j.provider;
    audio_duration_sec = j.audio_duration_sec;
    dictionary_version = c.dictionary_version;
    raw = record {
      text_sha256 = sha256 merged_text;
      text = merged_text;
      segments = or_default j.merged_segments_json [];
    };
    corrected = record {
      body = record {
        text_sha256 = c.corrected_text_sha256;
        text = c.corrected_text;
        segments = c.corrected_segments_json;
      };
      correction_count = count_logs c s;
      review_candidate_count = length c.review_candidates_json;
    };
  }

  unfoldable pub result_of :
      (Text → Text)
      → Store F
      → TranscriptionJob F
      → Option Text
      → Option (CorrectedTranscript F)
      → Reply (TranscriptionResultResponse F)
  unfolding result_view
  result_of sha256 s j (some merged_text) (some c) =
      if not (is_correction_completed j.status)
      then Reply.http_exception 409 (codes "Transcription result is not ready.")
      else Reply.found (result_view sha256 s j merged_text c)
  result_of sha256 s j t c = Reply.http_exception 409 (codes "Transcription result is not ready.")

  unfoldable pub result_for :
      (Text → Text)
      → Store F
      → Text
      → Option (TranscriptionJob F)
      → Reply (TranscriptionResultResponse F)
  unfolding newest_corrected result_of
  result_for sha256 s tid none = Reply.http_exception 404 (codes "Transcription not found.")
  result_for sha256 s tid (some j) = result_of sha256 s j j.merged_text (newest_corrected tid s)

  -- `get_transcription_result`, with its queries on one store
  unfoldable pub get_transcription_result :
      (Text → Text) → Text → Store F → Reply (TranscriptionResultResponse F)
  unfolding result_for
  get_transcription_result sha256 tid s = result_for sha256 s tid (get_job tid s)
