-- ===== src/Events.antt =====
-- app/queue/constants.py and app/queue/events.py: streams, consumer groups, event types, and the
-- payloads that the services write.
use onramp_stt_api.Base.{ℕ, Text, codes, Bool, true, false, Option, none, some}
use onramp_stt_api.Status.{JobStatus}

pub data Stream : Type 0 where
  requests chunks progress transcript_completed completed commands dlq : Stream

unfoldable pub stream_name : Stream → Text
stream_name Stream.requests = codes "onramp:stt:requests:v1"
stream_name Stream.chunks = codes "onramp:stt:chunks:v1"
stream_name Stream.progress = codes "onramp:stt:progress:v1"
stream_name Stream.transcript_completed = codes "onramp:stt:transcript-completed:v1"
stream_name Stream.completed = codes "onramp:stt:completed:v1"
stream_name Stream.commands = codes "onramp:stt:commands:v1"
stream_name Stream.dlq = codes "onramp:stt:dlq:v1"

pub data Group : Type 0 where
  orchestrators clova_workers correction_workers command_handlers : Group

unfoldable pub eq_group : Group → Group → Bool
eq_group Group.orchestrators Group.orchestrators = true
eq_group Group.clova_workers Group.clova_workers = true
eq_group Group.correction_workers Group.correction_workers = true
eq_group Group.command_handlers Group.command_handlers = true
eq_group _ _ = false

-- `STREAM_GROUPS`
unfoldable pub stream_group : Stream → Option Group
stream_group Stream.requests = some Group.orchestrators
stream_group Stream.chunks = some Group.clova_workers
stream_group Stream.transcript_completed = some Group.correction_workers
stream_group Stream.commands = some Group.command_handlers
stream_group _ = none

pub record TranscriptionRequested : Type 0 where
  pub transcription_id : Text
  pub tenant_id : Text
  pub source_object_key : Text
  pub source_filename : Option Text
  pub source_content_type : Text
  pub source_size_bytes : ℕ

pub record ChunkRequested : Type 0 where
  pub transcription_id : Text
  pub tenant_id : Text
  pub chunk_index : ℕ
  pub chunk_object_key : Text

pub record ProgressUpdated (F : Type 0) : Type 0 where
  pub transcription_id : Text
  pub tenant_id : Text
  pub status : JobStatus
  pub completed_chunks : ℕ
  pub total_chunks : ℕ
  pub failed_chunks : ℕ
  pub progress_ratio : F
  pub occurred_at : ℕ

pub record TranscriptCompleted : Type 0 where
  pub transcription_id : Text
  pub tenant_id : Text
  pub result_object_key : Text

pub record TranscriptionCompleted : Type 0 where
  pub transcription_id : Text
  pub tenant_id : Text
  pub raw_text_sha256 : Text
  pub corrected_text_sha256 : Text
  pub dictionary_version : Text
  pub result_object_key : Text
  pub completed_at : ℕ

-- What an outbox row carries: the event type, with `payload_json` as the model that was dumped
-- into it, or the fields of the plain dictionary.
pub data Payload (F : Type 0) : Type 0 where
  chunk_requested : ChunkRequested → Payload F
  -- "transcription.chunk.failed", with `retry_count` and `error_code`
  chunk_failed : ChunkRequested → ℕ → Text → Payload F
  progressed : ProgressUpdated F → Payload F
  transcript_done : TranscriptCompleted → Payload F
  transcription_done : TranscriptionCompleted → Payload F
  -- "transcription.correction.failed": transcription, tenant, `retry_count` and `error_code`
  correction_failed : Text → Text → ℕ → Text → Payload F

unfoldable pub event_type : {F : Type 0} → Payload F → Text
event_type (chunk_requested r) = codes "transcription.chunk.requested"
event_type (chunk_failed r n c) = codes "transcription.chunk.failed"
event_type (progressed p) = codes "transcription.progressed"
event_type (transcript_done t) = codes "transcription.transcript.completed"
event_type (transcription_done t) = codes "transcription.completed"
event_type (correction_failed i t n c) = codes "transcription.correction.failed"

-- A message of a stream, with its payload as the model that the receiver validates it into.
pub record Envelope (P : Type 0) : Type 0 where
  pub event_id : Text
  pub payload : P
