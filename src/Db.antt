-- ===== src/Db.antt =====
-- app/db/models.py: the rows of the tables, and the database as the lists of its rows. Times are
-- whole microseconds; a UUID is its text. `created_at` and `updated_at` are kept where a query
-- reads them.
pub mod Session
use onramp_stt_api.Base.{ℕ, Bool, Text, Option, List}
use onramp_stt_api.Status.{JobStatus, ChunkStatus}
use onramp_stt_api.Events.{Stream, Group, Payload}

-- An entry of `source_mapping_json`: where a stretch of a chunk lies in the source.
pub record SourceMapping (F : Type 0) : Type 0 where
  pub chunk_start_sec : F
  pub chunk_end_sec : F
  pub source_start_sec : F
  pub source_end_sec : F

-- `ProviderSegment`, `MergedSegment` and `CorrectedSegment` have these five fields.
pub record Segment (F : Type 0) : Type 0 where
  pub start_time_sec : F
  pub end_time_sec : F
  pub text : Text
  pub speaker : Option Text
  pub confidence : Option F

pub record TranscriptionJob (F : Type 0) : Type 0 where
  pub id : Text
  pub tenant_id : Text
  pub status : JobStatus
  pub provider : Text
  pub source_object_key : Text
  pub normalized_object_key : Option Text
  pub source_filename : Text
  pub source_content_type : Text
  pub source_size_bytes : ℕ
  pub audio_duration_sec : Option F
  pub total_chunks : ℕ
  pub completed_chunks : ℕ
  pub failed_chunks : ℕ
  pub result_object_key : Option Text
  pub merged_text : Option Text
  pub merged_segments_json : Option (List (Segment F))
  pub last_progress_ratio : F
  pub last_progress_at : Option ℕ
  pub correction_retry_count : ℕ
  pub error_code : Option Text
  pub error_message : Option Text
  pub started_at : Option ℕ
  pub completed_at : Option ℕ

pub record TranscriptionChunk (F : Type 0) : Type 0 where
  pub id : Text
  pub transcription_id : Text
  pub chunk_index : ℕ
  pub status : ChunkStatus
  pub chunk_object_key : Text
  pub chunk_duration_sec : F
  pub source_mapping_json : List (SourceMapping F)
  pub provider_job_id : Option Text
  pub raw_response_object_key : Option Text
  pub recognized_text : Option Text
  pub normalized_segments_json : Option (List (Segment F))
  pub retry_count : ℕ
  pub next_retry_at : Option ℕ
  pub error_code : Option Text
  pub error_message : Option Text
  pub lease_owner : Option Text
  pub lease_expires_at : Option ℕ

pub record EventOutbox (F : Type 0) : Type 0 where
  pub id : Text
  pub aggregate_type : Text
  pub aggregate_id : Text
  pub stream : Stream
  pub payload : Payload F
  pub available_at : ℕ
  pub publish_attempts : ℕ
  pub published_at : Option ℕ
  pub last_error : Option Text
  pub created_at : ℕ

pub record EventInbox : Type 0 where
  pub consumer_group : Group
  pub event_id : Text
  pub result_reference : Option Text

pub record ReviewCandidate : Type 0 where
  pub segment_index : ℕ
  pub text : Text
  pub canonical : Text
  pub reason : Text
  pub context_evidence : Text

pub record CorrectedTranscript (F : Type 0) : Type 0 where
  pub id : Text
  pub tenant_id : Text
  pub transcription_id : Text
  pub raw_text_sha256 : Text
  pub corrected_text : Text
  pub corrected_segments_json : List (Segment F)
  pub corrected_text_sha256 : Text
  pub dictionary_version : Text
  pub result_object_key : Option Text
  pub review_candidates_json : List ReviewCandidate
  pub prompt_version : Option Text
  pub llm_applied : Bool
  pub created_at : ℕ

pub record SttCorrectionLog (F : Type 0) : Type 0 where
  pub corrected_transcript_id : Text
  pub segment_index : ℕ
  pub start_time_sec : F
  pub end_time_sec : F
  pub term_id : Text
  pub replace_policy : Text
  pub original_text : Text
  pub corrected_text : Text
  pub context_evidence : Option Text
  pub decision : Text

pub record Store (F : Type 0) : Type 0 where
  pub jobs : List (TranscriptionJob F)
  pub chunks : List (TranscriptionChunk F)
  pub outbox : List (EventOutbox F)
  pub inbox : List EventInbox
  pub corrected : List (CorrectedTranscript F)
  pub logs : List (SttCorrectionLog F)
