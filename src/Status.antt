-- ===== src/Status.antt =====
-- app/db/models.py, the two status enumerations, and app/services/job_state.py, the transitions
-- that it allows between them.
pub mod Graph
use onramp_stt_api.Base.{Bool, true, false, Text, codes, if◌then◌else◌, ◌≡◌, refl}

pub data JobStatus : Type 0 where
  queued preprocessing transcribing merging transcript_completed correcting : JobStatus
  correction_completed failed cancelled : JobStatus

pub data ChunkStatus : Type 0 where
  pending processing retry_wait completed failed cancelled : ChunkStatus

pub JobStatus-discrete : Discrete JobStatus
JobStatus-discrete = hlevel

-- `JobStatus.value`
unfoldable pub job_status_value : JobStatus → Text
job_status_value JobStatus.queued = codes "queued"
job_status_value JobStatus.preprocessing = codes "preprocessing"
job_status_value JobStatus.transcribing = codes "transcribing"
job_status_value JobStatus.merging = codes "merging"
job_status_value JobStatus.transcript_completed = codes "transcript_completed"
job_status_value JobStatus.correcting = codes "correcting"
job_status_value JobStatus.correction_completed = codes "correction_completed"
job_status_value JobStatus.failed = codes "failed"
job_status_value JobStatus.cancelled = codes "cancelled"

-- `ChunkStatus.value`
unfoldable pub chunk_status_value : ChunkStatus → Text
chunk_status_value ChunkStatus.pending = codes "pending"
chunk_status_value ChunkStatus.processing = codes "processing"
chunk_status_value ChunkStatus.retry_wait = codes "retry_wait"
chunk_status_value ChunkStatus.completed = codes "completed"
chunk_status_value ChunkStatus.failed = codes "failed"
chunk_status_value ChunkStatus.cancelled = codes "cancelled"

-- `target in JOB_TRANSITIONS[current]`
unfoldable pub job_transition : JobStatus → JobStatus → Bool
job_transition JobStatus.queued JobStatus.preprocessing = true
job_transition JobStatus.queued JobStatus.cancelled = true
job_transition JobStatus.queued JobStatus.failed = true
job_transition JobStatus.preprocessing JobStatus.transcribing = true
job_transition JobStatus.preprocessing JobStatus.cancelled = true
job_transition JobStatus.preprocessing JobStatus.failed = true
job_transition JobStatus.transcribing JobStatus.merging = true
job_transition JobStatus.transcribing JobStatus.cancelled = true
job_transition JobStatus.transcribing JobStatus.failed = true
job_transition JobStatus.merging JobStatus.transcript_completed = true
job_transition JobStatus.merging JobStatus.failed = true
job_transition JobStatus.transcript_completed JobStatus.correcting = true
job_transition JobStatus.transcript_completed JobStatus.failed = true
job_transition JobStatus.correcting JobStatus.correction_completed = true
job_transition JobStatus.correcting JobStatus.failed = true
job_transition JobStatus.failed JobStatus.queued = true
job_transition _ _ = false

-- `target in CHUNK_TRANSITIONS[current]`
unfoldable pub chunk_transition : ChunkStatus → ChunkStatus → Bool
chunk_transition ChunkStatus.pending ChunkStatus.processing = true
chunk_transition ChunkStatus.pending ChunkStatus.cancelled = true
chunk_transition ChunkStatus.processing ChunkStatus.completed = true
chunk_transition ChunkStatus.processing ChunkStatus.retry_wait = true
chunk_transition ChunkStatus.processing ChunkStatus.failed = true
chunk_transition ChunkStatus.processing ChunkStatus.cancelled = true
chunk_transition ChunkStatus.retry_wait ChunkStatus.pending = true
chunk_transition ChunkStatus.retry_wait ChunkStatus.cancelled = true
chunk_transition ChunkStatus.retry_wait ChunkStatus.failed = true
chunk_transition ChunkStatus.failed ChunkStatus.pending = true
chunk_transition _ _ = false

-- `chunk.status == ChunkStatus.completed`
abbrev pub is_completed : ChunkStatus → Bool
is_completed ChunkStatus.completed = true
is_completed _ = false

-- `job.status == JobStatus.correction_completed`
abbrev pub is_correction_completed : JobStatus → Bool
is_correction_completed JobStatus.correction_completed = true
is_correction_completed _ = false

-- `job.status == JobStatus.transcript_completed`
abbrev pub is_transcript_completed : JobStatus → Bool
is_transcript_completed JobStatus.transcript_completed = true
is_transcript_completed _ = false

-- `job.status == JobStatus.correcting`
abbrev pub is_correcting : JobStatus → Bool
is_correcting JobStatus.correcting = true
is_correcting _ = false
