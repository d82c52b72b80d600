-- ===== src/Clova.antt =====
-- app/services/clova_worker.py: a worker claims a chunk, has it transcribed, and records success or
-- failure, each in a transaction of its own; the last success merges the transcript.
pub mod Record
pub mod Failure
pub mod Process
pub mod Effects
pub mod Outcome
use onramp_stt_api.Base.{
  ℕ, suc, ◌+◌, ◌-◌, ◌*◌, ◌^◌, ◌≡◌, refl, Bool, true, false, not, ◌&&◌, ◌||◌, Option, none, some,
  List, [], ◌∷◌, ◌++◌, map, Text, codes, eq_text, ltb, leb, ◌==◌, if◌then◌else◌, is_none, any,
  select, length, take, str_int, format_04d, Unicode,
}
use onramp_stt_api.Float.{Float, fmin}
use onramp_stt_api.Status.{JobStatus, ChunkStatus, is_completed}
use onramp_stt_api.Errors.{Error, Result, ok, err, retryable, code_of}
use onramp_stt_api.Events.{
  Stream, Group, Payload, ChunkRequested, ProgressUpdated, TranscriptCompleted, Envelope,
}
use onramp_stt_api.Db.{Store, TranscriptionJob, TranscriptionChunk, EventOutbox, Segment}
use onramp_stt_api.Db.Session.{
  Tx, pure, raise, raise_if, gets, modify, or_raise, ◌>>=◌, ◌>>◌, branch, committed, get_job,
  get_chunk, put_job, put_chunk, is_processed, mark_processed, add_outbox, new_event,
}
use onramp_stt_api.Merger.{asdict, or_default, merge_chunk_segments, render_plain_text}

pub record Settings (F : Type 0) : Type 0 where
  pub clova_chunk_lease_sec : ℕ
  pub clova_max_retry_count : ℕ
  pub clova_backoff_base_sec : F
  pub clova_backoff_max_sec : F

-- `ProviderResult`, less the raw response, which only the upload reads
pub record ProviderResult (F : Type 0) : Type 0 where
  pub provider : Text
  pub full_text : Text
  pub segments : List (Segment F)
  pub provider_job_id : Option Text

-- What one transaction draws from outside: the time by `utcnow()`, and `uuid4().hex` of its first
-- and its second event.
pub record Draw : Type 0 where
  pub now : ℕ
  pub first_id : Text
  pub second_id : Text

-- whole seconds and ten seconds, in microseconds
abbrev pub seconds : ℕ → ℕ
seconds n = n * 1_000_000

-- `can_claim_chunk`
unfoldable pub can_claim_chunk : ChunkStatus → Option ℕ → ℕ → Bool
can_claim_chunk ChunkStatus.pending lease claimed_at = true
can_claim_chunk ChunkStatus.retry_wait lease claimed_at = true
can_claim_chunk ChunkStatus.processing none claimed_at = true
can_claim_chunk ChunkStatus.processing (some t) claimed_at = leb t claimed_at
can_claim_chunk _ lease claimed_at = false

-- `(now - last_emitted_at).total_seconds() >= PROGRESS_MIN_INTERVAL_SEC`, or never emitted
abbrev interval_passed : Option ℕ → ℕ → Bool
interval_passed none now = true
interval_passed (some last) now = leb (last + seconds 10) now

-- `aggregate_id` of a chunk's event
unfoldable pub chunk_aggregate : Text → ℕ → Text
chunk_aggregate tid i = tid ++ codes ":" ++ str_int i

unfoldable pub result_key : Text → Text → Text
result_key tenant tid =
    codes "tenants/" ++ tenant ++ codes "/transcriptions/" ++ tid ++ codes "/result/transcript.json"

unfoldable pub raw_response_key : ChunkRequested → Text
raw_response_key r =
    codes "tenants/"
    ++ r.tenant_id
    ++ codes "/transcriptions/"
    ++ r.transcription_id
    ++ codes "/provider-raw/"
    ++ format_04d r.chunk_index
    ++ codes ".json"

module _ {F : Type 0} ⦃fl : Float F⦄ where
  -- `should_emit_progress`, with PROGRESS_MIN_RATIO_DELTA = 0.05
  unfoldable pub should_emit_progress : Bool → F → F → Option ℕ → ℕ → Bool
  should_emit_progress changed previous current last now =
      if changed
      then true
      else if fl.le (fl.quot 1 20) (fl.sub current previous)
      then true
      else interval_passed last now

  -- `completed_chunks / total_chunks`, 0.0 with no chunks
  unfoldable pub progress_ratio : TranscriptionJob F → F
  progress_ratio j =
      if j.total_chunks == 0 then fl.of_int 0 else fl.quot j.completed_chunks j.total_chunks

  -- the job with its progress fields, and the event that goes out
  abbrev pub reported_job : Draw → TranscriptionJob F → TranscriptionJob F
  reported_job d j = record j {
    last_progress_ratio = progress_ratio j;
    last_progress_at = some d.now;
  }

  unfoldable pub progress_row : Draw → TranscriptionJob F → EventOutbox F
  unfolding progress_ratio
  progress_row d j =
      new_event d.second_id (codes "transcription") j.id Stream.progress
        (Payload.progressed (record {
          transcription_id = j.id;
          tenant_id = j.tenant_id;
          status = j.status;
          completed_chunks = j.completed_chunks;
          total_chunks = j.total_chunks;
          failed_chunks = j.failed_chunks;
          progress_ratio = progress_ratio j;
          occurred_at = d.now;
        }))
        d.now d.now

  -- the test that `_record_progress` makes for a job
  unfoldable pub reports : Draw → Bool → TranscriptionJob F → Bool
  unfolding should_emit_progress progress_ratio
  reports d changed j =
      should_emit_progress changed j.last_progress_ratio (progress_ratio j) j.last_progress_at d.now

  -- `_record_progress`
  unfoldable pub record_progress :
      Draw → Bool → TranscriptionJob F → Tx (Store F) (TranscriptionJob F)
  unfolding reports progress_row
  record_progress d changed j =
      branch (reports d changed j) (do add_outbox (progress_row d j); pure (reported_job d j))
        (pure j)

  -- the chunk as `_claim` leaves it
  abbrev pub leased : Settings F → ℕ → Text → TranscriptionChunk F → TranscriptionChunk F
  leased cfg now worker c = record c {
    status = ChunkStatus.processing;
    error_code = none;
    error_message = none;
    lease_owner = some worker;
    lease_expires_at = some (now + seconds cfg.clova_chunk_lease_sec);
  }

  -- `_claim` from the stored chunk on: the chunk, leased to the worker, or nothing to do
  unfoldable pub claim_chunk :
      Settings F
      → ℕ
      → Text
      → Text
      → TranscriptionChunk F
      → Tx (Store F) (Option (TranscriptionChunk F))
  unfolding can_claim_chunk
  claim_chunk cfg now e worker c =
      branch (is_completed c.status) (do mark_processed Group.clova_workers e c.id; pure none)
        (do
          raise_if (not (can_claim_chunk c.status c.lease_expires_at now))
              (Error.cannot_claim c.status)
          modify (put_chunk (leased cfg now worker c))
          pure (some (leased cfg now worker c)))

  -- `_claim`
  unfoldable pub claim :
      Settings F → ℕ → ChunkRequested → Text → Text → Tx (Store F) (Option (TranscriptionChunk F))
  unfolding claim_chunk
  claim cfg now r e worker = do
    seen ← gets (is_processed Group.clova_workers e)
    branch seen (pure none) (do
      found ← gets (get_chunk r.transcription_id r.chunk_index)
      c ← or_raise found Error.chunk_not_stored
      raise_if (not (eq_text c.chunk_object_key r.chunk_object_key)) Error.chunk_key_mismatch
      claim_chunk cfg now e worker c)
