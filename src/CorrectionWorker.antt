-- ===== src/CorrectionWorker.antt =====
-- app/services/correction_worker.py: a merged transcript is corrected, the result is stored and
-- announced; a failure is retried or ends the job. The correction itself is a parameter here.
pub mod Failure
pub mod Process
pub mod Poison
use onramp_stt_api.Base.{
  ℕ, suc, ◌+◌, ◌≡◌, refl, Bool, true, false, not, ◌&&◌, ◌||◌, any, Option, none, some, List, [],
  ◌∷◌, ◌++◌, map, Text, codes, eq_text, leb, ◌==◌, if◌then◌else◌, find_row, is_none, take, Unicode,
}
use onramp_stt_api.Float.{Float}
use onramp_stt_api.Status.{
  JobStatus, is_correction_completed, is_transcript_completed, is_correcting, job_status_value,
}
use onramp_stt_api.Errors.{
  Error, Result, ok, err, is_stt_error, retryable, code_of, type_name, message,
}
use onramp_stt_api.Events.{
  Stream, Group, Payload, TranscriptCompleted, TranscriptionCompleted, ProgressUpdated, Envelope,
}
use onramp_stt_api.Db.{
  Store, TranscriptionJob, Segment, CorrectedTranscript, SttCorrectionLog, ReviewCandidate,
  EventOutbox,
}
use onramp_stt_api.Db.Session.{
  Tx, pure, raise, raise_if, gets, modify, or_raise, branch, ◌>>=◌, ◌>>◌, get_job, put_job,
  is_processed, mark_processed, add_outbox, new_event, ensure_job_transition,
}
use onramp_stt_api.Clova.{progress_ratio}

-- `CorrectionAuditLog` (app/correction/types.py)
pub record CorrectionAuditLog (F : Type 0) : Type 0 where
  pub segment_index : ℕ
  pub start_time_sec : F
  pub end_time_sec : F
  pub term_id : Text
  pub replace_policy : Text
  pub original_text : Text
  pub corrected_text : Text
  pub context_evidence : Option Text
  pub decision : Text

-- `CorrectionResult` (app/correction/types.py)
pub record CorrectionResult (F : Type 0) : Type 0 where
  pub dictionary_version : Text
  pub raw_text_sha256 : Text
  pub corrected_text : Text
  pub corrected_segments : List (Segment F)
  pub corrected_text_sha256 : Text
  pub correction_logs : List (CorrectionAuditLog F)
  pub review_candidates : List ReviewCandidate
  pub prompt_version : Text
  pub llm_applied : Bool

-- The time, the ids of up to two events, and that of a new corrected transcript.
pub record Draw : Type 0 where
  pub now : ℕ
  pub first_id : Text
  pub second_id : Text
  pub row_id : Text

-- `result_object_key`
unfoldable pub result_object_key : Text → Text → Text
result_object_key tenant tid =
    codes "tenants/"
    ++ tenant
    ++ codes "/transcriptions/"
    ++ tid
    ++ codes "/result/corrected-transcript.json"

-- `corrected_transcript.result_object_key or corrected_object_key`
abbrev pub key_or : Option Text → Text → Text
key_or none key = key
key_or (some []) key = key
key_or (some (c ∷ s)) key = c ∷ s

module _ {F : Type 0} where
  -- The first transaction of `process` from the job on; `false` stops the processing.
  unfoldable pub start_job : Text → TranscriptionJob F → Tx (Store F) Bool
  start_job e j =
      branch (is_correction_completed j.status)
        (do mark_processed Group.correction_workers e j.id; pure false)
        (branch (is_transcript_completed j.status)
          (do
            ensure_job_transition j.status JobStatus.correcting
            modify (put_job (record j { status = JobStatus.correcting }))
            pure true)
          (pure true))

  unfoldable pub start : Text → TranscriptCompleted → Tx (Store F) Bool
  unfolding start_job
  start e p = do
    found ← gets (get_job p.transcription_id)
    j ← or_raise found Error.job_not_found
    start_job e j

  -- `_build_result`: the correction of the merged transcript, or an error if it is not there
  unfoldable pub build_result :
      (Text → List (Segment F) → Result (CorrectionResult F))
      → Option (TranscriptionJob F)
      → Result (CorrectionResult F)
  build_result correct none = err Error.not_ready
  build_result correct (some j) = elim j.merged_text [
    | none ↦ err Error.not_ready
    | some text ↦ elim j.merged_segments_json [
      | none ↦ err Error.not_ready
      | some gs ↦ elim gs [ [] ↦ err Error.not_ready | g ∷ rest ↦ correct text (g ∷ rest) ]
    ]
  ]

  -- `transcription_id == … and dictionary_version == …`
  abbrev pub is_version : Text → Text → CorrectedTranscript F → Bool
  is_version tid version c = eq_text c.transcription_id tid && eq_text c.dictionary_version version

  abbrev pub new_transcript :
      Draw → Text → CorrectionResult F → TranscriptionJob F → CorrectedTranscript F
  new_transcript d key result j = record {
    id = d.row_id;
    tenant_id = j.tenant_id;
    transcription_id = j.id;
    raw_text_sha256 = result.raw_text_sha256;
    corrected_text = result.corrected_text;
    corrected_segments_json = result.corrected_segments;
    corrected_text_sha256 = result.corrected_text_sha256;
    dictionary_version = result.dictionary_version;
    result_object_key = some key;
    review_candidates_json = result.review_candidates;
    prompt_version = some result.prompt_version;
    llm_applied = result.llm_applied;
    created_at = d.now;
  }

  abbrev pub log_row : Text → CorrectionAuditLog F → SttCorrectionLog F
  log_row id l = record {
    corrected_transcript_id = id;
    segment_index = l.segment_index;
    start_time_sec = l.start_time_sec;
    end_time_sec = l.end_time_sec;
    term_id = l.term_id;
    replace_policy = l.replace_policy;
    original_text = l.original_text;
    corrected_text = l.corrected_text;
    context_evidence = l.context_evidence;
    decision = l.decision;
  }

  -- The stored version, or a new row with its logs.
  unfoldable pub store_transcript :
      Draw
      → Text
      → CorrectionResult F
      → TranscriptionJob F
      → Option (CorrectedTranscript F)
      → Store F
      → CorrectedTranscript F × Store F
  store_transcript d key result j (some c) s = (c, s)
  store_transcript d key result j none s = (
    new_transcript d key result j,
    record s {
      corrected = s.corrected ++ new_transcript d key result j ∷ [];
      logs = s.logs ++ map (log_row d.row_id) result.correction_logs;
    },
  )

  -- whether the new row breaks the primary key or the unique key of `corrected_transcripts`
  abbrev same_key : CorrectedTranscript F → CorrectedTranscript F → Bool
  same_key c x =
      eq_text x.id c.id
      || (eq_text x.tenant_id c.tenant_id && is_version c.transcription_id c.dictionary_version x)

  abbrev pub key_taken :
      Draw
      → Text
      → CorrectionResult F
      → TranscriptionJob F
      → Option (CorrectedTranscript F)
      → Store F
      → Bool
  key_taken d key result j (some c) s = false
  key_taken d key result j none s = any (same_key (new_transcript d key result j)) s.corrected

  -- The job's way to `correction_completed`: through `correcting`, as the table allows.
  unfoldable pub complete_status : JobStatus → Tx (Store F) JobStatus
  complete_status t = branch (is_correction_completed t) (pure t) (do
    branch (is_correcting t) (pure tt) (ensure_job_transition t JobStatus.correcting)
    ensure_job_transition JobStatus.correcting JobStatus.correction_completed
    pure JobStatus.correction_completed)

  unfoldable pub completed_row :
      Draw → Text → CorrectionResult F → CorrectedTranscript F → TranscriptionJob F → EventOutbox F
  completed_row d key result c j =
      new_event d.first_id (codes "transcription") j.id Stream.completed
        (Payload.transcription_done (record {
          transcription_id = j.id;
          tenant_id = j.tenant_id;
          raw_text_sha256 = result.raw_text_sha256;
          corrected_text_sha256 = result.corrected_text_sha256;
          dictionary_version = result.dictionary_version;
          result_object_key = key_or c.result_object_key key;
          completed_at = d.now;
        }))
        d.now d.now

  -- and its end, once the transcript is stored
  abbrev pub finish_job :
      Draw
      → Text
      → Text
      → CorrectionResult F
      → TranscriptionJob F
      → CorrectedTranscript F
      → Tx (Store F) (Unit {0})
  finish_job d e key result j c = do
    t ← complete_status j.status
    modify (put_job (record j { status = t; completed_at = some d.now }))
    add_outbox (completed_row d key result c j)
    mark_processed Group.correction_workers e c.id

  -- The last transaction of `process` from the job on.
  unfoldable pub save_job :
      Draw → Text → Text → CorrectionResult F → TranscriptionJob F → Tx (Store F) (Unit {0})
  unfolding store_transcript complete_status completed_row
  save_job d e key result j = do
    existing ← gets (λ s. find_row (is_version j.id result.dictionary_version) s.corrected)
    taken ← gets (key_taken d key result j existing)
    raise_if taken Error.integrity_error
    let stored = store_transcript d key result j existing
    c ← gets (λ s. (stored s).0)
    modify (λ s. (stored s).1)
    finish_job d e key result j c

  unfoldable pub save :
      Draw → Text → TranscriptCompleted → Text → CorrectionResult F → Tx (Store F) (Unit {0})
  unfolding save_job
  save d e p key result = do
    seen ← gets (is_processed Group.correction_workers e)
    branch seen (pure tt) (do
      found ← gets (get_job p.transcription_id)
      j ← or_raise found Error.row_disappeared
      save_job d e key result j)
