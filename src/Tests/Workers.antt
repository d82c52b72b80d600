-- ===== src/Tests/Workers.antt =====
-- Single transactions and messages on the stores of the run of one chunk.
use onramp_stt_api.Base.{
  length, ℕ, arith, count, ◌≤◌, ◌≡◌, ◌⊎◌, refl, true, false, none, some, [], ◌∷◌, codes, eq_text,
  find_row, write_row, format_04d, All,
}
use onramp_stt_api.Status.{job_transition, JobStatus, ChunkStatus}
use onramp_stt_api.Errors.{Error, ok, err, retryable}
use onramp_stt_api.Events.{eq_group, ChunkRequested, TranscriptCompleted, Envelope}
use onramp_stt_api.Db.{Store, TranscriptionJob, TranscriptionChunk}
use onramp_stt_api.Db.Session.{
  ensure_job_transition, committed, get_job, get_chunk, is_processed, add_outbox, mark_processed,
}
use onramp_stt_api.Orchestrator.{
  new_job, chunk_row, transcribing_job, ensure_job, store_chunks, mark_failed, chunk_key,
}
use onramp_stt_api.Clova.{claim, leased}
use onramp_stt_api.Clova.Record.{record_success, transcript_row}
use onramp_stt_api.Clova.Failure.{record_failure}
use onramp_stt_api.Clova.Process.{process}
use onramp_stt_api.CorrectionWorker.{CorrectionResult}
use onramp_stt_api.CorrectionWorker
use onramp_stt_api.CorrectionWorker.Process.{Fate, handle}
use onramp_stt_api.CorrectionWorker.Process
use onramp_stt_api.CorrectionWorker.Poison.{failed_job_never_acked}
use onramp_stt_api.Orchestrator.Process as Intake
use onramp_stt_api.Pipeline.Step.{empty}
use onramp_stt_api.Pipeline.Request.{FailedBy, raised_request}
use onramp_stt_api.Vad
use onramp_stt_api.Merger.{or_default}
use onramp_stt_api.CorrectionWorker.{save}
use onramp_stt_api.Pipeline.Saved.{versions, save_saves_once}
use onramp_stt_api.Outbox.{publish_once, batch}
use onramp_stt_api.Outbox.Later.{Later}
use onramp_stt_api.Outbox.Batch.{IsDue}
use onramp_stt_api.Outbox.Once.{was_sent, never_sent_twice}
use onramp_stt_api.Pipeline.Process.{process_once}
use onramp_stt_api.Pipeline.Results.{Merged, last_chunk_merges}
use onramp_stt_api.Pipeline.Failed.{SetBack, Waits, Fails, failure_outcome}
use onramp_stt_api.Pipeline.Lease.{lease_excludes}
use onramp_stt_api.Tests.Scenario.{
  float, unicode, tid, request, metadata, chunk_id, chunk_request, settings, world, result, draw,
  s1, s2, s3, s4,
}

-- The audio of a request that storage does not find.
abbrev empty_storage : Intake.World ℕ
empty_storage = record {
  download = λ k. some (Error.storage_error (codes "missing"));
  probe = λ k. ok metadata;
  convert = λ k. ok (record { channels = 1; sample_width = 2; sample_rate = 8000 }, []);
  is_speech = λ b. true;
  upload = λ k. none;
}

abbrev limits : Intake.Limits ℕ
limits = record { stt_max_upload_bytes = 1_000; stt_max_audio_duration_sec = 9_000_000 }

abbrev vad : Vad.Settings ℕ
vad = record {
  stt_vad_frame_ms = 30;
  stt_vad_padding_ms = 300;
  stt_vad_trigger_ratio = 900_000;
  stt_vad_max_chunk_seconds = 55_000_000;
  stt_vad_gap_ms = 200;
}

abbrev s8 : Store ℕ
s8 = mark_failed tid (Error.storage_error (codes "missing")) s1

raised_request_example :
    ((ensure_job ⦃fl = float⦄ 10 request empty ≡ err (Error.storage_error (codes "missing")))
      × (s8 ≡ empty))
    ⊎ FailedBy tid (Error.storage_error (codes "missing")) s8
unfolding ensure_job store_chunks mark_failed find_row eq_text is_processed Intake.process
raised_request_example =
    raised_request limits vad empty_storage 10 chunk_id chunk_id (λ t. t)
      (record { event_id = codes "r"; payload = request }) (Error.storage_error (codes "missing"))
      empty s8 refl

-- the stored rows after the claim
abbrev c3 : TranscriptionChunk ℕ
c3 = leased settings 30 (codes "w1") (
    chunk_row chunk_id request tid (record {
      index = 0;
      duration_sec = 5_000_000;
      source_mappings =
          record {
            chunk_start_sec = 0;
            chunk_end_sec = 5_000_000;
            source_start_sec = 1_000_000;
            source_end_sec = 6_000_000;
          }
          ∷ [];
    }))

abbrev j3 : TranscriptionJob ℕ
j3 = transcribing_job metadata request 1 (new_job 10 request)

abbrev envelope : Envelope ChunkRequested
envelope = record { event_id = codes "e"; payload = chunk_request }

abbrev s5 : Store ℕ
s5 = (process settings world 30 draw (λ t. t) envelope (codes "w1") s2).1

process_once_example :
    process settings world 99 draw (λ t. t) envelope (codes "w2") s5 ≡ (ok tt, s5)
unfolding ensure_job store_chunks claim record_success find_row eq_text is_processed add_outbox
    mark_processed eq_group chunk_key format_04d write_row transcript_row process
process_once_example =
    process_once settings world world 30 99 draw draw (λ t. t) (λ t. t) envelope (codes "w1")
      (codes "w2") s2 s5 refl

last_chunk_merges_example : (j' : TranscriptionJob ℕ) × (get_job tid s4 ≡ some j') × Merged j' s4
unfolding ensure_job store_chunks claim record_success find_row eq_text is_processed add_outbox
    mark_processed eq_group chunk_key format_04d write_row transcript_row
last_chunk_merges_example =
    last_chunk_merges world draw chunk_request (codes "e") (codes "raw") result c3 j3 s3 s4 refl
      refl refl refl refl

abbrev timeout : Error
timeout = Error.provider_error (codes "timeout") true none

abbrev s6 : Store ℕ
s6 = committed s3 (record_failure settings world draw chunk_request (codes "e") timeout s3)

failure_outcome_example :
    (c' : TranscriptionChunk ℕ) × (j' : TranscriptionJob ℕ) × (get_chunk tid 0 s6 ≡ some c')
    × (get_job tid s6 ≡ some j')
    × SetBack timeout c3 c'
    × (Waits settings draw chunk_request timeout (c3, c') (j3, j') (s3, s6)
        ⊎ Fails settings chunk_request timeout (c3, c') (j3, j') (s3, s6))
unfolding ensure_job store_chunks claim record_success find_row eq_text is_processed add_outbox
    mark_processed eq_group chunk_key format_04d write_row transcript_row record_failure retryable
failure_outcome_example =
    failure_outcome settings world draw chunk_request (codes "e") timeout c3 j3 s3 s6 refl refl refl

lease_excludes_example :
    claim settings 40 chunk_request (codes "e2") (codes "w2") s3
    ≡ err (Error.cannot_claim ChunkStatus.processing)
unfolding ensure_job store_chunks claim record_success find_row eq_text is_processed add_outbox
    mark_processed eq_group chunk_key format_04d write_row transcript_row
lease_excludes_example =
    lease_excludes settings 30 40 chunk_request (codes "e") (codes "e2") (codes "w1") (codes "w2")
      c3 s2 s3 refl refl

-- the store after a publisher has sent the event of s2, and after a second one has failed to commit
abbrev sent_store : Store ℕ
sent_store = (publish_once 100 (λ e. false) 10 (λ e. none) none s2).2

abbrev second_store : Store ℕ
second_store =
    (publish_once 150 (λ e. false) 10 (λ e. none) (some Error.integrity_error) sent_store).2

never_sent_twice_example :
    length (publish_once 100 (λ e. false) 10 (λ e. none) none s2).1 ≤ 10
    × All (IsDue 100 (λ e. false)) (batch 100 (λ e. false) 10 s2)
    × All
        (λ o. was_sent (λ e. none) (batch 100 (λ e. false) 10 s2) o.id ≡ false)
        (batch 200 (λ e. false) 10 second_store)
never_sent_twice_example =
    never_sent_twice 100 200 (λ e. false) (λ e. false) 10 10 (λ e. none) s2 second_store
      (Later.published 150 (λ e. false) 10 (λ e. none) (some Error.integrity_error) Later.at_once)

-- The event of s2 is sent.
sent_test : (publish_once 100 (λ e. false) 10 (λ e. none) none s2).0 ≡ ok 1
unfolding ensure_job store_chunks claim record_success find_row eq_text is_processed add_outbox
    mark_processed eq_group chunk_key format_04d write_row transcript_row publish_once
sent_test = refl

-- The merged job is marked as failed by a repeated preprocessing.
abbrev s7 : Store ℕ
s7 = mark_failed tid (Error.storage_error (codes "gone")) s4

abbrev pub corrected : CorrectionResult ℕ
corrected = record {
  dictionary_version = codes "1";
  raw_text_sha256 = [];
  corrected_text = codes "hello";
  corrected_segments = [];
  corrected_text_sha256 = [];
  correction_logs = [];
  review_candidates = [];
  prompt_version = [];
  llm_applied = false;
}

abbrev corrector : CorrectionWorker.Process.World ℕ
corrector = record { correct = λ t gs. ok corrected; upload = λ k. none; lower = λ t. t }

abbrev pub correction_draw : CorrectionWorker.Draw
correction_draw = record {
  now = 200;
  first_id = codes "g1";
  second_id = codes "g2";
  row_id = codes "t";
}

abbrev pub announcement : TranscriptCompleted
announcement = record { transcription_id = tid; tenant_id = codes "acme"; result_object_key = [] }

-- the merged job, and the database with its correction
abbrev pub j4 : TranscriptionJob ℕ
j4 = or_default (get_job tid s4) j3

abbrev pub s9 : Store ℕ
s9 = committed s4 (save correction_draw (codes "f1") announcement (codes "k") corrected s4)

save_saves_once_example :
    (get_job tid s9
      ≡ some (record j4 { status = JobStatus.correction_completed; completed_at = some 200 }))
    × (versions tid (codes "1") s9 ≡ 1)
unfolding ensure_job store_chunks claim record_success find_row eq_text is_processed add_outbox
    mark_processed eq_group chunk_key format_04d write_row transcript_row save count
    ensure_job_transition job_transition
save_saves_once_example =
    save_saves_once correction_draw (codes "f1") announcement (codes "k") corrected j4 s4 s9 refl
      refl (omega arith) refl

failed_job_never_acked_example :
    ((handle corrector 2 correction_draw correction_draw
        (λ t. t)
        (record { event_id = codes "f1"; payload = announcement })
        s7).0
      ≡ Fate.left_pending)
    ⊎ (handle corrector 2 correction_draw correction_draw
          (λ t. t)
          (record { event_id = codes "f1"; payload = announcement })
          s7
        ≡ (Fate.crashed (Error.invalid_job_transition JobStatus.failed JobStatus.failed), s7))
unfolding ensure_job store_chunks claim record_success find_row eq_text is_processed add_outbox
    mark_processed eq_group chunk_key format_04d write_row transcript_row mark_failed
failed_job_never_acked_example =
    failed_job_never_acked (codes "f1") tid _ s7 refl refl refl corrector 2 correction_draw
      correction_draw (λ t. t) announcement refl refl
