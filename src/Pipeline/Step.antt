-- ===== src/Pipeline/Step.antt =====
-- The transactions of app/services/ as the steps of one store, in any order and any number: what
-- holds of every store that they reach from an empty database.
use mathlib.Core.Path.{subst}
use onramp_stt_api.Base.{
  false, is_none, ℕ, ◌+◌, ◌≤◌, ◌≡◌, refl, sym, Bool, true, not, ◌&&◌, Option, some, List, [], Text,
  ◌==◌, b_to_n, count, find_row, arith, Unicode,
}
use onramp_stt_api.Float.{Float}
use onramp_stt_api.Errors.{Error, ok}
use onramp_stt_api.Events.{TranscriptionRequested, ChunkRequested, TranscriptCompleted}
use onramp_stt_api.Db.{Store, TranscriptionJob, TranscriptionChunk}
use onramp_stt_api.Db.Session.{get_job, get_chunk}
use onramp_stt_api.Vad.{VadChunk}
use onramp_stt_api.Orchestrator.{AudioMetadata, ensure_job, store_chunks, mark_failed}
use onramp_stt_api.Clova.{Settings, ProviderResult, claim}
use onramp_stt_api.Clova
use onramp_stt_api.Clova.Record.{World, record_success}
use onramp_stt_api.Clova.Failure.{record_failure}
use onramp_stt_api.CorrectionWorker.{CorrectionResult, start, save}
use onramp_stt_api.CorrectionWorker
use onramp_stt_api.Pipeline.{
  Inv, is_settled, is_merged, open_requests, announcements, chunk_rows, completed_rows,
}
use onramp_stt_api.Pipeline.Record.{Published}
use onramp_stt_api.Pipeline.Record.Kept.{record_success-Inv, record_failure-Inv}
use onramp_stt_api.Outbox.{publish_once}
use onramp_stt_api.Pipeline.Publish.{publish_once-Inv}
use onramp_stt_api.Pipeline.Worker.{claim-Inv}
use onramp_stt_api.Pipeline.Intake.{ensure_job-Inv, mark_failed-Inv}
use onramp_stt_api.Pipeline.Intake.Stored.{store_chunks-Inv}
use onramp_stt_api.Pipeline.Correction.{start-Inv, save-Inv}
use onramp_stt_api.Pipeline.Correction.Failure
use onramp_stt_api.Pipeline.Rows.{completed_le_rows}

-- One committed transaction. What comes from outside (times, ids, the answers of storage and
-- provider, the audio's chunks) is arbitrary; a chunk worker's event stands in the outbox.
pub data Step {F : Type 0} ⦃fl : Float F⦄ ⦃u : Unicode⦄ (s s' : Store F) : Type 0 where
  job_ensured :
      (now : ℕ) (r : TranscriptionRequested) → ensure_job now r s ≡ ok (tt, s') → Step s s'
  chunks_stored :
      (now : ℕ) (ids events : ℕ → Text) (r : TranscriptionRequested) (e : Text)
      (m : AudioMetadata F) (cs : List (VadChunk F))
      → store_chunks now ids events r e m cs s ≡ ok (tt, s')
      → Step s s'
  job_failed : (tid : Text) (x : Error) → s' ≡ mark_failed tid x s → Step s s'
  chunk_claimed :
      (cfg : Settings F) (now : ℕ) (r : ChunkRequested) (e worker : Text)
      (x : Option (TranscriptionChunk F))
      → claim cfg now r e worker s ≡ ok (x, s')
      → Step s s'
  chunk_succeeded :
      (w : World F) (d : Clova.Draw) (r : ChunkRequested) (e raw_key : Text)
      (result : ProviderResult F)
      → Published r e s
      → record_success w d r e raw_key result s ≡ ok (tt, s')
      → Step s s'
  chunk_failed :
      (cfg : Settings F) (w : World F) (d : Clova.Draw) (r : ChunkRequested) (e : Text) (x : Error)
      → Published r e s
      → record_failure cfg w d r e x s ≡ ok (tt, s')
      → Step s s'
  correction_started :
      (e : Text) (p : TranscriptCompleted) (b : Bool) → start e p s ≡ ok (b, s') → Step s s'
  correction_saved :
      (d : CorrectionWorker.Draw) (e : Text) (p : TranscriptCompleted) (key : Text)
      (result : CorrectionResult F)
      → save d e p key result s ≡ ok (tt, s')
      → Step s s'
  correction_failed :
      (lower : Text → Text) (limit : ℕ) (d : CorrectionWorker.Draw) (e : Text)
      (p : TranscriptCompleted) (x : Error) (b : Bool)
      → CorrectionWorker.Failure.record_failure lower limit d e p x s ≡ ok (b, s')
      → Step s s'
  published :
      (now : ℕ) (locked : Text → Bool) (size : ℕ) (xadd : Text → Option Text)
      (commit : Option Error)
      → s' ≡ (publish_once now locked size xadd commit s).2
      → Step s s'

-- The stores that runs of the workers reach.
pub data Reach {F : Type 0} ⦃fl : Float F⦄ ⦃u : Unicode⦄ (s : Store F) : Store F → Type 0 where
  here : Reach s s
  next : {t t' : Store F} → Reach s t → Step t t' → Reach s t'

-- The database after the migrations.
abbrev pub empty : {F : Type 0} → Store F
empty = record { jobs = []; chunks = []; outbox = []; inbox = []; corrected = []; logs = [] }

module _ {F : Type 0} where
  empty-Inv : Inv {F = F} empty
  unfolding count find_row
  empty-Inv = record {
    live = λ tid i c h. cc;
    chunkless = λ tid i h. refl;
    counted = λ tid j h. cc;
    sized = λ tid j h. cc;
    jobless = λ tid h. refl;
    announced = λ tid j h. cc;
    unannounced = λ tid h. refl;
    complete = λ tid j h m. cc;
    worded = λ tid j h m. cc;
  }

module _ {F : Type 0} ⦃fl : Float F⦄ ⦃u : Unicode⦄ where
  Step-Inv : (s s' : Store F) → Inv s → Step s s' → Inv s'
  Step-Inv s s' v (Step.job_ensured now r h) = ensure_job-Inv now r s s' v h
  Step-Inv s s' v (Step.chunks_stored now ids events r e m cs h) =
      store_chunks-Inv now ids events r e m cs s s' v h
  Step-Inv s s' v (Step.job_failed tid x h) = subst Inv (sym h) (mark_failed-Inv tid x s v)
  Step-Inv s s' v (Step.chunk_claimed cfg now r e worker x h) =
      claim-Inv cfg now r e worker x s s' v h
  Step-Inv s s' v (Step.chunk_succeeded w d r e raw_key result p h) =
      record_success-Inv w d r e raw_key result s s' v p h
  Step-Inv s s' v (Step.chunk_failed cfg w d r e x p h) =
      record_failure-Inv cfg w d r e x s s' v p h
  Step-Inv s s' v (Step.correction_started e p b h) = start-Inv e p b s s' v h
  Step-Inv s s' v (Step.correction_saved d e p key result h) = save-Inv d e p key result s s' v h
  Step-Inv s s' v (Step.correction_failed lower limit d e p x b h) =
      Failure.record_failure-Inv lower limit d e p x b s s' v h
  Step-Inv s s' v (Step.published now locked size xadd commit h) =
      subst Inv (sym h) (publish_once-Inv now locked size xadd commit s v)

  Reach-Inv : (s : Store F) → Reach empty s → Inv s
  Reach-Inv s Reach.here = empty-Inv
  Reach-Inv s (Reach.next {t} r st) = Step-Inv t s (Reach-Inv t r) st

  -- Whatever transactions have run: the counters of a job are the numbers of its stored chunks and
  -- of those that are completed, so `completed_chunks` never exceeds `total_chunks`.
  pub counters_exact :
      (s : Store F) (tid : Text) (j : TranscriptionJob F)
      → Reach empty s
      → get_job tid s ≡ some j
      → (j.total_chunks ≡ chunk_rows tid s)
        × (j.completed_chunks ≡ completed_rows tid s)
        × j.completed_chunks ≤ j.total_chunks
  counters_exact s tid j r h =
      let v = Reach-Inv s r in
      (
        v.sized tid j h,
        v.counted tid j h,
        omega (arith, v.sized tid j h, v.counted tid j h, completed_le_rows tid s),
      )

  -- Whatever transactions have run: the outbox announces the merged transcript of a job once, if
  -- the job has chunks and all are completed, and not at all otherwise.
  pub announced_once :
      (s : Store F) (tid : Text) (j : TranscriptionJob F)
      → Reach empty s
      → get_job tid s ≡ some j
      → announcements tid s
        ≡ b_to_n (not (j.total_chunks == 0) && j.completed_chunks == j.total_chunks)
  announced_once s tid j r h = (Reach-Inv s r).announced tid j h

  -- Whatever transactions have run: if a job's status is `transcript_completed`, `correcting` or
  -- `correction_completed`, all its stored chunks are completed and it has a merged text.
  pub merged_has_all :
      (s : Store F) (tid : Text) (j : TranscriptionJob F)
      → Reach empty s
      → get_job tid s ≡ some j
      → is_merged j.status ≡ true
      → (completed_rows tid s ≡ chunk_rows tid s) × (is_none j.merged_text ≡ false)
  merged_has_all s tid j r h m =
      let v = Reach-Inv s r in
      (omega (arith, v.complete tid j h m, v.sized tid j h, v.counted tid j h), v.worded tid j h m)

  -- Whatever transactions have run, with failures, retries, expired leases and redelivered events
  -- in any order: a stored chunk has at most one request that no chunk worker has processed, and
  -- none once it is completed or failed.
  pub one_open_request :
      (s : Store F) (tid : Text) (i : ℕ) (c : TranscriptionChunk F)
      → Reach empty s
      → get_chunk tid i s ≡ some c
      → open_requests tid i s + b_to_n (is_settled c.status) ≤ 1
  one_open_request s tid i c r h = (Reach-Inv s r).live tid i c h
