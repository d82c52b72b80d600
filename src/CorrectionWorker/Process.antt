-- ===== src/CorrectionWorker/Process.antt =====
-- app/services/correction_worker.py, `process`, and the loop body of app/workers/correction.py,
-- which calls `record_failure` and decides whether the message is acknowledged.
use onramp_stt_api.Base.{ℕ, Bool, true, false, Option, none, some, List, Text, if◌then◌else◌}
use onramp_stt_api.Float.{Float}
use onramp_stt_api.Errors.{Error, Result, ok, err}
use onramp_stt_api.Events.{Group, TranscriptCompleted, Envelope}
use onramp_stt_api.Db.{Store, Segment}
use onramp_stt_api.Db.Session.{get_job, is_processed}
use onramp_stt_api.CorrectionWorker.{
  CorrectionResult, Draw, result_object_key, start, build_result, save,
}
use onramp_stt_api.CorrectionWorker.Failure.{record_failure}

-- What lies outside the worker: the correction, and the object storage.
pub record World (F : Type 0) : Type 0 where
  pub correct : Text → List (Segment F) → Result (CorrectionResult F)
  pub upload : Text → Option Error
  pub lower : Text → Text

module _ {F : Type 0} where
  abbrev finish : {A : Type 0} → Store F → Result (A × Store F) → Result (Unit {0}) × Store F
  finish s (ok r) = (ok tt, r.1)
  finish s (err x) = (err x, s)

  abbrev publish :
      World F
      → Draw
      → Envelope TranscriptCompleted
      → Store F
      → CorrectionResult F
      → Option Error
      → Result (Unit {0}) × Store F
  publish w d env s result (some x) = (err x, s)
  publish w d env s result none = finish s (
      save d env.event_id env.payload
        (result_object_key env.payload.tenant_id env.payload.transcription_id) result s)

  abbrev after_build :
      World F
      → Draw
      → (Store F → Store F)
      → Envelope TranscriptCompleted
      → Store F
      → Result (CorrectionResult F)
      → Result (Unit {0}) × Store F
  after_build w d others env s (err x) = (err x, s)
  after_build w d others env s (ok result) =
      publish w d env (others s) result
        (w.upload (result_object_key env.payload.tenant_id env.payload.transcription_id))

  abbrev after_start :
      World F
      → Draw
      → (Store F → Store F)
      → Envelope TranscriptCompleted
      → Store F
      → Result (Bool × Store F)
      → Result (Unit {0}) × Store F
  after_start w d others env s (err x) = (err x, s)
  after_start w d others env s (ok (false, s')) = (ok tt, s')
  after_start w d others env s (ok (true, s')) =
      after_build w d others env s'
        (build_result w.correct (get_job env.payload.transcription_id s'))

  -- `process`; `others` is what other workers commit while the result is uploaded.
  unfoldable pub process :
      World F
      → Draw
      → (Store F → Store F)
      → Envelope TranscriptCompleted
      → Store F
      → Result (Unit {0}) × Store F
  unfolding start build_result save
  process w d others env s =
      if is_processed Group.correction_workers env.event_id s
      then (ok tt, s)
      else after_start w d others env s (start env.event_id env.payload s)

-- What becomes of a message: acknowledged, left pending to be delivered again, or the worker ends
-- with an exception that nothing catches.
pub data Fate : Type 0 where
  acked : Fate
  left_pending : Fate
  crashed : Error → Fate

module _ {F : Type 0} ⦃fl : Float F⦄ where
  abbrev pub fate_of : Store F → Result (Bool × Store F) → Fate × Store F
  fate_of s (ok (true, s')) = (Fate.acked, s')
  fate_of s (ok (false, s')) = (Fate.left_pending, s')
  fate_of s (err x) = (Fate.crashed x, s)

  abbrev handle_outcome :
      World F
      → ℕ
      → Draw
      → Envelope TranscriptCompleted
      → Result (Unit {0}) × Store F
      → Fate × Store F
  handle_outcome w limit d env (ok _, s) = (Fate.acked, s)
  handle_outcome w limit d env (err x, s) =
      fate_of s (record_failure w.lower limit d env.event_id env.payload x s)

  -- one message of `run`
  unfoldable pub handle :
      World F
      → ℕ
      → Draw
      → Draw
      → (Store F → Store F)
      → Envelope TranscriptCompleted
      → Store F
      → Fate × Store F
  unfolding process record_failure
  handle w limit d d' others env s = handle_outcome w limit d' env (process w d others env s)
