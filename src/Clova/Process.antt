-- ===== src/Clova/Process.antt =====
-- app/services/clova_worker.py: `process`.
use onramp_stt_api.Base.{ℕ, true, Option, none, some, ◌++◌, Text, codes, Unicode}
use onramp_stt_api.Float.{Float}
use onramp_stt_api.Errors.{Error, Result, ok, err, type_name}
use onramp_stt_api.Events.{ChunkRequested, Envelope}
use onramp_stt_api.Db.{Store, TranscriptionChunk}
use onramp_stt_api.Db.Session.{Tx}
use onramp_stt_api.Clova.{Settings, ProviderResult, Draw, raw_response_key, claim}
use onramp_stt_api.Clova.Record.{World, record_success}
use onramp_stt_api.Clova.Failure.{record_failure}

-- The handlers of `process`: any exception but a `ProviderError` becomes a retryable one.
unfoldable pub as_provider_error : Error → Error
as_provider_error (Error.provider_error m r c) = Error.provider_error m r c
as_provider_error x =
    Error.provider_error
      (codes "Chunk processing failed before provider completion: " ++ type_name x) true none

module _ {F : Type 0} ⦃fl : Float F⦄ ⦃u : Unicode⦄ where
  -- The `try` block of `process`: download, transcribe, store the raw response.
  unfoldable pub attempt : World F → ChunkRequested → Result (ProviderResult F)
  attempt w r = elim (w.download r.chunk_object_key) [
    | some x ↦ err x
    | none ↦ elim (w.transcribe r.chunk_object_key) [
      | err x ↦ err x
      | ok result ↦ elim (w.upload (raw_response_key r)) [ some x ↦ err x | none ↦ ok result ]
    ]
  ]

  abbrev finish : {A : Type 0} → Store F → Result (A × Store F) → Result (Unit {0}) × Store F
  finish s (ok r) = (ok tt, r.1)
  finish s (err x) = (err x, s)

  abbrev record_outcome :
      Settings F
      → World F
      → Draw
      → Envelope ChunkRequested
      → Result (ProviderResult F)
      → Tx (Store F) (Unit {0})
  record_outcome cfg w d env (ok result) =
      record_success w d env.payload env.event_id (raw_response_key env.payload) result
  record_outcome cfg w d env (err x) =
      record_failure cfg w d env.payload env.event_id (as_provider_error x)

  abbrev after_claim :
      Settings F
      → World F
      → Draw
      → (Store F → Store F)
      → Envelope ChunkRequested
      → Store F
      → Result (Option (TranscriptionChunk F) × Store F)
      → Result (Unit {0}) × Store F
  after_claim cfg w d others env s (err x) = (err x, s)
  after_claim cfg w d others env s (ok (none, s')) = (ok tt, s')
  after_claim cfg w d others env s (ok (some c, s')) =
      finish (others s') (record_outcome cfg w d env (attempt w env.payload) (others s'))

  -- `process`: `others` is what the other workers commit between the two transactions.
  unfoldable pub process :
      Settings F
      → World F
      → ℕ
      → Draw
      → (Store F → Store F)
      → Envelope ChunkRequested
      → Text
      → Store F
      → Result (Unit {0}) × Store F
  unfolding claim record_success record_failure attempt as_provider_error
  process cfg w claimed_at d others env worker s =
      after_claim cfg w d others env s (claim cfg claimed_at env.payload env.event_id worker s)
