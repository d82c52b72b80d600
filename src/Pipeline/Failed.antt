-- ===== src/Pipeline/Failed.antt =====
-- What `_record_failure` of app/services/clova_worker.py writes: the chunk, its job and the events of
-- a failure.
use onramp_stt_api.Base.{
  ◌+◌, ◌≤◌, ◌<◌, ◌≡◌, ◌⊎◌, [], ◌∷◌, ◌++◌, none, refl, ap, true, false, some, List, Text, Bool-cases,
  inl, inr, arith, Unicode,
}
use onramp_stt_api.Float.{Float}
use onramp_stt_api.Status.{JobStatus, ChunkStatus}
use onramp_stt_api.Errors.{Error, ok, retryable, code_of}
use onramp_stt_api.Events.{ChunkRequested, Stream, Payload}
use onramp_stt_api.Db.{Store, TranscriptionJob, TranscriptionChunk, EventOutbox}
use onramp_stt_api.Db.Session.{get_job, get_chunk}
use onramp_stt_api.Clova.{Settings, Draw, reports}
use onramp_stt_api.Clova.Record.{World}
use onramp_stt_api.Clova.Failure.{
  settle_failure, record_failure, can_retry, failed_job, retry_row, dead_row, retry_at,
}
use onramp_stt_api.Clova.Effects.{progressed_job, progress_rows}
use onramp_stt_api.Clova.Outcome.{settle_failure-retry, settle_failure-dead, waiting, dead}
use onramp_stt_api.Pipeline.Results.{put_job_found, put_chunk_found}

module _ {F : Type 0} ⦃fl : Float F⦄ ⦃u : Unicode⦄ where
  -- What a failure writes into its chunk, whichever way it is settled.
  abbrev pub SetBack : Error → TranscriptionChunk F → TranscriptionChunk F → Type 0
  SetBack x c c' =
      (c'.retry_count ≡ c.retry_count + 1)
      × (c'.error_code ≡ some (code_of x))
      × (c'.lease_owner ≡ none)
      × (c'.lease_expires_at ≡ none)

  -- The chunk waits for another try, for which a new request is in the outbox, to be sent then.
  abbrev pub Waits :
      Settings F
      → Draw
      → ChunkRequested
      → Error
      → TranscriptionChunk F × TranscriptionChunk F
      → TranscriptionJob F × TranscriptionJob F
      → Store F × Store F
      → Type 0
  Waits cfg d r x (c, c') (j, j') (s, s') =
      (retryable x ≡ true)
      × c.retry_count + 1 ≤ cfg.clova_max_retry_count
      × (c'.status ≡ ChunkStatus.retry_wait)
      × (j' ≡ j)
      × ((row : EventOutbox F) × (s'.outbox ≡ s.outbox ++ row ∷ [])
          × (row.stream ≡ Stream.chunks)
          × (row.payload ≡ Payload.chunk_requested r)
          × (row.published_at ≡ none)
          × (c'.next_retry_at ≡ some row.available_at)
          × d.now ≤ row.available_at)

  -- The chunk and its job have failed, and a dead letter is in the outbox.
  abbrev pub Fails :
      Settings F
      → ChunkRequested
      → Error
      → TranscriptionChunk F × TranscriptionChunk F
      → TranscriptionJob F × TranscriptionJob F
      → Store F × Store F
      → Type 0
  Fails cfg r x (c, c') (j, j') (s, s') =
      ((retryable x ≡ false) ⊎ (cfg.clova_max_retry_count < c.retry_count + 1))
      × (c'.status ≡ ChunkStatus.failed)
      × (j'.status ≡ JobStatus.failed)
      × (j'.failed_chunks ≡ j.failed_chunks + 1)
      × (j'.completed_chunks ≡ j.completed_chunks)
      × (j'.error_code ≡ some (code_of x))
      × ((row : EventOutbox F) × (rest : List (EventOutbox F)) × (s'.outbox
            ≡ s.outbox ++ row ∷ rest)
          × (row.stream ≡ Stream.dlq)
          × (row.payload ≡ Payload.chunk_failed r (c.retry_count + 1) (code_of x)))

  -- Progress leaves the job's status, counters and error.
  progressed-same :
      (d : Draw) (j : TranscriptionJob F)
      → ((progressed_job d true j).id ≡ j.id)
        × ((progressed_job d true j).status ≡ j.status)
        × ((progressed_job d true j).failed_chunks ≡ j.failed_chunks)
        × ((progressed_job d true j).completed_chunks ≡ j.completed_chunks)
        × ((progressed_job d true j).error_code ≡ j.error_code)
  progressed-same d j = elim (Bool-cases (reports d true j)) [
    | inl y ↦ rw y (refl, refl, refl, refl, refl)
    | inr n ↦ rw n (refl, refl, refl, refl, refl)
  ]

  -- When `_record_failure` commits, the chunk has one more try counted, the error's code, and no
  -- lease. If the error is retryable and the tries are at most `clova_max_retry_count`, the chunk
  -- waits, its job is as before, and a request for it is in the outbox, unpublished and due when
  -- the chunk is to be tried again, not before now. If not, the chunk is failed, its job is `failed`
  -- with the error's code and one more failed chunk, and a dead letter is in the outbox.
  pub failure_outcome :
      (cfg : Settings F) (w : World F) (d : Draw) (r : ChunkRequested) (e : Text) (x : Error)
      (c : TranscriptionChunk F) (j : TranscriptionJob F) (s s' : Store F)
      → get_chunk r.transcription_id r.chunk_index s ≡ some c
      → get_job r.transcription_id s ≡ some j
      → record_failure cfg w d r e x s ≡ ok (tt, s')
      → (c' : TranscriptionChunk F) × (j' : TranscriptionJob F) × (get_chunk r.transcription_id
            r.chunk_index s'
          ≡ some c')
        × (get_job r.transcription_id s' ≡ some j')
        × SetBack x c c'
        × (Waits cfg d r x (c, c') (j, j') (s, s') ⊎ Fails cfg r x (c, c') (j, j') (s, s'))
  unfolding record_failure retry_row dead_row retry_at
  failure_outcome cfg w d r e x c j s s' stored owner h =
      let tid = r.transcription_id in
      let i = r.chunk_index in
      let k : settle_failure cfg w d r e x c j s ≡ ok (tt, s') = rw (stored, owner) at h in
      elim (Bool-cases (can_retry cfg x c)) [
        | inl again ↦
            let (e1, _) = settle_failure-retry cfg w d r e x c j s s' again k in
            (
              waiting cfg w d x c,
              j,
              rw e1 (put_chunk_found tid i c (waiting cfg w d x c) s stored refl refl),
              rw e1 owner,
              (refl, refl, refl, refl),
              inl (
                ground arith,
                ground arith,
                refl,
                refl,
                (
                  retry_row cfg w d r (c.retry_count + 1),
                  ap (λ (t : Store F). t.outbox) e1,
                  refl,
                  refl,
                  refl,
                  refl,
                  omega arith,
                ),
              ),
            )
        | inr last ↦
            let (e1, _) = settle_failure-dead cfg w d r e x c j s s' last k in
            let lost = progressed_job d true (failed_job r x j) in
            let (id, status, failed, completed, code) = progressed-same d (failed_job r x j) in
            (
              dead x c,
              lost,
              rw e1 (put_chunk_found tid i c (dead x c) s stored refl refl),
              rw e1 (put_job_found tid j lost s owner id),
              (refl, refl, refl, refl),
              inr (
                ground arith,
                refl,
                status,
                failed,
                completed,
                code,
                (
                  dead_row d r (c.retry_count + 1) x,
                  progress_rows d true (failed_job r x j),
                  ap (λ (t : Store F). t.outbox) e1,
                  refl,
                  refl,
                ),
              ),
            )
      ]
