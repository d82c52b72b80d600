-- ===== src/Orchestrator/Process.antt =====
-- app/services/orchestrator.py, `process` and the part of `_preprocess` outside the database, and
-- the limits of app/stt/audio_converter.py.
use onramp_stt_api.Base.{
  ℕ, Bool, Option, none, some, List, [], ◌∷◌, Text, codes, if◌then◌else◌, ltb,
}
use onramp_stt_api.Float.{Float, flt}
use onramp_stt_api.Errors.{Error, Result, ok, err}
use onramp_stt_api.Events.{Group, TranscriptionRequested, Envelope}
use onramp_stt_api.Db.{Store}
use onramp_stt_api.Db.Session.{is_processed}
use onramp_stt_api.Vad.{VadChunk, WavFormat}
use onramp_stt_api.Vad
use onramp_stt_api.Vad.Pack.{split}
use onramp_stt_api.Orchestrator.{
  AudioMetadata, chunk_key, normalized_key, ensure_job, store_chunks, mark_failed,
}

-- What lies outside: storage, ffprobe, ffmpeg (the normalized file that it writes), webrtcvad.
pub record World (F : Type 0) : Type 0 where
  pub download : Text → Option Error
  pub probe : Text → Result (AudioMetadata F)
  pub convert : Text → Result (WavFormat × List ℕ)
  pub is_speech : List ℕ → Bool
  pub upload : Text → Option Error

pub record Limits (F : Type 0) : Type 0 where
  pub stt_max_upload_bytes : ℕ
  pub stt_max_audio_duration_sec : F

abbrev or_error : {A : Type 0} → Option Error → Result A → Result A
or_error none m = m
or_error (some x) m = err x

abbrev then_ok : {A B : Type 0} → Result A → (A → Result B) → Result B
then_ok (ok a) f = f a
then_ok (err x) f = err x

module _ {F : Type 0} ⦃fl : Float F⦄ where
  -- `AudioConverter._validate_limits` (app/stt/audio_converter.py)
  unfoldable pub validate_limits : Limits F → AudioMetadata F → Result (AudioMetadata F)
  validate_limits l m =
      if ltb l.stt_max_upload_bytes m.size_bytes
      then err (Error.audio_limit_exceeded (codes "Audio file exceeds the configured size limit."))
      else if flt l.stt_max_audio_duration_sec m.duration_sec
      then err (Error.audio_limit_exceeded (codes "Audio duration exceeds the configured limit."))
      else ok m

  -- the uploads of the chunks, up to the first that fails
  upload_chunks : World F → TranscriptionRequested → List (VadChunk F) → Option Error
  upload_chunks w r [] = none
  upload_chunks w r (c ∷ cs) =
      let rest = upload_chunks w r cs in
      elim (w.upload (chunk_key r c.index)) [ some x ↦ some x | none ↦ rest ]

  -- `_preprocess` before its transaction: download, probe, convert, split, and the uploads.
  unfoldable pub prepare :
      Limits F
      → Vad.Settings F
      → World F
      → TranscriptionRequested
      → Result (AudioMetadata F × List (VadChunk F))
  unfolding validate_limits upload_chunks
  prepare l cfg w r = or_error (w.download r.source_object_key) (
      then_ok (then_ok (w.probe r.source_object_key) (validate_limits l)) λ m.
        then_ok (w.convert r.source_object_key) λ file.
          then_ok (split cfg w.is_speech file.0 file.1) λ chunks.
            or_error (w.upload (normalized_key r))
              (or_error (upload_chunks w r chunks) (ok (m, chunks))))

  abbrev settle : {A : Type 0} → Text → Store F → Result (A × Store F) → Result (Unit {0}) × Store F
  settle tid s (ok r) = (ok tt, r.1)
  settle tid s (err x) = (err x, mark_failed tid x s)

  abbrev preprocess :
      ℕ
      → (ℕ → Text)
      → (ℕ → Text)
      → TranscriptionRequested
      → Text
      → Store F
      → Result (AudioMetadata F × List (VadChunk F))
      → Result (Unit {0}) × Store F
  preprocess now ids events r e s (err x) = (err x, mark_failed r.transcription_id x s)
  preprocess now ids events r e s (ok (m, cs)) =
      settle r.transcription_id s (store_chunks now ids events r e m cs s)

  abbrev after_ensure :
      Limits F
      → Vad.Settings F
      → World F
      → ℕ
      → (ℕ → Text)
      → (ℕ → Text)
      → (Store F → Store F)
      → Envelope TranscriptionRequested
      → Store F
      → Result (Unit {0} × Store F)
      → Result (Unit {0}) × Store F
  after_ensure l cfg w now ids events others env s (err x) = (err x, s)
  after_ensure l cfg w now ids events others env s (ok (_, s')) =
      preprocess now ids events env.payload env.event_id (others s') (prepare l cfg w env.payload)

  -- `process`: `others` is what other workers commit while the audio is prepared. A failure of the
  -- preparation, or of the transaction, marks the job as failed and is raised again.
  unfoldable pub process :
      Limits F
      → Vad.Settings F
      → World F
      → ℕ
      → (ℕ → Text)
      → (ℕ → Text)
      → (Store F → Store F)
      → Envelope TranscriptionRequested
      → Store F
      → Result (Unit {0}) × Store F
  unfolding ensure_job store_chunks mark_failed prepare
  process l cfg w now ids events others env s =
      if is_processed Group.orchestrators env.event_id s
      then (ok tt, s)
      else after_ensure l cfg w now ids events others env s (ensure_job now env.payload s)
