-- ===== src/Errors.antt =====
-- app/core/exceptions.py, with the exceptions that the services raise themselves and those of the
-- database and of Python that they meet.
use onramp_stt_api.Base.{
  Bool, true, false, ℕ, Option, some, Text, codes, ◌++◌, ◌≡◌, refl, ◌⊎◌, inl, inr,
}
use onramp_stt_api.Status.{JobStatus, ChunkStatus, job_status_value, chunk_status_value}

pub data Error : Type 0 where
  -- subclasses of `SttError`
  storage_error : Text → Error
  invalid_audio : Text → Error
  audio_limit_exceeded : Text → Error
  -- the message, `retryable` and `status_code`
  provider_error : Text → Bool → Option ℕ → Error
  -- the database: a second row under one primary or unique key
  integrity_error : Error
  -- `ValueError` and `RuntimeError` raised by the services
  invalid_job_transition : JobStatus → JobStatus → Error
  event_job_mismatch : Error
  chunk_not_stored : Error
  chunk_key_mismatch : Error
  cannot_claim : ChunkStatus → Error
  job_not_found : Error
  row_disappeared : Error
  incomplete_chunks : Error
  not_ready : Error
  -- any other exception with an attribute `code`: its type's name, the code and its text
  coded : Text → Option Text → Text → Error
  -- any other exception without one, by its type's name and its text
  other : Text → Text → Error

pub data Result {ℓ} (A : Type ℓ) : Type ℓ where
  ok : A → Result A
  err : Error → Result A

-- `isinstance(error, SttError)`
unfoldable pub is_stt_error : Error → Bool
is_stt_error (storage_error m) = true
is_stt_error (invalid_audio m) = true
is_stt_error (audio_limit_exceeded m) = true
is_stt_error (provider_error m r c) = true
is_stt_error _ = false

-- `error.retryable`, which only an `SttError` has
unfoldable pub retryable : Error → Bool
retryable (storage_error m) = true
retryable (provider_error m r c) = r
retryable _ = false

-- `type(error).__name__`
unfoldable pub type_name : Error → Text
type_name (storage_error m) = codes "StorageError"
type_name (invalid_audio m) = codes "InvalidAudioError"
type_name (audio_limit_exceeded m) = codes "AudioLimitExceededError"
type_name (provider_error m r c) = codes "ProviderError"
type_name integrity_error = codes "IntegrityError"
type_name (invalid_job_transition a b) = codes "ValueError"
type_name event_job_mismatch = codes "ValueError"
type_name chunk_not_stored = codes "ValueError"
type_name chunk_key_mismatch = codes "ValueError"
type_name (cannot_claim s) = codes "ValueError"
type_name job_not_found = codes "ValueError"
type_name (coded name code m) = name
type_name (other name m) = name
type_name _ = codes "RuntimeError"

-- the class attribute `code`, where the source reads it of an `SttError` only; the type's name
-- stands for any other exception
unfoldable pub code_of : Error → Text
unfolding type_name
code_of (storage_error m) = codes "storage_error"
code_of (invalid_audio m) = codes "invalid_audio"
code_of (audio_limit_exceeded m) = codes "audio_limit_exceeded"
code_of (provider_error m r c) = codes "provider_error"
code_of e = type_name e

-- `getattr(exc, "code", type(exc).__name__)`: SQLAlchemy documents "gkpj" as the code of every
-- `IntegrityError`, and an exception of its own may have the code `None`.
unfoldable pub code_or_name : Error → Option Text
unfolding code_of
code_or_name integrity_error = some (codes "gkpj")
code_or_name (coded name code m) = code
code_or_name x = some (code_of x)

-- `str(error)`
unfoldable pub message : Error → Text
message (storage_error m) = m
message (invalid_audio m) = m
message (audio_limit_exceeded m) = m
message (provider_error m r c) = m
message integrity_error = codes "duplicate key value violates unique constraint"
message (invalid_job_transition a b) =
    codes "Invalid job status transition: "
    ++ job_status_value a
    ++ codes " -> "
    ++ job_status_value b
message event_job_mismatch = codes "Transcription event does not match the existing job."
message chunk_not_stored = codes "Chunk event does not match a stored chunk."
message chunk_key_mismatch = codes "Chunk event object key mismatch."
message (cannot_claim s) =
    codes "Chunk cannot be claimed from status " ++ chunk_status_value s ++ codes "."
message job_not_found = codes "Transcription job not found for correction."
message row_disappeared = codes "STT chunk or job disappeared."
message incomplete_chunks = codes "Cannot merge a transcription with incomplete chunks."
message not_ready = codes "Merged transcript is not ready for correction."
message (coded name code m) = m
message (other name m) = m

pub Result-cases {ℓ} :
    {A : Type ℓ} (r : Result A) → ((e : Error) × (r ≡ err e)) ⊎ ((a : A) × (r ≡ ok a))
Result-cases (ok a) = inr (a, refl)
Result-cases (err e) = inl (e, refl)
