-- ===== src/Pipeline.antt =====
-- The pipeline as a whole: what the rows of one database say together, whatever the workers of
-- app/services/ have committed.
pub mod Rows
pub mod Deliver
pub mod Quiet
pub mod Chunks
pub mod Worker
pub mod Record
pub mod Filling
pub mod Intake
pub mod Correction
pub mod Publish
pub mod Lease
pub mod Results
pub mod Failed
pub mod Request
pub mod Saved
pub mod Process
pub mod Step
use onramp_stt_api.Base.{
  is_none, ℕ, ◌+◌, ◌≤◌, ◌≡◌, Bool, true, false, not, ◌&&◌, Option, none, some, Text, eq_text, ◌==◌,
  b_to_n, count,
}
use onramp_stt_api.Status.{JobStatus, ChunkStatus, is_completed}
use onramp_stt_api.Events.{Group}
use onramp_stt_api.Db.{Store, TranscriptionJob, TranscriptionChunk}
use onramp_stt_api.Db.Session.{get_job, get_chunk, is_processed}
use onramp_stt_api.Clova.Effects.{asks_for}
use onramp_stt_api.Clova.Outcome.{announced_in}

-- A chunk on which no worker has anything left to do.
abbrev pub is_settled : ChunkStatus → Bool
is_settled ChunkStatus.completed = true
is_settled ChunkStatus.failed = true
is_settled _ = false

-- A job whose transcript is merged.
abbrev pub is_merged : JobStatus → Bool
is_merged JobStatus.transcript_completed = true
is_merged JobStatus.correcting = true
is_merged JobStatus.correction_completed = true
is_merged _ = false

module _ {F : Type 0} where
  -- the chunks of a job, and those that are completed
  abbrev pub chunk_rows : Text → Store F → ℕ
  chunk_rows tid s = count (λ c. eq_text c.transcription_id tid) s.chunks

  abbrev pub completed_rows : Text → Store F → ℕ
  completed_rows tid s =
      count (λ c. eq_text c.transcription_id tid && is_completed c.status) s.chunks

  -- the requests for a chunk that no CLOVA worker has processed
  abbrev pub open_requests : Text → ℕ → Store F → ℕ
  open_requests tid i s =
      count (λ o. asks_for tid i o.payload && not (is_processed Group.clova_workers o.id s))
        s.outbox

  -- the announcements of a merged transcript
  abbrev pub announcements : Text → Store F → ℕ
  announcements tid s = announced_in tid s.outbox

  abbrev pub is_done : TranscriptionJob F → Bool
  is_done j = not (j.total_chunks == 0) && j.completed_chunks == j.total_chunks

  pub record Inv (s : Store F) : Type 0 where
    -- a chunk has at most one open request, and none once it is completed or failed
    pub live :
        (tid : Text) (i : ℕ) (c : TranscriptionChunk F)
        → get_chunk tid i s ≡ some c
        → open_requests tid i s + b_to_n (is_settled c.status) ≤ 1
    pub chunkless : (tid : Text) (i : ℕ) → get_chunk tid i s ≡ none → open_requests tid i s ≡ 0
    -- the counters of a job are the numbers of its rows
    pub counted :
        (tid : Text) (j : TranscriptionJob F)
        → get_job tid s ≡ some j
        → j.completed_chunks ≡ completed_rows tid s
    pub sized :
        (tid : Text) (j : TranscriptionJob F)
        → get_job tid s ≡ some j
        → j.total_chunks ≡ chunk_rows tid s
    pub jobless : (tid : Text) → get_job tid s ≡ none → chunk_rows tid s ≡ 0
    -- its transcript is announced once, when the last chunk is completed
    pub announced :
        (tid : Text) (j : TranscriptionJob F)
        → get_job tid s ≡ some j
        → announcements tid s ≡ b_to_n (is_done j)
    pub unannounced : (tid : Text) → get_job tid s ≡ none → announcements tid s ≡ 0
    -- a job with a transcript has all its chunks completed
    pub complete :
        (tid : Text) (j : TranscriptionJob F)
        → get_job tid s ≡ some j
        → is_merged j.status ≡ true
        → j.completed_chunks ≡ j.total_chunks
    -- and its text
    pub worded :
        (tid : Text) (j : TranscriptionJob F)
        → get_job tid s ≡ some j
        → is_merged j.status ≡ true
        → is_none j.merged_text ≡ false
