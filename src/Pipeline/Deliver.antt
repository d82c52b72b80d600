-- ===== src/Pipeline/Deliver.antt =====
-- The delivery of a chunk request, as app/services/clova_worker.py records its outcome: what the
-- store and the outcome say of each other.
pub mod Requests
pub mod Counters
use onramp_stt_api.Base.{
  is_none, ℕ, ◌+◌, ◌≤◌, ◌≡◌, refl, sym, ap, ◌∙◌, ◌⊎◌, Bool, true, false, not, ◌&&◌, none, some,
  List, Text, eq_text, eq_text_sound, count_mono, ◌==◌, if◌then◌else◌, b_to_n, count-append,
  find_row, find_row-append_found, Bool-cases, inl, inr, arith,
}
use mathlib.Core.Path.{subst, subst₂}
use onramp_stt_api.Status.{ChunkStatus, is_completed}
use onramp_stt_api.Events.{Group}
use onramp_stt_api.Db.{Store, TranscriptionJob, TranscriptionChunk, EventOutbox}
use onramp_stt_api.Db.Session.{
  get_job, get_chunk, is_event, is_chunk, is_processed, put_job, put_chunk,
}
use onramp_stt_api.Clova.Effects.{with_events, asks_for, announces}
use onramp_stt_api.Clova.Outcome.{requests_in, announced_in, outcome}
use onramp_stt_api.Pipeline.{
  Inv, is_settled, is_merged, is_done, open_requests, chunk_rows, completed_rows, announcements,
}
use onramp_stt_api.Pipeline.Rows.{
  get_job-key, get_job-put_job, get_chunk-put_chunk, count-put_chunk, open-with_events,
  open-with_receipt, is_chunk_refl, is_chunk-key,
}

-- A store where `row` of the outbox is a request for the chunk `c` of the job `j` that no worker
-- has processed, and the outcome that is recorded for it: chunk, job and events.
pub record Delivery {F : Type 0} (s : Store F) (c c' : TranscriptionChunk F)
    (j j' : TranscriptionJob F) (es : List (EventOutbox F)) (e : Text) (row : EventOutbox F)
    : Type 0 where
  pub stored : get_chunk c'.transcription_id c'.chunk_index s ≡ some c
  pub owner : get_job c'.transcription_id s ≡ some j
  pub same_job : c'.transcription_id ≡ c.transcription_id
  pub same_index : c'.chunk_index ≡ c.chunk_index
  pub published : find_row (is_event e) s.outbox ≡ some row
  pub asked : asks_for c'.transcription_id c'.chunk_index row.payload ≡ true
  pub fresh : is_processed Group.clova_workers e s ≡ false
  pub same_id : j'.id ≡ j.id
  pub same_total : j'.total_chunks ≡ j.total_chunks
  pub counts : j'.completed_chunks ≡ j.completed_chunks + b_to_n (is_completed c'.status)
  -- the new events ask for this chunk at most, and for it only if it is not settled
  pub asks_again :
      (tid : Text) (i : ℕ)
      → requests_in tid i es + b_to_n (is_chunk tid i c' && is_settled c'.status)
        ≤ b_to_n (is_chunk tid i c')
  pub announced :
      (tid : Text)
      → announced_in tid es
        ≡ b_to_n (
            eq_text j'.id tid && (is_completed c'.status && j'.completed_chunks == j'.total_chunks))
  pub merged :
      is_merged j'.status ≡ true
      → (j'.completed_chunks ≡ j'.total_chunks) ⊎ (is_merged j.status ≡ true)
  pub worded :
      is_merged j'.status ≡ true
      → (is_none j'.merged_text ≡ false)
        ⊎ ((is_merged j.status ≡ true) × (j'.merged_text ≡ j.merged_text))
