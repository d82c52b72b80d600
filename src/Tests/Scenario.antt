-- ===== src/Tests/Scenario.antt =====
-- One transcription of one chunk, from the request to the merged transcript.
use onramp_stt_api.Base.{
  ℕ, refl, true, none, List, [], ◌∷◌, ◌==◌, Text, codes, eq_text, find_row, write_row, format_04d,
  Unicode,
}
use onramp_stt_api.Float.{Float, ticks}
use onramp_stt_api.Errors.{ok}
use onramp_stt_api.Events.{eq_group, TranscriptionRequested, ChunkRequested}
use onramp_stt_api.Db.{Store, Segment, SourceMapping}
use onramp_stt_api.Db.Session.{committed, is_processed, add_outbox, mark_processed}
use onramp_stt_api.Vad.{VadChunk}
use onramp_stt_api.Orchestrator.{AudioMetadata, ensure_job, store_chunks, chunk_key}
use onramp_stt_api.Clova.{Settings, ProviderResult, Draw, claim}
use onramp_stt_api.Clova.Record.{World, record_success, transcript_row}
use onramp_stt_api.Pipeline.Step.{Step, Reach, empty}

instance abbrev pub float : Float ℕ
float = ticks

-- ASCII letters are words, and nothing is folded.
instance abbrev pub unicode : Unicode
unicode = record {
  is_word = λ c. true;
  casefold = λ s. s;
  lower = λ s. s;
  same_letter = λ c d. c == d;
}

abbrev pub tid : Text
tid = codes "t1"

abbrev pub request : TranscriptionRequested
request = record {
  transcription_id = tid;
  tenant_id = codes "acme";
  source_object_key = codes "in/a.mp3";
  source_filename = none;
  source_content_type = codes "audio/mpeg";
  source_size_bytes = 900;
}

abbrev pub mapping : SourceMapping ℕ
mapping = record {
  chunk_start_sec = 0;
  chunk_end_sec = 5_000_000;
  source_start_sec = 1_000_000;
  source_end_sec = 6_000_000;
}

abbrev pub chunks : List (VadChunk ℕ)
chunks = record { index = 0; duration_sec = 5_000_000; source_mappings = mapping ∷ [] } ∷ []

abbrev pub metadata : AudioMetadata ℕ
metadata = record { duration_sec = 8_000_000; size_bytes = 900 }

abbrev pub chunk_id : ℕ → Text
chunk_id i = codes "c"

abbrev pub event_id : ℕ → Text
event_id i = codes "e"

abbrev pub chunk_request : ChunkRequested
chunk_request = record {
  transcription_id = tid;
  tenant_id = codes "acme";
  chunk_index = 0;
  chunk_object_key = chunk_key request 0;
}

abbrev pub settings : Settings ℕ
settings = record {
  clova_chunk_lease_sec = 60;
  clova_max_retry_count = 2;
  clova_backoff_base_sec = 1_000_000;
  clova_backoff_max_sec = 10_000_000;
}

abbrev pub segment : Segment ℕ
segment = record {
  start_time_sec = 0;
  end_time_sec = 2_000_000;
  text = codes "hello";
  speaker = none;
  confidence = none;
}

abbrev pub result : ProviderResult ℕ
result = record {
  provider = codes "clova";
  full_text = codes "hello";
  segments = segment ∷ [];
  provider_job_id = none;
}

-- storage and provider that answer
abbrev pub world : World ℕ
world = record {
  download = λ k. none;
  transcribe = λ k. ok result;
  upload = λ k. none;
  uniform = λ b. 0;
}

abbrev pub draw : Draw
draw = record { now = 100_000_000; first_id = codes "f1"; second_id = codes "f2" }

-- requested, cut, claimed by a worker, transcribed
abbrev pub s1 : Store ℕ
s1 = committed empty (ensure_job 10 request empty)

abbrev pub s2 : Store ℕ
s2 = committed s1 (store_chunks 20 chunk_id event_id request (codes "r") metadata chunks s1)

abbrev pub s3 : Store ℕ
s3 = committed s2 (claim settings 30 chunk_request (codes "e") (codes "w1") s2)

abbrev pub s4 : Store ℕ
s4 = committed s3 (record_success world draw chunk_request (codes "e") (codes "raw") result s3)

run-chunks : (Reach empty s2) × (Reach empty s3)
unfolding ensure_job store_chunks claim find_row eq_text is_processed add_outbox mark_processed
    eq_group chunk_key format_04d
run-chunks =
    let r2 : Reach empty s2 =
      Reach.next {t = s1} (Reach.next {t = empty} Reach.here (Step.job_ensured 10 request refl))
        (Step.chunks_stored 20 chunk_id event_id request (codes "r") metadata chunks refl) in
    (
      r2,
      Reach.next {t = s2} r2
          (Step.chunk_claimed settings 30 chunk_request (codes "e") (codes "w1") _ refl),
    )

pub run-merged : Reach empty s4
unfolding ensure_job store_chunks claim record_success find_row eq_text is_processed add_outbox
    mark_processed eq_group chunk_key format_04d write_row transcript_row
run-merged = Reach.next {t = s3} (run-chunks.1) (
    Step.chunk_succeeded world draw chunk_request (codes "e") (codes "raw") result
      (record { row = _; found = refl; carries = refl }) refl)
