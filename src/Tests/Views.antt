-- ===== src/Tests/Views.antt =====
-- The views of app/api/v1/internal_transcriptions.py on the stores of the run of one chunk.
use onramp_stt_api.Base.{
  some, ℕ, strip, join, ◌≡◌, refl, Text, arith, codes, eq_text, find_row, count, write_row,
  format_04d,
}
use onramp_stt_api.Status.{job_transition}
use onramp_stt_api.Events.{eq_group}
use onramp_stt_api.Db.Session.{ensure_job_transition, is_processed, add_outbox, mark_processed}
use onramp_stt_api.Orchestrator.{ensure_job, store_chunks, chunk_key}
use onramp_stt_api.Clova.{claim}
use onramp_stt_api.Clova.Record.{record_success, transcript_row}
use onramp_stt_api.CorrectionWorker.{save}
use onramp_stt_api.Merger.{
  render_plain_text, merge_chunk_segments, sort_segments, merge_chunks, merge_segments,
  push_segment, candidate,
}
use onramp_stt_api.Api.{TranscriptionResultResponse, Reply, get_transcription_result}
use onramp_stt_api.Api.Views.{saved_is_shown}
use onramp_stt_api.Tests.Scenario.{float, unicode, tid, s4, run-merged}
use onramp_stt_api.Tests.Workers.{corrected, correction_draw, announcement, j4, s9}

abbrev no_hash : Text → Text
no_hash t = t

saved_is_shown_example :
    (r : TranscriptionResultResponse ℕ) × get_transcription_result no_hash tid s9 ≡ Reply.found r
    × some r.raw.text ≡ j4.merged_text
unfolding ensure_job store_chunks claim record_success find_row eq_text is_processed add_outbox
    mark_processed eq_group chunk_key format_04d write_row transcript_row save count
    ensure_job_transition job_transition render_plain_text join merge_chunk_segments sort_segments
    merge_chunks merge_segments strip push_segment candidate
saved_is_shown_example =
    saved_is_shown no_hash correction_draw (codes "f1") announcement (codes "k") corrected j4 s4 s9
      run-merged refl refl (omega arith) refl
