-- ===== src/Tests/Pipeline.antt =====
-- What the run of one chunk says by the theorems on every run.
use onramp_stt_api.Base.{
  is_none, false, ◌+◌, ◌≡◌, ◌≤◌, refl, eq_text, find_row, count, write_row, format_04d,
}
use onramp_stt_api.Events.{eq_group}
use onramp_stt_api.Db.Session.{is_processed, add_outbox, mark_processed}
use onramp_stt_api.Orchestrator.{ensure_job, store_chunks, chunk_key}
use onramp_stt_api.Clova.{claim}
use onramp_stt_api.Clova.Record.{record_success, transcript_row}
use onramp_stt_api.Pipeline.{open_requests, announcements, chunk_rows, completed_rows}
use onramp_stt_api.Pipeline.Step.{counters_exact, announced_once, merged_has_all, one_open_request}
use onramp_stt_api.Tests.Workers.{j4}
use onramp_stt_api.Tests.Scenario.{float, unicode, tid, s3, s4, run-merged}

merged_test :
    (announcements tid s4 ≡ 1) × (open_requests tid 0 s4 ≡ 0) × (open_requests tid 0 s3 ≡ 1)
unfolding ensure_job store_chunks claim record_success find_row eq_text is_processed add_outbox
    mark_processed eq_group chunk_key format_04d write_row transcript_row count
merged_test = (refl, refl, refl)

counters_exact_example : (1 ≡ chunk_rows tid s4) × (1 ≡ completed_rows tid s4) × 1 ≤ 1
unfolding ensure_job store_chunks claim record_success find_row eq_text is_processed add_outbox
    mark_processed eq_group chunk_key format_04d write_row transcript_row count
counters_exact_example = counters_exact s4 tid _ run-merged refl

announced_once_example : announcements tid s4 ≡ 1
unfolding ensure_job store_chunks claim record_success find_row eq_text is_processed add_outbox
    mark_processed eq_group chunk_key format_04d write_row transcript_row count
announced_once_example = announced_once s4 tid _ run-merged refl

merged_has_all_example :
    (completed_rows tid s4 ≡ chunk_rows tid s4) × (is_none j4.merged_text ≡ false)
unfolding ensure_job store_chunks claim record_success find_row eq_text is_processed add_outbox
    mark_processed eq_group chunk_key format_04d write_row transcript_row count
merged_has_all_example = merged_has_all s4 tid _ run-merged refl refl

one_open_request_example : open_requests tid 0 s4 + 1 ≤ 1
unfolding ensure_job store_chunks claim record_success find_row eq_text is_processed add_outbox
    mark_processed eq_group chunk_key format_04d write_row transcript_row count
one_open_request_example = one_open_request s4 tid 0 _ run-merged refl
