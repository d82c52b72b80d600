-- ===== src/Tests/Audio.antt =====
-- Cutting and merging on small inputs.
use onramp_stt_api.Base.{
  ℕ, ◌+◌, ◌*◌, ◌<◌, ◌≡◌, ◌≢◌, ◌⊎◌, refl, true, List, [], ◌∷◌, ◌++◌, map, count, All,
}
use onramp_stt_api.Status.{JobStatus, job_transition}
use onramp_stt_api.Status.Graph.{History, LedTo, final_statuses, completed_passed_all}
use onramp_stt_api.Vad.{
  segment_duration, last_frame, AudioFrame, SpeechSegment, VadChunk, Settings, WavFormat, frames,
}
use onramp_stt_api.Vad.Pack.{split_segment, iter_packed_segments, split}
use onramp_stt_api.Vad.Frames.{flat, flat_packs, Fits, split_segment_keeps, packing_keeps}
use onramp_stt_api.Vad.Packs.{IsPack}
use onramp_stt_api.Vad.Chunks.{split_numbers}
use onramp_stt_api.Merger.{asdict, map_chunk_time, merge_chunk_segments}
use onramp_stt_api.Merger.Order.{is_sorted, Forward, merged_in_order}
use onramp_stt_api.Merger.Times.{Between, mapped_within_source}
use onramp_stt_api.Tests.Scenario.{float, unicode, mapping, segment}

abbrev frame : ℕ → AudioFrame ℕ
frame i = record { bytes = i ∷ []; source_start_sec = i; duration_sec = 4 }

-- Three frames of 4, to be cut at 10.
abbrev speech : SpeechSegment ℕ
speech = record { first = frame 0; rest = frame 4 ∷ frame 8 ∷ [] }

split_segment_test :
    split_segment 10 speech
    ≡ record { first = frame 0; rest = frame 4 ∷ [] } ∷ record { first = frame 8; rest = [] } ∷ []
unfolding split_segment
split_segment_test = refl

split_segment_keeps_example :
    (flat (split_segment 10 speech) ≡ frames speech) × All (Fits 10) (split_segment 10 speech)
split_segment_keeps_example = split_segment_keeps 10 speech

packing_keeps_example :
    (flat (flat_packs (iter_packed_segments 10 0 (speech ∷ speech ∷ [])))
      ≡ frames speech ++ frames speech)
    × All (Fits 10) (flat_packs (iter_packed_segments 10 0 (speech ∷ speech ∷ [])))
    × All (IsPack 10 0) (iter_packed_segments 10 0 (speech ∷ speech ∷ []))
packing_keeps_example = packing_keeps 10 0 (speech ∷ speech ∷ [])

-- 8 kHz, frames of 1 ms, which are 16 bytes; the first bytes of the file are speech.
abbrev wav : WavFormat
wav = record { channels = 1; sample_width = 2; sample_rate = 8000 }

abbrev vad : Settings ℕ
vad = record {
  stt_vad_frame_ms = 1;
  stt_vad_padding_ms = 1;
  stt_vad_trigger_ratio = 1;
  stt_vad_max_chunk_seconds = 1_500;
  stt_vad_gap_ms = 0;
}

abbrev sixteen : List ℕ
sixteen = 1 ∷ 1 ∷ 1 ∷ 1 ∷ 1 ∷ 1 ∷ 1 ∷ 1 ∷ 1 ∷ 1 ∷ 1 ∷ 1 ∷ 1 ∷ 1 ∷ 1 ∷ 1 ∷ []

abbrev cut : ℕ → VadChunk ℕ
cut i = record {
  index = i;
  duration_sec = 1_000;
  source_mappings =
      record {
        chunk_start_sec = 0;
        chunk_end_sec = 1_000;
        source_start_sec = i * 1_000;
        source_end_sec = i * 1_000 + 1_000;
      }
      ∷ [];
}

split_numbers_example : (map (λ c. c.index) (cut 0 ∷ cut 1 ∷ []) ≡ 0 ∷ 1 ∷ []) × 0 < 2
unfolding split count segment_duration last_frame
split_numbers_example =
    split_numbers vad (λ b. true) wav (sixteen ++ sixteen) (cut 0 ∷ cut 1 ∷ []) refl

merged_in_order_example :
    (is_sorted (merge_chunk_segments ((mapping ∷ [], asdict segment ∷ []) ∷ [])) ≡ true)
    × All Forward (merge_chunk_segments ((mapping ∷ [], asdict segment ∷ []) ∷ []))
merged_in_order_example = merged_in_order ((mapping ∷ [], asdict segment ∷ []) ∷ [])

mapped_within_source_example : Between 1_000_000 6_000_000 (map_chunk_time 3_000_000 (mapping ∷ []))
mapped_within_source_example =
    mapped_within_source 1_000_000 6_000_000 3_000_000 mapping [] (refl, refl, refl) tt

final_statuses_example :
    (JobStatus.failed ≢ JobStatus.correction_completed)
    × (JobStatus.failed ≢ JobStatus.cancelled)
    × ((JobStatus.failed ≢ JobStatus.failed) ⊎ (JobStatus.queued ≡ JobStatus.queued))
    × ((JobStatus.failed ≡ JobStatus.failed)
        ⊎ (job_transition JobStatus.failed JobStatus.failed ≡ true))
unfolding job_transition
final_statuses_example = final_statuses JobStatus.failed JobStatus.queued refl

whole_life : History JobStatus.queued JobStatus.correction_completed
unfolding job_transition
whole_life =
    History.next {t = JobStatus.correcting}
      (History.next {t = JobStatus.transcript_completed}
        (History.next {t = JobStatus.merging}
          (History.next {t = JobStatus.transcribing}
            (History.next {t = JobStatus.preprocessing}
              (History.next {t = JobStatus.queued} History.here refl) refl)
            refl)
          refl)
        refl)
      refl

completed_passed_all_example :
    LedTo
      (JobStatus.correction_completed ∷ JobStatus.correcting ∷ JobStatus.transcript_completed
        ∷ JobStatus.merging ∷ JobStatus.transcribing ∷ JobStatus.preprocessing ∷ [])
      JobStatus.queued
      whole_life
completed_passed_all_example = completed_passed_all whole_life refl refl
