-- ===== src/Vad/Pack.antt =====
-- app/stt/vad.py: `split_segment`, `iter_packed_segments`, `write_vad_chunk` and
-- `VadChunker.split`.
use onramp_stt_api.Base.{ℕ, ◌+◌, Bool, true, false, ◌&&◌, List, [], ◌∷◌, ◌++◌, codes, if◌then◌else◌}
use onramp_stt_api.Float.{Float, flt}
use onramp_stt_api.Errors.{Error, Result, ok, err}
use onramp_stt_api.Db.{SourceMapping}
use onramp_stt_api.Vad.{
  WavFormat, AudioFrame, SpeechSegment, VadChunk, Settings, frames, segments_of, source_end_sec,
  last_frame, segment_duration, iter_pcm_frames, iter_speech_segments,
}

abbrev pub nonempty : {A : Type 0} → List A → Bool
nonempty [] = false
nonempty (x ∷ xs) = true

module _ {F : Type 0} ⦃fl : Float F⦄ where
  -- `current and current_duration + added > max_chunk_seconds`
  abbrev pub overflows : {A : Type 0} → F → List A → F → F → Bool
  overflows limit current spent added = nonempty current && flt limit (fl.add spent added)

  -- The loop of `split_segment`: the current piece and its duration so far.
  unfoldable pub split_from :
      F → List (AudioFrame F) → F → List (AudioFrame F) → List (SpeechSegment F)
  split_from limit current spent [] = segments_of current
  split_from limit current spent (f ∷ fs) =
      let fresh =
        segments_of current ++ split_from limit (f ∷ []) (fl.add (fl.of_int 0) f.duration_sec) fs in
      let longer = split_from limit (current ++ f ∷ []) (fl.add spent f.duration_sec) fs in
      if overflows limit current spent f.duration_sec then fresh else longer

  unfoldable pub split_segment : F → SpeechSegment F → List (SpeechSegment F)
  unfolding split_from
  split_segment limit g = split_from limit [] (fl.of_int 0) (frames g)

  -- `segment.duration_sec + (gap_sec if current else 0)`
  abbrev pub added_duration : {A : Type 0} → F → List A → SpeechSegment F → F
  added_duration gap current g =
      fl.add (segment_duration g) (if nonempty current then gap else fl.of_int 0)

  -- `yield tuple(current)` of a list that is not empty
  abbrev pub packs_of : List (SpeechSegment F) → List (List (SpeechSegment F))
  packs_of [] = []
  packs_of (g ∷ gs) = (g ∷ gs) ∷ []

  -- The loop of `iter_packed_segments` over the pieces of all segments.
  unfoldable pub pack_from :
      F → F → List (SpeechSegment F) → F → List (SpeechSegment F) → List (List (SpeechSegment F))
  pack_from limit gap current spent [] = packs_of current
  pack_from limit gap current spent (g ∷ gs) =
      let added = added_duration gap current g in
      let fresh =
        packs_of current
        ++ pack_from limit gap (g ∷ []) (fl.add (fl.of_int 0) (segment_duration g)) gs in
      let longer = pack_from limit gap (current ++ g ∷ []) (fl.add spent added) gs in
      if overflows limit current spent added then fresh else longer

  unfoldable pub pieces : F → List (SpeechSegment F) → List (SpeechSegment F)
  unfolding split_segment
  pieces limit [] = []
  pieces limit (g ∷ gs) = split_segment limit g ++ pieces limit gs

  unfoldable pub iter_packed_segments :
      F → ℕ → List (SpeechSegment F) → List (List (SpeechSegment F))
  unfolding pack_from pieces
  iter_packed_segments limit gap_ms gs =
      pack_from limit (fl.quot gap_ms 1000) [] (fl.of_int 0) (pieces limit gs)

  -- `segment.source_end_sec`
  abbrev pub segment_end : SpeechSegment F → F
  segment_end g = source_end_sec (last_frame g.first g.rest)

  -- The loop of `write_vad_chunk`: the cursor and the mapping of each segment; `gapped` holds from
  -- the second segment on, when a gap is written first.
  unfoldable pub write_from : F → Bool → F → List (SpeechSegment F) → F × List (SourceMapping F)
  write_from gap gapped cursor [] = (cursor, [])
  write_from gap gapped cursor (g ∷ gs) =
      let start = if gapped then fl.add cursor gap else cursor in
      let end = fl.add start (segment_duration g) in
      let (final, ms) = write_from gap true end gs in
      (
        final,
        record {
          chunk_start_sec = start;
          chunk_end_sec = end;
          source_start_sec = (g.first).source_start_sec;
          source_end_sec = segment_end g;
        }
            ∷ ms,
      )

  unfoldable pub write_vad_chunk : ℕ → List (SpeechSegment F) → F × List (SourceMapping F)
  unfolding write_from
  write_vad_chunk gap_ms gs = write_from (fl.quot gap_ms 1000) false (fl.of_int 0) gs

  frame_bytes : List (AudioFrame F) → List ℕ
  frame_bytes [] = []
  frame_bytes (f ∷ fs) = f.bytes ++ frame_bytes fs

  -- The samples of a chunk's file: its frames, with silence between segments.
  unfoldable pub chunk_bytes : List ℕ → Bool → List (SpeechSegment F) → List ℕ
  unfolding frame_bytes
  chunk_bytes silence gapped [] = []
  chunk_bytes silence gapped (g ∷ gs) =
      (if gapped then silence else []) ++ frame_bytes (frames g) ++ chunk_bytes silence true gs

  -- `enumerate` over the packs, each written as a chunk
  unfoldable pub number_chunks : ℕ → ℕ → List (List (SpeechSegment F)) → List (VadChunk F)
  unfolding write_vad_chunk
  number_chunks gap_ms index [] = []
  number_chunks gap_ms index (p ∷ ps) =
      let (duration, ms) = write_vad_chunk gap_ms p in
      record { index = index; duration_sec = duration; source_mappings = ms }
      ∷ number_chunks gap_ms (index + 1) ps

  -- `VadChunker.split`, of a file with the given format and samples
  unfoldable pub split :
      Settings F → (List ℕ → Bool) → WavFormat → List ℕ → Result (List (VadChunk F))
  unfolding iter_pcm_frames iter_speech_segments iter_packed_segments number_chunks
  split cfg is_speech fmt bytes = elim (iter_pcm_frames fmt cfg.stt_vad_frame_ms bytes) [
    | err x ↦ err x
    | ok fs ↦
        let gs =
          iter_speech_segments is_speech cfg.stt_vad_frame_ms cfg.stt_vad_padding_ms
            cfg.stt_vad_trigger_ratio fs in
        let chunks =
          number_chunks cfg.stt_vad_gap_ms 0
            (iter_packed_segments cfg.stt_vad_max_chunk_seconds cfg.stt_vad_gap_ms gs) in
        if nonempty chunks
        then ok chunks
        else err (Error.invalid_audio (codes "No speech segments were detected."))
  ]
