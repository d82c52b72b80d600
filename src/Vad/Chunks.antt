-- ===== src/Vad/Chunks.antt =====
-- The chunks that `VadChunker.split` of app/stt/vad.py returns are numbered without a gap.
use onramp_stt_api.Base.{
  ℕ, zero, suc, ◌+◌, ◌<◌, ◌≡◌, refl, ap, Bool, List, [], ◌∷◌, map, if◌then◌else◌, length, arith,
  inl, inr,
}
use onramp_stt_api.Float.{Float}
use onramp_stt_api.Errors.{Error, ok, err, Result-cases}
use onramp_stt_api.Vad.{
  WavFormat, SpeechSegment, VadChunk, Settings, iter_pcm_frames, iter_speech_segments,
}
use onramp_stt_api.Vad.Pack.{nonempty, iter_packed_segments, number_chunks, split}

-- `range(i, i + n)`
abbrev pub range : ℕ → ℕ → List ℕ
range i zero = []
range i (suc n) = i ∷ range (i + 1) n

module _ {F : Type 0} ⦃fl : Float F⦄ where
  number_chunks-range :
      (gap_ms i : ℕ) (ps : List (List (SpeechSegment F)))
      → map (λ c. c.index) (number_chunks gap_ms i ps)
        ≡ range i (length (number_chunks gap_ms i ps))
  unfolding number_chunks
  number_chunks-range gap_ms i [] = refl
  number_chunks-range gap_ms i (p ∷ ps) = ap (λ x. i ∷ x) (number_chunks-range gap_ms (i + 1) ps)

  numbered :
      (gap_ms : ℕ) (ps : List (List (SpeechSegment F))) (cs : List (VadChunk F)) (e : Error)
      → (if nonempty (number_chunks gap_ms 0 ps) then ok (number_chunks gap_ms 0 ps) else err e)
        ≡ ok cs
      → (map (λ c. c.index) cs ≡ range 0 (length cs)) × 0 < length cs
  unfolding number_chunks
  numbered gap_ms [] cs e h = cc
  numbered gap_ms (p ∷ ps) cs e h =
      let same : number_chunks gap_ms 0 (p ∷ ps) ≡ cs = cc in
      rw (← same) (number_chunks-range gap_ms 0 (p ∷ ps), omega arith)

  -- When `split` succeeds, it returns at least one chunk, and their indices are 0, 1, 2 and so on.
  pub split_numbers :
      (cfg : Settings F) (is_speech : List ℕ → Bool) (fmt : WavFormat) (bytes : List ℕ)
      (cs : List (VadChunk F))
      → split cfg is_speech fmt bytes ≡ ok cs
      → (map (λ c. c.index) cs ≡ range 0 (length cs)) × 0 < length cs
  unfolding split
  split_numbers cfg is_speech fmt bytes cs h =
      elim (Result-cases (iter_pcm_frames ⦃fl = fl⦄ fmt cfg.stt_vad_frame_ms bytes)) [
        | inl (x, bad) ↦ let k = rw (split, bad) at h in cc
        | inr (fs, read) ↦
            numbered cfg.stt_vad_gap_ms
              (iter_packed_segments cfg.stt_vad_max_chunk_seconds cfg.stt_vad_gap_ms (
                iter_speech_segments is_speech cfg.stt_vad_frame_ms cfg.stt_vad_padding_ms
                  cfg.stt_vad_trigger_ratio fs))
              cs _ (rw (split, read) at h)
      ]
