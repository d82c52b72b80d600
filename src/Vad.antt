-- ===== src/Vad.antt =====
-- app/stt/vad.py: frames of PCM samples, the stretches of speech among them, and the chunks into
-- which these are packed. `webrtcvad` is a parameter: it says of a frame whether it is speech.
pub mod Pack
pub mod Packs
pub mod Frames
pub mod Chunks
use onramp_stt_api.Base.{
  ℕ, zero, suc, ◌+◌, ◌-◌, ◌*◌, ◌/◌, ◌≡◌, refl, Bool, true, false, not, ◌&&◌, ◌||◌, List, [], ◌∷◌,
  ◌++◌, map, Text, codes, ltb, leb, ◌==◌, if◌then◌else◌, length, take, drop, count,
}
use onramp_stt_api.Float.{Float, flt}
use onramp_stt_api.Errors.{Error, Result, ok, err}
use onramp_stt_api.Errors
use onramp_stt_api.Db.{SourceMapping}

pub record WavFormat : Type 0 where
  pub channels : ℕ
  pub sample_width : ℕ
  pub sample_rate : ℕ

-- `data` is the bytes of the frame.
pub record AudioFrame (F : Type 0) : Type 0 where
  pub bytes : List ℕ
  pub source_start_sec : F
  pub duration_sec : F

-- `SpeechSegment`, by its frames, of which there is a first one.
pub record SpeechSegment (F : Type 0) : Type 0 where
  pub first : AudioFrame F
  pub rest : List (AudioFrame F)

pub record VadChunk (F : Type 0) : Type 0 where
  pub index : ℕ
  pub duration_sec : F
  pub source_mappings : List (SourceMapping F)

pub record Settings (F : Type 0) : Type 0 where
  pub stt_vad_frame_ms : ℕ
  pub stt_vad_padding_ms : ℕ
  pub stt_vad_trigger_ratio : F
  pub stt_vad_max_chunk_seconds : F
  pub stt_vad_gap_ms : ℕ

-- `validate_wav_format`
unfoldable pub validate_wav_format : WavFormat → Result (Unit {0})
validate_wav_format f =
    if not (f.channels == 1)
    then err (Error.invalid_audio (codes "VAD input must be mono."))
    else if not (f.sample_width == 2)
    then err (Error.invalid_audio (codes "VAD input must use 16-bit PCM samples."))
    else if f.sample_rate == 8000
        || f.sample_rate == 16000
        || f.sample_rate == 32000
        || f.sample_rate == 48000
    then ok tt
    else err (Error.invalid_audio (codes "Unsupported VAD sample rate"))

-- The state of `iter_speech_segments`: the ring buffer, oldest first, with each frame's verdict.
pub record Detector (F : Type 0) : Type 0 where
  pub ring : List (AudioFrame F × Bool)
  pub voiced : List (AudioFrame F)
  pub triggered : Bool

-- `max(1, padding_ms // frame_duration_ms)`
unfoldable pub frames_per_padding : ℕ → ℕ → ℕ
frames_per_padding padding_ms frame_ms = let n = padding_ms / frame_ms in if ltb 1 n then n else 1

module _ {F : Type 0} where
  abbrev pub frames : SpeechSegment F → List (AudioFrame F)
  frames g = g.first ∷ g.rest

  -- the last frame, for `source_end_sec`
  unfoldable pub last_frame : AudioFrame F → List (AudioFrame F) → AudioFrame F
  last_frame f [] = f
  last_frame f (g ∷ gs) = last_frame g gs

  -- `SpeechSegment(frames=tuple(current))` of a list that is not empty
  abbrev pub segments_of : List (AudioFrame F) → List (SpeechSegment F)
  segments_of [] = []
  segments_of (f ∷ fs) = record { first = f; rest = fs } ∷ []

module _ {F : Type 0} ⦃fl : Float F⦄ where
  abbrev pub source_end_sec : AudioFrame F → F
  source_end_sec f = fl.add f.source_start_sec f.duration_sec

  -- `sum(frame.duration_sec for frame in frames)`, from the left
  unfoldable pub sum_durations : F → List (AudioFrame F) → F
  sum_durations acc [] = acc
  sum_durations acc (f ∷ fs) = sum_durations (fl.add acc f.duration_sec) fs

  unfoldable pub segment_duration : SpeechSegment F → F
  unfolding sum_durations
  segment_duration g = sum_durations (fl.of_int 0) (frames g)

  -- The loop of `iter_pcm_frames`: reads of `size` bytes, up to the end or a short one. The fuel is
  -- the number of bytes, which falls with every read.
  pub read_frames : ℕ → ℕ → F → ℕ → List ℕ → List (AudioFrame F)
  read_frames zero size duration index bytes = []
  read_frames (suc fuel) size duration index bytes =
      let rest = read_frames fuel size duration (index + 1) (drop size bytes) in
      if length (take size bytes) == 0
      then []
      else if not (length (take size bytes) == size)
      then []
      else record {
        bytes = take size bytes;
        source_start_sec = fl.mul (fl.of_int index) duration;
        duration_sec = duration;
      }
        ∷ rest

  -- `iter_pcm_frames`, of a file with the given samples
  unfoldable pub iter_pcm_frames : WavFormat → ℕ → List ℕ → Result (List (AudioFrame F))
  unfolding read_frames validate_wav_format
  iter_pcm_frames fmt frame_ms bytes =
      let samples = fmt.sample_rate * frame_ms / 1000 in
      elim (validate_wav_format fmt) [
        | err x ↦ err x
        | ok _ ↦ ok (
            read_frames (suc (length bytes)) (samples * fmt.sample_width)
              (fl.quot samples fmt.sample_rate) 0 bytes)
      ]

  -- `deque(maxlen=n).append`
  unfoldable pub ring_append :
      ℕ → AudioFrame F × Bool → List (AudioFrame F × Bool) → List (AudioFrame F × Bool)
  ring_append n x ring = let r = ring ++ x ∷ [] in drop (length r - n) r

  -- `len(ring) == maxlen and hits >= trigger_ratio * len(ring)`
  unfoldable pub tips : ℕ → F → ℕ → List (AudioFrame F × Bool) → Bool
  tips n ratio hits ring =
      length ring == n && fl.le (fl.mul ratio (fl.of_int (length ring))) (fl.of_int hits)

  -- One frame: the segment that it ends, if any, and the new state.
  unfoldable pub detect :
      ℕ → F → AudioFrame F → Bool → Detector F → List (SpeechSegment F) × Detector F
  unfolding ring_append tips
  detect n ratio f is_speech d =
      let ring = ring_append n (f, is_speech) d.ring in
      let more = d.voiced ++ f ∷ [] in
      if not d.triggered
      then (if tips n ratio (count (λ x. x.1) ring) ring
          then (
            [],
            record { ring = []; voiced = d.voiced ++ map (λ x. x.0) ring; triggered = true },
          )
          else ([], record d { ring = ring }))
      else (if tips n ratio (count (λ x. not x.1) ring) ring
          then (segments_of more, record { ring = []; voiced = []; triggered = false })
          else ([], record d { ring = ring; voiced = more }))

  unfoldable pub run_detector :
      ℕ → F → (List ℕ → Bool) → List (AudioFrame F) → Detector F → List (SpeechSegment F)
  unfolding detect
  run_detector n ratio is_speech [] d = segments_of d.voiced
  run_detector n ratio is_speech (f ∷ fs) d =
      let (out, d') = detect n ratio f (is_speech f.bytes) d in
      out ++ run_detector n ratio is_speech fs d'

  -- `iter_speech_segments`
  unfoldable pub iter_speech_segments :
      (List ℕ → Bool) → ℕ → ℕ → F → List (AudioFrame F) → List (SpeechSegment F)
  unfolding run_detector frames_per_padding
  iter_speech_segments is_speech frame_ms padding_ms ratio fs =
      run_detector (frames_per_padding padding_ms frame_ms) ratio is_speech fs
        (record { ring = []; voiced = []; triggered = false })
