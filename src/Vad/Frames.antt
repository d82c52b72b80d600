-- ===== src/Vad/Frames.antt =====
-- `split_segment` and `iter_packed_segments` of app/stt/vad.py lose no frame and keep to the
-- limit.
use mathlib.Core.List.{append-nil, append_assoc}
use onramp_stt_api.Base.{
  ℕ, ◌≡◌, ◌⊎◌, inl, inr, refl, sym, ap, ◌∙◌, true, false, List, [], ◌∷◌, ◌++◌, All, Bool-cases,
  arith,
}
use onramp_stt_api.Float.{Float}
use onramp_stt_api.Vad.{
  AudioFrame, SpeechSegment, frames, segments_of, sum_durations, segment_duration,
}
use onramp_stt_api.Vad.Pack.{
  overflows, split_from, split_segment, added_duration, packs_of, pack_from, pieces,
  iter_packed_segments,
}
use onramp_stt_api.Vad.Packs.{All-append, IsPack, pack_from-IsPack}

module _ {F : Type 0} where
  -- the frames of segments, one after another
  abbrev pub flat : List (SpeechSegment F) → List (AudioFrame F)
  flat [] = []
  flat (g ∷ gs) = frames g ++ flat gs

  -- the segments of packs, one after another
  abbrev pub flat_packs : List (List (SpeechSegment F)) → List (SpeechSegment F)
  flat_packs [] = []
  flat_packs (p ∷ ps) = p ++ flat_packs ps

  flat-append : (gs hs : List (SpeechSegment F)) → flat (gs ++ hs) ≡ flat gs ++ flat hs
  flat-append [] hs = refl
  flat-append (g ∷ gs) hs =
      ap (λ x. frames g ++ x) (flat-append gs hs)
      ∙ sym (append_assoc (frames g) (flat gs) (flat hs))

  flat-segments_of : (fs : List (AudioFrame F)) → flat (segments_of fs) ≡ fs
  flat-segments_of [] = refl
  flat-segments_of (f ∷ fs) = append-nil (f ∷ fs)

  flat_packs-append :
      (ps qs : List (List (SpeechSegment F)))
      → flat_packs (ps ++ qs) ≡ flat_packs ps ++ flat_packs qs
  flat_packs-append [] qs = refl
  flat_packs-append (p ∷ ps) qs =
      ap (λ x. p ++ x) (flat_packs-append ps qs)
      ∙ sym (append_assoc p (flat_packs ps) (flat_packs qs))

module _ {F : Type 0} ⦃fl : Float F⦄ where
  flat-packs_of : (gs : List (SpeechSegment F)) → flat_packs (packs_of gs) ≡ gs
  flat-packs_of [] = refl
  flat-packs_of (g ∷ gs) = append-nil (g ∷ gs)

module _ {F : Type 0} ⦃fl : Float F⦄ (limit : F) where
  split_from-flat :
      (current : List (AudioFrame F)) (spent : F) (fs : List (AudioFrame F))
      → flat (split_from limit current spent fs) ≡ current ++ fs
  unfolding split_from
  split_from-flat current spent [] = flat-segments_of current ∙ sym (append-nil current)
  split_from-flat current spent (f ∷ fs) =
      elim (Bool-cases (overflows limit current spent f.duration_sec)) [
        | inl over ↦
            rw
              (
                over,
                flat-append (segments_of current)
                    (split_from limit (f ∷ []) (fl.add (fl.of_int 0) f.duration_sec) fs),
                flat-segments_of current,
                split_from-flat (f ∷ []) (fl.add (fl.of_int 0) f.duration_sec) fs,
              )
              refl
        | inr room ↦
            rw (room, split_from-flat (current ++ f ∷ []) (fl.add spent f.duration_sec) fs)
              (append_assoc current (f ∷ []) fs)
      ]

  -- A piece of one frame, or one that keeps to the limit.
  abbrev pub Fits : SpeechSegment F → Type 0
  Fits g = (g.rest ≡ []) ⊎ (fl.le (segment_duration g) limit ≡ true)

  sum-append :
      (acc : F) (fs : List (AudioFrame F)) (f : AudioFrame F)
      → sum_durations acc (fs ++ f ∷ []) ≡ fl.add (sum_durations acc fs) f.duration_sec
  unfolding sum_durations
  sum-append acc [] f = refl
  sum-append acc (g ∷ fs) f = sum-append (fl.add acc g.duration_sec) fs f

  grown :
      (current : List (AudioFrame F)) (spent : F) (f : AudioFrame F)
      → spent ≡ sum_durations (fl.of_int 0) current
      → overflows limit current spent f.duration_sec ≡ false
      → All Fits (segments_of (current ++ f ∷ []))
  unfolding segment_duration
  grown [] spent f e h = (inl refl, tt)
  grown (c ∷ cs) spent f e h =
      let k = rw e at h in
      let total = sum-append (fl.of_int 0) (c ∷ cs) f in (inr (rw total (ground arith)), tt)

  split_from-Fits :
      (current : List (AudioFrame F)) (spent : F) (fs : List (AudioFrame F))
      → spent ≡ sum_durations (fl.of_int 0) current
      → All Fits (segments_of current)
      → All Fits (split_from limit current spent fs)
  unfolding split_from sum_durations
  split_from-Fits current spent [] e a = a
  split_from-Fits current spent (f ∷ fs) e a =
      elim (Bool-cases (overflows limit current spent f.duration_sec)) [
        | inl over ↦ rw over (
            All-append Fits (segments_of current)
              (split_from limit (f ∷ []) (fl.add (fl.of_int 0) f.duration_sec) fs) a
              (split_from-Fits (f ∷ []) (fl.add (fl.of_int 0) f.duration_sec) fs refl
                (inl refl, tt)))
        | inr room ↦ rw room (
            split_from-Fits (current ++ f ∷ []) (fl.add spent f.duration_sec) fs
              (ap (λ x. fl.add x f.duration_sec) e ∙ sym (sum-append (fl.of_int 0) current f))
              (grown current spent f e room))
      ]

  -- `split_segment` keeps every frame, in order, and no piece is longer than the limit but one of a
  -- single frame.
  pub split_segment_keeps :
      (g : SpeechSegment F)
      → (flat (split_segment limit g) ≡ frames g) × All Fits (split_segment limit g)
  unfolding split_segment sum_durations
  split_segment_keeps g = (
    split_from-flat [] (fl.of_int 0) (frames g),
    split_from-Fits [] (fl.of_int 0) (frames g) refl tt,
  )

  pieces-flat : (gs : List (SpeechSegment F)) → flat (pieces limit gs) ≡ flat gs
  unfolding pieces
  pieces-flat [] = refl
  pieces-flat (g ∷ gs) =
      rw
        (
          flat-append (split_segment limit g) (pieces limit gs),
          (split_segment_keeps g).0,
          pieces-flat gs,
        )
        refl

  pieces-Fits : (gs : List (SpeechSegment F)) → All Fits (pieces limit gs)
  unfolding pieces
  pieces-Fits [] = tt
  pieces-Fits (g ∷ gs) =
      All-append Fits (split_segment limit g) (pieces limit gs) (split_segment_keeps g).1
        (pieces-Fits gs)

  pack_from-flat :
      (gap : F) (current : List (SpeechSegment F)) (spent : F) (gs : List (SpeechSegment F))
      → flat_packs (pack_from limit gap current spent gs) ≡ current ++ gs
  unfolding pack_from
  pack_from-flat gap current spent [] = flat-packs_of current ∙ sym (append-nil current)
  pack_from-flat gap current spent (g ∷ gs) =
      let added = added_duration gap current g in
      elim (Bool-cases (overflows limit current spent added)) [
        | inl over ↦
            rw
              (
                over,
                flat_packs-append (packs_of current)
                    (pack_from limit gap (g ∷ []) (fl.add (fl.of_int 0) (segment_duration g)) gs),
                flat-packs_of current,
                pack_from-flat gap (g ∷ []) (fl.add (fl.of_int 0) (segment_duration g)) gs,
              )
              refl
        | inr room ↦
            rw (room, pack_from-flat gap (current ++ g ∷ []) (fl.add spent added) gs)
              (append_assoc current (g ∷ []) gs)
      ]

  -- `iter_packed_segments` keeps every frame of the segments, in order; a segment of a pack is not
  -- longer than the limit, unless it is a single frame; and a pack of two segments or more is not
  -- longer than the limit, the gaps between its segments included.
  pub packing_keeps :
      (gap_ms : ℕ) (gs : List (SpeechSegment F))
      → (flat (flat_packs (iter_packed_segments limit gap_ms gs)) ≡ flat gs)
        × All Fits (flat_packs (iter_packed_segments limit gap_ms gs))
        × All (IsPack limit (fl.quot gap_ms 1000)) (iter_packed_segments limit gap_ms gs)
  unfolding iter_packed_segments
  packing_keeps gap_ms gs =
      let gap = fl.quot gap_ms 1000 in
      let same = pack_from-flat gap [] (fl.of_int 0) (pieces limit gs) in
      (
        ap flat same ∙ pieces-flat gs,
        rw same (pieces-Fits gs),
        pack_from-IsPack limit gap [] (fl.of_int 0) (pieces limit gs) refl,
      )
