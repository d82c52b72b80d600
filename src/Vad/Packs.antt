-- ===== src/Vad/Packs.antt =====
-- The packs of `iter_packed_segments` of app/stt/vad.py keep to the limit.
use onramp_stt_api.Base.{
  ◌≡◌, ◌⊎◌, inl, inr, refl, sym, ap, ◌∙◌, true, false, List, [], ◌∷◌, ◌++◌, All, Bool-cases, arith,
}
use onramp_stt_api.Float.{Float}
use onramp_stt_api.Vad.{SpeechSegment, segment_duration}
use onramp_stt_api.Vad.Pack.{overflows, added_duration, packs_of, pack_from}

pub All-append :
    {A : Type 0} (P : A → Type 0) (xs ys : List A) → All P xs → All P ys → All P (xs ++ ys)
All-append P [] ys a b = b
All-append P (x ∷ xs) ys (p, a) b = (p, All-append P xs ys a b)

module _ {F : Type 0} ⦃fl : Float F⦄ (limit gap : F) where
  -- The duration of a pack as the loop adds it up: of what is spent, and of each further segment
  -- with the gap before it.
  unfoldable pub laid : F → List (SpeechSegment F) → F
  laid spent [] = spent
  laid spent (g ∷ gs) = laid (fl.add spent (fl.add (segment_duration g) gap)) gs

  -- What the first segment of a pack counts for: after another pack, and in the first pack, where
  -- the loop adds a gap of 0.
  abbrev pub first_spent : SpeechSegment F → F
  first_spent g = fl.add (fl.of_int 0) (segment_duration g)

  abbrev pub very_first_spent : SpeechSegment F → F
  very_first_spent g = fl.add (fl.of_int 0) (fl.add (segment_duration g) (fl.of_int 0))

  -- A pack has a segment, and it has no other or is not longer than the limit, gaps included.
  abbrev pub IsPack : List (SpeechSegment F) → Type 0
  IsPack [] = false ≡ true
  IsPack (g ∷ gs) =
      (gs ≡ [])
      ⊎ ((fl.le (laid (first_spent g) gs) limit ≡ true)
          ⊎ (fl.le (laid (very_first_spent g) gs) limit ≡ true))

  -- The current pack and what it has spent.
  abbrev Packing : List (SpeechSegment F) → F → Type 0
  Packing [] spent = spent ≡ fl.of_int 0
  Packing (g ∷ gs) spent =
      ((spent ≡ laid (first_spent g) gs) ⊎ (spent ≡ laid (very_first_spent g) gs)) × IsPack (g ∷ gs)

  laid-append :
      (spent : F) (gs : List (SpeechSegment F)) (g : SpeechSegment F)
      → laid spent (gs ++ g ∷ []) ≡ fl.add (laid spent gs) (fl.add (segment_duration g) gap)
  unfolding laid
  laid-append spent [] g = refl
  laid-append spent (h ∷ gs) g = laid-append (fl.add spent (fl.add (segment_duration h) gap)) gs g

  done :
      (current : List (SpeechSegment F)) (spent : F)
      → Packing current spent
      → All IsPack (packs_of current)
  done [] spent p = tt
  done (g ∷ gs) spent p = (p.1, tt)

  grown :
      (current : List (SpeechSegment F)) (spent : F) (g : SpeechSegment F)
      → Packing current spent
      → overflows limit current spent (added_duration gap current g) ≡ false
      → Packing (current ++ g ∷ []) (fl.add spent (added_duration gap current g))
  unfolding laid
  grown [] spent g e room =
      (inr (ap (λ x. fl.add x (fl.add (segment_duration g) (fl.of_int 0))) e), inl refl)
  grown (c ∷ cs) spent g (inl e, p) room =
      let k = rw e at room in
      let total = laid-append (first_spent c) cs g in
      (
        inl (ap (λ x. fl.add x (fl.add (segment_duration g) gap)) e ∙ sym total),
        inr (inl (rw total (ground arith))),
      )
  grown (c ∷ cs) spent g (inr e, p) room =
      let k = rw e at room in
      let total = laid-append (very_first_spent c) cs g in
      (
        inr (ap (λ x. fl.add x (fl.add (segment_duration g) gap)) e ∙ sym total),
        inr (inr (rw total (ground arith))),
      )

  -- Every pack keeps to the limit.
  pub pack_from-IsPack :
      (current : List (SpeechSegment F)) (spent : F) (gs : List (SpeechSegment F))
      → Packing current spent
      → All IsPack (pack_from limit gap current spent gs)
  unfolding pack_from laid
  pack_from-IsPack current spent [] p = done current spent p
  pack_from-IsPack current spent (g ∷ gs) p =
      let added = added_duration gap current g in
      elim (Bool-cases (overflows limit current spent added)) [
        | inl over ↦ rw over (
            All-append IsPack (packs_of current) (pack_from limit gap (g ∷ []) (first_spent g) gs)
              (done current spent p)
              (pack_from-IsPack (g ∷ []) (first_spent g) gs (inl refl, inl refl)))
        | inr room ↦ rw room (
            pack_from-IsPack (current ++ g ∷ []) (fl.add spent added) gs
              (grown current spent g p room))
      ]
