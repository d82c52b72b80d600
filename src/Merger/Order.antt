-- ===== src/Merger/Order.antt =====
-- The order of the merged transcript of app/stt/merger.py.
use onramp_stt_api.Base.{
  ◌≡◌, refl, Bool, true, false, not, ◌&&◌, List, [], ◌∷◌, Unicode, if◌then◌else◌, All, Bool-cases,
  inl, inr, arith,
}
use onramp_stt_api.Float.{Float, flt}
use onramp_stt_api.Db.{SourceMapping, Segment}
use onramp_stt_api.Merger.{
  RawSegment, is_exact_duplicate, prefer_segment, candidate, push_segment, is_blank, merge_segments,
  merge_chunks, key_lt, insert_segment, sort_segments, in_order, merge_chunk_segments,
  map_chunk_time, or_default,
}

either : {A : Type 0} (P : A → Type 0) (b : Bool) (x y : A) → P x → P y → P (if b then x else y)
either P true x y p q = p
either P false x y p q = q

module _ {F : Type 0} ⦃fl : Float F⦄ where
  -- No segment has a smaller key than the one before it.
  abbrev follows : Segment F → List (Segment F) → Bool
  follows x [] = true
  follows x (y ∷ ys) = not (key_lt y x)

  abbrev pub is_sorted : List (Segment F) → Bool
  is_sorted [] = true
  is_sorted (x ∷ xs) = let rest = is_sorted xs in follows x xs && rest

  -- It ends no earlier than it starts.
  abbrev pub Forward : Segment F → Type 0
  Forward g = fl.le g.start_time_sec g.end_time_sec ≡ true

  at_least_start : (start end : F) → fl.le start (if flt end start then start else end) ≡ true
  at_least_start start end = ground (arith, fl.le_refl start, fl.le_total start end)

  key_lt_asym : (x y : Segment F) → key_lt y x ≡ true → key_lt x y ≡ false
  unfolding key_lt
  key_lt_asym x y h = ground (
    arith,
    fl.le_total x.start_time_sec y.start_time_sec,
    fl.le_total x.end_time_sec y.end_time_sec,
  )

  follows-insert :
      (x y : Segment F) (ys : List (Segment F))
      → key_lt x y ≡ false
      → follows y ys ≡ true
      → follows y (insert_segment x ys) ≡ true
  unfolding insert_segment
  follows-insert x y [] h f = ground arith
  follows-insert x y (z ∷ zs) h f = ground arith

  insert-sorted :
      (x : Segment F) (ys : List (Segment F))
      → is_sorted ys ≡ true
      → is_sorted (insert_segment x ys) ≡ true
  unfolding insert_segment
  insert-sorted x [] h = refl
  insert-sorted x (y ∷ ys) h = elim (Bool-cases (key_lt y x)) [
    | inl after ↦
        let f = follows-insert x y ys (key_lt_asym x y after) in
        let r = insert-sorted x ys in rw after (ground arith)
    | inr here ↦ rw here (ground arith)
  ]

  sort-sorted : (xs : List (Segment F)) → is_sorted (sort_segments xs) ≡ true
  unfolding sort_segments
  sort-sorted [] = refl
  sort-sorted (x ∷ xs) = insert-sorted x (sort_segments xs) (sort-sorted xs)

  insert-Forward :
      (x : Segment F) (ys : List (Segment F))
      → Forward x
      → All Forward ys
      → All Forward (insert_segment x ys)
  unfolding insert_segment
  insert-Forward x [] p a = (p, tt)
  insert-Forward x (y ∷ ys) p (q, a) = elim (Bool-cases (key_lt y x)) [
    | inl after ↦ rw after (q, insert-Forward x ys p a)
    | inr here ↦ rw here (p, (q, a))
  ]

  sort-Forward : (xs : List (Segment F)) → All Forward xs → All Forward (sort_segments xs)
  unfolding sort_segments
  sort-Forward [] a = tt
  sort-Forward (x ∷ xs) (p, a) = insert-Forward x (sort_segments xs) p (sort-Forward xs a)

  in_order-Forward :
      (xs acc : List (Segment F)) → All Forward xs → All Forward acc → All Forward (in_order xs acc)
  in_order-Forward [] acc a b = b
  in_order-Forward (x ∷ xs) acc (p, a) b = in_order-Forward xs (x ∷ acc) a (p, b)

module _ {F : Type 0} ⦃fl : Float F⦄ ⦃u : Unicode⦄ where
  candidate-Forward : (ms : List (SourceMapping F)) (g : RawSegment F) → Forward (candidate ms g)
  unfolding candidate
  candidate-Forward ms g =
      at_least_start (map_chunk_time (or_default g.start_time_sec (fl.of_int 0)) ms)
        (map_chunk_time (or_default g.end_time_sec (fl.of_int 0)) ms)

  prefer-Forward : (l c : Segment F) → Forward l → Forward c → Forward (prefer_segment l c)
  unfolding prefer_segment
  prefer-Forward l c p q = either Forward _ c _ q (either Forward _ l c p q)

  push-Forward :
      (c : Segment F) (xs : List (Segment F))
      → Forward c
      → All Forward xs
      → All Forward (push_segment c xs)
  unfolding push_segment prefer_segment
  push-Forward c [] p a = (p, tt)
  push-Forward c (x ∷ xs) p (q, a) =
      either (All (Forward {F = F})) (is_exact_duplicate x c) (prefer_segment x c ∷ xs) (c ∷ x ∷ xs)
        (prefer-Forward x c q p, a) (p, (q, a))

  merge_segments-Forward :
      (ms : List (SourceMapping F)) (gs : List (RawSegment F)) (merged : List (Segment F))
      → All Forward merged
      → All Forward (merge_segments ms gs merged)
  unfolding merge_segments
  merge_segments-Forward ms [] merged a = a
  merge_segments-Forward ms (g ∷ gs) merged a = elim (Bool-cases (is_blank g)) [
    | inl blank ↦ rw blank (merge_segments-Forward ms gs merged a)
    | inr spoken ↦ rw spoken (
        merge_segments-Forward ms gs (push_segment (candidate ms g) merged)
          (push-Forward (candidate ms g) merged (candidate-Forward ms g) a))
  ]

  merge_chunks-Forward :
      (cs : List (List (SourceMapping F) × List (RawSegment F))) (merged : List (Segment F))
      → All Forward merged
      → All Forward (merge_chunks cs merged)
  unfolding merge_chunks
  merge_chunks-Forward [] merged a = a
  merge_chunks-Forward ((ms, gs) ∷ cs) merged a =
      merge_chunks-Forward cs (merge_segments ms gs merged) (merge_segments-Forward ms gs merged a)

  -- The merged transcript is sorted by start and end, whatever the chunks hold, and every segment
  -- of it ends no earlier than it starts.
  pub merged_in_order :
      (cs : List (List (SourceMapping F) × List (RawSegment F)))
      → (is_sorted (merge_chunk_segments cs) ≡ true) × All Forward (merge_chunk_segments cs)
  unfolding merge_chunk_segments
  merged_in_order cs =
      let merged = merge_chunks cs [] in
      (
        sort-sorted (in_order merged []),
        sort-Forward (in_order merged [])
            (in_order-Forward merged [] (merge_chunks-Forward cs [] tt) tt),
      )
