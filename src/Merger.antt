-- ===== src/Merger.antt =====
-- app/stt/merger.py: the segments of all chunks on the time line of the source.
pub mod Order
pub mod Times
use mathlib.Core.Option
use onramp_stt_api.Base.{
  ℕ, suc, ◌≡◌, refl, Bool, true, false, not, ◌&&◌, ◌||◌, Option, none, some, List, [], ◌∷◌, ◌++◌,
  map, Text, codes, eq_text, Unicode, strip, join, ltb, leb, length, select, ◌==◌, if◌then◌else◌,
  is_none,
}
use onramp_stt_api.Float.{Float, flt, fmin}
use onramp_stt_api.Db.{SourceMapping, Segment}

-- A segment as the dictionary that the chunk's JSON column holds: any key may be absent or null.
pub record RawSegment (F : Type 0) : Type 0 where
  pub text : Option Text
  pub start_time_sec : Option F
  pub end_time_sec : Option F
  pub speaker : Option Text
  pub confidence : Option F

-- `asdict` of a provider's segment
abbrev pub asdict : {F : Type 0} → Segment F → RawSegment F
asdict g = record {
  text = some g.text;
  start_time_sec = some g.start_time_sec;
  end_time_sec = some g.end_time_sec;
  speaker = g.speaker;
  confidence = g.confidence;
}

-- `value or default`, for a value whose falsy form equals the default
abbrev pub or_default : {A : Type 0} → Option A → A → A
or_default none d = d
or_default (some a) d = a

-- `_optional_string`
unfoldable pub optional_string : Option Text → Option Text
optional_string none = none
optional_string (some []) = none
optional_string (some (c ∷ s)) = some (c ∷ s)

module _ {F : Type 0} ⦃fl : Float F⦄ where
  -- `start <= value <= end`
  abbrev pub within : F → SourceMapping F → Bool
  within v m = fl.le m.chunk_start_sec v && fl.le v m.chunk_end_sec

  -- `min(source_start + (value - chunk_start), source_end)`
  abbrev pub mapped : F → SourceMapping F → F
  mapped v m = fmin (fl.add m.source_start_sec (fl.sub v m.chunk_start_sec)) m.source_end_sec

  -- A value in the gap before `m`, after `prev`: the nearer edge, the earlier one on a tie.
  abbrev pub nearer : F → SourceMapping F → SourceMapping F → F
  nearer v prev m =
      if fl.le (fl.sub v prev.chunk_end_sec) (fl.sub m.chunk_start_sec v)
      then prev.source_end_sec
      else m.source_start_sec

  -- The loop of `map_chunk_time` from the second mapping on; `prev` is the one before.
  unfoldable pub map_after : F → SourceMapping F → List (SourceMapping F) → Option F
  map_after v prev [] = none
  map_after v prev (m ∷ ms) =
      let rest = map_after v m ms in
      if within v m
      then some (mapped v m)
      else if flt v m.chunk_start_sec
      then some (nearer v prev m)
      else rest

  unfoldable pub last_end : SourceMapping F → List (SourceMapping F) → F
  last_end m [] = m.source_end_sec
  last_end m (n ∷ ms) = last_end n ms

  unfoldable pub map_chunk_time : F → List (SourceMapping F) → F
  unfolding map_after last_end
  map_chunk_time v [] = v
  map_chunk_time v (m ∷ ms) = if within v m then mapped v m else elim (map_after v m ms) [
    | some t ↦ t
    | none ↦ if flt v m.chunk_start_sec then m.source_start_sec else last_end m ms
  ]

-- `_normalize`: without `\W` and underscores, case folded
unfoldable pub normalize : ⦃u : Unicode⦄ → Text → Text
normalize ⦃u⦄ s = u.casefold (select u.is_word s)

module _ {F : Type 0} ⦃fl : Float F⦄ ⦃u : Unicode⦄ where
  unfoldable pub is_exact_duplicate : Segment F → Segment F → Bool
  unfolding normalize
  is_exact_duplicate left right =
      eq_text (normalize left.text) (normalize right.text)
      && fl.le right.start_time_sec (fl.add left.end_time_sec (fl.quot 1 2))

  -- `left.confidence is None or right.confidence > left.confidence`, of a known right confidence
  abbrev more_confident : Option F → Option F → Bool
  more_confident l none = false
  more_confident none (some r) = true
  more_confident (some l) (some r) = flt l r

  unfoldable pub prefer_segment : Segment F → Segment F → Segment F
  prefer_segment left right =
      if more_confident left.confidence right.confidence
      then right
      else if leb (length right.text) (length left.text)
      then left
      else right

  -- The candidate that the loop makes of a segment with a text.
  unfoldable pub candidate : List (SourceMapping F) → RawSegment F → Segment F
  unfolding map_chunk_time optional_string
  candidate ms g =
      let start = map_chunk_time (or_default g.start_time_sec (fl.of_int 0)) ms in
      let end = map_chunk_time (or_default g.end_time_sec (fl.of_int 0)) ms in
      record {
        start_time_sec = start;
        end_time_sec = if flt end start then start else end;
        text = strip (or_default g.text []);
        speaker = optional_string g.speaker;
        confidence = g.confidence;
      }

  -- `merged`, newest first: a duplicate of the last segment replaces it, or is dropped.
  unfoldable pub push_segment : Segment F → List (Segment F) → List (Segment F)
  push_segment c [] = c ∷ []
  push_segment c (l ∷ merged) =
      if is_exact_duplicate l c then prefer_segment l c ∷ merged else c ∷ l ∷ merged

  abbrev pub is_blank : RawSegment F → Bool
  is_blank g = length (strip (or_default g.text [])) == 0

  unfoldable pub merge_segments :
      List (SourceMapping F) → List (RawSegment F) → List (Segment F) → List (Segment F)
  merge_segments ms [] merged = merged
  merge_segments ms (g ∷ gs) merged =
      merge_segments ms gs (if is_blank g then merged else push_segment (candidate ms g) merged)

  unfoldable pub merge_chunks :
      List (List (SourceMapping F) × List (RawSegment F)) → List (Segment F) → List (Segment F)
  merge_chunks [] merged = merged
  merge_chunks ((ms, gs) ∷ cs) merged = merge_chunks cs (merge_segments ms gs merged)

module _ {F : Type 0} ⦃fl : Float F⦄ where
  -- `<` on the keys `(start_time_sec, end_time_sec)`
  unfoldable pub key_lt : Segment F → Segment F → Bool
  key_lt x y =
      if fl.le x.start_time_sec y.start_time_sec && fl.le y.start_time_sec x.start_time_sec
      then flt x.end_time_sec y.end_time_sec
      else flt x.start_time_sec y.start_time_sec

  -- `sorted(…, key=…)`, which is stable: an item goes in front of those that are not smaller.
  unfoldable pub insert_segment : Segment F → List (Segment F) → List (Segment F)
  insert_segment x [] = x ∷ []
  insert_segment x (y ∷ ys) = if key_lt y x then y ∷ insert_segment x ys else x ∷ y ∷ ys

  unfoldable pub sort_segments : List (Segment F) → List (Segment F)
  unfolding insert_segment
  sort_segments [] = []
  sort_segments (x ∷ xs) = insert_segment x (sort_segments xs)

module _ {F : Type 0} where
  abbrev pub in_order : List (Segment F) → List (Segment F) → List (Segment F)
  in_order [] acc = acc
  in_order (x ∷ xs) acc = in_order xs (x ∷ acc)

module _ {F : Type 0} ⦃fl : Float F⦄ ⦃u : Unicode⦄ where
  unfoldable pub merge_chunk_segments :
      List (List (SourceMapping F) × List (RawSegment F)) → List (Segment F)
  merge_chunk_segments cs = sort_segments (in_order (merge_chunks cs []) [])

  unfoldable pub render_plain_text : List (Segment F) → Text
  render_plain_text gs = join (codes "\n") (map (λ g. g.text) gs)
