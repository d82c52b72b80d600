-- ===== src/Correction/Service/Places.antt =====
-- The raw segment that app/correction/service.py finds for a match.
use mathlib.Core.Path.{subst}
use onramp_stt_api.Base.{
  suc, ◌≤◌, sym, ◌∙◌, length, ltb, splitlines_keepends, ℕ, ◌≡◌, ◌⊎◌, inl, inr, refl, Option, none,
  some, List, [], ◌∷◌, All, get_elem?, Text, Bool-cases, arith,
}
use onramp_stt_api.Merger.{RawSegment}
use onramp_stt_api.Correction.Lines.{
  line_ranges, segment_index_for_range, HasPosition, position_in_line,
}
use onramp_stt_api.Correction.Rules.{Match}
use onramp_stt_api.Correction.Audit.{placed, segment_at}

-- A position within the text is in the line that is found for it.
in_line :
    (raw : Text) (position i : ℕ)
    → segment_index_for_range position (line_ranges raw) ≡ some i
    → (length raw ≤ position) ⊎ HasPosition 0 position (splitlines_keepends raw) i
in_line raw position i found = elim (Bool-cases (ltb position (length raw))) [
  | inr past ↦ inl (ground arith)
  | inl inside ↦
      let (j, there, _, has) = position_in_line raw position (ground arith) in
      let same : some j ≡ some i = sym there ∙ found in
      let e : j ≡ i = cc in inr (subst (HasPosition 0 position (splitlines_keepends raw)) e has)
]

module _ {F : Type 0} where
  -- The segment at this index is that of the line which has the position in it: the line that the
  -- search finds, and, for a position within the text, the one that begins at or before it and ends
  -- after it.
  abbrev pub OnSegment : Text → List (RawSegment F) → ℕ → ℕ → RawSegment F → Type 0
  OnSegment raw gs position i g =
      get_elem? gs i ≡ some g
      × segment_index_for_range position (line_ranges raw) ≡ some i
      × ((length raw ≤ position) ⊎ HasPosition 0 position (splitlines_keepends raw) i)

  abbrev pub IsPlace : Text → List (RawSegment F) → ℕ → Option (ℕ × RawSegment F) → Type 0
  IsPlace raw gs position none = Unit
  IsPlace raw gs position (some (i, g)) = OnSegment raw gs position i g

  placed-IsPlace :
      (raw : Text) (gs : List (RawSegment F)) (position i : ℕ) (o : Option (RawSegment F))
      → segment_index_for_range position (line_ranges raw) ≡ some i
      → get_elem? gs i ≡ o
      → IsPlace raw gs position (placed i o)
  placed-IsPlace raw gs position i none found h = tt
  placed-IsPlace raw gs position i (some g) found h = (h, found, in_line raw position i found)

  pub segment_at-IsPlace :
      (raw : Text) (gs : List (RawSegment F)) (position : ℕ) (o : Option ℕ)
      → segment_index_for_range position (line_ranges raw) ≡ o
      → IsPlace raw gs position (segment_at gs o)
  unfolding segment_at
  segment_at-IsPlace raw gs position none found = tt
  segment_at-IsPlace raw gs position (some i) found =
      placed-IsPlace raw gs position i (get_elem? gs i) found refl

  -- What holds of one of the matches.
  abbrev pub OfOne : List (Match F) → (Match F → Type 0) → Type 0
  OfOne ms P = (k : ℕ) × (m : Match F) × (get_elem? ms k ≡ some m) × P m

  pub all-OfOne :
      {A : Type 0} (P : A → Match F → Type 0) (m : Match F) (ms : List (Match F)) (xs : List A)
      → All (λ x. OfOne ms (P x)) xs
      → All (λ x. OfOne (m ∷ ms) (P x)) xs
  all-OfOne P m ms [] a = tt
  all-OfOne P m ms (x ∷ xs) ((k, n, at, p), a) = ((suc k, n, at, p), all-OfOne P m ms xs a)
