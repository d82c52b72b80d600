-- ===== src/Correction/Rules/Rewrite.antt =====
-- What `correct` of app/correction/rule_based_corrector.py makes of a text: a rewriting of the
-- selected matches.
use mathlib.Core.Path.{subst}
use onramp_stt_api.Base.{
  ℕ, ◌≡◌, ◌⊎◌, refl, inl, inr, true, false, ◌||◌, eq_text_refl, List, [], ◌∷◌, ◌++◌, map, Text,
  Unicode, All, select, drop, eq_text, eq_text_sound, text_lt, slice, slice-drop, contains,
  contains-middle, contains-append_right, Bool-cases, arith,
}
use onramp_stt_api.Correction.{TermDictionary, elem, insert_text, sorted_set}
use onramp_stt_api.Correction.Rules.{
  Match, is_replaced, output, render_from, collect_matches, protected_terms, correct,
}
use onramp_stt_api.Correction.Rules.Select.{IsCut, Apart, collect_matches-Apart}

-- The second text is the first with the original of each match, in order, replaced by its output;
-- everything else stands as it was.
pub data Rewrites {F : Type 0} ⦃u : Unicode⦄ : Text → Text → List (Match F) → Type 0 where
  same : {s : Text} → Rewrites s s []
  next :
      (gap : Text) (m : Match F) {s t : Text} {ms : List (Match F)}
      → Rewrites s t ms
      → Rewrites (gap ++ (m.original ++ s)) (gap ++ (output m ++ t)) (m ∷ ms)

module _ {F : Type 0} ⦃u : Unicode⦄ (text : Text) where
  render_from-Rewrites :
      (cursor : ℕ) (ms : List (Match F))
      → All (IsCut text) ms
      → Apart cursor ms
      → Rewrites (drop cursor text) (render_from text cursor ms) ms
  unfolding render_from
  render_from-Rewrites cursor [] a p = Rewrites.same
  render_from-Rewrites cursor (m ∷ ms) ((le, within, orig), a) (after, _, p) =
      let rest : slice m.start m.end text ++ drop m.end text ≡ drop m.start text =
        slice-drop m.start m.end text le in
      let whole : slice cursor m.start text ++ (m.original ++ drop m.end text) ≡ drop cursor text =
        rw (orig, rest) (slice-drop cursor m.start text after) in
      subst
        (λ s.
          Rewrites s (slice cursor m.start text ++ (output m ++ render_from text m.end ms))
            (m ∷ ms))
        whole (Rewrites.next (slice cursor m.start text) m (render_from-Rewrites m.end ms a p))

  -- `correct` returns the text with the originals of the logged matches, and nothing else, replaced:
  -- by the canonical form where the action is `replaced`, and by themselves where it is not. The
  -- logged matches lie in the text, in order, and do not overlap.
  pub correct-Rewrites :
      (d : TermDictionary F)
      → Rewrites text (correct d text).corrected_text (correct d text).correction_logs
        × All (IsCut text) (correct d text).correction_logs
        × Apart 0 (correct d text).correction_logs
  unfolding correct
  correct-Rewrites d =
      let (cut, apart) = collect_matches-Apart text d in
      (render_from-Rewrites 0 (collect_matches d text) cut apart, cut, apart)

elem-insert_text :
    (t s : Text) (ts : List Text)
    → elem t (insert_text s ts) ≡ true
    → (eq_text s t || elem t ts) ≡ true
unfolding insert_text
elem-insert_text t s [] h = h
elem-insert_text t s (u ∷ ts) h = elim (Bool-cases (eq_text s u)) [
  | inl twice ↦ let k = rw twice at h in ground arith
  | inr other ↦ elim (Bool-cases (text_lt s u)) [
    | inl before ↦ let k = rw (other, before) at h in k
    | inr after ↦ let k = rw (other, after) at h in ground (arith, elem-insert_text t s ts)
  ]
]

elem-sorted_set : (t : Text) (ts : List Text) → elem t (sorted_set ts) ≡ true → elem t ts ≡ true
unfolding sorted_set
elem-sorted_set t [] h = h
elem-sorted_set t (s ∷ ts) h =
    ground (arith, elem-insert_text t s (sorted_set ts) h, elem-sorted_set t ts)

elem-insert_text_here :
    (t s : Text) (ts : List Text) → eq_text s t ≡ true → elem t (insert_text s ts) ≡ true
unfolding insert_text
elem-insert_text_here t s [] h = ground arith
elem-insert_text_here t s (u ∷ ts) h = elim (Bool-cases (eq_text s u)) [
  | inl twice ↦ rw (twice, ← eq_text_sound s u twice) (ground arith)
  | inr other ↦ elim (Bool-cases (text_lt s u)) [
    | inl before ↦ rw (other, before) (ground arith)
    | inr after ↦ rw (other, after) (ground (arith, elem-insert_text_here t s ts h))
  ]
]

elem-insert_text_there :
    (t s : Text) (ts : List Text) → elem t ts ≡ true → elem t (insert_text s ts) ≡ true
unfolding insert_text
elem-insert_text_there t s [] h = cc
elem-insert_text_there t s (u ∷ ts) h = elim (Bool-cases (eq_text s u)) [
  | inl twice ↦ rw twice h
  | inr other ↦ elim (Bool-cases (text_lt s u)) [
    | inl before ↦ rw (other, before) (ground arith)
    | inr after ↦ rw (other, after) (ground (arith, elem-insert_text_there t s ts))
  ]
]

elem-sorted_set_in : (t : Text) (ts : List Text) → elem t ts ≡ true → elem t (sorted_set ts) ≡ true
unfolding sorted_set
elem-sorted_set_in t [] h = h
elem-sorted_set_in t (s ∷ ts) h = elim (Bool-cases (eq_text s t)) [
  | inl here ↦ elem-insert_text_here t s (sorted_set ts) here
  | inr there ↦ elem-insert_text_there t s (sorted_set ts) (elem-sorted_set_in t ts (rw there at h))
]

module _ {F : Type 0} where
  -- The canonical form of a match is in the list, if the match is a replacement.
  abbrev pub ReplacedIn : List Text → Match F → Type 0
  ReplacedIn ts m = (is_replaced m.action ≡ false) ⊎ (elem m.term.canonical ts ≡ true)

module _ {F : Type 0} ⦃u : Unicode⦄ where
  abbrev replacements : List (Match F) → List Text
  replacements ms = map (λ m. m.term.canonical) (select (λ m. is_replaced m.action) ms)

  Rewrites-contains :
      (s out : Text) (ms : List (Match F)) (t : Text)
      → Rewrites s out ms
      → elem t (replacements ms) ≡ true
      → contains out t ≡ true
  Rewrites-contains _ _ _ t Rewrites.same h = cc
  Rewrites-contains _ _ _ t (Rewrites.next gap m {s} {t = o} {ms} r) h =
      elim (Bool-cases (is_replaced m.action)) [
        | inr kept ↦
            contains-append_right gap (output m ++ o) t
              (contains-append_right (output m) o t (Rewrites-contains s o ms t r (rw kept at h)))
        | inl swapped ↦ elim (Bool-cases (eq_text m.term.canonical t)) [
          | inl here ↦
              let e = eq_text_sound m.term.canonical t here in
              rw (swapped, e) (contains-middle gap t o)
          | inr there ↦
              let k = rw (swapped, there) at h in
              contains-append_right gap (output m ++ o) t
                (contains-append_right (output m) o t (Rewrites-contains s o ms t r k))
        ]
      ]

  -- Every protected term stands in the corrected text.
  pub protected_stand :
      (d : TermDictionary F) (text t : Text)
      → elem t (correct d text).protected ≡ true
      → contains (correct d text).corrected_text t ≡ true
  unfolding correct protected_terms
  protected_stand d text t h =
      let ms = collect_matches d text in
      Rewrites-contains text (render_from text 0 ms) ms t (correct-Rewrites text d).0
        (elem-sorted_set t (replacements ms) h)

  ReplacedIn-grows :
      (t : Text) (ts : List Text) (m : Match F) → ReplacedIn ts m → ReplacedIn (t ∷ ts) m
  ReplacedIn-grows t ts m (inl kept) = inl kept
  ReplacedIn-grows t ts m (inr here) = inr (ground arith)

  all-grow :
      (t : Text) (ts : List Text) (ms : List (Match F))
      → All (ReplacedIn ts) ms
      → All (ReplacedIn (t ∷ ts)) ms
  all-grow t ts [] a = tt
  all-grow t ts (m ∷ ms) (p, a) = (ReplacedIn-grows t ts m p, all-grow t ts ms a)

  replacements-ReplacedIn : (ms : List (Match F)) → All (ReplacedIn (replacements ms)) ms
  replacements-ReplacedIn [] = tt
  replacements-ReplacedIn (m ∷ ms) = elim (Bool-cases (is_replaced m.action)) [
    | inr kept ↦
        let same : replacements ms ≡ replacements (m ∷ ms) = rw kept refl in
        subst (λ ts. All (ReplacedIn ts) (m ∷ ms)) same (inl kept, replacements-ReplacedIn ms)
    | inl swapped ↦
        let same : m.term.canonical ∷ replacements ms ≡ replacements (m ∷ ms) = rw swapped refl in
        subst (λ ts. All (ReplacedIn ts) (m ∷ ms)) same
          (
            inr (rw (eq_text_refl m.term.canonical) refl),
            all-grow m.term.canonical (replacements ms) ms (replacements-ReplacedIn ms),
          )
  ]

  in_set :
      (ts : List Text) (ms : List (Match F))
      → All (ReplacedIn ts) ms
      → All (ReplacedIn (sorted_set ts)) ms
  in_set ts [] a = tt
  in_set ts (m ∷ ms) (inl kept, a) = (inl kept, in_set ts ms a)
  in_set ts (m ∷ ms) (inr here, a) =
      (inr (elem-sorted_set_in m.term.canonical ts here), in_set ts ms a)

  -- Every canonical form that the rules put into a text is protected.
  pub replaced_protected :
      (d : TermDictionary F) (text : Text)
      → All (ReplacedIn (correct d text).protected) (correct d text).correction_logs
  unfolding correct protected_terms
  replaced_protected d text =
      let ms = collect_matches d text in in_set (replacements ms) ms (replacements-ReplacedIn ms)
