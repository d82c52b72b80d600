-- ===== src/Correction/Rules/Select.antt =====
-- The matches that app/correction/rule_based_corrector.py selects: each stands in the text, and they
-- do not overlap.
use onramp_stt_api.Base.{
  ℕ, zero, suc, ◌+◌, ◌-◌, ◌≤◌, ◌<◌, ◌≡◌, refl, ap, ◌∙◌, Bool, true, Option, none, some, List, [],
  ◌∷◌, ◌++◌, Text, Unicode, All, any, length, drop, drop-drop, ltb, slice, Bool-cases, inl, inr,
  arith,
}
use onramp_stt_api.Correction.{DomainTerm, TermDictionary}
use onramp_stt_api.Correction.Rules.{
  Match, same_place, add_matches, find_all, build_patterns, comes_before, insert_match,
  sort_matches, select_from, collect_matches,
}
use onramp_stt_api.Correction.Patterns.{Pattern, compile_phrase_pattern, phrase_at, hits, find_from}

length-drop : {A : Type 0} (n : ℕ) (xs : List A) → length (drop n xs) ≡ length xs - n
length-drop zero xs = omega arith
length-drop (suc n) [] = omega arith
length-drop (suc n) (x ∷ xs) = omega (arith, length-drop n xs)

module _ ⦃u : Unicode⦄ where
  phrase_at-length : (alone : Bool) (p s : Text) → phrase_at alone p s ≡ true → length p ≤ length s
  unfolding phrase_at
  phrase_at-length alone [] s h = omega arith
  phrase_at-length alone (c ∷ p) [] h = cc
  phrase_at-length alone (c ∷ p) (d ∷ s) h = ground (arith, phrase_at-length alone p s)

  -- A place in the text where the phrase stands.
  abbrev Stands : Text → Pattern → ℕ → Type 0
  Stands text p k = k < length text × (phrase_at p.alone p.phrase (drop k text) ≡ true)

  next_drop : (text s : Text) (c i : ℕ) → (c ∷ s) ≡ drop i text → s ≡ drop (i + 1) text
  next_drop text s c i h = ap (drop 1) h ∙ drop-drop 1 i text

  inside_text : (text s : Text) (c i : ℕ) → (c ∷ s) ≡ drop i text → i < length text
  inside_text text s c i h = omega (arith, length-drop i text, ap length h)

  find_from-Stands :
      (text : Text) (p : Pattern) (skip : ℕ) (before : Option ℕ) (i : ℕ) (s : Text)
      → s ≡ drop i text
      → All (Stands text p) (find_from p skip before i s)
  unfolding find_from hits
  find_from-Stands text p skip before i [] e = tt
  find_from-Stands text p (suc skip) before i (c ∷ s) e =
      find_from-Stands text p skip (some c) (i + 1) s (next_drop text s c i e)
  find_from-Stands text p zero before i (c ∷ s) e = elim (Bool-cases (hits p before (c ∷ s))) [
    | inl hit ↦
        let here : phrase_at p.alone p.phrase (c ∷ s) ≡ true = ground arith in
        rw hit (
          (inside_text text s c i e, rw e at here),
          find_from-Stands text p (length p.phrase - 1) (some c) (i + 1) s (next_drop text s c i e),
        )
    | inr miss ↦ rw miss (find_from-Stands text p zero (some c) (i + 1) s (next_drop text s c i e))
  ]

module _ {F : Type 0} where
  -- A match names a stretch of the text, and its original is what stands there.
  abbrev pub IsCut : Text → Match F → Type 0
  IsCut text m = m.start ≤ m.end × m.end ≤ length text × (m.original ≡ slice m.start m.end text)

  -- The matches follow one another from the cursor on, and do not overlap.
  abbrev pub Apart : ℕ → List (Match F) → Type 0
  Apart cursor [] = Unit
  Apart cursor (m ∷ ms) = cursor ≤ m.start × m.start ≤ m.end × Apart m.end ms

  All-append :
      (P : Match F → Type 0) (xs ys : List (Match F)) → All P xs → All P ys → All P (xs ++ ys)
  All-append P [] ys a b = b
  All-append P (x ∷ xs) ys (p, a) b = (p, All-append P xs ys a b)

module _ {F : Type 0} ⦃u : Unicode⦄ (text : Text) where
  add_matches-IsCut :
      (alone : Bool) (phrase : Text) (term : DomainTerm F) (starts : List ℕ)
      (found : List (Match F))
      → All (Stands text (record { phrase = phrase; alone = alone })) starts
      → All (IsCut text) found
      → All (IsCut text) (add_matches text phrase term starts found)
  unfolding add_matches
  add_matches-IsCut alone phrase term [] found st a = a
  add_matches-IsCut alone phrase term (k ∷ ks) found ((near, stands), st) a =
      elim (Bool-cases (any (same_place k (k + length phrase) term) found)) [
        | inl seen ↦ rw seen (add_matches-IsCut alone phrase term ks found st a)
        | inr new ↦
            let fits = phrase_at-length alone phrase (drop k text) stands in
            rw new (
              add_matches-IsCut alone phrase term ks _ st (
                All-append (IsCut text) found _ a
                  ((omega arith, omega (arith, length-drop k text), refl), tt)))
      ]

  find_all-IsCut :
      (ps : List (Text × DomainTerm F)) (found : List (Match F))
      → All (IsCut text) found
      → All (IsCut text) (find_all text ps found)
  unfolding find_all compile_phrase_pattern
  find_all-IsCut [] found a = a
  find_all-IsCut ((phrase, term) ∷ ps) found a =
      let p = compile_phrase_pattern phrase in
      find_all-IsCut ps _ (
        add_matches-IsCut p.alone phrase term (find_from p 0 none 0 text) found
          (find_from-Stands text p 0 none 0 text refl) a)

  insert-All :
      (P : Match F → Type 0) (m : Match F) (ms : List (Match F))
      → P m
      → All P ms
      → All P (insert_match m ms)
  unfolding insert_match
  insert-All P m [] p a = (p, tt)
  insert-All P m (n ∷ ms) p (q, a) = elim (Bool-cases (comes_before n m)) [
    | inl later ↦ rw later (q, insert-All P m ms p a)
    | inr here ↦ rw here (p, (q, a))
  ]

  sort-All : (P : Match F → Type 0) (ms : List (Match F)) → All P ms → All P (sort_matches ms)
  unfolding sort_matches
  sort-All P [] a = tt
  sort-All P (m ∷ ms) (p, a) = insert-All P m (sort_matches ms) p (sort-All P ms a)

  select-IsCut :
      (cursor : ℕ) (ms : List (Match F))
      → All (IsCut text) ms
      → All (IsCut text) (select_from cursor ms) × Apart cursor (select_from cursor ms)
  unfolding select_from
  select-IsCut cursor [] a = (tt, tt)
  select-IsCut cursor (m ∷ ms) (c, a) = elim (Bool-cases (ltb m.start cursor)) [
    | inl over ↦ rw over (select-IsCut cursor ms a)
    | inr free ↦
        let (cut, apart) = select-IsCut m.end ms a in rw free ((c, cut), (ground arith, c.0, apart))
  ]

  -- Every selected match names a stretch of the text with what stands there, and no two overlap.
  pub collect_matches-Apart :
      (d : TermDictionary F)
      → All (IsCut text) (collect_matches d text) × Apart 0 (collect_matches d text)
  unfolding collect_matches
  collect_matches-Apart d = select-IsCut 0 _ (
      sort-All (IsCut text) (find_all text (build_patterns d) [])
        (find_all-IsCut (build_patterns d) [] tt))
