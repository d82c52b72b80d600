-- ===== src/Correction/Ingestion/Total.antt =====
-- app/correction/terms/term_ingestion.py: when a call returns.
use onramp_stt_api.Base.{
  ℕ, zero, suc, ◌+◌, ◌≤◌, ◌<◌, ◌≡◌, inl, inr, refl, ap, ◌∙◌, zero_padded, true, false, ◌&&◌, Option,
  none, some, List, [], ◌∷◌, map, All, length, drop, ltb, Text, codes, ◌++◌, Unicode, is_prefix,
  Digits, isdigit, int, read_from-ascii, if◌then◌else◌, Bool-cases, arith,
}
use onramp_stt_api.Float.{Float}
use onramp_stt_api.Correction.Ingestion.{
  TermRow, TermsPayload, TermInput, Report, load_terms_payload, find_existing_term, upsert_into,
  upsert_term, add_row, TermsFile,
}
use onramp_stt_api.Correction.Ids.{tail_value, max_value, next_after, next_term_id, prefix_of}

-- An id that `int` reads to its end: of ASCII, and not longer than the digits that Python takes.
abbrev pub IsPlain : Text → Type 0
IsPlain id = All (λ c. c < 128) id × length id ≤ 4300

drop-IsPlain : (n : ℕ) (id : Text) → IsPlain id → IsPlain (drop n id)
drop-IsPlain zero id h = h
drop-IsPlain (suc n) [] h = h
drop-IsPlain (suc n) (c ∷ id) ((low, a), short) = drop-IsPlain n id (a, omega arith)

module _ ⦃g : Digits⦄ where
  int-IsPlain : (s : Text) → IsPlain s → isdigit s ≡ true → (v : ℕ) × int s ≡ some v
  unfolding int isdigit
  int-IsPlain s (a, short) h =
      let (v, e) = read_from-ascii 0 s a (ground arith) in
      let fits : ltb 4300 (length s) ≡ false = ground arith in (v, rw (fits, e) refl)

  tail_value-IsPlain : (prefix id : Text) → IsPlain id → (v : ℕ) × tail_value prefix id ≡ some v
  unfolding tail_value
  tail_value-IsPlain prefix id h =
      let tail = drop (length prefix + 1) id in
      elim (Bool-cases (is_prefix (prefix ++ codes "_") id && isdigit tail)) [
        | inr other ↦ (0, rw other refl)
        | inl mine ↦
            let (v, e) = int-IsPlain tail (drop-IsPlain (length prefix + 1) id h) (ground arith) in
            (v, rw mine e)
      ]

  max_value-IsPlain :
      (prefix : Text) (ids : List Text) → All IsPlain ids → (m : ℕ) × max_value prefix ids ≡ some m
  unfolding max_value
  max_value-IsPlain prefix [] a = (0, refl)
  max_value-IsPlain prefix (id ∷ ids) (h, a) =
      let (v, one) = tail_value-IsPlain prefix id h in
      let (m, rest) = max_value-IsPlain prefix ids a in
      ((if ltb v m then m else v), rw (one, rest) refl)

module _ {F : Type 0} ⦃fl : Float F⦄ ⦃u : Unicode⦄ ⦃g : Digits⦄ where
  add_row-returns :
      (today : Text) (p : TermsPayload F) (i : TermInput F) (id : Text)
      → (q : TermsPayload F × Report) × add_row today p i (some id) ≡ some q
  add_row-returns today p i id = (_, refl)

  upsert_into-returns :
      (today : Text) (p : TermsPayload F) (i : TermInput F) (o : Option (TermRow F))
      → All IsPlain (map (λ r. r.term_id) p.terms)
      → (q : TermsPayload F × Report) × upsert_into today p i o ≡ some q
  unfolding upsert_into next_term_id
  upsert_into-returns today p i (some r) h = (_, refl)
  upsert_into-returns today p i none h =
      let (m, e) = max_value-IsPlain (prefix_of i.category) (map (λ r. r.term_id) p.terms) h in
      let next = ap (next_after (prefix_of i.category)) e in
      let (q, added) =
        add_row-returns today p i (prefix_of i.category ++ codes "_" ++ zero_padded 3 (m + 1)) in
      (q, ap (add_row today p i) next ∙ added)

  -- Where the file is absent or has terms, their ids are of ASCII and not longer than 4300 characters,
  -- and the file can be written, `upsert_term` returns.
  pub upsert_returns :
      (today : Text) (file : TermsFile F) (i : TermInput F) (p : TermsPayload F)
      → load_terms_payload today file ≡ some p
      → All IsPlain (map (λ r. r.term_id) p.terms)
      → (q : TermsPayload F × Report) × upsert_term today true file i ≡ some q
  unfolding upsert_term
  upsert_returns today file i p read h =
      let (q, e) = upsert_into-returns today p i (find_existing_term i p.terms) h in (q, rw read e)
