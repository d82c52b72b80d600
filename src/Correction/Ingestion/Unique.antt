-- ===== src/Correction/Ingestion/Unique.antt =====
-- The ids of the dictionary that app/correction/terms/term_ingestion.py keeps are unique.
use onramp_stt_api.Base.{
  ℕ, ◌+◌, ◌≤◌, ◌≡◌, inl, inr, refl, sym, ◌∙◌, Bool, true, false, Option, none, some, Option-cases,
  List, [], ◌∷◌, ◌++◌, map, length, length-append, drop, ltb, Text, codes, eq_text, eq_text_sound,
  Unicode, is_prefix, zero_padded, Digits, isdigit, int, read_from-zero_padded, isdigit-zero_padded,
  if◌then◌else◌, Bool-cases, arith,
}
use mathlib.Core.List.{map-append}
use mathlib.Core.Path.{subst}
use mathlib.Core.Option.{some-injective}
use onramp_stt_api.Float.{Float}
use onramp_stt_api.Correction.{elem}
use onramp_stt_api.Correction.Glossary.Distinct.{Distinct, Distinct-append}
use onramp_stt_api.Correction.Ingestion.{
  TermRow, TermsPayload, TermInput, Report, load_terms_payload, change_first, created, updated,
  existing_test, find_existing_term, written, add_row, upsert_into, upsert_term, TermsFile,
}
use onramp_stt_api.Correction.Ingestion.Calls.{upsert_term-ok}
use onramp_stt_api.Correction.Ids.{tail_value, max_value, next_after, next_term_id, prefix_of}

drop-prefix : (t s : Text) → drop (length t) (t ++ s) ≡ s
drop-prefix [] s = refl
drop-prefix (c ∷ t) s = drop-prefix t s

is_prefix-itself : (t s : Text) → is_prefix t (t ++ s) ≡ true
unfolding is_prefix
is_prefix-itself [] s = refl
is_prefix-itself (c ∷ t) s = ground (arith, is_prefix-itself t s)

module _ ⦃g : Digits⦄ where
  int-zero_padded : (w n : ℕ) {v : ℕ} → int (zero_padded w n) ≡ some v → v ≡ n
  unfolding int
  int-zero_padded w n {v} h = elim (Bool-cases (ltb 4300 (length (zero_padded w n)))) [
    | inl long ↦ let k = rw long at h in cc
    | inr short ↦ some-injective v n (sym (rw short at h) ∙ read_from-zero_padded w n)
  ]

  tail_value-int :
      (prefix z : Text) → isdigit z ≡ true → tail_value prefix (prefix ++ codes "_" ++ z) ≡ int z
  unfolding tail_value
  tail_value-int prefix z h =
      let e : drop (length prefix + 1) (prefix ++ codes "_" ++ z) ≡ z =
        rw (sym (length-append prefix (codes "_"))) (drop-prefix (prefix ++ codes "_") z) in
      rw (is_prefix-itself (prefix ++ codes "_") z, e, h) refl

  -- The number of an id that the format makes is what it was made of.
  tail_value-format :
      (prefix : Text) (n : ℕ) {v : ℕ}
      → tail_value prefix (prefix ++ codes "_" ++ zero_padded 3 n) ≡ some v
      → v ≡ n
  tail_value-format prefix n {v} h =
      int-zero_padded 3 n
        (sym (tail_value-int prefix (zero_padded 3 n) (isdigit-zero_padded 3 n)) ∙ h)

  max_value-above :
      (prefix id : Text) (ids : List Text) {m : ℕ}
      → elem id ids ≡ true
      → max_value prefix ids ≡ some m
      → (v : ℕ) × (tail_value prefix id ≡ some v) × v ≤ m
  unfolding max_value
  max_value-above prefix id [] {m} h e = cc
  max_value-above prefix id (i ∷ ids) {m} h e = elim (Option-cases (tail_value prefix i)) [
    | inl bad ↦ let k = rw bad at e in cc
    | inr (v, good) ↦ elim (Option-cases (max_value prefix ids)) [
      | inl bad ↦ let k = rw (good, bad) at e in cc
      | inr (w, rest) ↦
          let k = some-injective (if ltb v w then w else v) m (rw (good, rest) at e) in
          elim (Bool-cases (eq_text i id)) [
            | inl same ↦ let t = eq_text_sound i id same in (v, rw t at good, ground arith)
            | inr other ↦
                let (x, at, le) = max_value-above prefix id ids {m = w} (ground arith) rest in
                (x, at, ground arith)
          ]
    ]
  ]

  next_after-fresh :
      (prefix : Text) (ids : List Text) (o : Option ℕ) {id : Text}
      → max_value prefix ids ≡ o
      → next_after prefix o ≡ some id
      → elem id ids ≡ false
  next_after-fresh prefix ids none {id} h e = cc
  next_after-fresh prefix ids (some m) {id} h e = elim (Bool-cases (elem id ids)) [
    | inr fresh ↦ fresh
    | inl there ↦
        let format = some-injective (prefix ++ codes "_" ++ zero_padded 3 (m + 1)) id e in
        let (v, value, le) = max_value-above prefix id ids there h in
        let same = tail_value-format prefix (m + 1) (rw (sym format) at value) in
        absurd (omega arith)
  ]

  -- An id that `_next_term_id` gives is none of those that are there.
  pub next_term_id-fresh :
      (category : Text) (ids : List Text) {id : Text}
      → next_term_id category ids ≡ some id
      → elem id ids ≡ false
  unfolding next_term_id
  next_term_id-fresh category ids {id} h =
      next_after-fresh (prefix_of category) ids (max_value (prefix_of category) ids) refl h

module _ {F : Type 0} where
  abbrev ids_of : List (TermRow F) → List Text
  ids_of = map (λ r. r.term_id)

  change_first-ids :
      (p : TermRow F → Bool) (f : TermRow F → TermRow F)
      → ((r : TermRow F) → (f r).term_id ≡ r.term_id)
      → (rows : List (TermRow F)) → ids_of (change_first p f rows) ≡ ids_of rows
  unfolding change_first
  change_first-ids p f h [] = refl
  change_first-ids p f h (r ∷ rows) = elim (Bool-cases (p r)) [
    | inl found ↦ rw (found, h r) refl
    | inr other ↦ rw (other, change_first-ids p f h rows) refl
  ]

module _ {F : Type 0} ⦃fl : Float F⦄ ⦃u : Unicode⦄ ⦃g : Digits⦄ where
  add_row-Distinct :
      (today : Text) (p : TermsPayload F) (i : TermInput F) (o : Option Text)
      {q : TermsPayload F × Report}
      → next_term_id i.category (ids_of p.terms) ≡ o
      → add_row today p i o ≡ some q
      → Distinct (ids_of p.terms)
      → Distinct (ids_of q.0.terms)
  unfolding created
  add_row-Distinct today p i none {q} fresh h d = cc
  add_row-Distinct today p i (some id) {q} fresh h d =
      let new =
        written today p (p.terms ++ created i id ∷ [])
          (record { is_added = true; term_id = id; canonical = i.canonical }) in
      subst (λ x. Distinct (ids_of x.0.terms)) (some-injective new q h)
        (rw (map-append (λ r. r.term_id) p.terms (created i id ∷ [])) (
          Distinct-append (ids_of p.terms) id (next_term_id-fresh i.category (ids_of p.terms) fresh)
            d))

  upsert_into-Distinct :
      (today : Text) (p : TermsPayload F) (i : TermInput F) (o : Option (TermRow F))
      {q : TermsPayload F × Report}
      → upsert_into today p i o ≡ some q
      → Distinct (ids_of p.terms)
      → Distinct (ids_of q.0.terms)
  unfolding upsert_into updated
  upsert_into-Distinct today p i none {q} h d =
      add_row-Distinct today p i (next_term_id i.category (ids_of p.terms)) {q = q} refl h d
  upsert_into-Distinct today p i (some r) {q} h d =
      let new =
        written today p (change_first (existing_test i p.terms) (updated i) p.terms)
          (record { is_added = false; term_id = r.term_id; canonical = r.canonical }) in
      subst (λ x. Distinct (ids_of x.0.terms)) (some-injective new q h)
        (rw (change_first-ids (existing_test i p.terms) (updated i) (λ r. refl) p.terms) d)

  -- Where no two terms that `upsert_term` reads have one id, no two have one afterwards, if it does
  -- not raise.
  pub ids_stay_unique :
      (today : Text) (writable : Bool) (file : TermsFile F) (i : TermInput F)
      (before p : TermsPayload F) (report : Report)
      → upsert_term today writable file i ≡ some (p, report)
      → load_terms_payload today file ≡ some before
      → Distinct (map (λ r. r.term_id) before.terms)
      → Distinct (map (λ r. r.term_id) p.terms)
  ids_stay_unique today writable file i before p report h read d =
      let (all, there, k) = upsert_term-ok today writable file i {q = (p, report)} h in
      let same = some-injective before all (sym read ∙ there) in
      upsert_into-Distinct today all i (find_existing_term i all.terms) {q = (p, report)} k
        (subst (λ (x : TermsPayload F). Distinct (map (λ r. r.term_id) x.terms)) same d)
