-- ===== src/Correction/Ingestion/Again.antt =====
-- app/correction/terms/term_ingestion.py: a term that was added is found by the next call, which
-- updates it.
use onramp_stt_api.Base.{
  ◌≡◌, inl, inr, refl, ap, ◌∙◌, Bool, true, false, Option, none, some, List, [], ◌∷◌, ◌++◌, map,
  any, any-append, length, Text, eq_text_refl, Unicode, find_row, find_row-append_none, Digits,
  Bool-cases, arith,
}
use mathlib.Core.Path.{subst}
use mathlib.Core.Option.{some-injective}
use onramp_stt_api.Float.{Float}
use onramp_stt_api.Correction.Ingestion.{
  TermRow, TermsPayload, TermInput, Report, change_first, created, updated, has_canonical_of,
  existing_test, find_existing_term, written, add_row, upsert_into, upsert_term, TermsFile,
}
use onramp_stt_api.Correction.Ids.{next_term_id}
use onramp_stt_api.Correction.Ingestion.Calls.{upsert_term-ok}

module _ {F : Type 0} where
  any-no_row :
      (p : TermRow F → Bool) (rows : List (TermRow F)) → find_row p rows ≡ none → any p rows ≡ false
  unfolding find_row
  any-no_row p [] h = refl
  any-no_row p (r ∷ rows) h = ground (arith, any-no_row p rows)

  no_row-any :
      (p : TermRow F → Bool) (rows : List (TermRow F)) → any p rows ≡ false → find_row p rows ≡ none
  unfolding find_row
  no_row-any p [] h = refl
  no_row-any p (r ∷ rows) h = ground (arith, no_row-any p rows)

  length-change_first :
      (p : TermRow F → Bool) (f : TermRow F → TermRow F) (rows : List (TermRow F))
      → length (change_first p f rows) ≡ length rows
  unfolding change_first
  length-change_first p f [] = refl
  length-change_first p f (r ∷ rows) = ground (arith, length-change_first p f rows)

  -- Where no row is the term's, none has its canonical form.
  no_canonical :
      ⦃u : Unicode⦄
      → (i : TermInput F) (rows : List (TermRow F)) → find_existing_term i rows ≡ none
      → find_row (has_canonical_of i) rows ≡ none
  unfolding find_existing_term
  no_canonical i rows h = elim (Bool-cases (any (has_canonical_of i) rows)) [
    | inl there ↦ rw there at h
    | inr gone ↦ no_row-any (has_canonical_of i) rows gone
  ]

  created-found :
      ⦃u : Unicode⦄
      → (i : TermInput F) (rows : List (TermRow F)) (id : Text) → find_existing_term i rows ≡ none
      → find_existing_term i (rows ++ created i id ∷ []) ≡ some (created i id)
  unfolding find_existing_term existing_test created find_row
  created-found ⦃u⦄ i rows id h =
      let c = created i id in
      let none_before = no_canonical i rows h in
      let mine = eq_text_refl (u.lower i.canonical) in
      let one : any (has_canonical_of i) (rows ++ c ∷ []) ≡ true =
        any-append (has_canonical_of i) rows (c ∷ [])
        ∙ rw (any-no_row (has_canonical_of i) rows none_before, mine) refl in
      rw one (find_row-append_none (has_canonical_of i) rows (c ∷ []) none_before ∙ rw mine refl)

module _ {F : Type 0} ⦃fl : Float F⦄ ⦃u : Unicode⦄ ⦃g : Digits⦄ where
  -- what a next call gives
  abbrev pub IsUpdated : Text → TermsPayload F → TermInput F → Report → Type 0
  IsUpdated later p i report =
      (q : TermsPayload F) × (again : Report) × upsert_term later true (TermsFile.stored p) i
        ≡ some (q, again)
      × again.is_added ≡ false
      × again.term_id ≡ report.term_id
      × length q.terms ≡ length p.terms

  add_row-IsUpdated :
      (today later : Text) (p : TermsPayload F) (i : TermInput F) (o : Option Text)
      {q : TermsPayload F × Report}
      → find_existing_term i p.terms ≡ none
      → add_row today p i o ≡ some q
      → IsUpdated later q.0 i q.1
  unfolding upsert_term upsert_into
  add_row-IsUpdated today later p i none {q} gone h = cc
  add_row-IsUpdated today later p i (some id) {q} gone h =
      let rows = p.terms ++ created i id ∷ [] in
      let new =
        written today p rows (record { is_added = true; term_id = id; canonical = i.canonical }) in
      let next = change_first (existing_test i rows) (updated i) rows in
      let (r, report) =
        written later new.0 next
          (record { is_added = false; term_id = id; canonical = i.canonical }) in
      subst (λ x. IsUpdated later x.0 i x.1) (some-injective new q h)
        (
          r,
          report,
          rw (created-found i p.terms id gone) refl,
          refl,
          refl,
          length-change_first (existing_test i rows) (updated i) rows,
        )

  upsert_into-IsUpdated :
      (today later : Text) (p : TermsPayload F) (i : TermInput F) (o : Option (TermRow F))
      {q : TermsPayload F × Report}
      → find_existing_term i p.terms ≡ o
      → upsert_into today p i o ≡ some q
      → q.1.is_added ≡ true
      → IsUpdated later q.0 i q.1
  unfolding upsert_into
  upsert_into-IsUpdated today later p i none {q} e h added =
      add_row-IsUpdated today later p i (next_term_id i.category (map (λ r. r.term_id) p.terms))
        {q = q} e h
  upsert_into-IsUpdated today later p i (some r) {q} e h added =
      let old =
        written today p (change_first (existing_test i p.terms) (updated i) p.terms)
          (record { is_added = false; term_id = r.term_id; canonical = r.canonical }) in
      let no = ap (λ x. x.1.is_added) (some-injective old q h) in cc

  -- A call that adds a term has a next call, with the same arguments on any later day, that updates
  -- it, where the file can be written: the id is the same, and there are as many terms as before.
  pub upsert_term-IsUpdated :
      (today later : Text) (writable : Bool) (file : TermsFile F) (i : TermInput F)
      (p : TermsPayload F) (report : Report)
      → upsert_term today writable file i ≡ some (p, report)
      → report.is_added ≡ true
      → IsUpdated later p i report
  upsert_term-IsUpdated today later writable file i p report h added =
      let (all, _, k) = upsert_term-ok today writable file i {q = (p, report)} h in
      upsert_into-IsUpdated today later all i (find_existing_term i all.terms) {q = (p, report)}
        refl k added
