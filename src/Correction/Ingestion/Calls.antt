-- ===== src/Correction/Ingestion/Calls.antt =====
-- What a call of `upsert_term` of app/correction/terms/term_ingestion.py that returns has done.
use onramp_stt_api.Base.{◌≡◌, refl, Bool, true, false, Option, none, some, Text, Unicode, Digits}
use onramp_stt_api.Float.{Float}
use onramp_stt_api.Correction.Ingestion.{
  TermsFile, TermsPayload, TermInput, Report, load_terms_payload, find_existing_term, upsert_into,
  upsert_loaded, upsert_term,
}

module _ {F : Type 0} ⦃fl : Float F⦄ ⦃u : Unicode⦄ ⦃g : Digits⦄ where
  upsert_loaded-ok :
      (today : Text) (writable : Bool) (i : TermInput F) (o : Option (TermsPayload F))
      {q : TermsPayload F × Report}
      → upsert_loaded today writable i o ≡ some q
      → (p : TermsPayload F) × (o ≡ some p)
        × (upsert_into today p i (find_existing_term i p.terms) ≡ some q)
  upsert_loaded-ok today writable i none h = cc
  upsert_loaded-ok today false i (some p) h = cc
  upsert_loaded-ok today true i (some p) h = (p, refl, h)

  -- It has read a payload and updated it.
  pub upsert_term-ok :
      (today : Text) (writable : Bool) (file : TermsFile F) (i : TermInput F)
      {q : TermsPayload F × Report}
      → upsert_term today writable file i ≡ some q
      → (p : TermsPayload F) × (load_terms_payload today file ≡ some p)
        × (upsert_into today p i (find_existing_term i p.terms) ≡ some q)
  unfolding upsert_term
  upsert_term-ok today writable file i {q} h =
      upsert_loaded-ok today writable i (load_terms_payload today file) {q = q} h
