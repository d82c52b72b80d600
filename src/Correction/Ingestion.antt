-- ===== src/Correction/Ingestion.antt =====
-- app/correction/terms/term_ingestion.py: a term is added to the dictionary's file or merged into one
-- that is there. A row has the three keys that `DomainTerm.from_dict` requires.
pub mod Calls
pub mod Unique
pub mod Again
pub mod Total
use onramp_stt_api.Base.{
  ℕ, suc, ◌+◌, Bool, true, false, not, ◌&&◌, ◌||◌, Option, none, some, List, [], ◌∷◌, ◌++◌, map,
  any, select, length, drop, ltb, ◌==◌, Text, codes, eq_text, Unicode, is_space, strip, is_prefix,
  find_row, zero_padded, Digits, isdigit, int, if◌then◌else◌,
}
use onramp_stt_api.Float.{Float, flt}
use onramp_stt_api.Merger.{or_default}
use onramp_stt_api.Correction.{DomainTerm, elem}
use onramp_stt_api.Correction.Ids.{
  category_prefixes, max_of, max_value, next_after, next_term_id, prefix_of, prefix_or_ext,
  tail_value,
}

pub record TermRow (F : Type 0) : Type 0 where
  pub term_id : Text
  pub canonical : Text
  pub category : Text
  pub aliases : Option (List Text)
  pub stt_variants : Option (List Text)
  pub description : Option Text
  pub source : Option Text
  pub confidence : Option F
  pub replace_policy : Option Text
  pub source_url : Option Text
  pub context_keywords : Option (List Text)

pub record TermsPayload (F : Type 0) : Type 0 where
  pub version : Text
  pub description : Option Text
  pub terms : List (TermRow F)

-- What stands at the path of the terms: nothing, JSON that is no object or no JSON at all, an object
-- without the key "terms", or an object whose terms have the three keys.
pub data TermsFile (F : Type 0) : Type 0 where
  absent : TermsFile F
  not_an_object : TermsFile F
  without_terms : TermsFile F
  stored : TermsPayload F → TermsFile F

-- The arguments of `upsert_term`; a list that is `None` counts as empty.
pub record TermInput (F : Type 0) : Type 0 where
  pub canonical : Text
  pub category : Text
  pub aliases : List Text
  pub stt_variants : List Text
  pub description : Text
  pub source : Text
  pub confidence : F
  pub replace_policy : Text
  pub context_keywords : List Text
  pub source_url : Option Text

-- The result of `upsert_term`: `action` is "added" or "updated".
pub record Report : Type 0 where
  pub is_added : Bool
  pub term_id : Text
  pub canonical : Text

-- `_normalize_phrase`
unfoldable pub normalize_phrase : ⦃u : Unicode⦄ → Text → Text
normalize_phrase ⦃u⦄ s = select (λ c. not (is_space c)) (u.lower s)

-- `_unique`
unfoldable pub unique_from : ⦃u : Unicode⦄ → List Text → List Text → List Text
unique_from seen [] = []
unique_from ⦃u⦄ seen (item ∷ items) =
    let n = strip item in
    let more = n ∷ unique_from (u.lower n ∷ seen) items in
    let rest = unique_from seen items in
    if length n == 0 || elem (u.lower n) seen then rest else more

unfoldable pub unique : ⦃u : Unicode⦄ → List Text → List Text
unfolding unique_from
unique items = unique_from [] items

-- `{_normalize_phrase(phrase) for phrase in phrases if phrase and phrase.strip()}`
unfoldable pub normalized_phrases : ⦃u : Unicode⦄ → List Text → List Text
unfolding normalize_phrase
normalized_phrases ps = map normalize_phrase (select (λ p. not (length (strip p) == 0)) ps)

-- `not value`, for a text or `None`
abbrev pub is_missing : Option Text → Bool
is_missing none = true
is_missing (some t) = length t == 0

abbrev pub is_manual : Text → Bool
is_manual = eq_text (codes "manual_review")

module _ {F : Type 0} where
  -- `DomainTerm.from_dict`
  unfoldable pub from_dict : ⦃fl : Float F⦄ → TermRow F → DomainTerm F
  from_dict ⦃fl⦄ r = record {
    term_id = r.term_id;
    canonical = r.canonical;
    category = r.category;
    aliases = or_default r.aliases [];
    stt_variants = or_default r.stt_variants [];
    description = or_default r.description [];
    source = or_default r.source (codes "manual");
    confidence = or_default r.confidence (fl.of_int 0);
    replace_policy = or_default r.replace_policy (codes "manual_review");
    source_url = r.source_url;
    context_keywords = or_default r.context_keywords [];
  }

  -- `_term_phrases`
  unfoldable pub term_phrases : ⦃u : Unicode⦄ → TermRow F → List Text
  unfolding normalized_phrases
  term_phrases r =
      normalized_phrases (r.canonical ∷ (or_default r.aliases [] ++ or_default r.stt_variants []))

  -- `normalized_inputs`
  unfoldable pub input_phrases : ⦃u : Unicode⦄ → TermInput F → List Text
  unfolding normalized_phrases
  input_phrases i = normalized_phrases (i.canonical ∷ (i.aliases ++ i.stt_variants))

  abbrev pub has_canonical_of : ⦃u : Unicode⦄ → TermInput F → TermRow F → Bool
  has_canonical_of ⦃u⦄ i r = eq_text (u.lower r.canonical) (u.lower i.canonical)

  abbrev pub shares_phrase : ⦃u : Unicode⦄ → TermInput F → TermRow F → Bool
  shares_phrase i r = any (λ p. elem p (term_phrases r)) (input_phrases i)

  -- The test whose first row `_find_existing_term` returns: by the canonical form if a row has it,
  -- and by the phrases if none has.
  unfoldable pub existing_test : ⦃u : Unicode⦄ → TermInput F → List (TermRow F) → TermRow F → Bool
  unfolding term_phrases input_phrases
  existing_test i rows =
      if any (has_canonical_of i) rows then has_canonical_of i else shares_phrase i

  -- `_find_existing_term`
  unfoldable pub find_existing_term :
      ⦃u : Unicode⦄ → TermInput F → List (TermRow F) → Option (TermRow F)
  unfolding existing_test
  find_existing_term i rows = find_row (existing_test i rows) rows

  -- The first row that passes is changed in place.
  unfoldable pub change_first :
      (TermRow F → Bool) → (TermRow F → TermRow F) → List (TermRow F) → List (TermRow F)
  change_first p f [] = []
  change_first p f (r ∷ rows) =
      let rest = change_first p f rows in if p r then f r ∷ rows else r ∷ rest

  -- the row that is added
  unfoldable pub created : ⦃u : Unicode⦄ → TermInput F → Text → TermRow F
  unfolding unique
  created i id = record {
    term_id = id;
    canonical = i.canonical;
    category = i.category;
    aliases = some (unique i.aliases);
    stt_variants = some (unique i.stt_variants);
    description = some i.description;
    source = some i.source;
    confidence = some i.confidence;
    replace_policy = some i.replace_policy;
    source_url = if is_missing i.source_url then none else i.source_url;
    context_keywords =
        if length i.context_keywords == 0 then none else some (unique i.context_keywords);
  }

module _ {F : Type 0} ⦃fl : Float F⦄ ⦃u : Unicode⦄ where
  -- the changes of a row that is there
  unfoldable pub updated : TermInput F → TermRow F → TermRow F
  unfolding unique
  updated i r =
      let before = or_default r.confidence (fl.of_int 0) in
      record {
        term_id = r.term_id;
        canonical = r.canonical;
        category = r.category;
        aliases = some (unique (or_default r.aliases [] ++ i.aliases));
        stt_variants = some (unique (or_default r.stt_variants [] ++ i.stt_variants));
        description =
            if not (length i.description == 0) && is_missing r.description
            then some i.description
            else r.description;
        source = r.source;
        confidence = some (if flt before i.confidence then i.confidence else before);
        replace_policy =
            if is_manual (or_default r.replace_policy []) && not (is_manual i.replace_policy)
            then some i.replace_policy
            else r.replace_policy;
        source_url =
            if not (is_missing i.source_url) && is_missing r.source_url
            then i.source_url
            else r.source_url;
        context_keywords =
            if length i.context_keywords == 0
            then r.context_keywords
            else some (unique (or_default r.context_keywords [] ++ i.context_keywords));
      }

  -- `_load_terms_payload` and `payload["terms"]`: the file's payload, or that of a new file; `none`
  -- is a `ValueError` or a `KeyError`.
  unfoldable pub load_terms_payload : Text → TermsFile F → Option (TermsPayload F)
  load_terms_payload today TermsFile.absent = some (record {
    version = today;
    description = some (
        codes "OnRamp STT correction term dictionary. "
        ++ codes "The JSON schema mirrors the runtime term model for local operation.");
    terms = [];
  })
  load_terms_payload today TermsFile.not_an_object = none
  load_terms_payload today TermsFile.without_terms = none
  load_terms_payload today (TermsFile.stored p) = some p

  -- what `_write_terms_payload` writes, with what is returned
  abbrev pub written : Text → TermsPayload F → List (TermRow F) → Report → TermsPayload F × Report
  written today p rows report =
      (record { version = today; description = p.description; terms = rows }, report)

  abbrev pub add_row :
      Text → TermsPayload F → TermInput F → Option Text → Option (TermsPayload F × Report)
  add_row today p i none = none
  add_row today p i (some id) = some (
      written today p (p.terms ++ created i id ∷ [])
        (record { is_added = true; term_id = id; canonical = i.canonical }))

  unfoldable pub upsert_into :
      ⦃g : Digits⦄
      → Text
      → TermsPayload F
      → TermInput F
      → Option (TermRow F)
      → Option (TermsPayload F × Report)
  unfolding next_term_id created updated change_first
  upsert_into today p i none =
      add_row today p i (next_term_id i.category (map (λ r. r.term_id) p.terms))
  upsert_into today p i (some r) = some (
      written today p (change_first (existing_test i p.terms) (updated i) p.terms)
        (record { is_added = false; term_id = r.term_id; canonical = r.canonical }))

  -- The write, which raises an `OSError` where the file cannot be written.
  abbrev pub saved : Bool → Option (TermsPayload F × Report) → Option (TermsPayload F × Report)
  saved true o = o
  saved false o = none

  abbrev pub upsert_loaded :
      ⦃g : Digits⦄
      → Text
      → Bool
      → TermInput F
      → Option (TermsPayload F)
      → Option (TermsPayload F × Report)
  upsert_loaded today writable i none = none
  upsert_loaded today writable i (some p) =
      saved writable (upsert_into today p i (find_existing_term i p.terms))

  -- `upsert_term`; `none` is an exception. Before the write, the file is as it was.
  unfoldable pub upsert_term :
      ⦃g : Digits⦄ → Text → Bool → TermsFile F → TermInput F → Option (TermsPayload F × Report)
  unfolding load_terms_payload upsert_into find_existing_term
  upsert_term today writable file i = upsert_loaded today writable i (load_terms_payload today file)

  -- `promote_candidate`
  unfoldable pub promote_candidate :
      ⦃g : Digits⦄
      → Text
      → Bool
      → TermsFile F
      → Text
      → TermInput F
      → Option (TermsPayload F × Report)
  unfolding upsert_term unique
  promote_candidate today writable file candidate i =
      upsert_term today writable file
        (record i { stt_variants = unique (candidate ∷ i.stt_variants) })
