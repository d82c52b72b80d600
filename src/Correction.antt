-- ===== src/Correction.antt =====
-- app/correction/terms/term_dictionary.py: the terms that the correction knows. The JSON file is a
-- parameter: a dictionary is made of the terms and the version that the repository loads.
pub mod Rules
pub mod Glossary
pub mod Lines
pub mod Prompt
pub mod Audit
pub mod Service
pub mod Patterns
pub mod Ids
pub mod Ingestion
use onramp_stt_api.Base.{
  ℕ, ◌≡◌, refl, Bool, true, false, not, ◌&&◌, Option, none, some, List, [], ◌∷◌, ◌++◌, map, Text,
  codes, eq_text, Unicode, strip, any, select, length, ◌==◌, find_row, text_lt, if◌then◌else◌,
}
use onramp_stt_api.Float.{Float}

-- `replace_policy` is a string: "safe", "context_required", or any other.
pub record DomainTerm (F : Type 0) : Type 0 where
  pub term_id : Text
  pub canonical : Text
  pub category : Text
  pub aliases : List Text
  pub stt_variants : List Text
  pub description : Text
  pub source : Text
  pub confidence : F
  pub replace_policy : Text
  pub source_url : Option Text
  pub context_keywords : List Text

pub record TermDictionary (F : Type 0) : Type 0 where
  pub terms : List (DomainTerm F)
  pub version : Text

-- `item in seen`, for a set or a list of texts
abbrev pub elem : Text → List Text → Bool
elem t = any (λ u. eq_text u t)

-- `sorted(set)`: one of each, in the order of code points
unfoldable pub insert_text : Text → List Text → List Text
insert_text t [] = t ∷ []
insert_text t (u ∷ us) =
    let rest = insert_text t us in
    if eq_text t u then u ∷ us else if text_lt t u then t ∷ u ∷ us else u ∷ rest

unfoldable pub sorted_set : List Text → List Text
unfolding insert_text
sorted_set [] = []
sorted_set (t ∷ ts) = insert_text t (sorted_set ts)

-- The loop of `match_phrases`: each phrase once, up to case, and none that is the canonical form.
unfoldable pub unique_phrases : ⦃u : Unicode⦄ → Text → List Text → List Text → List Text
unique_phrases canonical seen [] = []
unique_phrases ⦃u⦄ canonical seen (p ∷ ps) =
    let n = strip p in
    let more = n ∷ unique_phrases canonical (u.lower n ∷ seen) ps in
    let rest = unique_phrases canonical seen ps in
    if not (length n == 0) && (not (eq_text n canonical) && not (elem (u.lower n) seen))
    then more
    else rest

module _ {F : Type 0} where
  -- `match_phrases`
  unfoldable pub match_phrases : ⦃u : Unicode⦄ → DomainTerm F → List Text
  unfolding unique_phrases
  match_phrases t = unique_phrases t.canonical [] (t.stt_variants ++ t.aliases)

  -- `iter_matchable_terms`
  unfoldable pub iter_matchable_terms : ⦃u : Unicode⦄ → TermDictionary F → List (DomainTerm F)
  unfolding match_phrases
  iter_matchable_terms d = select (λ t. not (length (match_phrases t) == 0)) d.terms

  -- `canonical_terms`
  unfoldable pub canonical_terms : TermDictionary F → List Text
  unfolding sorted_set
  canonical_terms d = sorted_set (map (λ t. t.canonical) d.terms)

  -- `term_by_id` (app/correction/glossary.py)
  unfoldable pub term_by_id : TermDictionary F → Text → Option (DomainTerm F)
  term_by_id d id = find_row (λ t. eq_text t.term_id id) d.terms
