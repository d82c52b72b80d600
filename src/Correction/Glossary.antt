-- ===== src/Correction/Glossary.antt =====
-- app/correction/glossary.py: the terms that are named to the language model.
pub mod Distinct
use onramp_stt_api.Base.{
  ℕ, suc, ◌+◌, ◌≤◌, ◌≡◌, refl, Bool, true, false, not, ◌&&◌, ◌||◌, Option, none, some, List, [],
  ◌∷◌, ◌++◌, map, Text, codes, eq_text, Unicode, is_space, strip, join, contains, any, select,
  length, take, leb, ◌==◌, find_row, if◌then◌else◌,
}
use mathlib.Core.List.{reverse}
use onramp_stt_api.Correction.{DomainTerm, TermDictionary, elem}

pub record GlossaryEntry : Type 0 where
  pub term_id : Text
  pub canonical : Text
  pub variants : List Text

-- `_normalize_text`: `\s` matches the characters of `str.isspace`.
unfoldable pub normalize_text : ⦃u : Unicode⦄ → Text → Text
normalize_text ⦃u⦄ s = u.lower (select (λ c. not (is_space c)) s)

-- the loop over the variants of a term
unfoldable pub add_variants : List Text → List Text → List Text
add_variants variants [] = variants
add_variants variants (p ∷ ps) =
    let n = strip p in
    add_variants
      (if not (length n == 0) && not (elem n variants) then variants ++ n ∷ [] else variants) ps

module _ {F : Type 0} where
  -- `terms_by_id`: of two terms with one id, the later.
  unfoldable pub last_by_id : TermDictionary F → Text → Option (DomainTerm F)
  last_by_id d id = find_row (λ t. eq_text t.term_id id) (reverse d.terms)

  abbrev is_known : Option (DomainTerm F) → Bool
  is_known none = false
  is_known (some t) = true

  -- The ids of the logs, each once; `seen_ids` has the same ids as `selected_ids`.
  unfoldable pub logged_ids : TermDictionary F → List Text → List Text → List Text
  unfolding last_by_id
  logged_ids d selected [] = selected
  logged_ids d selected (id ∷ ids) =
      logged_ids d
        (if not (length id == 0) && (not (elem id selected) && is_known (last_by_id d id))
          then selected ++ id ∷ []
          else selected)
        ids

  -- A phrase of the term is in the text.
  unfoldable pub is_mentioned : ⦃u : Unicode⦄ → Text → DomainTerm F → Bool
  unfolding normalize_text
  is_mentioned normalized t =
      any (λ p. not (length p == 0) && contains normalized (normalize_text p))
        (t.canonical ∷ (t.aliases ++ t.stt_variants))

  -- The loop over the dictionary.
  unfoldable pub mentioned_ids :
      ⦃u : Unicode⦄ → Text → ℕ → List (DomainTerm F) → List Text → List Text
  unfolding is_mentioned
  mentioned_ids normalized max_items [] selected = selected
  mentioned_ids normalized max_items (t ∷ ts) selected =
      let passed = mentioned_ids normalized max_items ts selected in
      let more = if is_mentioned normalized t then selected ++ t.term_id ∷ [] else selected in
      let onward = mentioned_ids normalized max_items ts more in
      if elem t.term_id selected
      then passed
      else if leb max_items (length more)
      then more
      else onward

  abbrev entry_of : DomainTerm F → GlossaryEntry
  entry_of t = record {
    term_id = t.term_id;
    canonical = t.canonical;
    variants = take 8 (add_variants [] (t.aliases ++ t.stt_variants));
  }

  -- An id that no term has gives no entry.
  unfoldable pub add_entry : Option (DomainTerm F) → List GlossaryEntry → List GlossaryEntry
  unfolding add_variants
  add_entry none rest = rest
  add_entry (some t) rest = entry_of t ∷ rest

  unfoldable pub entries_of : TermDictionary F → List Text → List GlossaryEntry
  unfolding last_by_id add_entry
  entries_of d [] = []
  entries_of d (id ∷ ids) = add_entry (last_by_id d id) (entries_of d ids)

  -- `build_glossary_entries`; of the logs only the ids are read.
  unfoldable pub build_glossary_entries :
      ⦃u : Unicode⦄ → Text → TermDictionary F → List Text → ℕ → List GlossaryEntry
  unfolding logged_ids mentioned_ids entries_of
  build_glossary_entries text d logged max_items = entries_of d (
      take max_items
        (mentioned_ids (normalize_text text) max_items d.terms (logged_ids d [] logged)))

-- `render_glossary`
unfoldable pub render_entry : GlossaryEntry → Text
render_entry e =
    codes "- "
    ++ e.canonical
    ++ codes " | variants: "
    ++ (if length e.variants == 0 then codes "-" else join (codes ", ") e.variants)

unfoldable pub render_glossary : List GlossaryEntry → Text
unfolding render_entry
render_glossary [] = codes "- 없음"
render_glossary (e ∷ es) = join (codes "\n") (map render_entry (e ∷ es))
