-- ===== src/Correction/Glossary/Distinct.antt =====
-- The entries that app/correction/glossary.py builds: at most `max_items`, and each term once.
use onramp_stt_api.Base.{
  ℕ, zero, suc, ◌≤◌, ◌≡◌, refl, Bool, true, false, not, ◌&&◌, Option, none, some, List, [], ◌∷◌,
  ◌++◌, map, Text, eq_text, eq_text_sound, Unicode, any-append, length, take, leb, ◌==◌, find_row,
  find_row-holds, if◌then◌else◌, Bool-cases, Option-cases, inl, inr, arith,
}
use mathlib.Core.List.{reverse}
use onramp_stt_api.Correction.{DomainTerm, TermDictionary, elem}
use onramp_stt_api.Correction.Glossary.{
  GlossaryEntry, last_by_id, is_known, logged_ids, is_mentioned, mentioned_ids, add_entry,
  entries_of, normalize_text, build_glossary_entries,
}

-- No text stands twice in the list.
abbrev pub Distinct : List Text → Type 0
Distinct [] = Unit
Distinct (t ∷ ts) = (elem t ts ≡ false) × Distinct ts

pub eq_text_comm : (s t : Text) → eq_text s t ≡ eq_text t s
unfolding eq_text
eq_text_comm [] [] = refl
eq_text_comm [] (d ∷ t) = refl
eq_text_comm (c ∷ s) [] = refl
eq_text_comm (c ∷ s) (d ∷ t) = ground (arith, eq_text_comm s t)

pub Distinct-append :
    (ts : List Text) (t : Text) → elem t ts ≡ false → Distinct ts → Distinct (ts ++ t ∷ [])
Distinct-append [] t h d = (refl, tt)
Distinct-append (s ∷ ts) t h (apart, d) = (
  ground (arith, any-append (λ u. eq_text u s) ts (t ∷ []), eq_text_comm s t),
  Distinct-append ts t (ground arith) d,
)

elem-take : (n : ℕ) (t : Text) (ts : List Text) → elem t ts ≡ false → elem t (take n ts) ≡ false
elem-take zero t ts h = refl
elem-take (suc n) t [] h = refl
elem-take (suc n) t (s ∷ ts) h = ground (arith, elem-take n t ts)

Distinct-take : (n : ℕ) (ts : List Text) → Distinct ts → Distinct (take n ts)
Distinct-take zero ts d = tt
Distinct-take (suc n) [] d = tt
Distinct-take (suc n) (t ∷ ts) (apart, d) = (elem-take n t ts apart, Distinct-take n ts d)

length-take : (n : ℕ) (ts : List Text) → length (take n ts) ≤ n
length-take zero ts = omega arith
length-take (suc n) [] = omega arith
length-take (suc n) (t ∷ ts) = omega (arith, length-take n ts)

if-Distinct :
    (b : Bool) (xs ys : List Text) → Distinct xs → Distinct ys → Distinct (if b then xs else ys)
if-Distinct true xs ys h k = h
if-Distinct false xs ys h k = k

module _ {F : Type 0} where
  logged_ids-Distinct :
      (d : TermDictionary F) (selected ids : List Text)
      → Distinct selected
      → Distinct (logged_ids d selected ids)
  unfolding logged_ids
  logged_ids-Distinct d selected [] h = h
  logged_ids-Distinct d selected (id ∷ ids) h =
      elim (Bool-cases
        (not (length id == 0) && (not (elem id selected) && is_known (last_by_id d id)))) [
          | inl new ↦ rw new (
              logged_ids-Distinct d (selected ++ id ∷ []) ids
                (Distinct-append selected id (ground arith) h))
          | inr old ↦ rw old (logged_ids-Distinct d selected ids h)
        ]

  mentioned_ids-Distinct :
      ⦃u : Unicode⦄
      → (normalized : Text) (n : ℕ) (ts : List (DomainTerm F)) (selected : List Text)
      → Distinct selected
      → Distinct (mentioned_ids normalized n ts selected)
  unfolding mentioned_ids
  mentioned_ids-Distinct normalized n [] selected h = h
  mentioned_ids-Distinct normalized n (t ∷ ts) selected h =
      elim (Bool-cases (elem t.term_id selected)) [
        | inl seen ↦ rw seen (mentioned_ids-Distinct normalized n ts selected h)
        | inr new ↦
            let more = if is_mentioned normalized t then selected ++ t.term_id ∷ [] else selected in
            let distinct =
              if-Distinct (is_mentioned normalized t) (selected ++ t.term_id ∷ []) selected
                (Distinct-append selected t.term_id new h) h in
            rw new (
              if-Distinct (leb n (length more)) more (mentioned_ids normalized n ts more) distinct
                (mentioned_ids-Distinct normalized n ts more distinct))
      ]

  -- An entry that is found has the id that was asked for.
  abbrev HasId : Text → Option (DomainTerm F) → Type 0
  HasId id none = Unit
  HasId id (some t) = t.term_id ≡ id

  last_by_id-HasId : (d : TermDictionary F) (id : Text) → HasId id (last_by_id d id)
  unfolding last_by_id
  last_by_id-HasId d id =
      elim (Option-cases (find_row (λ t. eq_text t.term_id id) (reverse d.terms))) [
        | inl gone ↦ rw gone tt
        | inr (t, found) ↦ rw found (
            eq_text_sound t.term_id id
              (find_row-holds (λ t. eq_text t.term_id id) (reverse d.terms) found))
      ]

  add_entry-absent :
      (o : Option (DomainTerm F)) (id i : Text) (rest : List GlossaryEntry)
      → HasId i o
      → elem id (i ∷ map (λ e. e.term_id) rest) ≡ false
      → elem id (map (λ e. e.term_id) (add_entry o rest)) ≡ false
  unfolding add_entry
  add_entry-absent none id i rest same h = ground arith
  add_entry-absent (some t) id i rest same h = rw same h

  entries-absent :
      (d : TermDictionary F) (id : Text) (ids : List Text)
      → elem id ids ≡ false
      → elem id (map (λ e. e.term_id) (entries_of d ids)) ≡ false
  unfolding entries_of
  entries-absent d id [] h = refl
  entries-absent d id (i ∷ ids) h =
      add_entry-absent (last_by_id d i) id i (entries_of d ids) (last_by_id-HasId d i)
        (ground (arith, entries-absent d id ids))

  add_entry-Distinct :
      (o : Option (DomainTerm F)) (i : Text) (rest : List GlossaryEntry) (n : ℕ)
      → HasId i o
      → elem i (map (λ e. e.term_id) rest) ≡ false
      → Distinct (map (λ e. e.term_id) rest)
      → length rest ≤ n
      → Distinct (map (λ e. e.term_id) (add_entry o rest)) × length (add_entry o rest) ≤ suc n
  unfolding add_entry
  add_entry-Distinct none i rest n same apart h few = (h, omega arith)
  add_entry-Distinct (some t) i rest n same apart h few = ((rw same apart, h), omega arith)

  entries-Distinct :
      (d : TermDictionary F) (ids : List Text)
      → Distinct ids
      → Distinct (map (λ e. e.term_id) (entries_of d ids)) × length (entries_of d ids) ≤ length ids
  unfolding entries_of
  entries-Distinct d [] h = (tt, omega arith)
  entries-Distinct d (i ∷ ids) (apart, h) =
      let (a, b) = entries-Distinct d ids h in
      add_entry-Distinct (last_by_id d i) i (entries_of d ids) (length ids) (last_by_id-HasId d i)
        (entries-absent d i ids apart) a b

  -- The glossary has at most `max_items` entries, and no term twice, whatever the logs and the
  -- dictionary hold.
  pub glossary_bounded :
      ⦃u : Unicode⦄
      → (text : Text) (d : TermDictionary F) (logged : List Text) (max_items : ℕ)
      → length (build_glossary_entries text d logged max_items) ≤ max_items
        × Distinct (map (λ e. e.term_id) (build_glossary_entries text d logged max_items))
  unfolding build_glossary_entries
  glossary_bounded text d logged max_items =
      let all = mentioned_ids (normalize_text text) max_items d.terms (logged_ids d [] logged) in
      let distinct =
        mentioned_ids-Distinct (normalize_text text) max_items d.terms (logged_ids d [] logged)
          (logged_ids-Distinct d [] logged tt) in
      let (a, b) = entries-Distinct d (take max_items all) (Distinct-take max_items all distinct) in
      (omega (arith, length-take max_items all), a)
