-- ===== src/Correction/Rules.antt =====
-- app/correction/rule_based_corrector.py: the phrases of the dictionary are looked for in a text,
-- and those whose policy allows it are replaced. `context_window` is 40, as the service has it.
pub mod Select
pub mod Rewrite
use onramp_stt_api.Base.{
  ℕ, zero, suc, ◌+◌, ◌-◌, ◌≡◌, refl, Bool, true, false, not, ◌&&◌, ◌||◌, Option, none, some, List,
  [], ◌∷◌, ◌++◌, map, Text, codes, eq_text, Unicode, any, select, length, take, drop, ltb, leb,
  ◌==◌, slice, contains, text_lt, if◌then◌else◌,
}
use onramp_stt_api.Correction.{
  DomainTerm, TermDictionary, iter_matchable_terms, match_phrases, elem, sorted_set,
}
use onramp_stt_api.Correction.Patterns.{
  Pattern, compile_phrase_pattern, find_from, free_after, free_before, hits, is_alnum, is_joined,
  phrase_at,
}

pub data Action : Type 0 where
  replaced candidate : Action

abbrev pub is_replaced : Action → Bool
is_replaced Action.replaced = true
is_replaced Action.candidate = false

-- An item of `candidates`: start, end, the text in between, the term and the action. The fields of
-- `CorrectionLog` are those of the match and its term.
pub record Match (F : Type 0) : Type 0 where
  pub start : ℕ
  pub end : ℕ
  pub original : Text
  pub term : DomainTerm F
  pub action : Action

pub record UnmatchedCandidate : Type 0 where
  pub text : Text
  pub reason : Text
  pub start : ℕ
  pub end : ℕ

-- `correct`: the text, the matches, of which the logs are made, the protected terms and
-- the others
pub record RuleResult (F : Type 0) : Type 0 where
  pub corrected_text : Text
  pub correction_logs : List (Match F)
  pub protected : List Text
  pub unmatched_candidates : List UnmatchedCandidate

abbrev pub context_window : ℕ
context_window = 40

module _ {F : Type 0} ⦃u : Unicode⦄ where
  -- `_has_context`
  unfoldable pub has_context : Text → ℕ → ℕ → DomainTerm F → Bool
  has_context text start end term =
      let left = start - context_window in
      let right =
        if ltb (length text) (end + context_window) then length text else end + context_window in
      let context = u.lower (slice left start text ++ codes " " ++ slice end right text) in
      any (λ k. contains context (u.lower k)) term.context_keywords

  -- `_decide_action`
  unfoldable pub decide_action : Text → ℕ → ℕ → DomainTerm F → Action
  unfolding has_context
  decide_action text start end term =
      if eq_text term.replace_policy (codes "safe")
      then Action.replaced
      else if eq_text term.replace_policy (codes "context_required")
      then (if has_context text start end term then Action.replaced else Action.candidate)
      else Action.candidate

  -- `sorted(…, key=len, reverse=True)`, which is stable
  unfoldable pub insert_longest :
      Text × DomainTerm F → List (Text × DomainTerm F) → List (Text × DomainTerm F)
  insert_longest x [] = x ∷ []
  insert_longest x (y ∷ ys) =
      let rest = insert_longest x ys in
      if leb (length y.0) (length x.0) then x ∷ y ∷ ys else y ∷ rest

  unfoldable pub sort_longest : List (Text × DomainTerm F) → List (Text × DomainTerm F)
  unfolding insert_longest
  sort_longest [] = []
  sort_longest (x ∷ xs) = insert_longest x (sort_longest xs)

  unfoldable pub phrase_terms : List (DomainTerm F) → List (Text × DomainTerm F)
  phrase_terms [] = []
  phrase_terms (t ∷ ts) = map (λ p. (p, t)) (match_phrases t) ++ phrase_terms ts

  -- `_build_patterns`
  unfoldable pub build_patterns : TermDictionary F → List (Text × DomainTerm F)
  unfolding sort_longest phrase_terms
  build_patterns d = sort_longest (phrase_terms (iter_matchable_terms d))

  -- `key in seen`
  abbrev same_place : ℕ → ℕ → DomainTerm F → Match F → Bool
  same_place start end term m =
      m.start == start && (m.end == end && eq_text m.term.term_id term.term_id)

  -- The inner loop of `_collect_matches`: `found` are the candidates so far.
  unfoldable pub add_matches : Text → Text → DomainTerm F → List ℕ → List (Match F) → List (Match F)
  unfolding decide_action
  add_matches text phrase term [] found = found
  add_matches text phrase term (start ∷ starts) found =
      let end = start + length phrase in
      add_matches text phrase term starts (
        if any (same_place start end term) found
        then found
        else found
          ++ record {
            start = start;
            end = end;
            original = slice start end text;
            term = term;
            action = decide_action text start end term;
          }
            ∷ [])

  unfoldable pub find_all : Text → List (Text × DomainTerm F) → List (Match F) → List (Match F)
  unfolding add_matches find_from compile_phrase_pattern
  find_all text [] found = found
  find_all text ((phrase, term) ∷ ps) found =
      find_all text ps (
        add_matches text phrase term (find_from (compile_phrase_pattern phrase) 0 none 0 text)
          found)

  -- The order of the candidates: by start, replacements first, the longer first, by term.
  unfoldable pub comes_before : Match F → Match F → Bool
  comes_before a b =
      if not (a.start == b.start)
      then ltb a.start b.start
      else if is_replaced a.action && not (is_replaced b.action)
      then true
      else if is_replaced b.action && not (is_replaced a.action)
      then false
      else if not (a.end - a.start == b.end - b.start)
      then ltb (b.end - b.start) (a.end - a.start)
      else text_lt a.term.term_id b.term.term_id

  unfoldable pub insert_match : Match F → List (Match F) → List (Match F)
  unfolding comes_before
  insert_match m [] = m ∷ []
  insert_match m (n ∷ ms) =
      let rest = insert_match m ms in if comes_before n m then n ∷ rest else m ∷ n ∷ ms

  unfoldable pub sort_matches : List (Match F) → List (Match F)
  unfolding insert_match
  sort_matches [] = []
  sort_matches (m ∷ ms) = insert_match m (sort_matches ms)

  -- The greedy selection; a cursor of -1 and one of 0 skip the same.
  unfoldable pub select_from : ℕ → List (Match F) → List (Match F)
  select_from cursor [] = []
  select_from cursor (m ∷ ms) =
      let taken = m ∷ select_from m.end ms in
      let skipped = select_from cursor ms in if ltb m.start cursor then skipped else taken

  -- `_collect_matches`
  unfoldable pub collect_matches : TermDictionary F → Text → List (Match F)
  unfolding build_patterns find_all sort_matches select_from
  collect_matches d text = select_from 0 (sort_matches (find_all text (build_patterns d) []))

  abbrev pub output : Match F → Text
  output m = if is_replaced m.action then m.term.canonical else m.original

  -- `_render_corrected_text`, its text
  unfoldable pub render_from : Text → ℕ → List (Match F) → Text
  render_from text cursor [] = drop cursor text
  render_from text cursor (m ∷ ms) =
      slice cursor m.start text ++ (output m ++ render_from text m.end ms)

  -- and its `unmatched`
  unfoldable pub unmatched_of : List (Match F) → List UnmatchedCandidate
  unmatched_of [] = []
  unmatched_of (m ∷ ms) =
      let rest = unmatched_of ms in
      if is_replaced m.action
      then rest
      else record {
        text = m.original;
        reason = m.term.replace_policy ++ codes ":" ++ m.term.term_id;
        start = m.start;
        end = m.end;
      }
        ∷ rest

  -- `_protected_terms`
  unfoldable pub protected_terms : List (Match F) → List Text
  unfolding sorted_set
  protected_terms ms =
      sorted_set (map (λ m. m.term.canonical) (select (λ m. is_replaced m.action) ms))

  -- `correct`
  unfoldable pub correct : TermDictionary F → Text → RuleResult F
  unfolding collect_matches render_from unmatched_of protected_terms
  correct d text =
      let ms = collect_matches d text in
      record {
        corrected_text = render_from text 0 ms;
        correction_logs = ms;
        protected = protected_terms ms;
        unmatched_candidates = unmatched_of ms;
      }
