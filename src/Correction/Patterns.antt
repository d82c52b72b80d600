-- ===== src/Correction/Patterns.antt =====
-- The patterns of app/correction/rule_based_corrector.py: a phrase, and where it is found in a text.
use onramp_stt_api.Base.{
  ℕ, zero, suc, ◌+◌, ◌-◌, Bool, true, false, not, ◌&&◌, ◌||◌, Option, none, some, List, [], ◌∷◌,
  Text, Unicode, any, length, drop, leb, ◌==◌, if◌then◌else◌,
}

-- `[A-Za-z0-9]`
unfoldable pub is_alnum : ℕ → Bool
is_alnum c = (leb b'0' c && leb c b'9') || (leb b'A' c && leb c b'Z') || (leb b'a' c && leb c b'z')

-- `[A-Za-z0-9_-]` under IGNORECASE, when it has the dotted I, the dotless i, the long s and the
-- Kelvin sign as well
unfoldable pub is_joined : ℕ → Bool
unfolding is_alnum
is_joined c =
    is_alnum c || c == b'_' || c == b'-' || c == 0x130 || c == 0x131 || c == 0x17f || c == 0x212a

-- A compiled pattern: the phrase, and whether it has a letter or digit: then case is ignored and the
-- phrase has to stand alone.
pub record Pattern : Type 0 where
  pub phrase : Text
  pub alone : Bool

unfoldable pub compile_phrase_pattern : Text → Pattern
unfolding is_alnum
compile_phrase_pattern p = record { phrase = p; alone = any is_alnum p }

module _ ⦃u : Unicode⦄ where
  -- the phrase at the head of a text
  unfoldable pub phrase_at : Bool → Text → Text → Bool
  phrase_at alone [] s = true
  phrase_at alone (c ∷ p) [] = false
  phrase_at alone (c ∷ p) (d ∷ s) =
      (if alone then u.same_letter c d else c == d) && phrase_at alone p s

  -- `(?<![A-Za-z0-9_-])` and `(?![A-Za-z0-9_-])`
  abbrev pub free_before : Option ℕ → Bool
  free_before none = true
  free_before (some c) = not (is_joined c)

  abbrev pub free_after : Text → Bool
  free_after [] = true
  free_after (c ∷ s) = not (is_joined c)

  unfoldable pub hits : Pattern → Option ℕ → Text → Bool
  unfolding phrase_at is_joined
  hits p before s =
      phrase_at p.alone p.phrase s
      && (not p.alone || (free_before before && free_after (drop (length p.phrase) s)))

  -- `pattern.finditer(text)`: the starts, from the left; `skip` is what is left of the last match.
  unfoldable pub find_from : Pattern → ℕ → Option ℕ → ℕ → Text → List ℕ
  unfolding hits
  find_from p skip before i [] = []
  find_from p zero before i (c ∷ s) =
      let found = i ∷ find_from p (length p.phrase - 1) (some c) (i + 1) s in
      let onward = find_from p zero (some c) (i + 1) s in
      if hits p before (c ∷ s) then found else onward
  find_from p (suc skip) before i (c ∷ s) = find_from p skip (some c) (i + 1) s
