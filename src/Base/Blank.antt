-- ===== src/Base/Blank.antt =====
-- Blank texts: `strip` leaves nothing of them, and it leaves something of all others.
use mathlib.Core.Path.{◌≡◌, refl, sym, ap, ◌∙◌}
use mathlib.Core.Bool.{Bool, not}
use mathlib.Core.List.{[], ◌∷◌, reverse, reverse-cons}
use native.Mathlib.Omega.{arith}
use onramp_stt_api.Base.Tests.{◌==◌}
use onramp_stt_api.Base.Lists.{length, length-append, any, any-append}
use onramp_stt_api.Base.Words.{Text}
use onramp_stt_api.Base.Strings.{is_space, lstrip, strip}

-- a character that is no space
abbrev has_ink : Text → Bool
has_ink = any (λ c. not (is_space c))

has_ink-reverse : (s : Text) → has_ink (reverse s) ≡ has_ink s
has_ink-reverse [] = refl
has_ink-reverse (c ∷ s) =
    rw (reverse-cons c s)
      (ground (arith, any-append (λ c. not (is_space c)) (reverse s) (c ∷ []), has_ink-reverse s))

has_ink-lstrip : (s : Text) → has_ink (lstrip s) ≡ has_ink s
unfolding lstrip
has_ink-lstrip [] = refl
has_ink-lstrip (c ∷ s) = ground (arith, has_ink-lstrip s)

empty-lstrip : (s : Text) → (length (lstrip s) == 0) ≡ not (has_ink s)
unfolding lstrip
empty-lstrip [] = refl
empty-lstrip (c ∷ s) = ground (arith, empty-lstrip s)

empty-reverse : (s : Text) → (length (reverse s) == 0) ≡ (length s == 0)
empty-reverse [] = refl
empty-reverse (c ∷ s) = rw (reverse-cons c s) (ground (arith, length-append (reverse s) (c ∷ [])))

empty-strip : (s : Text) → (length (strip s) == 0) ≡ not (has_ink s)
unfolding strip
empty-strip s =
    empty-reverse (lstrip (reverse (lstrip s)))
    ∙ empty-lstrip (reverse (lstrip s))
    ∙ ap not (has_ink-reverse (lstrip s) ∙ has_ink-lstrip s)

has_ink-strip : (s : Text) → has_ink (strip s) ≡ has_ink s
unfolding strip
has_ink-strip s =
    has_ink-reverse (lstrip (reverse (lstrip s)))
    ∙ has_ink-lstrip (reverse (lstrip s))
    ∙ has_ink-reverse (lstrip s)
    ∙ has_ink-lstrip s

-- A text that was stripped is blank only if it is empty.
pub empty-strip-strip : (s : Text) → (length (strip (strip s)) == 0) ≡ (length (strip s) == 0)
empty-strip-strip s = empty-strip (strip s) ∙ ap not (has_ink-strip s) ∙ sym (empty-strip s)
