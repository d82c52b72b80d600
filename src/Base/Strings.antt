-- ===== src/Base/Strings.antt =====
-- The methods of Python's `str` that the program uses, on code points.
use Prim.Native.Nat.{ℕ}
use mathlib.Core.Bool.{Bool, ◌&&◌, ◌||◌}
use mathlib.Core.List.{List, [], ◌∷◌, ◌++◌, reverse}
use mathlib.Core.Path.{◌≡◌, refl}
use onramp_stt_api.Base.Tests.{◌==◌, leb, if◌then◌else◌}
use onramp_stt_api.Base.Words.{Text, codes}

-- What depends on Unicode's tables: `\w` without the underscore, `str.casefold`, `str.lower`, and
-- whether two characters match under `re.IGNORECASE`.
pub record Unicode : Type 0 where
  pub is_word : ℕ → Bool
  pub casefold : Text → Text
  pub lower : Text → Text
  pub same_letter : ℕ → ℕ → Bool

-- `str.isspace` of one character
unfoldable pub is_space : ℕ → Bool
is_space c =
    (leb 0x9 c && leb c 0xd)
    || (leb 0x1c c && leb c 0x20)
    || c == 0x85
    || c == 0xa0
    || c == 0x1680
    || (leb 0x2000 c && leb c 0x200a)
    || c == 0x2028
    || c == 0x2029
    || c == 0x202f
    || c == 0x205f
    || c == 0x3000

unfoldable pub lstrip : Text → Text
unfolding is_space
lstrip [] = []
lstrip (c ∷ s) = let rest = lstrip s in if is_space c then rest else c ∷ s

-- `str.strip()`
unfoldable pub strip : Text → Text
unfolding lstrip
strip s = reverse (lstrip (reverse (lstrip s)))

-- `sep.join(parts)`
unfoldable pub join : Text → List Text → Text
join sep [] = []
join sep (p ∷ []) = p
join sep (p ∷ q ∷ ps) = p ++ sep ++ join sep (q ∷ ps)

strip_test : strip (codes "  a b ") ≡ codes "a b"
unfolding strip
strip_test = refl
