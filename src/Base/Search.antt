-- ===== src/Base/Search.antt =====
-- Searching and cutting texts, as the methods of Python's `str` do: `in`, slices, `splitlines`,
-- the order of code points.
use Prim.Native.Nat.{ℕ, zero, suc, ◌+◌, ◌-◌, ◌≤◌}
use mathlib.Core.Path.{◌≡◌, refl, sym, ap, ◌∙◌}
use mathlib.Core.Bool.{Bool, true, false, ◌&&◌, ◌||◌}
use mathlib.Core.List.{List, [], ◌∷◌, ◌++◌, map}
use native.Mathlib.Omega.{arith}
use onramp_stt_api.Base.Tests.{◌==◌, leb, ltb, if◌then◌else◌}
use onramp_stt_api.Base.Lists.{take, drop}
use onramp_stt_api.Base.Words.{Text}

unfoldable pub is_prefix : Text → Text → Bool
is_prefix [] s = true
is_prefix (c ∷ t) [] = false
is_prefix (c ∷ t) (d ∷ s) = c == d && is_prefix t s

-- `term in text`
unfoldable pub contains : Text → Text → Bool
unfolding is_prefix
contains [] term = is_prefix term []
contains (c ∷ s) term = let rest = contains s term in is_prefix term (c ∷ s) || rest

-- `a < b` on texts
unfoldable pub text_lt : Text → Text → Bool
text_lt s [] = false
text_lt [] (d ∷ t) = true
text_lt (c ∷ s) (d ∷ t) = let rest = text_lt s t in if ltb c d then true else c == d && rest

-- `text[start:end]`, for start and end that are not negative
abbrev pub slice : ℕ → ℕ → Text → Text
slice start end s = take (end - start) (drop start s)

-- a line break for `str.splitlines`
unfoldable pub is_break : ℕ → Bool
is_break c =
    (leb 0xa c && leb c 0xd)
    || (leb 0x1c c && leb c 0x1e)
    || c == 0x85
    || c == 0x2028
    || c == 0x2029

-- The lines of a text after a beginning of a line, each with its break.
unfoldable pub lines_from : Text → Text → List (Text × Text)
unfolding is_break
lines_from [] [] = []
lines_from (b ∷ line) [] = (b ∷ line, []) ∷ []
lines_from line (c ∷ []) = if is_break c then (line, c ∷ []) ∷ [] else (line ++ c ∷ [], []) ∷ []
lines_from line (c ∷ d ∷ s) =
    let joined = (line, c ∷ d ∷ []) ∷ lines_from [] s in
    let ended = (line, c ∷ []) ∷ lines_from [] (d ∷ s) in
    let inside = lines_from (line ++ c ∷ []) (d ∷ s) in
    if c == 0xd && d == 0xa then joined else if is_break c then ended else inside

-- `text.splitlines()`, and with `keepends=True`
unfoldable pub splitlines : Text → List Text
unfolding lines_from
splitlines s = map (λ l. l.0) (lines_from [] s)

unfoldable pub splitlines_keepends : Text → List Text
unfolding lines_from
splitlines_keepends s = map (λ l. l.0 ++ l.1) (lines_from [] s)

zero_plus : (n : ℕ) → zero + n ≡ n
zero_plus n = omega arith

suc_plus : (m n : ℕ) → suc m + n ≡ suc (m + n)
suc_plus m n = omega arith

pub take-drop {ℓ} : {A : Type ℓ} (n : ℕ) (xs : List A) → take n xs ++ drop n xs ≡ xs
take-drop zero xs = refl
take-drop (suc n) [] = refl
take-drop (suc n) (x ∷ xs) = ap (λ ys. x ∷ ys) (take-drop n xs)

pub drop-nil {ℓ} : {A : Type ℓ} (n : ℕ) → let e : List A = [] in drop n e ≡ e
drop-nil zero = refl
drop-nil (suc n) = refl

pub drop-drop {ℓ} : {A : Type ℓ} (n m : ℕ) (xs : List A) → drop n (drop m xs) ≡ drop (m + n) xs
drop-drop n zero xs = rw (zero_plus n) refl
drop-drop n (suc m) [] = drop-nil n ∙ sym (drop-nil (suc m + n))
drop-drop n (suc m) (x ∷ xs) = rw (suc_plus m n) (drop-drop n m xs)

-- From one cut to the next, and on.
pub slice-drop :
    (start end : ℕ) (s : Text) → start ≤ end → slice start end s ++ drop end s ≡ drop start s
slice-drop start end s h =
    let e : start + (end - start) ≡ end = omega arith in
    ap (λ t. slice start end s ++ t) (sym (rw e at (drop-drop (end - start) start s)))
    ∙ take-drop (end - start) (drop start s)

is_prefix-append : (t s : Text) → is_prefix t (t ++ s) ≡ true
unfolding is_prefix
is_prefix-append [] s = refl
is_prefix-append (c ∷ t) s = ground (arith, is_prefix-append t s)

pub contains-prefix : (t s : Text) → is_prefix t s ≡ true → contains s t ≡ true
unfolding contains
contains-prefix t [] h = h
contains-prefix t (c ∷ s) h = rw h refl

pub contains-append_right : (a s t : Text) → contains s t ≡ true → contains (a ++ s) t ≡ true
unfolding contains
contains-append_right [] s t h = h
contains-append_right (c ∷ a) s t h = ground (arith, contains-append_right a s t h)

-- A text stands in what it is put into.
pub contains-middle : (a t s : Text) → contains (a ++ (t ++ s)) t ≡ true
contains-middle a t s =
    contains-append_right a (t ++ s) t (contains-prefix t (t ++ s) (is_prefix-append t s))
