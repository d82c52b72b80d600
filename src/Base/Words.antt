-- ===== src/Base/Words.antt =====
-- Text as the list of its code points, as a Python `str` is.
use Prim.Native.Char.{code}
use Prim.Native.String.{String}
use Prim.Native.Nat.{ℕ, zero, suc, ◌+◌, ◌-◌, ◌/◌, ◌%◌}
use mathlib.Core.Path.{◌≡◌, refl}
use mathlib.Core.Bool.{Bool, true, false, ◌&&◌}
use mathlib.Core.List.{List, [], ◌∷◌, ◌++◌}
use native.Mathlib.Omega.{arith}
use onramp_stt_api.Base.Tests.{◌==◌, if◌then◌else◌, ltb}
use onramp_stt_api.Base.Lists.{length}

abbrev pub Text : Type 0
Text = List ℕ

abbrev pub codes : String → Text
codes String.[] = []
codes (String.◌∷◌ c s) = code c ∷ codes s

unfoldable pub eq_text : Text → Text → Bool
eq_text [] [] = true
eq_text (a ∷ as') (b ∷ bs) = a == b && eq_text as' bs
eq_text _ _ = false

pub eq_text_refl : (s : Text) → eq_text s s ≡ true
unfolding eq_text
eq_text_refl [] = refl
eq_text_refl (a ∷ s) = ground (arith, eq_text_refl s)

pub eq_text_sound : (s t : Text) → eq_text s t ≡ true → s ≡ t
unfolding eq_text
eq_text_sound [] [] h = refl
eq_text_sound [] (b ∷ t) h = cc
eq_text_sound (a ∷ s) [] h = cc
eq_text_sound (a ∷ s) (b ∷ t) h = ground (arith, eq_text_sound s t)

-- `str(n)` for n ≥ 0: the digits of `n`, the fuel bounding their number.
unfoldable pub digits : ℕ → ℕ → Text → Text
digits zero n acc = acc
digits (suc f) n acc =
    let rest = digits f (n / 10) ((b'0' + n % 10) ∷ acc) in
    if ltb n 10 then (b'0' + n) ∷ acc else rest

unfoldable pub str_int : ℕ → Text
unfolding digits
str_int n = digits (suc n) n []

unfoldable pub zeros : ℕ → Text
zeros zero = []
zeros (suc n) = b'0' ∷ zeros n

-- `f"{n:0wd}"`
unfoldable pub zero_padded : ℕ → ℕ → Text
unfolding str_int zeros
zero_padded w n = let s = str_int n in zeros (w - length s) ++ s

unfoldable pub format_04d : ℕ → Text
unfolding zero_padded
format_04d n = zero_padded 4 n

format_04d_test : format_04d 37 ≡ codes "0037"
unfolding format_04d
format_04d_test = refl
