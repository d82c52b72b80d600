-- ===== src/Base/Decimal.antt =====
-- Reading a number: `str.isdigit` and `int`, and that what `str` and the formats print is read back.
use Prim.Native.Nat.{ℕ, zero, suc, ◌+◌, ◌-◌, ◌*◌, ◌/◌, ◌%◌, ◌<◌}
use mathlib.Core.Path.{◌≡◌, refl, ◌∙◌}
use mathlib.Core.Logic.{inl, inr}
use mathlib.Core.Bool.{Bool, true, not, ◌&&◌}
use mathlib.Core.Option.{Option, none, some}
use mathlib.Core.List.{[], ◌∷◌, ◌++◌}
use native.Mathlib.Omega.{arith}
use onramp_stt_api.Base.Tests.{◌==◌, if◌then◌else◌, ltb, leb, Bool-cases}
use onramp_stt_api.Base.Lists.{All, length, length-append}
use onramp_stt_api.Base.Words.{Text, digits, str_int, zeros, zero_padded}

-- The tables of Unicode for digits: `str.isdigit` has more of them than those with a decimal value,
-- which `int` reads.
pub record Digits : Type 0 where
  pub is_digit : ℕ → Bool
  pub decimal : ℕ → Option ℕ
  pub ascii_only : (c : ℕ) → c < 128 → is_digit c ≡ true → (k : ℕ) × k < 10 × c ≡ b'0' + k
  pub ascii_digit : (k : ℕ) → k < 10 → is_digit (b'0' + k) ≡ true
  pub ascii_decimal : (k : ℕ) → k < 10 → decimal (b'0' + k) ≡ some k

-- `str.isdigit`: there are characters, and all are digits.
unfoldable pub all_digits : ⦃g : Digits⦄ → Text → Bool
all_digits [] = true
all_digits ⦃g⦄ (c ∷ s) = g.is_digit c && all_digits s

unfoldable pub isdigit : ⦃g : Digits⦄ → Text → Bool
unfolding all_digits
isdigit s = not (length s == 0) && all_digits s

-- `int(s)` of a text of digits, from the value so far; `none` is a `ValueError`.
unfoldable pub read_from : ⦃g : Digits⦄ → ℕ → Text → Option ℕ
read_from n [] = some n
read_from ⦃g⦄ n (c ∷ s) = elim (g.decimal c) [ none ↦ none | some k ↦ read_from (n * 10 + k) s ]

-- No more than 4300 digits are read.
unfoldable pub int : ⦃g : Digits⦄ → Text → Option ℕ
unfolding read_from
int s = if ltb 4300 (length s) then none else read_from 0 s

module _ ⦃g : Digits⦄ where
  read_from-next :
      (n k : ℕ) (s : Text) → k < 10 → read_from n ((b'0' + k) ∷ s) ≡ read_from (n * 10 + k) s
  unfolding read_from
  read_from-next n k s h = rw (read_from, g.ascii_decimal k h) refl

  read_from-digits : (f n : ℕ) (acc : Text) → n < f → read_from 0 (digits f n acc) ≡ read_from n acc
  unfolding read_from digits
  read_from-digits zero n acc h = absurd (omega arith)
  read_from-digits (suc f) n acc h = elim (Bool-cases (ltb n 10)) [
    | inl low ↦
        let e : 0 * 10 + n ≡ n = omega arith in
        rw (low, read_from-next 0 n acc (ground arith), e) refl
    | inr high ↦
        let e : n / 10 * 10 + n % 10 ≡ n = omega arith in
        rw high (
          read_from-digits f (n / 10) ((b'0' + n % 10) ∷ acc) (ground arith)
          ∙ rw e at (read_from-next (n / 10) (n % 10) acc (omega arith)))
  ]

  read_from-zeros : (k : ℕ) (s : Text) → read_from 0 (zeros k ++ s) ≡ read_from 0 s
  unfolding read_from zeros
  read_from-zeros zero s = refl
  read_from-zeros (suc k) s = read_from-next 0 0 (zeros k ++ s) (omega arith) ∙ read_from-zeros k s

  -- What a format prints is read back.
  pub read_from-zero_padded : (w n : ℕ) → read_from 0 (zero_padded w n) ≡ some n
  unfolding zero_padded str_int read_from
  read_from-zero_padded w n =
      read_from-zeros (w - length (str_int n)) (str_int n)
      ∙ read_from-digits (suc n) n [] (omega arith)

  all_digits-digits :
      (f n : ℕ) (acc : Text) → all_digits acc ≡ true → all_digits (digits f n acc) ≡ true
  unfolding all_digits digits
  all_digits-digits zero n acc h = h
  all_digits-digits (suc f) n acc h = elim (Bool-cases (ltb n 10)) [
    | inl low ↦ rw (low, g.ascii_digit n (ground arith)) h
    | inr high ↦ rw high (
        all_digits-digits f (n / 10) ((b'0' + n % 10) ∷ acc)
          (rw (g.ascii_digit (n % 10) (omega arith)) h))
  ]

  all_digits-zeros : (k : ℕ) (s : Text) → all_digits s ≡ true → all_digits (zeros k ++ s) ≡ true
  unfolding all_digits zeros
  all_digits-zeros zero s h = h
  all_digits-zeros (suc k) s h = rw (g.ascii_digit 0 (omega arith)) (all_digits-zeros k s h)

  digits-not_empty : (f n : ℕ) (acc : Text) → 0 < length acc → 0 < length (digits f n acc)
  unfolding digits
  digits-not_empty zero n acc h = h
  digits-not_empty (suc f) n acc h =
      ground (arith, digits-not_empty f (n / 10) ((b'0' + n % 10) ∷ acc))

  pub isdigit-zero_padded : (w n : ℕ) → isdigit (zero_padded w n) ≡ true
  unfolding isdigit zero_padded str_int
  isdigit-zero_padded w n =
      let s = str_int n in
      let some_left = digits-not_empty n (n / 10) ((b'0' + n % 10) ∷ []) (omega arith) in
      let full : 0 < length (str_int n) = ground arith in
      let all = all_digits-zeros (w - length s) s (all_digits-digits (suc n) n [] refl) in
      let long : 0 < length (zeros (w - length s) ++ s) =
        omega (arith, length-append (zeros (w - length s)) s) in
      ground arith

  -- Digits that are ASCII are read.
  pub read_from-ascii :
      (n : ℕ) (s : Text)
      → All (λ c. c < 128) s
      → all_digits s ≡ true
      → (v : ℕ) × read_from n s ≡ some v
  unfolding read_from all_digits
  read_from-ascii n [] a h = (n, refl)
  read_from-ascii n (c ∷ s) (low, a) h =
      let (k, small, e) = g.ascii_only c low (ground arith) in
      let (v, rest) = read_from-ascii (n * 10 + k) s a (ground arith) in
      (v, rw e (read_from-next n k s small ∙ rest))

-- The digits of ASCII alone meet the interface: the instance of the witnesses and tests.
abbrev pub ascii_is_digit : ℕ → Bool
ascii_is_digit c = leb b'0' c && leb c b'9'

abbrev pub ascii_value : ℕ → Option ℕ
ascii_value c = if ascii_is_digit c then some (c - b'0') else none

pub ascii_only_lem : (c : ℕ) → c < 128 → ascii_is_digit c ≡ true → (k : ℕ) × k < 10 × c ≡ b'0' + k
ascii_only_lem c low h = (c - b'0', ground arith, ground arith)

pub ascii_digit_lem : (k : ℕ) → k < 10 → ascii_is_digit (b'0' + k) ≡ true
ascii_digit_lem k h = ground arith

pub ascii_decimal_lem : (k : ℕ) → k < 10 → ascii_value (b'0' + k) ≡ some k
ascii_decimal_lem k h =
    let e : b'0' + k - b'0' ≡ k = omega arith in rw (ascii_digit_lem k h, e) refl

abbrev pub ascii_digits : Digits
ascii_digits = record {
  is_digit = ascii_is_digit;
  decimal = ascii_value;
  ascii_only = ascii_only_lem;
  ascii_digit = ascii_digit_lem;
  ascii_decimal = ascii_decimal_lem;
}
