-- ===== src/Float.antt =====
-- Python's `float`, as the operations that the program uses and the facts about IEEE doubles that
-- the proofs rely on. Times, ratios and confidences are finite: NaN is outside the model.
use onramp_stt_api.Base.{
  ℕ, ◌+◌, ◌-◌, ◌*◌, ◌/◌, ◌≡◌, Bool, true, not, ◌⊎◌, arith, leb, if◌then◌else◌,
}

pub record Float (F : Type 0) : Type 0 where
  -- `float(n)` and the true division `m / n` of two ints, `n ≠ 0`
  pub of_int : ℕ → F
  pub quot : ℕ → ℕ → F
  pub add : F → F → F
  pub sub : F → F → F
  pub mul : F → F → F
  pub le : F → F → Bool
  -- `timedelta(seconds=x)` in whole microseconds, for x ≥ 0
  pub micros : F → ℕ
  pub le_refl : (a : F) → le a a ≡ true
  pub le_trans : (a b c : F) → le a b ≡ true → le b c ≡ true → le a c ≡ true
  pub le_total : (a b : F) → (le a b ≡ true) ⊎ (le b a ≡ true)
  -- a difference of two ordered numbers is not negative, and adding it moves no number down
  pub sub_nonneg : (a b : F) → le a b ≡ true → le (of_int 0) (sub b a) ≡ true
  pub add_nonneg : (a b : F) → le (of_int 0) b ≡ true → le a (add a b) ≡ true

module _ {F : Type 0} ⦃fl : Float F⦄ where
  -- `a < b`
  abbrev pub flt : F → F → Bool
  flt a b = not (fl.le b a)

  -- `min(a, b)`: the first unless the second is smaller
  unfoldable pub fmin : F → F → F
  fmin a b = if flt b a then b else a

  pub fmin-le_right : (a b : F) → fl.le (fmin a b) b ≡ true
  unfolding fmin
  fmin-le_right a b = ground (arith, fl.le_refl b, fl.le_total a b)

  pub fmin-le_left : (a b : F) → fl.le (fmin a b) a ≡ true
  unfolding fmin
  fmin-le_left a b = ground (arith, fl.le_refl a, fl.le_total a b)

  pub le-fmin : (c a b : F) → fl.le c a ≡ true → fl.le c b ≡ true → fl.le c (fmin a b) ≡ true
  unfolding fmin
  le-fmin c a b h k = ground arith

-- Whole microseconds meet the interface: the instance of the witnesses and tests.
pub sub_ticks_nonneg : (a b : ℕ) → leb a b ≡ true → leb 0 (b - a) ≡ true
sub_ticks_nonneg a b h = ground arith

pub add_ticks_nonneg : (a b : ℕ) → leb 0 b ≡ true → leb a (a + b) ≡ true
add_ticks_nonneg a b h = ground arith

pub leb_refl : (a : ℕ) → leb a a ≡ true
leb_refl a = ground arith

pub leb_trans : (a b c : ℕ) → leb a b ≡ true → leb b c ≡ true → leb a c ≡ true
leb_trans a b c h k = ground arith

pub leb_total : (a b : ℕ) → (leb a b ≡ true) ⊎ (leb b a ≡ true)
leb_total a b = ground arith

abbrev pub ticks : Float ℕ
ticks = record {
  of_int = λ n. n * 1_000_000;
  quot = λ m n. m * 1_000_000 / n;
  add = λ a b. a + b;
  sub = λ a b. a - b;
  mul = λ a b. a * b / 1_000_000;
  le = leb;
  micros = λ a. a;
  le_refl = leb_refl;
  le_trans = leb_trans;
  le_total = leb_total;
  sub_nonneg = sub_ticks_nonneg;
  add_nonneg = add_ticks_nonneg;
}
