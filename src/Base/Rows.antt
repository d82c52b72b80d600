-- ===== src/Base/Rows.antt =====
-- A table as a list of rows: the row that a `WHERE` clause on a unique key finds, and the write
-- that a session makes to that row at its commit.
use Prim.Native.Nat.{◌+◌, ◌≤◌}
use mathlib.Core.Path.{◌≡◌, refl}
use mathlib.Core.Bool.{Bool, true, false}
use mathlib.Core.List.{List, [], ◌∷◌, ◌++◌}
use mathlib.Core.Option.{Option, none, some}
use native.Mathlib.Omega.{arith}
use onramp_stt_api.Base.Tests.{if◌then◌else◌}
use onramp_stt_api.Base.Lists.{b_to_n, count, count_mono}

module _ {ℓ} {R : Type ℓ} where
  unfoldable pub find_row : (R → Bool) → List R → Option R
  find_row p [] = none
  find_row p (r ∷ rs) = if p r then some r else find_row p rs

  unfoldable pub write_row : (R → Bool) → R → List R → List R
  write_row p r' [] = []
  write_row p r' (r ∷ rs) = if p r then r' ∷ rs else r ∷ write_row p r' rs

  pub find_row-holds : (p : R → Bool) (rs : List R) {r : R} → find_row p rs ≡ some r → p r ≡ true
  unfolding find_row
  find_row-holds p [] h = cc
  find_row-holds p (x ∷ rs) {r} h = ground (arith, find_row-holds p rs {r = r})

  pub find_row-write_row :
      (p : R → Bool) (r' : R) (rs : List R) {r : R}
      → find_row p rs ≡ some r
      → p r' ≡ true
      → find_row p (write_row p r' rs) ≡ some r'
  unfolding find_row write_row
  find_row-write_row p r' [] h k = cc
  find_row-write_row p r' (x ∷ rs) {r} h k = ground (arith, find_row-write_row p r' rs {r = r})

  -- A search that neither the old nor the new row meets is not disturbed.
  pub find_row-write_row_ne :
      (p q : R → Bool) (r' : R) (rs : List R) {r : R}
      → find_row p rs ≡ some r
      → q r ≡ false
      → q r' ≡ false
      → find_row q (write_row p r' rs) ≡ find_row q rs
  unfolding find_row write_row
  find_row-write_row_ne p q r' [] h a b = cc
  find_row-write_row_ne p q r' (x ∷ rs) {r} h a b =
      ground (arith, find_row-write_row_ne p q r' rs {r = r})

  -- One row changes: the counts differ by what that row says.
  pub count-write_row :
      (p q : R → Bool) (r' : R) (rs : List R) {r : R}
      → find_row p rs ≡ some r
      → count q (write_row p r' rs) + b_to_n (q r) ≡ count q rs + b_to_n (q r')
  unfolding find_row write_row count
  count-write_row p q r' [] h = cc
  count-write_row p q r' (x ∷ rs) {r} h = ground (arith, count-write_row p q r' rs {r = r})

  -- A new row at the end of the table does not hide one that was there.
  pub find_row-append_found :
      (p : R → Bool) (rs ss : List R) {r : R}
      → find_row p rs ≡ some r
      → find_row p (rs ++ ss) ≡ some r
  unfolding find_row
  find_row-append_found p [] ss h = cc
  find_row-append_found p (x ∷ rs) ss {r} h = ground (arith, find_row-append_found p rs ss {r = r})

  pub find_row-append_none :
      (p : R → Bool) (rs ss : List R) → find_row p rs ≡ none → find_row p (rs ++ ss) ≡ find_row p ss
  unfolding find_row
  find_row-append_none p [] ss h = refl
  find_row-append_none p (r ∷ rs) ss h = ground (arith, find_row-append_none p rs ss)

  pub write_row_same :
      (p : R → Bool) (rs : List R) {r : R} → find_row p rs ≡ some r → write_row p r rs ≡ rs
  unfolding find_row write_row
  write_row_same p [] h = cc
  write_row_same p (x ∷ rs) {r} h = ground (arith, write_row_same p rs {r = r})

  -- A test that fails on one more row, the one that a search finds, counts one less.
  pub count_drop :
      (p p' q : R → Bool) (rs : List R) {r : R}
      → ((x : R) → b_to_n (p' x) ≤ b_to_n (p x))
      → find_row q rs ≡ some r
      → p' r ≡ false
      → count p' rs + b_to_n (p r) ≤ count p rs
  unfolding find_row count
  count_drop p p' q [] weaker h f = cc
  count_drop p p' q (x ∷ rs) {r} weaker h f =
      ground (arith, weaker x, count_drop p p' q rs {r = r} weaker, count_mono p' p rs weaker)
