-- ===== src/Outbox/Batch.antt =====
-- The rows that `publish_once` of app/queue/outbox.py selects.
use onramp_stt_api.Base.{
  ℕ, zero, suc, ◌≤◌, ◌≡◌, refl, Bool, true, false, ◌||◌, sym, ap, ◌∙◌, none, List, [], ◌∷◌, map,
  Text, leb, select, take, any, length, All, Bool-cases, Option-cases, inl, inr, arith,
}
use onramp_stt_api.Db.{Store, EventOutbox}
use onramp_stt_api.Outbox.{is_due, insert_by_age, oldest_first, batch}

module _ {A : Type 0} (P : A → Type 0) where
  All-take : (n : ℕ) (xs : List A) → All P xs → All P (take n xs)
  All-take zero xs a = tt
  All-take (suc n) [] a = tt
  All-take (suc n) (x ∷ xs) (p, a) = (p, All-take n xs a)

  All-select :
      (Q : A → Type 0) (p : A → Bool) (xs : List A)
      → All Q xs
      → ((x : A) → p x ≡ true → Q x → P x)
      → All P (select p xs)
  All-select Q p [] a h = tt
  All-select Q p (x ∷ xs) (q, a) h = elim (Bool-cases (p x)) [
    | inl due ↦ rw due (h x due q, All-select Q p xs a h)
    | inr other ↦ rw other (All-select Q p xs a h)
  ]

  pub All-map : (f : A → A) (xs : List A) → ((x : A) → P (f x)) → All P (map f xs)
  All-map f [] h = tt
  All-map f (x ∷ xs) h = (h x, All-map f xs h)

take-length : {A : Type 0} (n : ℕ) (xs : List A) → length (take n xs) ≤ n
take-length zero xs = omega arith
take-length (suc n) [] = omega arith
take-length (suc n) (x ∷ xs) = omega (arith, take-length n xs)

pub select-length : {A : Type 0} (p : A → Bool) (xs : List A) → length (select p xs) ≤ length xs
select-length p [] = omega arith
select-length p (x ∷ xs) = ground (arith, select-length p xs)

module _ {F : Type 0} where
  -- What the query asks of a row.
  abbrev pub IsDue : ℕ → (Text → Bool) → EventOutbox F → Type 0
  IsDue now locked o = (o.published_at ≡ none) × o.available_at ≤ now × (locked o.id ≡ false)

  is_due-IsDue :
      (now : ℕ) (locked : Text → Bool) (o : EventOutbox F)
      → is_due now locked o ≡ true
      → IsDue now locked o
  unfolding is_due
  is_due-IsDue now locked o h = elim (Option-cases o.published_at) [
    | inl unsent ↦ (unsent, ground arith, ground arith)
    | inr (t, sent) ↦ let k = rw sent at h in cc
  ]

  All-insert :
      (P : EventOutbox F → Type 0) (o : EventOutbox F) (os : List (EventOutbox F))
      → P o
      → All P os
      → All P (insert_by_age o os)
  unfolding insert_by_age
  All-insert P o [] p a = (p, a)
  All-insert P o (x ∷ os) p (q, a) = elim (Bool-cases (leb o.created_at x.created_at)) [
    | inl older ↦ rw older (p, (q, a))
    | inr newer ↦ rw newer (q, All-insert P o os p a)
  ]

  All-oldest_first :
      (P : EventOutbox F → Type 0) (os : List (EventOutbox F)) → All P os → All P (oldest_first os)
  unfolding oldest_first
  All-oldest_first P [] a = tt
  All-oldest_first P (o ∷ os) (p, a) = All-insert P o (oldest_first os) p (All-oldest_first P os a)

  pub All-batch :
      (P Q : EventOutbox F → Type 0) (now : ℕ) (locked : Text → Bool) (size : ℕ) (s : Store F)
      → All Q s.outbox
      → ((o : EventOutbox F) → IsDue now locked o → Q o → P o)
      → All P (batch now locked size s)
  unfolding batch
  All-batch P Q now locked size s a h = All-take P size _ (
      All-oldest_first P _ (
        All-select P Q (is_due now locked) s.outbox a
          (λ o d q. h o (is_due-IsDue now locked o d) q)))

  pub batch-length :
      (now : ℕ) (locked : Text → Bool) (size : ℕ) (s : Store F)
      → length (batch now locked size s) ≤ size
  unfolding batch
  batch-length now locked size s =
      take-length size (oldest_first (select (is_due now locked) s.outbox))

  pub All-Unit : (os : List (EventOutbox F)) → All (λ o. Unit {0}) os
  All-Unit [] = tt
  All-Unit (o ∷ os) = (tt, All-Unit os)

  any-take :
      (p : EventOutbox F → Bool) (n : ℕ) (os : List (EventOutbox F))
      → any p (take n os) ≡ true
      → any p os ≡ true
  any-take p zero os h = cc
  any-take p (suc n) [] h = h
  any-take p (suc n) (o ∷ os) h = ground (arith, any-take p n os)

  any-insert :
      (p : EventOutbox F → Bool) (o : EventOutbox F) (os : List (EventOutbox F))
      → any p (insert_by_age o os) ≡ (p o || any p os)
  unfolding insert_by_age
  any-insert p o [] = refl
  any-insert p o (x ∷ os) = ground (arith, any-insert p o os)

  any-oldest_first :
      (p : EventOutbox F → Bool) (os : List (EventOutbox F)) → any p (oldest_first os) ≡ any p os
  unfolding oldest_first
  any-oldest_first p [] = refl
  any-oldest_first p (o ∷ os) =
      any-insert p o (oldest_first os) ∙ ap (λ b. p o || b) (any-oldest_first p os)

  any-select :
      (p q : EventOutbox F → Bool) (os : List (EventOutbox F))
      → any p (select q os) ≡ true
      → any p os ≡ true
  any-select p q [] h = h
  any-select p q (o ∷ os) h = ground (arith, any-select p q os)

  pub any-batch :
      (p : EventOutbox F → Bool) (now : ℕ) (locked : Text → Bool) (size : ℕ) (s : Store F)
      → any p (batch now locked size s) ≡ true
      → any p s.outbox ≡ true
  unfolding batch
  any-batch p now locked size s h =
      let due = select (is_due now locked) s.outbox in
      any-select p (is_due now locked) s.outbox
        (sym (any-oldest_first p due) ∙ any-take p size (oldest_first due) h)
