-- ===== src/Outbox/Later.antt =====
-- What becomes of the outbox once app/queue/outbox.py has marked rows of it as published.
use mathlib.Core.Path.{subst}
use onramp_stt_api.Base.{
  ℕ, ◌≡◌, refl, sym, ap, ◌∙◌, Bool, true, false, ◌&&◌, Option, none, some, List, [], ◌∷◌, ◌++◌, map,
  Text, is_none, any, any-append, eq_text, All, if◌then◌else◌, Bool-cases, inl, inr, arith,
}
use onramp_stt_api.Errors.{Error, ok}
use onramp_stt_api.Db.{Store, EventOutbox}
use onramp_stt_api.Db.Session.{is_event, add_outbox}
use onramp_stt_api.Outbox.{batch, after_xadd, mark_batch, publish_once}

module _ {F : Type 0} where
  -- The second store comes after the first: services have added events under new ids, publishers
  -- have run, with any outcome of their commits, and other tables may have changed.
  pub data Later (s : Store F) : Store F → Type 0 where
    at_once : Later s s
    added :
        {t t' : Store F} (o : EventOutbox F) → Later s t → add_outbox o t ≡ ok (tt, t') → Later s t'
    published :
        {t : Store F} (now : ℕ) (locked : Text → Bool) (size : ℕ) (xadd : Text → Option Text)
        (commit : Option Error)
        → Later s t
        → Later s (publish_once now locked size xadd commit t).2
    elsewhere : {t t' : Store F} → Later s t → t'.outbox ≡ t.outbox → Later s t'

pub any-map :
    {A : Type 0} (p : A → Bool) (f : A → A) (xs : List A)
    → ((x : A) → p (f x) ≡ p x)
    → any p (map f xs) ≡ any p xs
any-map p f [] h = refl
any-map p f (x ∷ xs) h = rw (h x, any-map p f xs h) refl

module _ {F : Type 0} (sent : Text → Bool) where
  -- Every row of a sent event is published, and such a row is there.
  abbrev pub Marked : List (EventOutbox F) → Type 0
  Marked os =
      All (λ o. (sent o.id && is_none o.published_at) ≡ false) os
      × ((e : Text) → sent e ≡ true → any (is_event e) os ≡ true)

  all-add :
      (os : List (EventOutbox F)) (o : EventOutbox F)
      → All (λ o. (sent o.id && is_none o.published_at) ≡ false) os
      → sent o.id ≡ false
      → All (λ o. (sent o.id && is_none o.published_at) ≡ false) (os ++ o ∷ [])
  all-add [] o a h = (ground arith, tt)
  all-add (x ∷ os) o (p, a) h = (p, all-add os o a h)

  add_outbox-Marked :
      (o : EventOutbox F) (t t' : Store F)
      → add_outbox o t ≡ ok (tt, t')
      → Marked t.outbox
      → Marked t'.outbox
  unfolding add_outbox
  add_outbox-Marked o t t' h (a, there) = elim (Bool-cases (any (is_event o.id) t.outbox)) [
    | inl taken ↦ let k = rw taken at h in cc
    | inr new ↦
        let e : record t { outbox = t.outbox ++ o ∷ [] } ≡ t' = ground arith in
        let fresh : sent o.id ≡ false = elim (Bool-cases (sent o.id)) [
          | inr unsent ↦ unsent
          | inl old ↦ let k = there o.id old in cc
        ] in
        subst (λ (x : Store F). Marked x.outbox) e
          (
            all-add t.outbox o a fresh,
            λ e y. any-append (is_event e) t.outbox (o ∷ []) ∙ rw (there e y) refl,
          )
  ]

  -- one row of a publisher's batch
  pub row-kept :
      (now : ℕ) (x : Option Text) (b : Bool) (o : EventOutbox F)
      → ((if b then after_xadd now x o else o).id ≡ o.id)
        × ((sent o.id && is_none o.published_at) ≡ false
            → (sent (if b then after_xadd now x o else o).id
                && is_none (if b then after_xadd now x o else o).published_at)
              ≡ false)
  unfolding after_xadd
  row-kept now x false o = (refl, λ h. h)
  row-kept now none true o = (refl, λ h. ground arith)
  row-kept now (some x) true o = (refl, λ h. h)

  all-marked :
      (f : EventOutbox F → EventOutbox F) (os : List (EventOutbox F))
      → ((o : EventOutbox F)
          → ((f o).id ≡ o.id)
            × ((sent o.id && is_none o.published_at) ≡ false
                → (sent (f o).id && is_none (f o).published_at) ≡ false))
      → All (λ o. (sent o.id && is_none o.published_at) ≡ false) os
      → All (λ o. (sent o.id && is_none o.published_at) ≡ false) (map f os)
  all-marked f [] h a = tt
  all-marked f (o ∷ os) h (p, a) = ((h o).1 p, all-marked f os h a)

  mark_batch-Marked :
      (now : ℕ) (locked : Text → Bool) (size : ℕ) (xadd : Text → Option Text) (t : Store F)
      → Marked t.outbox
      → Marked (mark_batch now locked size xadd t).2.outbox
  unfolding mark_batch
  mark_batch-Marked now locked size xadd t (a, there) =
      let rows = batch now locked size t in
      let f = λ (o : EventOutbox F).
        if any (is_event o.id) rows then after_xadd now (xadd o.id) o else o in
      let kept = λ (o : EventOutbox F). row-kept now (xadd o.id) (any (is_event o.id) rows) o in
      (
        all-marked f t.outbox kept a,
        λ e y. any-map (is_event e) f t.outbox (λ o. ap (λ i. eq_text i e) (kept o).0) ∙ there e y,
      )

  publish_once-Marked :
      (now : ℕ) (locked : Text → Bool) (size : ℕ) (xadd : Text → Option Text)
      (commit : Option Error) (t : Store F)
      → Marked t.outbox
      → Marked (publish_once now locked size xadd commit t).2.outbox
  unfolding publish_once
  publish_once-Marked now locked size xadd none t m = mark_batch-Marked now locked size xadd t m
  publish_once-Marked now locked size xadd (some x) t m = m

  -- Rows that are marked stay so.
  pub Later-Marked : {s t : Store F} → Later s t → Marked s.outbox → Marked t.outbox
  Later-Marked Later.at_once m = m
  Later-Marked (Later.added {t} {t'} o l h) m = add_outbox-Marked o t t' h (Later-Marked l m)
  Later-Marked (Later.published {t} now locked size xadd commit l) m =
      publish_once-Marked now locked size xadd commit t (Later-Marked l m)
  Later-Marked (Later.elsewhere l e) m = subst Marked (sym e) (Later-Marked l m)
