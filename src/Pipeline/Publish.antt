-- ===== src/Pipeline/Publish.antt =====
-- The publisher of app/queue/outbox.py keeps the pipeline's invariant: it changes no row's id or
-- payload.
use onramp_stt_api.Base.{
  ℕ, ◌≡◌, refl, ap, ◌∙◌, Bool, not, ◌&&◌, Option, none, some, List, [], ◌∷◌, map, Text, count,
  b_to_n, if◌then◌else◌, any, arith, Bool-cases, Option-cases, inl, inr,
}
use onramp_stt_api.Errors.{Error}
use onramp_stt_api.Events.{Group}
use onramp_stt_api.Db.{Store, EventOutbox}
use onramp_stt_api.Db.Session.{is_event, is_processed}
use onramp_stt_api.Outbox.{batch, after_xadd, mark_batch, publish_once}
use onramp_stt_api.Clova.Effects.{asks_for, announces}
use onramp_stt_api.Pipeline.{Inv, open_requests, announcements}

count-map :
    {A : Type 0} (p : A → Bool) (f : A → A) (xs : List A)
    → ((x : A) → p (f x) ≡ p x)
    → count p (map f xs) ≡ count p xs
unfolding count
count-map p f [] h = refl
count-map p f (x ∷ xs) h = omega (arith, ap b_to_n (h x), count-map p f xs h)

module _ {F : Type 0} where
  marked : ℕ → (Text → Option Text) → List (EventOutbox F) → EventOutbox F → EventOutbox F
  marked now xadd rows o = if any (is_event o.id) rows then after_xadd now (xadd o.id) o else o

  marked_same :
      (now : ℕ) (xadd : Text → Option Text) (rows : List (EventOutbox F)) (o : EventOutbox F)
      → ((marked now xadd rows o).id ≡ o.id) × ((marked now xadd rows o).payload ≡ o.payload)
  unfolding marked after_xadd
  marked_same now xadd rows o = elim (Bool-cases (any (is_event o.id) rows)) [
    | inr out ↦ rw out (refl, refl)
    | inl found ↦ elim (Option-cases (xadd o.id)) [
      | inl fine ↦ rw (found, fine) (refl, refl)
      | inr (x, raised) ↦ rw (found, raised) (refl, refl)
    ]
  ]

  open_same :
      (now : ℕ) (locked : Text → Bool) (size : ℕ) (xadd : Text → Option Text) (s : Store F)
      (tid : Text) (i : ℕ)
      → open_requests tid i (mark_batch now locked size xadd s).2 ≡ open_requests tid i s
  unfolding mark_batch is_processed marked
  open_same now locked size xadd s tid i =
      count-map (λ o. asks_for tid i o.payload && not (is_processed Group.clova_workers o.id s))
        (marked now xadd (batch now locked size s)) s.outbox
        (λ o.
          rw
            (
              (marked_same now xadd (batch now locked size s) o).0,
              (marked_same now xadd (batch now locked size s) o).1,
            )
            refl)

  announced_same :
      (now : ℕ) (locked : Text → Bool) (size : ℕ) (xadd : Text → Option Text) (s : Store F)
      (tid : Text)
      → announcements tid (mark_batch now locked size xadd s).2 ≡ announcements tid s
  unfolding mark_batch marked
  announced_same now locked size xadd s tid =
      count-map (λ o. announces tid o.payload) (marked now xadd (batch now locked size s)) s.outbox
        (λ o. ap (announces tid) (marked_same now xadd (batch now locked size s) o).1)

  mark_batch-Inv :
      (now : ℕ) (locked : Text → Bool) (size : ℕ) (xadd : Text → Option Text) (s : Store F)
      → Inv s
      → Inv (mark_batch now locked size xadd s).2
  unfolding mark_batch
  mark_batch-Inv now locked size xadd s v = record {
    live = λ tid i c h. rw (open_same now locked size xadd s tid i) (v.live tid i c h);
    chunkless = λ tid i h. open_same now locked size xadd s tid i ∙ v.chunkless tid i h;
    counted = v.counted;
    sized = v.sized;
    jobless = v.jobless;
    announced = λ tid j h. announced_same now locked size xadd s tid ∙ v.announced tid j h;
    unannounced = λ tid h. announced_same now locked size xadd s tid ∙ v.unannounced tid h;
    complete = v.complete;
    worded = v.worded;
  }

  -- Publishing keeps the invariant, whether or not the commit is made.
  pub publish_once-Inv :
      (now : ℕ) (locked : Text → Bool) (size : ℕ) (xadd : Text → Option Text)
      (commit : Option Error) (s : Store F)
      → Inv s
      → Inv (publish_once now locked size xadd commit s).2
  unfolding publish_once
  publish_once-Inv now locked size xadd none s v = mark_batch-Inv now locked size xadd s v
  publish_once-Inv now locked size xadd (some x) s v = v
