-- ===== src/Outbox/Once.antt =====
-- What `publish_once` of app/queue/outbox.py sends: rows that are due, each marked in the commit.
use onramp_stt_api.Base.{
  ℕ, ◌≤◌, ◌≡◌, refl, Bool, true, false, ◌&&◌, ap, ◌∙◌, length-map, Option, none, some, List, [],
  ◌∷◌, Text, if◌then◌else◌, is_none, select, any, length, eq_text, eq_text_sound, All, Bool-cases,
  Option-cases, inl, inr, arith,
}
use onramp_stt_api.Db.{Store, EventOutbox}
use onramp_stt_api.Db.Session.{is_event}
use onramp_stt_api.Outbox.{batch, after_xadd, envelope, publish_once}
use onramp_stt_api.Outbox.Batch.{
  All-map, select-length, IsDue, All-batch, batch-length, All-Unit, any-batch,
}
use onramp_stt_api.Outbox.Later.{any-map, row-kept, Later, Marked, Later-Marked}

unpublished : (b : Bool) (o : Option ℕ) → o ≡ none → (b && is_none o) ≡ false → b ≡ false
unpublished b none e h = ground arith
unpublished b (some t) e h = cc

module _ {F : Type 0} where
  -- Whether a batch has a row with the id that was sent.
  unfoldable pub was_sent : (Text → Option Text) → List (EventOutbox F) → Text → Bool
  was_sent xadd rows e = any (λ o. eq_text o.id e && is_none (xadd o.id)) rows

  sent_absent :
      (xadd : Text → Option Text) (rows : List (EventOutbox F)) (e : Text)
      → any (is_event e) rows ≡ false
      → was_sent xadd rows e ≡ false
  unfolding was_sent
  sent_absent xadd [] e h = refl
  sent_absent xadd (o ∷ rows) e h = ground (arith, sent_absent xadd rows e)

  sent_answered :
      (xadd : Text → Option Text) (rows : List (EventOutbox F)) (e x : Text)
      → xadd e ≡ some x
      → was_sent xadd rows e ≡ false
  unfolding was_sent
  sent_answered xadd [] e x h = refl
  sent_answered xadd (o ∷ rows) e x h = elim (Bool-cases (eq_text o.id e)) [
    | inl same ↦ rw (same, eq_text_sound o.id e same, h) (sent_answered xadd rows e x h)
    | inr other ↦ rw other (sent_answered xadd rows e x h)
  ]

  rewritten :
      (now : ℕ) (xadd : Text → Option Text) (rows : List (EventOutbox F)) (o : EventOutbox F)
      → (if any (is_event o.id) rows then after_xadd now (xadd o.id) o else o).published_at ≡ none
      → was_sent xadd rows (if any (is_event o.id) rows then after_xadd now (xadd o.id) o else o).id
        ≡ false
  unfolding after_xadd
  rewritten now xadd rows o h = elim (Bool-cases (any (is_event o.id) rows)) [
    | inr out ↦ rw out (sent_absent xadd rows o.id out)
    | inl found ↦ elim (Option-cases (xadd o.id)) [
      | inl fine ↦ let k = rw (found, fine) at h in cc
      | inr (x, raised) ↦ rw (found, raised) (sent_answered xadd rows o.id x raised)
    ]
  ]

  sent_there :
      (xadd : Text → Option Text) (rows : List (EventOutbox F)) (e : Text)
      → was_sent xadd rows e ≡ true
      → any (is_event e) rows ≡ true
  unfolding was_sent
  sent_there xadd [] e h = h
  sent_there xadd (o ∷ rows) e h = ground (arith, sent_there xadd rows e)

  row-Marked :
      (now : ℕ) (xadd : Text → Option Text) (rows : List (EventOutbox F)) (o : EventOutbox F)
      → (was_sent xadd rows
            (if any (is_event o.id) rows then after_xadd now (xadd o.id) o else o).id
          && is_none
              (if any (is_event o.id) rows then after_xadd now (xadd o.id) o else o).published_at)
        ≡ false
  row-Marked now xadd rows o =
      let r = if any (is_event o.id) rows then after_xadd now (xadd o.id) o else o in
      elim (Option-cases r.published_at) [
        | inl unsent ↦ rw (rewritten now xadd rows o unsent) refl
        | inr (t, sent) ↦ let k : is_none r.published_at ≡ false = rw sent refl in ground arith
      ]

  -- What a publisher has sent and committed is marked.
  sent-Marked :
      (now : ℕ) (locked : Text → Bool) (size : ℕ) (xadd : Text → Option Text) (s : Store F)
      → Marked
          (was_sent xadd (batch now locked size s))
          (publish_once now locked size xadd none s).2.outbox
  unfolding publish_once
  sent-Marked now locked size xadd s =
      let rows = batch now locked size s in
      let f = λ (o : EventOutbox F).
        if any (is_event o.id) rows then after_xadd now (xadd o.id) o else o in
      (
        All-map _ f s.outbox (row-Marked now xadd rows),
        λ e y.
            any-map (is_event e) f s.outbox (λ o.
              ap (λ i. eq_text i e)
                (row-kept (λ i. false) now (xadd o.id) (any (is_event o.id) rows) o).0)
            ∙ any-batch (is_event e) now locked size s (sent_there xadd rows e y),
      )

  -- `publish_once` sends at most `batch_size` messages, and selects only rows that are not
  -- published, whose time has come and that no other publisher holds. If its commit is made, an
  -- event that it has sent is in no later batch, whatever the time and the size of that batch,
  -- whatever events are added in between, and whatever publishers run, with or without a commit.
  pub never_sent_twice :
      (now later : ℕ) (locked locked' : Text → Bool) (size size' : ℕ) (xadd : Text → Option Text)
      (s t : Store F)
      → Later (publish_once now locked size xadd none s).2 t
      → length (publish_once now locked size xadd none s).1 ≤ size
        × All (IsDue now locked) (batch now locked size s)
        × All
            (λ o. was_sent xadd (batch now locked size s) o.id ≡ false)
            (batch later locked' size' t)
  unfolding publish_once
  never_sent_twice now later locked locked' size size' xadd s t l =
      let rows = batch now locked size s in
      let sent = was_sent xadd rows in
      let marked = Later-Marked sent l (sent-Marked now locked size xadd s) in
      (
        omega (
          arith,
          length-map envelope (select (λ o. is_none (xadd o.id)) rows),
          select-length (λ o. is_none (xadd o.id)) rows,
          batch-length now locked size s,
        ),
        All-batch (IsDue now locked) (λ o. Unit {0}) now locked size s (All-Unit s.outbox)
            (λ o d q. d),
        All-batch (λ o. sent o.id ≡ false) (λ o. (sent o.id && is_none o.published_at) ≡ false)
            later locked' size' t marked.0 (λ o d q. unpublished (sent o.id) o.published_at d.0 q),
      )
