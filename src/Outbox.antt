-- ===== src/Outbox.antt =====
-- app/queue/outbox.py: rows of the outbox that are due are added to their Redis streams and
-- marked as published; and app/queue/consumer.py, which reads a stream.
pub mod Batch
pub mod Later
pub mod Once
use onramp_stt_api.Base.{
  ℕ, suc, ◌+◌, ◌≤◌, ◌≡◌, refl, Bool, true, false, not, ◌&&◌, ◌||◌, Option, none, some, List, [],
  ◌∷◌, ◌++◌, map, Text, leb, if◌then◌else◌, is_none, select, take, any, length,
}
use onramp_stt_api.Errors.{Error, Result, ok, err}
use onramp_stt_api.Events.{Stream, Payload, stream_name, event_type}
use onramp_stt_api.Db.{Store, EventOutbox}
use onramp_stt_api.Db.Session.{is_event}

-- `StreamEnvelope`, for a stream
pub record Message (F : Type 0) : Type 0 where
  pub stream : Text
  pub event_id : Text
  pub event_type : Text
  pub payload : Payload F

module _ {F : Type 0} where
  -- `published_at IS NULL AND available_at <= now`, and not locked by another publisher
  unfoldable pub is_due : ℕ → (Text → Bool) → EventOutbox F → Bool
  is_due now locked o = is_none o.published_at && leb o.available_at now && not (locked o.id)

  -- `ORDER BY created_at`
  unfoldable pub insert_by_age : EventOutbox F → List (EventOutbox F) → List (EventOutbox F)
  insert_by_age o [] = o ∷ []
  insert_by_age o (p ∷ ps) =
      if leb o.created_at p.created_at then o ∷ p ∷ ps else p ∷ insert_by_age o ps

  unfoldable pub oldest_first : List (EventOutbox F) → List (EventOutbox F)
  unfolding insert_by_age
  oldest_first [] = []
  oldest_first (o ∷ os) = insert_by_age o (oldest_first os)

  -- The rows that `publish_once` selects.
  unfoldable pub batch : ℕ → (Text → Bool) → ℕ → Store F → List (EventOutbox F)
  unfolding is_due oldest_first
  batch now locked size s = take size (oldest_first (select (is_due now locked) s.outbox))

  abbrev pub envelope : EventOutbox F → Message F
  envelope o = record {
    stream = stream_name o.stream;
    event_id = o.id;
    event_type = event_type o.payload;
    payload = o.payload;
  }

  -- A row after its `xadd`, which answers with the name of the exception that it raised.
  unfoldable pub after_xadd : ℕ → Option Text → EventOutbox F → EventOutbox F
  after_xadd now none o = record o { published_at = some now; last_error = none }
  after_xadd now (some x) o = record o {
    publish_attempts = o.publish_attempts + 1;
    last_error = some x;
  }

  -- The loop of `publish_once`: the number of messages, the messages, and the store with the rows as
  -- it leaves them. `xadd` answers for a row's id; `locked` are the rows that other publishers hold.
  unfoldable pub mark_batch :
      ℕ → (Text → Bool) → ℕ → (Text → Option Text) → Store F → ℕ × List (Message F) × Store F
  unfolding batch after_xadd
  mark_batch now locked size xadd s =
      let rows = batch now locked size s in
      let sent = select (λ o. is_none (xadd o.id)) rows in
      (
        length sent,
        map envelope sent,
        record s {
          outbox =
              map (λ o. if any (is_event o.id) rows then after_xadd now (xadd o.id) o else o)
                s.outbox;
        },
      )

  -- The commit, which answers with the exception that it raised: the messages are sent by then, and
  -- without the commit their rows stay as they were. A process that ends before it is such a case.
  abbrev pub committed :
      Store F
      → Option Error
      → ℕ × List (Message F) × Store F
      → Result ℕ × List (Message F) × Store F
  committed s none (n, ms, t) = (ok n, ms, t)
  committed s (some x) (n, ms, t) = (err x, ms, s)

  -- `publish_once`: its result, the messages that it has sent, and the store after it
  unfoldable pub publish_once :
      ℕ
      → (Text → Bool)
      → ℕ
      → (Text → Option Text)
      → Option Error
      → Store F
      → Result ℕ × List (Message F) × Store F
  unfolding mark_batch
  publish_once now locked size xadd commit s =
      committed s commit (mark_batch now locked size xadd s)

-- `read_new_or_reclaim_pending`: the new messages, or the pending ones that XAUTOCLAIM hands over.
unfoldable pub read_new_or_reclaim_pending :
    {E : Type 0} → Text → List (Text × List E) → List E → List (Text × List E)
read_new_or_reclaim_pending stream [] [] = []
read_new_or_reclaim_pending stream [] (e ∷ es) = (stream, e ∷ es) ∷ []
read_new_or_reclaim_pending stream (m ∷ ms) pending = m ∷ ms
