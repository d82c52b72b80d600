-- ===== src/Pipeline/Record.antt =====
-- The outcomes of `_record_success` and `_record_failure` of app/services/clova_worker.py as
-- deliveries of a request that was published.
pub mod Kept
use mathlib.Core.Path.{subst, subst₂, ap₂}
use onramp_stt_api.Base.{
  ℕ, ◌+◌, ◌≤◌, ◌≡◌, ◌⊎◌, refl, sym, ap, ◌∙◌, Bool, true, false, ◌&&◌, some, List, [], ◌∷◌, Text,
  eq_text, eq_text_refl, ◌==◌, if◌then◌else◌, b_to_n, count, find_row, write_row_same, Bool-cases,
  inl, inr, arith, Unicode,
}
use onramp_stt_api.Float.{Float}
use onramp_stt_api.Status.{JobStatus, is_completed}
use onramp_stt_api.Errors.{Error, ok}
use onramp_stt_api.Events.{Group, Payload, ChunkRequested}
use onramp_stt_api.Db.{Store, TranscriptionJob, TranscriptionChunk, EventOutbox}
use onramp_stt_api.Db.Session.{
  ◌>>=◌, >>=-ok, or_raise, or_raise-ok, gets, get_job, get_chunk, is_job, is_chunk, is_event,
  is_processed, put_chunk, Tx,
}
use onramp_stt_api.Clova.{Settings, ProviderResult, Draw}
use onramp_stt_api.Clova.Record.{World, settle_success, record_success, succeeded}
use onramp_stt_api.Clova.Failure.{
  settle_failure, record_failure, can_retry, retry_row, dead_row, failed_job,
}
use onramp_stt_api.Clova.Effects.{
  mark_processed-ok, receipt, with_receipt, with_events, asks_for, progress_rows, progressed_job,
}
use onramp_stt_api.Clova.Outcome.{
  settle_success-ok, settle_success_repeated, settle_failure-retry, settle_failure-dead, outcome,
  waiting, dead, progress_rows-silent, Advance,
}
use onramp_stt_api.Pipeline.{Inv, is_merged}
use onramp_stt_api.Pipeline.Rows.{get_chunk-key, get_job-key}
use onramp_stt_api.Pipeline.Deliver.{Delivery}
use onramp_stt_api.Pipeline.Deliver.Counters.{delivery-Inv}
use onramp_stt_api.Pipeline.Quiet.{receipt-Inv}

-- The request stands in the outbox under the event's id.
pub record Published {F : Type 0} (r : ChunkRequested) (e : Text) (s : Store F) : Type 0 where
  pub row : EventOutbox F
  pub found : find_row (is_event e) s.outbox ≡ some row
  pub carries : row.payload ≡ Payload.chunk_requested r

asks_itself :
    {F : Type 0} (p : Payload F) (r : ChunkRequested) (tid : Text) (i : ℕ)
    → p ≡ Payload.chunk_requested r
    → tid ≡ r.transcription_id
    → i ≡ r.chunk_index
    → asks_for tid i p ≡ true
asks_itself p r tid i e f g = rw (e, f, g) (ground (arith, eq_text_refl r.transcription_id))

not_settled_again : (a : Bool) → 0 + b_to_n (a && true) ≤ b_to_n a
not_settled_again a = ground arith

-- What the status of an advanced job says of its counters.
merged_now :
    (t t' : JobStatus) (n n' m m' : ℕ)
    → t' ≡ (if n + 1 == m then JobStatus.transcript_completed else t)
    → n' ≡ n + 1
    → m' ≡ m
    → is_merged t' ≡ true
    → (n' ≡ m') ⊎ (is_merged t ≡ true)
merged_now t t' n n' m m' e f g h = elim (Bool-cases (n + 1 == m)) [
  | inl last ↦ inl (ground arith)
  | inr more ↦ inr (ground arith)
]

retry_asks : (a : Bool) (n : ℕ) → n ≡ b_to_n a → n + 0 + b_to_n (a && false) ≤ b_to_n a
retry_asks a n h = ground arith

and_false_n : (a : Bool) → b_to_n (a && false) ≡ 0
and_false_n a = ground arith

module _ {F : Type 0} ⦃fl : Float F⦄ where
  -- The two reads at the head of both transactions.
  pub both_found :
      (A : Type 0) (r : ChunkRequested)
      (k : TranscriptionChunk F → TranscriptionJob F → Tx (Store F) A) (s : Store F)
      (a : A × Store F)
      → (or_raise (get_chunk r.transcription_id r.chunk_index s) Error.row_disappeared >>= λ c.
            gets (get_job r.transcription_id) >>= λ o.
            or_raise o Error.row_disappeared >>= λ j. k c j)
          s
        ≡ ok a
      → (c : TranscriptionChunk F) × (j : TranscriptionJob F) × (get_chunk r.transcription_id
            r.chunk_index s
          ≡ some c)
        × (get_job r.transcription_id s ≡ some j)
        × (k c j s ≡ ok a)
  both_found A r k s a h =
      let (c, s1, got, h1) =
        >>=-ok (or_raise (get_chunk r.transcription_id r.chunk_index s) Error.row_disappeared)
          (λ c. gets (get_job r.transcription_id) >>= λ o.
            or_raise o Error.row_disappeared >>= λ j. k c j)
          s h in
      let (stored, e1) =
        or_raise-ok (get_chunk r.transcription_id r.chunk_index s) Error.row_disappeared s got in
      let at : (gets (get_job r.transcription_id) >>= λ o.
      or_raise o Error.row_disappeared >>= λ j. k c j)
            s
          ≡ ok a =
        subst
          (λ t.
            (gets (get_job r.transcription_id) >>= λ o.
            or_raise o Error.row_disappeared >>= λ j. k c j)
              t
            ≡ ok a)
          e1 h1 in
      let (j, s2, owner, h2) =
        >>=-ok (or_raise (get_job r.transcription_id s) Error.row_disappeared) (λ j. k c j) s at in
      let (held, e2) = or_raise-ok (get_job r.transcription_id s) Error.row_disappeared s owner in
      (c, j, stored, held, subst (λ t. k c j t ≡ ok a) e2 h2)

module _ {F : Type 0} ⦃fl : Float F⦄ ⦃u : Unicode⦄ (s : Store F) (r : ChunkRequested) (e : Text)
    (p : Published r e s) (c : TranscriptionChunk F) (j : TranscriptionJob F)
    (stored : get_chunk r.transcription_id r.chunk_index s ≡ some c)
    (owner : get_job r.transcription_id s ≡ some j)
    (fresh : is_processed Group.clova_workers e s ≡ false) where
  tid_key : c.transcription_id ≡ r.transcription_id
  tid_key = (get_chunk-key r.transcription_id r.chunk_index s c stored).0

  index_key : c.chunk_index ≡ r.chunk_index
  index_key = (get_chunk-key r.transcription_id r.chunk_index s c stored).1

  stored_here : get_chunk c.transcription_id c.chunk_index s ≡ some c
  stored_here = subst₂ (λ x y. get_chunk x y s ≡ some c) (sym tid_key) (sym index_key) stored

  owner_here : get_job c.transcription_id s ≡ some j
  owner_here = subst (λ x. get_job x s ≡ some j) (sym tid_key) owner

  asked_here : asks_for c.transcription_id c.chunk_index p.row.payload ≡ true
  asked_here =
      asks_itself p.row.payload r c.transcription_id c.chunk_index p.carries tid_key index_key

  job_key : j.id ≡ c.transcription_id
  job_key = get_job-key r.transcription_id s j owner ∙ sym tid_key

  pub success-Delivery :
      (raw_key : Text) (result : ProviderResult F) (j' : TranscriptionJob F)
      (es : List (EventOutbox F))
      → Advance j j' es
      → Delivery s c (succeeded raw_key result c) j j' es e p.row
  success-Delivery raw_key result j' es adv = record {
    stored = stored_here;
    owner = owner_here;
    same_job = refl;
    same_index = refl;
    published = p.found;
    asked = asked_here;
    fresh = fresh;
    same_id = adv.same_id;
    same_total = adv.same_total;
    counts = adv.counted;
    asks_again = λ tid i. rw (adv.no_requests tid i) (not_settled_again (is_chunk tid i c));
    announced = λ tid. rw (adv.same_id, adv.counted, adv.same_total) (adv.announced tid);
    merged = λ m.
        merged_now j.status j'.status j.completed_chunks j'.completed_chunks j.total_chunks
          j'.total_chunks adv.status adv.counted adv.same_total m;
    worded =
        λ m. elim adv.worded [ inl e ↦ inl e | inr (same, kept) ↦ inr (rw (sym same) m, kept) ];
  }

  same_chunk_asked :
      (tid : Text) (i : ℕ)
      → b_to_n (eq_text r.transcription_id tid && r.chunk_index == i) ≡ b_to_n (is_chunk tid i c)
  same_chunk_asked tid i =
      ap₂ (λ x (y : ℕ). b_to_n (eq_text x tid && y == i)) (sym tid_key) (sym index_key)

  pub retry-Delivery :
      (cfg : Settings F) (w : World F) (d : Draw) (x : Error) (retries : ℕ)
      → Delivery s c (waiting cfg w d x c) j j (retry_row cfg w d r retries ∷ []) e p.row
  unfolding count retry_row
  retry-Delivery cfg w d x retries = record {
    stored = stored_here;
    owner = owner_here;
    same_job = refl;
    same_index = refl;
    published = p.found;
    asked = asked_here;
    fresh = fresh;
    same_id = refl;
    same_total = refl;
    counts = omega arith;
    asks_again = λ tid i. retry_asks (is_chunk tid i c) _ (same_chunk_asked tid i);
    announced = λ tid. sym (and_false_n (eq_text j.id tid));
    merged = λ m. inr m;
    worded = λ m. inr (m, refl);
  }

  pub dead-Delivery :
      (d : Draw) (x : Error) (retries : ℕ)
      → Delivery s c
          (dead x c)
          j
          (progressed_job d true (failed_job r x j))
          (dead_row d r retries x ∷ progress_rows d true (failed_job r x j))
          e
          p.row
  unfolding count dead_row
  dead-Delivery d x retries = record {
    stored = stored_here;
    owner = owner_here;
    same_job = refl;
    same_index = refl;
    published = p.found;
    asked = asked_here;
    fresh = fresh;
    same_id = ground arith;
    same_total = ground arith;
    counts = ground arith;
    asks_again = λ tid i.
        rw ((progress_rows-silent d true (failed_job r x j) tid i).0)
          (not_settled_again (is_chunk tid i c));
    announced =
        λ tid. rw ((progress_rows-silent d true (failed_job r x j) tid 0).1) (sym (and_false_n _));
    merged = λ m. ground arith;
    worded = λ m. ground arith;
  }
