-- ===== src/Pipeline/Rows.antt =====
-- The effect of one write on what the other queries of a session return.
use mathlib.Core.Path.{subst, subst₂, ap₂, ◌∙◌}
use onramp_stt_api.Base.{
  ℕ, ◌+◌, ◌≤◌, ◌≡◌, sym, Bool, true, false, not, ◌&&◌, ◌||◌, some, List, [], ◌∷◌, Text, eq_text,
  eq_text_sound, eq_text_refl, ◌==◌, if◌then◌else◌, b_to_n, count, count-append, count_mono,
  count_drop, find_row, write_row, find_row-holds, find_row-write_row, find_row-write_row_ne,
  count-write_row, any-append, Bool-cases, inl, inr, arith,
}
use onramp_stt_api.Status.{is_completed}
use onramp_stt_api.Events.{Group, eq_group}
use onramp_stt_api.Db.{Store, TranscriptionJob, TranscriptionChunk, EventOutbox}
use onramp_stt_api.Db.Session.{
  get_job, get_chunk, is_job, is_chunk, is_event, is_receipt, is_processed, put_job, put_chunk,
}
use onramp_stt_api.Clova.Effects.{with_events, with_receipt, receipt, asks_for}
use onramp_stt_api.Clova.Outcome.{requests_in}
use onramp_stt_api.Pipeline.{open_requests, completed_rows, chunk_rows}

eq_text-false : (a b c : Text) → eq_text a c ≡ false → a ≡ b → eq_text b c ≡ false
eq_text-false a b c h e = rw (← e) h

and_not-true : (a b : Bool) → b ≡ true → (a && not b) ≡ false
and_not-true a b h = ground arith

and_not-false : (a b : Bool) → b ≡ false → b_to_n (a && not b) ≡ b_to_n a
and_not-false a b h = ground arith

same_receipt :
    (a : Bool) (e x : Text)
    → x ≡ e
    → (a || (eq_group Group.clova_workers Group.clova_workers && eq_text e x)) ≡ true
unfolding eq_group
same_receipt a e x k = let t : eq_text e x ≡ true = rw k (eq_text_refl e) in ground arith

module _ {F : Type 0} where
  pub get_chunk-key :
      (tid : Text) (i : ℕ) (s : Store F) (c : TranscriptionChunk F)
      → get_chunk tid i s ≡ some c
      → (c.transcription_id ≡ tid) × (c.chunk_index ≡ i)
  get_chunk-key tid i s c h =
      let k = find_row-holds (is_chunk tid i) s.chunks h in
      ground (arith, eq_text_sound c.transcription_id tid)

  pub get_job-key :
      (tid : Text) (s : Store F) (j : TranscriptionJob F) → get_job tid s ≡ some j → j.id ≡ tid
  get_job-key tid s j h = eq_text_sound j.id tid (find_row-holds (is_job tid) s.jobs h)

  pub get_job-put_job :
      (tid t : Text) (j j' : TranscriptionJob F) (s : Store F)
      → get_job t s ≡ some j
      → j'.id ≡ j.id
      → get_job tid (put_job j' s) ≡ (if eq_text j'.id tid then some j' else get_job tid s)
  get_job-put_job tid t j j' s h e =
      let at : get_job j'.id s ≡ some j =
        subst (λ x. get_job x s ≡ some j) (sym (e ∙ get_job-key t s j h)) h in
      elim (Bool-cases (eq_text j'.id tid)) [
        | inl same ↦
            let k = eq_text_sound j'.id tid same in
            rw same (
              subst (λ x. find_row (is_job tid) (write_row (is_job x) j' s.jobs) ≡ some j') (sym k)
                (find_row-write_row (is_job tid) j' s.jobs (subst (λ x. get_job x s ≡ some j) k at)
                  same))
        | inr other ↦ rw other (
            find_row-write_row_ne (is_job j'.id) (is_job tid) j' s.jobs at
              (eq_text-false j'.id j.id tid other e) other)
      ]

  pub is_chunk-key :
      (tid : Text) (i : ℕ) (c : TranscriptionChunk F)
      → is_chunk tid i c ≡ true
      → (c.transcription_id ≡ tid) × (c.chunk_index ≡ i)
  is_chunk-key tid i c h = ground (arith, eq_text_sound c.transcription_id tid)

  pub is_chunk_same :
      (tid : Text) (i : ℕ) (c c' : TranscriptionChunk F)
      → c'.transcription_id ≡ c.transcription_id
      → c'.chunk_index ≡ c.chunk_index
      → is_chunk tid i c ≡ is_chunk tid i c'
  is_chunk_same tid i c c' e f = ap₂ (λ x (y : ℕ). eq_text x tid && y == i) (sym e) (sym f)

  pub get_chunk-put_chunk :
      (tid t : Text) (i k : ℕ) (c c' : TranscriptionChunk F) (s : Store F)
      → get_chunk t k s ≡ some c
      → c'.transcription_id ≡ c.transcription_id
      → c'.chunk_index ≡ c.chunk_index
      → get_chunk tid i (put_chunk c' s)
        ≡ (if is_chunk tid i c' then some c' else get_chunk tid i s)
  get_chunk-put_chunk tid t i k c c' s h e f =
      let key = get_chunk-key t k s c h in
      let at : get_chunk c'.transcription_id c'.chunk_index s ≡ some c =
        subst₂ (λ x y. get_chunk x y s ≡ some c) (sym (e ∙ key.0)) (sym (f ∙ key.1)) h in
      elim (Bool-cases (is_chunk tid i c')) [
        | inl same ↦
            let k = is_chunk-key tid i c' same in
            rw same (
              subst₂
                (λ x y. find_row (is_chunk tid i) (write_row (is_chunk x y) c' s.chunks) ≡ some c')
                (sym k.0) (sym k.1)
                (find_row-write_row (is_chunk tid i) c' s.chunks
                  (subst₂ (λ x y. get_chunk x y s ≡ some c) k.0 k.1 at) same))
        | inr other ↦ rw other (
            find_row-write_row_ne (is_chunk c'.transcription_id c'.chunk_index) (is_chunk tid i) c'
              s.chunks at (is_chunk_same tid i c c' e f ∙ other) other)
      ]

  -- Counting the chunks of a job, or the completed ones, around the write of one chunk.
  pub count-put_chunk :
      (q : TranscriptionChunk F → Bool) (t : Text) (k : ℕ) (c c' : TranscriptionChunk F)
      (s : Store F)
      → get_chunk t k s ≡ some c
      → c'.transcription_id ≡ c.transcription_id
      → c'.chunk_index ≡ c.chunk_index
      → count q (put_chunk c' s).chunks + b_to_n (q c) ≡ count q s.chunks + b_to_n (q c')
  count-put_chunk q t k c c' s h e f =
      let key = get_chunk-key t k s c h in
      count-write_row (is_chunk c'.transcription_id c'.chunk_index) q c' s.chunks
        (subst₂ (λ x y. get_chunk x y s ≡ some c) (sym (e ∙ key.0)) (sym (f ∙ key.1)) h)

  pub is_processed-with_receipt :
      (g h : Group) (e e' ref : Text) (s : Store F)
      → is_processed g e' (with_receipt (receipt h e ref) s)
        ≡ (is_processed g e' s || (eq_group h g && eq_text e e'))
  unfolding is_processed
  is_processed-with_receipt g h e e' ref s =
      ground (arith, any-append (is_receipt g e') s.inbox (receipt h e ref ∷ []))

  abbrev unanswered : Text → ℕ → Store F → EventOutbox F → Bool
  unanswered tid i s o = asks_for tid i o.payload && not (is_processed Group.clova_workers o.id s)

  still_answered :
      (tid : Text) (i : ℕ) (e ref : Text) (s : Store F) (x : EventOutbox F)
      → b_to_n (unanswered tid i (with_receipt (receipt Group.clova_workers e ref) s) x)
        ≤ b_to_n (unanswered tid i s x)
  still_answered tid i e ref s x =
      ground (arith, is_processed-with_receipt Group.clova_workers Group.clova_workers e x.id ref s)

  -- Processing an event closes the request that it carried, and opens none.
  pub open-with_receipt :
      (tid : Text) (i : ℕ) (e ref : Text) (s : Store F) (o : EventOutbox F)
      → find_row (is_event e) s.outbox ≡ some o
      → is_processed Group.clova_workers e s ≡ false
      → open_requests tid i (with_receipt (receipt Group.clova_workers e ref) s)
          + b_to_n (asks_for tid i o.payload)
        ≤ open_requests tid i s
  open-with_receipt tid i e ref s o h fresh =
      let s' = with_receipt (receipt Group.clova_workers e ref) s in
      let same : o.id ≡ e = eq_text_sound o.id e (find_row-holds (is_event e) s.outbox h) in
      let was : is_processed Group.clova_workers o.id s ≡ false = rw same fresh in
      let now : is_processed Group.clova_workers o.id s' ≡ true =
        is_processed-with_receipt Group.clova_workers Group.clova_workers e o.id ref s
        ∙ same_receipt (is_processed Group.clova_workers o.id s) e o.id same in
      let asked = asks_for tid i o.payload in
      omega (
        arith,
        and_not-false asked (is_processed Group.clova_workers o.id s) was,
        count_drop (unanswered tid i s) (unanswered tid i s') (is_event e) s.outbox {r = o}
            (λ x. still_answered tid i e ref s x) h
            (and_not-true asked (is_processed Group.clova_workers o.id s') now),
      )

  -- Rows added to the outbox open at most the requests that they carry.
  pub open-with_events :
      (tid : Text) (i : ℕ) (es : List (EventOutbox F)) (s : Store F)
      → open_requests tid i (with_events es s) ≤ open_requests tid i s + requests_in tid i es
  unfolding is_processed
  open-with_events tid i es s = omega (
    arith,
    count-append (unanswered tid i s) s.outbox es,
    count_mono (unanswered tid i s) (λ o. asks_for tid i o.payload) es (λ x. ground arith),
  )

  pub is_chunk_refl :
      (c : TranscriptionChunk F) → is_chunk c.transcription_id c.chunk_index c ≡ true
  is_chunk_refl c = ground (arith, eq_text_refl c.transcription_id)

  pub completed_le_rows : (tid : Text) (s : Store F) → completed_rows tid s ≤ chunk_rows tid s
  completed_le_rows tid s =
      count_mono (λ x. eq_text x.transcription_id tid && is_completed x.status)
        (λ x. eq_text x.transcription_id tid) s.chunks (λ x. ground arith)
