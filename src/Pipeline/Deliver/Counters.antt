-- ===== src/Pipeline/Deliver/Counters.antt =====
-- The job after the delivery of a chunk request of app/services/clova_worker.py.
use onramp_stt_api.Base.{
  is_none, ℕ, ◌+◌, ◌≤◌, ◌≡◌, refl, sym, ap, ◌∙◌, ◌⊎◌, Bool, true, false, not, ◌&&◌, none, some,
  List, Text, eq_text, eq_text_sound, count_mono, ◌==◌, if◌then◌else◌, b_to_n, count-append,
  Bool-cases, inl, inr, arith,
}
use mathlib.Core.Path.{subst}
use onramp_stt_api.Status.{is_completed}
use onramp_stt_api.Db.{Store, TranscriptionJob, TranscriptionChunk, EventOutbox}
use onramp_stt_api.Db.Session.{get_job, put_chunk}
use onramp_stt_api.Clova.Effects.{with_events, announces}
use onramp_stt_api.Clova.Outcome.{outcome}
use onramp_stt_api.Pipeline.{Inv, is_merged, is_done, chunk_rows, completed_rows, announcements}
use onramp_stt_api.Pipeline.Rows.{get_job-key, get_job-put_job, count-put_chunk}
use onramp_stt_api.Pipeline.Deliver.{Delivery}
use onramp_stt_api.Pipeline.Deliver.Requests.{uncompleted, live_after, chunkless_after}

and_false : (a b : Bool) → b ≡ false → b_to_n (a && b) ≡ 0
and_false a b h = ground arith

and_le : (a b : Bool) → b_to_n (a && b) ≤ b_to_n a
and_le a b = ground arith

-- The number of announcements follows the counter, one chunk completed at a time.
announced_once :
    (b : Bool) (n n' t t' a a' : ℕ)
    → n + b_to_n b ≤ t
    → n' ≡ n + b_to_n b
    → t' ≡ t
    → a ≡ b_to_n (not (t == 0) && n == t)
    → a' ≡ a + b_to_n (b && n' == t')
    → a' ≡ b_to_n (not (t' == 0) && n' == t')
announced_once true n n' t t' a a' h e f g k = ground arith
announced_once false n n' t t' a a' h e f g k = ground arith

module _ {F : Type 0} (s : Store F) (c c' : TranscriptionChunk F) (j j' : TranscriptionJob F)
    (es : List (EventOutbox F)) (e : Text) (row : EventOutbox F) (v : Inv s)
    (d : Delivery s c c' j j' es e row) where
  abbrev after : Store F
  after = outcome c' j' es e s

  job_id : j'.id ≡ c'.transcription_id
  job_id = d.same_id ∙ get_job-key c'.transcription_id s j d.owner

  found_job :
      (tid : Text) → get_job tid after ≡ (if eq_text j'.id tid then some j' else get_job tid s)
  found_job tid =
      get_job-put_job tid c'.transcription_id j j' (with_events es (put_chunk c' s)) d.owner
        d.same_id

  -- The job found afterwards is the new one, or one that the outcome left alone.
  job_cases :
      (tid : Text) (x : TranscriptionJob F)
      → get_job tid after ≡ some x
      → ((eq_text j'.id tid ≡ true) × (j' ≡ x) × (get_job tid s ≡ some j))
        ⊎ ((eq_text j'.id tid ≡ false) × (get_job tid s ≡ some x))
  job_cases tid x h = elim (Bool-cases (eq_text j'.id tid)) [
    | inl same ↦
        let got : some j' ≡ some x = sym (rw same at (found_job tid)) ∙ h in
        inl (
          same,
          cc,
          subst (λ t. get_job t s ≡ some j) (sym job_id ∙ eq_text_sound j'.id tid same) d.owner,
        )
    | inr other ↦ inr (other, sym (rw other at (found_job tid)) ∙ h)
  ]

  no_job_cases :
      (tid : Text) → get_job tid after ≡ none → (eq_text j'.id tid ≡ false) × (get_job tid s ≡ none)
  no_job_cases tid h = elim (Bool-cases (eq_text j'.id tid)) [
    | inl same ↦ let got = sym (rw same at (found_job tid)) ∙ h in cc
    | inr other ↦ (other, sym (rw other at (found_job tid)) ∙ h)
  ]

  rows_after : (tid : Text) → chunk_rows tid after ≡ chunk_rows tid s
  rows_after tid = omega (
    arith,
    count-put_chunk (λ x. eq_text x.transcription_id tid) c'.transcription_id c'.chunk_index c c' s
        d.stored d.same_job d.same_index,
    ap (λ t. b_to_n (eq_text t tid)) d.same_job,
  )

  completed_after :
      (tid : Text)
      → completed_rows tid after
        ≡ completed_rows tid s + b_to_n (eq_text j'.id tid && is_completed c'.status)
  completed_after tid =
      let q =
        λ (x : TranscriptionChunk F). eq_text x.transcription_id tid && is_completed x.status in
      let old : b_to_n (q c) ≡ 0 =
        and_false (eq_text c.transcription_id tid) (is_completed c.status)
          (uncompleted s c c' j j' es e row v d) in
      omega (
        arith,
        old,
        count-put_chunk q c'.transcription_id c'.chunk_index c c' s d.stored d.same_job
            d.same_index,
        ap (λ t. b_to_n (eq_text t tid && is_completed c'.status)) job_id,
      )

  announcements-after :
      (tid : Text)
      → announcements tid after
        ≡ announcements tid s
          + b_to_n (
              eq_text j'.id tid
              && (is_completed c'.status && j'.completed_chunks == j'.total_chunks))
  announcements-after tid =
      omega (arith, count-append (λ o. announces tid o.payload) s.outbox es, d.announced tid)

  completed_bound : (tid : Text) → completed_rows tid after ≤ chunk_rows tid after
  completed_bound tid =
      count_mono (λ x. eq_text x.transcription_id tid && is_completed x.status)
        (λ x. eq_text x.transcription_id tid) after.chunks
        (λ x. and_le (eq_text x.transcription_id tid) (is_completed x.status))

  counted_after :
      (tid : Text) (x : TranscriptionJob F)
      → get_job tid after ≡ some x
      → x.completed_chunks ≡ completed_rows tid after
  counted_after tid x h = elim (job_cases tid x h) [
    | inl (same, is_new, got) ↦
        let new : b_to_n (eq_text j'.id tid && is_completed c'.status)
            ≡ b_to_n (is_completed c'.status) =
          rw same refl in
        subst (λ (y : TranscriptionJob F). y.completed_chunks ≡ completed_rows tid after) is_new
          (omega (arith, new, v.counted tid j got, d.counts, completed_after tid))
    | inr (other, got) ↦
        let new : b_to_n (eq_text j'.id tid && is_completed c'.status) ≡ 0 = rw other refl in
        omega (arith, new, v.counted tid x got, completed_after tid)
  ]

  sized_after :
      (tid : Text) (x : TranscriptionJob F)
      → get_job tid after ≡ some x
      → x.total_chunks ≡ chunk_rows tid after
  sized_after tid x h = elim (job_cases tid x h) [
    | inl (same, is_new, got) ↦
        subst (λ (y : TranscriptionJob F). y.total_chunks ≡ chunk_rows tid after) is_new
          (omega (arith, v.sized tid j got, d.same_total, rows_after tid))
    | inr (other, got) ↦ omega (arith, v.sized tid x got, rows_after tid)
  ]

  -- Before the outcome, the job still lacked the chunk.
  room :
      (tid : Text)
      → eq_text j'.id tid ≡ true
      → get_job tid s ≡ some j
      → j.completed_chunks + b_to_n (is_completed c'.status) ≤ j.total_chunks
  room tid same got =
      let new : b_to_n (eq_text j'.id tid && is_completed c'.status)
          ≡ b_to_n (is_completed c'.status) =
        rw same refl in
      omega (
        arith,
        new,
        v.counted tid j got,
        v.sized tid j got,
        completed_after tid,
        rows_after tid,
        completed_bound tid,
      )

  announced_after :
      (tid : Text) (x : TranscriptionJob F)
      → get_job tid after ≡ some x
      → announcements tid after ≡ b_to_n (is_done x)
  announced_after tid x h = elim (job_cases tid x h) [
    | inl (same, is_new, got) ↦
        subst (λ (y : TranscriptionJob F). announcements tid after ≡ b_to_n (is_done y)) is_new
          (announced_once (is_completed c'.status) j.completed_chunks j'.completed_chunks
            j.total_chunks j'.total_chunks (announcements tid s) (announcements tid after)
            (room tid same got) d.counts d.same_total (v.announced tid j got)
            (rw same at (announcements-after tid)))
    | inr (other, got) ↦
        let new = rw other at (announcements-after tid) in omega (arith, new, v.announced tid x got)
  ]

  complete_after :
      (tid : Text) (x : TranscriptionJob F)
      → get_job tid after ≡ some x
      → is_merged x.status ≡ true
      → x.completed_chunks ≡ x.total_chunks
  complete_after tid x h m = elim (job_cases tid x h) [
    | inr (other, got) ↦ v.complete tid x got m
    | inl (same, is_new, got) ↦
        subst (λ (y : TranscriptionJob F). y.completed_chunks ≡ y.total_chunks) is_new
          (elim (d.merged (rw is_new m)) [
            | inl e ↦ e
            | inr was ↦
                omega (arith, v.complete tid j got was, room tid same got, d.counts, d.same_total)
          ])
  ]

  worded_after :
      (tid : Text) (x : TranscriptionJob F)
      → get_job tid after ≡ some x
      → is_merged x.status ≡ true
      → is_none x.merged_text ≡ false
  worded_after tid x h m = elim (job_cases tid x h) [
    | inr (other, got) ↦ v.worded tid x got m
    | inl (same, is_new, got) ↦
        subst (λ (y : TranscriptionJob F). is_none y.merged_text ≡ false) is_new
          (elim (d.worded (rw is_new m)) [
            | inl e ↦ e
            | inr (was, kept) ↦ rw kept (v.worded tid j got was)
          ])
  ]

  pub delivery-Inv : Inv after
  delivery-Inv = record {
    live = live_after s c c' j j' es e row v d;
    chunkless = chunkless_after s c c' j j' es e row v d;
    counted = counted_after;
    sized = sized_after;
    jobless = λ tid h. omega (arith, v.jobless tid (no_job_cases tid h).1, rows_after tid);
    announced = announced_after;
    unannounced = λ tid h.
        let (other, got) = no_job_cases tid h in
        let new = rw other at (announcements-after tid) in
        omega (arith, new, v.unannounced tid got);
    complete = complete_after;
    worded = worded_after;
  }
