-- ===== src/Pipeline/Quiet.antt =====
-- Writes that ask for nothing and complete nothing keep the pipeline's invariant.
use mathlib.Core.Path.{subst}
use onramp_stt_api.Base.{
  ℕ, ◌≤◌, ◌≡◌, ◌⊎◌, sym, ◌∙◌, Bool, true, false, not, ◌&&◌, ◌||◌, none, some, List, [], ◌∷◌, Text,
  eq_text, eq_text_sound, b_to_n, count-append, count_mono, any-append, Bool-cases, inl, inr, arith,
}
use onramp_stt_api.Events.{Group}
use onramp_stt_api.Db.{Store, TranscriptionJob, EventOutbox, EventInbox}
use onramp_stt_api.Db.Session.{get_job, is_receipt, is_processed, put_job}
use onramp_stt_api.Clova.Effects.{with_events, with_receipt, asks_for, announces}
use onramp_stt_api.Clova.Outcome.{requests_in, announced_in}
use onramp_stt_api.Pipeline.{Inv, is_merged, open_requests}
use onramp_stt_api.Pipeline.Rows.{get_job-key, get_job-put_job, open-with_events}

or_not_le : (a p q : Bool) → b_to_n (a && not (p || q)) ≤ b_to_n (a && not p)
or_not_le a p q = ground arith

module _ {F : Type 0} (s : Store F) (v : Inv s) where
  -- A receipt closes requests at most.
  fewer_open :
      (r : EventInbox) (tid : Text) (i : ℕ)
      → open_requests tid i (with_receipt r s) ≤ open_requests tid i s
  unfolding is_processed
  fewer_open r tid i =
      count_mono
        (λ o.
          asks_for tid i o.payload
          && not (is_processed Group.clova_workers o.id (with_receipt r s)))
        (λ o. asks_for tid i o.payload && not (is_processed Group.clova_workers o.id s)) s.outbox
        (λ o.
          rw (any-append (is_receipt Group.clova_workers o.id) s.inbox (r ∷ []))
            (or_not_le (asks_for tid i o.payload) (is_processed Group.clova_workers o.id s) _))

  pub receipt-Inv : (r : EventInbox) → Inv (with_receipt r s)
  receipt-Inv r = record {
    live = λ tid i c h. omega (arith, v.live tid i c h, fewer_open r tid i);
    chunkless = λ tid i h. omega (arith, v.chunkless tid i h, fewer_open r tid i);
    counted = v.counted;
    sized = v.sized;
    jobless = v.jobless;
    announced = v.announced;
    unannounced = v.unannounced;
    complete = v.complete;
    worded = v.worded;
  }

  -- Events that ask for no chunk and announce no transcript.
  pub events-Inv :
      (es : List (EventOutbox F))
      → ((tid : Text) (i : ℕ) → requests_in tid i es ≡ 0)
      → ((tid : Text) → announced_in tid es ≡ 0)
      → Inv (with_events es s)
  events-Inv es q a = record {
    live = λ tid i c h. omega (arith, v.live tid i c h, open-with_events tid i es s, q tid i);
    chunkless = λ tid i h. omega (arith, v.chunkless tid i h, open-with_events tid i es s, q tid i);
    counted = v.counted;
    sized = v.sized;
    jobless = v.jobless;
    announced = λ tid j h. omega (
      arith,
      v.announced tid j h,
      count-append (λ o. announces tid o.payload) s.outbox es,
      a tid,
    );
    unannounced = λ tid h. omega (
      arith,
      v.unannounced tid h,
      count-append (λ o. announces tid o.payload) s.outbox es,
      a tid,
    );
    complete = v.complete;
    worded = v.worded;
  }

module _ {F : Type 0} (s : Store F) (v : Inv s) (t : Text) (j j' : TranscriptionJob F)
    (stored : get_job t s ≡ some j) (same_id : j'.id ≡ j.id) where
  -- A rewritten job is found in the old one's place.
  pub put_job_cases :
      (tid : Text) (x : TranscriptionJob F)
      → get_job tid (put_job j' s) ≡ some x
      → ((eq_text j'.id tid ≡ true) × (j' ≡ x) × (get_job tid s ≡ some j))
        ⊎ ((eq_text j'.id tid ≡ false) × (get_job tid s ≡ some x))
  put_job_cases tid x h =
      let e = get_job-put_job tid t j j' s stored same_id in
      elim (Bool-cases (eq_text j'.id tid)) [
        | inl same ↦
            let got : some j' ≡ some x = sym (rw same at e) ∙ h in
            let here : t ≡ tid =
              sym (get_job-key t s j stored) ∙ sym same_id ∙ eq_text_sound j'.id tid same in
            inl (same, cc, subst (λ k. get_job k s ≡ some j) here stored)
        | inr other ↦ inr (other, sym (rw other at e) ∙ h)
      ]

  pub put_job-none : (tid : Text) → get_job tid (put_job j' s) ≡ none → get_job tid s ≡ none
  put_job-none tid h =
      let e = get_job-put_job tid t j j' s stored same_id in
      elim (Bool-cases (eq_text j'.id tid)) [
        | inl same ↦ let got = sym (rw same at e) ∙ h in cc
        | inr other ↦ sym (rw other at e) ∙ h
      ]

  pub job-Inv :
      j'.completed_chunks ≡ j.completed_chunks
      → j'.total_chunks ≡ j.total_chunks
      → j'.merged_text ≡ j.merged_text
      → (is_merged j'.status ≡ true → is_merged j.status ≡ true)
      → Inv (put_job j' s)
  unfolding is_processed
  job-Inv c n w m = record {
    live = v.live;
    chunkless = v.chunkless;
    counted = λ tid x h. elim (put_job_cases tid x h) [
      | inl (_, e, got) ↦ ground (arith, v.counted tid j got)
      | inr (_, got) ↦ v.counted tid x got
    ];
    sized = λ tid x h. elim (put_job_cases tid x h) [
      | inl (_, e, got) ↦ ground (arith, v.sized tid j got)
      | inr (_, got) ↦ v.sized tid x got
    ];
    jobless = λ tid h. v.jobless tid (put_job-none tid h);
    announced = λ tid x h. elim (put_job_cases tid x h) [
      | inl (_, e, got) ↦ rw (← e, c, n) (v.announced tid j got)
      | inr (_, got) ↦ v.announced tid x got
    ];
    unannounced = λ tid h. v.unannounced tid (put_job-none tid h);
    complete = λ tid x h k. elim (put_job_cases tid x h) [
      | inl (_, e, got) ↦ ground (arith, v.complete tid j got, m (rw e k))
      | inr (_, got) ↦ v.complete tid x got k
    ];
    worded = λ tid x h k. elim (put_job_cases tid x h) [
      | inl (_, e, got) ↦ rw (← e, w) (v.worded tid j got (m (rw e k)))
      | inr (_, got) ↦ v.worded tid x got k
    ];
  }
