-- ===== src/Clova/Outcome.antt =====
-- What `_record_success` and `_record_failure` of app/services/clova_worker.py leave in the store
-- when they commit: the rows that change, and what the new events ask for.
use onramp_stt_api.Base.{
  ◌⊎◌, is_none, ℕ, ◌+◌, ◌≡◌, refl, ap, ◌∙◌, Bool, true, false, ◌&&◌, some, List, [], ◌∷◌, Text,
  ◌==◌, if◌then◌else◌, inl, inr, arith, Bool-cases, Unicode, eq_text, b_to_n, count,
}
use mathlib.Core.Path.{subst}
use mathlib.Core.List.{append_assoc}
use onramp_stt_api.Float.{Float}
use onramp_stt_api.Status.{JobStatus, ChunkStatus, is_completed}
use onramp_stt_api.Errors.{Error, ok}
use onramp_stt_api.Events.{Group, ChunkRequested}
use onramp_stt_api.Db.{Store, TranscriptionJob, TranscriptionChunk, EventOutbox}
use onramp_stt_api.Db.Session.{
  ◌>>=◌, ◌>>◌, >>=-ok, modify, put_job, put_chunk, is_processed, mark_processed, add_outbox,
}
use onramp_stt_api.Clova.{Settings, ProviderResult, Draw, record_progress}
use onramp_stt_api.Clova.Record.{
  World, transcript_row, merge_transcription, advance_job, succeeded, settle_success,
}
use onramp_stt_api.Clova.Failure.{
  settle_failure, retry_row, dead_row, failed_job, set_back, can_retry, retry_at,
}
use onramp_stt_api.Clova.Effects.{
  with_events, with_receipt, receipt, progress_rows, progressed_job, record_progress-ok,
  merge_transcription-ok, mark_processed-ok, add_outbox-ok, asks_for, announces,
  progress_row-silent,
}

module _ {F : Type 0} where
  -- How many of the rows ask for a chunk, and how many announce a transcript.
  abbrev pub requests_in : Text → ℕ → List (EventOutbox F) → ℕ
  requests_in tid i = count (λ o. asks_for tid i o.payload)

  abbrev pub announced_in : Text → List (EventOutbox F) → ℕ
  announced_in tid = count (λ o. announces tid o.payload)

  -- What `advance_job` does to the job, with the events that it adds.
  pub record Advance (j j' : TranscriptionJob F) (es : List (EventOutbox F)) : Type 0 where
    pub same_id : j'.id ≡ j.id
    pub counted : j'.completed_chunks ≡ j.completed_chunks + 1
    pub same_total : j'.total_chunks ≡ j.total_chunks
    pub status : j'.status ≡ (
        if j.completed_chunks + 1 == j.total_chunks
        then JobStatus.transcript_completed
        else j.status)
    pub worded :
        (is_none j'.merged_text ≡ false)
        ⊎ ((j'.status ≡ j.status) × (j'.merged_text ≡ j.merged_text))
    pub no_requests : (tid : Text) (i : ℕ) → requests_in tid i es ≡ 0
    pub announced :
        (tid : Text)
        → announced_in tid es
          ≡ b_to_n (eq_text j.id tid && j.completed_chunks + 1 == j.total_chunks)

  -- The store after a recorded outcome: the chunk, the job, the events and the receipt.
  abbrev pub outcome :
      TranscriptionChunk F → TranscriptionJob F → List (EventOutbox F) → Text → Store F → Store F
  outcome c' j' es e s =
      with_receipt (receipt Group.clova_workers e c'.id)
        (put_job j' (with_events es (put_chunk c' s)))

module _ {F : Type 0} ⦃fl : Float F⦄ where
  pub progress_rows-silent :
      (d : Draw) (b : Bool) (j : TranscriptionJob F) (tid : Text) (i : ℕ)
      → (requests_in tid i (progress_rows d b j) ≡ 0) × (announced_in tid (progress_rows d b j) ≡ 0)
  unfolding count
  progress_rows-silent d b j tid i = ground (arith, progress_row-silent d j tid i)

module _ {F : Type 0} ⦃fl : Float F⦄ ⦃u : Unicode⦄ where
  last_one :
      (w : World F) (d : Draw) (j m j' : TranscriptionJob F) (s s1 s' : Store F)
      → (j.completed_chunks + 1 == j.total_chunks) ≡ true
      → merge_transcription w d
          (record j { completed_chunks = j.completed_chunks + 1; status = JobStatus.merging })
          s
        ≡ ok (m, s1)
      → record_progress d true m s1 ≡ ok (j', s')
      → (es : List (EventOutbox F)) × (s' ≡ with_events es s) × Advance j j' es
  unfolding count transcript_row
  last_one w d j m j' s s1 s' last h k =
      let merging = record j {
        completed_chunks = j.completed_chunks + 1;
        status = JobStatus.merging;
      } in
      let (_, e1, t1) = merge_transcription-ok w d merging m s s1 h in
      let (e2, t2) = record_progress-ok d true m j' s1 s' k in
      (
        transcript_row d merging ∷ progress_rows d true m,
        ground
            (arith, append_assoc s.outbox (transcript_row d merging ∷ []) (progress_rows d true m)),
        record {
          same_id = ground arith;
          counted = ground arith;
          same_total = ground arith;
          status = ground arith;
          worded = ground arith;
          no_requests = λ tid i. ground (arith, progress_rows-silent d true m tid i);
          announced = λ tid. ground (arith, progress_rows-silent d true m tid 0);
        },
      )

  pub advance_job-ok :
      (w : World F) (d : Draw) (j j' : TranscriptionJob F) (s s' : Store F)
      → advance_job w d j s ≡ ok (j', s')
      → (es : List (EventOutbox F)) × (s' ≡ with_events es s) × Advance j j' es
  unfolding advance_job
  advance_job-ok w d j j' s s' h = elim (Bool-cases (j.completed_chunks + 1 == j.total_chunks)) [
    | inl last ↦
        let merging = record j {
          completed_chunks = j.completed_chunks + 1;
          status = JobStatus.merging;
        } in
        let (m, s1, merged, reported) =
          >>=-ok (merge_transcription w d merging) (λ m. record_progress d true m) s
            (rw last at h) in
        last_one w d j m j' s s1 s' last merged reported
    | inr more ↦
        let counted = record j { completed_chunks = j.completed_chunks + 1 } in
        let (e, t) = record_progress-ok d false counted j' s s' (rw more at h) in
        (
          progress_rows d false counted,
          t,
          record {
            same_id = ground arith;
            counted = ground arith;
            same_total = ground arith;
            status = ground arith;
            worded = ground arith;
            no_requests = λ tid i. ground (arith, progress_rows-silent d false counted tid i);
            announced = λ tid. ground (arith, progress_rows-silent d false counted tid 0);
          },
        )
  ]

  -- a chunk that is completed already: the event is only ticked off
  pub settle_success_repeated :
      (w : World F) (d : Draw) (e raw_key : Text) (result : ProviderResult F)
      (c : TranscriptionChunk F) (j : TranscriptionJob F) (s : Store F)
      → is_completed c.status ≡ true
      → settle_success w d e raw_key result c j s ≡ mark_processed Group.clova_workers e c.id s
  unfolding settle_success
  settle_success_repeated w d e raw_key result c j s done = rw done

  pub settle_success-ok :
      (w : World F) (d : Draw) (e raw_key : Text) (result : ProviderResult F)
      (c : TranscriptionChunk F) (j : TranscriptionJob F) (s s' : Store F)
      → is_completed c.status ≡ false
      → settle_success w d e raw_key result c j s ≡ ok (tt, s')
      → (j' : TranscriptionJob F) × (es : List (EventOutbox F)) × Advance j j' es
        × (s' ≡ outcome (succeeded raw_key result c) j' es e s)
        × (is_processed Group.clova_workers e s ≡ false)
  unfolding settle_success is_processed
  settle_success-ok w d e raw_key result c j s s' running h =
      let s0 = put_chunk (succeeded raw_key result c) s in
      let (j', s1, moved, h1) =
        >>=-ok (advance_job w d j)
          (λ j'. modify (put_job j') >> mark_processed Group.clova_workers e c.id) s0
          (rw running at h) in
      let (es, e1, adv) = advance_job-ok w d j j' s0 s1 moved in
      let (e2, fresh) = mark_processed-ok Group.clova_workers e c.id (put_job j' s1) s' h1 in
      (
        j',
        es,
        adv,
        e2 ∙ ap (λ t. with_receipt (receipt Group.clova_workers e c.id) (put_job j' t)) e1,
        subst (λ (t : Store F). is_processed Group.clova_workers e t ≡ false) e1 fresh,
      )

  -- the chunk of a failure that is tried again
  abbrev pub waiting :
      Settings F → World F → Draw → Error → TranscriptionChunk F → TranscriptionChunk F
  waiting cfg w d x c = record (set_back x c) {
    status = ChunkStatus.retry_wait;
    next_retry_at = some (retry_at cfg w d (c.retry_count + 1));
  }

  abbrev pub dead : Error → TranscriptionChunk F → TranscriptionChunk F
  dead x c = record (set_back x c) { status = ChunkStatus.failed }

  pub settle_failure-retry :
      (cfg : Settings F) (w : World F) (d : Draw) (r : ChunkRequested) (e : Text) (x : Error)
      (c : TranscriptionChunk F) (j : TranscriptionJob F) (s s' : Store F)
      → can_retry cfg x c ≡ true
      → settle_failure cfg w d r e x c j s ≡ ok (tt, s')
      → (s'
          ≡ with_receipt (receipt Group.clova_workers e c.id) (
              with_events
                (retry_row cfg w d r (c.retry_count + 1) ∷ [])
                (put_chunk (waiting cfg w d x c) s)))
        × (is_processed Group.clova_workers e s ≡ false)
  unfolding settle_failure is_processed
  settle_failure-retry cfg w d r e x c j s s' again h =
      let s0 = put_chunk (waiting cfg w d x c) s in
      let row = retry_row cfg w d r (c.retry_count + 1) in
      let (_, s1, added, h1) =
        >>=-ok (add_outbox row) (λ _. mark_processed Group.clova_workers e c.id) s0
          (rw again at h) in
      let e1 = add_outbox-ok row s0 s1 added in
      let (e2, fresh) = mark_processed-ok Group.clova_workers e c.id s1 s' h1 in
      (
        e2 ∙ ap (with_receipt (receipt Group.clova_workers e c.id)) e1,
        subst (λ (t : Store F). is_processed Group.clova_workers e t ≡ false) e1 fresh,
      )

  pub settle_failure-dead :
      (cfg : Settings F) (w : World F) (d : Draw) (r : ChunkRequested) (e : Text) (x : Error)
      (c : TranscriptionChunk F) (j : TranscriptionJob F) (s s' : Store F)
      → can_retry cfg x c ≡ false
      → settle_failure cfg w d r e x c j s ≡ ok (tt, s')
      → (s'
          ≡ outcome
              (dead x c)
              (progressed_job d true (failed_job r x j))
              (dead_row d r (c.retry_count + 1) x ∷ progress_rows d true (failed_job r x j))
              e
              s)
        × (is_processed Group.clova_workers e s ≡ false)
  unfolding settle_failure is_processed
  settle_failure-dead cfg w d r e x c j s s' last h =
      let s0 = put_chunk (dead x c) s in
      let row = dead_row d r (c.retry_count + 1) x in
      let lost = failed_job r x j in
      let (_, s1, added, h1) =
        >>=-ok (add_outbox row)
          (λ _. record_progress d true lost >>= λ j'.
            modify (put_job j') >> mark_processed Group.clova_workers e c.id)
          s0 (rw last at h) in
      let (j', s2, reported, h2) =
        >>=-ok (record_progress d true lost)
          (λ j'. modify (put_job j') >> mark_processed Group.clova_workers e c.id) s1 h1 in
      let e1 = add_outbox-ok row s0 s1 added in
      let (ej, e2) = record_progress-ok d true lost j' s1 s2 reported in
      let (e3, fresh) = mark_processed-ok Group.clova_workers e c.id (put_job j' s2) s' h2 in
      let both : s2 ≡ with_events (row ∷ progress_rows d true lost) s0 =
        ground (arith, append_assoc s.outbox (row ∷ []) (progress_rows d true lost)) in
      (
        rw (e3, both, ej) refl,
        subst (λ (t : Store F). is_processed Group.clova_workers e t ≡ false) both fresh,
      )
