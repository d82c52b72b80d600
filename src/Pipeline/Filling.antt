-- ===== src/Pipeline/Filling.antt =====
-- The loop of app/services/orchestrator.py that stores the chunks of a job: while it runs, the job
-- counts chunks that are still to come, and everything else of the pipeline's invariant holds.
use mathlib.Core.Path.{subst, subst₂}
use onramp_stt_api.Base.{
  is_none, ℕ, suc, ◌+◌, ◌≤◌, ◌≡◌, refl, sym, ap, ◌∙◌, Bool, true, false, ◌&&◌, none, some, List, [],
  ◌∷◌, ◌++◌, Text, eq_text, eq_text_sound, if◌then◌else◌, b_to_n, count-append, count-singleton,
  find_row, find_row-append_found, find_row-append_none, any, Bool-cases, Option-cases, inl, inr,
  arith,
}
use onramp_stt_api.Status.{ChunkStatus, is_completed}
use onramp_stt_api.Events.{Payload, ChunkRequested}
use onramp_stt_api.Db.{Store, TranscriptionJob, TranscriptionChunk, EventOutbox}
use onramp_stt_api.Db.Session.{get_job, get_chunk, is_chunk, is_processed}
use onramp_stt_api.Clova.Effects.{with_events, asks_for, announces}
use onramp_stt_api.Pipeline.{
  Inv, is_settled, is_merged, is_done, open_requests, chunk_rows, completed_rows, announcements,
}
use onramp_stt_api.Pipeline.Rows.{open-with_events, is_chunk-key}

pub any-find_row {ℓ} :
    {R : Type ℓ} (p : R → Bool) (rs : List R) → any p rs ≡ false → find_row p rs ≡ none
unfolding find_row
any-find_row p [] h = refl
any-find_row p (r ∷ rs) h = ground (arith, any-find_row p rs)

module _ {F : Type 0} where
  -- The invariant while `k` chunks of the job `tid` are missing.
  pub record Filling (tid : Text) (k : ℕ) (s : Store F) : Type 0 where
    pub live :
        (t : Text) (i : ℕ) (c : TranscriptionChunk F)
        → get_chunk t i s ≡ some c
        → open_requests t i s + b_to_n (is_settled c.status) ≤ 1
    pub chunkless : (t : Text) (i : ℕ) → get_chunk t i s ≡ none → open_requests t i s ≡ 0
    pub counted :
        (t : Text) (j : TranscriptionJob F)
        → get_job t s ≡ some j
        → j.completed_chunks ≡ completed_rows t s
    pub sized :
        (t : Text) (j : TranscriptionJob F)
        → get_job t s ≡ some j
        → j.total_chunks ≡ chunk_rows t s + (if eq_text tid t then k else 0)
    pub jobless : (t : Text) → get_job t s ≡ none → chunk_rows t s ≡ 0
    pub announced :
        (t : Text) (j : TranscriptionJob F)
        → get_job t s ≡ some j
        → announcements t s ≡ b_to_n (is_done j)
    pub unannounced : (t : Text) → get_job t s ≡ none → announcements t s ≡ 0
    pub complete :
        (t : Text) (j : TranscriptionJob F)
        → get_job t s ≡ some j
        → is_merged j.status ≡ true
        → j.completed_chunks ≡ j.total_chunks
    pub worded :
        (t : Text) (j : TranscriptionJob F)
        → get_job t s ≡ some j
        → is_merged j.status ≡ true
        → is_none j.merged_text ≡ false
    pub exists : (get_job tid s ≡ none) → ⊥

  pub Filling-Inv : (tid : Text) (s : Store F) → Filling tid 0 s → Inv s
  Filling-Inv tid s f = record {
    live = f.live;
    chunkless = f.chunkless;
    counted = f.counted;
    sized = λ t j h. f.sized t j h ∙ ground arith;
    jobless = f.jobless;
    announced = f.announced;
    unannounced = f.unannounced;
    complete = f.complete;
    worded = f.worded;
  }

one_fewer :
    (b : Bool) (k total rows rows' : ℕ)
    → total ≡ rows + (if b then suc k else 0)
    → rows' ≡ rows + b_to_n b
    → total ≡ rows' + (if b then k else 0)
one_fewer b k total rows rows' h e = ground arith

and_nothing : (a : Bool) → b_to_n (a && false) ≡ 0
and_nothing a = ground arith

-- One round of the loop.
module _ {F : Type 0} (tid : Text) (k : ℕ) (s : Store F) (f : Filling tid (suc k) s)
    (c : TranscriptionChunk F) (o : EventOutbox F) (r : ChunkRequested)
    (new : get_chunk c.transcription_id c.chunk_index s ≡ none)
    (pending : c.status ≡ ChunkStatus.pending) (mine : c.transcription_id ≡ tid)
    (asks : o.payload ≡ Payload.chunk_requested r)
    (asks_job : r.transcription_id ≡ c.transcription_id)
    (asks_index : r.chunk_index ≡ c.chunk_index) where
  abbrev filled : Store F
  filled = with_events (o ∷ []) (record s { chunks = s.chunks ++ c ∷ [] })

  asks_only : (t : Text) (i : ℕ) → asks_for t i o.payload ≡ is_chunk t i c
  asks_only t i = rw (asks, asks_job, asks_index)

  more_open :
      (t : Text) (i : ℕ) → open_requests t i filled ≤ open_requests t i s + b_to_n (is_chunk t i c)
  unfolding is_processed
  more_open t i = omega (
    arith,
    open-with_events t i (o ∷ []) s,
    count-singleton (λ (x : EventOutbox F). asks_for t i x.payload) o,
    ap b_to_n (asks_only t i),
  )

  find_filled_old :
      (t : Text) (i : ℕ) (x : TranscriptionChunk F)
      → get_chunk t i s ≡ some x
      → get_chunk t i filled ≡ some x
  find_filled_old t i x h = find_row-append_found (is_chunk t i) s.chunks (c ∷ []) h

  find_filled_new :
      (t : Text) (i : ℕ)
      → get_chunk t i s ≡ none
      → get_chunk t i filled ≡ (if is_chunk t i c then some c else none)
  unfolding find_row
  find_filled_new t i h = find_row-append_none (is_chunk t i) s.chunks (c ∷ []) h

  -- A chunk that was there before is not the new one.
  not_new :
      (t : Text) (i : ℕ) (x : TranscriptionChunk F)
      → get_chunk t i s ≡ some x
      → is_chunk t i c ≡ false
  not_new t i x h = elim (Bool-cases (is_chunk t i c)) [
    | inr other ↦ other
    | inl same ↦
        let key = is_chunk-key t i c same in
        let none_here : get_chunk t i s ≡ none =
          subst₂ (λ y n. get_chunk y n s ≡ none) key.0 key.1 new in
        cc
  ]

  live_filled :
      (t : Text) (i : ℕ) (x : TranscriptionChunk F)
      → get_chunk t i filled ≡ some x
      → open_requests t i filled + b_to_n (is_settled x.status) ≤ 1
  live_filled t i x h = elim (Option-cases (get_chunk t i s)) [
    | inr (y, was) ↦
        let same : y ≡ x = let e = sym (find_filled_old t i y was) ∙ h in cc in
        subst
          (λ (z : TranscriptionChunk F).
            open_requests t i filled + b_to_n (is_settled z.status) ≤ 1)
          same (omega (arith, f.live t i y was, more_open t i, ap b_to_n (not_new t i y was)))
    | inl none_before ↦ elim (Bool-cases (is_chunk t i c)) [
      | inr other ↦ let e = sym (rw other at (find_filled_new t i none_before)) ∙ h in cc
      | inl same ↦
          let e : some c ≡ some x = sym (rw same at (find_filled_new t i none_before)) ∙ h in
          let is_c : c ≡ x = cc in
          let one = more_open t i in
          let at : b_to_n (is_settled c.status) ≡ 0 = rw pending refl in
          subst
            (λ (z : TranscriptionChunk F).
              open_requests t i filled + b_to_n (is_settled z.status) ≤ 1)
            is_c (omega (arith, f.chunkless t i none_before, one, at, ap b_to_n same))
    ]
  ]

  chunkless_filled : (t : Text) (i : ℕ) → get_chunk t i filled ≡ none → open_requests t i filled ≡ 0
  chunkless_filled t i h = elim (Option-cases (get_chunk t i s)) [
    | inr (y, was) ↦ let e = sym (find_filled_old t i y was) ∙ h in cc
    | inl none_before ↦ elim (Bool-cases (is_chunk t i c)) [
      | inl same ↦ let e = sym (rw same at (find_filled_new t i none_before)) ∙ h in cc
      | inr other ↦ omega (arith, f.chunkless t i none_before, more_open t i, ap b_to_n other)
    ]
  ]

  rows_filled : (t : Text) → chunk_rows t filled ≡ chunk_rows t s + b_to_n (eq_text tid t)
  rows_filled t = omega (
    arith,
    count-append (λ (x : TranscriptionChunk F). eq_text x.transcription_id t) s.chunks (c ∷ []),
    count-singleton (λ (x : TranscriptionChunk F). eq_text x.transcription_id t) c,
    ap (λ y. b_to_n (eq_text y t)) mine,
  )

  completed_filled : (t : Text) → completed_rows t filled ≡ completed_rows t s
  completed_filled t =
      let q = λ (x : TranscriptionChunk F). eq_text x.transcription_id t && is_completed x.status in
      let nothing : b_to_n (q c) ≡ 0 = rw pending (and_nothing (eq_text c.transcription_id t)) in
      omega (arith, count-append q s.chunks (c ∷ []), count-singleton q c, nothing)

  announcements-filled : (t : Text) → announcements t filled ≡ announcements t s
  announcements-filled t =
      let silent : b_to_n (announces t o.payload) ≡ 0 = rw asks refl in
      omega (
        arith,
        count-append (λ (x : EventOutbox F). announces t x.payload) s.outbox (o ∷ []),
        count-singleton (λ (x : EventOutbox F). announces t x.payload) o,
        silent,
      )

  pub filled-Filling : Filling tid k filled
  filled-Filling = record {
    live = live_filled;
    chunkless = chunkless_filled;
    counted = λ t j h. omega (arith, f.counted t j h, completed_filled t);
    sized = λ t j h. one_fewer (eq_text tid t) k _ _ _ (f.sized t j h) (rows_filled t);
    jobless = λ t h. elim (Bool-cases (eq_text tid t)) [
      | inl same ↦
          absurd (f.exists (subst (λ x. get_job x s ≡ none) (sym (eq_text_sound tid t same)) h))
      | inr other ↦ omega (arith, f.jobless t h, rows_filled t, ap b_to_n other)
    ];
    announced = λ t j h. omega (arith, f.announced t j h, announcements-filled t);
    unannounced = λ t h. omega (arith, f.unannounced t h, announcements-filled t);
    complete = f.complete;
    worded = f.worded;
    exists = f.exists;
  }
