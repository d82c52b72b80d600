-- ===== src/Pipeline/Intake/Stored.antt =====
-- The transaction of `_preprocess` of app/services/orchestrator.py that stores the chunks keeps the
-- pipeline's invariant.
use mathlib.Core.Path.{subst}
use onramp_stt_api.Base.{
  ℕ, ◌+◌, ◌≤◌, ◌≡◌, refl, sym, ap, ◌∙◌, false, not, ◌&&◌, none, some, List, [], ◌∷◌, ◌++◌, Text,
  codes, ◌==◌, b_to_n, any, length, Bool-cases, ==_iff, inl, inr, arith,
}
use onramp_stt_api.Float.{Float}
use onramp_stt_api.Errors.{Error, ok}
use onramp_stt_api.Events.{Group, Stream, Payload, TranscriptionRequested}
use onramp_stt_api.Db.{Store, TranscriptionJob, TranscriptionChunk, EventOutbox}
use onramp_stt_api.Db.Session.{
  ◌>>=◌, ◌>>◌, >>=-ok, or_raise, or_raise-ok, pure, modify, gets, branch, put_job, get_job,
  get_chunk, is_chunk, is_processed, mark_processed, add_outbox, new_event,
}
use onramp_stt_api.Vad.{VadChunk}
use onramp_stt_api.Clova.{chunk_aggregate}
use onramp_stt_api.Clova.Effects.{mark_processed-ok, add_outbox-ok, receipt, with_events}
use onramp_stt_api.Orchestrator.{
  AudioMetadata, add_chunk, add_chunks, chunk_row, request_of, transcribing_job, store_chunks,
}
use onramp_stt_api.Pipeline.{Inv, is_merged, is_done, announcements, chunk_rows, completed_rows}
use onramp_stt_api.Pipeline.Rows.{get_job-key, completed_le_rows}
use onramp_stt_api.Pipeline.Quiet.{receipt-Inv, put_job_cases, put_job-none}
use onramp_stt_api.Pipeline.Filling.{Filling, Filling-Inv, filled-Filling, any-find_row}

nothing_done :
    (n n' t t' a rows done : ℕ)
    → t ≡ 0
    → n' ≡ n
    → n ≡ done
    → t ≡ rows
    → done ≤ rows
    → a ≡ b_to_n (not (t == 0) && n == t)
    → a ≡ b_to_n (not (t' == 0) && n' == t')
nothing_done n n' t t' a rows done z e c r l h = ground arith

module _ {F : Type 0} ⦃fl : Float F⦄ where
  event_row :
      ℕ → (ℕ → Text) → TranscriptionRequested → TranscriptionJob F → VadChunk F → EventOutbox F
  event_row now events r j c =
      new_event (events c.index) (codes "transcription_chunk") (chunk_aggregate j.id c.index)
        Stream.chunks (Payload.chunk_requested (request_of r j c)) now now

  add_chunk-ok :
      (c : TranscriptionChunk F) (s s' : Store F)
      → add_chunk c s ≡ ok (tt, s')
      → (get_chunk c.transcription_id c.chunk_index s ≡ none)
        × (s' ≡ record s { chunks = s.chunks ++ c ∷ [] })
  unfolding add_chunk
  add_chunk-ok c s s' h =
      elim (Bool-cases (any (is_chunk c.transcription_id c.chunk_index) s.chunks)) [
        | inl taken ↦ let e = rw taken at h in cc
        | inr free ↦
            let e = rw free at h in
            (any-find_row (is_chunk c.transcription_id c.chunk_index) s.chunks free, ground arith)
      ]

  -- The whole loop fills the job.
  add_chunks-Filling :
      (now : ℕ) (ids events : ℕ → Text) (r : TranscriptionRequested) (j : TranscriptionJob F)
      (cs : List (VadChunk F)) (s s' : Store F)
      → Filling j.id (length cs) s
      → add_chunks now ids events r j cs s ≡ ok (tt, s')
      → Filling j.id 0 s'
  unfolding add_chunks event_row
  add_chunks-Filling now ids events r j [] s s' f h =
      let same : s ≡ s' = ground arith in subst (Filling j.id 0) same f
  add_chunks-Filling now ids events r j (c ∷ cs) s s' f h =
      let row = chunk_row ids r j.id c in
      let event = event_row now events r j c in
      let (_, s1, added, h1) =
        >>=-ok (add_chunk row) (λ _. add_outbox event >> add_chunks now ids events r j cs) s h in
      let (_, s2, sent, h2) =
        >>=-ok (add_outbox event) (λ _. add_chunks now ids events r j cs) s1 h1 in
      let (new, e1) = add_chunk-ok row s s1 added in
      let e2 = add_outbox-ok event s1 s2 sent in
      add_chunks-Filling now ids events r j cs s2 s'
        (subst (Filling j.id (length cs)) (sym (e2 ∙ ap (with_events (event ∷ [])) e1)) (
          filled-Filling j.id (length cs) s f row event (request_of r j c) new refl refl refl refl
            refl))
        h2

  -- A job without chunks that is told how many will come.
  start-Filling :
      (t : Text) (j j' : TranscriptionJob F) (k : ℕ) (s : Store F)
      → Inv s
      → get_job t s ≡ some j
      → j.total_chunks ≡ 0
      → j'.id ≡ j.id
      → j'.completed_chunks ≡ j.completed_chunks
      → j'.total_chunks ≡ k
      → is_merged j'.status ≡ false
      → Filling j'.id k (put_job j' s)
  unfolding is_processed
  start-Filling t j j' k s v stored zero_total same_id same_count total unmerged = record {
    live = v.live;
    chunkless = v.chunkless;
    counted = λ x y h. elim (put_job_cases s v t j j' stored same_id x y h) [
      | inl (_, e, got) ↦ ground (arith, v.counted x j got)
      | inr (_, got) ↦ v.counted x y got
    ];
    sized = λ x y h. elim (put_job_cases s v t j j' stored same_id x y h) [
      | inl (same, e, got) ↦ rw same (
          subst (λ (z : TranscriptionJob F). z.total_chunks ≡ chunk_rows x s + k) e
            (omega (arith, v.sized x j got)))
      | inr (other, got) ↦ rw other (omega (arith, v.sized x y got))
    ];
    jobless = λ x h. v.jobless x (put_job-none s v t j j' stored same_id x h);
    announced = λ x y h. elim (put_job_cases s v t j j' stored same_id x y h) [
      | inl (_, e, got) ↦
          subst (λ (z : TranscriptionJob F). announcements x s ≡ b_to_n (is_done z)) e
            (nothing_done j.completed_chunks j'.completed_chunks j.total_chunks j'.total_chunks
              (announcements x s) (chunk_rows x s) (completed_rows x s) zero_total same_count
              (v.counted x j got) (v.sized x j got) (completed_le_rows x s) (v.announced x j got))
      | inr (_, got) ↦ v.announced x y got
    ];
    unannounced = λ x h. v.unannounced x (put_job-none s v t j j' stored same_id x h);
    complete = λ x y h m. elim (put_job_cases s v t j j' stored same_id x y h) [
      | inl (_, e, got) ↦ ground arith
      | inr (_, got) ↦ v.complete x y got m
    ];
    worded = λ x y h m. elim (put_job_cases s v t j j' stored same_id x y h) [
      | inl (_, e, got) ↦ ground arith
      | inr (_, got) ↦ v.worded x y got m
    ];
    exists = λ h.
        let gone = put_job-none s v t j j' stored same_id j'.id h in
        let here : get_job j'.id s ≡ some j =
          subst (λ x. get_job x s ≡ some j) (sym (same_id ∙ get_job-key t s j stored)) stored in
        let e : none ≡ some j = sym gone ∙ here in cc;
  }

  stored_chunks :
      (now : ℕ) (ids events : ℕ → Text) (r : TranscriptionRequested) (e : Text)
      (m : AudioMetadata F) (cs : List (VadChunk F)) (s s' : Store F) (j : TranscriptionJob F)
      → Inv s
      → get_job r.transcription_id s ≡ some j
      → branch
          (is_processed Group.orchestrators e s)
          (pure tt)
          (branch (not (j.total_chunks == 0)) (mark_processed Group.orchestrators e j.id) (
            modify (put_job (transcribing_job m r (length cs) j))
            >> (add_chunks now ids events r j cs >> mark_processed Group.orchestrators e j.id)))
          s
        ≡ ok (tt, s')
      → Inv s'
  stored_chunks now ids events r e m cs s s' j v stored h =
      elim (Bool-cases (is_processed Group.orchestrators e s)) [
        | inl seen ↦ let k = rw seen at h in let same : s ≡ s' = ground arith in subst Inv same v
        | inr fresh ↦ elim (Bool-cases (j.total_chunks == 0)) [
          | inr cut ↦
              let (e1, _) =
                mark_processed-ok Group.orchestrators e j.id s s' (rw (fresh, cut) at h) in
              subst Inv (sym e1) (receipt-Inv s v (receipt Group.orchestrators e j.id))
          | inl uncut ↦
              let j' = transcribing_job m r (length cs) j in
              let (_, s1, filled, h1) =
                >>=-ok (add_chunks now ids events r j cs)
                  (λ _. mark_processed Group.orchestrators e j.id) (put_job j' s)
                  (rw (fresh, uncut) at h) in
              let start =
                start-Filling r.transcription_id j j' (length cs) s v stored ((==_iff _ _).0 uncut)
                  refl refl refl refl in
              let full =
                Filling-Inv j.id s1
                  (add_chunks-Filling now ids events r j cs (put_job j' s) s1 start filled) in
              let (e1, _) = mark_processed-ok Group.orchestrators e j.id s1 s' h1 in
              subst Inv (sym e1) (receipt-Inv s1 full (receipt Group.orchestrators e j.id))
        ]
      ]

  -- Storing the chunks keeps the invariant.
  pub store_chunks-Inv :
      (now : ℕ) (ids events : ℕ → Text) (r : TranscriptionRequested) (e : Text)
      (m : AudioMetadata F) (cs : List (VadChunk F)) (s s' : Store F)
      → Inv s
      → store_chunks now ids events r e m cs s ≡ ok (tt, s')
      → Inv s'
  unfolding store_chunks
  store_chunks-Inv now ids events r e m cs s s' v h =
      let (j, s1, owner, h1) =
        >>=-ok (or_raise (get_job r.transcription_id s) Error.row_disappeared)
          (λ j. gets (is_processed Group.orchestrators e) >>= λ seen. branch seen (pure tt) (
            branch (not (j.total_chunks == 0)) (mark_processed Group.orchestrators e j.id) (
              modify (put_job (transcribing_job m r (length cs) j))
              >> (add_chunks now ids events r j cs >> mark_processed Group.orchestrators e j.id))))
          s h in
      let (stored, e1) = or_raise-ok (get_job r.transcription_id s) Error.row_disappeared s owner in
      stored_chunks now ids events r e m cs s s' j v stored (
        subst
          (λ t.
            branch (is_processed Group.orchestrators e t) (pure tt)
              (branch (not (j.total_chunks == 0)) (mark_processed Group.orchestrators e j.id) (
                modify (put_job (transcribing_job m r (length cs) j))
                >> (add_chunks now ids events r j cs >> mark_processed Group.orchestrators e j.id)))
              t
            ≡ ok (tt, s'))
          e1 h1)
