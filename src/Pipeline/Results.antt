-- ===== src/Pipeline/Results.antt =====
-- What `_record_success` of app/services/clova_worker.py writes: the merged transcript of the last
-- chunk.
use mathlib.Core.Path.{subst}
use onramp_stt_api.Base.{
  ℕ, ◌+◌, ◌≡◌, refl, sym, ap, ◌∙◌, true, false, some, List, Text, eq_text, eq_text_refl, ◌==◌,
  select, find_row, find_row-holds, arith, Unicode,
}
use onramp_stt_api.Float.{Float}
use onramp_stt_api.Status.{JobStatus, is_completed}
use onramp_stt_api.Errors.{ok}
use onramp_stt_api.Events.{Group, ChunkRequested}
use onramp_stt_api.Db.{Store, TranscriptionJob, TranscriptionChunk}
use onramp_stt_api.Db.Session.{
  ◌>>◌, >>=-ok, modify, put_job, put_chunk, get_job, get_chunk, is_job, is_chunk, mark_processed,
}
use onramp_stt_api.Merger.{render_plain_text}
use onramp_stt_api.Clova.{ProviderResult, Draw, record_progress}
use onramp_stt_api.Clova.Record.{
  World, merged_segments, chunks_of, order_by_index, merge_transcription, advance_job, succeeded,
  settle_success, record_success,
}
use onramp_stt_api.Clova.Effects.{mark_processed-ok, record_progress-ok, merge_transcription-ok}
use onramp_stt_api.Pipeline.Rows.{get_job-put_job, get_job-key, get_chunk-put_chunk}

module _ {F : Type 0} where
  pub put_job_found :
      (tid : Text) (j j' : TranscriptionJob F) (s : Store F)
      → get_job tid s ≡ some j
      → j'.id ≡ j.id
      → get_job tid (put_job j' s) ≡ some j'
  put_job_found tid j j' s h e =
      let here : eq_text j'.id tid ≡ true = rw (e, get_job-key tid s j h) (eq_text_refl tid) in
      get_job-put_job tid tid j j' s h e ∙ rw here refl

  pub put_chunk_found :
      (tid : Text) (i : ℕ) (c c' : TranscriptionChunk F) (s : Store F)
      → get_chunk tid i s ≡ some c
      → c'.transcription_id ≡ c.transcription_id
      → c'.chunk_index ≡ c.chunk_index
      → get_chunk tid i (put_chunk c' s) ≡ some c'
  put_chunk_found tid i c c' s h e f =
      let here : is_chunk tid i c' ≡ true =
        rw (e, f) (find_row-holds (is_chunk tid i) s.chunks h) in
      get_chunk-put_chunk tid tid i i c c' s h e f ∙ rw here refl

module _ {F : Type 0} ⦃fl : Float F⦄ ⦃u : Unicode⦄ where
  -- The row of a job says what the stored chunks say.
  pub record Merged (j : TranscriptionJob F) (s : Store F) : Type 0 where
    pub status : j.status ≡ JobStatus.transcript_completed
    pub segments : j.merged_segments_json ≡ some (merged_segments (chunks_of j.id s))
    pub text : j.merged_text ≡ some (render_plain_text (merged_segments (chunks_of j.id s)))

  advance_merges :
      (w : World F) (d : Draw) (j j' : TranscriptionJob F) (s s' : Store F)
      → (j.completed_chunks + 1 == j.total_chunks) ≡ true
      → advance_job w d j s ≡ ok (j', s')
      → (j'.id ≡ j.id) × Merged j' s × (s'.jobs ≡ s.jobs) × (s'.chunks ≡ s.chunks)
  unfolding advance_job
  advance_merges w d j j' s s' last h =
      let merging = record j {
        completed_chunks = j.completed_chunks + 1;
        status = JobStatus.merging;
      } in
      let (m, s1, merged, reported) =
        >>=-ok (merge_transcription w d merging) (λ m. record_progress d true m) s (rw last at h) in
      let (_, e1, t1) = merge_transcription-ok w d merging m s s1 merged in
      let (e2, t2) = record_progress-ok d true m j' s1 s' reported in
      (
        ground arith,
        record { status = ground arith; segments = ground arith; text = ground arith },
        ground arith,
        ground arith,
      )

  settle_merges :
      (w : World F) (d : Draw) (e raw_key : Text) (result : ProviderResult F)
      (c : TranscriptionChunk F) (j : TranscriptionJob F) (tid : Text) (s s' : Store F)
      → get_job tid s ≡ some j
      → is_completed c.status ≡ false
      → (j.completed_chunks + 1 == j.total_chunks) ≡ true
      → settle_success w d e raw_key result c j s ≡ ok (tt, s')
      → (j' : TranscriptionJob F) × (get_job tid s' ≡ some j') × Merged j' s'
  unfolding settle_success chunks_of
  settle_merges w d e raw_key result c j tid s s' owner running last h =
      let s0 = put_chunk (succeeded raw_key result c) s in
      let (j', s1, moved, h1) =
        >>=-ok (advance_job w d j)
          (λ j'. modify (put_job j') >> mark_processed Group.clova_workers e c.id) s0
          (rw running at h) in
      let (same_id, merged, same_jobs, same_chunks) = advance_merges w d j j' s0 s1 last moved in
      let (e2, _) = mark_processed-ok Group.clova_workers e c.id (put_job j' s1) s' h1 in
      let owner1 : get_job tid s1 ≡ some j =
        subst (λ l. find_row (is_job tid) l ≡ some j) (sym same_jobs) owner in
      let found = put_job_found tid j j' s1 owner1 same_id in
      let chunks : s'.chunks ≡ s0.chunks = ap (λ (t : Store F). t.chunks) e2 ∙ same_chunks in
      let same : merged_segments (chunks_of j'.id s0) ≡ merged_segments (chunks_of j'.id s') =
        ap
          (λ (l : List (TranscriptionChunk F)).
            merged_segments (order_by_index (select (λ c. eq_text c.transcription_id j'.id) l)))
          (sym chunks) in
      (
        j',
        rw e2 found,
        record {
          status = merged.status;
          segments = merged.segments ∙ ap some same;
          text = merged.text ∙ ap (λ x. some (render_plain_text x)) same;
        },
      )

  -- When `_record_success` commits for a chunk that is not completed and that is the last one of
  -- its job, the job's row is `transcript_completed` and holds the merge of the stored chunks, in
  -- the order of their indices, this one included, and its plain text.
  pub last_chunk_merges :
      (w : World F) (d : Draw) (r : ChunkRequested) (e raw_key : Text) (result : ProviderResult F)
      (c : TranscriptionChunk F) (j : TranscriptionJob F) (s s' : Store F)
      → get_chunk r.transcription_id r.chunk_index s ≡ some c
      → get_job r.transcription_id s ≡ some j
      → is_completed c.status ≡ false
      → (j.completed_chunks + 1 == j.total_chunks) ≡ true
      → record_success w d r e raw_key result s ≡ ok (tt, s')
      → (j' : TranscriptionJob F) × (get_job r.transcription_id s' ≡ some j') × Merged j' s'
  unfolding record_success
  last_chunk_merges w d r e raw_key result c j s s' stored owner running last h =
      let k : settle_success w d e raw_key result c j s ≡ ok (tt, s') = rw (stored, owner) at h in
      settle_merges w d e raw_key result c j r.transcription_id s s' owner running last k
