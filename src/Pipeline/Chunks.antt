-- ===== src/Pipeline/Chunks.antt =====
-- A chunk that changes hands, neither settled before nor after, keeps the pipeline's invariant.
use mathlib.Core.Path.{subst, subst₂}
use onramp_stt_api.Base.{
  ℕ, ◌+◌, ◌≤◌, ◌≡◌, ◌⊎◌, sym, ap, ◌∙◌, ◌&&◌, none, some, Text, eq_text, b_to_n, Bool-cases, inl,
  inr, arith,
}
use onramp_stt_api.Status.{is_completed}
use onramp_stt_api.Db.{Store, TranscriptionChunk}
use onramp_stt_api.Db.Session.{get_chunk, is_chunk, is_processed, put_chunk}
use onramp_stt_api.Pipeline.{Inv, is_settled, open_requests, chunk_rows, completed_rows}
use onramp_stt_api.Pipeline.Rows.{get_chunk-key, get_chunk-put_chunk, is_chunk-key, count-put_chunk}

module _ {F : Type 0} (s : Store F) (v : Inv s) (t : Text) (k : ℕ) (c c' : TranscriptionChunk F)
    (stored : get_chunk t k s ≡ some c) (same_job : c'.transcription_id ≡ c.transcription_id)
    (same_index : c'.chunk_index ≡ c.chunk_index)
    (settled : b_to_n (is_settled c'.status) ≤ b_to_n (is_settled c.status))
    (completed : is_completed c'.status ≡ is_completed c.status) where
  put_chunk_cases :
      (tid : Text) (i : ℕ) (x : TranscriptionChunk F)
      → get_chunk tid i (put_chunk c' s) ≡ some x
      → ((c' ≡ x) × (get_chunk tid i s ≡ some c)) ⊎ (get_chunk tid i s ≡ some x)
  put_chunk_cases tid i x h =
      let e = get_chunk-put_chunk tid t i k c c' s stored same_job same_index in
      elim (Bool-cases (is_chunk tid i c')) [
        | inl same ↦
            let got : some c' ≡ some x = sym (rw same at e) ∙ h in
            let at = is_chunk-key tid i c' same in
            let was = get_chunk-key t k s c stored in
            inl (
              cc,
              subst₂ (λ y n. get_chunk y n s ≡ some c) (sym was.0 ∙ sym same_job ∙ at.0)
                  (sym was.1 ∙ sym same_index ∙ at.1) stored,
            )
        | inr other ↦ inr (sym (rw other at e) ∙ h)
      ]

  put_chunk-none :
      (tid : Text) (i : ℕ) → get_chunk tid i (put_chunk c' s) ≡ none → get_chunk tid i s ≡ none
  put_chunk-none tid i h =
      let e = get_chunk-put_chunk tid t i k c c' s stored same_job same_index in
      elim (Bool-cases (is_chunk tid i c')) [
        | inl same ↦ let got = sym (rw same at e) ∙ h in cc
        | inr other ↦ sym (rw other at e) ∙ h
      ]

  rows_same : (tid : Text) → chunk_rows tid (put_chunk c' s) ≡ chunk_rows tid s
  rows_same tid = omega (
    arith,
    count-put_chunk (λ x. eq_text x.transcription_id tid) t k c c' s stored same_job same_index,
    ap (λ y. b_to_n (eq_text y tid)) same_job,
  )

  completed_same : (tid : Text) → completed_rows tid (put_chunk c' s) ≡ completed_rows tid s
  completed_same tid = omega (
    arith,
    count-put_chunk (λ x. eq_text x.transcription_id tid && is_completed x.status) t k c c' s stored
        same_job same_index,
    ap (λ y. b_to_n (eq_text y tid && is_completed c'.status)) same_job,
    ap (λ b. b_to_n (eq_text c.transcription_id tid && b)) completed,
  )

  pub chunk-Inv : Inv (put_chunk c' s)
  unfolding is_processed
  chunk-Inv = record {
    live = λ tid i x h. elim (put_chunk_cases tid i x h) [
      | inl (e, got) ↦
          subst
            (λ (y : TranscriptionChunk F). open_requests tid i s + b_to_n (is_settled y.status) ≤ 1)
            e (omega (arith, v.live tid i c got))
      | inr got ↦ v.live tid i x got
    ];
    chunkless = λ tid i h. v.chunkless tid i (put_chunk-none tid i h);
    counted = λ tid x h. omega (arith, v.counted tid x h, completed_same tid);
    sized = λ tid x h. omega (arith, v.sized tid x h, rows_same tid);
    jobless = λ tid h. omega (arith, v.jobless tid h, rows_same tid);
    announced = v.announced;
    unannounced = v.unannounced;
    complete = v.complete;
    worded = v.worded;
  }
