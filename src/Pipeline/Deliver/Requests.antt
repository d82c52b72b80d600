-- ===== src/Pipeline/Deliver/Requests.antt =====
-- The requests and the chunks after the delivery of a chunk request of app/services/clova_worker.py.
use onramp_stt_api.Base.{
  ℕ, ◌+◌, ◌≤◌, ◌≡◌, refl, sym, ◌∙◌, false, ◌&&◌, none, some, List, Text, if◌then◌else◌, b_to_n,
  find_row-append_found, Bool-cases, inl, inr, arith,
}
use mathlib.Core.Path.{subst, subst₂}
use onramp_stt_api.Status.{ChunkStatus, is_completed}
use onramp_stt_api.Db.{Store, TranscriptionJob, TranscriptionChunk, EventOutbox}
use onramp_stt_api.Db.Session.{get_chunk, is_event, is_chunk, is_processed, put_job, put_chunk}
use onramp_stt_api.Clova.Effects.{with_events, asks_for}
use onramp_stt_api.Clova.Outcome.{requests_in, outcome}
use onramp_stt_api.Pipeline.{Inv, is_settled, open_requests}
use onramp_stt_api.Pipeline.Rows.{
  get_chunk-put_chunk, open-with_events, open-with_receipt, is_chunk_refl, is_chunk-key,
}
use onramp_stt_api.Pipeline.Deliver.{Delivery}

not_completed : (t : ChunkStatus) → b_to_n (is_settled t) ≡ 0 → is_completed t ≡ false
not_completed t h = ground arith

module _ {F : Type 0} (s : Store F) (c c' : TranscriptionChunk F) (j j' : TranscriptionJob F)
    (es : List (EventOutbox F)) (e : Text) (row : EventOutbox F) (v : Inv s)
    (d : Delivery s c c' j j' es e row) where
  abbrev after : Store F
  after = outcome c' j' es e s

  requests_after :
      (tid : Text) (i : ℕ)
      → open_requests tid i after + b_to_n (asks_for tid i row.payload)
        ≤ open_requests tid i s + requests_in tid i es
  unfolding is_processed
  requests_after tid i =
      let t = put_job j' (with_events es (put_chunk c' s)) in
      omega (
        arith,
        open-with_receipt tid i e c'.id t row
            (find_row-append_found (is_event e) s.outbox es d.published) d.fresh,
        open-with_events tid i es s,
      )

  -- The chunk had an open request, so it was not settled.
  unsettled : b_to_n (is_settled c.status) ≡ 0
  unsettled =
      let tid = c'.transcription_id in
      let i = c'.chunk_index in
      let one : b_to_n (asks_for tid i row.payload) ≡ 1 = rw d.asked refl in
      omega (
        arith,
        one,
        v.live tid i c d.stored,
        open-with_receipt tid i e c'.id s row d.published d.fresh,
      )

  pub uncompleted : is_completed c.status ≡ false
  uncompleted = not_completed c.status unsettled

  found :
      (tid : Text) (i : ℕ)
      → get_chunk tid i after ≡ (if is_chunk tid i c' then some c' else get_chunk tid i s)
  found tid i =
      get_chunk-put_chunk tid c'.transcription_id i c'.chunk_index c c' s d.stored d.same_job
        d.same_index

  live_here :
      open_requests c'.transcription_id c'.chunk_index after + b_to_n (is_settled c'.status) ≤ 1
  live_here =
      let tid = c'.transcription_id in
      let i = c'.chunk_index in
      let one : b_to_n (asks_for tid i row.payload) ≡ 1 = rw d.asked refl in
      let again : requests_in tid i es + b_to_n (is_settled c'.status) ≤ 1 =
        subst (λ b. requests_in tid i es + b_to_n (b && is_settled c'.status) ≤ b_to_n b)
          (is_chunk_refl c') (d.asks_again tid i) in
      omega (arith, one, again, v.live tid i c d.stored, requests_after tid i)

  elsewhere :
      (tid : Text) (i : ℕ)
      → is_chunk tid i c' ≡ false
      → open_requests tid i after ≤ open_requests tid i s
  elsewhere tid i other =
      let none_new : requests_in tid i es + 0 ≤ 0 =
        subst (λ b. requests_in tid i es + b_to_n (b && is_settled c'.status) ≤ b_to_n b) other
          (d.asks_again tid i) in
      omega (arith, none_new, requests_after tid i)

  pub live_after :
      (tid : Text) (i : ℕ) (x : TranscriptionChunk F)
      → get_chunk tid i after ≡ some x
      → open_requests tid i after + b_to_n (is_settled x.status) ≤ 1
  live_after tid i x h = elim (Bool-cases (is_chunk tid i c')) [
    | inl same ↦
        let k = is_chunk-key tid i c' same in
        let got : some c' ≡ some x = sym (rw same at (found tid i)) ∙ h in
        let same_chunk : c' ≡ x = cc in
        subst
          (λ (y : TranscriptionChunk F).
            open_requests tid i after + b_to_n (is_settled y.status) ≤ 1)
          same_chunk
          (subst₂ (λ t n. open_requests t n after + b_to_n (is_settled c'.status) ≤ 1) k.0 k.1
            live_here)
    | inr other ↦
        let got : get_chunk tid i s ≡ some x = sym (rw other at (found tid i)) ∙ h in
        omega (arith, v.live tid i x got, elsewhere tid i other)
  ]

  pub chunkless_after :
      (tid : Text) (i : ℕ) → get_chunk tid i after ≡ none → open_requests tid i after ≡ 0
  chunkless_after tid i h = elim (Bool-cases (is_chunk tid i c')) [
    | inl same ↦ let got = sym (rw same at (found tid i)) ∙ h in cc
    | inr other ↦
        let got : get_chunk tid i s ≡ none = sym (rw other at (found tid i)) ∙ h in
        omega (arith, v.chunkless tid i got, elsewhere tid i other)
  ]
