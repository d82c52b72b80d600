-- ===== src/Pipeline/Process.antt =====
-- `process` of app/services/clova_worker.py over repeated deliveries of one event.
use mathlib.Core.Path.{subst}
use onramp_stt_api.Base.{
  ℕ, ◌≡◌, refl, sym, ◌∙◌, true, not, none, some, Text, eq_text, eq_text_refl, Bool-cases, inl, inr,
  arith, Unicode,
}
use onramp_stt_api.Float.{Float}
use onramp_stt_api.Status.{is_completed}
use onramp_stt_api.Errors.{Error, ok, Result-cases}
use onramp_stt_api.Events.{Group, eq_group, ChunkRequested, Envelope}
use onramp_stt_api.Db.{Store, TranscriptionChunk}
use onramp_stt_api.Db.Session.{
  ◌>>◌, >>=-ok, or_raise, raise_if, pure, get_chunk, is_processed, mark_processed,
}
use onramp_stt_api.Clova.{
  raw_response_key, Settings, ProviderResult, Draw, claim_chunk, claim, can_claim_chunk,
}
use onramp_stt_api.Clova.Record.{World, settle_success, record_success}
use onramp_stt_api.Clova.Failure.{settle_failure, record_failure, can_retry}
use onramp_stt_api.Clova.Process.{attempt, process, as_provider_error}
use onramp_stt_api.Clova.Effects.{mark_processed-ok, receipt, with_receipt}
use onramp_stt_api.Clova.Outcome.{
  settle_success-ok, settle_success_repeated, settle_failure-retry, settle_failure-dead,
}
use onramp_stt_api.Pipeline.Rows.{is_processed-with_receipt}
use onramp_stt_api.Pipeline.Record.{both_found}

module _ {F : Type 0} where
  ticked_off :
      (e ref : Text) (s s' : Store F)
      → s' ≡ with_receipt (receipt Group.clova_workers e ref) s
      → is_processed Group.clova_workers e s' ≡ true
  unfolding eq_group
  ticked_off e ref s s' h =
      let k = is_processed-with_receipt Group.clova_workers Group.clova_workers e e ref s in
      rw h (ground (arith, k, eq_text_refl e))

module _ {F : Type 0} ⦃fl : Float F⦄ ⦃u : Unicode⦄ where
  success_ticks :
      (w : World F) (d : Draw) (r : ChunkRequested) (e raw_key : Text) (result : ProviderResult F)
      (s s' : Store F)
      → record_success w d r e raw_key result s ≡ ok (tt, s')
      → is_processed Group.clova_workers e s' ≡ true
  unfolding record_success
  success_ticks w d r e raw_key result s s' h =
      let (c, j, stored, owner, k) =
        both_found (Unit {0}) r (settle_success w d e raw_key result) s (tt, s') h in
      elim (Bool-cases (is_completed c.status)) [
        | inl done ↦
            let m = sym (settle_success_repeated w d e raw_key result c j s done) ∙ k in
            ticked_off e c.id s s' (mark_processed-ok Group.clova_workers e c.id s s' m).0
        | inr running ↦
            let (j', es, adv, e1, fresh) =
              settle_success-ok w d e raw_key result c j s s' running k in
            ticked_off e c.id _ s' e1
      ]

  failure_ticks :
      (cfg : Settings F) (w : World F) (d : Draw) (r : ChunkRequested) (e : Text) (x : Error)
      (s s' : Store F)
      → record_failure cfg w d r e x s ≡ ok (tt, s')
      → is_processed Group.clova_workers e s' ≡ true
  unfolding record_failure
  failure_ticks cfg w d r e x s s' h =
      let (c, j, stored, owner, k) =
        both_found (Unit {0}) r (settle_failure cfg w d r e x) s (tt, s') h in
      elim (Bool-cases (can_retry cfg x c)) [
        | inl again ↦ ticked_off e c.id _ s' (settle_failure-retry cfg w d r e x c j s s' again k).0
        | inr last ↦ ticked_off e c.id _ s' (settle_failure-dead cfg w d r e x c j s s' last k).0
      ]

  claim_chunk_ticks :
      (cfg : Settings F) (now : ℕ) (e worker : Text) (c : TranscriptionChunk F) (s s' : Store F)
      → claim_chunk cfg now e worker c s ≡ ok (none, s')
      → is_processed Group.clova_workers e s' ≡ true
  unfolding claim_chunk
  claim_chunk_ticks cfg now e worker c s s' h = elim (Bool-cases (is_completed c.status)) [
    | inl done ↦
        let (_, s1, marked, h1) =
          >>=-ok (mark_processed Group.clova_workers e c.id) (λ _. pure none) s (rw done at h) in
        let e2 : s' ≡ s1 = cc in
        ticked_off e c.id s s' (e2 ∙ (mark_processed-ok Group.clova_workers e c.id s s1 marked).0)
    | inr more ↦ elim (Bool-cases (can_claim_chunk c.status c.lease_expires_at now)) [
      | inr refused ↦ let k = rw (more, refused) at h in cc
      | inl free ↦ let k = rw (more, free) at h in cc
    ]
  ]

  claim_ticks :
      (cfg : Settings F) (now : ℕ) (r : ChunkRequested) (e worker : Text) (s s' : Store F)
      → claim cfg now r e worker s ≡ ok (none, s')
      → is_processed Group.clova_workers e s' ≡ true
  unfolding claim
  claim_ticks cfg now r e worker s s' h = elim (Bool-cases (is_processed Group.clova_workers e s)) [
    | inl seen ↦
        let k = rw seen at h in
        let same : s ≡ s' = cc in subst (λ t. is_processed Group.clova_workers e t ≡ true) same seen
    | inr new ↦
        let (c0, s1, got, h1) =
          >>=-ok (or_raise (get_chunk r.transcription_id r.chunk_index s) Error.chunk_not_stored)
            (λ c.
              raise_if (not (eq_text c.chunk_object_key r.chunk_object_key))
                Error.chunk_key_mismatch
              >> claim_chunk cfg now e worker c)
            s (rw new at h) in
        let (_, s2, passed, h2) =
          >>=-ok
            (raise_if (not (eq_text c0.chunk_object_key r.chunk_object_key))
              Error.chunk_key_mismatch)
            (λ _. claim_chunk cfg now e worker c0) s1 h1 in
        claim_chunk_ticks cfg now e worker c0 s2 s' h2
  ]

  -- A delivery that `process` handles without an exception ticks the event off.
  processed_after :
      (cfg : Settings F) (w : World F) (now : ℕ) (d : Draw) (others : Store F → Store F)
      (env : Envelope ChunkRequested) (worker : Text) (s s' : Store F)
      → process cfg w now d others env worker s ≡ (ok tt, s')
      → is_processed Group.clova_workers env.event_id s' ≡ true
  unfolding process
  processed_after cfg w now d others env worker s s' h =
      let e = env.event_id in
      elim (Result-cases (claim cfg now env.payload e worker s)) [
        | inl (x, raised) ↦ let k = rw raised at h in cc
        | inr ((none, s1), idle) ↦
            let k = rw idle at h in
            let same : s1 ≡ s' = cc in
            subst (λ t. is_processed Group.clova_workers e t ≡ true) same
              (claim_ticks cfg now env.payload e worker s s1 idle)
        | inr ((some c, s1), claimed) ↦
            let k = rw claimed at h in
            elim (Result-cases (attempt w env.payload)) [
              | inr (result, fine) ↦
                  let k2 = rw fine at k in
                  elim (Result-cases (
                    record_success w d env.payload e (raw_response_key env.payload) result
                      (others s1))) [
                        | inl (x, raised) ↦ let k3 = rw raised at k2 in cc
                        | inr ((_, s2), done) ↦
                            let k3 = rw done at k2 in
                            let same : s2 ≡ s' = cc in
                            subst (λ t. is_processed Group.clova_workers e t ≡ true) same
                              (success_ticks w d env.payload e (raw_response_key env.payload) result
                                (others s1) s2 done)
                      ]
              | inl (x, lost) ↦
                  let k2 = rw lost at k in
                  elim (Result-cases
                    (record_failure cfg w d env.payload e (as_provider_error x) (others s1))) [
                      | inl (y, raised) ↦ let k3 = rw raised at k2 in cc
                      | inr ((_, s2), done) ↦
                          let k3 = rw done at k2 in
                          let same : s2 ≡ s' = cc in
                          subst (λ t. is_processed Group.clova_workers e t ≡ true) same
                            (failure_ticks cfg w d env.payload e (as_provider_error x) (others s1)
                              s2 done)
                    ]
            ]
      ]

  -- A chunk event that `process` has handled without an exception, whatever came of the
  -- transcription, changes nothing when it is delivered again, to whichever worker and at whatever
  -- time, and raises nothing.
  pub process_once :
      (cfg : Settings F) (w w' : World F) (now later : ℕ) (d d' : Draw)
      (others others' : Store F → Store F) (env : Envelope ChunkRequested) (worker worker' : Text)
      (s s' : Store F)
      → process cfg w now d others env worker s ≡ (ok tt, s')
      → process cfg w' later d' others' env worker' s' ≡ (ok tt, s')
  unfolding process claim
  process_once cfg w w' now later d d' others others' env worker worker' s s' h =
      rw (processed_after cfg w now d others env worker s s' h) refl
