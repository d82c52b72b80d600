-- ===== src/Pipeline/Worker.antt =====
-- The three transactions of app/services/clova_worker.py keep the pipeline's invariant.
use mathlib.Core.Path.{subst}
use onramp_stt_api.Base.{
  ℕ, ◌≡◌, refl, sym, ◌∙◌, true, false, not, Option, none, some, Text, eq_text, Bool-cases, inl, inr,
  arith,
}
use onramp_stt_api.Float.{Float}
use onramp_stt_api.Status.{ChunkStatus, is_completed}
use onramp_stt_api.Errors.{Error, ok}
use onramp_stt_api.Events.{Group, ChunkRequested}
use onramp_stt_api.Db.{Store, TranscriptionChunk}
use onramp_stt_api.Db.Session.{
  ◌>>◌, >>=-ok, or_raise, or_raise-ok, raise_if, raise_if-ok, pure, put_chunk, get_chunk,
  is_processed, mark_processed,
}
use onramp_stt_api.Clova.{Settings, can_claim_chunk, claim_chunk, claim, leased}
use onramp_stt_api.Clova.Effects.{mark_processed-ok, receipt}
use onramp_stt_api.Pipeline.{Inv, is_settled}
use onramp_stt_api.Pipeline.Quiet.{receipt-Inv}
use onramp_stt_api.Pipeline.Chunks.{chunk-Inv}

-- A chunk that may be claimed is neither completed nor failed.
claimable_open :
    (t : ChunkStatus) (lease : Option ℕ) (now : ℕ)
    → can_claim_chunk t lease now ≡ true
    → (is_settled t ≡ false) × (is_completed t ≡ false)
unfolding can_claim_chunk
claimable_open t lease now h = ground arith

module _ {F : Type 0} ⦃fl : Float F⦄ where
  claim_chunk-Inv :
      (cfg : Settings F) (now : ℕ) (e worker tid : Text) (i : ℕ) (c : TranscriptionChunk F)
      (x : Option (TranscriptionChunk F)) (s s' : Store F)
      → Inv s
      → get_chunk tid i s ≡ some c
      → claim_chunk cfg now e worker c s ≡ ok (x, s')
      → Inv s'
  unfolding claim_chunk
  claim_chunk-Inv cfg now e worker tid i c x s s' v stored h =
      elim (Bool-cases (is_completed c.status)) [
        | inl done ↦
            let (_, s1, marked, h1) =
              >>=-ok (mark_processed Group.clova_workers e c.id) (λ _. pure none) s
                (rw done at h) in
            let (e1, _) = mark_processed-ok Group.clova_workers e c.id s s1 marked in
            let e2 : s' ≡ s1 = ground arith in
            subst Inv (sym (e2 ∙ e1)) (receipt-Inv s v (receipt Group.clova_workers e c.id))
        | inr more ↦ elim (Bool-cases (can_claim_chunk c.status c.lease_expires_at now)) [
          | inr refused ↦ let k = rw (more, refused) at h in cc
          | inl free ↦
              let k = rw (more, free) at h in
              let e1 : s' ≡ put_chunk (leased cfg now worker c) s = ground arith in
              let was = claimable_open c.status c.lease_expires_at now free in
              subst Inv (sym e1) (
                chunk-Inv s v tid i c (leased cfg now worker c) stored refl refl (omega arith)
                  (sym more))
        ]
      ]

  -- Claiming a chunk, or finding nothing to do, keeps the invariant.
  pub claim-Inv :
      (cfg : Settings F) (now : ℕ) (r : ChunkRequested) (e worker : Text)
      (x : Option (TranscriptionChunk F)) (s s' : Store F)
      → Inv s
      → claim cfg now r e worker s ≡ ok (x, s')
      → Inv s'
  unfolding claim
  claim-Inv cfg now r e worker x s s' v h =
      elim (Bool-cases (is_processed Group.clova_workers e s)) [
        | inl seen ↦
            let k = rw seen at h in let same : s' ≡ s = ground arith in subst Inv (sym same) v
        | inr new ↦
            let (c, s1, got, h1) =
              >>=-ok
                (or_raise (get_chunk r.transcription_id r.chunk_index s) Error.chunk_not_stored)
                (λ c.
                  raise_if (not (eq_text c.chunk_object_key r.chunk_object_key))
                    Error.chunk_key_mismatch
                  >> claim_chunk cfg now e worker c)
                s (rw new at h) in
            let (stored, e1) =
              or_raise-ok (get_chunk r.transcription_id r.chunk_index s) Error.chunk_not_stored s
                got in
            let (_, s2, passed, h2) =
              >>=-ok
                (raise_if (not (eq_text c.chunk_object_key r.chunk_object_key))
                  Error.chunk_key_mismatch)
                (λ _. claim_chunk cfg now e worker c) s1 h1 in
            let (_, e2) =
              raise_if-ok (not (eq_text c.chunk_object_key r.chunk_object_key))
                Error.chunk_key_mismatch s1 passed in
            claim_chunk-Inv cfg now e worker r.transcription_id r.chunk_index c x s s' v stored
              (subst (λ t. claim_chunk cfg now e worker c t ≡ ok (x, s')) (e2 ∙ e1) h2)
      ]
