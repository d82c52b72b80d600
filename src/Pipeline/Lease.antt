-- ===== src/Pipeline/Lease.antt =====
-- The lease that `_claim` of app/services/clova_worker.py puts on a chunk keeps other workers away
-- until it expires.
use mathlib.Core.Path.{subst, subst₂}
use onramp_stt_api.Base.{
  ℕ, ◌+◌, ◌≡◌, refl, ◌∙◌, true, false, not, none, some, Text, eq_text, if◌then◌else◌, leb,
  find_row-holds, Bool-cases, inl, inr, arith,
}
use onramp_stt_api.Float.{Float}
use onramp_stt_api.Status.{ChunkStatus, is_completed}
use onramp_stt_api.Errors.{Error, ok, err}
use onramp_stt_api.Events.{Group, ChunkRequested}
use onramp_stt_api.Db.{Store, TranscriptionChunk}
use onramp_stt_api.Db.Session.{
  ◌>>◌, >>=-ok, or_raise, or_raise-ok, raise_if, raise_if-ok, pure, put_chunk, get_chunk, is_chunk,
  is_processed, mark_processed,
}
use onramp_stt_api.Pipeline.Rows.{get_chunk-put_chunk}
use onramp_stt_api.Clova.{Settings, can_claim_chunk, claim_chunk, claim, seconds, leased}

module _ {F : Type 0} ⦃fl : Float F⦄ where
  -- The chunk of a successful claim, as the transaction stores it.
  pub record Leased (cfg : Settings F) (now : ℕ) (r : ChunkRequested) (worker : Text)
      (c : TranscriptionChunk F) (s : Store F) : Type 0 where
    pub stored : get_chunk r.transcription_id r.chunk_index s ≡ some c
    pub key : eq_text c.chunk_object_key r.chunk_object_key ≡ true
    pub status : c.status ≡ ChunkStatus.processing
    pub owner : c.lease_owner ≡ some worker
    pub expiry : c.lease_expires_at ≡ some (now + seconds cfg.clova_chunk_lease_sec)

  claim_chunk-Leased :
      (cfg : Settings F) (now : ℕ) (r : ChunkRequested) (e worker : Text)
      (c0 c : TranscriptionChunk F) (s s' : Store F)
      → get_chunk r.transcription_id r.chunk_index s ≡ some c0
      → eq_text c0.chunk_object_key r.chunk_object_key ≡ true
      → claim_chunk cfg now e worker c0 s ≡ ok (some c, s')
      → Leased cfg now r worker c s'
  unfolding claim_chunk
  claim_chunk-Leased cfg now r e worker c0 c s s' stored same h =
      elim (Bool-cases (is_completed c0.status)) [
        | inl done ↦
            let (_, s1, marked, h1) =
              >>=-ok (mark_processed Group.clova_workers e c0.id) (λ _. pure none) s
                (rw done at h) in
            cc
        | inr more ↦ elim (Bool-cases (can_claim_chunk c0.status c0.lease_expires_at now)) [
          | inr refused ↦ let k = rw (more, refused) at h in cc
          | inl free ↦
              let k = rw (more, free) at h in
              let own = leased cfg now worker c0 in
              let ec : own ≡ c = cc in
              let es : put_chunk own s ≡ s' = cc in
              let tid = r.transcription_id in
              let here : is_chunk tid r.chunk_index own ≡ true =
                find_row-holds (is_chunk tid r.chunk_index) s.chunks stored in
              let got : get_chunk tid r.chunk_index (put_chunk own s) ≡ some own =
                get_chunk-put_chunk tid tid r.chunk_index r.chunk_index c0 own s stored refl refl
                ∙ rw here refl in
              subst₂ (λ x t. Leased cfg now r worker x t) ec es
                (record { stored = got; key = same; status = refl; owner = refl; expiry = refl })
        ]
      ]

  claim-Leased :
      (cfg : Settings F) (now : ℕ) (r : ChunkRequested) (e worker : Text) (c : TranscriptionChunk F)
      (s s' : Store F)
      → claim cfg now r e worker s ≡ ok (some c, s')
      → Leased cfg now r worker c s'
  unfolding claim
  claim-Leased cfg now r e worker c s s' h =
      elim (Bool-cases (is_processed Group.clova_workers e s)) [
        | inl seen ↦ let k = rw seen at h in cc
        | inr new ↦
            let (c0, s1, got, h1) =
              >>=-ok
                (or_raise (get_chunk r.transcription_id r.chunk_index s) Error.chunk_not_stored)
                (λ c.
                  raise_if (not (eq_text c.chunk_object_key r.chunk_object_key))
                    Error.chunk_key_mismatch
                  >> claim_chunk cfg now e worker c)
                s (rw new at h) in
            let (stored, e1) =
              or_raise-ok (get_chunk r.transcription_id r.chunk_index s) Error.chunk_not_stored s
                got in
            let (_, s2, passed, h2) =
              >>=-ok
                (raise_if (not (eq_text c0.chunk_object_key r.chunk_object_key))
                  Error.chunk_key_mismatch)
                (λ _. claim_chunk cfg now e worker c0) s1 h1 in
            let (same, e2) =
              raise_if-ok (not (eq_text c0.chunk_object_key r.chunk_object_key))
                Error.chunk_key_mismatch s1 passed in
            claim_chunk-Leased cfg now r e worker c0 c s s' stored (ground arith)
              (subst (λ t. claim_chunk cfg now e worker c0 t ≡ ok (some c, s')) (e2 ∙ e1) h2)
      ]

  -- When a worker has claimed a chunk, a claim of the same chunk for an event that is not processed
  -- raises as long as the lease runs; from the moment the lease expires it succeeds, and the chunk
  -- is leased to the other worker.
  pub lease_excludes :
      (cfg : Settings F) (now later : ℕ) (r : ChunkRequested) (e e' worker other : Text)
      (c : TranscriptionChunk F) (s s' : Store F)
      → claim cfg now r e worker s ≡ ok (some c, s')
      → is_processed Group.clova_workers e' s' ≡ false
      → claim cfg later r e' other s' ≡ (
          if leb (now + seconds cfg.clova_chunk_lease_sec) later
          then ok (some (leased cfg later other c), put_chunk (leased cfg later other c) s')
          else err (Error.cannot_claim ChunkStatus.processing))
  unfolding claim can_claim_chunk
  lease_excludes cfg now later r e e' worker other c s s' h fresh =
      let l = claim-Leased cfg now r e worker c s s' h in
      elim (Bool-cases (leb (now + seconds cfg.clova_chunk_lease_sec) later)) [
        | inl free ↦ rw (fresh, l.stored, l.key, l.status, l.expiry, free) refl
        | inr held ↦ rw (fresh, l.stored, l.key, l.status, l.expiry, held) refl
      ]
