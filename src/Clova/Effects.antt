-- ===== src/Clova/Effects.antt =====
-- What the transactions of app/services/clova_worker.py leave in the store when they commit.
use mathlib.Core.List.{append-nil}
use onramp_stt_api.Base.{
  ℕ, ◌≡◌, refl, Bool, false, ◌&&◌, some, List, [], ◌∷◌, ◌++◌, Text, ◌==◌, if◌then◌else◌, inl, inr,
  arith, Bool-cases, Unicode, eq_text,
}
use onramp_stt_api.Float.{Float}
use onramp_stt_api.Errors.{Error, ok}
use onramp_stt_api.Events.{Group, Payload}
use onramp_stt_api.Db.{Store, TranscriptionJob, EventOutbox, EventInbox}
use onramp_stt_api.Db.Session.{
  is_processed, mark_processed, add_outbox, ◌>>◌, >>=-ok, pure, raise_if, raise_if-ok, raise_some,
  raise_some-ok,
}
use onramp_stt_api.Clova.Record.{
  World, transcript_row, merged_job, is_incomplete, merge_transcription, chunks_of,
}
use onramp_stt_api.Clova.{result_key, Draw, reports, progress_row, reported_job, record_progress}

abbrev pub receipt : Group → Text → Text → EventInbox
receipt g e ref = record { consumer_group = g; event_id = e; result_reference = some ref }

module _ {F : Type 0} where
  -- The store with rows added at the ends of the outbox and the inbox.
  abbrev pub with_events : List (EventOutbox F) → Store F → Store F
  with_events es s = record s { outbox = s.outbox ++ es }

  abbrev pub with_receipt : EventInbox → Store F → Store F
  with_receipt r s = record s { inbox = s.inbox ++ r ∷ [] }

  pub add_outbox-ok :
      (o : EventOutbox F) (s s' : Store F)
      → add_outbox o s ≡ ok (tt, s')
      → s' ≡ with_events (o ∷ []) s
  unfolding add_outbox
  add_outbox-ok o s s' h = ground arith

  pub mark_processed-ok :
      (g : Group) (e ref : Text) (s s' : Store F)
      → mark_processed g e ref s ≡ ok (tt, s')
      → (s' ≡ with_receipt (receipt g e ref) s) × (is_processed g e s ≡ false)
  unfolding mark_processed
  mark_processed-ok g e ref s s' h = ground arith

module _ {F : Type 0} ⦃fl : Float F⦄ where
  abbrev pub progress_rows : Draw → Bool → TranscriptionJob F → List (EventOutbox F)
  progress_rows d b j = if reports d b j then progress_row d j ∷ [] else []

  abbrev pub progressed_job : Draw → Bool → TranscriptionJob F → TranscriptionJob F
  progressed_job d b j = if reports d b j then reported_job d j else j

  pub record_progress-ok :
      (d : Draw) (b : Bool) (j j' : TranscriptionJob F) (s s' : Store F)
      → record_progress d b j s ≡ ok (j', s')
      → (j' ≡ progressed_job d b j) × (s' ≡ with_events (progress_rows d b j) s)
  unfolding record_progress
  record_progress-ok d b j j' s s' h = elim (Bool-cases (reports d b j)) [
    | inr n ↦ let e = rw n at h in rw (n, append-nil) (ground arith)
    | inl y ↦
        let (_, s1, added, e) =
          >>=-ok (add_outbox (progress_row d j)) (λ _. pure (reported_job d j)) s (rw y at h) in
        rw (y, ← add_outbox-ok (progress_row d j) s s1 added) (ground arith)
  ]

-- What an outbox row asks for: a chunk to be transcribed, or a transcript to be corrected.
abbrev pub asks_for : {F : Type 0} → Text → ℕ → Payload F → Bool
asks_for tid i (Payload.chunk_requested r) = eq_text r.transcription_id tid && r.chunk_index == i
asks_for tid i _ = false

abbrev pub announces : {F : Type 0} → Text → Payload F → Bool
announces tid (Payload.transcript_done t) = eq_text t.transcription_id tid
announces tid _ = false

module _ {F : Type 0} ⦃fl : Float F⦄ where
  pub progress_row-silent :
      (d : Draw) (j : TranscriptionJob F) (tid : Text) (i : ℕ)
      → (asks_for tid i (progress_row d j).payload ≡ false)
        × (announces tid (progress_row d j).payload ≡ false)
  unfolding progress_row
  progress_row-silent d j tid i = (refl, refl)

module _ {F : Type 0} ⦃fl : Float F⦄ ⦃u : Unicode⦄ where
  pub merge_transcription-ok :
      (w : World F) (d : Draw) (j j' : TranscriptionJob F) (s s' : Store F)
      → merge_transcription w d j s ≡ ok (j', s')
      → (is_incomplete (chunks_of j.id s) j ≡ false)
        × (j' ≡ merged_job d (chunks_of j.id s) j)
        × (s' ≡ with_events (transcript_row d j ∷ []) s)
  unfolding merge_transcription
  merge_transcription-ok w d j j' s s' h =
      let cs = chunks_of j.id s in
      let (_, s1, r1, h1) =
        >>=-ok (raise_if (is_incomplete cs j) Error.incomplete_chunks)
          (λ _.
            raise_some (w.upload (result_key j.tenant_id j.id))
            >> (add_outbox (transcript_row d j) >> pure (merged_job d cs j)))
          s h in
      let (_, s2, r2, h2) =
        >>=-ok (raise_some (w.upload (result_key j.tenant_id j.id)))
          (λ _. add_outbox (transcript_row d j) >> pure (merged_job d cs j)) s1 h1 in
      let (_, s3, r3, h3) =
        >>=-ok (add_outbox (transcript_row d j)) (λ _. pure (merged_job d cs j)) s2 h2 in
      let (complete, e1) = raise_if-ok (is_incomplete cs j) Error.incomplete_chunks s r1 in
      let (_, e2) = raise_some-ok (w.upload (result_key j.tenant_id j.id)) s1 r2 in
      let e3 = add_outbox-ok (transcript_row d j) s2 s3 r3 in (complete, ground arith, ground arith)
