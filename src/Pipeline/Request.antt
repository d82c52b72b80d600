-- ===== src/Pipeline/Request.antt =====
-- What `process` of app/services/orchestrator.py leaves of a request that it raises for.
use mathlib.Core.Path.{subst}
use onramp_stt_api.Base.{
  ℕ, ◌≡◌, ◌⊎◌, inl, inr, refl, ap, ◌∙◌, none, some, Text, Bool-cases, Option-cases,
}
use onramp_stt_api.Float.{Float}
use onramp_stt_api.Status.{JobStatus}
use onramp_stt_api.Errors.{Error, Result, err, Result-cases, code_or_name}
use onramp_stt_api.Events.{Group, TranscriptionRequested, Envelope}
use onramp_stt_api.Db.{Store, TranscriptionJob}
use onramp_stt_api.Db.Session.{get_job, is_processed}
use onramp_stt_api.Vad
use onramp_stt_api.Orchestrator.{ensure_job, store_chunks, mark_failed_found, mark_failed}
use onramp_stt_api.Orchestrator.Process.{World, Limits, prepare, process}
use onramp_stt_api.Pipeline.Results.{put_job_found}

module _ {F : Type 0} where
  -- The job of an id is marked as failed by an error, if there is one.
  pub data FailedBy (tid : Text) (x : Error) (s : Store F) : Type 0 where
    absent : get_job tid s ≡ none → FailedBy tid x s
    marked :
        (j : TranscriptionJob F)
        → get_job tid s ≡ some j
        → j.status ≡ JobStatus.failed
        → j.error_code ≡ code_or_name x
        → FailedBy tid x s

module _ {F : Type 0} ⦃fl : Float F⦄ where
  mark_failed-FailedBy :
      (tid : Text) (x : Error) (s : Store F) → FailedBy tid x (mark_failed tid x s)
  unfolding mark_failed
  mark_failed-FailedBy tid x s = elim (Option-cases (get_job tid s)) [
    | inl gone ↦ rw (gone, mark_failed_found) (FailedBy.absent gone)
    | inr (j, stored) ↦
        rw (stored, mark_failed_found)
          (FailedBy.marked _ (put_job_found tid j _ s stored refl) refl refl)
  ]

  marked_by :
      (tid : Text) (x y : Error) (s s' : Store F)
      → ◌≡◌ {A = Result (Unit {0}) × Store F} (err y, mark_failed tid y s) (err x, s')
      → FailedBy tid x s'
  marked_by tid x y s s' h =
      let ex : y ≡ x = cc in
      let es : mark_failed tid y s ≡ s' = cc in
      subst (λ t. FailedBy tid x t) es
        (subst (λ z. FailedBy tid z (mark_failed tid y s)) ex (mark_failed-FailedBy tid y s))

  -- When `process` raises, then either the event does not match the job and nothing has changed, or
  -- the job is `failed` with the exception's `code`, or its type's name if it has none, whatever step raised it: unless there is no
  -- such job any more.
  pub raised_request :
      (l : Limits F) (cfg : Vad.Settings F) (w : World F) (now : ℕ) (ids events : ℕ → Text)
      (others : Store F → Store F) (env : Envelope TranscriptionRequested) (x : Error)
      (s s' : Store F)
      → process l cfg w now ids events others env s ≡ (err x, s')
      → ((ensure_job now env.payload s ≡ err x) × (s' ≡ s))
        ⊎ FailedBy env.payload.transcription_id x s'
  unfolding process
  raised_request l cfg w now ids events others env x s s' h =
      let r = env.payload in
      let e = env.event_id in
      elim (Bool-cases (is_processed Group.orchestrators e s)) [
        | inl seen ↦ let k = rw seen at h in cc
        | inr fresh ↦ elim (Result-cases (ensure_job ⦃fl = fl⦄ now r s)) [
          | inl (y, refused) ↦
              let k = rw (fresh, refused) at h in
              let ex : y ≡ x = cc in inl (refused ∙ ap err ex, cc)
          | inr ((_, s1), there) ↦ elim (Result-cases (prepare l cfg w r)) [
            | inl (y, lost) ↦
                let k = rw (fresh, there, lost) at h in
                inr (marked_by r.transcription_id x y (others s1) s' k)
            | inr ((m, cs), made) ↦
                elim (Result-cases (store_chunks ⦃fl = fl⦄ now ids events r e m cs (others s1))) [
                  | inr (_, stored) ↦ let k = rw (fresh, there, made, stored) at h in cc
                  | inl (y, lost) ↦
                      let k = rw (fresh, there, made, lost) at h in
                      inr (marked_by r.transcription_id x y (others s1) s' k)
                ]
          ]
        ]
      ]
