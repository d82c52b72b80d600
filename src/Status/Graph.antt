-- ===== src/Status/Graph.antt =====
-- What the transition tables of app/services/job_state.py allow over a whole history of statuses.
use mathlib.Core.Path.{subst}
use onramp_stt_api.Base.{
  Bool, true, false, List, [], ◌∷◌, ◌++◌, ◌≡◌, refl, sym, ap, ◌≢◌, ◌⊎◌, arith,
}
use onramp_stt_api.Status.{JobStatus, job_transition}

-- A history of statuses, each step allowed by `JOB_TRANSITIONS`.
pub data History : JobStatus → JobStatus → Type 0 where
  here : {s : JobStatus} → History s s
  next : {s t u : JobStatus} → History s t → job_transition t u ≡ true → History s u

-- The statuses of a history, the last one first.
unfoldable pub statuses : {s t : JobStatus} → History s t → List JobStatus
statuses (here {s}) = s ∷ []
statuses (next {u} r st) = u ∷ statuses r

-- Whatever the table allows leaves neither `correction_completed` nor `cancelled`, and leaves
-- `failed` for `queued` only; and every status but these three has a way to `failed`.
pub final_statuses :
    (t u : JobStatus)
    → job_transition t u ≡ true
    → (t ≢ JobStatus.correction_completed)
      × (t ≢ JobStatus.cancelled)
      × ((t ≢ JobStatus.failed) ⊎ (u ≡ JobStatus.queued))
      × ((t ≡ JobStatus.failed) ⊎ (job_transition t JobStatus.failed ≡ true))
unfolding job_transition
final_statuses t u h = ground arith

-- The one status from which each stage can be entered.
abbrev before : JobStatus → JobStatus
before JobStatus.transcribing = JobStatus.preprocessing
before JobStatus.merging = JobStatus.transcribing
before JobStatus.transcript_completed = JobStatus.merging
before JobStatus.correcting = JobStatus.transcript_completed
before JobStatus.correction_completed = JobStatus.correcting
before _ = JobStatus.queued

abbrev is_stage : JobStatus → Bool
is_stage JobStatus.queued = false
is_stage JobStatus.failed = false
is_stage JobStatus.cancelled = false
is_stage _ = true

enters_from : (t u : JobStatus) → is_stage u ≡ true → job_transition t u ≡ true → t ≡ before u
unfolding job_transition
enters_from t u l h = ground arith

-- A history that is `past`, the last status first, after one that ends in the given status.
abbrev pub LedTo : {s t : JobStatus} → List JobStatus → JobStatus → History s t → Type 0
LedTo {s} past u r = (x : JobStatus) × (q : History s x) × (x ≡ u) × statuses r ≡ past ++ statuses q

-- One step back in a history that began in `queued`.
last_step :
    {s t : JobStatus} (r : History s t) (u : JobStatus)
    → s ≡ JobStatus.queued
    → t ≡ u
    → is_stage u ≡ true
    → LedTo (u ∷ []) (before u) r
unfolding statuses
last_step here u b e l = let k = rw (sym e, b) at l in cc
last_step (next {t} {u = v} r st) u b e l = (
  t,
  r,
  enters_from t u l (subst (λ x. job_transition t x ≡ true) e st),
  ap (λ x. x ∷ statuses r) e,
)

-- A history that begins in `queued` and ends in `correction_completed` ends with `preprocessing`,
-- `transcribing`, `merging`, `transcript_completed`, `correcting` and `correction_completed`, one
-- after another, and was in `queued` before.
pub completed_passed_all :
    {s t : JobStatus} (r : History s t)
    → s ≡ JobStatus.queued
    → t ≡ JobStatus.correction_completed
    → LedTo
        (JobStatus.correction_completed ∷ JobStatus.correcting ∷ JobStatus.transcript_completed
          ∷ JobStatus.merging ∷ JobStatus.transcribing ∷ JobStatus.preprocessing ∷ [])
        JobStatus.queued
        r
completed_passed_all r b e =
    let (_, r1, e1, k1) = last_step r JobStatus.correction_completed b e refl in
    let (_, r2, e2, k2) = last_step r1 JobStatus.correcting b e1 refl in
    let (_, r3, e3, k3) = last_step r2 JobStatus.transcript_completed b e2 refl in
    let (_, r4, e4, k4) = last_step r3 JobStatus.merging b e3 refl in
    let (_, r5, e5, k5) = last_step r4 JobStatus.transcribing b e4 refl in
    let (x, r6, e6, k6) = last_step r5 JobStatus.preprocessing b e5 refl in
    (x, r6, e6, rw (k1, k2, k3, k4, k5, k6) refl)
