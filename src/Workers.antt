-- ===== src/Workers.antt =====
-- app/workers/clova.py and app/workers/orchestrator.py: how one message is handled. What the other
-- workers do to the semaphore and to the database in between are parameters, as are the clock, the ids
-- of the leases and the decoded message; a message is acknowledged by `xack`.
pub mod Handled
use onramp_stt_api.Base.{
  ℕ, Bool, true, false, Option, none, some, List, [], ◌∷◌, Text, Unicode, if◌then◌else◌,
}
use onramp_stt_api.Float.{Float}
use onramp_stt_api.Errors.{Error, Result, ok, err}
use onramp_stt_api.Events.{Envelope, ChunkRequested, TranscriptionRequested}
use onramp_stt_api.Db.{Store}
use onramp_stt_api.Semaphore.{SortedSet, RedisLeaseSemaphore, acquire, release, renew}
use onramp_stt_api.Vad
use onramp_stt_api.Clova.{Settings, Draw}
use onramp_stt_api.Clova.Process as Chunks
use onramp_stt_api.Clova.Record as Record
use onramp_stt_api.Orchestrator.Process.{Limits}
use onramp_stt_api.Orchestrator.Process as Intake

-- A call of `acquire`, with the id that the new lease would have, and what others do to the set before
-- the next call.
pub record Attempt (Z : Type 0) : Type 0 where
  pub now : ℕ
  pub lease_id : Text
  pub others : Z → Z

-- A turn of `renew_lease`: what others do while it sleeps, and the time of the renewal.
pub record Beat (Z : Type 0) : Type 0 where
  pub others : Z → Z
  pub now : ℕ

module _ {Z : Type 0} ⦃r : SortedSet Z⦄ where
  -- `while lease_id is None`, for so many attempts: the lease, if one is given, and the set
  unfoldable pub wait_for_lease : RedisLeaseSemaphore → List (Attempt Z) → Z → Option Text × Z
  wait_for_lease sem [] z = (none, z)
  wait_for_lease sem (a ∷ attempts) z =
      let (given, z') = acquire sem a.now a.lease_id z in
      let waiting = wait_for_lease sem attempts (a.others z') in
      if given then (some a.lease_id, z') else waiting

  -- `renew_lease`, until it is cancelled or the lease is lost
  unfoldable pub renew_lease : RedisLeaseSemaphore → Text → List (Beat Z) → Z → Z
  renew_lease sem lease [] z = z
  renew_lease sem lease (b ∷ beats) z =
      let (held, z') = renew sem b.now lease (b.others z) in
      let onward = renew_lease sem lease beats z' in if held then onward else z'

-- `process` on a decoded message; a message that cannot be decoded is an exception too.
abbrev pub on_decoded :
    {E S : Type 0} → (E → S → Result (Unit {0}) × S) → Result E → S → Result (Unit {0}) × S
on_decoded process (err x) s = (err x, s)
on_decoded process (ok env) s = process env s

-- whether `xack` is reached
abbrev pub is_acked : {S : Type 0} → Result (Unit {0}) × S → Bool
is_acked (ok _, s) = true
is_acked (err x, s) = false

module _ {F Z : Type 0} ⦃fl : Float F⦄ ⦃u : Unicode⦄ ⦃r : SortedSet Z⦄ where
  -- From the lease on: the heartbeat renews it while the message is processed, and it is released
  -- whatever comes of that. `others` is what others do to the set after the last renewal.
  unfoldable pub with_lease :
      Settings F
      → Record.World F
      → ℕ
      → Draw
      → (Store F → Store F)
      → RedisLeaseSemaphore
      → List (Beat Z)
      → (Z → Z)
      → Result (Envelope ChunkRequested)
      → Text
      → Store F
      → Option Text × Z
      → Option (Bool × Store F × Z)
  unfolding renew_lease release
  with_lease cfg w claimed_at d committed sem beats others message worker s (none, z) = none
  with_lease cfg w claimed_at d committed sem beats others message worker s (some lease, z) =
      let outcome =
        on_decoded (λ env s. Chunks.process cfg w claimed_at d committed env worker s) message s in
      some (is_acked outcome, outcome.1, release lease (others (renew_lease sem lease beats z)))

  -- One message of the chunk worker's `run`: whether it is acknowledged, and what it leaves; `none`
  -- while no attempt was given a lease.
  unfoldable pub handle_chunk :
      Settings F
      → Record.World F
      → ℕ
      → Draw
      → (Store F → Store F)
      → RedisLeaseSemaphore
      → List (Attempt Z)
      → List (Beat Z)
      → (Z → Z)
      → Result (Envelope ChunkRequested)
      → Text
      → Store F
      → Z
      → Option (Bool × Store F × Z)
  unfolding wait_for_lease with_lease
  handle_chunk cfg w claimed_at d committed sem attempts beats others message worker s z =
      with_lease cfg w claimed_at d committed sem beats others message worker s
        (wait_for_lease sem attempts z)

module _ {F : Type 0} ⦃fl : Float F⦄ where
  -- One message of the orchestrator's `run`.
  unfoldable pub handle_request :
      Limits F
      → Vad.Settings F
      → Intake.World F
      → ℕ
      → (ℕ → Text)
      → (ℕ → Text)
      → (Store F → Store F)
      → Result (Envelope TranscriptionRequested)
      → Store F
      → Bool × Store F
  handle_request l cfg w now ids events others message s =
      let outcome = on_decoded (Intake.process l cfg w now ids events others) message s in
      (is_acked outcome, outcome.1)
