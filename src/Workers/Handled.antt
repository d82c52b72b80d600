-- ===== src/Workers/Handled.antt =====
-- app/workers/clova.py: a message is handled once the semaphore has room, and the lease is given back.
use onramp_stt_api.Base.{
  ℕ, ◌≤◌, ◌≡◌, inl, inr, refl, ap, Bool, true, false, none, some, List, [], ◌∷◌, All, Text, Unicode,
  leb, Bool-cases,
}
use onramp_stt_api.Float.{Float}
use onramp_stt_api.Errors.{Result}
use onramp_stt_api.Events.{Envelope, ChunkRequested}
use onramp_stt_api.Db.{Store}
use onramp_stt_api.Semaphore.{
  SortedSet, RedisLeaseSemaphore, acquire, release, renew, Uses, never_above_limit,
}
use onramp_stt_api.Clova.{Settings, Draw}
use onramp_stt_api.Clova.Process as Chunks
use onramp_stt_api.Clova.Record as Record
use onramp_stt_api.Workers.{
  Attempt, Beat, wait_for_lease, renew_lease, with_lease, handle_chunk, on_decoded, is_acked,
}

-- One of the attempts finds fewer leases than the limit.
pub data HasRoom {Z : Type 0} ⦃r : SortedSet Z⦄ (sem : RedisLeaseSemaphore)
    : List (Attempt Z) → Z → Type 0 where
  at_once :
      (a : Attempt Z) (attempts : List (Attempt Z)) (z : Z)
      → leb sem.limit (r.zcard (r.zremrangebyscore a.now z)) ≡ false
      → HasRoom sem (a ∷ attempts) z
  later :
      (a : Attempt Z) (attempts : List (Attempt Z)) (z : Z)
      → HasRoom sem attempts (a.others (acquire sem a.now a.lease_id z).1)
      → HasRoom sem (a ∷ attempts) z

module _ {Z : Type 0} ⦃r : SortedSet Z⦄ (sem : RedisLeaseSemaphore) where
  -- What others do to the set are uses of the semaphore as well.
  abbrev pub Keeps : (Z → Z) → Type 0
  Keeps f = (z : Z) → Uses sem z → Uses sem (f z)

  wait_for_lease-given :
      (attempts : List (Attempt Z)) (z : Z)
      → HasRoom sem attempts z
      → (lease : Text) × (wait_for_lease sem attempts z).0 ≡ some lease
  unfolding wait_for_lease acquire
  wait_for_lease-given _ _ (HasRoom.at_once a attempts z room) =
      let given : (acquire sem a.now a.lease_id z).0 ≡ true = rw room refl in
      (a.lease_id, rw given refl)
  wait_for_lease-given _ _ (HasRoom.later a attempts z room) =
      elim (Bool-cases (acquire sem a.now a.lease_id z).0) [
        | inl given ↦ (a.lease_id, rw given refl)
        | inr full ↦
            let (lease, e) =
              wait_for_lease-given attempts (a.others (acquire sem a.now a.lease_id z).1) room in
            (lease, rw full e)
      ]

  wait_for_lease-Uses :
      (attempts : List (Attempt Z)) (z : Z)
      → All (λ a. Keeps a.others) attempts
      → Uses sem z
      → Uses sem (wait_for_lease sem attempts z).1
  unfolding wait_for_lease acquire
  wait_for_lease-Uses [] z h used = used
  wait_for_lease-Uses (a ∷ attempts) z (keeps, h) used =
      let next = Uses.acquired a.now a.lease_id used in
      elim (Bool-cases (acquire sem a.now a.lease_id z).0) [
        | inl given ↦ rw given next
        | inr full ↦ rw full (
            wait_for_lease-Uses attempts (a.others (acquire sem a.now a.lease_id z).1) h
              (keeps (acquire sem a.now a.lease_id z).1 next))
      ]

  renew_lease-Uses :
      (lease : Text) (beats : List (Beat Z)) (z : Z)
      → All (λ b. Keeps b.others) beats
      → Uses sem z
      → Uses sem (renew_lease sem lease beats z)
  unfolding renew_lease
  renew_lease-Uses lease [] z h used = used
  renew_lease-Uses lease (b ∷ beats) z (keeps, h) used =
      let next = Uses.renewed b.now lease (keeps z used) in
      elim (Bool-cases (renew sem b.now lease (b.others z)).0) [
        | inl held ↦
            rw held (renew_lease-Uses lease beats (renew sem b.now lease (b.others z)).1 h next)
        | inr lost ↦ rw lost next
      ]

module _ {F Z : Type 0} ⦃fl : Float F⦄ ⦃u : Unicode⦄ ⦃r : SortedSet Z⦄ where
  -- A message of the chunk worker is handled, to its end, if one of the attempts to get a lease finds
  -- room: whatever comes of the processing, the lease that was given is then released, and the
  -- semaphore holds no more leases than its limit, where all else that is done to it are its uses.
  pub handled_with_room :
      (cfg : Settings F) (w : Record.World F) (claimed_at : ℕ) (d : Draw)
      (committed : Store F → Store F) (sem : RedisLeaseSemaphore) (attempts : List (Attempt Z))
      (beats : List (Beat Z)) (others : Z → Z) (message : Result (Envelope ChunkRequested))
      (worker : Text) (s : Store F) (z : Z)
      → HasRoom sem attempts z
      → Uses sem z
      → All (λ a. Keeps sem a.others) attempts
      → All (λ b. Keeps sem b.others) beats
      → Keeps sem others
      → (acked : Bool) × (s' : Store F) × (z' : Z) × (lease : Text) × handle_chunk cfg w claimed_at
            d committed sem attempts beats others message worker s z
          ≡ some (acked, s', z')
        × (wait_for_lease sem attempts z).0 ≡ some lease
        × r.zscore lease z' ≡ none
        × r.zcard z' ≤ sem.limit
  unfolding handle_chunk with_lease release
  handled_with_room cfg w claimed_at d committed sem attempts beats others message worker s z room
        used h1 h2 h3 =
      let (lease, given) = wait_for_lease-given sem attempts z room in
      let z1 = (wait_for_lease sem attempts z).1 in
      let z2 = others (renew_lease sem lease beats z1) in
      let kept =
        h3 (renew_lease sem lease beats z1)
          (renew_lease-Uses sem lease beats z1 h2 (wait_for_lease-Uses sem attempts z h1 used)) in
      let outcome =
        on_decoded (λ env s. Chunks.process cfg w claimed_at d committed env worker s) message s in
      (
        is_acked outcome,
        outcome.1,
        release lease z2,
        lease,
        ap (λ o. with_lease cfg w claimed_at d committed sem beats others message worker s (o, z1))
            given,
        given,
        r.zscore-zrem lease z2,
        never_above_limit sem (release lease z2) (Uses.released lease kept),
      )
