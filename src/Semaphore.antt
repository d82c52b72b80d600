-- ===== src/Semaphore.antt =====
-- app/queue/semaphore.py: a sorted set of leases in Redis, scored by their expiry, that bounds the
-- number of calls to the provider at one time. Times are whole microseconds.
use onramp_stt_api.Base.{
  ℕ, ◌+◌, ◌≤◌, ◌≡◌, refl, Bool, true, false, Option, none, some, Text, leb, if◌then◌else◌, is_none,
  Bool-cases, inl, inr, arith,
}

-- What the scripts use of Redis: the commands on one sorted set, as their documentation describes
-- them.
pub record SortedSet (Z : Type 0) : Type 0 where
  pub nothing : Z
  pub zcard : Z → ℕ
  pub zscore : Text → Z → Option ℕ
  pub zadd : ℕ → Text → Z → Z
  pub zrem : Text → Z → Z
  -- ZREMRANGEBYSCORE from -inf
  pub zremrangebyscore : ℕ → Z → Z
  -- EXPIRE; `zcard` and `zscore` do not see the deadline
  pub expire : ℕ → Z → Z
  pub zcard-nothing : zcard nothing ≡ 0
  -- a new member counts one, one that is there only takes the new score
  pub zcard-zadd : (t : ℕ) (m : Text) (z : Z) → zcard (zadd t m z) ≤ zcard z + 1
  pub zcard-zadd_old :
      (t : ℕ) (m : Text) (z : Z) → is_none (zscore m z) ≡ false → zcard (zadd t m z) ≡ zcard z
  pub zcard-zrem : (m : Text) (z : Z) → zcard (zrem m z) ≤ zcard z
  pub zcard-zremrangebyscore : (t : ℕ) (z : Z) → zcard (zremrangebyscore t z) ≤ zcard z
  pub zcard-expire : (t : ℕ) (z : Z) → zcard (expire t z) ≡ zcard z
  pub zscore-zadd : (t : ℕ) (m : Text) (z : Z) → zscore m (zadd t m z) ≡ some t
  pub zscore-expire : (t : ℕ) (m : Text) (z : Z) → zscore m (expire t z) ≡ zscore m z
  pub zscore-zrem : (m : Text) (z : Z) → zscore m (zrem m z) ≡ none

pub record RedisLeaseSemaphore : Type 0 where
  pub limit : ℕ
  pub lease_micros : ℕ

module _ {Z : Type 0} ⦃r : SortedSet Z⦄ where
  -- ACQUIRE_SCRIPT and `acquire`, with the new lease's id; `false` when no lease is given
  unfoldable pub acquire : RedisLeaseSemaphore → ℕ → Text → Z → Bool × Z
  acquire sem now lease z =
      let live = r.zremrangebyscore now z in
      if leb sem.limit (r.zcard live)
      then (false, live)
      else (true, r.expire sem.lease_micros (r.zadd (now + sem.lease_micros) lease live))

  -- `release`
  unfoldable pub release : Text → Z → Z
  release lease z = r.zrem lease z

  -- RENEW_SCRIPT and `renew`
  unfoldable pub renew : RedisLeaseSemaphore → ℕ → Text → Z → Bool × Z
  renew sem now lease z =
      if is_none (r.zscore lease z)
      then (false, z)
      else (true, r.expire sem.lease_micros (r.zadd (now + sem.lease_micros) lease z))

-- What the workers and Redis do to the set, in any order; the key may reach its deadline.
pub data Uses {Z : Type 0} ⦃r : SortedSet Z⦄ (sem : RedisLeaseSemaphore) : Z → Type 0 where
  start : Uses sem r.nothing
  acquired : (now : ℕ) (lease : Text) {z : Z} → Uses sem z → Uses sem ((acquire sem now lease z).1)
  released : (lease : Text) {z : Z} → Uses sem z → Uses sem (release lease z)
  renewed : (now : ℕ) (lease : Text) {z : Z} → Uses sem z → Uses sem ((renew sem now lease z).1)
  expired : {z : Z} → Uses sem z → Uses sem r.nothing

module _ {Z : Type 0} ⦃r : SortedSet Z⦄ where
  acquire-le :
      (sem : RedisLeaseSemaphore) (now : ℕ) (lease : Text) (z : Z)
      → r.zcard z ≤ sem.limit
      → r.zcard (acquire sem now lease z).1 ≤ sem.limit
  unfolding acquire
  acquire-le sem now lease z h =
      let live = r.zremrangebyscore now z in
      let grown = r.zadd (now + sem.lease_micros) lease live in
      ground (
        arith,
        r.zcard-zremrangebyscore now z,
        r.zcard-expire sem.lease_micros grown,
        r.zcard-zadd (now + sem.lease_micros) lease live,
      )

  renew-le :
      (sem : RedisLeaseSemaphore) (now : ℕ) (lease : Text) (z : Z)
      → r.zcard z ≤ sem.limit
      → r.zcard (renew sem now lease z).1 ≤ sem.limit
  unfolding renew
  renew-le sem now lease z h = elim (Bool-cases (is_none (r.zscore lease z))) [
    | inl absent ↦ rw absent h
    | inr held ↦
        let grown = r.zadd (now + sem.lease_micros) lease z in
        rw held (
          ground (
            arith,
            r.zcard-expire sem.lease_micros grown,
            r.zcard-zadd_old (now + sem.lease_micros) lease z held,
          ))
  ]

  -- However leases are acquired, renewed, released and expire, the set never holds more than
  -- `limit` of them.
  pub never_above_limit : (sem : RedisLeaseSemaphore) (z : Z) → Uses sem z → r.zcard z ≤ sem.limit
  unfolding release
  never_above_limit sem _ Uses.start = ground (arith, r.zcard-nothing)
  never_above_limit sem _ (Uses.acquired now lease {z} u) =
      acquire-le sem now lease z (never_above_limit sem z u)
  never_above_limit sem _ (Uses.released lease {z} u) =
      ground (arith, never_above_limit sem z u, r.zcard-zrem lease z)
  never_above_limit sem _ (Uses.renewed now lease {z} u) =
      renew-le sem now lease z (never_above_limit sem z u)
  never_above_limit sem _ (Uses.expired u) = ground (arith, r.zcard-nothing)

  -- A lease that `acquire` has just given can be renewed, and once it is released it cannot.
  pub renewable_until_released :
      (sem : RedisLeaseSemaphore) (now later : ℕ) (lease : Text) (z : Z)
      → (acquire sem now lease z).0 ≡ true
      → ((renew sem later lease (acquire sem now lease z).1).0 ≡ true)
        × ((renew sem later lease (release lease (acquire sem now lease z).1)).0 ≡ false)
  unfolding acquire release renew
  renewable_until_released sem now later lease z h =
      let live = r.zremrangebyscore now z in
      let grown = r.zadd (now + sem.lease_micros) lease live in
      elim (Bool-cases (leb sem.limit (r.zcard live))) [
        | inl full ↦ let k = rw full at h in cc
        | inr room ↦ rw room (
            rw
              (
                r.zscore-expire sem.lease_micros lease grown,
                r.zscore-zadd (now + sem.lease_micros) lease live,
                r.zscore-zrem lease (r.expire sem.lease_micros grown),
              )
              (refl, refl))
      ]
