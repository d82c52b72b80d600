-- ===== src/Tests/Leases.antt =====
-- A sorted set as a list of scored members, and the semaphore of app/queue/semaphore.py on it.
use onramp_stt_api.Base.{
  ℕ, ◌+◌, ◌≤◌, ◌≡◌, refl, Bool, true, false, Option, none, some, List, [], ◌∷◌, Text, codes,
  eq_text, eq_text_refl, leb, if◌then◌else◌, is_none, length, arith,
}
use onramp_stt_api.Semaphore.{
  SortedSet, RedisLeaseSemaphore, acquire, release, renew, Uses, never_above_limit,
  renewable_until_released,
}
use onramp_stt_api.Errors.{ok}
use onramp_stt_api.Events.{Envelope, ChunkRequested}
use onramp_stt_api.Db.{Store}
use onramp_stt_api.Workers.{Attempt, wait_for_lease, handle_chunk}
use onramp_stt_api.Workers.Handled.{HasRoom, handled_with_room}
use onramp_stt_api.Tests.Scenario.{float, unicode, settings, world, draw, chunk_request, s2}

abbrev Scored : Type 0
Scored = List (Text × ℕ)

abbrev score : Text → Scored → Option ℕ
score m [] = none
score m ((n, t) ∷ z) = let rest = score m z in if eq_text n m then some t else rest

abbrev add : ℕ → Text → Scored → Scored
add t m [] = (m, t) ∷ []
add t m ((n, u) ∷ z) = let rest = add t m z in if eq_text n m then (n, t) ∷ z else (n, u) ∷ rest

abbrev remove : Text → Scored → Scored
remove m [] = []
remove m ((n, u) ∷ z) = let rest = remove m z in if eq_text n m then rest else (n, u) ∷ rest

abbrev remove_up_to : ℕ → Scored → Scored
remove_up_to t [] = []
remove_up_to t ((n, u) ∷ z) = let rest = remove_up_to t z in if leb u t then rest else (n, u) ∷ rest

length-add : (t : ℕ) (m : Text) (z : Scored) → length (add t m z) ≤ length z + 1
length-add t m [] = omega arith
length-add t m ((n, u) ∷ z) = ground (arith, length-add t m z)

length-add_old :
    (t : ℕ) (m : Text) (z : Scored) → is_none (score m z) ≡ false → length (add t m z) ≡ length z
length-add_old t m [] h = cc
length-add_old t m ((n, u) ∷ z) h = ground (arith, length-add_old t m z)

length-remove : (m : Text) (z : Scored) → length (remove m z) ≤ length z
length-remove m [] = omega arith
length-remove m ((n, u) ∷ z) = ground (arith, length-remove m z)

length-remove_up_to : (t : ℕ) (z : Scored) → length (remove_up_to t z) ≤ length z
length-remove_up_to t [] = omega arith
length-remove_up_to t ((n, u) ∷ z) = ground (arith, length-remove_up_to t z)

score-add : (t : ℕ) (m : Text) (z : Scored) → score m (add t m z) ≡ some t
score-add t m [] = rw (eq_text_refl m) refl
score-add t m ((n, u) ∷ z) = ground (arith, score-add t m z)

score-remove : (m : Text) (z : Scored) → score m (remove m z) ≡ none
score-remove m [] = refl
score-remove m ((n, u) ∷ z) = ground (arith, score-remove m z)

instance abbrev scored : SortedSet Scored
scored = record {
  nothing = [];
  zcard = length;
  zscore = score;
  zadd = add;
  zrem = remove;
  zremrangebyscore = remove_up_to;
  expire = λ t z. z;
  zcard-nothing = refl;
  zcard-zadd = length-add;
  zcard-zadd_old = length-add_old;
  zcard-zrem = length-remove;
  zcard-zremrangebyscore = length-remove_up_to;
  zcard-expire = λ t z. refl;
  zscore-zadd = score-add;
  zscore-expire = λ t m z. refl;
  zscore-zrem = score-remove;
}

-- one lease at a time, for ten
abbrev one : RedisLeaseSemaphore
one = record { limit = 1; lease_micros = 10 }

abbrev held : Scored
held = (codes "a", 15) ∷ []

-- The second lease is refused, and granted when the first has expired.
refused_test :
    (acquire one 5 (codes "a") [] ≡ (true, held))
    × ((acquire one 9 (codes "b") held).0 ≡ false)
    × ((acquire one 15 (codes "b") held).0 ≡ true)
unfolding acquire
refused_test = (refl, refl, refl)

uses_held : Uses one held
unfolding acquire
uses_held = Uses.acquired 5 (codes "a") Uses.start

never_above_limit_example : length held ≤ 1
never_above_limit_example = never_above_limit one held uses_held

renewable_until_released_example :
    ((renew one 12 (codes "a") held).0 ≡ true)
    × ((renew one 12 (codes "a") (release (codes "a") held)).0 ≡ false)
unfolding acquire
renewable_until_released_example = renewable_until_released one 5 12 (codes "a") [] refl

-- The first attempt finds the set full, the second comes when the lease has expired.
abbrev waiting : List (Attempt Scored)
waiting =
    record { now = 9; lease_id = codes "b"; others = λ z. z }
    ∷ record { now = 15; lease_id = codes "c"; others = λ z. z }
    ∷ []

abbrev message : Envelope ChunkRequested
message = record { event_id = codes "e"; payload = chunk_request }

handled_with_room_example :
    (acked : Bool) × (s' : Store ℕ) × (z' : Scored) × (lease : Text) × handle_chunk settings world
        30 draw
        (λ s. s)
        one
        waiting
        (record { others = λ z. z; now = 20 } ∷ [])
        (λ z. z)
        (ok message)
        (codes "w1")
        s2
        held
      ≡ some (acked, s', z')
    × (wait_for_lease one waiting held).0 ≡ some lease
    × score lease z' ≡ none
    × length z' ≤ 1
unfolding acquire
handled_with_room_example =
    handled_with_room settings world 30 draw (λ s. s) one waiting
      (record { others = λ z. z; now = 20 } ∷ []) (λ z. z) (ok message) (codes "w1") s2 held
      (HasRoom.later _ _ _ (HasRoom.at_once _ _ _ refl)) uses_held (λ z h. h, (λ z h. h, tt))
      (λ z h. h, tt) (λ z h. h)
