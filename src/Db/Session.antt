-- ===== src/Db/Session.antt =====
-- A transaction (`async with session_factory() as session, session.begin()`): it reads and changes
-- the database, and an exception rolls everything back. The row locks of `with_for_update` make
-- the transactions on one job or chunk run one after another, so each is one step of the store.
-- The queries are those of the services, and app/queue/inbox.py.
use onramp_stt_api.Base.{
  ℕ, ◌≡◌, refl, Bool, true, false, ◌&&◌, Option, none, some, [], ◌∷◌, ◌++◌, Text, eq_text, ◌==◌,
  if◌then◌else◌, find_row, write_row, any, ◌⊎◌, inl, inr, arith,
}
use onramp_stt_api.Status.{JobStatus, job_transition}
use onramp_stt_api.Errors.{Error, Result, ok, err}
use onramp_stt_api.Events.{Stream, Group, eq_group, Payload}
use onramp_stt_api.Db.{Store, TranscriptionJob, TranscriptionChunk, EventOutbox, EventInbox}

abbrev pub Tx : Type 0 → Type 0 → Type 0
Tx S A = S → Result (A × S)

module _ {S : Type 0} where
  abbrev pub pure : {A : Type 0} → A → Tx S A
  pure a s = ok (a, s)

  abbrev pub raise : {A : Type 0} → Error → Tx S A
  raise e s = err e

  abbrev pub raise_if : Bool → Error → Tx S (Unit {0})
  raise_if c e s = if c then err e else ok (tt, s)

  -- a call of a service outside, which may raise
  abbrev pub raise_some : Option Error → Tx S (Unit {0})
  raise_some none s = ok (tt, s)
  raise_some (some e) s = err e

  abbrev pub gets : {A : Type 0} → (S → A) → Tx S A
  gets f s = ok (f s, s)

  abbrev pub modify : (S → S) → Tx S (Unit {0})
  modify f s = ok (tt, f s)

  -- `if c: … else: …`
  abbrev pub branch : {A : Type 0} → Bool → Tx S A → Tx S A → Tx S A
  branch c m k s = if c then m s else k s

  abbrev pub or_raise : {A : Type 0} → Option A → Error → Tx S A
  or_raise none e s = err e
  or_raise (some a) e s = ok (a, s)

infixl 5 ◌>>=◌ ◌>>◌
abbrev pub ◌>>=◌ : {S A B : Type 0} → Tx S A → (A → Tx S B) → Tx S B
◌>>=◌ m f s = elim (m s) [ ok r ↦ f r.0 r.1 | err e ↦ err e ]

abbrev pub ◌>>◌ : {S B : Type 0} → Tx S (Unit {0}) → Tx S B → Tx S B
m >> k = m >>= λ _. k

-- The store after a transaction: the old one, if it raised.
abbrev pub committed : {S A : Type 0} → S → Result (A × S) → S
committed s (ok r) = r.1
committed s (err e) = s

abbrev pub is_receipt : Group → Text → EventInbox → Bool
is_receipt g e r = eq_group r.consumer_group g && eq_text r.event_id e

module _ {F : Type 0} where
  -- `WHERE id = :tid`
  abbrev pub is_job : Text → TranscriptionJob F → Bool
  is_job tid j = eq_text j.id tid

  -- `WHERE transcription_id = :tid AND chunk_index = :i`
  abbrev pub is_chunk : Text → ℕ → TranscriptionChunk F → Bool
  is_chunk tid i c = eq_text c.transcription_id tid && c.chunk_index == i

  abbrev pub is_event : Text → EventOutbox F → Bool
  is_event e o = eq_text o.id e

  abbrev pub get_job : Text → Store F → Option (TranscriptionJob F)
  get_job tid s = find_row (is_job tid) s.jobs

  abbrev pub get_chunk : Text → ℕ → Store F → Option (TranscriptionChunk F)
  get_chunk tid i s = find_row (is_chunk tid i) s.chunks

  -- The flush of a changed job or chunk.
  abbrev pub put_job : TranscriptionJob F → Store F → Store F
  put_job j s = record s { jobs = write_row (is_job j.id) j s.jobs }

  abbrev pub put_chunk : TranscriptionChunk F → Store F → Store F
  put_chunk c s = record s {
    chunks = write_row (is_chunk c.transcription_id c.chunk_index) c s.chunks;
  }

  -- `is_processed`
  unfoldable pub is_processed : Group → Text → Store F → Bool
  is_processed g e s = any (is_receipt g e) s.inbox

  -- `mark_processed`: a second row under the primary key (group, event) is refused.
  unfoldable pub mark_processed : Group → Text → Text → Tx (Store F) (Unit {0})
  unfolding is_processed
  mark_processed g e ref s =
      if is_processed g e s
      then err Error.integrity_error
      else ok (
        tt,
        record s {
          inbox =
              s.inbox
              ++ record { consumer_group = g; event_id = e; result_reference = some ref } ∷ [];
        },
      )

  -- `session.add(EventOutbox(…))`: the id is the primary key.
  unfoldable pub add_outbox : EventOutbox F → Tx (Store F) (Unit {0})
  add_outbox o s =
      if any (is_event o.id) s.outbox
      then err Error.integrity_error
      else ok (tt, record s { outbox = s.outbox ++ o ∷ [] })

  -- A new row of the outbox, as the column defaults complete it.
  abbrev pub new_event : Text → Text → Text → Stream → Payload F → ℕ → ℕ → EventOutbox F
  new_event id kind agg stream payload available now = record {
    id = id;
    aggregate_type = kind;
    aggregate_id = agg;
    stream = stream;
    payload = payload;
    available_at = available;
    publish_attempts = 0;
    published_at = none;
    last_error = none;
    created_at = now;
  }

-- `ensure_job_transition`
unfoldable pub ensure_job_transition : {S : Type 0} → JobStatus → JobStatus → Tx S (Unit {0})
ensure_job_transition current target s =
    if job_transition current target
    then ok (tt, s)
    else err (Error.invalid_job_transition current target)

-- Inversion of a transaction that commits.
module _ {S : Type 0} where
  pub branch-ok :
      {A : Type 0} (c : Bool) (m k : Tx S A) (s : S) {r : A × S}
      → branch c m k s ≡ ok r
      → ((c ≡ true) × (m s ≡ ok r)) ⊎ ((c ≡ false) × (k s ≡ ok r))
  branch-ok true m k s h = inl (refl, h)
  branch-ok false m k s h = inr (refl, h)

  bind-ok :
      {A B : Type 0} (q : Result (A × S)) (f : A → Tx S B) {r : B × S}
      → elim q [ ok p ↦ f p.0 p.1 | err e ↦ err e ] ≡ ok r
      → (a : A) × (s' : S) × (q ≡ ok (a, s')) × (f a s' ≡ ok r)
  bind-ok (ok (a, s')) f h = (a, s', refl, h)
  bind-ok (err e) f h = cc

  pub >>=-ok :
      {A B : Type 0} (m : Tx S A) (f : A → Tx S B) (s : S) {r : B × S}
      → (m >>= f) s ≡ ok r
      → (a : A) × (s' : S) × (m s ≡ ok (a, s')) × (f a s' ≡ ok r)
  >>=-ok m f s h = bind-ok (m s) f h

  pub or_raise-ok :
      {A : Type 0} (o : Option A) (e : Error) (s : S) {a : A} {s' : S}
      → or_raise o e s ≡ ok (a, s')
      → (o ≡ some a) × (s' ≡ s)
  or_raise-ok none e s h = cc
  or_raise-ok (some a) e s h = ground arith

  pub raise_if-ok :
      (c : Bool) (e : Error) (s : S) {r : Unit {0} × S}
      → raise_if c e s ≡ ok r
      → (c ≡ false) × (r.1 ≡ s)
  raise_if-ok true e s h = cc
  raise_if-ok false e s h = ground arith

  pub after_check :
      {A : Type 0} (c : Bool) (e : Error) (m : Tx S A) (s : S) {r : A × S}
      → (raise_if c e >> m) s ≡ ok r
      → (c ≡ false) × (m s ≡ ok r)
  after_check true e m s h = cc
  after_check false e m s h = (refl, h)

  pub raise_some-ok :
      (o : Option Error) (s : S) {r : Unit {0} × S} → raise_some o s ≡ ok r → (o ≡ none) × (r.1 ≡ s)
  raise_some-ok none s h = ground arith
  raise_some-ok (some e) s h = cc
