-- ===== src/Storage.antt =====
-- app/storage/local.py: objects as the files under one directory. The file system is an interface; it
-- has no symbolic links, and no key has a NUL character.
use onramp_stt_api.Base.{
  ◌≡◌, refl, sym, ap, ◌∙◌, eq_text_sound, eq_text_refl, Option-cases, inl, inr, Bool, true, false,
  not, ◌&&◌, ◌||◌, Option, none, some, List, [], ◌∷◌, ◌++◌, length, ◌==◌, Text, codes, eq_text,
  if◌then◌else◌, is_none, Bool-cases, arith,
}
use onramp_stt_api.Errors.{Error, Result, ok, err}

-- An absolute path, by the names from the root of the file system.
abbrev pub Parts : Type 0
Parts = List Text

unfoldable pub eq_parts : Parts → Parts → Bool
eq_parts [] [] = true
eq_parts (a ∷ p) (b ∷ q) = eq_text a b && eq_parts p q
eq_parts _ _ = false

-- `candidate.is_relative_to(root)`
unfoldable pub is_relative_to : Parts → Parts → Bool
is_relative_to p [] = true
is_relative_to [] (b ∷ root) = false
is_relative_to (a ∷ p) (b ∷ root) = eq_text a b && is_relative_to p root

-- What the storage uses of the files: reading one, and writing one with the directories above it;
-- `none` is a file that is not there, and an `OSError`.
pub record Files (S : Type 0) : Type 0 where
  pub read : Parts → S → Option Text
  pub write : Parts → Text → S → Option S
  pub read-write : (p : Parts) (b : Text) (s s' : S) → write p b s ≡ some s' → read p s' ≡ some b
  pub read-write_other :
      (p q : Parts) (b : Text) (s s' : S)
      → write p b s ≡ some s'
      → eq_parts p q ≡ false
      → read q s' ≡ read q s

-- the names of a key, between the slashes
unfoldable pub parts_from : Text → Text → List Text
parts_from name [] = name ∷ []
parts_from name (c ∷ s) =
    let cut = name ∷ parts_from [] s in
    let onward = parts_from (name ++ c ∷ []) s in if c == b'/' then cut else onward

abbrev pub parent : Parts → Parts
parent [] = []
parent (a ∷ []) = []
parent (a ∷ b ∷ p) = a ∷ parent (b ∷ p)

-- `(path / key).resolve()`, name by name
unfoldable pub resolve_from : Parts → List Text → Parts
resolve_from p [] = p
resolve_from p (name ∷ names) =
    let here = resolve_from p names in
    let up = resolve_from (parent p) names in
    let down = resolve_from (p ++ name ∷ []) names in
    if length name == 0 || eq_text name (codes ".")
    then here
    else if eq_text name (codes "..")
    then up
    else down

-- A key that begins with a slash is an absolute path.
unfoldable pub candidate_path : Parts → Text → Parts
unfolding resolve_from parts_from
candidate_path root [] = resolve_from root (parts_from [] [])
candidate_path root (c ∷ s) = resolve_from (if c == b'/' then [] else root) (parts_from [] (c ∷ s))

-- `resolve`
unfoldable pub resolve : Parts → Text → Result Parts
unfolding candidate_path
resolve root key =
    if is_relative_to (candidate_path root key) root
    then ok (candidate_path root key)
    else err (Error.storage_error (codes "Object key escapes the configured storage root."))

abbrev content_or : Text → Option Text → Result Text
content_or key none = err (Error.storage_error (codes "Object not found: " ++ key))
content_or key (some b) = ok b

module _ {S : Type 0} ⦃f : Files S⦄ where
  abbrev written_or : Option S → Result S
  written_or none = err (Error.other (codes "OSError") [])
  written_or (some s) = ok s

  abbrev read_at : Text → S → Result Parts → Result Text
  read_at key s (err e) = err e
  read_at key s (ok p) = content_or key (f.read p s)

  abbrev write_at : Text → S → Result Parts → Result S
  write_at b s (err e) = err e
  write_at b s (ok p) = written_or (f.write p b s)

  abbrev is_there : S → Result Parts → Result Bool
  is_there s (err e) = err e
  is_there s (ok p) = ok (not (is_none (f.read p s)))

  -- `download`: what is copied to the destination
  unfoldable pub download : Parts → Text → S → Result Text
  unfolding resolve
  download root key s = read_at key s (resolve root key)

  -- `upload`, of a source with this content
  unfoldable pub upload : Parts → Text → Text → S → Result S
  unfolding resolve
  upload root key b s = write_at b s (resolve root key)

  -- `exists`
  unfoldable pub exists : Parts → Text → S → Result Bool
  unfolding resolve
  exists root key s = is_there s (resolve root key)

pub eq_parts_refl : (p : Parts) → eq_parts p p ≡ true
unfolding eq_parts
eq_parts_refl [] = refl
eq_parts_refl (a ∷ p) = ground (arith, eq_text_refl a, eq_parts_refl p)

eq_parts_sound : (p q : Parts) → eq_parts p q ≡ true → p ≡ q
unfolding eq_parts
eq_parts_sound [] [] h = refl
eq_parts_sound [] (b ∷ q) h = cc
eq_parts_sound (a ∷ p) [] h = cc
eq_parts_sound (a ∷ p) (b ∷ q) h =
    let same = eq_text_sound a b (ground arith) in
    let rest = eq_parts_sound p q (ground arith) in rw (same, rest) refl

apart-under :
    (p q root : Parts)
    → is_relative_to p root ≡ true
    → is_relative_to q root ≡ false
    → eq_parts p q ≡ false
apart-under p q root h k = elim (Bool-cases (eq_parts p q)) [
  | inr other ↦ other
  | inl same ↦ let e = rw (eq_parts_sound p q same) at h in let c = sym e ∙ k in cc
]

-- What a key resolves to is under the root.
abbrev Under : Parts → Result Parts → Type 0
Under root (err e) = Unit
Under root (ok p) = is_relative_to p root ≡ true

resolve-Under : (root : Parts) (key : Text) → Under root (resolve root key)
unfolding resolve
resolve-Under root key = elim (Bool-cases (is_relative_to (candidate_path root key) root)) [
  | inl inside ↦ rw inside inside
  | inr outside ↦ rw outside tt
]

abbrev from_ok : {A : Type 0} → A → Result A → A
from_ok d (err e) = d
from_ok d (ok a) = a

module _ {S : Type 0} ⦃f : Files S⦄ where
  written :
      (root : Parts) (key b : Text) (p q : Parts) (s s' : S)
      → is_relative_to p root ≡ true
      → written_or (f.write p b s) ≡ ok s'
      → is_relative_to q root ≡ false
      → (read_at key s' (ok p) ≡ ok b) × (is_there s' (ok p) ≡ ok true) × (f.read q s' ≡ f.read q s)
  written root key b p q s s' inside h outside = elim (Option-cases (f.write p b s)) [
    | inl failed ↦ let k = rw failed at h in cc
    | inr (t, done) ↦
        let same : t ≡ s' = ap (from_ok s) (rw done at h) in
        let there = rw same at (f.read-write p b s t done) in
        let kept =
          rw same at (f.read-write_other p q b s t done (apart-under p q root inside outside)) in
        (rw there refl, rw there refl, kept)
  ]

  uploaded :
      (root : Parts) (key b : Text) (q : Parts) (s s' : S) (o : Result Parts)
      → Under root o
      → write_at b s o ≡ ok s'
      → is_relative_to q root ≡ false
      → (read_at key s' o ≡ ok b) × (is_there s' o ≡ ok true) × (f.read q s' ≡ f.read q s)
  uploaded root key b q s s' (err e) under h outside = cc
  uploaded root key b q s s' (ok p) under h outside = written root key b p q s s' under h outside

  -- What is uploaded under a key is there, and is what a download of the key gives; no file outside
  -- the root is touched, whatever the key is.
  pub upload_then_download :
      (root : Parts) (key b : Text) (q : Parts) (s s' : S)
      → upload root key b s ≡ ok s'
      → is_relative_to q root ≡ false
      → (download root key s' ≡ ok b) × (exists root key s' ≡ ok true) × (f.read q s' ≡ f.read q s)
  unfolding upload download exists
  upload_then_download root key b q s s' h outside =
      uploaded root key b q s s' (resolve root key) (resolve-Under root key) h outside
