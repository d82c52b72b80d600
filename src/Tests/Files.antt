-- ===== src/Tests/Files.antt =====
-- The storage of app/storage/local.py on files as a list, the newest first.
use onramp_stt_api.Base.{
  ◌≡◌, refl, true, false, Option, none, some, List, [], ◌∷◌, Text, codes, eq_text, if◌then◌else◌,
}
use mathlib.Core.Option.{some-injective}
use mathlib.Core.Path.{subst}
use onramp_stt_api.Errors.{Error, ok, err}
use onramp_stt_api.Storage.{
  Parts, Files, eq_parts, eq_parts_refl, is_relative_to, resolve, upload, download, exists,
  upload_then_download,
}

abbrev Listed : Type 0
Listed = List (Parts × Text)

abbrev look : Parts → Listed → Option Text
look p [] = none
look p ((q, b) ∷ s) = let rest = look p s in if eq_parts q p then some b else rest

look-written :
    (p : Parts) (b : Text) (s s' : Listed) → some ((p, b) ∷ s) ≡ some s' → look p s' ≡ some b
look-written p b s s' h =
    subst (λ x. look p x ≡ some b) (some-injective ((p, b) ∷ s) s' h) (rw (eq_parts_refl p) refl)

look-written_other :
    (p q : Parts) (b : Text) (s s' : Listed)
    → some ((p, b) ∷ s) ≡ some s'
    → eq_parts p q ≡ false
    → look q s' ≡ look q s
look-written_other p q b s s' h other =
    subst (λ x. look q x ≡ look q s) (some-injective ((p, b) ∷ s) s' h) (rw other refl)

instance abbrev listed : Files Listed
listed = record {
  read = look;
  write = λ p b s. some ((p, b) ∷ s);
  read-write = look-written;
  read-write_other = look-written_other;
}

abbrev root : Parts
root = codes "srv" ∷ codes "objects" ∷ []

-- A key may go up and down again, but not out of the root.
resolve_test :
    (resolve root (codes "a/../b.wav") ≡ ok (codes "srv" ∷ codes "objects" ∷ codes "b.wav" ∷ []))
    × (resolve root (codes "../secret")
        ≡ err (Error.storage_error (codes "Object key escapes the configured storage root.")))
    × (resolve root (codes "/srv/objects/./c")
        ≡ ok (codes "srv" ∷ codes "objects" ∷ codes "c" ∷ []))
unfolding resolve eq_text is_relative_to
resolve_test = (refl, refl, refl)

abbrev stored : Listed
stored = (codes "srv" ∷ codes "objects" ∷ codes "b.wav" ∷ [], codes "x") ∷ []

upload_then_download_example :
    (download root (codes "b.wav") stored ≡ ok (codes "x"))
    × (exists root (codes "b.wav") stored ≡ ok true)
    × (look (codes "etc" ∷ []) stored ≡ none)
unfolding upload eq_text is_relative_to
upload_then_download_example =
    upload_then_download root (codes "b.wav") (codes "x") (codes "etc" ∷ []) [] stored refl refl
