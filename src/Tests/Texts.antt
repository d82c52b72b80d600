-- ===== src/Tests/Texts.antt =====
-- The validator of app/correction/validators.py and the codec of app/queue/events.py on small texts.
use onramp_stt_api.Base.{
  ◌≡◌, refl, true, false, [], ◌∷◌, Text, codes, eq_text, contains, splitlines, splitlines_keepends,
  strip,
}
use onramp_stt_api.Errors.{ok}
use onramp_stt_api.Validator.{choose_validated_output, terms_kept}
use onramp_stt_api.Codec.{Json, StreamEnvelope, encode_envelope, decode_envelope, decode-encode}
use onramp_stt_api.Tests.Scenario.{float}

lines_test :
    (splitlines (codes "a\r\nb\n") ≡ codes "a" ∷ codes "b" ∷ [])
    × (splitlines_keepends (codes "a\n\nb") ≡ codes "a\n" ∷ codes "\n" ∷ codes "b" ∷ [])
unfolding splitlines splitlines_keepends
lines_test = (refl, refl)

-- A candidate that drops the protected term is refused.
refused_test :
    choose_validated_output ⦃fl = float⦄
      (codes "the Kube")
      (codes "the Kube")
      (codes "the cube")
      (codes "Kube" ∷ [])
      1
    ≡ (codes "the Kube", false)
unfolding choose_validated_output strip splitlines contains
refused_test = refl

terms_kept_example :
    contains
      (choose_validated_output ⦃fl = float⦄
        (codes "the Kube")
        (codes "the Kube")
        (codes "a Kube")
        (codes "Kube" ∷ [])
        1).0
      (codes "Kube")
    ≡ true
unfolding contains eq_text
terms_kept_example =
    terms_kept (codes "the Kube") (codes "the Kube") (codes "a Kube") (codes "Kube" ∷ []) 1
      (codes "Kube") refl refl

-- Texts as their own JSON.
instance abbrev plain : Json Text
plain = record { dumps = λ t. t; loads = λ t. ok t; loads-dumps = λ t. refl }

abbrev sample : StreamEnvelope Text
sample = record {
  event_id = codes "e";
  event_type = codes "k";
  schema_version = codes "1.0";
  payload = codes "p";
}

decode-encode_example : decode_envelope (encode_envelope sample) ≡ ok sample
unfolding eq_text
decode-encode_example = decode-encode sample refl
