-- ===== src/Tests/Terms.antt =====
-- app/correction/terms/term_ingestion.py and app/stt/providers/clova.py on small inputs.
use onramp_stt_api.Base.{
  ℕ, ◌≡◌, refl, Bool, true, false, none, some, [], ◌∷◌, Text, codes, Digits, ascii_digits,
  ascii_is_digit, ascii_value, ascii_only_lem, ascii_digit_lem, ascii_decimal_lem, ◌||◌, ◌==◌, ◌<◌,
  ◌+◌, ◌/◌, arith, is_prefix, find_row, eq_text, zero_padded, strip, join, str_int,
}
use onramp_stt_api.Errors.{Error, retryable}
use onramp_stt_api.Correction.Ingestion.{
  TermRow, TermsPayload, TermsFile, TermInput, Report, load_terms_payload, upsert_term,
}
use onramp_stt_api.Correction.Ids.{next_term_id}
use onramp_stt_api.Correction.Glossary.Distinct.{Distinct}
use onramp_stt_api.Correction.Ingestion.Unique.{ids_stay_unique}
use onramp_stt_api.Correction.Ingestion.Again.{IsUpdated, upsert_term-IsUpdated}
use onramp_stt_api.Correction.Ingestion.Total.{upsert_returns}
use onramp_stt_api.Provider.{
  Json, Items, Members, Values, Numbers, Converted, Answer, get, transcribe,
}
use onramp_stt_api.Provider.Answers.{IsFilled, retryable_answers, transcribed_texts}
use onramp_stt_api.Tests.Scenario.{float, unicode}

instance abbrev digits_of_ascii : Digits
digits_of_ascii = ascii_digits

abbrev row : TermRow ℕ
row = record {
  term_id = codes "K8S_007";
  canonical = codes "Kube";
  category = codes "kubernetes";
  aliases = none;
  stt_variants = some (codes "cube" ∷ []);
  description = none;
  source = none;
  confidence = none;
  replace_policy = none;
  source_url = none;
  context_keywords = none;
}

abbrev old_file : TermsPayload ℕ
old_file = record { version = codes "2026-06-01"; description = none; terms = row ∷ [] }

abbrev file : TermsFile ℕ
file = TermsFile.stored old_file

abbrev input : TermInput ℕ
input = record {
  canonical = codes "Pod";
  category = codes "kubernetes";
  aliases = [];
  stt_variants = codes "pot" ∷ [];
  description = [];
  source = codes "manual";
  confidence = 900_000;
  replace_policy = codes "safe";
  context_keywords = [];
  source_url = none;
}

abbrev today : Text
today = codes "2026-06-11"

next_term_id_test :
    next_term_id (codes "kubernetes") (codes "K8S_007" ∷ codes "K8S_ERROR_9" ∷ [])
    ≡ some (codes "K8S_008")
unfolding next_term_id is_prefix find_row eq_text zero_padded
next_term_id_test = refl

-- With a digit that has no decimal value, as the superscript two, `int` raises where `isdigit` held.
abbrev has_superscript : ℕ → Bool
has_superscript c = ascii_is_digit c || c == 0xb2

superscript_only : (c : ℕ) → c < 128 → has_superscript c ≡ true → (k : ℕ) × k < 10 × c ≡ b'0' + k
superscript_only c low h = ascii_only_lem c low (ground arith)

superscript_digit : (k : ℕ) → k < 10 → has_superscript (b'0' + k) ≡ true
superscript_digit k h = ground (arith, ascii_digit_lem k h)

abbrev with_superscript : Digits
with_superscript = record {
  is_digit = has_superscript;
  decimal = ascii_value;
  ascii_only = superscript_only;
  ascii_digit = superscript_digit;
  ascii_decimal = ascii_decimal_lem;
}

superscript_test :
    next_term_id ⦃g = with_superscript⦄ (codes "kubernetes") (codes "K8S_²" ∷ []) ≡ none
unfolding next_term_id is_prefix find_row eq_text
superscript_test = refl

upsert_returns_example : (q : TermsPayload ℕ × Report) × upsert_term today true file input ≡ some q
unfolding load_terms_payload
upsert_returns_example = upsert_returns today file input old_file refl (
  (
    (
      omega arith,
      (omega arith, (omega arith, (omega arith, (omega arith, (omega arith, (omega arith, tt)))))),
    ),
    omega arith,
  ),
  tt,
)

-- what the call makes of the file
abbrev new_row : TermRow ℕ
new_row = record {
  term_id = codes "K8S_008";
  canonical = codes "Pod";
  category = codes "kubernetes";
  aliases = some [];
  stt_variants = some (codes "pot" ∷ []);
  description = some [];
  source = some (codes "manual");
  confidence = some 900_000;
  replace_policy = some (codes "safe");
  source_url = none;
  context_keywords = none;
}

abbrev new_file : TermsPayload ℕ
new_file = record { version = today; description = none; terms = row ∷ new_row ∷ [] }

abbrev report : Report
report = record { is_added = true; term_id = codes "K8S_008"; canonical = codes "Pod" }

added_test : upsert_term today true file input ≡ some (new_file, report)
unfolding upsert_term find_row eq_text strip is_prefix zero_padded
added_test = refl

ids_stay_unique_example : Distinct (codes "K8S_007" ∷ codes "K8S_008" ∷ [])
unfolding load_terms_payload
ids_stay_unique_example =
    ids_stay_unique today true file input old_file new_file report added_test refl (refl, tt)

upsert_term-IsUpdated_example : IsUpdated (codes "2026-06-12") new_file input report
upsert_term-IsUpdated_example =
    upsert_term-IsUpdated today (codes "2026-06-12") true file input new_file report added_test refl

-- Python's readings, as far as the answers below need them: every number is 1.5 seconds.
instance abbrev values : Values
values = record { str_of = λ v. []; is_zero = λ n. false }

instance abbrev numbers : Numbers ℕ
numbers = record { float_of = λ v. Converted.number 1_500_000_000; over_1000 = λ x. x / 1000 }

abbrev answer : Answer
answer = Answer.response 200 (
    some (
      Json.object (
        Members.member (codes "segments")
          (Json.array (
            Items.item
              (Json.object
                (Members.member (codes "text") (Json.string (codes " hello ")) Members.close))
              (Items.item (Json.object Members.close) Items.end)))
          Members.close)))

transcribed_texts_example : IsFilled ℕ (record {
  provider = codes "clova";
  full_text = codes "hello";
  segments =
      record {
        start_time_sec = 1_500_000;
        end_time_sec = 1_500_000;
        text = codes "hello";
        speaker = none;
        confidence = none;
      }
      ∷ [];
  provider_job_id = none;
})
unfolding transcribe get eq_text strip join
transcribed_texts_example = transcribed_texts ℕ answer refl

retryable_answers_example :
    retryable (Error.provider_error (codes "CLOVA Speech returned HTTP 429.") true (some 429))
    ≡ true
unfolding transcribe str_int
retryable_answers_example = retryable_answers ℕ (Answer.response 429 none) refl
