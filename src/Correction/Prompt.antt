-- ===== src/Correction/Prompt.antt =====
-- app/correction/prompts.py and app/correction/llm_client.py: what the language model is asked, and
-- the call. The `openai` package is a parameter.
use onramp_stt_api.Base.{
  not, Option, none, some, List, ◌++◌, map, Text, codes, select, length, ◌==◌, join, strip,
  if◌then◌else◌,
}
use onramp_stt_api.Correction.Rules.{UnmatchedCandidate}
use onramp_stt_api.Correction.Glossary.{GlossaryEntry, render_glossary}

abbrev pub prompt_version_name : Text
prompt_version_name = codes "strict_glossary_segment_preserving_v1"

-- `review_text`
unfoldable pub review_text : List UnmatchedCandidate → Text
review_text cs =
    let text = join (codes ", ") (
      map (λ c. c.text ++ codes " (" ++ c.reason ++ codes ")")
        (select (λ c. not (length c.text == 0)) cs)) in
    if length text == 0 then codes "없음" else text

abbrev rules : Text
rules =
    codes "다음은 회의 STT 원문을 segment별로 한 줄씩 정리한 입력입니다.\n"
    ++ codes "\n"
    ++ codes "규칙:\n"
    ++ codes "- 출력은 반드시 입력과 같은 줄 수, 같은 줄 순서를 유지하세요.\n"
    ++ codes "- 줄을 합치거나 나누지 마세요.\n"
    ++ codes "- 회의 내용을 요약하거나 새로 쓰지 마세요.\n"
    ++ codes "- 원문에 없는 사실, 결정, 조치, 원인을 추가하지 마세요.\n"
    ++ codes "- 기술 용어는 아래 glossary 기준 canonical 표기로 통일하세요.\n"
    ++ codes "- canonical이 영문/약어면 한국어 음역으로 남기지 말고 canonical 그대로 유지하세요.\n"
    ++ codes "- STT 오인식과 어색한 문맥만 최소한으로 교정하세요.\n"
    ++ codes "- 이미 1차로 보정된 표현이 더 자연스러우면 그 표현을 유지해도 됩니다.\n"
    ++ codes "- 검토 후보는 문맥이 확실할 때만 교정하고, 애매하면 원문이나 1차 교정값을 유지하세요.\n"
    ++ codes "- 최종 출력은 교정된 줄들만 그대로 출력하세요.\n"

-- `build_correction_prompt`
unfoldable pub build_correction_prompt :
    Text → Text → List GlossaryEntry → List UnmatchedCandidate → Text
unfolding review_text
build_correction_prompt raw_text first_pass_text glossary_entries review_candidates =
    rules
    ++ codes "\n참고 glossary:\n"
    ++ render_glossary glossary_entries
    ++ codes "\n\n검토 후보:\n"
    ++ review_text review_candidates
    ++ codes "\n\n원문:\n"
    ++ raw_text
    ++ codes "\n\n1차 교정안:\n"
    ++ first_pass_text
    ++ codes "\n"

-- `OpenAiLlmClient.complete`: `none` is an exception; `responses` gives `output_text` for a key and a
-- prompt.
unfoldable pub complete : (Text → Text → Option Text) → Text → Text → Option Text
complete responses openai_api_key prompt =
    let answer : Option Text = elim (responses openai_api_key prompt) [
      | none ↦ none
      | some output ↦ some (strip output)
    ] in
    if length openai_api_key == 0 then none else answer
