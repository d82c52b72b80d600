-- ===== src/Correction/Ids.antt =====
-- The ids that `_next_term_id` of app/correction/terms/term_ingestion.py gives.
use onramp_stt_api.Base.{
  ℕ, ◌+◌, ◌&&◌, Option, none, some, List, [], ◌∷◌, ◌++◌, length, drop, ltb, Text, codes, eq_text,
  is_prefix, find_row, zero_padded, Digits, isdigit, int, if◌then◌else◌,
}

abbrev pub category_prefixes : List (Text × Text)
category_prefixes =
    (codes "ai", codes "AI")
    ∷ (codes "aws", codes "AWS")
    ∷ (codes "aws_networking", codes "AWS_NET")
    ∷ (codes "aws_security", codes "AWS_SEC")
    ∷ (codes "aws_storage", codes "AWS_STORAGE")
    ∷ (codes "cicd", codes "CICD")
    ∷ (codes "deployment_strategy", codes "DEPLOY")
    ∷ (codes "documentation", codes "DOC")
    ∷ (codes "incident_status", codes "K8S_ERROR")
    ∷ (codes "kubernetes", codes "K8S")
    ∷ (codes "kubernetes_error", codes "K8S_ERROR")
    ∷ (codes "kubernetes_security", codes "K8S_SEC")
    ∷ (codes "kubernetes_storage", codes "K8S_STORAGE")
    ∷ (codes "observability", codes "OBS")
    ∷ []

abbrev pub prefix_or_ext : Option (Text × Text) → Text
prefix_or_ext none = codes "EXT"
prefix_or_ext (some r) = r.1

unfoldable pub prefix_of : Text → Text
prefix_of category = prefix_or_ext (find_row (λ r. eq_text r.0 category) category_prefixes)

-- The value that `_next_term_id` takes of an id, 0 for one that it passes by; `none` is an exception.
unfoldable pub tail_value : ⦃g : Digits⦄ → Text → Text → Option ℕ
unfolding isdigit int
tail_value prefix id =
    let tail = drop (length prefix + 1) id in
    if is_prefix (prefix ++ codes "_") id && isdigit tail then int tail else some 0

abbrev pub max_of : Option ℕ → Option ℕ → Option ℕ
max_of none m = none
max_of (some n) none = none
max_of (some n) (some m) = some (if ltb n m then m else n)

-- The loop: the greatest value. The order of the set does not matter to it.
unfoldable pub max_value : ⦃g : Digits⦄ → Text → List Text → Option ℕ
unfolding tail_value
max_value prefix [] = some 0
max_value prefix (id ∷ ids) = max_of (tail_value prefix id) (max_value prefix ids)

abbrev pub next_after : Text → Option ℕ → Option Text
next_after prefix none = none
next_after prefix (some m) = some (prefix ++ codes "_" ++ zero_padded 3 (m + 1))

-- `_next_term_id`
unfoldable pub next_term_id : ⦃g : Digits⦄ → Text → List Text → Option Text
unfolding max_value prefix_of
next_term_id category existing_ids =
    next_after (prefix_of category) (max_value (prefix_of category) existing_ids)
