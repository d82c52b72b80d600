-- ===== src/Validator.antt =====
-- app/correction/validators.py: whether the text that a language model proposes is taken.
use onramp_stt_api.Base.{
  ◌≡◌, ◌⊎◌, refl, sym, ==_iff, inl, inr, Bool, true, false, not, ◌&&◌, List, [], ◌∷◌, Text, eq_text,
  eq_text_sound, strip, contains, splitlines, any, length, ◌==◌, if◌then◌else◌, Bool-cases, arith,
}
use onramp_stt_api.Float.{Float, flt}

-- `term not in normalized and term in fallback_text`, for one of the terms
unfoldable pub loses_term : Text → Text → List Text → Bool
loses_term normalized fallback terms =
    any (λ t. not (contains normalized t) && contains fallback t) terms

kept_one :
    (n fallback : Text) (terms : List Text) (t : Text)
    → any (λ u. eq_text u t) terms ≡ true
    → contains fallback t ≡ true
    → loses_term n fallback terms ≡ false
    → contains n t ≡ true
unfolding loses_term
kept_one n fallback [] t h had kept = cc
kept_one n fallback (u ∷ terms) t h had kept = elim (Bool-cases (eq_text u t)) [
  | inr other ↦ let h2 = rw other at h in kept_one n fallback terms t h2 had (ground arith)
  | inl same ↦ let e = eq_text_sound u t same in let k = rw e at kept in ground arith
]

module _ {F : Type 0} ⦃fl : Float F⦄ where
  -- `len(normalized) / max(1, len(raw_text.strip())) < min_ratio`, if the raw text is not blank
  unfoldable pub is_too_short : Text → Text → F → Bool
  is_too_short raw normalized min_ratio =
      if length (strip raw) == 0
      then false
      else flt (fl.quot (length normalized) (length (strip raw))) min_ratio

  -- `choose_validated_output`
  unfoldable pub choose_validated_output : Text → Text → Text → List Text → F → Text × Bool
  unfolding is_too_short loses_term
  choose_validated_output raw fallback candidate terms min_ratio =
      let normalized = strip candidate in
      if length normalized == 0
      then (fallback, false)
      else if not (length (splitlines raw) == length (splitlines normalized))
      then (fallback, false)
      else if is_too_short raw normalized min_ratio
      then (fallback, false)
      else if loses_term normalized fallback terms
      then (fallback, false)
      else (normalized, true)

  -- A protected term that the fallback has is in the text that is chosen, whatever the language
  -- model answers.
  pub terms_kept :
      (raw fallback candidate : Text) (terms : List Text) (min_ratio : F) (t : Text)
      → any (λ u. eq_text u t) terms ≡ true
      → contains fallback t ≡ true
      → contains (choose_validated_output raw fallback candidate terms min_ratio).0 t ≡ true
  unfolding choose_validated_output
  terms_kept raw fallback candidate terms min_ratio t listed had =
      let n = strip candidate in
      elim (Bool-cases (loses_term n fallback terms)) [
        | inr kept ↦ let k = kept_one n fallback terms t listed had kept in ground arith
        | inl lost ↦ ground arith
      ]

  -- A text that is not taken leaves the fallback; one that is has as many lines as the raw text.
  pub choose-outcome :
      (raw fallback candidate : Text) (terms : List Text) (min_ratio : F)
      → let (text, taken) = choose_validated_output raw fallback candidate terms min_ratio in
        ((taken ≡ false) × (text ≡ fallback))
        ⊎ ((taken ≡ true) × (length (splitlines text) ≡ length (splitlines raw)))
  unfolding choose_validated_output
  choose-outcome raw fallback candidate terms min_ratio =
      let n = strip candidate in
      elim (Bool-cases (length n == 0)) [
        | inl blank ↦ rw blank (inl (refl, refl))
        | inr full ↦ elim (Bool-cases (length (splitlines raw) == length (splitlines n))) [
          | inr differ ↦ rw (full, differ) (inl (refl, refl))
          | inl same ↦ elim (Bool-cases (is_too_short raw n min_ratio)) [
            | inl short ↦ rw (full, same, short) (inl (refl, refl))
            | inr long ↦ elim (Bool-cases (loses_term n fallback terms)) [
              | inl lost ↦ rw (full, same, long, lost) (inl (refl, refl))
              | inr kept ↦
                  rw (full, same, long, kept)
                    (inr (
                      refl,
                      sym ((==_iff (length (splitlines raw)) (length (splitlines n))).0 same),
                    ))
            ]
          ]
        ]
      ]
