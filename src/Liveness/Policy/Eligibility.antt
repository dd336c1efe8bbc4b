-- ===== src/Liveness/Policy/Eligibility.antt =====
-- Which answers of the model authorize a portrait.
use live_photo_llm.Prelude.{
  String, Bool, true, false, ◌≡◌, refl, ◌↔◌, ◌⊎◌, inl, inr, arith, eq_iff, Bool-cases,
  if◌then◌else◌,
}
use live_photo_llm.Python.{Json, null, bool, int, float, text, arr, obj, eq_text, text_in}
use live_photo_llm.Transactions.Decisions.{pass, retry, is_pass}
use live_photo_llm.Liveness.Policy.{
  is_portrait_eligible_vlm_result, map_classification_to_outcome, attacks,
}

pub eq_text_iff : (v : Json) (s : String) → (eq_text v s ≡ true) ↔ (v ≡ text s)
eq_text_iff null s = (λ h. cc, λ h. cc)
eq_text_iff (bool b) s = (λ h. cc, λ h. cc)
eq_text_iff (int n) s = (λ h. cc, λ h. cc)
eq_text_iff (float f) s = (λ h. cc, λ h. cc)
eq_text_iff (text a) s = (λ h. ground (arith, eq_iff a s), λ h. ground (arith, eq_iff a s))
eq_text_iff (arr xs) s = (λ h. cc, λ h. cc)
eq_text_iff (obj f) s = (λ h. cc, λ h. cc)

outcome_by : (b : Bool) → is_pass (if b then pass else retry) ≡ b
outcome_by true = refl
outcome_by false = refl

-- A live subject alone, or one with others in the background only.
abbrev pub IsEligible : Json → Json → Json → Type 0
IsEligible classification count state =
    (classification ≡ text "LIVE")
    × ((count ≡ text "ONE") × (state ≡ text "NONE")
        ⊎ (count ≡ text "MULTIPLE") × (state ≡ text "BACKGROUND"))

module _ (classification count state : Json) where
  -- An answer of the model is eligible for a portrait exactly where it is LIVE and the persons
  -- seen are ONE with NONE or MULTIPLE with BACKGROUND.
  pub IsEligible-iff :
      (is_portrait_eligible_vlm_result classification count state ≡ true)
      ↔ IsEligible classification count state
  unfolding is_portrait_eligible_vlm_result
  IsEligible-iff = (
    λ h. ground (
      arith,
      eq_text_iff classification "LIVE",
      eq_text_iff count "ONE",
      eq_text_iff state "NONE",
      eq_text_iff count "MULTIPLE",
      eq_text_iff state "BACKGROUND",
    ),
    λ h. ground arith,
  )

  attack_not_eligible :
      text_in classification attacks ≡ true
      → is_portrait_eligible_vlm_result classification count state ≡ false
  attack_not_eligible a =
      elim (Bool-cases (is_portrait_eligible_vlm_result classification count state)) [
        | inl e ↦ absurd (cc (rw (IsEligible-iff.0 e).0 at a))
        | inr e ↦ e
      ]

  -- The outcome of an answer is PASS exactly where the answer is eligible for a portrait.
  pub is_pass-outcome :
      is_pass (map_classification_to_outcome classification count state)
      ≡ is_portrait_eligible_vlm_result classification count state
  unfolding map_classification_to_outcome
  is_pass-outcome = elim (Bool-cases (text_in classification attacks)) [
    | inl a ↦ rw a (rw (attack_not_eligible a))
    | inr n ↦ rw n (outcome_by (is_portrait_eligible_vlm_result classification count state))
  ]
