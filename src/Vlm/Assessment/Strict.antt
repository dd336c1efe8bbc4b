-- ===== src/Vlm/Assessment/Strict.antt =====
-- What a parsed answer was given by the provider.
use mathlib.Core.Path.{subst}
use live_photo_llm.Prelude.{
  ◌≤◌, String, true, false, Option, none, some, List, ◌≡◌, ◌∙◌, refl, sym, ap, arith, contains,
  Bool-cases, inl, inr, leb, leb→le, ◌&&◌,
}
use live_photo_llm.Python.{
  Json, null, bool, int, float, text, arr, obj, Items, nil, Fields, get, get_or, as_text,
  count_items,
}
use live_photo_llm.Vlm.Retry.{Answer, given, refused}
use live_photo_llm.Vlm.Assessment.{
  VlmAssessment, TextMethods, unfenced, classifications, subject_counts, secondary_person_states,
  only_known, member, evidence_of, are_texts, attack_media, assemble, model_validate, validated,
  answered, parse_assessment,
}

-- What the parts were that a model was made of.
abbrev Parts : Option String → Option Items → Option String → Option String → VlmAssessment → Type 0
Parts classification evidence subject_count state a =
    (classification ≡ some a.classification)
    × (evidence ≡ some a.evidence_codes)
    × (subject_count ≡ some a.subject_count)
    × (state ≡ some a.secondary_person_state)

abbrev or_self : VlmAssessment → Option VlmAssessment → VlmAssessment
or_self a none = a
or_self a (some b) = b

assemble-Parts :
    (v c m : Option String) (f : Option Json) (e : Option Items) (n s : Option String)
    (a : VlmAssessment)
    → assemble v c m f e n s ≡ some a
    → Parts c e n s a
assemble-Parts (some v) (some c) (some m) (some f) (some e) (some n) (some s) a h =
    let same = ap (or_self a) h in
    (
      ap (λ (r : VlmAssessment). some r.classification) same,
      ap (λ (r : VlmAssessment). some r.evidence_codes) same,
      ap (λ (r : VlmAssessment). some r.subject_count) same,
      ap (λ (r : VlmAssessment). some r.secondary_person_state) same,
    )
assemble-Parts none _ _ _ _ _ _ a h = absurd (cc h)
assemble-Parts (some _) none _ _ _ _ _ a h = absurd (cc h)
assemble-Parts (some _) (some _) none _ _ _ _ a h = absurd (cc h)
assemble-Parts (some _) (some _) (some _) none _ _ _ a h = absurd (cc h)
assemble-Parts (some _) (some _) (some _) (some _) none _ _ a h = absurd (cc h)
assemble-Parts (some _) (some _) (some _) (some _) (some _) none _ a h = absurd (cc h)
assemble-Parts (some _) (some _) (some _) (some _) (some _) (some _) none a h = absurd (cc h)

evidence-bound : (v : Json) (xs : Items) → evidence_of v ≡ some xs → count_items xs ≤ 20
evidence-bound (arr ys) xs h = elim (Bool-cases (are_texts ys && leb (count_items ys) 20)) [
  | inl e ↦
      subst (λ i. count_items i ≤ 20) (ground (arith, e, h))
        (leb→le (count_items ys) 20 (ground (arith, e)))
  | inr e ↦ absurd (ground (arith, e, h))
]
evidence-bound null xs h = absurd (cc h)
evidence-bound (bool _) xs h = absurd (cc h)
evidence-bound (int _) xs h = absurd (cc h)
evidence-bound (float _) xs h = absurd (cc h)
evidence-bound (text _) xs h = absurd (cc h)
evidence-bound (obj _) xs h = absurd (cc h)

as_text-some : (v : Json) (s : String) → as_text v ≡ some s → v ≡ text s
as_text-some (text a) s h = ground (arith, h)
as_text-some null s h = absurd (cc h)
as_text-some (bool _) s h = absurd (cc h)
as_text-some (int _) s h = absurd (cc h)
as_text-some (float _) s h = absurd (cc h)
as_text-some (arr _) s h = absurd (cc h)
as_text-some (obj _) s h = absurd (cc h)

-- The value of a key is a member of an enumeration.
abbrev pub IsMember : List String → Json → String → Type 0
IsMember names v s = (v ≡ text s) × (contains s names ≡ true)

member-some :
    (names : List String) (v : Json) (s : String)
    → member names (as_text v) ≡ some s
    → IsMember names v s
member-some names v s h = go (as_text v) refl h
  where
    go : (o : Option String) → as_text v ≡ o → member names o ≡ some s → IsMember names v s
    go none e k = absurd (cc k)
    go (some a) e k =
        let known : contains a names ≡ true = ground (arith, k) in
        let same : a ≡ s = ground (arith, k) in
        (as_text-some v s (e ∙ ap some same), subst (λ t. contains t names ≡ true) same known)

-- The object states its classification and both person states itself, in the terms of the schema,
-- and has no key that the schema has not.
pub record IsStrict (f : Fields) (a : VlmAssessment) : Type 0 where
  pub is_known : only_known f ≡ true
  pub classification : IsMember classifications (get "classification" f) a.classification
  pub subject_count : IsMember subject_counts (get "subject_count" f) a.subject_count
  pub secondary_person_state :
      IsMember secondary_person_states (get "secondary_person_state" f) a.secondary_person_state
  pub evidence_bound : count_items a.evidence_codes ≤ 20

abbrev unanswered : Answer VlmAssessment → Option VlmAssessment
unanswered (given a) = some a
unanswered (refused _) = none

module _ (unit_float : Json → Option Json) where
  abbrev assembled_of : Fields → Option VlmAssessment
  assembled_of f =
      assemble (as_text (get_or "schema_version" (text "vlm-result-v3") f))
        (member classifications (as_text (get "classification" f)))
        (member attack_media (as_text (get_or "attack_medium" (text "NONE") f)))
        (unit_float (get "self_reported_confidence" f))
        (evidence_of (get_or "evidence_codes" (arr nil) f))
        (member subject_counts (as_text (get "subject_count" f)))
        (member secondary_person_states (as_text (get "secondary_person_state" f)))

  assembled :
      (f : Fields) (a : VlmAssessment)
      → only_known f ≡ true
      → model_validate unit_float f ≡ some a
      → assembled_of f ≡ some a
  unfolding model_validate
  assembled f a known h = sym (rw known refl) ∙ h

  unknown :
      (f : Fields) (a : VlmAssessment)
      → only_known f ≡ false
      → model_validate unit_float f ≡ some a
      → ⊥
  unfolding model_validate
  unknown f a other h =
      let refused : model_validate unit_float f ≡ none = rw other refl in absurd (cc (refused, h))

  answer :
      (o : Option VlmAssessment) {a : VlmAssessment} → answered unit_float o ≡ given a → o ≡ some a
  answer none k = absurd (cc k)
  answer (some b) k = ap unanswered k

  model_validate-IsStrict :
      (f : Fields) (a : VlmAssessment) → model_validate unit_float f ≡ some a → IsStrict f a
  unfolding model_validate
  model_validate-IsStrict f a h = elim (Bool-cases (only_known f)) [
    | inl known ↦
        let (c, e, n, state) =
          assemble-Parts (as_text (get_or "schema_version" (text "vlm-result-v3") f))
            (member classifications (as_text (get "classification" f)))
            (member attack_media (as_text (get_or "attack_medium" (text "NONE") f)))
            (unit_float (get "self_reported_confidence" f))
            (evidence_of (get_or "evidence_codes" (arr nil) f))
            (member subject_counts (as_text (get "subject_count" f)))
            (member secondary_person_states (as_text (get "secondary_person_state" f))) a
            (assembled f a known h) in
        record {
          is_known = known;
          classification = member-some classifications (get "classification" f) a.classification c;
          subject_count = member-some subject_counts (get "subject_count" f) a.subject_count n;
          secondary_person_state =
              member-some secondary_person_states (get "secondary_person_state" f)
                a.secondary_person_state state;
          evidence_bound = evidence-bound (get_or "evidence_codes" (arr nil) f) a.evidence_codes e;
        }
    | inr other ↦ absurd (unknown f a other h)
  ]

  -- An answer that is parsed was a JSON object with known keys only, which itself states the
  -- classification and both person states, each of them in the terms of the schema, and it has at
  -- most 20 evidence codes.
  pub parse_assessment-IsStrict :
      (loads : String → Option Json) (methods : TextMethods) (s : String) (a : VlmAssessment)
      → parse_assessment unit_float loads methods s ≡ given a
      → (f : Fields) × (loads (unfenced methods s) ≡ some (obj f)) × IsStrict f a
  unfolding parse_assessment
  parse_assessment-IsStrict loads methods s a h = go (loads (unfenced methods s)) refl h
    where
      go :
          (o : Option Json)
          → loads (unfenced methods s) ≡ o
          → answered unit_float (validated unit_float o) ≡ given a
          → (f : Fields) × (loads (unfenced methods s) ≡ some (obj f)) × IsStrict f a
      go (some (obj f)) e k =
          (f, e, model_validate-IsStrict f a (answer (model_validate unit_float f) k))
      go none e k = absurd (cc k)
      go (some null) e k = absurd (cc k)
      go (some (bool _)) e k = absurd (cc k)
      go (some (int _)) e k = absurd (cc k)
      go (some (float _)) e k = absurd (cc k)
      go (some (text _)) e k = absurd (cc k)
      go (some (arr _)) e k = absurd (cc k)
