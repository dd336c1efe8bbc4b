-- ===== src/Vlm/Assessment.antt =====
-- The answer of a provider: parse_assessment of backend/app/providers/vision/base.py and the model
-- VlmAssessment of backend/app/providers/vision/models.py.
pub mod Strict
use live_photo_llm.Prelude.{
  ℕ, String, Bool, true, false, Option, none, some, List, [], ◌∷◌, if◌then◌else◌, leb, not, ◌&&◌,
  ◌||◌, contains, str_eq, starts_with, drop_chars,
}
use live_photo_llm.Python.{
  Json, text, arr, obj, Items, nil, cons, Fields, end, field, get, get_or, has_key, as_text,
  count_items,
}
use live_photo_llm.Vlm.Errors.{VlmErrorCode, schema_validation_error}
use live_photo_llm.Vlm.Retry.{Answer, given, refused}

abbrev pub classifications : List String
classifications = "LIVE" ∷ "SCREEN_REPLAY" ∷ "PRINT_ATTACK" ∷ "QUALITY_FAILURE" ∷ "UNCERTAIN" ∷ []

abbrev pub subject_counts : List String
subject_counts = "ZERO" ∷ "ONE" ∷ "MULTIPLE" ∷ "UNCERTAIN" ∷ []

abbrev pub secondary_person_states : List String
secondary_person_states = "NONE" ∷ "BACKGROUND" ∷ "INTERFERING" ∷ "UNCERTAIN" ∷ []

abbrev pub attack_media : List String
attack_media =
    "MOBILE_SCREEN" ∷ "TABLET_SCREEN" ∷ "LAPTOP_SCREEN" ∷ "MONITOR" ∷ "PRINT_PHOTO" ∷ "NEWSPAPER"
    ∷ "MAGAZINE" ∷ "UNKNOWN" ∷ "NONE" ∷ []

pub record VlmAssessment : Type 0 where
  pub schema_version : String
  pub classification : String
  pub attack_medium : String
  pub self_reported_confidence : Json
  pub evidence_codes : Items
  pub subject_count : String
  pub secondary_person_state : String

-- The fields of the model; `extra="forbid"` refuses each other key.
abbrev known_fields : List String
known_fields =
    "schema_version" ∷ "classification" ∷ "attack_medium" ∷ "self_reported_confidence"
    ∷ "evidence_codes" ∷ "subject_count" ∷ "secondary_person_state" ∷ []

abbrev pub only_known : Fields → Bool
only_known end = true
only_known (field k v f) = contains k known_fields && only_known f

-- Validation of a member of an enumeration.
abbrev pub member : List String → Option String → Option String
member names none = none
member names (some s) = if contains s names then some s else none

abbrev pub are_texts : Items → Bool
are_texts nil = true
are_texts (cons (text s) rest) = are_texts rest
are_texts (cons _ rest) = false

-- `list[str]` of at most 20
abbrev pub evidence_of : Json → Option Items
evidence_of (arr xs) = if are_texts xs && leb (count_items xs) 20 then some xs else none
evidence_of _ = none

-- The model of fields that were validated one by one.
abbrev pub assemble :
    Option String
    → Option String
    → Option String
    → Option Json
    → Option Items
    → Option String
    → Option String
    → Option VlmAssessment
assemble (some schema_version) (some classification) (some attack_medium) (some confidence)
      (some evidence_codes) (some subject_count) (some state) =
    some (record {
      schema_version = schema_version;
      classification = classification;
      attack_medium = attack_medium;
      self_reported_confidence = confidence;
      evidence_codes = evidence_codes;
      subject_count = subject_count;
      secondary_person_state = state;
    })
assemble _ _ _ _ _ _ _ = none

-- Python's methods of texts that the removal of a code fence calls.
pub record TextMethods : Type 0 where
  pub strip : String → String
  pub strip_ticks : String → String
  pub lstrip : String → String
  pub rstrip : String → String
  pub ends_with : String → String → Bool
  pub drop_end : ℕ → String → String

abbrev without_language : TextMethods → String → String
without_language methods s = if starts_with "json" s then methods.lstrip (drop_chars 4 s) else s

abbrev without_end : TextMethods → String → String
without_end methods s =
    if methods.ends_with "```" s then methods.rstrip (methods.drop_end 3 s) else s

-- The text without the code fence around it.
abbrev pub unfenced : TextMethods → String → String
unfenced methods s =
    let stripped = methods.strip s in
    if starts_with "```" stripped
    then without_end methods (without_language methods (methods.strip_ticks stripped))
    else stripped

-- Pydantic's validation of a float from 0 to 1 is a parameter.
module _ (unit_float : Json → Option Json) where
  -- `VlmAssessment.model_validate`
  unfoldable pub model_validate : Fields → Option VlmAssessment
  model_validate f =
      if not (only_known f)
      then none
      else assemble (as_text (get_or "schema_version" (text "vlm-result-v3") f))
          (member classifications (as_text (get "classification" f)))
          (member attack_media (as_text (get_or "attack_medium" (text "NONE") f)))
          (unit_float (get "self_reported_confidence" f))
          (evidence_of (get_or "evidence_codes" (arr nil) f))
          (member subject_counts (as_text (get "subject_count" f)))
          (member secondary_person_states (as_text (get "secondary_person_state" f)))

  abbrev pub validated : Option Json → Option VlmAssessment
  validated (some (obj f)) = model_validate f
  validated _ = none

  abbrev pub answered : Option VlmAssessment → Answer VlmAssessment
  answered none = refused schema_validation_error
  answered (some a) = given a

  -- `parse_assessment`
  unfoldable pub parse_assessment :
      (String → Option Json) → TextMethods → String → Answer VlmAssessment
  unfolding model_validate
  parse_assessment loads methods s = answered (validated (loads (unfenced methods s)))
