-- ===== src/Liveness/Evaluation.antt =====
-- The cached evaluation of a capture, and the call of the provider:
-- backend/app/experiments/vlm/liveness.py. The answer of VlmEvaluationService is an argument.
use live_photo_llm.Prelude.{
  ℕ, String, Bool, true, false, Option, none, some, List, [], ◌∷◌, str_eq, if◌then◌else◌, not,
}
use live_photo_llm.Python.{
  Json, null, bool, int, text, arr, Items, nil, Fields, end, field, get, Env, eq_text, text_in,
  truthy, option_text,
}
use live_photo_llm.State.{evaluation, selected_original, World, Exec, Result, ok, err, vlm}
use live_photo_llm.Settings.{Settings}
use live_photo_llm.Transactions.Ids.{TxId}
use live_photo_llm.Transactions.Store.{artifact_exists, read_artifact, read_json, write_json}
use live_photo_llm.Transactions.Decisions.{outcome_value, is_pass, retry}
use live_photo_llm.Liveness.Policy.{
  is_person_state_consistent, map_classification_to_outcome, interference_reasons,
}
use live_photo_llm.Liveness.Capture.{CaptureKey}

-- VLM_SCHEMA_VERSION and PROMPT_VERSION
abbrev pub vlm_schema_version : String
vlm_schema_version = "vlm-result-v3"

abbrev pub prompt_version : String
prompt_version = "vlm-passive-v3"

-- VALID_SUBJECT_COUNTS and VALID_SECONDARY_STATES
abbrev pub valid_subject_counts : List String
valid_subject_counts = "ZERO" ∷ "ONE" ∷ "MULTIPLE" ∷ "UNCERTAIN" ∷ []

abbrev pub valid_secondary_states : List String
valid_secondary_states = "NONE" ∷ "BACKGROUND" ∷ "INTERFERING" ∷ "UNCERTAIN" ∷ []

-- ExperimentResult, the fields that are read
pub record ExperimentResult : Type 0 where
  pub provider : String
  pub model : String
  pub prompt : String
  pub schema : String
  pub classification : Option String
  pub attack_medium : Option String
  pub evidence_codes : Items
  pub subject_count : Option String
  pub secondary_person_state : Option String
  pub latency_ms : Option ℕ
  pub error : Option String

-- VlmEvaluationService.evaluate raises VlmError or returns a result.
pub data ServiceAnswer : Type 0 where
  raised : String → ServiceAnswer
  returned : ExperimentResult → ServiceAnswer

abbrev option_int : Option ℕ → Json
option_int none = null
option_int (some n) = int n

abbrev pub list_of : Json → Json
list_of (arr xs) = arr xs
list_of _ = arr nil

module _ (env : Env) where
  unfoldable pub is_current_evaluation : Fields → Bool
  is_current_evaluation payload =
      if truthy env (get "error" payload)
      then true
      else if not (eq_text (get "schema_version" payload) vlm_schema_version)
      then false
      else if not (eq_text (get "prompt_version" payload) prompt_version)
      then false
      else if not (text_in (get "subject_count" payload) valid_subject_counts)
      then false
      else if not (text_in (get "secondary_person_state" payload) valid_secondary_states)
      then false
      else is_person_state_consistent (get "subject_count" payload)
          (get "secondary_person_state" payload)

  abbrev evaluation_of : Result Fields → Option Fields
  evaluation_of (ok f) = some f
  evaluation_of (err _) = none

  unfoldable pub read_evaluation : World → TxId → String → Option Fields
  read_evaluation s t identity =
      if artifact_exists s t (evaluation identity)
      then evaluation_of (read_json env s t (evaluation identity))
      else none

  unfoldable pub error_payload :
      String → CaptureKey → String → Option String → Option String → Fields
  error_payload error_code key started_at provider model =
      field "attempt_id" (text key.attempt_id) (
        field "selected_sha256" (text key.selected_sha256) (
          field "provider" (option_text provider) (
            field "model" (option_text model) (
              field "prompt_version" null (
                field "schema_version" null (
                  field "classification" null (
                    field "attack_medium" null (
                      field "evidence_codes" (arr nil) (
                        field "subject_count" null (
                          field "secondary_person_state" null (
                            field "reason_codes" (arr nil) (
                              field "outcome" (text (outcome_value retry)) (
                                field "portrait_allowed" (bool false) (
                                  field "latency_ms" null (
                                    field "error" (text error_code)
                                      (field "created_at" (text started_at) end))))))))))))))))

  unfoldable pub success_payload : ExperimentResult → CaptureKey → String → Fields
  success_payload r key started_at =
      let classification = option_text r.classification in
      let count = option_text r.subject_count in
      let state = option_text r.secondary_person_state in
      let outcome = map_classification_to_outcome classification count state in
      field "attempt_id" (text key.attempt_id) (
        field "selected_sha256" (text key.selected_sha256) (
          field "provider" (text r.provider) (
            field "model" (text r.model) (
              field "prompt_version" (text r.prompt) (
                field "schema_version" (text r.schema) (
                  field "classification" classification (
                    field "attack_medium" (option_text r.attack_medium) (
                      field "evidence_codes" (arr r.evidence_codes) (
                        field "subject_count" count (
                          field "secondary_person_state" state (
                            field "reason_codes" (arr (interference_reasons count state)) (
                              field "outcome" (text (outcome_value outcome)) (
                                field "portrait_allowed" (bool (is_pass outcome)) (
                                  field "latency_ms" (option_int r.latency_ms) (
                                    field "error" null
                                      (field "created_at" (text started_at) end))))))))))))))))

  -- The payload for what the service returned.
  abbrev payload_for : ExperimentResult → Option String → CaptureKey → String → String → Fields
  payload_for r none key started_at provider = success_payload r key started_at
  payload_for r (some code) key started_at provider =
      error_payload code key started_at (some provider) (some r.model)

  unfoldable pub payload_of : ServiceAnswer → CaptureKey → String → String → Result Fields
  payload_of (raised code) key started_at provider = err (vlm code)
  payload_of (returned r) key started_at provider =
      ok (payload_for r r.error key started_at provider)

  unfoldable pub evaluate_capture :
      Settings → TxId → CaptureKey → ServiceAnswer → ℕ → World → Result Fields
  evaluate_capture settings t key answer now s = elim (read_artifact env s t selected_original) [
    | err e ↦ err e
    | ok image ↦
        (if str_eq (env.lower settings.vlm_provider) ""
          then ok (error_payload "PROVIDER_NOT_CONFIGURED" key (env.isoformat now) none none)
          else payload_of answer key (env.isoformat now) (env.lower settings.vlm_provider))
  ]

-- `persist_evaluation`
unfoldable pub persist_evaluation : TxId → String → Fields → Exec Unit
unfolding write_json
persist_evaluation t identity payload = write_json t (evaluation identity) payload

module _ (env : Env) where
  unfoldable pub persist_error_evaluation : TxId → String → CaptureKey → String → ℕ → Exec Unit
  unfolding persist_evaluation
  persist_error_evaluation t identity key code now =
      persist_evaluation t identity (error_payload env code key (env.isoformat now) none none)
