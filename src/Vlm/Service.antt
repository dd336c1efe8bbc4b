-- ===== src/Vlm/Service.antt =====
-- VlmEvaluationService: backend/app/experiments/vlm/service.py. The provider that its factory makes
-- is an argument; the logs, the metrics and the id of the experiment are left out.
pub mod Limits
use live_photo_llm.Prelude.{
  ℕ, ◌+◌, String, Bool, true, false, Option, none, some, List, [], ◌∷◌, if◌then◌else◌, ltb, leb,
  ◌==◌, not, length,
}
use live_photo_llm.Python.{Items, nil, Bytes}
use live_photo_llm.Settings.{Settings, vlm_experiment_available}
use live_photo_llm.Liveness.Evaluation.{
  ExperimentResult, ServiceAnswer, raised, returned, prompt_version, vlm_schema_version,
}
use live_photo_llm.Vlm.Errors.{
  VlmErrorCode, code_value, vlm_disabled, provider_bad_request, too_many_images, request_too_large,
}
use live_photo_llm.Vlm.Retry.{Answer, given, refused}
use live_photo_llm.Vlm.Frames.{FrameStrategy, expected_frame_count}
use live_photo_llm.Vlm.Assessment.{VlmAssessment}

pub record ImageInput : Type 0 where
  pub content : Bytes
  pub mime_type : String

pub record ExperimentEvaluateRequest : Type 0 where
  pub strategy : FrameStrategy
  pub provider : String
  pub mock_behavior : String
  pub frames : List ImageInput

-- VisionProviderCapabilities, the limits
pub record Capabilities : Type 0 where
  pub max_images_per_request : ℕ
  pub max_image_bytes : ℕ
  pub max_total_request_bytes : ℕ

-- A provider that was configured: what it is, its limits, and what it answers to a request.
pub record Provider : Type 0 where
  pub model_id : String
  pub capabilities : Capabilities
  pub evaluate : ExperimentEvaluateRequest → Answer VlmAssessment

-- What the service answers, and the requests that it made of the provider.
pub record Evaluated : Type 0 where
  pub answer : ServiceAnswer
  pub sent : List ExperimentEvaluateRequest

abbrev pub least : ℕ → ℕ → ℕ
least a b = if leb a b then a else b

abbrev pub total_bytes : List ImageInput → ℕ
total_bytes [] = 0
total_bytes (image ∷ rest) = length image.content + total_bytes rest

-- Whether a single image is above the limit.
abbrev pub any_larger : ℕ → List ImageInput → Bool
any_larger max_image [] = false
any_larger max_image (image ∷ rest) =
    if ltb max_image (length image.content) then true else any_larger max_image rest

module _ (settings : Settings) where
  -- `_check_capabilities`: the code of the error that is raised, if one is
  unfoldable pub check_capabilities : Capabilities → ExperimentEvaluateRequest → Option VlmErrorCode
  check_capabilities caps request =
      let max_image = least caps.max_image_bytes settings.vlm_max_single_image_bytes in
      let max_total = least caps.max_total_request_bytes settings.vlm_max_total_image_bytes in
      if ltb (least caps.max_images_per_request settings.vlm_max_frames) (length request.frames)
      then some too_many_images
      else if any_larger max_image request.frames
      then some request_too_large
      else if ltb max_total (total_bytes request.frames)
      then some request_too_large
      else none

  -- `_validate_strategy`: whether the number of the frames is the strategy's
  unfoldable pub has_expected_count : ExperimentEvaluateRequest → Bool
  has_expected_count request = length request.frames == expected_frame_count request.strategy

  abbrev stopped : VlmErrorCode → Evaluated
  stopped code = record { answer = raised (code_value code); sent = [] }

  abbrev pub result_of : String → ℕ → Provider → Answer VlmAssessment → ExperimentResult
  result_of name latency_ms provider (refused code) = record {
    provider = name;
    model = provider.model_id;
    prompt = prompt_version;
    schema = vlm_schema_version;
    classification = none;
    attack_medium = none;
    evidence_codes = nil;
    subject_count = none;
    secondary_person_state = none;
    latency_ms = none;
    error = some (code_value code);
  }
  result_of name latency_ms provider (given a) = record {
    provider = name;
    model = provider.model_id;
    prompt = prompt_version;
    schema = vlm_schema_version;
    classification = some a.classification;
    attack_medium = some a.attack_medium;
    evidence_codes = a.evidence_codes;
    subject_count = some a.subject_count;
    secondary_person_state = some a.secondary_person_state;
    latency_ms = some latency_ms;
    error = none;
  }

  abbrev pub asked : ExperimentEvaluateRequest → ℕ → Provider → Evaluated
  asked request latency_ms provider = record {
    answer = returned (result_of request.provider latency_ms provider (provider.evaluate request));
    sent = request ∷ [];
  }

  abbrev pub if_capable : ExperimentEvaluateRequest → ℕ → Provider → Option VlmErrorCode → Evaluated
  if_capable request latency_ms provider none = asked request latency_ms provider
  if_capable request latency_ms provider (some code) = stopped code

  abbrev pub with_provider : ExperimentEvaluateRequest → ℕ → Answer Provider → Evaluated
  with_provider request latency_ms (refused code) = stopped code
  with_provider request latency_ms (given provider) =
      if_capable request latency_ms provider (check_capabilities provider.capabilities request)

  -- `evaluate`, where the factory gives the provider or its error
  unfoldable pub evaluate : (String → Answer Provider) → ExperimentEvaluateRequest → ℕ → Evaluated
  unfolding has_expected_count check_capabilities
  evaluate factory request latency_ms =
      if not (vlm_experiment_available settings)
      then stopped vlm_disabled
      else if not (has_expected_count request)
      then stopped provider_bad_request
      else with_provider request latency_ms (factory request.provider)
