-- ===== src/Tests/Vlm.antt =====
-- Runs of the evaluation by a vision model.
use live_photo_llm.Prelude.{
  zero, suc, ℕ, ◌<◌, false, some, List, [], ◌∷◌, ◌≡◌, ◌⊎◌, refl, arith, ◌==◌, if◌then◌else◌,
}
use live_photo_llm.Python.{Fields, field, text, end, float, obj, nil}
use live_photo_llm.Vlm.Errors.{provider_timeout}
use live_photo_llm.Vlm.Retry.{Answer, given, refused}
use live_photo_llm.Vlm.Retry.Attempts.{
  IsLast, IsTransient, run_with_retries_recovers, run_with_retries-IsLast,
}
use live_photo_llm.Vlm.Frames.{single_quality}
use live_photo_llm.Vlm.Frames.Triad.{IsTriad, AreAt, select_temporal_triad-AreAt}
use live_photo_llm.Vlm.Assessment.{VlmAssessment, TextMethods}
use live_photo_llm.Vlm.Assessment.Strict.{IsStrict, parse_assessment-IsStrict}
use live_photo_llm.Vlm.Service.{ExperimentEvaluateRequest, Provider}
use live_photo_llm.Vlm.Service.Limits.{IsAsked, evaluate-IsAsked}
use live_photo_llm.Tests.{settings, jpeg}
use live_photo_llm.Python.{get, has_key, get_or, set, contains_text, snoc, count_items}
use live_photo_llm.Settings.{s2s_jwks_is_local_path, vlm_experiment_available}
use live_photo_llm.Vlm.Errors.{map_provider_http_error, is_retryable_error}
use live_photo_llm.Vlm.Retry.{retry_loop, run_with_retries}
use live_photo_llm.Vlm.Frames.{
  expected_frame_count, is_supported_strategy, round_quarters, next_free, take_target,
  triad_indices, select_single_frame, select_temporal_triad,
}
use live_photo_llm.Vlm.Assessment.{model_validate, parse_assessment}
use live_photo_llm.Vlm.Service.{check_capabilities, has_expected_count, evaluate}

-- The first attempt times out, the second is answered.
abbrev operation : ℕ → Answer Unit
operation i = if i == 0 then refused provider_timeout else given tt

timed_out : (i : ℕ) → i < 1 → IsTransient (operation i)
unfolding is_retryable_error
timed_out zero h = refl
timed_out (suc i) h = absurd (ground (arith, h))

run_with_retries_recovers_example :
    run_with_retries operation 2 ≡ record { answer = given tt; attempts = 2 }
run_with_retries_recovers_example =
    run_with_retries_recovers operation 2 1 tt (ground arith) refl timed_out

run_with_retries-IsLast_example : IsLast operation 2 0 (run_with_retries operation 2)
run_with_retries-IsLast_example = run_with_retries-IsLast operation 2

abbrev frames : List ℕ
frames = 10 ∷ 11 ∷ 12 ∷ 13 ∷ []

select_temporal_triad-AreAt_example :
    (t : IsTriad 3 (triad_indices 3)) × AreAt frames t.first t.second t.third
      (select_temporal_triad frames)
select_temporal_triad-AreAt_example = select_temporal_triad-AreAt frames (ground arith)

abbrev answer : Fields
answer = field "classification" (text "LIVE") (
    field "self_reported_confidence" (float "0.9")
      (field "subject_count" (text "ONE") (field "secondary_person_state" (text "NONE") end)))

abbrev assessment : VlmAssessment
assessment = record {
  schema_version = "vlm-result-v3";
  classification = "LIVE";
  attack_medium = "NONE";
  self_reported_confidence = float "0.9";
  evidence_codes = nil;
  subject_count = "ONE";
  secondary_person_state = "NONE";
}

abbrev methods : TextMethods
methods = record {
  strip = λ s. s;
  strip_ticks = λ s. s;
  lstrip = λ s. s;
  rstrip = λ s. s;
  ends_with = λ t s. false;
  drop_end = λ n s. s;
}

parsed : parse_assessment (λ v. some v) (λ s. some (obj answer)) methods "{}" ≡ given assessment
unfolding get has_key get_or set contains_text snoc count_items s2s_jwks_is_local_path
    vlm_experiment_available map_provider_http_error is_retryable_error retry_loop run_with_retries
    expected_frame_count is_supported_strategy round_quarters next_free take_target triad_indices
    select_single_frame select_temporal_triad model_validate parse_assessment check_capabilities
    has_expected_count evaluate
parsed = refl

parse_assessment-IsStrict_example :
    (f : Fields) × (some (obj answer) ≡ some (obj f)) × IsStrict f assessment
parse_assessment-IsStrict_example =
    parse_assessment-IsStrict (λ v. some v) (λ s. some (obj answer)) methods "{}" assessment parsed

abbrev evaluation_request : ExperimentEvaluateRequest
evaluation_request = record {
  strategy = single_quality;
  provider = "local";
  mock_behavior = "";
  frames = record { content = jpeg; mime_type = "image/jpeg" } ∷ [];
}

abbrev provider : Provider
provider = record {
  model_id = "m";
  capabilities = record {
    max_images_per_request = 3;
    max_image_bytes = 500;
    max_total_request_bytes = 900;
  };
  evaluate = λ request. given assessment;
}

evaluate-IsAsked_example :
    ((evaluate settings (λ name. given provider) evaluation_request 5).sent ≡ [])
    ⊎ (((evaluate settings (λ name. given provider) evaluation_request 5).sent
          ≡ evaluation_request ∷ [])
        × IsAsked settings (λ name. given provider) evaluation_request)
evaluate-IsAsked_example = evaluate-IsAsked settings (λ name. given provider) evaluation_request 5
