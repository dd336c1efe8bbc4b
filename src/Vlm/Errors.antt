-- ===== src/Vlm/Errors.antt =====
-- The errors of the providers: backend/app/providers/vision/errors.py.
use live_photo_llm.Prelude.{ℕ, String, Bool, true, false, if◌then◌else◌, ◌==◌, ◌||◌, ◌&&◌, leb, ltb}

pub data VlmErrorCode : Type 0 where
  vlm_disabled provider_not_configured provider_auth_error provider_timeout : VlmErrorCode
  provider_rate_limited provider_unavailable provider_bad_request request_too_large : VlmErrorCode
  too_many_images unsupported_media_type schema_validation_error : VlmErrorCode
  provider_response_error unknown_provider_error : VlmErrorCode

abbrev pub code_value : VlmErrorCode → String
code_value vlm_disabled = "VLM_DISABLED"
code_value provider_not_configured = "PROVIDER_NOT_CONFIGURED"
code_value provider_auth_error = "PROVIDER_AUTH_ERROR"
code_value provider_timeout = "PROVIDER_TIMEOUT"
code_value provider_rate_limited = "PROVIDER_RATE_LIMITED"
code_value provider_unavailable = "PROVIDER_UNAVAILABLE"
code_value provider_bad_request = "PROVIDER_BAD_REQUEST"
code_value request_too_large = "REQUEST_TOO_LARGE"
code_value too_many_images = "TOO_MANY_IMAGES"
code_value unsupported_media_type = "UNSUPPORTED_MEDIA_TYPE"
code_value schema_validation_error = "SCHEMA_VALIDATION_ERROR"
code_value provider_response_error = "PROVIDER_RESPONSE_ERROR"
code_value unknown_provider_error = "UNKNOWN_PROVIDER_ERROR"

-- What an HTTP client raises: `httpx`'s exceptions, a VlmError, or another one.
pub data HttpFailure : Type 0 where
  timed_out network_error other_error : HttpFailure
  http_status : ℕ → HttpFailure
  vlm_error : VlmErrorCode → HttpFailure

abbrev status_error : ℕ → VlmErrorCode
status_error status =
    if status == 401 || status == 403
    then provider_auth_error
    else if status == 429
    then provider_rate_limited
    else if status == 408 || leb 500 status
    then provider_unavailable
    else if leb 400 status && ltb status 500
    then provider_bad_request
    else unknown_provider_error

-- `map_provider_http_error`
unfoldable pub map_provider_http_error : HttpFailure → VlmErrorCode
map_provider_http_error timed_out = provider_timeout
map_provider_http_error (http_status status) = status_error status
map_provider_http_error network_error = provider_unavailable
map_provider_http_error (vlm_error code) = code
map_provider_http_error other_error = unknown_provider_error

-- RETRYABLE_CODES
unfoldable pub is_retryable_error : VlmErrorCode → Bool
is_retryable_error provider_rate_limited = true
is_retryable_error provider_unavailable = true
is_retryable_error provider_timeout = true
is_retryable_error _ = false
