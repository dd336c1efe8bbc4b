-- ===== src/Settings.antt =====
-- The settings that the modelled code reads: Settings of backend/app/core/config.py.
pub mod Gates
use live_photo_llm.Prelude.{
  ℕ, String, Bool, true, false, List, if◌then◌else◌, not, str_eq, ◌||◌, starts_with,
}

pub record Settings : Type 0 where
  pub app_env : String
  pub app_version : String
  pub vlm_experiment_enabled : Bool
  pub vlm_uat_local_experiment_enabled : Bool
  pub vlm_provider : String
  pub vlm_timeout_seconds : ℕ
  pub vlm_max_retries : ℕ
  pub vlm_max_frames : ℕ
  pub vlm_max_single_image_bytes : ℕ
  pub vlm_max_total_image_bytes : ℕ
  pub portrait_processing_enabled : Bool
  pub public_livephoto_base_url : String
  pub launch_token_ttl_seconds : ℕ
  pub browser_session_ttl_seconds : ℕ
  pub browser_cookie_secure : Bool
  pub browser_cookie_samesite : String
  pub s2s_auth_mode : String
  pub s2s_local_dev_token : String
  pub s2s_jwt_issuer : String
  pub s2s_jwt_audience : String
  pub s2s_jwt_jwks_url : String
  pub s2s_jwt_client_id_claim : String
  pub s2s_jwt_clock_skew_seconds : ℕ
  pub s2s_jwt_algorithms : List String
  pub callback_max_retries : ℕ
  pub capture_attempt_warning_at : ℕ
  pub capture_attempt_warning_again_at : ℕ
  pub capture_attempt_limit : ℕ

-- `s2s_jwks_is_local_path`
unfoldable pub s2s_jwks_is_local_path : Settings → Bool
s2s_jwks_is_local_path settings =
    starts_with "/" settings.s2s_jwt_jwks_url
    || starts_with "./" settings.s2s_jwt_jwks_url
    || starts_with "../" settings.s2s_jwt_jwks_url

-- `vlm_experiment_available`
unfoldable pub vlm_experiment_available : Settings → Bool
vlm_experiment_available settings =
    if not settings.vlm_experiment_enabled
    then false
    else if str_eq settings.app_env "production"
    then false
    else if str_eq settings.app_env "uat"
    then settings.vlm_uat_local_experiment_enabled
    else true
