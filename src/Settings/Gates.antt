-- ===== src/Settings/Gates.antt =====
-- The validators that a start of the process runs on its settings: Settings of
-- backend/app/core/config.py.
use live_photo_llm.Prelude.{
  String, Bool, true, false, Option, none, some, if◌then◌else◌, not, str_eq, ◌||◌, ◌&&◌, ltb, ◌≡◌,
  arith,
}
use live_photo_llm.State.{Result, ok, err, value_error}
use live_photo_llm.Settings.{Settings, s2s_jwks_is_local_path}

-- What `urlparse` gives of the public address, as far as the gates read it.
pub record BaseUrl : Type 0 where
  pub scheme : String
  pub query : String
  pub fragment : String

abbrev pub is_deployed : Settings → Bool
is_deployed settings = str_eq settings.app_env "uat" || str_eq settings.app_env "production"

module _ (urlparse : String → Option BaseUrl) where
  abbrev is_https_origin : Option BaseUrl → Bool
  is_https_origin none = false
  is_https_origin (some u) = str_eq u.scheme "https" && str_eq u.query "" && str_eq u.fragment ""

  -- `_validate_s2s_environment_gates`: whether the settings pass
  unfoldable pub passes_s2s_environment_gates : Settings → Bool
  unfolding s2s_jwks_is_local_path
  passes_s2s_environment_gates settings =
      if is_deployed settings
      then if str_eq settings.s2s_auth_mode "local_dev"
        then false
        else if str_eq settings.s2s_auth_mode "jwt" && str_eq settings.s2s_jwt_jwks_url ""
        then false
        else if s2s_jwks_is_local_path settings
        then false
        else if not settings.browser_cookie_secure
        then false
        else if str_eq settings.public_livephoto_base_url ""
        then true
        else is_https_origin (urlparse settings.public_livephoto_base_url)
      else true

  -- `_validate_attempt_nonzero` and `_validate_attempt_order`
  unfoldable pub passes_attempt_thresholds : Settings → Bool
  passes_attempt_thresholds settings =
      ltb 0 settings.capture_attempt_warning_at
      && ltb 0 settings.capture_attempt_warning_again_at
      && ltb 0 settings.capture_attempt_limit
      && ltb settings.capture_attempt_warning_at settings.capture_attempt_warning_again_at
      && ltb settings.capture_attempt_warning_again_at settings.capture_attempt_limit

  -- The load of the settings, which a failing validator ends with ValueError.
  unfoldable pub load_settings : Settings → Result Settings
  unfolding passes_s2s_environment_gates passes_attempt_thresholds
  load_settings settings =
      if not (passes_attempt_thresholds settings)
      then err value_error
      else if not (passes_s2s_environment_gates settings)
      then err value_error
      else ok settings

  -- What holds of settings that loaded in UAT or production.
  pub record IsHardened (settings : Settings) : Type 0 where
    pub not_local_dev : str_eq settings.s2s_auth_mode "local_dev" ≡ false
    pub not_local_jwks : s2s_jwks_is_local_path settings ≡ false
    pub has_secure_cookies : settings.browser_cookie_secure ≡ true

  pub load_settings-IsHardened :
      (settings : Settings)
      → load_settings settings ≡ ok settings
      → is_deployed settings ≡ true
      → IsHardened settings
  unfolding load_settings passes_s2s_environment_gates
  load_settings-IsHardened settings h e = record {
    not_local_dev = ground (arith, h, e);
    not_local_jwks = ground (arith, h, e);
    has_secure_cookies = ground (arith, h, e);
  }
