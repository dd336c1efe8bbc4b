-- ===== src/Integrations/Redeem.antt =====
-- GET /xbiz/live_photo/l/{opaque_token}: backend/app/api/xbiz.py. Each reply is a redirect to the
-- clean address; the cookies that it sets are the value returned.
pub mod Cookies
use live_photo_llm.Prelude.{ℕ, String, Bool, true, false, Option, none, some, List, [], ◌∷◌}
use live_photo_llm.Python.{Env}
use live_photo_llm.State.{Exec, pure, ◌>>=◌}
use live_photo_llm.Settings.{Settings}
use live_photo_llm.Integrations.Session.{
  FreshTokens, RedemptionResult, active, terminal, invalid, expired, mode_value,
  redeem_launch_token,
}

-- A Set-Cookie header for the path "/".
pub record Cookie : Type 0 where
  pub name : String
  pub content : String
  pub httponly : Bool
  pub secure : Bool
  pub samesite : String
  pub max_age : ℕ

abbrev launch_outcome_ttl_seconds : ℕ
launch_outcome_ttl_seconds = 60

-- `token or ""`
abbrev or_empty : Option String → String
or_empty none = ""
or_empty (some s) = s

module _ (env : Env) (settings : Settings) where
  abbrev pub cookie : String → String → Bool → ℕ → Cookie
  cookie name content httponly max_age = record {
    name = name;
    content = content;
    httponly = httponly;
    secure = settings.browser_cookie_secure;
    samesite = settings.browser_cookie_samesite;
    max_age = max_age;
  }

  abbrev pub session_cookies : RedemptionResult → List Cookie
  session_cookies r =
      cookie "lp_session" (or_empty r.session_token) true settings.browser_session_ttl_seconds
      ∷ cookie "lp_csrf" (or_empty r.csrf_token) false settings.browser_session_ttl_seconds
      ∷ []

  abbrev pub outcome_cookies : String → List Cookie
  outcome_cookies outcome = cookie "lp_launch_outcome" outcome true launch_outcome_ttl_seconds ∷ []

  -- The cookies for the outcome of a redemption.
  unfoldable pub cookies_of : RedemptionResult → List Cookie
  cookies_of r = elim r.mode [
    | active ↦ session_cookies r
    | terminal ↦ session_cookies r
    | invalid ↦ outcome_cookies (mode_value invalid)
    | expired ↦ outcome_cookies (mode_value expired)
  ]

  unfoldable pub redeem : String → FreshTokens → ℕ → Exec (List Cookie)
  unfolding cookies_of
  redeem opaque_token fresh now = do
    result ← redeem_launch_token env settings opaque_token fresh now
    pure (cookies_of result)
