-- ===== src/Integrations/Redeem/Cookies.antt =====
-- The cookies of a redemption.
use live_photo_llm.Prelude.{
  ℕ, String, Bool, true, Option, List, [], ◌∷◌, ◌≡◌, ◌∙◌, refl, sym, ap, arith, ◌&&◌, ◌||◌, str_eq,
}
use live_photo_llm.Python.{Env}
use live_photo_llm.State.{World, ok, pure}
use live_photo_llm.State.Inversion.{bind-ok}
use live_photo_llm.Settings.{Settings}
use live_photo_llm.Settings.Gates.{BaseUrl, is_deployed, load_settings, load_settings-IsHardened}
use live_photo_llm.Integrations.Session.{
  FreshTokens, RedemptionMode, RedemptionResult, active, terminal, invalid, expired,
  redeem_launch_token,
}
use live_photo_llm.Integrations.Redeem.{Cookie, cookies_of, redeem}

-- Each cookie is Secure, and each but the CSRF cookie is HttpOnly.
abbrev pub are_guarded : List Cookie → Bool
are_guarded [] = true
are_guarded (c ∷ cs) = c.secure && (c.httponly || str_eq c.name "lp_csrf") && are_guarded cs

module _ (env : Env) (settings : Settings) where
  guarded_of :
      (r : RedemptionResult)
      → settings.browser_cookie_secure ≡ true
      → are_guarded (cookies_of env settings r) ≡ true
  unfolding cookies_of
  guarded_of r e = go r.mode
    where
      go :
          (m : RedemptionMode)
          → are_guarded (cookies_of env settings (record r { mode = m })) ≡ true
      go active = rw e refl
      go terminal = rw e refl
      go invalid = rw e refl
      go expired = rw e refl

  -- With loaded settings of a deployment, every cookie of a redemption is Secure, and HttpOnly
  -- unless it is the CSRF cookie.
  pub redeem-are_guarded :
      (urlparse : String → Option BaseUrl) (opaque_token : String) (fresh : FreshTokens) (now : ℕ)
      (cookies : List Cookie) (s s' : World)
      → load_settings urlparse settings ≡ ok settings
      → is_deployed settings ≡ true
      → redeem env settings opaque_token fresh now s ≡ (ok cookies, s')
      → are_guarded cookies ≡ true
  unfolding redeem
  redeem-are_guarded urlparse opaque_token fresh now cookies s s' loaded deployed h =
      let hardened = load_settings-IsHardened urlparse settings loaded deployed in
      let (r, s1, h1, k1) =
        bind-ok (redeem_launch_token env settings opaque_token fresh now)
          (λ r. pure (cookies_of env settings r)) s h in
      let same : cookies_of env settings r ≡ cookies = ground (arith, k1) in
      ap are_guarded (sym same) ∙ guarded_of r hardened.has_secure_cookies
