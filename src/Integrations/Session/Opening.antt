-- ===== src/Integrations/Session/Opening.antt =====
-- The redemption of a token that a launch issued.
use mathlib.Core.Path.{subst}
use live_photo_llm.Prelude.{if◌then◌else◌}
use live_photo_llm.Integrations.Session.{terminal}
use live_photo_llm.Prelude.{
  ℕ, ◌+◌, ◌*◌, String, false, some, ◌≡◌, ◌∙◌, refl, sym, arith, ◌<◌, leb, str_eq,
}
use live_photo_llm.Python.{Env, null, text, get, get_or, has_key}
use live_photo_llm.State.{World, Result, ok, launch_tokens, asks, lift}
use live_photo_llm.State.Inversion.{bind-from}
use live_photo_llm.Settings.{Settings}
use live_photo_llm.Transactions.Status.{value, launched}
use live_photo_llm.Transactions.Ids.{TxId}
use live_photo_llm.Transactions.Store.{read_transaction_json, validate_transaction_id}
use live_photo_llm.Integrations.Consumers.{ConsumerProfile}
use live_photo_llm.Integrations.Index.{index_get}
use live_photo_llm.Integrations.Session.{
  FreshTokens, RedemptionResult, active, terminal, create_session, redeem_launch_token, token_hash,
  authorize, is_expired, is_terminal_status, redeem_record, redeem_for,
}
use live_photo_llm.Integrations.Session.Grants.{session_grants, validate-name}
use live_photo_llm.Integrations.Launch.{
  LaunchSessionRequest, LaunchResult, Drawn, create_launch, token_fields, transaction_metadata,
}
use live_photo_llm.Integrations.Launch.Launched.{IsClaimed, IsLaunched, create_launch-IsLaunched}

module _ (env : Env) (settings : Settings) (rstrip_slash : String → String)
    (profile : ConsumerProfile) (req : LaunchSessionRequest) (drawn : Drawn) (now : ℕ)
    (fresh : FreshTokens) where
  abbrev launch_expiry : ℕ
  launch_expiry = now + settings.launch_token_ttl_seconds * 1000000

  -- What CPython promises of the timestamp that the launch was given.
  abbrev pub IsLaunchReadBack : Type 0
  IsLaunchReadBack = env.fromisoformat (env.isoformat launch_expiry) ≡ some launch_expiry

  abbrev session_expiry : ℕ → ℕ
  session_expiry later = later + settings.browser_session_ttl_seconds * 1000000

  -- And of the timestamp that the session is given.
  abbrev pub IsSessionReadBack : ℕ → Type 0
  IsSessionReadBack later =
      env.fromisoformat (env.isoformat (session_expiry later)) ≡ some (session_expiry later)

  not_past : (later : ℕ) → later < launch_expiry → leb launch_expiry later ≡ false
  not_past later h = ground arith

  fresh_token :
      (t : TxId) (later : ℕ)
      → IsLaunchReadBack
      → later < launch_expiry
      → is_expired env later
          (get_or "expires_at" (text "") (token_fields env settings rstrip_slash t now))
        ≡ false
  unfolding is_expired get_or get has_key
  fresh_token t later back h = rw back (not_past later h)

  redeem_launched :
      (t : TxId) (s : World) (later : ℕ)
      → IsClaimed env settings rstrip_slash profile req drawn now t s
      → redeem_for env settings fresh later t s
        ≡ create_session env settings t active null fresh later s
  unfolding is_terminal_status get_or get has_key transaction_metadata
  redeem_launched t s later h =
      bind-from (asks (λ w. read_transaction_json env w t))
        (λ metadata.
          let status = get_or "status" (text (value launched)) metadata in
          if is_terminal_status status
          then create_session env settings t terminal status fresh later
          else create_session env settings t active null fresh later)
        s (λ i. (h.metadata i, s))

  pub redeem_launch_token-launched :
      (t : TxId) (s : World) (later : ℕ)
      → IsLaunched env settings rstrip_slash profile req drawn now t s
      → IsLaunchReadBack
      → later < launch_expiry
      → redeem_launch_token env settings drawn.raw_token fresh later s
        ≡ create_session env settings t active null fresh later s
  unfolding redeem_launch_token get
  redeem_launch_token-launched t s later h back early =
      bind-from (asks (λ w. index_get env w launch_tokens (token_hash env drawn.raw_token)))
        (redeem_record env settings fresh later (token_hash env drawn.raw_token)) s
        (λ i. (h.token i, s))
      ∙ (rw (fresh_token t later back early) refl
          ∙ (bind-from (lift (validate_transaction_id t.name)) (redeem_for env settings fresh later)
                s (λ i. (validate-name t i, s))
              ∙ redeem_launched t s later h.is_claimed))

  -- The token of a launch that returned, redeemed before it expires, opens a session with which
  -- the launched transaction may be acted on until the session expires, and the check changes
  -- nothing. The session token and the CSRF token's digest are taken not to be empty, and the two
  -- expiries' timestamps to read back as the instants they were written for.
  pub launched_token_opens :
      (r : LaunchResult) (s s' : World) (later at : ℕ)
      → create_launch env settings rstrip_slash profile req drawn now s ≡ (ok r, s')
      → IsLaunchReadBack
      → later < launch_expiry
      → IsSessionReadBack later
      → at < session_expiry later
      → str_eq fresh.session "" ≡ false
      → str_eq (token_hash env fresh.csrf) "" ≡ false
      → let s'' = (redeem_launch_token env settings drawn.raw_token fresh later s').1 in
        (t : TxId) × IsClaimed env settings rstrip_slash profile req drawn now t s'
        × (authorize env
              (record { session_cookie = fresh.session; csrf_header = fresh.csrf; now = at })
              s''
            ≡ (ok t, s''))
  launched_token_opens r s s' later at h launch_back early back on_time session csrf =
      let (t, left, _) =
        create_launch-IsLaunched env settings rstrip_slash profile req drawn now r s s' h in
      let opened = redeem_launch_token-launched t s' later left launch_back early in
      (
        t,
        left.is_claimed,
        subst
            (λ (p : Result RedemptionResult × World).
              authorize env
                (record { session_cookie = fresh.session; csrf_header = fresh.csrf; now = at }) p.1
              ≡ (ok t, p.1))
            (sym opened)
            (session_grants env settings t fresh later at s' back on_time session csrf),
      )
