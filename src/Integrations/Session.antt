-- ===== src/Integrations/Session.antt =====
-- Browser sessions and launch redemption: backend/app/integrations/browser_session.py, and the
-- checks of backend/app/api/deps.py.
pub mod Access
pub mod Grants
pub mod Opening
use live_photo_llm.Prelude.{
  ℕ, ◌+◌, ◌*◌, String, Bool, true, false, Option, none, some, str_eq, if◌then◌else◌, leb, not, ◌||◌,
}
use live_photo_llm.Python.{
  Json, null, bool, text, Fields, end, field, get, get_or, as_text, eq_text, Env, option_text,
  str_of,
}
use live_photo_llm.State.{
  active_session, launch_tokens, browser_sessions, World, Exec, Result, ok, err, Error, api,
  session_invalid, session_terminal, csrf_invalid, value_error, pure, raise, lift, gets, asks,
  modify, skip, raise_if, when, or_raise, ◌>>=◌, ◌>>◌,
}
use live_photo_llm.Settings.{Settings}
use live_photo_llm.Transactions.Status.{
  TransactionStatus, value, completed, attempt_limit_exceeded, launched,
}
use live_photo_llm.Transactions.Ids.{TxId}
use live_photo_llm.Transactions.Store.{
  artifact_exists, read_json, read_transaction_json, write_json, lock_transaction,
  validate_transaction_id,
}
use live_photo_llm.Integrations.Index.{index_put, index_delete, index_get}

pub data RedemptionMode : Type 0 where
  active terminal invalid expired : RedemptionMode

abbrev pub mode_value : RedemptionMode → String
mode_value active = "ACTIVE"
mode_value terminal = "TERMINAL"
mode_value invalid = "INVALID"
mode_value expired = "EXPIRED"

abbrev is_active_mode : RedemptionMode → Bool
is_active_mode active = true
is_active_mode _ = false

pub record RedemptionResult : Type 0 where
  pub mode : RedemptionMode
  pub internal_transaction_id : Option String
  pub session_token : Option String
  pub csrf_token : Option String
  pub terminal_state : Option String

-- The tokens that `_new_opaque` draws for one redemption.
pub record FreshTokens : Type 0 where
  pub session : String
  pub csrf : String

-- What a handler reads of its request: the session cookie, the CSRF header and the clock.
pub record Request : Type 0 where
  pub session_cookie : String
  pub csrf_header : String
  pub now : ℕ

-- `is_terminal_status`, of the value that the metadata hold
unfoldable pub is_terminal_status : Json → Bool
is_terminal_status status =
    eq_text status (value completed) || eq_text status (value attempt_limit_exceeded)

abbrev refused : RedemptionMode → RedemptionResult
refused mode = record {
  mode = mode;
  internal_transaction_id = none;
  session_token = none;
  csrf_token = none;
  terminal_state = none;
}

module _ (env : Env) where
  abbrev pub token_hash : String → String
  token_hash token = env.sha256_hex (env.encode token)

  abbrev past : ℕ → Option ℕ → Bool
  past now none = true
  past now (some expiry) = leb expiry now

  abbrev past_text : ℕ → Json → Bool
  past_text now (text s) = past now (env.fromisoformat s)
  past_text now _ = true

  -- `_is_expired`: what is no timestamp has expired.
  unfoldable pub is_expired : ℕ → Json → Bool
  is_expired now expires_at = past_text now expires_at

  abbrev session_hash_of : Result Fields → Option String
  session_hash_of (ok f) = as_text (get "session_hash" f)
  session_hash_of (err _) = none

  abbrev pub delete_session : Option String → World → World
  delete_session none s = s
  delete_session (some h) s = index_delete browser_sessions h s

  -- `_invalidate_previous_active`
  unfoldable pub invalidate_previous_active : TxId → Exec Unit
  invalidate_previous_active t = modify λ s.
      if artifact_exists s t active_session
      then delete_session (session_hash_of (read_json env s t active_session)) s
      else s

  abbrev pub session_fields : Settings → TxId → RedemptionMode → Json → FreshTokens → ℕ → Fields
  session_fields settings t mode terminal_state fresh now = field "transaction_id" (text t.name) (
      field "mode" (text (mode_value mode)) (
        field "terminal_state" terminal_state (
          field "csrf_hash" (text (token_hash fresh.csrf)) (
            field "created_at" (text (env.isoformat now)) (
              field "expires_at"
                (text (env.isoformat (now + settings.browser_session_ttl_seconds * 1000000)))
                (field "revoked" (bool false) end))))))

  abbrev active_fields : Settings → FreshTokens → ℕ → Fields
  active_fields settings fresh now = field "session_hash" (text (token_hash fresh.session)) (
      field "created_at" (text (env.isoformat now)) (
        field "expires_at"
          (text (env.isoformat (now + settings.browser_session_ttl_seconds * 1000000))) end))

  -- `_create_session`
  unfoldable pub create_session :
      Settings → TxId → RedemptionMode → Json → FreshTokens → ℕ → Exec RedemptionResult
  unfolding invalidate_previous_active write_json lock_transaction
  create_session settings t mode terminal_state fresh now = do
    lock_transaction t
    when (is_active_mode mode) (invalidate_previous_active t)
    modify (
        index_put browser_sessions (token_hash fresh.session)
          (session_fields settings t mode terminal_state fresh now))
    when (is_active_mode mode) (write_json t active_session (active_fields settings fresh now))
    pure (record {
      mode = mode;
      internal_transaction_id = some t.name;
      session_token = some fresh.session;
      csrf_token = some fresh.csrf;
      terminal_state = as_text terminal_state;
    })

  abbrev redeem_for : Settings → FreshTokens → ℕ → TxId → Exec RedemptionResult
  redeem_for settings fresh now t = do
    metadata ← asks (λ s. read_transaction_json env s t)
    let status = get_or "status" (text (value launched)) metadata
    if is_terminal_status status
        then create_session settings t terminal status fresh now
        else create_session settings t active null fresh now

  abbrev redeem_id : Settings → FreshTokens → ℕ → Option String → Exec RedemptionResult
  redeem_id settings fresh now none = pure (refused invalid)
  redeem_id settings fresh now (some name) = do
    t ← lift (validate_transaction_id name)
    redeem_for settings fresh now t

  abbrev redeem_record : Settings → FreshTokens → ℕ → String → Option Fields → Exec RedemptionResult
  redeem_record settings fresh now h none = pure (refused invalid)
  redeem_record settings fresh now h (some r) =
      if is_expired now (get_or "expires_at" (text "") r)
      then (modify (index_delete launch_tokens h) >> pure (refused expired))
      else redeem_id settings fresh now (as_text (get "transaction_id" r))

  unfoldable pub redeem_launch_token : Settings → String → FreshTokens → ℕ → Exec RedemptionResult
  redeem_launch_token settings raw_token fresh now = do
    r ← asks (λ s. index_get env s launch_tokens (token_hash raw_token))
    redeem_record settings fresh now (token_hash raw_token) r

  abbrev pub is_true : Json → Bool
  is_true (bool b) = b
  is_true _ = false

  abbrev live_session : ℕ → String → Option Fields → Exec (Option Fields)
  live_session now h none = pure none
  live_session now h (some r) =
      if is_true (get "revoked" r)
      then pure none
      else if is_expired now (get_or "expires_at" (text "") r)
      then (modify (index_delete browser_sessions h) >> pure none)
      else pure (some r)

  unfoldable pub resolve_browser_session : String → ℕ → Exec (Option Fields)
  resolve_browser_session session_token now = if str_eq session_token "" then pure none else do
    r ← asks (λ s. index_get env s browser_sessions (token_hash session_token))
    live_session now (token_hash session_token) r

  abbrev matches_hash : String → Json → Bool
  matches_hash presented (text stored) = if str_eq stored "" then false else str_eq presented stored
  matches_hash presented _ = false

  unfoldable pub verify_csrf : Fields → String → Bool
  verify_csrf r csrf_token = matches_hash (token_hash csrf_token) (get_or "csrf_hash" (text "") r)

  abbrev pub if_session_active : Option Fields → Exec Fields
  if_session_active none = raise (api session_invalid)
  if_session_active (some r) =
      if eq_text (get "mode" r) (mode_value active) then pure r else raise (api session_terminal)

  unfoldable pub require_active_session : Request → Exec Fields
  unfolding resolve_browser_session
  require_active_session req = do
    r ← resolve_browser_session req.session_cookie req.now
    if_session_active r

  unfoldable pub require_csrf : Request → Fields → Exec Unit
  unfolding verify_csrf
  require_csrf req r = raise_if (not (verify_csrf r req.csrf_header)) (api csrf_invalid)

  abbrev id_of_text : Option String → Result TxId
  id_of_text none = err value_error
  id_of_text (some name) = validate_transaction_id name

  -- `record["transaction_id"]`, validated as the store does on the first call.
  unfoldable pub session_transaction : Fields → Result TxId
  session_transaction r = id_of_text (as_text (get "transaction_id" r))

  -- The opening of each mutation: an active session and its CSRF token.
  unfoldable pub authorize : Request → Exec TxId
  unfolding require_active_session require_csrf session_transaction
  authorize req = do
    r ← require_active_session req
    require_csrf req r
    lift (session_transaction r)
