-- ===== src/Browser/Submit.antt =====
-- POST /browser/submit: backend/app/api/v1/browser.py. The whole handler holds the lock.
pub mod Authorization
pub mod Completion
pub mod Once
pub mod Outcome
pub mod Repeat
use live_photo_llm.Prelude.{
  ℕ, String, Bool, true, false, Option, none, some, List, [], ◌∷◌, str_eq, if◌then◌else◌, not, ◌||◌,
  contains, ◌==◌, ◌&&◌,
}
use live_photo_llm.Python.{
  Json, bool, text, Fields, end, field, get, get_or, eq_text, as_text, Env, str_of, Bytes,
}
use live_photo_llm.State.{
  callback_state, portrait_processed, active_session, browser_sessions, World, Exec, Result, ok,
  err, Error, api, callback_transport, callback_terminal, transaction_completed,
  transaction_terminal, not_ready, portrait_not_ready, portrait_integrity_failed,
  integration_not_configured, callback_failed, invalid_redirect, pure, raise, lift, gets, asks,
  catch, modify, raise_if, or_raise, ◌>>=◌, ◌>>◌,
}
use live_photo_llm.Settings.{Settings}
use live_photo_llm.Transactions.Status
use live_photo_llm.Transactions.Status.{TransactionStatus, value, parse}
use live_photo_llm.Transactions.Ids.{TxId}
use live_photo_llm.Transactions.Store.{
  artifact_exists, read_artifact, read_json, read_transaction_json, write_json, lock_transaction,
  update_transaction_status,
}
use live_photo_llm.Transactions.Decisions.{DecisionRecord, read_decision}
use live_photo_llm.Integrations.Consumers.{ConsumerProfile, Registry, get_profile}
use live_photo_llm.Integrations.Index.{index_delete}
use live_photo_llm.Integrations.Callback.{
  Network, CallbackDelivery, ParsedUrl, build_callback_event_id, build_callback_payload,
  send_callback, validate_redirect_url,
}
use live_photo_llm.Integrations.Session.{Request, authorize}
use live_photo_llm.Liveness.Binding.{has_current_canonical_pass, portrait_authorization_current}
use live_photo_llm.Browser.Common.{status_blocks}

abbrev starts_with_jpeg : Bytes → Bool
starts_with_jpeg (a ∷ b ∷ c ∷ rest) = a == 0xff && b == 0xd8 && c == 0xff
starts_with_jpeg _ = false

-- `_status_str(…) == "COMPLETED"`
abbrev is_completed : Json → Bool
is_completed status = eq_text status (value Status.completed)

abbrev is_local : String → Bool
is_local app_env = contains app_env ("local" ∷ "test" ∷ "development" ∷ [])

abbrev failed_state : String → Bool → String → Fields
failed_state event_id retryable now = field "event_id" (text event_id) (
    field "state" (text "FAILED")
      (field "retryable" (bool retryable) (field "updated_at" (text now) end)))

abbrev acknowledged_state : String → String → String → Fields
acknowledged_state event_id redirect_url now = field "event_id" (text event_id) (
    field "state" (text "ACKNOWLEDGED")
      (field "redirect_url" (text redirect_url) (field "updated_at" (text now) end)))

abbrev fields_or_empty : Result Fields → Fields
fields_or_empty (ok f) = f
fields_or_empty (err _) = end

abbrev redirect_text : Option String → String
redirect_text none = ""
redirect_text (some url) = url

-- What a submit delivers: the parties, the decision and the portrait.
pub record Delivery : Type 0 where
  pub profile : ConsumerProfile
  pub event_id : String
  pub payload : Fields

module _ (env : Env) (settings : Settings) (registry : Registry)
    (urlparse : String → Option ParsedUrl) (network : Network) where
  -- `_read_portrait_with_integrity`
  unfoldable pub read_portrait_with_integrity : TxId → Exec Bytes
  read_portrait_with_integrity t = do
    present ← gets (λ s. artifact_exists s t portrait_processed)
    raise_if (not present) (api portrait_not_ready)
    b ← asks (λ s. read_artifact env s t portrait_processed)
    raise_if (not (starts_with_jpeg b)) (api portrait_integrity_failed)
    pure b

  -- `_read_callback_state`
  unfoldable pub read_callback_state : World → TxId → Fields
  read_callback_state s t =
      if artifact_exists s t callback_state
      then fields_or_empty (read_json env s t callback_state)
      else end

  abbrev forget : Option String → World → World
  forget none s = s
  forget (some h) s = index_delete browser_sessions h s

  -- `_revoke_after_completion`
  unfoldable pub revoke_after_completion : TxId → Exec Unit
  revoke_after_completion t = modify λ s.
      if artifact_exists s t active_session
      then forget
          (as_text (get "session_hash" (fields_or_empty (read_json env s t active_session)))) s
      else s

  -- A delivery that failed is recorded before the handler raises.
  unfoldable pub record_failure : TxId → String → Bool → ℕ → Error → Exec Json
  unfolding write_json
  record_failure t event_id retryable now e = do
    write_json t callback_state (failed_state event_id retryable (env.isoformat now))
    update_transaction_status env t Status.callback_failed now
    raise e

  unfoldable pub record_success : TxId → String → String → ℕ → Exec Json
  unfolding write_json revoke_after_completion
  record_success t event_id redirect_url now = do
    write_json t callback_state (acknowledged_state event_id redirect_url (env.isoformat now))
    update_transaction_status env t Status.completed now
    revoke_after_completion t
    pure (text redirect_url)

  -- `not delivery.redirect_url or not validate_redirect_url(…)`
  abbrev is_bad_redirect : ConsumerProfile → Option String → Bool
  is_bad_redirect profile none = true
  is_bad_redirect profile (some url) =
      str_eq url ""
      || not (validate_redirect_url env urlparse profile url (is_local settings.app_env))

  -- What follows the call of the consumer, by how it ended.
  unfoldable pub conclude :
      TxId → ConsumerProfile → String → ℕ → Result CallbackDelivery → Exec Json
  unfolding record_failure record_success
  conclude t profile event_id now (err callback_transport) =
      record_failure t event_id true now (api callback_failed)
  conclude t profile event_id now (err callback_terminal) =
      record_failure t event_id false now (api callback_failed)
  conclude t profile event_id now (err e) = raise e
  conclude t profile event_id now (ok delivery) =
      if is_bad_redirect profile delivery.redirect_url
      then record_failure t event_id false now (api invalid_redirect)
      else record_success t event_id (redirect_text delivery.redirect_url) now

  -- The delivery itself, with the outcome as a value.
  unfoldable pub deliver : TxId → Delivery → ℕ → Exec Json
  unfolding send_callback
  deliver t d now s =
      let (r, s') =
        send_callback env network settings.callback_max_retries d.profile d.event_id d.payload s in
      conclude t d.profile d.event_id now r s'

  -- The checks before anything is sent.
  unfoldable pub submit_checks : TxId → Exec DecisionRecord
  submit_checks t = do
    metadata ← asks (λ s. read_transaction_json env s t)
    raise_if (is_completed (get "status" metadata)) (api transaction_completed)
    raise_if (status_blocks (get "status" metadata)) (api transaction_terminal)
    found ← gets (λ s. read_decision env s t)
    decision ← lift (or_raise found (api not_ready))
    current ← gets (λ s. has_current_canonical_pass env s t)
    raise_if (not current) (api not_ready)
    authorized ← gets (λ s. portrait_authorization_current env s t)
    raise_if (not authorized) (api not_ready)
    pure decision

  abbrev pub metadata_text : String → Fields → String
  metadata_text k metadata = str_of env (get_or k (text "") metadata)

  -- The idempotent delivery, after the checks.
  unfoldable pub submit_delivery : TxId → DecisionRecord → ℕ → Exec Json
  unfolding read_portrait_with_integrity read_callback_state deliver
  submit_delivery t decision now = do
    jpeg ← read_portrait_with_integrity t
    metadata ← asks (λ s. read_transaction_json env s t)
    let consumer_id = metadata_text "consumer_id" metadata
    let external_id = metadata_text "external_transaction_id" metadata
    profile ← lift (or_raise (get_profile registry consumer_id) (api integration_not_configured))
    let event_id = build_callback_event_id env consumer_id external_id
    state ← gets (λ s. read_callback_state s t)
    if eq_text (get "state" state) "ACKNOWLEDGED"
        then pure (get "redirect_url" state)
        else deliver t
            (record {
              profile = profile;
              event_id = event_id;
              payload =
                  build_callback_payload env event_id external_id decision.decision_id jpeg
                    (env.isoformat now);
            })
            now

  unfoldable pub browser_submit : Request → Exec Json
  unfolding submit_checks submit_delivery
  browser_submit req = do
    t ← authorize env req
    lock_transaction t
    decision ← submit_checks t
    submit_delivery t decision req.now
