-- ===== src/Browser/View.antt =====
-- GET /browser/session of backend/app/api/v1/browser.py, and read_attempt_summary of
-- backend/app/integrations/attempts.py.
pub mod Readiness
use live_photo_llm.Prelude.{
  ℕ, String, Bool, true, false, Option, none, some, if◌then◌else◌, str_eq, ◌&&◌, ◌||◌, not,
}
use live_photo_llm.Python.{
  Json, bool, text, int, arr, Items, nil, Fields, end, field, get, get_or, has_key, eq_text,
  list_of, Env,
}
use live_photo_llm.State.{
  World, Exec, Result, ok, err, value_error, pure, lift, gets, asks, raise_if, or_raise, ◌>>=◌,
  ◌>>◌,
}
use live_photo_llm.Settings.{Settings}
use live_photo_llm.Transactions.Status.{value, completed}
use live_photo_llm.Transactions.Ids.{TxId}
use live_photo_llm.Integrations.Consumers.{Registry}
use live_photo_llm.Integrations.Attempts.{read_attempts, attempt_count}
use live_photo_llm.Integrations.Session.{resolve_browser_session, session_transaction}
use live_photo_llm.Liveness.Binding.{has_current_canonical_pass, portrait_authorization_current}
use live_photo_llm.Browser.Common.{max_attempts_for_tx}

-- The cookies that the handler reads, and the clock.
pub record ViewRequest : Type 0 where
  pub session_cookie : String
  pub outcome_cookie : String
  pub now : ℕ

-- The count and the reason codes of an attempt summary.
pub record AttemptSummary : Type 0 where
  pub count : ℕ
  pub reason_codes : Items

abbrev stopped : String → Fields
stopped state = field "state" (text state) (field "submission_ready" (bool false) end)

module _ (env : Env) where
  -- `read_attempt_summary`
  unfoldable pub read_attempt_summary : TxId → ℕ → ℕ → Exec AttemptSummary
  unfolding read_attempts attempt_count
  read_attempt_summary t max_attempts now = do
    attempts ← gets (λ s. read_attempts env s t max_attempts now)
    count ← lift (attempt_count env attempts)
    codes ← lift (or_raise (list_of (get_or "reason_codes" (arr nil) attempts)) value_error)
    pure (record { count = count; reason_codes = codes })

  module _ (settings : Settings) (registry : Registry) where
    abbrev terminal_view : Fields → Fields
    terminal_view r =
        let terminal_state = get "terminal_state" r in
        field "state"
          (text (if eq_text terminal_state (value completed) then "completed" else "attempt_limit"))
          (field "submission_ready" (bool false) (field "terminal_state" terminal_state end))

    unfoldable pub submission_ready : World → TxId → Bool
    submission_ready s t =
        has_current_canonical_pass env s t && portrait_authorization_current env s t

    abbrev pub active_fields : World → TxId → AttemptSummary → Fields
    active_fields s t summary = field "state" (text "active") (
        field "submission_ready" (bool (submission_ready s t)) (
          field "attempt_count" (int summary.count) (
            field "max_attempts"
              (int (max_attempts_for_tx env registry s t settings.capture_attempt_limit))
              (field "reason_codes" (arr summary.reason_codes) end))))

    abbrev pub active_view : ℕ → Fields → Exec Fields
    active_view now r = do
      t ← lift (session_transaction env r)
      summary ← read_attempt_summary t settings.capture_attempt_limit now
      gets (λ s. active_fields s t summary)

    abbrev pub record_view : ℕ → Option Fields → Exec Fields
    record_view now none = pure (stopped "invalid")
    record_view now (some r) = do
      raise_if (not (has_key "transaction_id" r)) value_error
      if eq_text (get "mode" r) "TERMINAL" then pure (terminal_view r) else active_view now r

    unfoldable pub browser_session : ViewRequest → Exec Fields
    unfolding submission_ready
    browser_session req =
        if str_eq req.outcome_cookie "INVALID"
        then pure (stopped "invalid")
        else if str_eq req.outcome_cookie "EXPIRED"
        then pure (stopped "expired")
        else resolve_browser_session env req.session_cookie req.now >>= record_view req.now
