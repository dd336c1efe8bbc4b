-- ===== src/Tests/View.antt =====
-- A run of the view of a session.
use live_photo_llm.Prelude.{true, false, ◌≡◌, refl, some}
use live_photo_llm.Python.{Env, Fields, field, text, end, bool, int, arr, nil, eq_text}
use live_photo_llm.State.{ok}
use live_photo_llm.Browser.View.{ViewRequest}
use live_photo_llm.Browser.View.Readiness.{IsReady, browser_session-IsReady}
use live_photo_llm.Tests.{toy, settings, registry, ready}
use live_photo_llm.Python.{get, has_key, get_or, set, contains_text, snoc, count_items}
use live_photo_llm.Transactions.Status.{parse, from_value}
use live_photo_llm.Transactions.Ids.{is_valid_transaction_id}
use live_photo_llm.Transactions.Store.{
  validate_transaction_id, read, put, remove, artifact_exists, read_artifact, read_json,
  read_transaction_json, write_bytes, write_artifact, write_json, remove_artifact, lock_transaction,
  transaction_exists_at, create_transaction, current_status, set_status, update_transaction_status,
}
use live_photo_llm.Transactions.Decisions.{
  validate_decision, dump_decision, write_decision, read_decision, has_canonical_pass,
}
use live_photo_llm.Integrations.Index.{index_read, index_put, index_delete, index_get}
use live_photo_llm.Integrations.Consumers.{
  matches_client_id, request_policy_allows, allows_redirect_origin, make_registry, get_profile,
  active_consumer, find_by_client_id,
}
use live_photo_llm.Integrations.Attempts.{
  is_disallowed_reason, is_disallowed_result, blank_attempts, read_attempts, add_reason, consume,
  mark_upload, attempt_count, stamp_limits, registered, register_attempt_locked, register_attempt,
}
use live_photo_llm.Integrations.Session.{
  is_terminal_status, is_expired, invalidate_previous_active, create_session, redeem_launch_token,
  resolve_browser_session, verify_csrf, require_active_session, require_csrf, session_transaction,
  authorize,
}
use live_photo_llm.Liveness.Policy.{
  is_person_state_consistent, is_portrait_eligible_vlm_result, map_classification_to_outcome,
  interference_reasons,
}
use live_photo_llm.Liveness.Capture.{
  invalidate_authorization, liveness_identity, current_capture_key, expected_liveness_identity,
  current_capture_face_box,
}
use live_photo_llm.Liveness.Binding.{
  decision_metadata_for, metadata_matches, is_canonical_pass, has_current_canonical_pass,
  capture_snapshot, snapshot_matches_current, write_portrait_authorization, authorization_matches,
  is_authorized, portrait_authorization_current,
}
use live_photo_llm.Browser.Common.{
  status_blocks, terminal_blocked, consumer_for_tx, max_attempts_for_tx,
}
use live_photo_llm.Browser.View.{read_attempt_summary, submission_ready, browser_session}

abbrev env : Env
env = toy 1000

abbrev view_request : ViewRequest
view_request = record { session_cookie = "c"; outcome_cookie = ""; now = 10 }

abbrev view : Fields
view = field "state" (text "active") (
    field "submission_ready" (bool true) (
      field "attempt_count" (int 0)
        (field "max_attempts" (int 2) (field "reason_codes" (arr nil) end))))

viewed : browser_session env settings registry view_request ready ≡ (ok view, ready)
unfolding get has_key get_or set contains_text snoc count_items parse from_value
    is_valid_transaction_id validate_transaction_id read put remove artifact_exists read_artifact
    read_json read_transaction_json write_bytes write_artifact write_json remove_artifact
    lock_transaction transaction_exists_at create_transaction current_status set_status
    update_transaction_status validate_decision dump_decision write_decision read_decision
    has_canonical_pass index_read index_put index_delete index_get matches_client_id
    request_policy_allows allows_redirect_origin make_registry get_profile active_consumer
    find_by_client_id is_disallowed_reason is_disallowed_result blank_attempts read_attempts
    add_reason consume mark_upload attempt_count stamp_limits registered register_attempt_locked
    register_attempt is_terminal_status is_expired invalidate_previous_active create_session
    redeem_launch_token resolve_browser_session verify_csrf require_active_session require_csrf
    session_transaction authorize is_person_state_consistent is_portrait_eligible_vlm_result
    map_classification_to_outcome interference_reasons invalidate_authorization liveness_identity
    current_capture_key expected_liveness_identity current_capture_face_box decision_metadata_for
    metadata_matches is_canonical_pass has_current_canonical_pass capture_snapshot
    snapshot_matches_current write_portrait_authorization authorization_matches is_authorized
    portrait_authorization_current status_blocks terminal_blocked consumer_for_tx
    max_attempts_for_tx read_attempt_summary submission_ready browser_session
viewed = refl

says_ready : get "submission_ready" view ≡ bool true
unfolding get
says_ready = refl

browser_session-IsReady_example :
    (r : Fields) × (resolve_browser_session env "c" 10 ready ≡ (ok (some r), ready))
    × (eq_text (get "mode" r) "TERMINAL" ≡ false)
    × IsReady env settings registry r ready
browser_session-IsReady_example =
    browser_session-IsReady env settings registry view_request view ready ready viewed says_ready
