-- ===== src/Tests/Capture.antt =====
-- Runs of POST /browser/capture and of the attempts that it registers.
use live_photo_llm.Prelude.{ℕ, true, false, none, some, ◌≡◌, refl, leb, if◌then◌else◌}
use live_photo_llm.Python.{Env, null, contains_text}
use live_photo_llm.State.{World, Result, ok, err, upload_rejected}
use live_photo_llm.Transactions.Status.{attempt_limit_exceeded, is_terminal, portrait_ready}
use live_photo_llm.Transactions.Ids.{TxId}
use live_photo_llm.Transactions.Store.Statuses.{status_at, update_transaction_status_sticky}
use live_photo_llm.Integrations.Attempts.{AttemptResult, attempt_id_hash}
use live_photo_llm.Integrations.Attempts.Counting.{consumed_ids}
use live_photo_llm.Integrations.Attempts.Registration.{register_counts, register_limit}
use live_photo_llm.Integrations.Attempts.Repeats.{register_again, upload_once}
use live_photo_llm.Liveness.Binding.{has_current_canonical_pass, portrait_authorization_current}
use live_photo_llm.Browser.Attempt.{Upload, CaptureReply, accepted}
use live_photo_llm.Prelude.{str_eq}
use live_photo_llm.Python.{end}
use live_photo_llm.State.{api, stale_portrait, stale_evaluation, portrait_processed, decision_json}
use live_photo_llm.Liveness.Binding.{Snapshot}
use live_photo_llm.Browser.Portrait.{portrait_finish}
use live_photo_llm.Browser.Portrait.Superseded.{portrait_finish_superseded}
use live_photo_llm.Browser.Liveness.{liveness_finish, liveness_failed}
use live_photo_llm.Browser.Liveness.Superseded.{key_of, liveness_finish_superseded}
use live_photo_llm.Browser.Attempt.Revocation.{browser_capture_revokes}
use live_photo_llm.Tests.{toy, settings, registry, request, ready, tx, jpeg}
use live_photo_llm.Python.{get, has_key, get_or, set, contains_text, snoc, count_items}
use live_photo_llm.Transactions.Status.{parse, from_value}
use live_photo_llm.Transactions.Ids.{is_valid_transaction_id}
use live_photo_llm.Transactions.Store.{
  validate_transaction_id, read, put, remove, artifact_exists, read_artifact, read_json,
  read_transaction_json, write_bytes, write_artifact, write_json, remove_artifact, lock_transaction,
  transaction_exists_at, create_transaction, current_status, set_status, update_transaction_status,
}
use live_photo_llm.Integrations.Index.{index_read, index_put, index_delete, index_get}
use live_photo_llm.Integrations.Consumers.{
  matches_client_id, request_policy_allows, allows_redirect_origin, make_registry, get_profile,
  active_consumer, find_by_client_id,
}
use live_photo_llm.Integrations.Attempts.{
  is_disallowed_reason, is_disallowed_result, blank_attempts, read_attempts, add_reason, consume,
  mark_upload, attempt_count, stamp_limits, registered, register_attempt_locked, register_attempt,
}
use live_photo_llm.Integrations.Session.{
  is_terminal_status, is_expired, invalidate_previous_active, create_session, redeem_launch_token,
  resolve_browser_session, verify_csrf, require_active_session, require_csrf, session_transaction,
  authorize,
}
use live_photo_llm.Liveness.Capture.{
  invalidate_authorization, liveness_identity, current_capture_key, expected_liveness_identity,
  current_capture_face_box,
}
use live_photo_llm.Browser.Common.{
  status_blocks, terminal_blocked, consumer_for_tx, max_attempts_for_tx,
}
use live_photo_llm.Browser.Attempt.{
  validate_upload, browser_attempts, store_capture, capture_locked, browser_capture,
}

abbrev env : Env
env = toy 100

abbrev upload : Upload
upload = record {
  attempt_id = "a2";
  image = jpeg;
  content_type = "image/jpeg";
  verified = none;
  capture_config_version = "1";
  quality_config_version = "1";
  face_box = null;
}

abbrev captured : Result CaptureReply × World
captured = browser_capture env settings registry request (λ s. s) upload ready

abbrev attempt : ℕ → AttemptResult
attempt n = record {
  attempt_count = n;
  max_attempts = 2;
  warning = false;
  terminal = leb 2 n;
  status = if leb 2 n then some attempt_limit_exceeded else none;
}

captured_ok : captured ≡ (ok (accepted (attempt 1)), captured.1)
unfolding get has_key get_or set contains_text snoc count_items parse from_value
    is_valid_transaction_id validate_transaction_id read put remove artifact_exists read_artifact
    read_json read_transaction_json write_bytes write_artifact write_json remove_artifact
    lock_transaction transaction_exists_at create_transaction current_status set_status
    update_transaction_status index_read index_put index_delete index_get matches_client_id
    request_policy_allows allows_redirect_origin make_registry get_profile active_consumer
    find_by_client_id is_disallowed_reason is_disallowed_result blank_attempts read_attempts
    add_reason consume mark_upload attempt_count stamp_limits registered register_attempt_locked
    register_attempt is_terminal_status is_expired invalidate_previous_active create_session
    redeem_launch_token resolve_browser_session verify_csrf require_active_session require_csrf
    session_transaction authorize invalidate_authorization liveness_identity current_capture_key
    expected_liveness_identity current_capture_face_box status_blocks terminal_blocked
    consumer_for_tx max_attempts_for_tx validate_upload browser_attempts store_capture
    capture_locked browser_capture
captured_ok = refl

browser_capture_revokes_example :
    (t : TxId) × (s1 : World) × (authorize env request ready ≡ (ok t, s1))
    × (has_current_canonical_pass env captured.1 t ≡ false)
    × (portrait_authorization_current env captured.1 t ≡ false)
    × (current_capture_key env captured.1 t
        ≡ some (record { attempt_id = "a2"; selected_sha256 = "h" }))
    × (false ≡ false)
browser_capture_revokes_example =
    browser_capture_revokes env settings registry request (λ s. s) upload ready captured.1
      (attempt 1) captured_ok refl

abbrev locked : Result CaptureReply × World
locked = capture_locked env settings registry tx upload "image/jpeg" 10 ready

locked_ok : locked ≡ (ok (accepted (attempt 1)), locked.1)
unfolding get has_key get_or set contains_text snoc count_items parse from_value
    is_valid_transaction_id validate_transaction_id read put remove artifact_exists read_artifact
    read_json read_transaction_json write_bytes write_artifact write_json remove_artifact
    lock_transaction transaction_exists_at create_transaction current_status set_status
    update_transaction_status index_read index_put index_delete index_get matches_client_id
    request_policy_allows allows_redirect_origin make_registry get_profile active_consumer
    find_by_client_id is_disallowed_reason is_disallowed_result blank_attempts read_attempts
    add_reason consume mark_upload attempt_count stamp_limits registered register_attempt_locked
    register_attempt is_terminal_status is_expired invalidate_previous_active create_session
    redeem_launch_token resolve_browser_session verify_csrf require_active_session require_csrf
    session_transaction authorize invalidate_authorization liveness_identity current_capture_key
    expected_liveness_identity current_capture_face_box status_blocks terminal_blocked
    consumer_for_tx max_attempts_for_tx validate_upload browser_attempts store_capture
    capture_locked browser_capture
locked_ok = refl

abbrev snapshot : Snapshot
snapshot = record {
  decision_id = "d1";
  key = record { attempt_id = "a1"; selected_sha256 = "h" };
  identity = "h";
}

portrait_finish_superseded_example :
    ((portrait_finish env settings tx snapshot 20 locked.1).0 ≡ err (api stale_portrait))
    × (read (portrait_finish env settings tx snapshot 20 locked.1).1 tx portrait_processed
        ≡ read locked.1 tx portrait_processed)
portrait_finish_superseded_example =
    portrait_finish_superseded env settings tx snapshot 20 registry upload "image/jpeg" 10 ready
      locked.1 locked.1 (attempt 1) portrait_processed locked_ok refl refl refl

identity_differs : str_eq (liveness_identity env (key_of env upload)) "other" ≡ false
unfolding liveness_identity
identity_differs = refl

liveness_finish_superseded_example :
    ((liveness_finish env settings tx "other" end "d2" 20 locked.1).0 ≡ err (api stale_evaluation))
    × (read (liveness_finish env settings tx "other" end "d2" 20 locked.1).1 tx decision_json
        ≡ read locked.1 tx decision_json)
    × (read
          (liveness_failed env settings tx "other" "PROVIDER_TIMEOUT" 20 locked.1).1
          tx
          decision_json
        ≡ read locked.1 tx decision_json)
liveness_finish_superseded_example =
    liveness_finish_superseded env settings tx "other" end "d2" "PROVIDER_TIMEOUT" 20 registry
      upload "image/jpeg" 10 ready locked.1 locked.1 (attempt 1) decision_json locked_ok refl refl
      identity_differs refl refl

abbrev first : Result AttemptResult × World
first = register_attempt_locked env settings tx "a2" none none (some 2) true 10 ready

first_ok : first ≡ (ok (attempt 1), first.1)
unfolding get has_key get_or set contains_text snoc count_items parse from_value
    is_valid_transaction_id validate_transaction_id read put remove artifact_exists read_artifact
    read_json read_transaction_json write_bytes write_artifact write_json remove_artifact
    lock_transaction transaction_exists_at create_transaction current_status set_status
    update_transaction_status index_read index_put index_delete index_get matches_client_id
    request_policy_allows allows_redirect_origin make_registry get_profile active_consumer
    find_by_client_id is_disallowed_reason is_disallowed_result blank_attempts read_attempts
    add_reason consume mark_upload attempt_count stamp_limits registered register_attempt_locked
    register_attempt is_terminal_status is_expired invalidate_previous_active create_session
    redeem_launch_token resolve_browser_session verify_csrf require_active_session require_csrf
    session_transaction authorize invalidate_authorization liveness_identity current_capture_key
    expected_liveness_identity current_capture_face_box status_blocks terminal_blocked
    consumer_for_tx max_attempts_for_tx validate_upload browser_attempts store_capture
    capture_locked browser_capture
first_ok = refl

-- The same attempt once more, without an upload.
abbrev second : Result AttemptResult × World
second =
    register_attempt_locked env settings tx "a2" none (some "BLURRED") (some 2) false 11 first.1

second_ok : second ≡ (ok (attempt 1), second.1)
unfolding get has_key get_or set contains_text snoc count_items parse from_value
    is_valid_transaction_id validate_transaction_id read put remove artifact_exists read_artifact
    read_json read_transaction_json write_bytes write_artifact write_json remove_artifact
    lock_transaction transaction_exists_at create_transaction current_status set_status
    update_transaction_status index_read index_put index_delete index_get matches_client_id
    request_policy_allows allows_redirect_origin make_registry get_profile active_consumer
    find_by_client_id is_disallowed_reason is_disallowed_result blank_attempts read_attempts
    add_reason consume mark_upload attempt_count stamp_limits registered register_attempt_locked
    register_attempt is_terminal_status is_expired invalidate_previous_active create_session
    redeem_launch_token resolve_browser_session verify_csrf require_active_session require_csrf
    session_transaction authorize invalidate_authorization liveness_identity current_capture_key
    expected_liveness_identity current_capture_face_box status_blocks terminal_blocked
    consumer_for_tx max_attempts_for_tx validate_upload browser_attempts store_capture
    capture_locked browser_capture
second_ok = refl

register_again_example : (attempt 1).attempt_count ≡ (attempt 1).attempt_count
register_again_example =
    register_again env tx "a2" settings none none none (some "BLURRED") (some 2) (some 2) true false
      10 11 ready first.1 second.1 (attempt 1) (attempt 1) first_ok second_ok

allowed : is_disallowed_reason none ≡ false
unfolding is_disallowed_reason
allowed = refl

allowed_result : is_disallowed_result none ≡ false
unfolding is_disallowed_result
allowed_result = refl

upload_once_example :
    register_attempt_locked env settings tx "a2" none none (some 2) true 11 first.1
    ≡ (err upload_rejected, first.1)
upload_once_example =
    upload_once env tx "a2" settings none none none none (some 2) (some 2) 10 11 ready first.1
      (attempt 1) first_ok allowed_result allowed

counted_before : attempt_count env (read_attempts env ready tx 2 10) ≡ ok 0
unfolding get has_key get_or set contains_text snoc count_items parse from_value
    is_valid_transaction_id validate_transaction_id read put remove artifact_exists read_artifact
    read_json read_transaction_json write_bytes write_artifact write_json remove_artifact
    lock_transaction transaction_exists_at create_transaction current_status set_status
    update_transaction_status index_read index_put index_delete index_get matches_client_id
    request_policy_allows allows_redirect_origin make_registry get_profile active_consumer
    find_by_client_id is_disallowed_reason is_disallowed_result blank_attempts read_attempts
    add_reason consume mark_upload attempt_count stamp_limits registered register_attempt_locked
    register_attempt is_terminal_status is_expired invalidate_previous_active create_session
    redeem_launch_token resolve_browser_session verify_csrf require_active_session require_csrf
    session_transaction authorize invalidate_authorization liveness_identity current_capture_key
    expected_liveness_identity current_capture_face_box status_blocks terminal_blocked
    consumer_for_tx max_attempts_for_tx validate_upload browser_attempts store_capture
    capture_locked browser_capture
counted_before = refl

register_counts_example :
    ((attempt 1).attempt_count ≡ (
      if contains_text (attempt_id_hash env "a2") (consumed_ids (read_attempts env ready tx 2 10))
      then 0
      else 1))
    × ((attempt 1).terminal ≡ leb 2 1)
register_counts_example =
    register_counts env settings tx "a2" none none (some 2) true 10 ready first.1 (attempt 1) 0
      first_ok counted_before

-- A limit of one attempt.
abbrev last : Result AttemptResult × World
last = register_attempt_locked env settings tx "a2" none none (some 1) true 10 ready

abbrev last_attempt : AttemptResult
last_attempt = record {
  attempt_count = 1;
  max_attempts = 1;
  warning = false;
  terminal = true;
  status = some attempt_limit_exceeded;
}

last_ok : last ≡ (ok last_attempt, last.1)
unfolding get has_key get_or set contains_text snoc count_items parse from_value
    is_valid_transaction_id validate_transaction_id read put remove artifact_exists read_artifact
    read_json read_transaction_json write_bytes write_artifact write_json remove_artifact
    lock_transaction transaction_exists_at create_transaction current_status set_status
    update_transaction_status index_read index_put index_delete index_get matches_client_id
    request_policy_allows allows_redirect_origin make_registry get_profile active_consumer
    find_by_client_id is_disallowed_reason is_disallowed_result blank_attempts read_attempts
    add_reason consume mark_upload attempt_count stamp_limits registered register_attempt_locked
    register_attempt is_terminal_status is_expired invalidate_previous_active create_session
    redeem_launch_token resolve_browser_session verify_csrf require_active_session require_csrf
    session_transaction authorize invalidate_authorization liveness_identity current_capture_key
    expected_liveness_identity current_capture_face_box status_blocks terminal_blocked
    consumer_for_tx max_attempts_for_tx validate_upload browser_attempts store_capture
    capture_locked browser_capture
last_ok = refl

register_limit_example : status_at env last.1 tx ≡ attempt_limit_exceeded
register_limit_example =
    register_limit env settings tx "a2" none none (some 1) true 10 ready last.1 last_attempt last_ok
      refl

ended : is_terminal (status_at env last.1 tx) ≡ true
unfolding get has_key get_or set contains_text snoc count_items parse from_value
    is_valid_transaction_id validate_transaction_id read put remove artifact_exists read_artifact
    read_json read_transaction_json write_bytes write_artifact write_json remove_artifact
    lock_transaction transaction_exists_at create_transaction current_status set_status
    update_transaction_status index_read index_put index_delete index_get matches_client_id
    request_policy_allows allows_redirect_origin make_registry get_profile active_consumer
    find_by_client_id is_disallowed_reason is_disallowed_result blank_attempts read_attempts
    add_reason consume mark_upload attempt_count stamp_limits registered register_attempt_locked
    register_attempt is_terminal_status is_expired invalidate_previous_active create_session
    redeem_launch_token resolve_browser_session verify_csrf require_active_session require_csrf
    session_transaction authorize invalidate_authorization liveness_identity current_capture_key
    expected_liveness_identity current_capture_face_box status_blocks terminal_blocked
    consumer_for_tx max_attempts_for_tx validate_upload browser_attempts store_capture
    capture_locked browser_capture status_at
ended = refl

update_transaction_status_sticky_example :
    is_terminal (status_at env (update_transaction_status env tx portrait_ready 12 last.1).1 tx)
    ≡ true
update_transaction_status_sticky_example =
    update_transaction_status_sticky env tx portrait_ready 12 last.1 ended
