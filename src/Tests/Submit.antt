-- ===== src/Tests/Submit.antt =====
-- Runs of POST /browser/submit and of the test endpoint.
use live_photo_llm.Prelude.{true, false, ◌≡◌, refl, ◌⊎◌}
use live_photo_llm.Prelude.{some}
use live_photo_llm.Python.{Env, Json, text, Fields, eq_text}
use live_photo_llm.State.{
  FilePath, callback_state, transaction_json, World, Result, ok, err, api, transaction_completed,
}
use live_photo_llm.Transactions.Store.{make_folder}
use live_photo_llm.Transactions.Decisions.{DecisionRecord}
use live_photo_llm.Transactions.Ids.{TxId}
use live_photo_llm.Integrations.Session.{session_transaction}
use live_photo_llm.Integrations.Session.Access.{IsSession}
use live_photo_llm.Integrations.Session.Grants.{validate-name}
use live_photo_llm.Browser.Submit.Authorization.{IsReady, submit_posts_guarded}
use live_photo_llm.Browser.Submit.Outcome.{submit-IsAnswered, IsAnswered}
use live_photo_llm.Browser.Submit.Repeat.{submit_twice}
use live_photo_llm.Dev.{TestDecisionReply}
use live_photo_llm.Dev.Submission.{test_decision_not_ready}
use live_photo_llm.Liveness.Binding.{has_current_canonical_pass}
use live_photo_llm.Transactions.Decisions.{pass}
use live_photo_llm.Tests.{
  toy, settings, registry, urlparse, network, request, ready, tx, session_record,
}
use live_photo_llm.Python.{get, has_key, get_or, set, contains_text, snoc, count_items}
use live_photo_llm.Transactions.Status.{parse, from_value}
use live_photo_llm.Transactions.Ids.{is_valid_transaction_id}
use live_photo_llm.Transactions.Store.{
  validate_transaction_id, read, put, remove, artifact_exists, read_artifact, read_json,
  read_transaction_json, write_bytes, write_artifact, write_json, remove_artifact, lock_transaction,
  transaction_exists_at, create_transaction, current_status, set_status, update_transaction_status,
}
use live_photo_llm.Transactions.Decisions.{
  validate_decision, dump_decision, write_decision, read_decision, has_canonical_pass,
}
use live_photo_llm.Integrations.Index.{index_read, index_put, index_delete, index_get}
use live_photo_llm.Integrations.Consumers.{
  matches_client_id, request_policy_allows, allows_redirect_origin, make_registry, get_profile,
  active_consumer, find_by_client_id,
}
use live_photo_llm.Integrations.Callback.{
  round_of, send_loop, build_callback_event_id, build_callback_payload, send_callback,
  validate_redirect_url,
}
use live_photo_llm.Integrations.Session.{
  is_terminal_status, is_expired, invalidate_previous_active, create_session, redeem_launch_token,
  resolve_browser_session, verify_csrf, require_active_session, require_csrf, session_transaction,
  authorize,
}
use live_photo_llm.Liveness.Policy.{
  is_person_state_consistent, is_portrait_eligible_vlm_result, map_classification_to_outcome,
  interference_reasons,
}
use live_photo_llm.Liveness.Capture.{
  invalidate_authorization, liveness_identity, current_capture_key, expected_liveness_identity,
  current_capture_face_box,
}
use live_photo_llm.Liveness.Binding.{
  decision_metadata_for, metadata_matches, is_canonical_pass, has_current_canonical_pass,
  capture_snapshot, snapshot_matches_current, write_portrait_authorization, authorization_matches,
  is_authorized, portrait_authorization_current,
}
use live_photo_llm.Browser.Common.{
  status_blocks, terminal_blocked, consumer_for_tx, max_attempts_for_tx,
}
use live_photo_llm.Browser.Submit.{
  read_portrait_with_integrity, read_callback_state, revoke_after_completion, record_failure,
  record_success, conclude, deliver, submit_checks, submit_delivery, browser_submit,
}
use live_photo_llm.Dev.{test_decision}

abbrev env : Env
env = toy 100

abbrev submitted : Result Json × World
submitted = browser_submit env settings registry urlparse network request ready

submitted_ok : submitted ≡ (ok (text "https://bank.example/done"), submitted.1)
unfolding get has_key get_or set contains_text snoc count_items parse from_value
    is_valid_transaction_id validate_transaction_id read put remove artifact_exists read_artifact
    read_json read_transaction_json write_bytes write_artifact write_json remove_artifact
    lock_transaction transaction_exists_at create_transaction current_status set_status
    update_transaction_status validate_decision dump_decision write_decision read_decision
    has_canonical_pass index_read index_put index_delete index_get matches_client_id
    request_policy_allows allows_redirect_origin make_registry get_profile active_consumer
    find_by_client_id round_of send_loop build_callback_event_id build_callback_payload
    send_callback validate_redirect_url is_terminal_status is_expired invalidate_previous_active
    create_session redeem_launch_token resolve_browser_session verify_csrf require_active_session
    require_csrf session_transaction authorize is_person_state_consistent
    is_portrait_eligible_vlm_result map_classification_to_outcome interference_reasons
    invalidate_authorization liveness_identity current_capture_key expected_liveness_identity
    current_capture_face_box decision_metadata_for metadata_matches is_canonical_pass
    has_current_canonical_pass capture_snapshot snapshot_matches_current
    write_portrait_authorization authorization_matches is_authorized portrait_authorization_current
    status_blocks terminal_blocked consumer_for_tx max_attempts_for_tx read_portrait_with_integrity
    read_callback_state revoke_after_completion record_failure record_success conclude deliver
    submit_checks submit_delivery browser_submit
submitted_ok = refl

submit-IsAnswered_example :
    (t : TxId) × (r : Fields) × (d : DecisionRecord) × IsSession env request ready t r
    × (read_decision env ready t ≡ some d)
    × IsReady env settings registry urlparse network ready t
    × IsAnswered env settings registry urlparse network t d 10
        (make_folder t ready)
        submitted.1
        (text "https://bank.example/done")
submit-IsAnswered_example =
    submit-IsAnswered env settings registry urlparse network request ready submitted.1
      (text "https://bank.example/done") submitted_ok

submit_posts_guarded_example :
    (submitted.1.posts ≡ ready.posts)
    ⊎ ((t : TxId) × (r : Fields) × IsSession env request ready t r
        × IsReady env settings registry urlparse network ready t)
submit_posts_guarded_example =
    submit_posts_guarded env settings registry urlparse network request ready

-- The world after the delivery, in which the browser has a session again.
abbrev delivered : World
delivered = record submitted.1 { index = ready.index }

same_files : (p : FilePath) → read delivered tx p ≡ read submitted.1 tx p
unfolding read
same_files p = refl

delivered-IsSession : IsSession env request delivered tx session_record
unfolding get has_key get_or set contains_text snoc count_items parse from_value
    is_valid_transaction_id validate_transaction_id read put remove artifact_exists read_artifact
    read_json read_transaction_json write_bytes write_artifact write_json remove_artifact
    lock_transaction transaction_exists_at create_transaction current_status set_status
    update_transaction_status validate_decision dump_decision write_decision read_decision
    has_canonical_pass index_read index_put index_delete index_get matches_client_id
    request_policy_allows allows_redirect_origin make_registry get_profile active_consumer
    find_by_client_id round_of send_loop build_callback_event_id build_callback_payload
    send_callback validate_redirect_url is_terminal_status is_expired invalidate_previous_active
    create_session redeem_launch_token resolve_browser_session verify_csrf require_active_session
    require_csrf session_transaction authorize is_person_state_consistent
    is_portrait_eligible_vlm_result map_classification_to_outcome interference_reasons
    invalidate_authorization liveness_identity current_capture_key expected_liveness_identity
    current_capture_face_box decision_metadata_for metadata_matches is_canonical_pass
    has_current_canonical_pass capture_snapshot snapshot_matches_current
    write_portrait_authorization authorization_matches is_authorized portrait_authorization_current
    status_blocks terminal_blocked consumer_for_tx max_attempts_for_tx read_portrait_with_integrity
    read_callback_state revoke_after_completion record_failure record_success conclude deliver
    submit_checks submit_delivery browser_submit
delivered-IsSession = record {
  has_cookie = refl;
  found = refl;
  not_revoked = refl;
  is_fresh = refl;
  is_active = refl;
  csrf_matches = refl;
  names = validate-name tx;
}

ready-IsSession : IsSession env request ready tx session_record
unfolding get has_key get_or set contains_text snoc count_items parse from_value
    is_valid_transaction_id validate_transaction_id read put remove artifact_exists read_artifact
    read_json read_transaction_json write_bytes write_artifact write_json remove_artifact
    lock_transaction transaction_exists_at create_transaction current_status set_status
    update_transaction_status validate_decision dump_decision write_decision read_decision
    has_canonical_pass index_read index_put index_delete index_get matches_client_id
    request_policy_allows allows_redirect_origin make_registry get_profile active_consumer
    find_by_client_id round_of send_loop build_callback_event_id build_callback_payload
    send_callback validate_redirect_url is_terminal_status is_expired invalidate_previous_active
    create_session redeem_launch_token resolve_browser_session verify_csrf require_active_session
    require_csrf session_transaction authorize is_person_state_consistent
    is_portrait_eligible_vlm_result map_classification_to_outcome interference_reasons
    invalidate_authorization liveness_identity current_capture_key expected_liveness_identity
    current_capture_face_box decision_metadata_for metadata_matches is_canonical_pass
    has_current_canonical_pass capture_snapshot snapshot_matches_current
    write_portrait_authorization authorization_matches is_authorized portrait_authorization_current
    status_blocks terminal_blocked consumer_for_tx max_attempts_for_tx read_portrait_with_integrity
    read_callback_state revoke_after_completion record_failure record_success conclude deliver
    submit_checks submit_delivery browser_submit
ready-IsSession = record {
  has_cookie = refl;
  found = refl;
  not_revoked = refl;
  is_fresh = refl;
  is_active = refl;
  csrf_matches = refl;
  names = validate-name tx;
}

submit_twice_example :
    ((browser_submit env settings registry urlparse network request delivered).1.posts
      ≡ delivered.posts)
    × ((eq_text
            (get "state" (read_callback_state env settings registry urlparse network ready tx))
            "ACKNOWLEDGED"
          ≡ true)
        ⊎ (browser_submit env settings registry urlparse network request delivered
            ≡ (err (api transaction_completed), make_folder tx delivered)))
submit_twice_example =
    submit_twice env settings registry urlparse network request request ready submitted.1 delivered
      (text "https://bank.example/done") tx session_record session_record ready-IsSession
      submitted_ok (same_files callback_state) (same_files transaction_json) delivered-IsSession

abbrev tested : Result TestDecisionReply × World
tested = test_decision env request "d2" ready

abbrev tested_reply : TestDecisionReply
tested_reply = record { decision_id = "d2"; outcome = pass; submission_ready = true }

tested_ok : tested ≡ (ok tested_reply, tested.1)
unfolding get has_key get_or set contains_text snoc count_items parse from_value
    is_valid_transaction_id validate_transaction_id read put remove artifact_exists read_artifact
    read_json read_transaction_json write_bytes write_artifact write_json remove_artifact
    lock_transaction transaction_exists_at create_transaction current_status set_status
    update_transaction_status validate_decision dump_decision write_decision read_decision
    has_canonical_pass index_read index_put index_delete index_get is_terminal_status is_expired
    invalidate_previous_active create_session redeem_launch_token resolve_browser_session
    verify_csrf require_active_session require_csrf session_transaction authorize test_decision
tested_ok = refl

test_decision_not_ready_example :
    (tested_reply.submission_ready ≡ true)
    × ((t : TxId) × (s1 : World) × (authorize env request ready ≡ (ok t, s1))
        × (has_current_canonical_pass env tested.1 t ≡ false))
test_decision_not_ready_example =
    test_decision_not_ready env request "d2" ready tested.1 tested_reply tested_ok refl
