-- ===== src/Tests/Standalone.antt =====
-- Runs of the standalone flow.
use live_photo_llm.Prelude.{true, false, Option, none, some, ◌≡◌, refl, [], str_eq}
use live_photo_llm.Python.{Env, Json, Fields, field, text, end, Bytes, str_of}
use live_photo_llm.State.{
  FilePath, transaction_json, selected_original, vlm_result, Content, document, blob, World, Result,
  ok, err, portrait,
}
use live_photo_llm.Transactions.Ids.{TxId}
use live_photo_llm.Transactions.Status.{portrait_processing, is_terminal}
use live_photo_llm.Transactions.Store.{ArtifactReference, processed_portrait}
use live_photo_llm.Transactions.Store.Statuses.{status_at}
use live_photo_llm.Browser.Portrait.{FaceBoxes}
use live_photo_llm.Standalone.Processor.{PipelineEnd, finished, failing}
use live_photo_llm.Standalone.Processor.Restore.{quality_failure_restores, unavailable_model}
use live_photo_llm.Standalone.Api.{is_eligible}
use live_photo_llm.Standalone.Api.Gate.{process_portrait-eligible}
use live_photo_llm.Tests.{toy, settings, tx, jpeg}
use live_photo_llm.Python.{get, has_key, get_or, set, contains_text, snoc, count_items}
use live_photo_llm.Transactions.Status.{parse, from_value}
use live_photo_llm.Transactions.Ids.{is_valid_transaction_id}
use live_photo_llm.Transactions.Store.{
  validate_transaction_id, read, put, remove, artifact_exists, read_artifact, read_json,
  read_transaction_json, write_bytes, write_artifact, write_json, remove_artifact, lock_transaction,
  transaction_exists_at, create_transaction, current_status, set_status, update_transaction_status,
}
use live_photo_llm.Transactions.Decisions.{
  validate_decision, dump_decision, write_decision, read_decision, has_canonical_pass,
}
use live_photo_llm.Integrations.Index.{index_read, index_put, index_delete, index_get}
use live_photo_llm.Integrations.Consumers.{
  matches_client_id, request_policy_allows, allows_redirect_origin, make_registry, get_profile,
  active_consumer, find_by_client_id,
}
use live_photo_llm.Integrations.Attempts.{
  is_disallowed_reason, is_disallowed_result, blank_attempts, read_attempts, add_reason, consume,
  mark_upload, attempt_count, stamp_limits, registered, register_attempt_locked, register_attempt,
}
use live_photo_llm.Integrations.Session.{
  is_terminal_status, is_expired, invalidate_previous_active, create_session, redeem_launch_token,
  resolve_browser_session, verify_csrf, require_active_session, require_csrf, session_transaction,
  authorize,
}
use live_photo_llm.Liveness.Policy.{
  is_person_state_consistent, is_portrait_eligible_vlm_result, map_classification_to_outcome,
  interference_reasons,
}
use live_photo_llm.Liveness.Capture.{
  invalidate_authorization, liveness_identity, current_capture_key, expected_liveness_identity,
  current_capture_face_box,
}
use live_photo_llm.Liveness.Binding.{
  decision_metadata_for, metadata_matches, is_canonical_pass, has_current_canonical_pass,
  capture_snapshot, snapshot_matches_current, write_portrait_authorization, authorization_matches,
  is_authorized, portrait_authorization_current,
}
use live_photo_llm.Browser.Common.{
  status_blocks, terminal_blocked, consumer_for_tx, max_attempts_for_tx,
}
use live_photo_llm.Settings.{s2s_jwks_is_local_path, vlm_experiment_available}
use live_photo_llm.Standalone.Processor.{restore_status, process}
use live_photo_llm.Standalone.Api.{
  guard_experiment, create_experiment, get_artifact, liveness_safe_response,
  persist_normalized_vlm_result, standalone_claim, standalone_finish, evaluate_liveness,
  run_portrait_processing, process_portrait,
}

abbrev env : Env
env = toy 1000

abbrev metadata : Fields
metadata = field "status" (text "VLM_EVALUATED") end

abbrev eligible : Fields
eligible =
    field "classification" (text "LIVE")
      (field "subject_count" (text "ONE") (field "secondary_person_state" (text "NONE") end))

abbrev files : FilePath → Option Content
files transaction_json = some (document metadata)
files selected_original = some (blob jpeg)
files vlm_result = some (document eligible)
files _ = none

abbrev evaluated : World
evaluated = record { folders = λ u. true; files = λ u p. files p; index = λ k h. none; posts = [] }

abbrev unusable : Bytes → PipelineEnd
unusable image = failing (portrait "PORTRAIT_QUALITY_FAILED")

metadata_read : read_transaction_json env evaluated tx ≡ ok metadata
unfolding read_transaction_json read_json read
metadata_read = refl

image_read : read_artifact env evaluated tx selected_original ≡ ok jpeg
unfolding read_artifact read
image_read = refl

there : transaction_exists_at evaluated tx ≡ true
unfolding transaction_exists_at
there = refl

has_status : str_eq (str_of env (get_or "status" (text "") metadata)) "" ≡ false
unfolding get_or get has_key
has_status = refl

goes_on : is_terminal (status_at env evaluated tx) ≡ false
unfolding get has_key get_or set contains_text snoc count_items parse from_value
    is_valid_transaction_id validate_transaction_id read put remove artifact_exists read_artifact
    read_json read_transaction_json write_bytes write_artifact write_json remove_artifact
    lock_transaction transaction_exists_at create_transaction current_status set_status
    update_transaction_status validate_decision dump_decision write_decision read_decision
    has_canonical_pass index_read index_put index_delete index_get matches_client_id
    request_policy_allows allows_redirect_origin make_registry get_profile active_consumer
    find_by_client_id is_disallowed_reason is_disallowed_result blank_attempts read_attempts
    add_reason consume mark_upload attempt_count stamp_limits registered register_attempt_locked
    register_attempt is_terminal_status is_expired invalidate_previous_active create_session
    redeem_launch_token resolve_browser_session verify_csrf require_active_session require_csrf
    session_transaction authorize is_person_state_consistent is_portrait_eligible_vlm_result
    map_classification_to_outcome interference_reasons invalidate_authorization liveness_identity
    current_capture_key expected_liveness_identity current_capture_face_box decision_metadata_for
    metadata_matches is_canonical_pass has_current_canonical_pass capture_snapshot
    snapshot_matches_current write_portrait_authorization authorization_matches is_authorized
    portrait_authorization_current status_blocks terminal_blocked consumer_for_tx
    max_attempts_for_tx s2s_jwks_is_local_path vlm_experiment_available restore_status process
    guard_experiment create_experiment get_artifact liveness_safe_response
    persist_normalized_vlm_result standalone_claim standalone_finish evaluate_liveness
    run_portrait_processing process_portrait status_at
goes_on = refl

quality_failure_restores_example :
    let (r, s') = process env settings tx 10 (some unusable) evaluated in
    (r ≡ err (portrait "PORTRAIT_QUALITY_FAILED"))
    × (status_at env s' tx ≡ status_at env evaluated tx)
quality_failure_restores_example =
    quality_failure_restores env settings tx 10 unusable jpeg metadata evaluated refl there
      metadata_read has_status image_read refl

unavailable_model_example :
    let (r, s') = process env settings tx 10 none evaluated in
    (r ≡ err (portrait "PORTRAIT_MODEL_UNAVAILABLE")) × (status_at env s' tx ≡ portrait_processing)
unavailable_model_example =
    unavailable_model env settings tx 10 metadata evaluated refl there metadata_read goes_on

abbrev boxes : FaceBoxes
boxes = record { validate = λ v. none; posted = some (text "0.1,0.1,0.5,0.5") }

abbrev usable : Json → Bytes → PipelineEnd
usable box image = finished jpeg end

abbrev run : Result ArtifactReference × World
run = process_portrait env settings tx.name boxes (some usable) 10 evaluated

abbrev reference : ArtifactReference
reference = record {
  transaction_id = tx.name;
  artifact_type = processed_portrait;
  path = FilePath.portrait_processed;
  content_type = "image/jpeg";
  size_bytes = 3;
  sha256 = "h";
}

run_ok : run ≡ (ok reference, run.1)
unfolding get has_key get_or set contains_text snoc count_items parse from_value
    is_valid_transaction_id validate_transaction_id read put remove artifact_exists read_artifact
    read_json read_transaction_json write_bytes write_artifact write_json remove_artifact
    lock_transaction transaction_exists_at create_transaction current_status set_status
    update_transaction_status validate_decision dump_decision write_decision read_decision
    has_canonical_pass index_read index_put index_delete index_get matches_client_id
    request_policy_allows allows_redirect_origin make_registry get_profile active_consumer
    find_by_client_id is_disallowed_reason is_disallowed_result blank_attempts read_attempts
    add_reason consume mark_upload attempt_count stamp_limits registered register_attempt_locked
    register_attempt is_terminal_status is_expired invalidate_previous_active create_session
    redeem_launch_token resolve_browser_session verify_csrf require_active_session require_csrf
    session_transaction authorize is_person_state_consistent is_portrait_eligible_vlm_result
    map_classification_to_outcome interference_reasons invalidate_authorization liveness_identity
    current_capture_key expected_liveness_identity current_capture_face_box decision_metadata_for
    metadata_matches is_canonical_pass has_current_canonical_pass capture_snapshot
    snapshot_matches_current write_portrait_authorization authorization_matches is_authorized
    portrait_authorization_current status_blocks terminal_blocked consumer_for_tx
    max_attempts_for_tx s2s_jwks_is_local_path vlm_experiment_available restore_status process
    guard_experiment create_experiment get_artifact liveness_safe_response
    persist_normalized_vlm_result standalone_claim standalone_finish evaluate_liveness
    run_portrait_processing process_portrait
run_ok = refl

process_portrait-eligible_example :
    (vlm_experiment_available settings ≡ true)
    × (t : TxId) × (validate_transaction_id tx.name ≡ ok t)
    × (result : Fields) × (read_json env evaluated t vlm_result ≡ ok result)
    × (is_eligible env settings result ≡ true)
process_portrait-eligible_example =
    process_portrait-eligible env settings tx.name boxes (some usable) 10 reference evaluated run.1
      run_ok
