-- ===== src/Tests/Liveness.antt =====
-- Runs of the evaluation, the decision and the portrait.
use live_photo_llm.Prelude.{String, true, false, none, some, ◌≡◌, refl, arith, ◌-◌, ◌≤◌}
use live_photo_llm.Python.{Env, bool, text, Fields, nil, Bytes}
use live_photo_llm.State.{
  World, Result, ok, err, api, liveness_in_progress, portrait_processed, blob,
}
use live_photo_llm.Transactions.Store.{read, put, remove, make_folder}
use live_photo_llm.Transactions.Decisions.{pass}
use live_photo_llm.Prelude.{◌⊎◌}
use live_photo_llm.Liveness.Policy.Table.{
  Agrees, IsStricter, map_classification_to_outcome-tabled_outcome,
}
use live_photo_llm.Liveness.Capture.{CaptureKey}
use live_photo_llm.Liveness.Evaluation.{ExperimentResult}
use live_photo_llm.Liveness.Binding.{Snapshot}
use live_photo_llm.Browser.Liveness.{LivenessReply, Claimed, claimed, key_is}
use live_photo_llm.Browser.Liveness.Promotion.{liveness_promote-pass}
use live_photo_llm.Browser.Liveness.SingleFlight.{liveness_claim_single_flight}
use live_photo_llm.Browser.Portrait.{PortraitReply}
use live_photo_llm.Browser.Portrait.Binding.{portrait_finish-authorized}
use live_photo_llm.Tests.{toy, settings, ready, tx, jpeg}
use live_photo_llm.Python.{get, has_key, get_or, set, contains_text, snoc, count_items}
use live_photo_llm.Transactions.Status.{parse, from_value}
use live_photo_llm.Transactions.Ids.{is_valid_transaction_id}
use live_photo_llm.Transactions.Store.{
  validate_transaction_id, read, put, remove, artifact_exists, read_artifact, read_json,
  read_transaction_json, write_bytes, write_artifact, write_json, remove_artifact, lock_transaction,
  transaction_exists_at, create_transaction, current_status, set_status, update_transaction_status,
}
use live_photo_llm.Transactions.Decisions.{
  validate_decision, dump_decision, write_decision, read_decision, has_canonical_pass,
}
use live_photo_llm.Liveness.Policy.{
  is_person_state_consistent, is_portrait_eligible_vlm_result, map_classification_to_outcome,
  interference_reasons,
}
use live_photo_llm.Liveness.Capture.{
  invalidate_authorization, liveness_identity, current_capture_key, expected_liveness_identity,
  current_capture_face_box,
}
use live_photo_llm.Liveness.Claims.{
  claim_timeout, clear_claim, is_claimed, set_claim, claim_is_stale, read_claim, claim_ready,
}
use live_photo_llm.Liveness.Evaluation.{
  is_current_evaluation, read_evaluation, error_payload, success_payload, payload_of,
  evaluate_capture, persist_evaluation, persist_error_evaluation,
}
use live_photo_llm.Liveness.Binding.{
  decision_metadata_for, metadata_matches, is_canonical_pass, has_current_canonical_pass,
  capture_snapshot, snapshot_matches_current, write_portrait_authorization, authorization_matches,
  is_authorized, portrait_authorization_current,
}
use live_photo_llm.Browser.Common.{
  status_blocks, terminal_blocked, consumer_for_tx, max_attempts_for_tx,
}
use live_photo_llm.Browser.Liveness.{
  liveness_claim, write_liveness_decision, liveness_promote, liveness_finish, liveness_failed,
  browser_liveness,
}
use live_photo_llm.Browser.Portrait.{
  browser_portrait_image, portrait_start, process_candidate, portrait_finish, browser_portrait,
}

abbrev env : Env
env = toy 10

abbrev key : CaptureKey
key = record { attempt_id = "a1"; selected_sha256 = "h" }

abbrev result : ExperimentResult
result = record {
  provider = "stub";
  model = "m";
  prompt = "vlm-passive-v3";
  schema = "vlm-result-v3";
  classification = some "LIVE";
  attack_medium = none;
  evidence_codes = nil;
  subject_count = some "MULTIPLE";
  secondary_person_state = some "BACKGROUND";
  latency_ms = none;
  error = none;
}

abbrev payload : Fields
payload = success_payload env result key "now"

abbrev promoted : Result LivenessReply × World
promoted = liveness_promote env settings tx "h" payload "d2" 10 ready

abbrev reply : LivenessReply
reply = record {
  classification = text "LIVE";
  outcome = pass;
  portrait_allowed = bool true;
  reason_codes = nil;
}

promoted_ok :
    liveness_promote env settings tx (liveness_identity env key) payload "d2" 10 ready
    ≡ (ok reply, promoted.1)
unfolding get has_key get_or set contains_text snoc count_items parse from_value
    is_valid_transaction_id validate_transaction_id read put remove artifact_exists read_artifact
    read_json read_transaction_json write_bytes write_artifact write_json remove_artifact
    lock_transaction transaction_exists_at create_transaction current_status set_status
    update_transaction_status validate_decision dump_decision write_decision read_decision
    has_canonical_pass is_person_state_consistent is_portrait_eligible_vlm_result
    map_classification_to_outcome interference_reasons invalidate_authorization liveness_identity
    current_capture_key expected_liveness_identity current_capture_face_box claim_timeout
    clear_claim is_claimed set_claim claim_is_stale read_claim claim_ready is_current_evaluation
    read_evaluation error_payload success_payload payload_of evaluate_capture persist_evaluation
    persist_error_evaluation decision_metadata_for metadata_matches is_canonical_pass
    has_current_canonical_pass capture_snapshot snapshot_matches_current
    write_portrait_authorization authorization_matches is_authorized portrait_authorization_current
    status_blocks terminal_blocked consumer_for_tx max_attempts_for_tx liveness_claim
    write_liveness_decision liveness_promote liveness_finish liveness_failed browser_liveness
    browser_portrait_image portrait_start process_candidate portrait_finish browser_portrait
promoted_ok = refl

current : current_capture_key env ready tx ≡ some key
unfolding get has_key get_or set contains_text snoc count_items parse from_value
    is_valid_transaction_id validate_transaction_id read put remove artifact_exists read_artifact
    read_json read_transaction_json write_bytes write_artifact write_json remove_artifact
    lock_transaction transaction_exists_at create_transaction current_status set_status
    update_transaction_status validate_decision dump_decision write_decision read_decision
    has_canonical_pass is_person_state_consistent is_portrait_eligible_vlm_result
    map_classification_to_outcome interference_reasons invalidate_authorization liveness_identity
    current_capture_key expected_liveness_identity current_capture_face_box claim_timeout
    clear_claim is_claimed set_claim claim_is_stale read_claim claim_ready is_current_evaluation
    read_evaluation error_payload success_payload payload_of evaluate_capture persist_evaluation
    persist_error_evaluation decision_metadata_for metadata_matches is_canonical_pass
    has_current_canonical_pass capture_snapshot snapshot_matches_current
    write_portrait_authorization authorization_matches is_authorized portrait_authorization_current
    status_blocks terminal_blocked consumer_for_tx max_attempts_for_tx liveness_claim
    write_liveness_decision liveness_promote liveness_finish liveness_failed browser_liveness
    browser_portrait_image portrait_start process_candidate portrait_finish browser_portrait
current = refl

liveness_promote-pass_example :
    (has_current_canonical_pass env promoted.1 tx ≡ true)
    × (pass ≡ map_classification_to_outcome (text "LIVE") (text "MULTIPLE") (text "BACKGROUND"))
liveness_promote-pass_example =
    liveness_promote-pass env settings tx key result "now" "d2" 10 ready promoted.1 reply current
      refl refl promoted_ok

superseded : key_is env "other" (current_capture_key env ready tx) ≡ false
unfolding get has_key get_or set contains_text snoc count_items parse from_value
    is_valid_transaction_id validate_transaction_id read put remove artifact_exists read_artifact
    read_json read_transaction_json write_bytes write_artifact write_json remove_artifact
    lock_transaction transaction_exists_at create_transaction current_status set_status
    update_transaction_status validate_decision dump_decision write_decision read_decision
    has_canonical_pass is_person_state_consistent is_portrait_eligible_vlm_result
    map_classification_to_outcome interference_reasons invalidate_authorization liveness_identity
    current_capture_key expected_liveness_identity current_capture_face_box claim_timeout
    clear_claim is_claimed set_claim claim_is_stale read_claim claim_ready is_current_evaluation
    read_evaluation error_payload success_payload payload_of evaluate_capture persist_evaluation
    persist_error_evaluation decision_metadata_for metadata_matches is_canonical_pass
    has_current_canonical_pass capture_snapshot snapshot_matches_current
    write_portrait_authorization authorization_matches is_authorized portrait_authorization_current
    status_blocks terminal_blocked consumer_for_tx max_attempts_for_tx liveness_claim
    write_liveness_decision liveness_promote liveness_finish liveness_failed browser_liveness
    browser_portrait_image portrait_start process_candidate portrait_finish browser_portrait
superseded = refl

abbrev begun : Result Claimed × World
begun = liveness_claim env settings tx "h" 10 ready

begun_ok : begun ≡ (ok claimed, begun.1)
unfolding get has_key get_or set contains_text snoc count_items parse from_value
    is_valid_transaction_id validate_transaction_id read put remove artifact_exists read_artifact
    read_json read_transaction_json write_bytes write_artifact write_json remove_artifact
    lock_transaction transaction_exists_at create_transaction current_status set_status
    update_transaction_status validate_decision dump_decision write_decision read_decision
    has_canonical_pass is_person_state_consistent is_portrait_eligible_vlm_result
    map_classification_to_outcome interference_reasons invalidate_authorization liveness_identity
    current_capture_key expected_liveness_identity current_capture_face_box claim_timeout
    clear_claim is_claimed set_claim claim_is_stale read_claim claim_ready is_current_evaluation
    read_evaluation error_payload success_payload payload_of evaluate_capture persist_evaluation
    persist_error_evaluation decision_metadata_for metadata_matches is_canonical_pass
    has_current_canonical_pass capture_snapshot snapshot_matches_current
    write_portrait_authorization authorization_matches is_authorized portrait_authorization_current
    status_blocks terminal_blocked consumer_for_tx max_attempts_for_tx liveness_claim
    write_liveness_decision liveness_promote liveness_finish liveness_failed browser_liveness
    browser_portrait_image portrait_start process_candidate portrait_finish browser_portrait
begun_ok = refl

young : 20 - 10 ≤ claim_timeout settings
unfolding claim_timeout
young = omega arith

liveness_claim_single_flight_example :
    liveness_claim env settings tx "h" 20 begun.1
    ≡ (err (api liveness_in_progress), make_folder tx begun.1)
liveness_claim_single_flight_example =
    liveness_claim_single_flight env settings tx "h" 10 20 ready begun.1 begun_ok refl young

abbrev snapshot : String → Snapshot
snapshot decision_id = record { decision_id = decision_id; key = key; identity = "h" }

abbrev finished : Result PortraitReply × World
finished = portrait_finish env settings tx (snapshot "d1") 10 ready

abbrev portrait_reply : PortraitReply
portrait_reply = record { sha256 = "h"; reused = false }

finished_ok : finished ≡ (ok portrait_reply, finished.1)
unfolding get has_key get_or set contains_text snoc count_items parse from_value
    is_valid_transaction_id validate_transaction_id read put remove artifact_exists read_artifact
    read_json read_transaction_json write_bytes write_artifact write_json remove_artifact
    lock_transaction transaction_exists_at create_transaction current_status set_status
    update_transaction_status validate_decision dump_decision write_decision read_decision
    has_canonical_pass is_person_state_consistent is_portrait_eligible_vlm_result
    map_classification_to_outcome interference_reasons invalidate_authorization liveness_identity
    current_capture_key expected_liveness_identity current_capture_face_box claim_timeout
    clear_claim is_claimed set_claim claim_is_stale read_claim claim_ready is_current_evaluation
    read_evaluation error_payload success_payload payload_of evaluate_capture persist_evaluation
    persist_error_evaluation decision_metadata_for metadata_matches is_canonical_pass
    has_current_canonical_pass capture_snapshot snapshot_matches_current
    write_portrait_authorization authorization_matches is_authorized portrait_authorization_current
    status_blocks terminal_blocked consumer_for_tx max_attempts_for_tx liveness_claim
    write_liveness_decision liveness_promote liveness_finish liveness_failed browser_liveness
    browser_portrait_image portrait_start process_candidate portrait_finish browser_portrait
finished_ok = refl

portrait_finish-authorized_example :
    (portrait_authorization_current env finished.1 tx ≡ true)
    × (b : Bytes) × (read finished.1 tx portrait_processed ≡ some (blob b))
    × (portrait_reply.sha256 ≡ env.sha256_hex jpeg)
    × (snapshot_matches_current env ready tx (snapshot "d1") ≡ true)
portrait_finish-authorized_example =
    portrait_finish-authorized env settings tx (snapshot "d1") 10 ready finished.1 portrait_reply
      finished_ok

outdated : snapshot_matches_current env ready tx (snapshot "d0") ≡ false
unfolding get has_key get_or set contains_text snoc count_items parse from_value
    is_valid_transaction_id validate_transaction_id read put remove artifact_exists read_artifact
    read_json read_transaction_json write_bytes write_artifact write_json remove_artifact
    lock_transaction transaction_exists_at create_transaction current_status set_status
    update_transaction_status validate_decision dump_decision write_decision read_decision
    has_canonical_pass is_person_state_consistent is_portrait_eligible_vlm_result
    map_classification_to_outcome interference_reasons invalidate_authorization liveness_identity
    current_capture_key expected_liveness_identity current_capture_face_box claim_timeout
    clear_claim is_claimed set_claim claim_is_stale read_claim claim_ready is_current_evaluation
    read_evaluation error_payload success_payload payload_of evaluate_capture persist_evaluation
    persist_error_evaluation decision_metadata_for metadata_matches is_canonical_pass
    has_current_canonical_pass capture_snapshot snapshot_matches_current
    write_portrait_authorization authorization_matches is_authorized portrait_authorization_current
    status_blocks terminal_blocked consumer_for_tx max_attempts_for_tx liveness_claim
    write_liveness_decision liveness_promote liveness_finish liveness_failed browser_liveness
    browser_portrait_image portrait_start process_candidate portrait_finish browser_portrait
outdated = refl

map_classification_to_outcome-tabled_outcome_example :
    Agrees (text "LIVE") (text "ONE") (text "BACKGROUND")
    ⊎ IsStricter (text "LIVE") (text "ONE") (text "BACKGROUND")
map_classification_to_outcome-tabled_outcome_example =
    map_classification_to_outcome-tabled_outcome (text "LIVE") (text "ONE") (text "BACKGROUND")
