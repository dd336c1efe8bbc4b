-- ===== src/Standalone/Api.antt =====
-- The standalone endpoints: backend/app/api/v1/transactions.py. Each is guarded by the availability
-- of the experiment.
pub mod Gate
use live_photo_llm.Prelude.{
  ℕ, String, Bool, true, false, Option, none, some, List, [], ◌∷◌, str_eq, if◌then◌else◌, not,
  length,
}
use live_photo_llm.Python.{
  Json, null, bool, text, int, arr, Items, nil, Fields, end, field, get, get_or, Env, Bytes, truthy,
  list_of,
}
use live_photo_llm.State.{
  FilePath, vlm_result, capture_json, relative_path, World, Exec, Result, ok, err, Error, api, vlm,
  portrait, path_error, artifact_not_found, value_error, liveness_unavailable, liveness_in_progress,
  stale_evaluation, pure, raise, lift, gets, asks, modify, skip, raise_if, when, or_raise, catch,
  ◌>>=◌, ◌>>◌,
}
use live_photo_llm.Settings.{Settings, vlm_experiment_available}
use live_photo_llm.Transactions.Status.{TransactionStatus, capture_ready, vlm_evaluated}
use live_photo_llm.Transactions.Ids.{TxId}
use live_photo_llm.Transactions.Generated.{create_transaction_with_generated_id}
use live_photo_llm.Transactions.Store.{
  ArtifactType, selected_original_capture, vlm_result_artifact, processed_portrait,
  portrait_processing_result, artifact_path, ArtifactReference, artifact_exists, read_artifact,
  read_json, write_artifact, write_json, lock_transaction, transaction_exists_at,
  validate_transaction_id, update_transaction_status,
}
use live_photo_llm.Liveness.Policy.{is_portrait_eligible_vlm_result}
use live_photo_llm.Liveness.Capture.{
  CaptureKey, current_capture_key, liveness_identity, current_capture_face_box,
}
use live_photo_llm.Liveness.Claims.{evaluating, is_claimed, claim_ready, set_claim, clear_claim}
use live_photo_llm.Liveness.Evaluation.{
  ServiceAnswer, is_current_evaluation, read_evaluation, evaluate_capture, persist_evaluation,
}
use live_photo_llm.Browser.Common.{Meanwhile}
use live_photo_llm.Browser.Attempt.{Upload, validate_upload}
use live_photo_llm.Browser.Liveness.{establish, key_is, stale_payload, liveness_failed}
use live_photo_llm.Browser.Portrait.{FaceBoxes}
use live_photo_llm.Standalone.Processor.{PipelineEnd, process}

-- `ArtifactType(artifact_type.upper())`, after the conversion
abbrev pub artifact_kind : String → Option ArtifactType
artifact_kind s =
    if str_eq s "SELECTED_ORIGINAL_CAPTURE"
    then some selected_original_capture
    else if str_eq s "VLM_RESULT"
    then some vlm_result_artifact
    else if str_eq s "PROCESSED_PORTRAIT"
    then some processed_portrait
    else if str_eq s "PORTRAIT_PROCESSING_RESULT"
    then some portrait_processing_result
    else none

module _ (env : Env) (settings : Settings) where
  -- `_guard_experiment`
  unfoldable pub guard_experiment : Exec Unit
  guard_experiment = raise_if (not (vlm_experiment_available settings)) (vlm "VLM_DISABLED")

  -- The opening of the endpoints of one transaction.
  abbrev pub known_transaction : String → Exec TxId
  known_transaction name = do
    t ← lift (validate_transaction_id name)
    known ← gets (λ s. transaction_exists_at s t)
    raise_if (not known) artifact_not_found
    pure t

  abbrev created_metadata : Upload → ℕ → String → Fields
  created_metadata up now name = field "transaction_id" (text name) (
      field "created_at" (text (env.isoformat now)) (
        field "app_version" (text settings.app_version) (
          field "capture_config_version" (text up.capture_config_version) (
            field "quality_config_version" (text up.quality_config_version)
              (field "status" (text "CREATED") end)))))

  abbrev capture_fields : TxId → ArtifactReference → Upload → String → Fields
  capture_fields t ref up mime = field "transaction_id" (text t.name) (
      field "capture_artifact" (text (relative_path ref.path)) (
        field "mime_type" (text mime) (
          field "size_bytes" (int (length up.image)) (
            field "sha256" (text ref.sha256) (
              field "capture_config_version" (text up.capture_config_version) (
                field "quality_config_version" (text up.quality_config_version)
                  (field "face_box" up.face_box end)))))))

  -- POST /transactions, where `generate` draws the candidates of the id
  unfoldable pub create_experiment : Upload → (ℕ → String) → ℕ → Exec ArtifactReference
  unfolding guard_experiment
  create_experiment up generate now = do
    guard_experiment
    mime ← lift (validate_upload settings up)
    t ← create_transaction_with_generated_id generate (created_metadata up now)
    ref ← write_artifact env t selected_original_capture up.image mime
    write_json t capture_json (capture_fields t ref up mime)
    update_transaction_status env t capture_ready now
    pure ref

  -- GET /transactions/{id}/artifacts/{type}, the type in upper case
  unfoldable pub get_artifact : String → String → Exec Bytes
  unfolding guard_experiment
  get_artifact name artifact_type = do
    guard_experiment
    t ← lift (validate_transaction_id name)
    kind ← lift (or_raise (artifact_kind artifact_type) path_error)
    known ← gets (λ s. transaction_exists_at s t)
    raise_if (not known) artifact_not_found
    asks (λ s. read_artifact env s t (artifact_path kind))

  -- `_liveness_safe_response`
  unfoldable pub liveness_safe_response : Fields → Result Fields
  liveness_safe_response evaluation = elim (list_of (get_or "reason_codes" (arr nil) evaluation)) [
    | none ↦ err value_error
    | some codes ↦ ok (
        field "classification" (get "classification" evaluation) (
          field "outcome" (get "outcome" evaluation) (
            field "portrait_allowed" (get_or "portrait_allowed" (bool false) evaluation)
              (field "reason_codes" (arr codes) end))))
  ]

  abbrev normalized : Fields → String → ℕ → Items → Fields
  normalized e request_id now codes = field "provider" (get "provider" e) (
      field "model" (get "model" e) (
        field "strategy" (text "single-quality-v1") (
          field "classification" (get "classification" e) (
            field "attack_medium" (get "attack_medium" e) (
              field "self_reported_confidence" null (
                field "evidence_codes" (arr codes) (
                  field "subject_count" (get "subject_count" e) (
                    field "secondary_person_state" (get "secondary_person_state" e) (
                      field "latency_ms" (get "latency_ms" e) (
                        field "request_id" (text request_id) (
                          field "prompt_version" (get "prompt_version" e) (
                            field "schema_version" (get "schema_version" e) (
                              field "timestamp" (text (env.isoformat now))
                                (field "error" (get "error" e) end))))))))))))))

  -- `persist_normalized_vlm_result`
  unfoldable pub persist_normalized_vlm_result : TxId → Fields → String → ℕ → Exec Unit
  persist_normalized_vlm_result t evaluation request_id now = do
    codes ← lift (or_raise (list_of (get_or "evidence_codes" (arr nil) evaluation)) value_error)
    write_artifact env t vlm_result_artifact
        (env.dumps (normalized evaluation request_id now codes)) "application/json"
    update_transaction_status env t vlm_evaluated now

  abbrev claim_or_answer : TxId → String → ℕ → Option Fields → Exec (Option Fields)
  claim_or_answer t identity now none = establish env settings t identity now >> pure none
  claim_or_answer t identity now (some payload) =
      if is_current_evaluation env payload
      then (lift (liveness_safe_response payload) >>= λ r. pure (some r))
      else establish env settings t identity now >> pure none

  -- The first locked block: an answer from the cache, or a claim.
  unfoldable pub standalone_claim : TxId → String → ℕ → Exec (Option Fields)
  unfolding liveness_safe_response
  standalone_claim t identity now = do
    lock_transaction t
    found ← gets (λ s. read_evaluation env s t identity)
    claim_or_answer t identity now found

  abbrev promote : TxId → String → Fields → String → ℕ → Exec Fields
  promote t identity payload request_id now = do
    persist_evaluation t identity payload
    raise_if (truthy env (get "error" payload)) (api liveness_unavailable)
    persist_normalized_vlm_result t payload request_id now
    lift (liveness_safe_response payload)

  -- The last locked block.
  unfoldable pub standalone_finish : TxId → String → Fields → String → ℕ → Exec Fields
  unfolding persist_normalized_vlm_result liveness_safe_response
  standalone_finish t identity payload request_id now = do
    lock_transaction t
    now_key ← gets (λ s. current_capture_key env s t)
    clear_claim t evaluating identity
    if key_is env identity now_key
        then promote t identity payload request_id now
        else persist_evaluation t identity (stale_payload payload) >> raise (api stale_evaluation)

  abbrev after_provider : TxId → String → String → ℕ → Result Fields → Exec Fields
  after_provider t identity request_id now (ok payload) =
      standalone_finish t identity payload request_id now
  after_provider t identity request_id now (err (vlm code)) =
      liveness_failed env settings t identity code now >> raise (vlm code)
  after_provider t identity request_id now (err e) = raise e

  abbrev after_claim :
      Meanwhile → ServiceAnswer → TxId → CaptureKey → String → ℕ → Option Fields → Exec Fields
  after_claim meanwhile answer t key request_id now (some reply) = pure reply
  after_claim meanwhile answer t key request_id now none = do
    result ← gets (evaluate_capture env settings t key answer now)
    modify meanwhile
    after_provider t (liveness_identity env key) request_id now result

  -- POST /transactions/{id}/liveness
  unfoldable pub evaluate_liveness :
      String → Meanwhile → Meanwhile → ServiceAnswer → String → ℕ → Exec Fields
  unfolding guard_experiment standalone_claim
  evaluate_liveness name before meanwhile answer request_id now = do
    guard_experiment
    t ← known_transaction name
    found ← gets (λ s. current_capture_key env s t)
    key ← lift (or_raise found artifact_not_found)
    modify before
    reply ← standalone_claim t (liveness_identity env key) now
    after_claim meanwhile answer t key request_id now reply

  abbrev first_box : Option Json → Option Json → Option Json
  first_box none b = b
  first_box (some a) b = some a

  -- `_run_portrait_processing`
  unfoldable pub run_portrait_processing :
      TxId → FaceBoxes → Option (Json → Bytes → PipelineEnd) → ℕ → Exec ArtifactReference
  run_portrait_processing t boxes model now = do
    raise_if (not settings.portrait_processing_enabled) (portrait "PORTRAIT_PROCESSING_FAILED")
    stored ← gets (λ s. current_capture_face_box env s t)
    box ← lift (
        or_raise (first_box (boxes.validate stored) boxes.posted)
          (portrait "PORTRAIT_QUALITY_FAILED"))
    process env settings t now (elim model [ none ↦ none | some f ↦ some (f box) ])

  abbrev pub is_eligible : Fields → Bool
  is_eligible result =
      is_portrait_eligible_vlm_result (get "classification" result) (get "subject_count" result)
        (get "secondary_person_state" result)

  abbrev pub portrait_of :
      TxId → FaceBoxes → Option (Json → Bytes → PipelineEnd) → ℕ → Exec ArtifactReference
  portrait_of t boxes model now = do
    present ← gets (λ s. artifact_exists s t vlm_result)
    raise_if (not present) (portrait "PORTRAIT_PROCESSING_FAILED")
    result ← asks (λ s. read_json env s t vlm_result)
    raise_if (not (is_eligible result)) (portrait "PORTRAIT_PROCESSING_FAILED")
    run_portrait_processing t boxes model now

  -- POST /transactions/{id}/portrait
  unfoldable pub process_portrait :
      String → FaceBoxes → Option (Json → Bytes → PipelineEnd) → ℕ → Exec ArtifactReference
  unfolding guard_experiment run_portrait_processing
  process_portrait name boxes model now = do
    guard_experiment
    t ← known_transaction name
    portrait_of t boxes model now
