-- ===== src/Integrations/StatusQuery.antt =====
-- The status of a transaction for its consumer: backend/app/integrations/status.py.
use live_photo_llm.Prelude.{String, Option, none, some, str_eq, if◌then◌else◌, ◌||◌}
use live_photo_llm.Python.{
  Json, text, int, arr, nil, Fields, end, field, get, get_or, has_key, as_text, list_of, str_of,
  Env,
}
use live_photo_llm.State.{World, Result, ok, err, external, attempts_json, value_error}
use live_photo_llm.Transactions.Status.{
  value, completed, attempt_limit_exceeded, callback_failed, portrait_ready, decision_ready,
  capture_ready,
}
use live_photo_llm.Transactions.Ids.{TxId}
use live_photo_llm.Transactions.Store.{
  artifact_exists, read_json, read_transaction_json, validate_transaction_id,
}
use live_photo_llm.Integrations.Index.{index_get, external_key_hash}
use live_photo_llm.Integrations.Consumers.{ConsumerProfile}

-- The STATUS_ constants.
pub data ProductStatus : Type 0 where
  ready retry_required limit_exceeded all_done delivery_failed in_progress : ProductStatus

abbrev pub product_value : ProductStatus → String
product_value ready = "READY"
product_value retry_required = "RETRY_REQUIRED"
product_value limit_exceeded = "ATTEMPT_LIMIT_EXCEEDED"
product_value all_done = "COMPLETED"
product_value delivery_failed = "CALLBACK_FAILED"
product_value in_progress = "IN_PROGRESS"

-- `_map_status`
unfoldable pub map_status : String → ProductStatus
map_status status =
    if str_eq status (value completed)
    then all_done
    else if str_eq status (value attempt_limit_exceeded)
    then limit_exceeded
    else if str_eq status (value callback_failed)
    then delivery_failed
    else if str_eq status (value portrait_ready) || str_eq status (value decision_ready)
    then ready
    else if str_eq status (value capture_ready)
    then in_progress
    else retry_required

abbrev pub no_attempts : Fields
no_attempts = field "attempt_count" (int 0) (field "reason_codes" (arr nil) end)

module _ (env : Env) where
  abbrev or_no_attempts : Result Fields → Fields
  or_no_attempts (ok f) = f
  or_no_attempts (err _) = no_attempts

  -- `_read_attempts`
  unfoldable pub read_status_attempts : World → TxId → Fields
  read_status_attempts s t =
      if artifact_exists s t attempts_json
      then or_no_attempts (read_json env s t attempts_json)
      else no_attempts

  -- The reply's dict; `reason_codes` are the list of the codes.
  abbrev pub status_fields : ConsumerProfile → String → Fields → Fields → Json → Fields
  status_fields profile external_id metadata attempts reason_codes =
      let created_at = get_or "created_at" (text "") metadata in
      field "transaction_id" (text external_id) (
        field "source" (text (str_of env (get_or "source" (text profile.consumer_id) metadata))) (
          field "status"
            (text (product_value (map_status (str_of env (get_or "status" (text "") metadata)))))
            (field "attempt_count" (get_or "attempt_count" (int 0) attempts) (
              field "max_attempts" (int profile.max_attempts) (
                field "reason_codes" reason_codes (
                  field "created_at" (text (str_of env created_at)) (
                    field "updated_at" (text (str_of env (get_or "updated_at" created_at metadata)))
                      end)))))))

  abbrev pub status_of : ConsumerProfile → String → Fields → Fields → Result (Option Fields)
  status_of profile external_id metadata attempts =
      elim (list_of (get_or "reason_codes" (arr nil) attempts)) [
        | none ↦ err value_error
        | some codes ↦ ok (some (status_fields profile external_id metadata attempts (arr codes)))
      ]

  abbrev pub status_read :
      ConsumerProfile → String → Fields → Result Fields → Result (Option Fields)
  status_read profile external_id attempts (err e) = err e
  status_read profile external_id attempts (ok metadata) =
      status_of profile external_id metadata attempts

  abbrev pub status_at : ConsumerProfile → String → World → TxId → Result (Option Fields)
  status_at profile external_id s t =
      status_read profile external_id (read_status_attempts s t) (read_transaction_json env s t)

  abbrev pub status_named : ConsumerProfile → String → World → Result TxId → Result (Option Fields)
  status_named profile external_id s (err e) = err e
  status_named profile external_id s (ok t) = status_at profile external_id s t

  abbrev pub status_mapped :
      ConsumerProfile → String → World → Option String → Result (Option Fields)
  status_mapped profile external_id s none = ok none
  status_mapped profile external_id s (some name) =
      status_named profile external_id s (validate_transaction_id name)

  abbrev pub status_known :
      ConsumerProfile → String → World → Result (Option Fields) → Result (Option Fields)
  status_known profile external_id s (err e) = err e
  status_known profile external_id s (ok none) = ok none
  status_known profile external_id s (ok (some mapping)) =
      if has_key "internal_transaction_id" mapping
      then status_mapped profile external_id s (as_text (get "internal_transaction_id" mapping))
      else err value_error

  unfoldable pub resolve_status : World → ConsumerProfile → String → Result (Option Fields)
  unfolding read_status_attempts map_status
  resolve_status s profile external_id =
      status_known profile external_id s
        (index_get env s external (external_key_hash env profile.consumer_id external_id))
