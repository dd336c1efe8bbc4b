-- ===== src/Standalone/Processor.antt =====
-- PortraitProcessor.process without a candidate path: backend/app/portrait/processor.py. The
-- segmentation model and the operations on images are an argument.
pub mod Restore
use live_photo_llm.Prelude.{
  ℕ, String, Bool, true, false, Option, none, some, str_eq, if◌then◌else◌, not, ◌&&◌,
}
use live_photo_llm.Python.{Json, text, Fields, get_or, Env, Bytes, str_of}
use live_photo_llm.State.{
  selected_original, portrait_processing, transaction_json, document, World, Exec, Result, ok, err,
  Error, portrait, value_error, pure, raise, lift, gets, asks, catch, modify, skip, raise_if,
  or_raise, ◌>>=◌, ◌>>◌,
}
use live_photo_llm.Settings.{Settings}
use live_photo_llm.Transactions.Status.{
  TransactionStatus, from_value, is_terminal, technical_error, portrait_ready,
}
use live_photo_llm.Transactions.Ids.{TxId}
use live_photo_llm.Transactions.Store.{
  ArtifactReference, processed_portrait, read_artifact, read_transaction_json, write_artifact,
  write_json, transaction_exists_at, current_status, stamp_status, put, update_transaction_status,
}

-- How the pipeline ends on the bytes of the capture: a JPEG and the metadata of the run, or an
-- exception, for which value_error stands where Pillow or numpy cannot read the image.
pub data PipelineEnd : Type 0 where
  finished : Bytes → Fields → PipelineEnd
  failing : Error → PipelineEnd

-- RETRYABLE_PORTRAIT_CODES
abbrev pub is_retryable_code : String → Bool
is_retryable_code code = str_eq code "PORTRAIT_QUALITY_FAILED"

module _ (env : Env) (settings : Settings) where
  -- `update_transaction_status` with a status that was read from the metadata
  abbrev pub is_blocked : String → Fields → Bool
  is_blocked status metadata =
      is_terminal (current_status env metadata) && not (is_terminal (from_value status))

  unfoldable pub restore_status : TxId → String → ℕ → Exec Unit
  restore_status t status now = do
    metadata ← asks (λ s. read_transaction_json env s t)
    modify (λ s.
        if is_blocked status metadata
        then s
        else put s t transaction_json
            (document (stamp_status env status (env.isoformat now) metadata)))

  abbrev technical : {A : Type 0} → TxId → ℕ → Error → Exec A
  technical t now e = update_transaction_status env t technical_error now >> raise e

  -- The `except` block.
  abbrev pub failed : TxId → String → ℕ → Error → Exec ArtifactReference
  failed t previous now (portrait code) =
      if is_retryable_code code
      then ((if str_eq previous "" then skip else restore_status t previous now)
          >> raise (portrait code))
      else technical t now (portrait code)
  failed t previous now value_error = technical t now (portrait "PORTRAIT_INVALID_SOURCE")
  failed t previous now e = technical t now (portrait "PORTRAIT_PROCESSING_FAILED")

  abbrev pub store_portrait : TxId → ℕ → PipelineEnd → Exec ArtifactReference
  store_portrait t now (failing e) = raise e
  store_portrait t now (finished jpeg metadata) = do
    ref ← write_artifact env t processed_portrait jpeg "image/jpeg"
    write_json t portrait_processing metadata
    update_transaction_status env t portrait_ready now
    pure ref

  -- The `try` block.
  abbrev pub run_pipeline : TxId → ℕ → (Bytes → PipelineEnd) → Exec ArtifactReference
  run_pipeline t now pipeline = do
    image ← asks (λ s. read_artifact env s t selected_original)
    store_portrait t now (pipeline image)

  -- `none` for the pipeline stands for a model that is not configured.
  abbrev pub process_from :
      TxId → ℕ → Option (Bytes → PipelineEnd) → Fields → Exec ArtifactReference
  process_from t now model metadata = do
    update_transaction_status env t TransactionStatus.portrait_processing now
    pipeline ← lift (or_raise model (portrait "PORTRAIT_MODEL_UNAVAILABLE"))
    catch (run_pipeline t now pipeline)
        (failed t (str_of env (get_or "status" (text "") metadata)) now)

  unfoldable pub process : TxId → ℕ → Option (Bytes → PipelineEnd) → Exec ArtifactReference
  unfolding restore_status
  process t now model = do
    raise_if (not settings.portrait_processing_enabled) (portrait "PORTRAIT_PROCESSING_FAILED")
    known ← gets (λ s. transaction_exists_at s t)
    raise_if (not known) (portrait "PORTRAIT_PROCESSING_FAILED")
    metadata ← asks (λ s. read_transaction_json env s t)
    process_from t now model metadata
