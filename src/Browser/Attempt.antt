-- ===== src/Browser/Attempt.antt =====
-- POST /browser/attempts and POST /browser/capture: backend/app/api/v1/browser.py, with the checks
-- of the upload from backend/app/api/v1/experiments.py.
pub mod Revocation
use live_photo_llm.Prelude.{
  ℕ, String, Bool, true, false, Option, none, some, List, [], ◌∷◌, str_eq, if◌then◌else◌, ltb, not,
  length, ◌==◌, ◌&&◌,
}
use live_photo_llm.Python.{Json, null, int, text, Fields, end, field, Env, Bytes}
use live_photo_llm.State.{
  capture_json, World, Exec, Result, ok, err, Error, attempt_validation, upload_rejected, api, vlm,
  disallowed_reason, upload_already_recorded, pure, raise, lift, gets, catch, modify, skip, ◌>>=◌,
  ◌>>◌,
}
use live_photo_llm.Settings.{Settings}
use live_photo_llm.Transactions.Status.{capture_ready}
use live_photo_llm.Transactions.Ids.{TxId}
use live_photo_llm.Transactions.Store.{
  selected_original_capture, lock_transaction, write_artifact, write_json,
  update_transaction_status,
}
use live_photo_llm.Integrations.Consumers.{Registry}
use live_photo_llm.Integrations.Attempts.{AttemptResult, register_attempt, register_attempt_locked}
use live_photo_llm.Integrations.Session.{Request, authorize}
use live_photo_llm.Liveness.Capture.{invalidate_authorization}
use live_photo_llm.Browser.Common.{Meanwhile, terminal_blocked, max_attempts_for_tx}

-- `x or None`
abbrev or_none : String → Option String
or_none s = if str_eq s "" then none else some s

-- The form of /browser/capture. `verified` is what `_verify_decodeable` raises, if anything, and
-- `face_box` what parse_normalized_face_box made of its field.
pub record Upload : Type 0 where
  pub attempt_id : String
  pub image : Bytes
  pub content_type : String
  pub verified : Option String
  pub capture_config_version : String
  pub quality_config_version : String
  pub face_box : Json

-- 200, or 409 where the attempt reached the limit.
pub data CaptureReply : Type 0 where
  accepted limit_reached : AttemptResult → CaptureReply

abbrev starts_with_jpeg : Bytes → Bool
starts_with_jpeg (a ∷ b ∷ c ∷ rest) = a == 0xff && b == 0xd8 && c == 0xff
starts_with_jpeg _ = false

abbrev raise_verified : Option String → Result (Unit {0})
raise_verified none = ok tt
raise_verified (some code) = err (vlm code)

-- `_read_bounded` and `_validate_image`
unfoldable pub validate_upload : Settings → Upload → Result String
validate_upload settings up =
    let mime = if str_eq up.content_type "" then "image/jpeg" else up.content_type in
    if ltb settings.vlm_max_single_image_bytes (length up.image)
    then err (vlm "REQUEST_TOO_LARGE")
    else if not (str_eq mime "image/jpeg")
    then err (vlm "UNSUPPORTED_MEDIA_TYPE")
    else if not (starts_with_jpeg up.image)
    then err (vlm "UNSUPPORTED_MEDIA_TYPE")
    else (elim (raise_verified up.verified) [ ok _ ↦ ok mime | err e ↦ err e ])

abbrev disallowed : Error → Exec AttemptResult
disallowed attempt_validation = raise (api disallowed_reason)
disallowed e = raise e

abbrev pub already_recorded : Error → Exec AttemptResult
already_recorded upload_rejected = raise (api upload_already_recorded)
already_recorded e = raise e

module _ (env : Env) where
  abbrev pub capture_fields : TxId → Upload → String → Fields
  capture_fields t up mime = field "transaction_id" (text t.name) (
      field "attempt_id" (text up.attempt_id) (
        field "mime_type" (text mime) (
          field "size_bytes" (int (length up.image)) (
            field "sha256" (text (env.sha256_hex up.image)) (
              field "capture_config_version" (text up.capture_config_version) (
                field "quality_config_version" (text up.quality_config_version)
                  (field "face_box" up.face_box end)))))))

module _ (env : Env) (settings : Settings) (registry : Registry) where
  unfoldable pub browser_attempts :
      Request → Meanwhile → String → String → String → Exec AttemptResult
  browser_attempts req meanwhile attempt_id result reason_code = do
    t ← authorize env req
    terminal_blocked env t
    modify meanwhile
    limit ← gets (λ s. max_attempts_for_tx env registry s t settings.capture_attempt_limit)
    catch
        (register_attempt env settings t attempt_id (or_none result) (or_none reason_code)
          (some limit) false req.now)
        disallowed

  -- What an accepted upload writes, under the lock.
  unfoldable pub store_capture : TxId → Upload → String → ℕ → Exec Unit
  unfolding write_artifact write_json
  store_capture t up mime now = do
    write_artifact env t selected_original_capture up.image mime
    write_json t capture_json (capture_fields env t up mime)
    invalidate_authorization t
    update_transaction_status env t capture_ready now

  abbrev finish_capture : TxId → Upload → String → ℕ → AttemptResult → Exec CaptureReply
  finish_capture t up mime now attempt =
      if attempt.terminal
      then pure (limit_reached attempt)
      else (store_capture t up mime now >> pure (accepted attempt))

  -- The block of the handler that holds the transaction's lock.
  unfoldable pub capture_locked : TxId → Upload → String → ℕ → Exec CaptureReply
  capture_locked t up mime now = do
    lock_transaction t
    limit ← gets (λ s. max_attempts_for_tx env registry s t settings.capture_attempt_limit)
    attempt ←
        catch (register_attempt_locked env settings t up.attempt_id none none (some limit) true now)
          already_recorded
    finish_capture t up mime now attempt

  unfoldable pub browser_capture : Request → Meanwhile → Upload → Exec CaptureReply
  unfolding capture_locked
  browser_capture req meanwhile up = do
    t ← authorize env req
    terminal_blocked env t
    mime ← lift (validate_upload settings up)
    modify meanwhile
    capture_locked t up mime req.now
