-- ===== src/Liveness/Capture.antt =====
-- The current capture, and what a newer one invalidates: backend/app/experiments/vlm/liveness.py.
pub mod Invalidation
use live_photo_llm.Prelude.{
  ℕ, String, Bool, true, false, Option, none, some, List, [], ◌∷◌, str_eq, if◌then◌else◌,
}
use live_photo_llm.Python.{Json, text, Fields, get, get_or, Env, str_of, join_colon}
use live_photo_llm.State.{
  FilePath, capture_json, decision_json, portrait_processed, portrait_processing,
  portrait_authorization, vlm_result, World, Exec, Result, ok, err, pure, skip, modify, ◌>>=◌, ◌>>◌,
}
use live_photo_llm.Transactions.Ids.{TxId}
use live_photo_llm.Transactions.Store.{artifact_exists, read_json, remove, remove_artifact}

pub record CaptureKey : Type 0 where
  pub attempt_id : String
  pub selected_sha256 : String

-- AUTHORIZATION_ARTIFACTS
abbrev pub authorization_artifacts : List FilePath
authorization_artifacts =
    decision_json ∷ portrait_processed ∷ portrait_processing ∷ portrait_authorization ∷ vlm_result
    ∷ []

abbrev pub invalidated : List FilePath → World → TxId → World
invalidated [] s t = s
invalidated (p ∷ ps) s t = invalidated ps (if artifact_exists s t p then remove s t p else s) t

-- `invalidate_authorization`
unfoldable pub invalidate_authorization : TxId → Exec Unit
invalidate_authorization t = modify (λ s. invalidated authorization_artifacts s t)

module _ (env : Env) where
  -- The SHA-256 of attempt id and capture digest.
  unfoldable pub liveness_identity : CaptureKey → String
  liveness_identity key =
      env.sha256_hex (env.encode (join_colon key.attempt_id key.selected_sha256))

  abbrev key_of_meta : Fields → Option CaptureKey
  key_of_meta meta =
      let sha = str_of env (get_or "sha256" (text "") meta) in
      if str_eq sha ""
      then none
      else some (record {
        attempt_id = str_of env (get_or "attempt_id" (text "") meta);
        selected_sha256 = sha;
      })

  abbrev key_of : Result Fields → Option CaptureKey
  key_of (ok meta) = key_of_meta meta
  key_of (err _) = none

  unfoldable pub current_capture_key : World → TxId → Option CaptureKey
  current_capture_key s t =
      if artifact_exists s t capture_json then key_of (read_json env s t capture_json) else none

  abbrev pub identity_of_key : Option CaptureKey → Option String
  identity_of_key none = none
  identity_of_key (some key) = some (liveness_identity key)

  unfoldable pub expected_liveness_identity : World → TxId → Option String
  unfolding current_capture_key
  expected_liveness_identity s t = identity_of_key (current_capture_key s t)

  abbrev box_of : Result Fields → Json
  box_of (ok meta) = get "face_box" meta
  box_of (err _) = Json.null

  -- The face box stored with the current capture, before it is validated; None where there is none.
  unfoldable pub current_capture_face_box : World → TxId → Json
  current_capture_face_box s t =
      if artifact_exists s t capture_json
      then box_of (read_json env s t capture_json)
      else Json.null
