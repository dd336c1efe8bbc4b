-- ===== src/Liveness/Binding.antt =====
-- What binds a decision and a portrait to the current capture:
-- backend/app/experiments/vlm/liveness.py.
pub mod Frame
use live_photo_llm.Prelude.{
  ℕ, String, Bool, true, false, Option, none, some, str_eq, if◌then◌else◌, ◌&&◌, not,
}
use live_photo_llm.Python.{Json, text, Fields, end, field, get, Env, eq_text, Bytes}
use live_photo_llm.State.{
  FilePath, portrait_authorization, portrait_processed, World, Exec, Result, ok, err,
}
use live_photo_llm.Transactions.Ids.{TxId}
use live_photo_llm.Transactions.Store.{artifact_exists, read_artifact, read_json, write_json}
use live_photo_llm.Transactions.Decisions.{DecisionRecord, is_pass, read_decision}
use live_photo_llm.Liveness.Policy.{is_portrait_eligible_vlm_result}
use live_photo_llm.Liveness.Capture.{CaptureKey, current_capture_key, liveness_identity}
use live_photo_llm.Liveness.Evaluation.{vlm_schema_version}

-- LIVENESS_DECISION_SOURCE and LIVENESS_DECISION_VERSION
abbrev pub liveness_decision_source : String
liveness_decision_source = "vlm"

abbrev pub liveness_decision_version : String
liveness_decision_version = "liveness-v3"

pub record Snapshot : Type 0 where
  pub decision_id : String
  pub key : CaptureKey
  pub identity : String

unfoldable pub decision_metadata_for : Fields → String → Fields
decision_metadata_for evaluation identity = field "attempt_id" (get "attempt_id" evaluation) (
    field "selected_sha256" (get "selected_sha256" evaluation) (
      field "liveness_identity" (text identity) (
        field "provider" (get "provider" evaluation) (
          field "model" (get "model" evaluation) (
            field "classification" (get "classification" evaluation) (
              field "subject_count" (get "subject_count" evaluation) (
                field "secondary_person_state" (get "secondary_person_state" evaluation) (
                  field "prompt_version" (get "prompt_version" evaluation)
                    (field "schema_version" (get "schema_version" evaluation) end)))))))))

module _ (env : Env) where
  -- The metadata of a decision name this capture and authorize a portrait.
  unfoldable pub metadata_matches : Fields → CaptureKey → Bool
  metadata_matches meta key =
      eq_text (get "attempt_id" meta) key.attempt_id
      && eq_text (get "selected_sha256" meta) key.selected_sha256
      && eq_text (get "liveness_identity" meta) (liveness_identity env key)
      && eq_text (get "schema_version" meta) vlm_schema_version
      && is_portrait_eligible_vlm_result (get "classification" meta) (get "subject_count" meta)
          (get "secondary_person_state" meta)

  -- The checks of `has_current_canonical_pass`, given what it reads.
  unfoldable pub is_canonical_pass : Option DecisionRecord → Option CaptureKey → Bool
  unfolding metadata_matches
  is_canonical_pass none key = false
  is_canonical_pass (some d) none = false
  is_canonical_pass (some d) (some key) =
      is_pass d.outcome
      && str_eq d.decision_source liveness_decision_source
      && metadata_matches d.metadata key

  unfoldable pub has_current_canonical_pass : World → TxId → Bool
  unfolding is_canonical_pass
  has_current_canonical_pass s t =
      is_canonical_pass (read_decision env s t) (current_capture_key env s t)

  abbrev pub snapshot_of : Option DecisionRecord → Option CaptureKey → Option Snapshot
  snapshot_of none key = none
  snapshot_of (some d) none = none
  snapshot_of (some d) (some key) =
      some (record { decision_id = d.decision_id; key = key; identity = liveness_identity env key })

  unfoldable pub capture_snapshot : World → TxId → Option Snapshot
  capture_snapshot s t =
      if not (has_current_canonical_pass s t)
      then none
      else snapshot_of (read_decision env s t) (current_capture_key env s t)

  abbrev pub is_same_snapshot : Option DecisionRecord → Option CaptureKey → Snapshot → Bool
  is_same_snapshot none key snapshot = false
  is_same_snapshot (some d) none snapshot = false
  is_same_snapshot (some d) (some key) snapshot =
      str_eq d.decision_id snapshot.decision_id
      && str_eq key.attempt_id snapshot.key.attempt_id
      && str_eq key.selected_sha256 snapshot.key.selected_sha256
      && str_eq (liveness_identity env key) snapshot.identity

  unfoldable pub snapshot_matches_current : World → TxId → Snapshot → Bool
  snapshot_matches_current s t snapshot =
      if not (has_current_canonical_pass s t)
      then false
      else is_same_snapshot (read_decision env s t) (current_capture_key env s t) snapshot

  abbrev pub authorization_fields : Snapshot → String → String → Fields
  authorization_fields snapshot portrait_sha256 now =
      field "decision_id" (text snapshot.decision_id) (
        field "attempt_id" (text snapshot.key.attempt_id) (
          field "selected_sha256" (text snapshot.key.selected_sha256) (
            field "liveness_identity" (text snapshot.identity) (
              field "portrait_sha256" (text portrait_sha256) (field "created_at" (text now) end)))))

  unfoldable pub write_portrait_authorization : TxId → Snapshot → String → ℕ → Exec Unit
  unfolding write_json
  write_portrait_authorization t snapshot portrait_sha256 now =
      write_json t portrait_authorization
        (authorization_fields snapshot portrait_sha256 (env.isoformat now))

  -- The authorization names this decision, this capture and these bytes.
  unfoldable pub authorization_matches : Fields → DecisionRecord → CaptureKey → String → Bool
  authorization_matches auth d key portrait_sha256 =
      eq_text (get "decision_id" auth) d.decision_id
      && eq_text (get "attempt_id" auth) key.attempt_id
      && eq_text (get "selected_sha256" auth) key.selected_sha256
      && eq_text (get "liveness_identity" auth) (liveness_identity env key)
      && eq_text (get "portrait_sha256" auth) portrait_sha256

  -- The last checks of `portrait_authorization_current`, given what it reads.
  unfoldable pub is_authorized :
      Result Fields → Result Bytes → Option DecisionRecord → Option CaptureKey → Bool
  unfolding authorization_matches
  is_authorized (err _) portrait decision key = false
  is_authorized (ok auth) (err _) decision key = false
  is_authorized (ok auth) (ok portrait) none key = false
  is_authorized (ok auth) (ok portrait) (some d) none = false
  is_authorized (ok auth) (ok portrait) (some d) (some key) =
      authorization_matches auth d key (env.sha256_hex portrait)

  unfoldable pub portrait_authorization_current : World → TxId → Bool
  unfolding is_authorized
  portrait_authorization_current s t =
      if not (has_current_canonical_pass s t)
      then false
      else if not (artifact_exists s t portrait_authorization)
      then false
      else is_authorized (read_json env s t portrait_authorization)
          (read_artifact env s t portrait_processed) (read_decision env s t)
          (current_capture_key env s t)
