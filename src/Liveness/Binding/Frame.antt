-- ===== src/Liveness/Binding/Frame.antt =====
-- What the checks of the current decision and portrait depend on.
use live_photo_llm.Prelude.{false, none, ◌≡◌, refl}
use live_photo_llm.Python.{Env}
use live_photo_llm.State.{World, decision_json, capture_json}
use live_photo_llm.Transactions.Ids.{TxId}
use live_photo_llm.Transactions.Store.{read, artifact_exists, read_json, read_artifact, make_folder}
use live_photo_llm.Transactions.Decisions.{read_decision}
use live_photo_llm.Liveness.Capture.{current_capture_key}
use live_photo_llm.Liveness.Binding.{has_current_canonical_pass, portrait_authorization_current}

module _ (env : Env) (s : World) (t : TxId) where
  pub read_decision-none : read s t decision_json ≡ none → read_decision env s t ≡ none
  unfolding read_decision artifact_exists
  read_decision-none e = rw e

  -- Without a decision there is no current pass.
  pub no_decision_no_pass :
      read s t decision_json ≡ none → has_current_canonical_pass env s t ≡ false
  unfolding has_current_canonical_pass
  no_decision_no_pass e = rw (read_decision-none e)

  pub no_pass_no_authorization :
      has_current_canonical_pass env s t ≡ false → portrait_authorization_current env s t ≡ false
  unfolding portrait_authorization_current
  no_pass_no_authorization e = rw e

  module _ (s' : World) where
    pub read_decision_frame :
        read s' t decision_json ≡ read s t decision_json
        → read_decision env s' t ≡ read_decision env s t
    unfolding read_decision artifact_exists read_json
    read_decision_frame e = rw e

    pub current_capture_key_frame :
        read s' t capture_json ≡ read s t capture_json
        → current_capture_key env s' t ≡ current_capture_key env s t
    unfolding current_capture_key artifact_exists read_json
    current_capture_key_frame e = rw e

    -- The current pass is a matter of the decision and of the capture.
    pub has_current_canonical_pass_frame :
        read s' t decision_json ≡ read s t decision_json
        → read s' t capture_json ≡ read s t capture_json
        → has_current_canonical_pass env s' t ≡ has_current_canonical_pass env s t
    unfolding has_current_canonical_pass
    has_current_canonical_pass_frame d c =
        rw (read_decision_frame d) (rw (current_capture_key_frame c))

  -- Taking the lock changes no file.
  module _ (u : TxId) where
    pub current_capture_key-make_folder :
        current_capture_key env (make_folder u s) t ≡ current_capture_key env s t
    unfolding current_capture_key artifact_exists read_json read
    current_capture_key-make_folder = refl

    pub has_current_canonical_pass-make_folder :
        has_current_canonical_pass env (make_folder u s) t ≡ has_current_canonical_pass env s t
    unfolding has_current_canonical_pass current_capture_key read_decision artifact_exists read_json
        read
    has_current_canonical_pass-make_folder = refl

    pub portrait_authorization_current-make_folder :
        portrait_authorization_current env (make_folder u s) t
        ≡ portrait_authorization_current env s t
    unfolding portrait_authorization_current has_current_canonical_pass current_capture_key
        read_decision read_artifact artifact_exists read_json read
    portrait_authorization_current-make_folder = refl
