-- ===== src/Integrations/Api.antt =====
-- The consumers' endpoints: backend/app/api/v1/integration.py. The counters of the metrics are left
-- out, and a reply is its JSON object.
pub mod Scoped
pub mod Sequence
use live_photo_llm.Prelude.{ℕ, String, Bool, true, false, Option, none, some, if◌then◌else◌, not}
use live_photo_llm.Python.{Json, text, int, Fields, end, field, Env}
use live_photo_llm.State.{
  World, Exec, Result, ok, err, Error, api, transaction_exists, artifact_not_found,
  request_policy_violation, transaction_exists_code, not_found, pure, raise, lift, asks, catch,
  raise_if, or_raise, ◌>>=◌, ◌>>◌,
}
use live_photo_llm.Settings.{Settings}
use live_photo_llm.Integrations.Consumers.{ConsumerProfile, Registry, request_policy_allows}
use live_photo_llm.Integrations.Auth.{Pyjwt, authenticate_s2s}
use live_photo_llm.Integrations.Launch.{
  LaunchSessionRequest, LaunchResult, Drawn, create_launch, reissue_launch,
}
use live_photo_llm.Integrations.StatusQuery.{resolve_status}

-- What the handlers read of the headers.
pub record Headers : Type 0 where
  pub authorization : String
  pub dev_auth : String

-- `_launch_payload`
abbrev pub launch_payload : LaunchResult → Fields
launch_payload r = field "transaction_id" (text r.external_transaction_id) (
    field "launch_session_id" (text r.launch_session_id) (
      field "launch_url" (text r.launch_url) (
        field "expires_at" (text r.expires_at)
          (field "expires_in_seconds" (int r.expires_in_seconds) end))))

-- The `except` clauses of the two launches.
abbrev pub existing : {A : Type 0} → Error → Exec A
existing transaction_exists = raise (api transaction_exists_code)
existing e = raise e

abbrev pub missing : {A : Type 0} → Error → Exec A
missing artifact_not_found = raise (api not_found)
missing e = raise e

module _ (env : Env) {Key : Type 0} (pyjwt : Pyjwt Key) (json_eq : Json → Json → Bool)
    (strip rstrip_slash : String → String) (settings : Settings) (registry : Registry)
    (headers : Headers) where
  -- `_authenticated_consumer`
  unfoldable pub authenticated_consumer : String → Result ConsumerProfile
  authenticated_consumer source =
      authenticate_s2s env pyjwt json_eq strip settings registry headers.authorization
        headers.dev_auth source

  abbrev pub policy_allows : ConsumerProfile → LaunchSessionRequest → Bool
  policy_allows profile body =
      request_policy_allows profile body.ocr_required body.camera_config body.white_background
        body.output_file_format

  -- The launch for a consumer that was authenticated.
  abbrev pub launch_for : LaunchSessionRequest → Drawn → ℕ → ConsumerProfile → Exec LaunchResult
  launch_for body drawn now profile = do
    raise_if (not (policy_allows profile body)) (api request_policy_violation)
    catch (create_launch env settings rstrip_slash profile body drawn now) existing

  -- POST /integration/launch-sessions
  unfoldable pub launch_session : LaunchSessionRequest → Drawn → ℕ → Exec Fields
  unfolding authenticated_consumer
  launch_session body drawn now = do
    profile ← lift (authenticated_consumer body.source)
    result ← launch_for body drawn now profile
    pure (launch_payload result)

  -- POST /integration/transactions/{external_transaction_id}/launch-sessions
  unfoldable pub reissue_launch_session : String → String → Drawn → ℕ → Exec Fields
  unfolding authenticated_consumer
  reissue_launch_session external_id source drawn now = do
    profile ← lift (authenticated_consumer source)
    result ← catch (reissue_launch env settings rstrip_slash profile external_id drawn now) missing
    pure (launch_payload result)

  -- GET /integration/transactions/{external_transaction_id}/status
  unfoldable pub transaction_status : String → String → Exec Fields
  unfolding authenticated_consumer
  transaction_status external_id source = do
    profile ← lift (authenticated_consumer source)
    status ← asks (λ s. resolve_status env s profile external_id)
    lift (or_raise status (api not_found))
