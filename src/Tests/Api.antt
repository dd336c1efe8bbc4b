-- ===== src/Tests/Api.antt =====
-- Runs of the consumers' endpoints: a launch, its repetition, its status and its redemption.
use mathlib.Core.Path.{subst}
use live_photo_llm.Prelude.{
  String, Bool, true, false, Option, none, some, [], ◌≡◌, refl, str_eq, ◌==◌, if◌then◌else◌, ◌⊎◌,
  arith, ap,
}
use live_photo_llm.Python.{Env, Json, int, arr, nil, Fields, field, text, end}
use live_photo_llm.State.{World, Result, ok, err, api, transaction_exists_code, attempts_json}
use live_photo_llm.Settings.{Settings}
use live_photo_llm.Settings.Gates.{BaseUrl}
use live_photo_llm.Transactions.Ids.{TxId}
use live_photo_llm.Integrations.Consumers.{ConsumerProfile}
use live_photo_llm.Integrations.Auth.{Pyjwt, returned, pyjwt_error}
use live_photo_llm.Integrations.Auth.Authorized.{
  IsLocalCaller, IsTokenCaller, authenticate_s2s-IsAuthorized, deployed_needs_token,
}
use live_photo_llm.Integrations.Session.{FreshTokens}
use live_photo_llm.Integrations.Session.Opening.{launched_token_opens}
use live_photo_llm.Integrations.Launch.{LaunchSessionRequest, LaunchResult, Drawn}
use live_photo_llm.Integrations.Launch.Launched.{IsClaimed}
use live_photo_llm.Integrations.Api.{Headers, launch_payload}
use live_photo_llm.Integrations.Api.Scoped.{
  own_entry, authenticated, allows, transaction_status-IsOwn,
}
use live_photo_llm.Integrations.Api.Sequence.{
  launch_session_repeated, IsStatusReply, status_after_launch,
}
use live_photo_llm.Tests.{toy, settings, profile, registry}
use live_photo_llm.Python.{get, has_key, get_or, set, contains_text, snoc, count_items}
use live_photo_llm.Transactions.Status.{parse, from_value}
use live_photo_llm.Transactions.Ids.{is_valid_transaction_id}
use live_photo_llm.Transactions.Store.{
  validate_transaction_id, read, put, remove, artifact_exists, read_artifact, read_json,
  read_transaction_json, write_bytes, write_artifact, write_json, remove_artifact, lock_transaction,
  transaction_exists_at, create_transaction, current_status, set_status, update_transaction_status,
}
use live_photo_llm.Transactions.Generated.{create_generated, create_transaction_with_generated_id}
use live_photo_llm.Integrations.Index.{index_read, index_put, index_delete, index_get}
use live_photo_llm.Integrations.Consumers.{
  matches_client_id, request_policy_allows, allows_redirect_origin, make_registry, get_profile,
  active_consumer, find_by_client_id,
}
use live_photo_llm.Integrations.Launch.{
  is_valid_external_id, transaction_metadata, read_active_launches, revoke_entries,
  revoke_active_launch_tokens, store_launch_token, claim_external, create_launch, reissue_launch,
}
use live_photo_llm.Integrations.Session.{
  is_terminal_status, is_expired, invalidate_previous_active, create_session, redeem_launch_token,
  resolve_browser_session, verify_csrf, require_active_session, require_csrf, session_transaction,
  authorize,
}
use live_photo_llm.Settings.{s2s_jwks_is_local_path, vlm_experiment_available}
use live_photo_llm.Settings.Gates.{
  passes_s2s_environment_gates, passes_attempt_thresholds, load_settings,
}
use live_photo_llm.Integrations.Auth.{decode_jwt, authenticate_s2s}
use live_photo_llm.Integrations.StatusQuery.{map_status, read_status_attempts, resolve_status}
use live_photo_llm.Integrations.Api.{
  authenticated_consumer, launch_session, reissue_launch_session, transaction_status,
}

-- The launch expires at one instant, and the session at another.
abbrev env : Env
env = record (toy 0) {
  isoformat = λ n. if n == 900000000 then "launch" else "session";
  fromisoformat = λ s. if str_eq s "launch" then some 900000000 else some 3600000001;
}

abbrev idle : World
idle = record { folders = λ u. false; files = λ u p. none; index = λ k h. none; posts = [] }

abbrev body : LaunchSessionRequest
body = record {
  transaction_id = "X-1";
  source = "bank";
  ocr_required = false;
  camera_config = "1";
  white_background = true;
  output_file_format = "jpeg";
  watermark = "";
}

abbrev drawn : Drawn
drawn = record {
  timestamp = "20260101T000000000Z";
  suffix = λ i. "AAAAAA";
  raw_token = "t1";
  session_id = "s";
}

abbrev claims : Fields
claims = field "azp" (text "bank-client") end

-- One key, and one token that it verifies.
abbrev pyjwt : Pyjwt Unit
pyjwt = record {
  read_key_set = λ path. pyjwt_error;
  unverified_kid = λ token. pyjwt_error;
  signing_key = λ url token. returned tt;
  decode = λ settings token key. if str_eq token "abc" then returned claims else pyjwt_error;
}

abbrev json_eq : Json → Json → Bool
json_eq a b = false

abbrev headers : Headers
headers = record { authorization = "bearer abc"; dev_auth = "" }

abbrev address : String → Option BaseUrl
address s = some (record { scheme = "https"; query = ""; fragment = "" })

abbrev deployed : Settings
deployed = record settings { capture_attempt_limit = 10 }

authenticated_ok :
    authenticate_s2s env pyjwt json_eq (λ s. s) deployed registry "bearer abc" "" "bank"
    ≡ ok profile
unfolding get has_key get_or set contains_text snoc count_items parse from_value
    is_valid_transaction_id validate_transaction_id read put remove artifact_exists read_artifact
    read_json read_transaction_json write_bytes write_artifact write_json remove_artifact
    lock_transaction transaction_exists_at create_transaction current_status set_status
    update_transaction_status create_generated create_transaction_with_generated_id index_read
    index_put index_delete index_get matches_client_id request_policy_allows allows_redirect_origin
    make_registry get_profile active_consumer find_by_client_id is_valid_external_id
    transaction_metadata read_active_launches revoke_entries revoke_active_launch_tokens
    store_launch_token claim_external create_launch reissue_launch is_terminal_status is_expired
    invalidate_previous_active create_session redeem_launch_token resolve_browser_session
    verify_csrf require_active_session require_csrf session_transaction authorize
    s2s_jwks_is_local_path vlm_experiment_available passes_s2s_environment_gates
    passes_attempt_thresholds load_settings decode_jwt authenticate_s2s map_status
    read_status_attempts resolve_status authenticated_consumer launch_session reissue_launch_session
    transaction_status
authenticated_ok = refl

loaded : load_settings address deployed ≡ ok deployed
unfolding get has_key get_or set contains_text snoc count_items parse from_value
    is_valid_transaction_id validate_transaction_id read put remove artifact_exists read_artifact
    read_json read_transaction_json write_bytes write_artifact write_json remove_artifact
    lock_transaction transaction_exists_at create_transaction current_status set_status
    update_transaction_status create_generated create_transaction_with_generated_id index_read
    index_put index_delete index_get matches_client_id request_policy_allows allows_redirect_origin
    make_registry get_profile active_consumer find_by_client_id is_valid_external_id
    transaction_metadata read_active_launches revoke_entries revoke_active_launch_tokens
    store_launch_token claim_external create_launch reissue_launch is_terminal_status is_expired
    invalidate_previous_active create_session redeem_launch_token resolve_browser_session
    verify_csrf require_active_session require_csrf session_transaction authorize
    s2s_jwks_is_local_path vlm_experiment_available passes_s2s_environment_gates
    passes_attempt_thresholds load_settings decode_jwt authenticate_s2s map_status
    read_status_attempts resolve_status authenticated_consumer launch_session reissue_launch_session
    transaction_status
loaded = refl

authenticate_s2s-IsAuthorized_example :
    (profile.active ≡ true)
    × (IsLocalCaller env pyjwt json_eq (λ s. s) deployed registry "bearer abc" "" "bank" profile
        ⊎ IsTokenCaller env pyjwt json_eq (λ s. s) deployed registry "bearer abc" "" "bank" profile)
authenticate_s2s-IsAuthorized_example =
    authenticate_s2s-IsAuthorized env pyjwt json_eq (λ s. s) deployed registry "bearer abc" ""
      "bank" profile authenticated_ok

deployed_needs_token_example :
    (s2s_jwks_is_local_path deployed ≡ false)
    × (profile.active ≡ true)
    × IsTokenCaller env pyjwt json_eq (λ s. s) deployed registry "bearer abc" "" "bank" profile
deployed_needs_token_example =
    deployed_needs_token env pyjwt json_eq (λ s. s) deployed registry "bearer abc" "" "bank" address
      profile loaded refl authenticated_ok

abbrev created : Result LaunchResult × World
created = create_launch env settings (λ s. s) profile body drawn 0 idle

abbrev launch_result : LaunchResult
launch_result = record {
  internal_transaction_id = "LP-20260101T000000000Z-AAAAAA";
  external_transaction_id = "X-1";
  launch_session_id = "s";
  launch_url = "https://live.example/xbiz/live_photo/l/t1";
  expires_at = "launch";
  expires_in_seconds = 900;
}

created_ok : created ≡ (ok launch_result, created.1)
unfolding get has_key get_or set contains_text snoc count_items parse from_value
    is_valid_transaction_id validate_transaction_id read put remove artifact_exists read_artifact
    read_json read_transaction_json write_bytes write_artifact write_json remove_artifact
    lock_transaction transaction_exists_at create_transaction current_status set_status
    update_transaction_status create_generated create_transaction_with_generated_id index_read
    index_put index_delete index_get matches_client_id request_policy_allows allows_redirect_origin
    make_registry get_profile active_consumer find_by_client_id is_valid_external_id
    transaction_metadata read_active_launches revoke_entries revoke_active_launch_tokens
    store_launch_token claim_external create_launch reissue_launch is_terminal_status is_expired
    invalidate_previous_active create_session redeem_launch_token resolve_browser_session
    verify_csrf require_active_session require_csrf session_transaction authorize
    s2s_jwks_is_local_path vlm_experiment_available passes_s2s_environment_gates
    passes_attempt_thresholds load_settings decode_jwt authenticate_s2s map_status
    read_status_attempts resolve_status authenticated_consumer launch_session reissue_launch_session
    transaction_status
created_ok = refl

abbrev fresh : FreshTokens
fresh = record { session = "c"; csrf = "x" }

abbrev redeemed : World
redeemed = (redeem_launch_token env settings "t1" fresh 1 created.1).1

launched_token_opens_example :
    (t : TxId) × IsClaimed env settings (λ s. s) profile body drawn 0 t created.1
    × (authorize env (record { session_cookie = "c"; csrf_header = "x"; now = 2 }) redeemed
        ≡ (ok t, redeemed))
launched_token_opens_example =
    launched_token_opens env settings (λ s. s) profile body drawn 0 fresh launch_result idle
      created.1 1 2 created_ok refl (ground arith) refl (ground arith) refl refl

abbrev reply : Fields
reply = field "transaction_id" (text "X-1") (
    field "source" (text "bank") (
      field "status" (text "RETRY_REQUIRED") (
        field "attempt_count" (int 0) (
          field "max_attempts" (int 2) (
            field "reason_codes" (arr nil)
              (field "created_at" (text "session") (field "updated_at" (text "session") end)))))))

replied :
    transaction_status env pyjwt json_eq
      (λ s. s)
      (λ s. s)
      settings
      registry
      headers
      "X-1"
      "bank"
      created.1
    ≡ (ok reply, created.1)
unfolding get has_key get_or set contains_text snoc count_items parse from_value
    is_valid_transaction_id validate_transaction_id read put remove artifact_exists read_artifact
    read_json read_transaction_json write_bytes write_artifact write_json remove_artifact
    lock_transaction transaction_exists_at create_transaction current_status set_status
    update_transaction_status create_generated create_transaction_with_generated_id index_read
    index_put index_delete index_get matches_client_id request_policy_allows allows_redirect_origin
    make_registry get_profile active_consumer find_by_client_id is_valid_external_id
    transaction_metadata read_active_launches revoke_entries revoke_active_launch_tokens
    store_launch_token claim_external create_launch reissue_launch is_terminal_status is_expired
    invalidate_previous_active create_session redeem_launch_token resolve_browser_session
    verify_csrf require_active_session require_csrf session_transaction authorize
    s2s_jwks_is_local_path vlm_experiment_available passes_s2s_environment_gates
    passes_attempt_thresholds load_settings decode_jwt authenticate_s2s map_status
    read_status_attempts resolve_status authenticated_consumer launch_session reissue_launch_session
    transaction_status
replied = refl

transaction_status-IsOwn_example :
    (created.1 ≡ created.1)
    × (p : ConsumerProfile) × (mapping : Fields) × (authenticated env pyjwt json_eq
          (λ s. s)
          (λ s. s)
          settings
          registry
          headers
          "bank"
        ≡ ok p)
    × (own_entry env created.1 p "X-1" ≡ ok (some mapping))
transaction_status-IsOwn_example =
    transaction_status-IsOwn env pyjwt json_eq (λ s. s) (λ s. s) settings registry headers "X-1"
      "bank" reply created.1 created.1 replied

abbrev launch : World → Result Fields × World
launch = launch_session env pyjwt json_eq (λ s. s) (λ s. s) settings registry headers body drawn 0

launch_ok : launch idle ≡ (ok (launch_payload launch_result), created.1)
unfolding get has_key get_or set contains_text snoc count_items parse from_value
    is_valid_transaction_id validate_transaction_id read put remove artifact_exists read_artifact
    read_json read_transaction_json write_bytes write_artifact write_json remove_artifact
    lock_transaction transaction_exists_at create_transaction current_status set_status
    update_transaction_status create_generated create_transaction_with_generated_id index_read
    index_put index_delete index_get matches_client_id request_policy_allows allows_redirect_origin
    make_registry get_profile active_consumer find_by_client_id is_valid_external_id
    transaction_metadata read_active_launches revoke_entries revoke_active_launch_tokens
    store_launch_token claim_external create_launch reissue_launch is_terminal_status is_expired
    invalidate_previous_active create_session redeem_launch_token resolve_browser_session
    verify_csrf require_active_session require_csrf session_transaction authorize
    s2s_jwks_is_local_path vlm_experiment_available passes_s2s_environment_gates
    passes_attempt_thresholds load_settings decode_jwt authenticate_s2s map_status
    read_status_attempts resolve_status authenticated_consumer launch_session reissue_launch_session
    transaction_status
launch_ok = refl

abbrev profile_or : Result ConsumerProfile → ConsumerProfile
profile_or (ok p) = p
profile_or (err _) = profile

allowed :
    (p : ConsumerProfile)
    → authenticated env pyjwt json_eq (λ s. s) (λ s. s) settings registry headers "bank" ≡ ok p
    → allows env pyjwt json_eq (λ s. s) (λ s. s) settings registry headers p body ≡ true
unfolding get has_key get_or set contains_text snoc count_items parse from_value
    is_valid_transaction_id validate_transaction_id read put remove artifact_exists read_artifact
    read_json read_transaction_json write_bytes write_artifact write_json remove_artifact
    lock_transaction transaction_exists_at create_transaction current_status set_status
    update_transaction_status create_generated create_transaction_with_generated_id index_read
    index_put index_delete index_get matches_client_id request_policy_allows allows_redirect_origin
    make_registry get_profile active_consumer find_by_client_id is_valid_external_id
    transaction_metadata read_active_launches revoke_entries revoke_active_launch_tokens
    store_launch_token claim_external create_launch reissue_launch is_terminal_status is_expired
    invalidate_previous_active create_session redeem_launch_token resolve_browser_session
    verify_csrf require_active_session require_csrf session_transaction authorize
    s2s_jwks_is_local_path vlm_experiment_available passes_s2s_environment_gates
    passes_attempt_thresholds load_settings decode_jwt authenticate_s2s map_status
    read_status_attempts resolve_status authenticated_consumer launch_session reissue_launch_session
    transaction_status
allowed p h =
    subst (λ (q : ConsumerProfile). request_policy_allows q false "1" true "jpeg" ≡ true)
      (ap profile_or h) refl

none_yet :
    (t : TxId) → transaction_exists_at idle t ≡ false → artifact_exists idle t attempts_json ≡ false
unfolding get has_key get_or set contains_text snoc count_items parse from_value
    is_valid_transaction_id validate_transaction_id read put remove artifact_exists read_artifact
    read_json read_transaction_json write_bytes write_artifact write_json remove_artifact
    lock_transaction transaction_exists_at create_transaction current_status set_status
    update_transaction_status create_generated create_transaction_with_generated_id index_read
    index_put index_delete index_get matches_client_id request_policy_allows allows_redirect_origin
    make_registry get_profile active_consumer find_by_client_id is_valid_external_id
    transaction_metadata read_active_launches revoke_entries revoke_active_launch_tokens
    store_launch_token claim_external create_launch reissue_launch is_terminal_status is_expired
    invalidate_previous_active create_session redeem_launch_token resolve_browser_session
    verify_csrf require_active_session require_csrf session_transaction authorize
    s2s_jwks_is_local_path vlm_experiment_available passes_s2s_environment_gates
    passes_attempt_thresholds load_settings decode_jwt authenticate_s2s map_status
    read_status_attempts resolve_status authenticated_consumer launch_session reissue_launch_session
    transaction_status
none_yet t h = refl

launch_session_repeated_example : launch created.1 ≡ (err (api transaction_exists_code), created.1)
launch_session_repeated_example =
    launch_session_repeated env pyjwt json_eq (λ s. s) (λ s. s) settings registry headers body body
      drawn drawn 0 0 (launch_payload launch_result) idle created.1 launch_ok refl refl allowed

status_after_launch_example :
    (p : ConsumerProfile) × (authenticated env pyjwt json_eq
        (λ s. s)
        (λ s. s)
        settings
        registry
        headers
        "bank"
      ≡ ok p)
    × (reply : Fields) × (transaction_status env pyjwt json_eq
          (λ s. s)
          (λ s. s)
          settings
          registry
          headers
          "X-1"
          "bank"
          created.1
        ≡ (ok reply, created.1))
    × IsStatusReply env pyjwt json_eq
        (λ s. s)
        (λ s. s)
        settings
        registry
        headers
        p
        body
        drawn
        0
        reply
status_after_launch_example =
    status_after_launch env pyjwt json_eq (λ s. s) (λ s. s) settings registry headers body drawn 0
      (launch_payload launch_result) idle created.1 launch_ok none_yet
