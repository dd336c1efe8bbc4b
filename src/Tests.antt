-- ===== src/Tests.antt =====
-- A small backend to run the operations on: one consumer, one transaction, one session.
mod Submit
mod Capture
mod Liveness
mod Callback
mod Launch
mod Api
mod View
mod Mask
mod Vlm
mod Metrics
mod Standalone
use live_photo_llm.Prelude.{
  ℕ, String, Bool, true, false, Option, none, some, List, [], ◌∷◌, refl, ◌≡◌, ◌==◌, if◌then◌else◌,
}
use live_photo_llm.Python.{
  Json, null, bool, text, int, obj, nil, cons, Fields, end, field, Env, Bytes,
}
use live_photo_llm.State.{
  FilePath, transaction_json, capture_json, decision_json, portrait_processed,
  portrait_authorization, selected_original, portrait_candidate, IndexKind, browser_sessions,
  Content, document, blob, World,
}
use live_photo_llm.Settings.{Settings}
use live_photo_llm.Transactions.Ids.{TxId, is_valid_transaction_id}
use live_photo_llm.Transactions.Decisions.{pass, build_decision, dump_decision, DecisionRecord}
use live_photo_llm.Integrations.Consumers.{ConsumerProfile, Registry, no_auth}
use live_photo_llm.Integrations.Callback.{Network, HttpOutcome, response, ParsedUrl}
use live_photo_llm.Integrations.Session.{Request}

-- A library in which each digest is "h" and each timestamp reads as the given instant.
abbrev toy : ℕ → Env
toy instant = record {
  sha256_hex = λ b. "h";
  encode = λ s. [];
  loads = λ b. none;
  dumps = λ f. [];
  repr = λ v. "";
  parse_int = λ v. none;
  float_is_zero = λ s. false;
  isoformat = λ n. "2026-01-01T00:00:00+00:00";
  fromisoformat = λ s. some instant;
  base64 = λ b. "/9j/";
  lower = λ s. s;
  environ = λ s. "";
}

abbrev settings : Settings
settings = record {
  app_env = "uat";
  app_version = "1";
  capture_attempt_warning_at = 5;
  capture_attempt_warning_again_at = 7;
  capture_attempt_limit = 2;
  launch_token_ttl_seconds = 900;
  browser_session_ttl_seconds = 3600;
  public_livephoto_base_url = "https://live.example";
  vlm_provider = "stub";
  vlm_timeout_seconds = 30;
  vlm_max_retries = 1;
  vlm_max_single_image_bytes = 1000;
  portrait_processing_enabled = true;
  callback_max_retries = 2;
  s2s_auth_mode = "jwt";
  s2s_local_dev_token = "";
  s2s_jwt_client_id_claim = "azp";
  s2s_jwt_issuer = "https://issuer.example";
  s2s_jwt_audience = "livephoto";
  s2s_jwt_jwks_url = "https://issuer.example/jwks";
  s2s_jwt_clock_skew_seconds = 30;
  s2s_jwt_algorithms = "RS256" ∷ [];
  vlm_experiment_enabled = true;
  vlm_uat_local_experiment_enabled = true;
  vlm_max_frames = 3;
  vlm_max_total_image_bytes = 3000;
  browser_cookie_secure = true;
  browser_cookie_samesite = "strict";
}

abbrev profile : ConsumerProfile
profile = record {
  consumer_id = "bank";
  active = true;
  jwt_client_ids = "bank-client" ∷ [];
  callback = record { url = "https://bank.example/cb"; auth_type = no_auth; secret_env = "" };
  allowed_redirect_origins = "https://bank.example" ∷ [];
  request_policy = record {
    ocr_required = false ∷ [];
    camera_configs = "1" ∷ [];
    white_background = true ∷ [];
    output_formats = "jpeg" ∷ [];
  };
  max_attempts = 2;
}

abbrev registry : Registry
registry = profile ∷ []

abbrev urlparse : String → Option ParsedUrl
urlparse s = some (record {
  username = none;
  password = none;
  fragment = "";
  scheme = "https";
  hostname = some "bank.example";
  port = some none;
})

-- The first post meets a server error, the second is acknowledged.
abbrev network : Network
network n =
    if n == 1
    then response 503 none
    else response 200 (some (obj (field "redirect_url" (text "https://bank.example/done") end)))

tx_valid : is_valid_transaction_id "LP-20260101T000000Z-0001" ≡ true
unfolding is_valid_transaction_id
tx_valid = refl

abbrev tx : TxId
tx = record { name = "LP-20260101T000000Z-0001"; is_valid = tx_valid }

abbrev jpeg : Bytes
jpeg = 0xff ∷ 0xd8 ∷ 0xff ∷ []

abbrev transaction_fields : String → Fields
transaction_fields status =
    field "status" (text status)
      (field "consumer_id" (text "bank") (field "external_transaction_id" (text "X-1") end))

abbrev capture_meta : Fields
capture_meta = field "attempt_id" (text "a1") (field "sha256" (text "h") end)

abbrev pass_metadata : Fields
pass_metadata = field "attempt_id" (text "a1") (
    field "selected_sha256" (text "h") (
      field "liveness_identity" (text "h") (
        field "classification" (text "LIVE") (
          field "subject_count" (text "ONE") (
            field "secondary_person_state" (text "NONE")
              (field "schema_version" (text "vlm-result-v3") end))))))

abbrev pass_decision : DecisionRecord
pass_decision = build_decision "d1" "now" tx pass "vlm" "liveness-v3" nil pass_metadata

abbrev authorization_doc : Fields
authorization_doc = field "decision_id" (text "d1") (
    field "attempt_id" (text "a1") (
      field "selected_sha256" (text "h")
        (field "liveness_identity" (text "h") (field "portrait_sha256" (text "h") end))))

-- The files of a transaction that may be submitted.
abbrev ready_files : FilePath → Option Content
ready_files transaction_json = some (document (transaction_fields "PORTRAIT_READY"))
ready_files capture_json = some (document capture_meta)
ready_files selected_original = some (blob jpeg)
ready_files decision_json = some (document (dump_decision pass_decision))
ready_files portrait_processed = some (blob jpeg)
ready_files portrait_authorization = some (document authorization_doc)
ready_files (portrait_candidate i) = some (blob jpeg)
ready_files _ = none

abbrev session_record : Fields
session_record = field "transaction_id" (text "LP-20260101T000000Z-0001") (
    field "mode" (text "ACTIVE") (
      field "csrf_hash" (text "h")
        (field "expires_at" (text "later") (field "revoked" (bool false) end))))

abbrev sessions : IndexKind → Option Content
sessions browser_sessions = some (document session_record)
sessions _ = none

abbrev ready : World
ready = record {
  folders = λ u. true;
  files = λ u p. ready_files p;
  index = λ k h. sessions k;
  posts = [];
}

abbrev request : Request
request = record { session_cookie = "c"; csrf_header = "x"; now = 10 }
