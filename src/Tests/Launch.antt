-- ===== src/Tests/Launch.antt =====
-- Runs of the launch.
use live_photo_llm.Prelude.{
  ℕ, String, true, false, none, ◌≡◌, refl, str_eq, ◌==◌, if◌then◌else◌, [],
}
use live_photo_llm.Python.{Env, Fields, field, text, end}
use live_photo_llm.State.{World, Result, ok}
use live_photo_llm.Transactions.Ids.{TxId}
use live_photo_llm.Transactions.Generated.{generate_internal_transaction_id}
use live_photo_llm.Transactions.Generated.Fresh.{
  IsCreated, create_transaction_with_generated_id-IsCreated,
}
use live_photo_llm.Integrations.Launch.{LaunchSessionRequest, LaunchResult, Drawn}
use live_photo_llm.Prelude.{ap}
use live_photo_llm.Integrations.Session.Grants.{validate-name}
use live_photo_llm.Python.{Bytes}
use live_photo_llm.Prelude.{some, ◌∷◌}
use live_photo_llm.State.{external, launch_tokens}
use live_photo_llm.Integrations.Launch.{mapping_fields, mapped_id}
use live_photo_llm.Integrations.Launch.Reissue.{lists_token, reissue_launch-IsRevoked}
use live_photo_llm.Tests.{toy, settings, profile}
use live_photo_llm.Python.{get, has_key, get_or, set, contains_text, snoc, count_items}
use live_photo_llm.Transactions.Status.{parse, from_value}
use live_photo_llm.Transactions.Ids.{is_valid_transaction_id}
use live_photo_llm.Transactions.Store.{
  validate_transaction_id, read, put, remove, artifact_exists, read_artifact, read_json,
  read_transaction_json, write_bytes, write_artifact, write_json, remove_artifact, lock_transaction,
  transaction_exists_at, create_transaction, current_status, set_status, update_transaction_status,
}
use live_photo_llm.Transactions.Generated.{create_generated, create_transaction_with_generated_id}
use live_photo_llm.Integrations.Index.{index_read, index_put, index_delete, index_get}
use live_photo_llm.Integrations.Launch.{
  is_valid_external_id, transaction_metadata, read_active_launches, revoke_entries,
  revoke_active_launch_tokens, store_launch_token, claim_external, create_launch, reissue_launch,
}

abbrev env : Env
env = toy 100

abbrev digest : Bytes → String
digest [] = "h"
digest _ = "g"

-- One transaction is there, and its id is the first that is drawn.
abbrev occupied : World
occupied = record {
  folders = λ u. str_eq u "LP-20260101T000000000Z-AAAAAA";
  files = λ u p. none;
  index = λ k h. none;
  posts = [];
}

abbrev suffix : ℕ → String
suffix i = if i == 0 then "AAAAAA" else "BBBBBB"

abbrev generate : ℕ → String
generate i = generate_internal_transaction_id "20260101T000000000Z" (suffix i)

abbrev metadata : String → Fields
metadata name = field "transaction_id" (text name) end

generated_valid : is_valid_transaction_id "LP-20260101T000000000Z-BBBBBB" ≡ true
unfolding is_valid_transaction_id
generated_valid = refl

abbrev generated : Result TxId × World
generated = create_transaction_with_generated_id generate metadata occupied

abbrev generated_id : TxId
generated_id = record { name = "LP-20260101T000000000Z-BBBBBB"; is_valid = generated_valid }

generated_ok : generated ≡ (ok generated_id, generated.1)
unfolding get has_key get_or set contains_text snoc count_items parse from_value
    is_valid_transaction_id validate_transaction_id read put remove artifact_exists read_artifact
    read_json read_transaction_json write_bytes write_artifact write_json remove_artifact
    lock_transaction transaction_exists_at create_transaction current_status set_status
    update_transaction_status create_generated create_transaction_with_generated_id index_read
    index_put index_delete index_get is_valid_external_id transaction_metadata read_active_launches
    revoke_entries revoke_active_launch_tokens store_launch_token claim_external create_launch
    reissue_launch
generated_ok = ap (λ (r : Result TxId). (r, generated.1)) (validate-name generated_id)

create_transaction_with_generated_id-IsCreated_example :
    IsCreated generate metadata 0 5 occupied generated.1 generated_id
create_transaction_with_generated_id-IsCreated_example =
    create_transaction_with_generated_id-IsCreated generate metadata occupied generated.1
      generated_id generated_ok

abbrev launch_request : LaunchSessionRequest
launch_request = record {
  transaction_id = "X-1";
  source = "app";
  ocr_required = false;
  camera_config = "1";
  white_background = true;
  output_file_format = "jpeg";
  watermark = "";
}

abbrev drawn : String → Drawn
drawn token = record {
  timestamp = "20260101T000000000Z";
  suffix = suffix;
  raw_token = token;
  session_id = "s";
}

abbrev created : Result LaunchResult × World
created = create_launch env settings (λ s. s) profile launch_request (drawn "t1") 10 occupied

abbrev launch_result : LaunchResult
launch_result = record {
  internal_transaction_id = "LP-20260101T000000000Z-BBBBBB";
  external_transaction_id = "X-1";
  launch_session_id = "s";
  launch_url = "https://live.example/xbiz/live_photo/l/t1";
  expires_at = "2026-01-01T00:00:00+00:00";
  expires_in_seconds = 900;
}

created_ok : created ≡ (ok launch_result, created.1)
unfolding get has_key get_or set contains_text snoc count_items parse from_value
    is_valid_transaction_id validate_transaction_id read put remove artifact_exists read_artifact
    read_json read_transaction_json write_bytes write_artifact write_json remove_artifact
    lock_transaction transaction_exists_at create_transaction current_status set_status
    update_transaction_status create_generated create_transaction_with_generated_id index_read
    index_put index_delete index_get is_valid_external_id transaction_metadata read_active_launches
    revoke_entries revoke_active_launch_tokens store_launch_token claim_external create_launch
    reissue_launch
created_ok = refl

-- A library in which the digest of "t2" differs from the others.
abbrev two_digests : Env
two_digests = record (toy 100) {
  encode = λ s. if str_eq s "t2" then 1 ∷ [] else [];
  sha256_hex = λ b. digest b;
}

abbrev launched : World
launched =
    (create_launch two_digests settings (λ s. s) profile launch_request (drawn "t1") 10 occupied).1

abbrev mapping : Fields
mapping = mapping_fields two_digests settings (λ s. s) profile launch_request generated_id 10

abbrev reissued : Result LaunchResult × World
reissued = reissue_launch two_digests settings (λ s. s) profile "X-1" (drawn "t2") 11 launched

abbrev reissue_result : LaunchResult
reissue_result = record launch_result { launch_url = "https://live.example/xbiz/live_photo/l/t2" }

reissued_ok : reissued ≡ (ok reissue_result, reissued.1)
unfolding get has_key get_or set contains_text snoc count_items parse from_value
    is_valid_transaction_id validate_transaction_id read put remove artifact_exists read_artifact
    read_json read_transaction_json write_bytes write_artifact write_json remove_artifact
    lock_transaction transaction_exists_at create_transaction current_status set_status
    update_transaction_status create_generated create_transaction_with_generated_id index_read
    index_put index_delete index_get is_valid_external_id transaction_metadata read_active_launches
    revoke_entries revoke_active_launch_tokens store_launch_token claim_external create_launch
    reissue_launch
reissued_ok = refl

mapped_before : index_get two_digests launched external "h" ≡ ok (some mapping)
unfolding get has_key get_or set contains_text snoc count_items parse from_value
    is_valid_transaction_id validate_transaction_id read put remove artifact_exists read_artifact
    read_json read_transaction_json write_bytes write_artifact write_json remove_artifact
    lock_transaction transaction_exists_at create_transaction current_status set_status
    update_transaction_status create_generated create_transaction_with_generated_id index_read
    index_put index_delete index_get is_valid_external_id transaction_metadata read_active_launches
    revoke_entries revoke_active_launch_tokens store_launch_token claim_external create_launch
    reissue_launch
mapped_before = refl

listed_before :
    lists_token "h" (read_active_launches two_digests settings (λ s. s) launched generated_id)
    ≡ true
unfolding get has_key get_or set contains_text snoc count_items parse from_value
    is_valid_transaction_id validate_transaction_id read put remove artifact_exists read_artifact
    read_json read_transaction_json write_bytes write_artifact write_json remove_artifact
    lock_transaction transaction_exists_at create_transaction current_status set_status
    update_transaction_status create_generated create_transaction_with_generated_id index_read
    index_put index_delete index_get is_valid_external_id transaction_metadata read_active_launches
    revoke_entries revoke_active_launch_tokens store_launch_token claim_external create_launch
    reissue_launch
listed_before = refl

mapping_id : mapped_id two_digests settings (λ s. s) mapping ≡ ok generated_id
unfolding get
mapping_id = validate-name generated_id

reissue_launch-IsRevoked_example : index_get two_digests reissued.1 launch_tokens "h" ≡ ok none
reissue_launch-IsRevoked_example =
    reissue_launch-IsRevoked two_digests settings (λ s. s) "h" profile "X-1" (drawn "t2") 11
      generated_id mapping reissue_result launched reissued.1 mapped_before mapping_id listed_before
      refl reissued_ok
