-- ===== src/Tests/Callback.antt =====
-- Runs of the callback and of the sessions.
use live_photo_llm.Python.{as_fields}
use live_photo_llm.Integrations.Callback.{redirect_of}
use live_photo_llm.Prelude.{ℕ, true, some, ◌≡◌, refl, ◌+◌, ◌≤◌, ◌<◌, suc, arith}
use live_photo_llm.Python.{Env, Json, null, text, end}
use live_photo_llm.State.{World, Post, Result, ok}
use live_photo_llm.Integrations.Callback.{CallbackDelivery, response}
use live_photo_llm.Integrations.Callback.Retries.{
  IsSent, post_times, send_callback_retries, send_callback_acknowledged,
}
use live_photo_llm.Integrations.Session.{FreshTokens, active, terminal}
use live_photo_llm.Integrations.Session.Grants.{session_grants}
use live_photo_llm.Tests.{toy, settings, profile, network, ready, tx}
use live_photo_llm.Python.{get, has_key, get_or, set, contains_text, snoc, count_items}
use live_photo_llm.Transactions.Status.{parse, from_value}
use live_photo_llm.Transactions.Ids.{is_valid_transaction_id}
use live_photo_llm.Transactions.Store.{
  validate_transaction_id, read, put, remove, artifact_exists, read_artifact, read_json,
  read_transaction_json, write_bytes, write_artifact, write_json, remove_artifact, lock_transaction,
  transaction_exists_at, create_transaction, current_status, set_status, update_transaction_status,
}
use live_photo_llm.Integrations.Index.{index_read, index_put, index_delete, index_get}
use live_photo_llm.Integrations.Callback.{
  round_of, send_loop, build_callback_event_id, build_callback_payload, send_callback,
  validate_redirect_url,
}
use live_photo_llm.Integrations.Session.{
  is_terminal_status, is_expired, invalidate_previous_active, create_session, redeem_launch_token,
  resolve_browser_session, verify_csrf, require_active_session, require_csrf, session_transaction,
  authorize,
}

abbrev env : Env
env = toy 3600000010

abbrev post : Post
post = record { url = "https://bank.example/cb"; idempotency_key = "e"; payload = end }

abbrev sent : Result CallbackDelivery × World
sent = send_callback env network 2 profile "e" end ready

abbrev delivery : CallbackDelivery
delivery = record {
  acknowledged = true;
  status_code = 200;
  redirect_url = some "https://bank.example/done";
}

sent_ok : sent ≡ (ok delivery, sent.1)
unfolding get has_key get_or set contains_text snoc count_items parse from_value
    is_valid_transaction_id validate_transaction_id read put remove artifact_exists read_artifact
    read_json read_transaction_json write_bytes write_artifact write_json remove_artifact
    lock_transaction transaction_exists_at create_transaction current_status set_status
    update_transaction_status index_read index_put index_delete index_get round_of send_loop
    build_callback_event_id build_callback_payload send_callback validate_redirect_url
    is_terminal_status is_expired invalidate_previous_active create_session redeem_launch_token
    resolve_browser_session verify_csrf require_active_session require_csrf session_transaction
    authorize
sent_ok = refl

send_callback_retries_example : IsSent network post 2 1 ready sent
send_callback_retries_example = send_callback_retries env network 2 profile "e" end ready refl

send_callback_acknowledged_example :
    (n : ℕ) × (b : Json) × (n ≤ 2)
    × (network (1 + n) ≡ response 200 (some b))
    × (200 ≤ 200)
    × (200 < 300)
    × (delivery.redirect_url ≡ redirect_of (as_fields b))
    × (sent.1 ≡ post_times (suc n) post ready)
send_callback_acknowledged_example =
    send_callback_acknowledged env network 2 profile "e" end ready sent.1 delivery sent_ok

abbrev tokens : FreshTokens
tokens = record { session = "c"; csrf = "x" }

abbrev redeemed : World
redeemed = (create_session env settings tx active null tokens 10 ready).1

session_grants_example :
    authorize env (record { session_cookie = "c"; csrf_header = "x"; now = 20 }) redeemed
    ≡ (ok tx, redeemed)
session_grants_example =
    session_grants env settings tx tokens 10 20 ready refl (omega arith) refl refl

abbrev shown : World
shown = (create_session env settings tx terminal (text "COMPLETED") tokens 10 ready).1
