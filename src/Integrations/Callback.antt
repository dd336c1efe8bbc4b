-- ===== src/Integrations/Callback.antt =====
-- The outbound callback: backend/app/integrations/callback.py. What the network answers to each
-- post, and how urllib takes a URL apart, are arguments.
pub mod Retries
use Prim.Native.String.{◌++◌}
use live_photo_llm.Prelude.{
  ℕ, zero, suc, String, Bool, true, false, Option, none, some, List, [], ◌∷◌, ◌++◌ as append,
  str_eq, if◌then◌else◌, ◌&&◌, ◌||◌, not, leb, ltb, ◌==◌,
}
use live_photo_llm.Python.{
  Json, int, text, Fields, end, field, get, as_fields, as_text, Env, join_colon, Bytes, str_of,
}
use live_photo_llm.State.{
  Post, World, Exec, Result, ok, err, Error, callback_transport, callback_terminal, pure, raise,
  modify, ◌>>=◌, ◌>>◌,
}
use live_photo_llm.Integrations.Consumers.{
  ConsumerProfile, AuthType, no_auth, bearer_env, allows_redirect_origin,
}

-- What a post comes back with: httpx.HTTPError, or a status and the parsed body, if it is JSON.
pub data HttpOutcome : Type 0 where
  network_error : HttpOutcome
  response : ℕ → Option Json → HttpOutcome

-- The answer to the post with this number, the first being 1.
abbrev pub Network : Type 0
Network = ℕ → HttpOutcome

-- CallbackDelivery without the latency, which only the metrics use.
pub record CallbackDelivery : Type 0 where
  pub acknowledged : Bool
  pub status_code : ℕ
  pub redirect_url : Option String

-- `urlparse`; the port is `none` where reading it raises ValueError.
pub record ParsedUrl : Type 0 where
  pub username : Option String
  pub password : Option String
  pub fragment : String
  pub scheme : String
  pub hostname : Option String
  pub port : Option (Option ℕ)

abbrev pub callback_event_type : String
callback_event_type = "LIVEPHOTO.DECISION.CREATED"

-- `response.status_code in (429,) or response.status_code >= 500`
abbrev pub is_transient : ℕ → Bool
is_transient status = status == 429 || leb 500 status

-- `response.status_code < 200 or response.status_code >= 300`
abbrev pub is_refused : ℕ → Bool
is_refused status = ltb status 200 || leb 300 status

abbrev pub redirect_of : Option Fields → Option String
redirect_of none = none
redirect_of (some f) = as_text (get "redirect_url" f)

abbrev delivery_of : ℕ → Option Json → Result CallbackDelivery
delivery_of status none = err callback_terminal
delivery_of status (some body) = ok (record {
  acknowledged = true;
  status_code = status;
  redirect_url = redirect_of (as_fields body);
})

-- The end of a round of the loop: retry with a transport error, or stop.
pub data Round : Type 0 where
  again : Round
  stop : Result CallbackDelivery → Round

unfoldable pub round_of : HttpOutcome → Round
round_of network_error = again
round_of (response status body) =
    if is_transient status
    then again
    else if is_refused status
    then stop (err callback_terminal)
    else stop (delivery_of status body)

abbrev pub add_post : Post → World → World
add_post p s = record s { posts = append s.posts (p ∷ []) }

-- The `while True` loop: `left` is `max_retries + 1 - attempt`, so `attempt > max_retries` is
-- `left = 0`.
unfoldable pub send_loop : Network → Post → ℕ → ℕ → Exec CallbackDelivery
unfolding round_of
send_loop network p zero attempt s = (
  elim (round_of (network attempt)) [ again ↦ err callback_transport | stop r ↦ r ],
  add_post p s,
)
send_loop network p (suc left) attempt s =
    let rest = send_loop network p left (suc attempt) (add_post p s) in
    elim (round_of (network attempt)) [ again ↦ rest | stop r ↦ (r, add_post p s) ]

abbrev truthy_text : Option String → Bool
truthy_text none = false
truthy_text (some s) = not (str_eq s "")

module _ (env : Env) where
  unfoldable pub build_callback_event_id : String → String → String
  build_callback_event_id consumer_id external_transaction_id =
      env.sha256_hex (
        env.encode
          (join_colon consumer_id (join_colon external_transaction_id callback_event_type)))

  unfoldable pub build_callback_payload : String → String → String → Bytes → String → Fields
  build_callback_payload event_id external_transaction_id decision_id jpeg occurred_at =
      field "event_id" (text event_id) (
        field "transaction_id" (text external_transaction_id) (
          field "decision_id" (text decision_id) (
            field "occurred_at" (text occurred_at) (
              field "processed_jpeg_base64" (text (env.base64 jpeg))
                (field "processed_jpeg_sha256" (text (env.sha256_hex jpeg)) end)))))

  -- `callback bearer secret is not configured`
  abbrev pub lacks_bearer : ConsumerProfile → Bool
  lacks_bearer p = elim p.callback.auth_type [
    | no_auth ↦ false
    | bearer_env ↦ str_eq (env.environ p.callback.secret_env) ""
  ]

  unfoldable pub send_callback :
      Network → ℕ → ConsumerProfile → String → Fields → Exec CallbackDelivery
  unfolding send_loop
  send_callback network max_retries profile event_id payload =
      if lacks_bearer profile
      then raise callback_transport
      else send_loop network
          (record { url = profile.callback.url; idempotency_key = event_id; payload = payload })
          max_retries 1

  -- `f":{port}" if port else ""`
  abbrev port_text : Option ℕ → String
  port_text none = ""
  port_text (some zero) = ""
  port_text (some (suc n)) = ":" ++ str_of env (int (suc n))

  abbrev allowed_origin : ConsumerProfile → String → String → Option (Option ℕ) → Bool
  allowed_origin profile scheme host none = false
  allowed_origin profile scheme host (some port) =
      allows_redirect_origin profile (scheme ++ "://" ++ host ++ port_text port)

  abbrev allowed_host : ConsumerProfile → ParsedUrl → Option String → Bool
  allowed_host profile url none = false
  allowed_host profile url (some host) = allowed_origin profile url.scheme host url.port

  abbrev allowed_url : ConsumerProfile → Bool → Option ParsedUrl → Bool
  allowed_url profile local none = false
  allowed_url profile local (some url) =
      if truthy_text url.username || truthy_text url.password || not (str_eq url.fragment "")
      then false
      else if not (str_eq url.scheme "https") && not (local && str_eq url.scheme "http")
      then false
      else allowed_host profile url url.hostname

  unfoldable pub validate_redirect_url :
      (String → Option ParsedUrl) → ConsumerProfile → String → Bool → Bool
  validate_redirect_url urlparse profile redirect_url local =
      if str_eq redirect_url "" then false else allowed_url profile local (urlparse redirect_url)
