-- ===== src/Integrations/Auth.antt =====
-- Authentication of the consumers' calls: backend/app/integrations/s2s_auth.py. PyJWT, the JWKS and
-- `str.strip` are parameters.
pub mod Authorized
use live_photo_llm.Prelude.{
  ℕ, String, Bool, true, false, Option, none, some, List, [], ◌∷◌, str_eq, if◌then◌else◌, not, ◌||◌,
  ◌&&◌, starts_with, drop_chars,
}
use live_photo_llm.Python.{Json, Fields, get, eq_text, as_text, Env}
use live_photo_llm.State.{
  Result, ok, err, Error, api, unauthorized, forbidden, integration_not_configured,
}
use live_photo_llm.Settings.{Settings, s2s_jwks_is_local_path}
use live_photo_llm.Integrations.Consumers.{
  ConsumerProfile, Registry, active_consumer, find_by_client_id,
}

-- A call of PyJWT or of the file system, by how it ends.
pub data Outcome (A : Type 0) : Type 0 where
  returned : A → Outcome A
  pyjwt_error os_or_value_error : Outcome A

-- PyJWT, and the read of a key set from the file system.
pub record Pyjwt (Key : Type 0) : Type 0 where
  pub read_key_set : String → Outcome (List (Json × Key))
  pub unverified_kid : String → Outcome Json
  pub signing_key : String → String → Outcome Key
  pub decode : Settings → String → Key → Outcome Fields

abbrev then_outcome : {A B : Type 0} → Outcome A → (A → Outcome B) → Outcome B
then_outcome (returned a) f = f a
then_outcome pyjwt_error f = pyjwt_error
then_outcome os_or_value_error f = os_or_value_error

-- The `except` clauses of `_decode_jwt`.
abbrev typed : {A : Type 0} → Outcome A → Result A
typed (returned a) = ok a
typed pyjwt_error = err (api unauthorized)
typed os_or_value_error = err (api integration_not_configured)

module _ (env : Env) {Key : Type 0} (pyjwt : Pyjwt Key) (json_eq : Json → Json → Bool) where
  -- The first key with the token's `kid`; InvalidKeyError is a PyJWTError.
  abbrev key_for : Json → List (Json × Key) → Outcome Key
  key_for kid [] = pyjwt_error
  key_for kid ((k, key) ∷ rest) = if json_eq k kid then returned key else key_for kid rest

  abbrev key_of : Settings → String → Outcome Key
  key_of settings token =
      if s2s_jwks_is_local_path settings
      then then_outcome (pyjwt.read_key_set settings.s2s_jwt_jwks_url)
          (λ keys. then_outcome (pyjwt.unverified_kid token) (λ kid. key_for kid keys))
      else pyjwt.signing_key settings.s2s_jwt_jwks_url token

  -- `_decode_jwt`
  unfoldable pub decode_jwt : Settings → String → Result Fields
  unfolding s2s_jwks_is_local_path
  decode_jwt settings token =
      typed (then_outcome (key_of settings token) (pyjwt.decode settings token))

  module _ (strip : String → String) where
    -- The token of an `Authorization` header.
    abbrev pub bearer_token : String → String
    bearer_token header = strip (drop_chars 7 header)

    abbrev if_known : Option ConsumerProfile → Result ConsumerProfile
    if_known none = err (api forbidden)
    if_known (some p) = ok p

    abbrev for_source : String → Option ConsumerProfile → Result ConsumerProfile
    for_source requested_source none = err (api forbidden)
    for_source requested_source (some p) =
        if not p.active
        then err (api forbidden)
        else if not (str_eq requested_source "") && not (str_eq requested_source p.consumer_id)
        then err (api forbidden)
        else ok p

    abbrev for_client : Registry → String → Option String → Result ConsumerProfile
    for_client registry requested_source none = err (api unauthorized)
    for_client registry requested_source (some client_id) =
        if str_eq client_id ""
        then err (api unauthorized)
        else for_source requested_source (find_by_client_id registry client_id)

    abbrev for_claims : Settings → Registry → String → Result Fields → Result ConsumerProfile
    for_claims settings registry requested_source (err e) = err e
    for_claims settings registry requested_source (ok claims) =
        for_client registry requested_source (as_text (get settings.s2s_jwt_client_id_claim claims))

    unfoldable pub authenticate_s2s :
        Settings → Registry → String → String → String → Result ConsumerProfile
    authenticate_s2s settings registry authorization_header dev_auth_header requested_source =
        if str_eq settings.s2s_auth_mode "local_dev"
        then if str_eq settings.s2s_local_dev_token ""
            || not (str_eq dev_auth_header settings.s2s_local_dev_token)
          then err (api unauthorized)
          else if_known (active_consumer registry requested_source)
        else if str_eq settings.s2s_auth_mode "jwt"
        then if not (starts_with "bearer " (env.lower authorization_header))
          then err (api unauthorized)
          else for_claims settings registry requested_source
              (decode_jwt settings (bearer_token authorization_header))
        else err (api integration_not_configured)
