-- ===== src/Integrations/Launch.antt =====
-- Launch sessions: backend/app/integrations/launch.py. The random texts, the time stamp of the
-- generated id and `str.rstrip("/")` are arguments.
pub mod Unique
pub mod Reissue
pub mod Launched
use Prim.Native.String.{◌++◌}
use live_photo_llm.Prelude.{
  ℕ, ◌+◌, ◌*◌, String, Bool, true, false, Option, none, some, List, [], ◌∷◌, ◌&&◌, ◌||◌, ◌==◌, not,
  leb, length, codes, str_eq, if◌then◌else◌, is_some,
}
use live_photo_llm.Python.{
  Json, bool, text, arr, obj, Items, nil, cons, Fields, end, field, get, get_or, list_or_empty,
  as_text, snoc, Env,
}
use live_photo_llm.State.{
  active_launches, external, launch_tokens, World, Exec, Result, ok, err, path_error,
  transaction_exists, artifact_not_found, value_error, pure, raise, lift, gets, asks, modify, skip,
  raise_if, or_raise, ◌>>=◌, ◌>>◌,
}
use live_photo_llm.Settings.{Settings}
use live_photo_llm.Transactions.Status.{value, launched}
use live_photo_llm.Transactions.Ids.{TxId, is_id_char}
use live_photo_llm.Transactions.Generated.{
  generate_internal_transaction_id, create_transaction_with_generated_id,
}
use live_photo_llm.Transactions.Store.{
  artifact_exists, read_json, write_json, lock_transaction, validate_transaction_id,
}
use live_photo_llm.Integrations.Consumers.{ConsumerProfile}
use live_photo_llm.Integrations.Index.{index_get, index_put, index_delete, external_key_hash}

-- LaunchSessionRequest
pub record LaunchSessionRequest : Type 0 where
  pub transaction_id : String
  pub source : String
  pub ocr_required : Bool
  pub camera_config : String
  pub white_background : Bool
  pub output_file_format : String
  pub watermark : String

pub record LaunchResult : Type 0 where
  pub internal_transaction_id : String
  pub external_transaction_id : String
  pub launch_session_id : String
  pub launch_url : String
  pub expires_at : String
  pub expires_in_seconds : ℕ

-- What one launch draws at random: the suffixes of the id, the token and the session's id.
pub record Drawn : Type 0 where
  pub timestamp : String
  pub suffix : ℕ → String
  pub raw_token : String
  pub session_id : String

-- `[A-Za-z0-9._:-]`
abbrev is_external_char : ℕ → Bool
is_external_char c = is_id_char c || c == b'.' || c == b':'

abbrev all_external_chars : List ℕ → Bool
all_external_chars [] = true
all_external_chars (c ∷ cs) = is_external_char c && all_external_chars cs

-- `_is_valid_external_id`
unfoldable pub is_valid_external_id : String → Bool
is_valid_external_id s =
    all_external_chars (codes s) && leb 1 (length (codes s)) && leb (length (codes s)) 128

module _ (env : Env) (settings : Settings) (rstrip_slash : String → String) where
  -- `_build_launch_token_and_url`, the URL
  abbrev launch_url_of : String → Result String
  launch_url_of raw_token =
      if str_eq settings.public_livephoto_base_url ""
      then err value_error
      else ok
          (rstrip_slash settings.public_livephoto_base_url ++ "/xbiz/live_photo/l/" ++ raw_token)

  -- `_transaction_metadata`
  unfoldable pub transaction_metadata : ConsumerProfile → LaunchSessionRequest → ℕ → String → Fields
  transaction_metadata profile req now internal_tx_id =
      field "transaction_id" (text internal_tx_id) (
        field "external_transaction_id" (text req.transaction_id) (
          field "consumer_id" (text profile.consumer_id) (
            field "source" (text req.source) (
              field "ocr_required" (bool req.ocr_required) (
                field "camera_config" (text req.camera_config) (
                  field "white_background" (bool req.white_background) (
                    field "output_file_format" (text req.output_file_format) (
                      field "status" (text (value launched)) (
                        field "created_at" (text (env.isoformat now))
                          (field "app_version" (text settings.app_version) end))))))))))

  abbrev active_of : Result Fields → Items
  active_of (ok f) = list_or_empty (get_or "active" (arr nil) f)
  active_of (err _) = nil

  -- `_read_active_launches`
  unfoldable pub read_active_launches : World → TxId → Items
  read_active_launches s t =
      if artifact_exists s t active_launches
      then active_of (read_json env s t active_launches)
      else nil

  abbrev pub delete_token : Option String → Exec Unit
  delete_token none = skip
  delete_token (some h) = modify (index_delete launch_tokens h)

  -- An entry that is no dict raises AttributeError, for which value_error stands.
  unfoldable pub revoke_entries : Items → Exec Unit
  revoke_entries nil = skip
  revoke_entries (cons (obj f) rest) = do
    delete_token (as_text (get "token_hash" f))
    revoke_entries rest
  revoke_entries (cons _ rest) = raise value_error

  -- `_revoke_active_launch_tokens`
  unfoldable pub revoke_active_launch_tokens : TxId → Exec Unit
  unfolding revoke_entries write_json
  revoke_active_launch_tokens t = do
    entries ← gets (λ s. read_active_launches s t)
    revoke_entries entries
    write_json t active_launches (field "active" (arr nil) end)

  abbrev pub expiry : ℕ → String
  expiry now = env.isoformat (now + settings.launch_token_ttl_seconds * 1000000)

  abbrev pub token_fields : TxId → ℕ → Fields
  token_fields t now =
      field "transaction_id" (text t.name)
        (field "created_at" (text (env.isoformat now)) (field "expires_at" (text (expiry now)) end))

  abbrev launch_entry : String → String → ℕ → Json
  launch_entry session_id token_hash now = obj (
      field "launch_session_id" (text session_id) (
        field "token_hash" (text token_hash) (
          field "created_at" (text (env.isoformat now))
            (field "expires_at" (text (expiry now)) end))))

  -- `_store_launch_token`
  unfoldable pub store_launch_token :
      TxId → String → String → String → String → ℕ → Exec LaunchResult
  unfolding write_json
  store_launch_token t external_id token_hash launch_url session_id now = do
    modify (index_put launch_tokens token_hash (token_fields t now))
    active ← gets (λ s. read_active_launches s t)
    write_json t active_launches
        (field "active" (arr (snoc (launch_entry session_id token_hash now) active)) end)
    pure (record {
      internal_transaction_id = t.name;
      external_transaction_id = external_id;
      launch_session_id = session_id;
      launch_url = launch_url;
      expires_at = expiry now;
      expires_in_seconds = settings.launch_token_ttl_seconds;
    })

  -- The token of a launch and its URL, stored.
  abbrev pub issue : TxId → String → Drawn → ℕ → Exec LaunchResult
  issue t external_id drawn now = do
    launch_url ← lift (launch_url_of drawn.raw_token)
    store_launch_token t external_id (env.sha256_hex (env.encode drawn.raw_token)) launch_url
        drawn.session_id now

  abbrev pub mapping_fields : ConsumerProfile → LaunchSessionRequest → TxId → ℕ → Fields
  mapping_fields profile req t now = field "internal_transaction_id" (text t.name) (
      field "external_transaction_id" (text req.transaction_id) (
        field "consumer_id" (text profile.consumer_id)
          (field "created_at" (text (env.isoformat now)) end)))

  -- The block under the lock of the external id.
  unfoldable pub claim_external : ConsumerProfile → LaunchSessionRequest → Drawn → ℕ → Exec TxId
  claim_external profile req drawn now = do
    let key_hash = external_key_hash env profile.consumer_id req.transaction_id
    known ← asks (λ s. index_get env s external key_hash)
    raise_if (is_some known) transaction_exists
    t ←
        create_transaction_with_generated_id
          (λ i. generate_internal_transaction_id drawn.timestamp (drawn.suffix i))
          (transaction_metadata profile req now)
    modify (index_put external key_hash (mapping_fields profile req t now))
    pure t

  unfoldable pub create_launch :
      ConsumerProfile → LaunchSessionRequest → Drawn → ℕ → Exec LaunchResult
  unfolding claim_external
  create_launch profile req drawn now = do
    raise_if (not (is_valid_external_id req.transaction_id)) path_error
    t ← claim_external profile req drawn now
    issue t req.transaction_id drawn now

  abbrev pub mapped_id : Fields → Result TxId
  mapped_id f = elim (as_text (get "internal_transaction_id" f)) [
    | none ↦ err value_error
    | some name ↦ validate_transaction_id name
  ]

  unfoldable pub reissue_launch : ConsumerProfile → String → Drawn → ℕ → Exec LaunchResult
  unfolding revoke_active_launch_tokens
  reissue_launch profile external_id drawn now = do
    raise_if (not (is_valid_external_id external_id)) path_error
    found ←
        asks (λ s. index_get env s external (external_key_hash env profile.consumer_id external_id))
    mapping ← lift (or_raise found artifact_not_found)
    t ← lift (mapped_id mapping)
    lock_transaction t
    revoke_active_launch_tokens t
    issue t external_id drawn now
