-- ===== src/Transactions/Store.antt =====
-- TransactionFileStore of backend/app/transactions/store.py, and the artifact kinds of
-- backend/app/transactions/artifacts.py.
pub mod Laws
pub mod Statuses
use live_photo_llm.Prelude.{
  ℕ, String, Bool, true, false, Option, none, some, str_eq, if◌then◌else◌, ltb, ◌&&◌, ◌≡◌, refl,
  not, length, is_some,
}
use live_photo_llm.Python.{Json, text, obj, Fields, get, get_or, set, Bytes, Env, str_of}
use live_photo_llm.State.{
  FilePath, transaction_json, selected_original, vlm_result, portrait_processed,
  portrait_processing, relative_path, path_eq, Content, document, blob, World, Exec, Result, ok,
  err, path_error, transaction_exists, artifact_not_found, storage_error, pure, raise_if, asks,
  modify, ◌>>=◌, ◌>>◌, gets,
}
use live_photo_llm.Transactions.Status.{TransactionStatus, value, from_value, is_terminal}
use live_photo_llm.Transactions.Ids.{TxId, is_valid_transaction_id}

-- `_validate_transaction_id`: the text becomes the id of a transaction, or the call raises.
unfoldable pub validate_transaction_id : String → Result TxId
validate_transaction_id s =
    elim (is_valid_transaction_id s) as (λ b. is_valid_transaction_id s ≡ b → Result TxId) [
      | true ↦ λ e. ok (record { name = s; is_valid = e })
      | false ↦ λ e. err path_error
    ]
      refl

unfoldable pub read : World → TxId → FilePath → Option Content
read s t p = s.files t.name p

-- `_write_atomic`: the file appears whole, and so do the folders above it.
unfoldable pub put : World → TxId → FilePath → Content → World
put s t p c = record s {
  folders = λ u. if str_eq t.name u then true else s.folders u;
  files = λ u q. if str_eq t.name u && path_eq p q then some c else s.files u q;
}

-- `remove_artifact`: `unlink(missing_ok=True)`
unfoldable pub remove : World → TxId → FilePath → World
remove s t p = record s {
  files = λ u q. if str_eq t.name u && path_eq p q then none else s.files u q;
}

unfoldable pub artifact_exists : World → TxId → FilePath → Bool
artifact_exists s t p = is_some (read s t p)

-- ArtifactType
pub data ArtifactType : Type 0 where
  selected_original_capture vlm_result_artifact : ArtifactType
  processed_portrait portrait_processing_result : ArtifactType

-- ARTIFACT_RELATIVE_PATHS
abbrev pub artifact_path : ArtifactType → FilePath
artifact_path selected_original_capture = selected_original
artifact_path vlm_result_artifact = vlm_result
artifact_path processed_portrait = portrait_processed
artifact_path portrait_processing_result = portrait_processing

pub record ArtifactReference : Type 0 where
  pub transaction_id : String
  pub artifact_type : ArtifactType
  pub path : FilePath
  pub content_type : String
  pub size_bytes : ℕ
  pub sha256 : String

abbrev max_artifact_bytes : ℕ
max_artifact_bytes = 52428800

module _ (env : Env) where
  abbrev pub content_bytes : Content → Bytes
  content_bytes (document f) = env.dumps f
  content_bytes (blob b) = b

  abbrev pub parse_object : Option Json → Result Fields
  parse_object (some (obj f)) = ok f
  parse_object _ = err storage_error

  abbrev pub content_object : Content → Result Fields
  content_object (document f) = ok f
  content_object (blob b) = parse_object (env.loads b)

  abbrev pub bytes_of : Option Content → Result Bytes
  bytes_of none = err artifact_not_found
  bytes_of (some c) = ok (content_bytes c)

  abbrev pub object_of : Option Content → Result Fields
  object_of none = err artifact_not_found
  object_of (some c) = content_object c

  unfoldable pub read_artifact : World → TxId → FilePath → Result Bytes
  read_artifact s t p = bytes_of (read s t p)

  unfoldable pub read_json : World → TxId → FilePath → Result Fields
  read_json s t p = object_of (read s t p)

  unfoldable pub read_transaction_json : World → TxId → Result Fields
  unfolding read_json
  read_transaction_json s t = read_json s t transaction_json

  unfoldable pub write_bytes : TxId → FilePath → Bytes → Exec Unit
  write_bytes t p b = do
    raise_if (ltb max_artifact_bytes (length b)) storage_error
    modify (λ s. put s t p (blob b))

  unfoldable pub write_artifact : TxId → ArtifactType → Bytes → String → Exec ArtifactReference
  write_artifact t kind b content_type = do
    raise_if (ltb max_artifact_bytes (length b)) storage_error
    modify (λ s. put s t (artifact_path kind) (blob b))
    pure (record {
      transaction_id = t.name;
      artifact_type = kind;
      path = artifact_path kind;
      content_type = content_type;
      size_bytes = length b;
      sha256 = env.sha256_hex b;
    })

unfoldable pub write_json : TxId → FilePath → Fields → Exec Unit
write_json t p f = modify (λ s. put s t p (document f))

unfoldable pub remove_artifact : TxId → FilePath → Exec Unit
remove_artifact t p = modify (λ s. remove s t p)

abbrev pub make_folder : TxId → World → World
make_folder t s = record s { folders = λ u. if str_eq t.name u then true else s.folders u }

-- Taking the lock of a transaction creates its folder. What stands between two locks is one atomic
-- step.
unfoldable pub lock_transaction : TxId → Exec Unit
lock_transaction t = modify (make_folder t)

unfoldable pub transaction_exists_at : World → TxId → Bool
transaction_exists_at s t = s.folders t.name

-- `create_transaction`: the exclusive `mkdir`, then the metadata.
unfoldable pub create_transaction : String → Fields → Exec TxId
unfolding write_json
create_transaction name metadata = do
  t ← asks (λ s. validate_transaction_id name)
  taken ← gets (λ s. transaction_exists_at s t)
  raise_if taken transaction_exists
  modify (make_folder t)
  write_json t transaction_json metadata
  pure t

module _ (env : Env) where
  -- `TransactionStatus.from_value(str(metadata.get("status", "")))`
  unfoldable pub current_status : Fields → TransactionStatus
  current_status metadata = from_value (str_of env (get_or "status" (text "") metadata))

  abbrev pub stamp_status : String → String → Fields → Fields
  stamp_status status now metadata =
      set "updated_at" (text now) (set "status" (text status) metadata)

  -- A terminal status gives way to a terminal one only.
  abbrev pub is_kept : TransactionStatus → Fields → Bool
  is_kept status metadata =
      is_terminal (current_status metadata) && not (is_terminal (from_value (value status)))

  unfoldable pub set_status : TxId → TransactionStatus → ℕ → Fields → World → World
  set_status t status now metadata s =
      if is_kept status metadata
      then s
      else put s t transaction_json
          (document (stamp_status (value status) (env.isoformat now) metadata))

  unfoldable pub update_transaction_status : TxId → TransactionStatus → ℕ → Exec Unit
  update_transaction_status t status now = do
    metadata ← asks (λ s. read_transaction_json env s t)
    modify (set_status t status now metadata)
