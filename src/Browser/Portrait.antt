-- ===== src/Browser/Portrait.antt =====
-- POST and GET /browser/portrait: backend/app/api/v1/browser.py. The image pipeline of
-- PortraitProcessor.process runs between two locked blocks and is an argument; what it does to the
-- transaction (backend/app/portrait/processor.py) is modelled.
pub mod Binding
pub mod Superseded
use live_photo_llm.Prelude.{
  ℕ, String, Bool, true, false, Option, none, some, str_eq, if◌then◌else◌, not,
}
use live_photo_llm.Python.{Json, Fields, Env, Bytes}
use live_photo_llm.State.{
  selected_original, portrait_processed, portrait_processing, portrait_candidate, World, Exec,
  Result, ok, err, Error, api, portrait, not_ready, portrait_not_ready, portrait_in_progress,
  stale_portrait, value_error, skip, pure, raise, lift, gets, asks, catch, modify, raise_if, when,
  ◌>>=◌, ◌>>◌,
}
use live_photo_llm.Settings.{Settings}
use live_photo_llm.Transactions.Status.{portrait_ready}
use live_photo_llm.Transactions.Ids.{TxId}
use live_photo_llm.Transactions.Store.{
  ArtifactReference, processed_portrait, artifact_exists, read_artifact, write_bytes,
  write_artifact, write_json, remove_artifact, lock_transaction, transaction_exists_at,
  update_transaction_status,
}
use live_photo_llm.Integrations.Session.{
  Request, authorize, require_active_session, session_transaction,
}
use live_photo_llm.Liveness.Claims.{portraying, is_claimed, claim_ready, set_claim, clear_claim}
use live_photo_llm.Liveness.Capture.{current_capture_face_box}
use live_photo_llm.Liveness.Binding.{
  Snapshot, capture_snapshot, snapshot_matches_current, write_portrait_authorization,
  portrait_authorization_current,
}
use live_photo_llm.Browser.Common.{Meanwhile, terminal_blocked}

-- The SHA-256 of the portrait that the reply names, and whether it was there before.
pub record PortraitReply : Type 0 where
  pub sha256 : String
  pub reused : Bool

-- What the first locked block ends in.
pub data Started : Type 0 where
  reusing : PortraitReply → Started
  started : Snapshot → Started

-- The pipeline: a model that is not configured; or a JPEG and the metadata of the run; or an
-- exception, for which value_error stands where Pillow or numpy cannot read the image.
pub data Pipeline : Type 0 where
  unavailable : Pipeline
  encoded : Bytes → Fields → Pipeline
  failing : Error → Pipeline

-- What the checks of the face box make of it, from the capture or from the form.
pub record FaceBoxes : Type 0 where
  pub validate : Json → Option Json
  pub posted : Option Json

abbrev first_box : Option Json → Option Json → Option Json
first_box none b = b
first_box (some a) b = some a

abbrev is_missing : Option Json → Bool
is_missing none = true
is_missing (some _) = false

module _ (env : Env) (settings : Settings) where
  -- `browser_portrait_image`
  unfoldable pub browser_portrait_image : Request → Exec Bytes
  browser_portrait_image req = do
    r ← require_active_session env req
    t ← lift (session_transaction env r)
    present ← gets (λ s. artifact_exists s t portrait_processed)
    raise_if (not present) (api portrait_not_ready)
    authorized ← gets (λ s. portrait_authorization_current env s t)
    raise_if (not authorized) (api portrait_not_ready)
    asks (λ s. read_artifact env s t portrait_processed)

  -- `_portrait_sha256`
  abbrev portrait_sha256 : World → TxId → Result String
  portrait_sha256 s t = elim (read_artifact env s t portrait_processed) [
    | ok b ↦ ok (env.sha256_hex b)
    | err e ↦ err e
  ]

  abbrev start : TxId → ℕ → Snapshot → Exec Started
  start t now snapshot = do
    busy ← gets (λ s. is_claimed s t portraying snapshot.identity)
    ready ← gets (λ s. claim_ready env settings now s t portraying snapshot.identity)
    when busy (
        if ready
        then clear_claim t portraying snapshot.identity
        else raise (api portrait_in_progress))
    set_claim env t portraying snapshot.identity now
    pure (started snapshot)

  abbrev start_or_refuse : TxId → ℕ → Option Snapshot → Exec Started
  start_or_refuse t now none = raise (api not_ready)
  start_or_refuse t now (some snapshot) = start t now snapshot

  abbrev reuse : TxId → Exec Started
  reuse t = do
    sha ← asks (λ s. portrait_sha256 s t)
    pure (reusing (record { sha256 = sha; reused = true }))

  -- The first locked block.
  unfoldable pub portrait_start : TxId → ℕ → Exec Started
  portrait_start t now = do
    lock_transaction t
    authorized ← gets (λ s. portrait_authorization_current env s t)
    snapshot ← gets (λ s. capture_snapshot env s t)
    if authorized then reuse t else start_or_refuse t now snapshot

  abbrev stage : TxId → String → Pipeline → Exec Unit
  stage t identity unavailable = skip
  stage t identity (failing e) = raise e
  stage t identity (encoded jpeg metadata) = do
    write_bytes env t (portrait_candidate identity) jpeg
    write_json t portrait_processing metadata

  -- `except Exception` of `PortraitProcessor.process`, where the caller owns the status
  abbrev wrapped : Error → Exec Unit
  wrapped (portrait code) = raise (portrait code)
  wrapped value_error = raise (portrait "PORTRAIT_INVALID_SOURCE")
  wrapped e = raise (portrait "PORTRAIT_PROCESSING_FAILED")

  abbrev is_unavailable : Pipeline → Bool
  is_unavailable unavailable = true
  is_unavailable _ = false

  abbrev run_stage : TxId → String → Pipeline → Exec Unit
  run_stage t identity pipeline = do
    asks (λ s. read_artifact env s t selected_original)
    stage t identity pipeline

  -- `PortraitProcessor.process` with a candidate path: no status is touched.
  unfoldable pub process_candidate : TxId → String → Pipeline → Exec Unit
  unfolding write_bytes write_json
  process_candidate t identity pipeline = do
    known ← gets (λ s. transaction_exists_at s t)
    raise_if (not known) (portrait "PORTRAIT_PROCESSING_FAILED")
    raise_if (is_unavailable pipeline) (portrait "PORTRAIT_MODEL_UNAVAILABLE")
    catch (run_stage t identity pipeline) wrapped

  -- The last locked block: only the snapshot's own decision and capture are served.
  unfoldable pub portrait_finish : TxId → Snapshot → ℕ → Exec PortraitReply
  unfolding write_artifact
  portrait_finish t snapshot now = do
    lock_transaction t
    clear_claim t portraying snapshot.identity
    current ← gets (λ s. snapshot_matches_current env s t snapshot)
    if not current
        then remove_artifact t (portrait_candidate snapshot.identity) >> raise (api stale_portrait)
        else do
          candidate ← asks (λ s. read_artifact env s t (portrait_candidate snapshot.identity))
          ref ← write_artifact env t processed_portrait candidate "image/jpeg"
          remove_artifact t (portrait_candidate snapshot.identity)
          write_portrait_authorization env t snapshot ref.sha256 now
          update_transaction_status env t portrait_ready now
          pure (record { sha256 = ref.sha256; reused = false })

  abbrev after_start : TxId → Meanwhile → Pipeline → Meanwhile → ℕ → Started → Exec PortraitReply
  after_start t before pipeline meanwhile now (reusing reply) = pure reply
  after_start t before pipeline meanwhile now (started snapshot) = do
    modify before
    catch (process_candidate t snapshot.identity pipeline)
        (λ e. lock_transaction t >> clear_claim t portraying snapshot.identity >> raise e)
    modify meanwhile
    portrait_finish t snapshot now

  unfoldable pub browser_portrait :
      Request → Meanwhile → Meanwhile → Meanwhile → FaceBoxes → Pipeline → Exec PortraitReply
  browser_portrait req first before meanwhile boxes pipeline = do
    t ← authorize env req
    terminal_blocked env t
    raise_if (not settings.portrait_processing_enabled) (portrait "PORTRAIT_PROCESSING_FAILED")
    stored ← gets (λ s. current_capture_face_box env s t)
    raise_if (is_missing (first_box (boxes.validate stored) boxes.posted))
        (portrait "PORTRAIT_QUALITY_FAILED")
    modify first
    begun ← portrait_start t req.now
    after_start t before pipeline meanwhile req.now begun
