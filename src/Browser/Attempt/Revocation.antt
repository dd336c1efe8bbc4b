-- ===== src/Browser/Attempt/Revocation.antt =====
-- A new capture revokes what the previous one was authorized for.
use mathlib.Core.Path.{subst}
use live_photo_llm.Prelude.{
  ℕ, String, true, false, none, some, ◌≡◌, refl, sym, inl, inr, arith, str_eq, ◌∙◌,
}
use live_photo_llm.Python.{Env, Fields, get, get_or, has_key}
use live_photo_llm.State.{
  capture_json, decision_json, selected_original, portrait_processed, portrait_authorization,
  document, blob, World, Result-cases, ok, Exec, lift, modify, catch, ◌>>=◌, ◌>>◌,
}
use live_photo_llm.State.Inversion.{bind-ok}
use live_photo_llm.Settings.{Settings}
use live_photo_llm.Integrations.Session.{Request, authorize}
use live_photo_llm.Browser.Common.{Meanwhile, terminal_blocked, max_attempts_for_tx}
use live_photo_llm.Transactions.Status.{capture_ready}
use live_photo_llm.Transactions.Ids.{TxId}
use live_photo_llm.Transactions.Store.{
  read, put, read_transaction_json, set_status, update_transaction_status, write_artifact,
  lock_transaction, make_folder, artifact_exists, read_json,
}
use live_photo_llm.Transactions.Store.Laws.{file_laws}
use live_photo_llm.Transactions.Store.Statuses.{read-set_status}
use live_photo_llm.Integrations.Attempts.{AttemptResult, register_attempt_locked}
use live_photo_llm.Integrations.Consumers.{Registry}
use live_photo_llm.Liveness.Capture.{
  invalidated, authorization_artifacts, invalidate_authorization, current_capture_key,
}
use live_photo_llm.Liveness.Capture.Invalidation.{
  read-invalidated, read-invalidated_decision, read-invalidated_portrait,
  read-invalidated_authorization,
}
use live_photo_llm.Liveness.Binding.{has_current_canonical_pass, portrait_authorization_current}
use live_photo_llm.Liveness.Binding.Frame.{no_decision_no_pass, no_pass_no_authorization}
use live_photo_llm.Browser.Attempt.{
  Upload, CaptureReply, already_recorded, accepted, capture_fields, finish_capture, store_capture,
  capture_locked, validate_upload, browser_capture,
}

module _ (env : Env) (settings : Settings) (registry : Registry) (t : TxId) (up : Upload)
    (mime : String) (now : ℕ) where
  abbrev written : World → World
  written s =
      put (put s t selected_original (blob up.image)) t capture_json
        (document (capture_fields env t up mime))

  abbrev revoked : World → World
  revoked s = invalidated authorization_artifacts (written s) t

  -- The files of an accepted capture.
  pub record IsNewCapture (s : World) : Type 0 where
    pub no_decision : read s t decision_json ≡ none
    pub no_portrait : read s t portrait_processed ≡ none
    pub no_authorization : read s t portrait_authorization ≡ none
    pub image_stored : read s t selected_original ≡ some (blob up.image)
    pub meta_stored : read s t capture_json ≡ some (document (capture_fields env t up mime))

  revoked-IsNewCapture : (s : World) → IsNewCapture (revoked s)
  revoked-IsNewCapture s = record {
    no_decision = read-invalidated_decision (written s) t;
    no_portrait = read-invalidated_portrait (written s) t;
    no_authorization = read-invalidated_authorization (written s) t;
    image_stored =
        read-invalidated (written s) t selected_original refl refl refl refl refl ∙ simp file_laws;
    meta_stored =
        read-invalidated (written s) t capture_json refl refl refl refl refl ∙ simp file_laws;
  }

  status-IsNewCapture :
      (m : Fields) (s : World)
      → IsNewCapture s
      → IsNewCapture (set_status env t capture_ready now m s)
  status-IsNewCapture m s h =
      let keep = read-set_status env t capture_ready now m s in
      record {
        no_decision = keep decision_json refl ∙ h.no_decision;
        no_portrait = keep portrait_processed refl ∙ h.no_portrait;
        no_authorization = keep portrait_authorization refl ∙ h.no_authorization;
        image_stored = keep selected_original refl ∙ h.image_stored;
        meta_stored = keep capture_json refl ∙ h.meta_stored;
      }

  store_capture-IsNewCapture :
      (s s' : World)
      → store_capture env settings registry t up mime now s ≡ (ok tt, s')
      → IsNewCapture s'
  unfolding store_capture write_artifact invalidate_authorization update_transaction_status
  store_capture-IsNewCapture s s' h =
      elim (Result-cases (read_transaction_json env (revoked s) t)) [
        | inl (m, e) ↦
            let same : s' ≡ set_status env t capture_ready now m (revoked s) = ground arith in
            subst IsNewCapture (sym same)
              (status-IsNewCapture m (revoked s) (revoked-IsNewCapture s))
        | inr (x, e) ↦ absurd (ground arith)
      ]

  -- What an accepted capture comes from: an attempt below the limit, and the writes.
  finish_capture-accepted :
      (s s' : World) (x a : AttemptResult)
      → finish_capture env settings registry t up mime now x s ≡ (ok (accepted a), s')
      → (store_capture env settings registry t up mime now s ≡ (ok tt, s'))
        × (x ≡ a)
        × (a.terminal ≡ false)
  finish_capture-accepted s s' x a h = ground arith

  -- The locked block that accepts a capture leaves it the current one, with nothing authorized.
  pub capture_locked-IsNewCapture :
      (s s' : World) (a : AttemptResult)
      → capture_locked env settings registry t up mime now s ≡ (ok (accepted a), s')
      → IsNewCapture s' × (a.terminal ≡ false)
  unfolding capture_locked lock_transaction
  capture_locked-IsNewCapture s s' a h =
      let limit =
        max_attempts_for_tx env registry (make_folder t s) t settings.capture_attempt_limit in
      let (x, s1, registered, finished) =
        bind-ok
          (catch
            (register_attempt_locked env settings t up.attempt_id none none (some limit) true now)
            already_recorded)
          (finish_capture env settings registry t up mime now) (make_folder t s) h in
      let (stored, same, below) = finish_capture-accepted s1 s' x a finished in
      (store_capture-IsNewCapture s1 s' stored, below)

  module _ {s : World} (h : IsNewCapture s) where
    pub IsNewCapture-no_pass : has_current_canonical_pass env s t ≡ false
    IsNewCapture-no_pass = no_decision_no_pass env s t h.no_decision

    pub IsNewCapture-no_authorization : portrait_authorization_current env s t ≡ false
    IsNewCapture-no_authorization = no_pass_no_authorization env s t IsNewCapture-no_pass

    -- The current capture is the upload.
    pub IsNewCapture-key :
        str_eq (env.sha256_hex up.image) "" ≡ false
        → current_capture_key env s t
          ≡ some (record { attempt_id = up.attempt_id; selected_sha256 = env.sha256_hex up.image })
    unfolding current_capture_key artifact_exists read_json get get_or has_key
    IsNewCapture-key e = rw h.meta_stored (rw e)

-- A capture upload that is accepted, whatever other requests did before its locked block, becomes
-- the current capture and leaves the transaction without a current PASS and without an authorized
-- portrait; the attempt is below the limit. The digest of the image is taken not to be the empty
-- text.
pub browser_capture_revokes :
    (env : Env) (settings : Settings) (registry : Registry) (req : Request) (meanwhile : Meanwhile)
    (up : Upload) (s s' : World) (a : AttemptResult)
    → browser_capture env settings registry req meanwhile up s ≡ (ok (accepted a), s')
    → str_eq (env.sha256_hex up.image) "" ≡ false
    → (t : TxId) × (s1 : World) × (authorize env req s ≡ (ok t, s1))
      × (has_current_canonical_pass env s' t ≡ false)
      × (portrait_authorization_current env s' t ≡ false)
      × (current_capture_key env s' t
          ≡ some (record { attempt_id = up.attempt_id; selected_sha256 = env.sha256_hex up.image }))
      × (a.terminal ≡ false)
unfolding browser_capture
browser_capture_revokes env settings registry req meanwhile up s s' a h ne =
    let (t, s1, who, h1) = bind-ok (authorize env req) (capture_for) s h in
    let (_, s2, _, h2) = bind-ok (terminal_blocked env t) (λ _. capture_image t) s1 h1 in
    let (mime, s3, _, h3) = bind-ok (lift (validate_upload settings up)) (capture_at t) s2 h2 in
    let new =
      capture_locked-IsNewCapture env settings registry t up mime req.now (meanwhile s3) s' a h3 in
    (
      t,
      s1,
      who,
      IsNewCapture-no_pass env settings registry t up mime req.now new.0,
      IsNewCapture-no_authorization env settings registry t up mime req.now new.0,
      IsNewCapture-key env settings registry t up mime req.now new.0 ne,
      new.1,
    )
  where
    capture_at : TxId → String → Exec CaptureReply
    capture_at t mime = modify meanwhile >> capture_locked env settings registry t up mime req.now

    capture_image : TxId → Exec CaptureReply
    capture_image t = lift (validate_upload settings up) >>= capture_at t

    capture_for : TxId → Exec CaptureReply
    capture_for t = terminal_blocked env t >> capture_image t
