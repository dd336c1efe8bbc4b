-- ===== src/Browser/Liveness/Superseded.antt =====
-- A capture between the two locked blocks of POST /browser/liveness.
use live_photo_llm.Prelude.{ℕ, String, false, ◌≡◌, ◌∙◌, refl, ap, eq_refl, str_eq, some}
use live_photo_llm.Python.{Env, Fields}
use live_photo_llm.State.{
  FilePath, path_eq, capture_json, evaluation, evaluation_claim, World, Result, ok, err, api,
  document, stale_evaluation,
}
use live_photo_llm.Settings.{Settings}
use live_photo_llm.Transactions.Ids.{TxId}
use live_photo_llm.Transactions.Store.{read, put, remove, lock_transaction}
use live_photo_llm.Integrations.Attempts.{AttemptResult}
use live_photo_llm.Integrations.Consumers.{Registry}
use live_photo_llm.Liveness.Capture.{CaptureKey, current_capture_key, liveness_identity}
use live_photo_llm.Liveness.Claims.{clear_claim}
use live_photo_llm.Liveness.Binding.Frame.{
  current_capture_key_frame, current_capture_key-make_folder,
}
use live_photo_llm.Browser.Attempt.{Upload, accepted, capture_locked}
use live_photo_llm.Browser.Attempt.Revocation.{capture_locked-IsNewCapture, IsNewCapture-key}
use live_photo_llm.Browser.Liveness.{
  LivenessReply, key_is, stale_payload, liveness_finish, liveness_failed,
}
use live_photo_llm.Browser.Liveness.Promotion.{claim_cleared, liveness_finish-stale}

-- The capture that an upload makes the current one.
abbrev pub key_of : Env → Upload → CaptureKey
key_of env up = record { attempt_id = up.attempt_id; selected_sha256 = env.sha256_hex up.image }

module _ (env : Env) (settings : Settings) (t : TxId) (identity : String) (payload : Fields)
    (fresh_id code : String) (now : ℕ) where
  abbrev cleared : World → World
  cleared s = claim_cleared env settings t identity payload fresh_id now s

  kept_frame :
      (s : World) (p : FilePath)
      → path_eq (evaluation_claim identity) p ≡ false
      → path_eq (evaluation identity) p ≡ false
      → read (put (cleared s) t (evaluation identity) (document (stale_payload payload))) t p
        ≡ read s t p
  unfolding read remove put
  kept_frame s p claim result = rw eq_refl (rw claim (rw result refl))

  cleared_frame :
      (s : World) (p : FilePath)
      → path_eq (evaluation_claim identity) p ≡ false
      → read (cleared s) t p ≡ read s t p
  unfolding read remove
  cleared_frame s p claim = rw eq_refl (rw claim refl)

  failed_stale :
      (s : World) (key : CaptureKey)
      → current_capture_key env s t ≡ some key
      → str_eq (liveness_identity env key) identity ≡ false
      → (liveness_failed env settings t identity code now s).1 ≡ cleared s
  unfolding liveness_failed lock_transaction clear_claim
  failed_stale s key e other = rw (current_capture_key-make_folder env s t) (rw e (rw other refl))

  -- After a capture is accepted, in any later state with the same capture file, the last locked
  -- block of a liveness request for another identity raises STALE_EVALUATION; neither it nor the
  -- block for a failure of the provider changes any file of the transaction but the claim and the
  -- evaluation of that other identity. The digest of the image is taken not to be the empty text.
  pub liveness_finish_superseded :
      (registry : Registry) (up : Upload) (mime : String) (captured_at : ℕ) (s s1 s2 : World)
      (a : AttemptResult) (p : FilePath)
      → capture_locked env settings registry t up mime captured_at s ≡ (ok (accepted a), s1)
      → read s2 t capture_json ≡ read s1 t capture_json
      → str_eq (env.sha256_hex up.image) "" ≡ false
      → str_eq (liveness_identity env (key_of env up)) identity ≡ false
      → path_eq (evaluation_claim identity) p ≡ false
      → path_eq (evaluation identity) p ≡ false
      → ((liveness_finish env settings t identity payload fresh_id now s2).0
          ≡ err (api stale_evaluation))
        × (read (liveness_finish env settings t identity payload fresh_id now s2).1 t p
            ≡ read s2 t p)
        × (read (liveness_failed env settings t identity code now s2).1 t p ≡ read s2 t p)
  liveness_finish_superseded registry up mime captured_at s s1 s2 a p h same given other claim
        result =
      let new = capture_locked-IsNewCapture env settings registry t up mime captured_at s s1 a h in
      let key =
        current_capture_key_frame env s1 t s2 same
        ∙ IsNewCapture-key env settings registry t up mime captured_at new.0 given in
      let ends =
        liveness_finish-stale env settings t identity payload fresh_id now s2
          (ap (key_is env identity) key ∙ other) in
      (
        ap (λ (r : Result LivenessReply × World). r.0) ends,
        ap (λ (r : Result LivenessReply × World). read r.1 t p) ends ∙ kept_frame s2 p claim result,
        ap (λ w. read w t p) (failed_stale s2 (key_of env up) key other) ∙ cleared_frame s2 p claim,
      )
