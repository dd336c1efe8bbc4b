-- ===== src/Browser/Portrait/Superseded.antt =====
-- A capture between the two locked blocks of POST /browser/portrait.
use live_photo_llm.Prelude.{ℕ, String, false, ◌≡◌, ◌∙◌, refl, ap, eq_refl}
use live_photo_llm.Python.{Env}
use live_photo_llm.State.{
  FilePath, path_eq, decision_json, portrait_claim, portrait_candidate, World, Result, ok, err, api,
  stale_portrait,
}
use live_photo_llm.Settings.{Settings}
use live_photo_llm.Transactions.Ids.{TxId}
use live_photo_llm.Transactions.Store.{read, remove}
use live_photo_llm.Integrations.Attempts.{AttemptResult}
use live_photo_llm.Integrations.Consumers.{Registry}
use live_photo_llm.Liveness.Binding.{Snapshot, has_current_canonical_pass, snapshot_matches_current}
use live_photo_llm.Liveness.Binding.Frame.{no_decision_no_pass}
use live_photo_llm.Browser.Attempt.{Upload, accepted, capture_locked}
use live_photo_llm.Browser.Attempt.Revocation.{capture_locked-IsNewCapture}
use live_photo_llm.Browser.Portrait.{PortraitReply, portrait_finish}
use live_photo_llm.Browser.Portrait.Binding.{cleared, portrait_finish-stale}

module _ (env : Env) (settings : Settings) (t : TxId) (snapshot : Snapshot) (now : ℕ) where
  no_pass_no_match :
      (s : World)
      → has_current_canonical_pass env s t ≡ false
      → snapshot_matches_current env s t snapshot ≡ false
  unfolding snapshot_matches_current
  no_pass_no_match s e = rw e refl

  discarded_frame :
      (s : World) (p : FilePath)
      → path_eq (portrait_claim snapshot.identity) p ≡ false
      → path_eq (portrait_candidate snapshot.identity) p ≡ false
      → read
          (remove (cleared env settings t snapshot now s) t (portrait_candidate snapshot.identity))
          t
          p
        ≡ read s t p
  unfolding read remove
  discarded_frame s p claim candidate = rw eq_refl (rw claim (rw candidate refl))

  -- After a capture is accepted, in any later state with the same decision file, the last locked
  -- block of a portrait request raises STALE_PORTRAIT, whatever its snapshot is, and changes no
  -- file of the transaction but the claim and the candidate of that snapshot.
  pub portrait_finish_superseded :
      (registry : Registry) (up : Upload) (mime : String) (captured_at : ℕ) (s s1 s2 : World)
      (a : AttemptResult) (p : FilePath)
      → capture_locked env settings registry t up mime captured_at s ≡ (ok (accepted a), s1)
      → read s2 t decision_json ≡ read s1 t decision_json
      → path_eq (portrait_claim snapshot.identity) p ≡ false
      → path_eq (portrait_candidate snapshot.identity) p ≡ false
      → ((portrait_finish env settings t snapshot now s2).0 ≡ err (api stale_portrait))
        × (read (portrait_finish env settings t snapshot now s2).1 t p ≡ read s2 t p)
  portrait_finish_superseded registry up mime captured_at s s1 s2 a p h same claim candidate =
      let new = capture_locked-IsNewCapture env settings registry t up mime captured_at s s1 a h in
      let none_left = same ∙ new.0.no_decision in
      let ends =
        portrait_finish-stale env settings t snapshot now s2
          (no_pass_no_match s2 (no_decision_no_pass env s2 t none_left)) in
      (
        ap (λ (r : Result PortraitReply × World). r.0) ends,
        ap (λ (r : Result PortraitReply × World). read r.1 t p) ends
            ∙ discarded_frame s2 p claim candidate,
      )
