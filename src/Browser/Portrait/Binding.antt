-- ===== src/Browser/Portrait/Binding.antt =====
-- Which portraits are served: the last locked block of POST /browser/portrait.
use mathlib.Core.Path.{subst}
use live_photo_llm.Prelude.{
  ℕ, String, true, false, some, ◌≡◌, ◌∙◌, refl, sym, arith, eq_iff, eq_refl, inl, inr, Option-cases,
}
use live_photo_llm.Python.{Env, Fields, get, Bytes}
use live_photo_llm.State.{
  FilePath, path_eq, capture_json, decision_json, portrait_processed, portrait_authorization,
  portrait_candidate, portrait_claim, document, blob, World, Result-cases, ok, err, api,
  stale_portrait,
}
use live_photo_llm.Settings.{Settings}
use live_photo_llm.Transactions.Status.{portrait_ready}
use live_photo_llm.Transactions.Ids.{TxId}
use live_photo_llm.Transactions.Store.{
  read, put, remove, read_artifact, read_json, artifact_exists, read_transaction_json, set_status,
  update_transaction_status, make_folder, lock_transaction, write_artifact, remove_artifact,
}
use live_photo_llm.Transactions.Store.Laws.{file_laws}
use live_photo_llm.Transactions.Store.Statuses.{read-set_status}
use live_photo_llm.Transactions.Decisions.{DecisionRecord, read_decision}
use live_photo_llm.Liveness.Capture.{CaptureKey, current_capture_key, liveness_identity}
use live_photo_llm.Liveness.Claims.{clear_claim}
use live_photo_llm.Liveness.Binding.{
  Snapshot, has_current_canonical_pass, snapshot_matches_current, is_same_snapshot,
  authorization_fields, write_portrait_authorization, authorization_matches, is_authorized,
  portrait_authorization_current,
}
use live_photo_llm.Liveness.Binding.Frame.{
  read_decision_frame, current_capture_key_frame, has_current_canonical_pass_frame,
}
use live_photo_llm.Browser.Portrait.{PortraitReply, portrait_finish}

-- The snapshot a portrait was made for is the current decision and capture.
same_snapshot_matches :
    (env : Env) (d : DecisionRecord) (key : CaptureKey) (snapshot : Snapshot) (sha now : String)
    → is_same_snapshot env (some d) (some key) snapshot ≡ true
    → authorization_matches env (authorization_fields env snapshot sha now) d key sha ≡ true
unfolding authorization_matches get
same_snapshot_matches env d key snapshot sha now h = ground (
  arith,
  h,
  eq_iff d.decision_id snapshot.decision_id,
  eq_iff snapshot.decision_id d.decision_id,
  eq_iff key.attempt_id snapshot.key.attempt_id,
  eq_iff snapshot.key.attempt_id key.attempt_id,
  eq_iff key.selected_sha256 snapshot.key.selected_sha256,
  eq_iff snapshot.key.selected_sha256 key.selected_sha256,
  eq_iff (liveness_identity env key) snapshot.identity,
  eq_iff snapshot.identity (liveness_identity env key),
  eq_refl sha,
)

module _ (env : Env) (settings : Settings) (t : TxId) (snapshot : Snapshot) (now : ℕ) where
  abbrev pub cleared : World → World
  cleared s = remove (make_folder t s) t (portrait_claim snapshot.identity)

  matches_frame :
      (s s' : World)
      → read s' t decision_json ≡ read s t decision_json
      → read s' t capture_json ≡ read s t capture_json
      → snapshot_matches_current env s' t snapshot ≡ snapshot_matches_current env s t snapshot
  unfolding snapshot_matches_current
  matches_frame s s' d c =
      rw (has_current_canonical_pass_frame env s t s' d c)
        (rw (read_decision_frame env s t s' d) (rw (current_capture_key_frame env s t s' c)))

  read-cleared :
      (s : World) (p : FilePath)
      → path_eq (portrait_claim snapshot.identity) p ≡ false
      → read (cleared s) t p ≡ read s t p
  unfolding read remove
  read-cleared s p e = rw eq_refl (rw e)

  matches-cleared :
      (s : World)
      → snapshot_matches_current env (cleared s) t snapshot
        ≡ snapshot_matches_current env s t snapshot
  matches-cleared s =
      matches_frame s (cleared s) (read-cleared s decision_json refl)
        (read-cleared s capture_json refl)

  -- Where the snapshot is no longer the current decision and capture, the candidate and the claim
  -- are removed, the handler raises STALE_PORTRAIT, and nothing else of the state changes but that
  -- the folder exists.
  pub portrait_finish-stale :
      (s : World)
      → snapshot_matches_current env s t snapshot ≡ false
      → portrait_finish env settings t snapshot now s
        ≡ (err (api stale_portrait), remove (cleared s) t (portrait_candidate snapshot.identity))
  unfolding portrait_finish lock_transaction clear_claim remove_artifact
  portrait_finish-stale s e = rw (matches-cleared s) (rw e)

  -- What is written for a candidate that is published.
  abbrev published : Bytes → World → World
  published b s =
      put
        (remove (put (cleared s) t portrait_processed (blob b)) t
          (portrait_candidate snapshot.identity))
        t portrait_authorization
        (document (authorization_fields env snapshot (env.sha256_hex b) (env.isoformat now)))

  -- What the reply of the last locked block comes from.
  record IsPublished (s s' : World) (r : PortraitReply) : Type 0 where
    bytes : Bytes
    metadata : Fields
    is_current : snapshot_matches_current env s t snapshot ≡ true
    is_candidate : read_artifact env (cleared s) t (portrait_candidate snapshot.identity) ≡ ok bytes
    is_written : s' ≡ set_status env t portrait_ready now metadata (published bytes s)
    is_named : r.sha256 ≡ env.sha256_hex bytes

  finish_inverts :
      (s s' : World) (r : PortraitReply)
      → portrait_finish env settings t snapshot now s ≡ (ok r, s')
      → IsPublished s s' r
  unfolding portrait_finish lock_transaction clear_claim remove_artifact write_artifact
      write_portrait_authorization update_transaction_status
  finish_inverts s s' r h =
      elim (Result-cases (read_artifact env (cleared s) t (portrait_candidate snapshot.identity))) [
        | inr (x, e) ↦ absurd (ground arith)
        | inl (b, e) ↦ elim (Result-cases (read_transaction_json env (published b s) t)) [
          | inr (x, ex) ↦ absurd (ground arith)
          | inl (m, em) ↦ record {
            bytes = b;
            metadata = m;
            is_current = sym (matches-cleared s) ∙ ground arith;
            is_candidate = e;
            is_written = ground arith;
            is_named = ground arith;
          }
        ]
      ]

  record IsCurrent (s : World) : Type 0 where
    decision : DecisionRecord
    key : CaptureKey
    has_pass : has_current_canonical_pass env s t ≡ true
    has_decision : read_decision env s t ≡ some decision
    has_key : current_capture_key env s t ≡ some key
    is_same : is_same_snapshot env (some decision) (some key) snapshot ≡ true

  matched-IsCurrent : (s : World) → snapshot_matches_current env s t snapshot ≡ true → IsCurrent s
  unfolding snapshot_matches_current
  matched-IsCurrent s h = elim (Option-cases (read_decision env s t)) [
    | inl none_there ↦ absurd (ground (arith, none_there))
    | inr (d, ed) ↦ elim (Option-cases (current_capture_key env s t)) [
      | inl none_there ↦ absurd (ground (arith, ed, none_there))
      | inr (k, ek) ↦ record {
        decision = d;
        key = k;
        has_pass = ground (arith, ed, ek);
        has_decision = ed;
        has_key = ek;
        is_same = ground (arith, ed, ek);
      }
    ]
  ]

  published_decision :
      (b : Bytes) (s : World) → read (published b s) t decision_json ≡ read s t decision_json
  unfolding read
  published_decision b s = simp file_laws

  published_capture :
      (b : Bytes) (s : World) → read (published b s) t capture_json ≡ read s t capture_json
  unfolding read
  published_capture b s = simp file_laws

  authorized_after :
      (m : Fields) (b : Bytes) (s : World)
      → IsCurrent s
      → portrait_authorization_current env (set_status env t portrait_ready now m (published b s)) t
        ≡ true
  unfolding portrait_authorization_current is_authorized artifact_exists read_json read_artifact
  authorized_after m b s c =
      let w = set_status env t portrait_ready now m (published b s) in
      let keep = read-set_status env t portrait_ready now m (published b s) in
      let d = keep decision_json refl ∙ published_decision b s in
      let k = keep capture_json refl ∙ published_capture b s in
      let a : read w t portrait_authorization
          ≡ some (
              document (authorization_fields env snapshot (env.sha256_hex b) (env.isoformat now))) =
        keep portrait_authorization refl ∙ simp file_laws in
      let p : read w t portrait_processed ≡ some (blob b) =
        keep portrait_processed refl ∙ simp file_laws in
      rw (has_current_canonical_pass_frame env s t w d k) (
        rw c.has_pass (
          rw a (
            rw p (
              rw (read_decision_frame env s t w d) (
                rw (current_capture_key_frame env s t w k) (
                  rw c.has_decision (
                    rw c.has_key (
                      same_snapshot_matches env c.decision c.key snapshot (env.sha256_hex b)
                        (env.isoformat now) c.is_same))))))))

  -- A portrait that the last locked block publishes was made for the decision and capture that are
  -- still current; afterwards the stored portrait is authorized for them, and the reply names the
  -- digest of the bytes stored.
  pub portrait_finish-authorized :
      (s s' : World) (r : PortraitReply)
      → portrait_finish env settings t snapshot now s ≡ (ok r, s')
      → (portrait_authorization_current env s' t ≡ true)
        × (b : Bytes) × (read s' t portrait_processed ≡ some (blob b))
        × (r.sha256 ≡ env.sha256_hex b)
        × (snapshot_matches_current env s t snapshot ≡ true)
  portrait_finish-authorized s s' r h =
      let i = finish_inverts s s' r h in
      (
        subst (λ w. portrait_authorization_current env w t ≡ true) (sym i.is_written)
            (authorized_after i.metadata i.bytes s (matched-IsCurrent s i.is_current)),
        i.bytes,
        subst (λ w. read w t portrait_processed ≡ some (blob i.bytes)) (sym i.is_written)
            (read-set_status env t portrait_ready now i.metadata (published i.bytes s)
                portrait_processed refl
              ∙ simp file_laws),
        i.is_named,
        i.is_current,
      )
