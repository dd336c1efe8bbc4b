-- ===== src/Standalone/Processor/Restore.antt =====
-- The status after a run of the processor that failed.
use live_photo_llm.Prelude.{
  ℕ, String, Bool, true, false, Option, none, some, ◌≡◌, ◌∙◌, refl, sym, ap, arith, not, str_eq,
  inl, inr, Bool-cases, ◌&&◌, if◌then◌else◌,
}
use live_photo_llm.Python.{text, Fields, Env, Bytes, get_or, str_of, dict_laws}
use live_photo_llm.State.{
  modify, raise, World, Exec, Result, ok, err, portrait, selected_original, transaction_json,
  document, asks, lift, catch, or_raise, ◌>>=◌,
}
use live_photo_llm.State.Inversion.{bind-from, catch-err}
use live_photo_llm.Settings.{Settings}
use live_photo_llm.Transactions.Status.{TransactionStatus, from_value, is_terminal}
use live_photo_llm.Transactions.Ids.{TxId}
use live_photo_llm.Transactions.Store.{
  ArtifactReference, read_artifact, read_json, read_transaction_json, transaction_exists_at,
  current_status, stamp_status, is_kept, set_status, put, update_transaction_status,
}
use live_photo_llm.Transactions.Store.Laws.{read-put}
use live_photo_llm.Transactions.Store.Statuses.{
  status_at, current_status-stamp, read-set_status, status_at-set_status,
}
use live_photo_llm.Standalone.Processor.{
  PipelineEnd, failing, is_blocked, restore_status, failed, run_pipeline, store_portrait,
  process_from, process,
}

module _ (env : Env) (settings : Settings) (t : TxId) (now : ℕ) where
  abbrev status_text : Fields → String
  status_text m = str_of env (get_or "status" (text "") m)

  updated :
      (st : TransactionStatus) (m : Fields) (s : World)
      → read_transaction_json env s t ≡ ok m
      → update_transaction_status env t st now s ≡ (ok tt, set_status env t st now m s)
  unfolding update_transaction_status
  updated st m s e = ground (arith, e)

  abbrev running : Fields → World → World
  running m s = set_status env t TransactionStatus.portrait_processing now m s

  abbrev running_metadata : Fields → Fields
  running_metadata m =
      if is_kept env TransactionStatus.portrait_processing m
      then m
      else stamp_status env "PORTRAIT_PROCESSING" (env.isoformat now) m

  running_read :
      (m : Fields) (s : World)
      → read_transaction_json env s t ≡ ok m
      → read_transaction_json env (running m s) t ≡ ok (running_metadata m)
  unfolding set_status
  running_read m s e = elim (Bool-cases (is_kept env TransactionStatus.portrait_processing m)) [
    | inl kept ↦ rw kept e
    | inr moved ↦ rw moved (unfold read_transaction_json read_json in simp read-put)
  ]

  image_kept :
      (m : Fields) (s : World) (image : Bytes)
      → read_artifact env s t selected_original ≡ ok image
      → read_artifact env (running m s) t selected_original ≡ ok image
  unfolding read_artifact
  image_kept m s image e =
      rw
        (read-set_status env t TransactionStatus.portrait_processing now m s selected_original refl)
        e

  current_is : (m : Fields) → current_status env m ≡ from_value (status_text m)
  unfolding current_status
  current_is m = refl

  and_not : (b : Bool) → (b && not b) ≡ false
  and_not true = refl
  and_not false = refl

  -- The status that the run found may be written back.
  unblocked : (m : Fields) → is_blocked env settings (status_text m) (running_metadata m) ≡ false
  unblocked m = elim (Bool-cases (is_kept env TransactionStatus.portrait_processing m)) [
    | inl kept ↦ rw kept (rw (current_is m) (and_not (is_terminal (from_value (status_text m)))))
    | inr moved ↦ rw moved (
        rw (current_status-stamp env TransactionStatus.portrait_processing (env.isoformat now) m)
          refl)
  ]

  restored :
      (m : Fields) (s : World)
      → read_transaction_json env s t ≡ ok (running_metadata m)
      → restore_status env settings t (status_text m) now s ≡ (
        ok tt,
        put s t transaction_json
            (document (stamp_status env (status_text m) (env.isoformat now) (running_metadata m))),
      )
  unfolding restore_status
  restored m s e =
      bind-from (asks (λ w. read_transaction_json env w t))
        (λ metadata. modify (λ w.
          if is_blocked env settings (status_text m) metadata
          then w
          else put w t transaction_json
              (document (stamp_status env (status_text m) (env.isoformat now) metadata))))
        s (λ i. (e i, s))
      ∙ rw (unblocked m) refl

  status_at-put :
      (status : String) (m : Fields) (s : World)
      → status_at env
          (put s t transaction_json (document (stamp_status env status (env.isoformat now) m)))
          t
        ≡ from_value status
  unfolding status_at read_transaction_json read_json current_status get_or
  status_at-put status m s = simp (read-put, dict_laws)

  abbrev restored_state : Fields → World → World
  restored_state m s =
      put (running m s) t transaction_json
        (document (stamp_status env (status_text m) (env.isoformat now) (running_metadata m)))

  status_at-read :
      (s : World) (m : Fields)
      → read_transaction_json env s t ≡ ok m
      → status_at env s t ≡ current_status env m
  unfolding status_at
  status_at-read s m e = rw e refl

  opened :
      (model : Option (Bytes → PipelineEnd)) (m : Fields) (s : World)
      → settings.portrait_processing_enabled ≡ true
      → transaction_exists_at s t ≡ true
      → read_transaction_json env s t ≡ ok m
      → process env settings t now model s ≡ process_from env settings t now model m s
  unfolding process
  opened model m s on known e =
      rw (on, known)
        (bind-from (asks (λ w. read_transaction_json env w t))
          (process_from env settings t now model) s (λ i. (e i, s)))

  abbrev modelled : Option (Bytes → PipelineEnd) → Fields → Exec ArtifactReference
  modelled model m = do
    pipeline ← lift (or_raise model (portrait "PORTRAIT_MODEL_UNAVAILABLE"))
    catch (run_pipeline env settings t now pipeline) (failed env settings t (status_text m) now)

  running_from :
      (model : Option (Bytes → PipelineEnd)) (m : Fields) (s : World)
      → read_transaction_json env s t ≡ ok m
      → process_from env settings t now model m s ≡ modelled model m (running m s)
  running_from model m s e =
      bind-from (update_transaction_status env t TransactionStatus.portrait_processing now)
        (λ _. modelled model m) s (updated TransactionStatus.portrait_processing m s e)

  run_fails :
      (pipeline : Bytes → PipelineEnd) (image : Bytes) (m : Fields) (s : World)
      → read_artifact env s t selected_original ≡ ok image
      → pipeline image ≡ failing (portrait "PORTRAIT_QUALITY_FAILED")
      → run_pipeline env settings t now pipeline (running m s)
        ≡ (err (portrait "PORTRAIT_QUALITY_FAILED"), running m s)
  run_fails pipeline image m s found fails =
      bind-from (asks (λ w. read_artifact env w t selected_original))
        (λ b. store_portrait env settings t now (pipeline b)) (running m s)
        (λ i. (image_kept m s image found i, running m s))
      ∙ rw fails refl

  quality_handled :
      (m : Fields) (s : World)
      → str_eq (status_text m) "" ≡ false
      → read_transaction_json env (running m s) t ≡ ok (running_metadata m)
      → failed env settings t (status_text m) now (portrait "PORTRAIT_QUALITY_FAILED") (running m s)
        ≡ (err (portrait "PORTRAIT_QUALITY_FAILED"), restored_state m s)
  quality_handled m s given e = rw given (
      bind-from (restore_status env settings t (status_text m) now)
        (λ _. raise (portrait "PORTRAIT_QUALITY_FAILED")) (running m s)
        (restored m (running m s) e))

  -- Where portrait processing is enabled, the transaction's metadata can be read and have a
  -- status, and its capture is there, a run of the processor whose pipeline fails with
  -- PORTRAIT_QUALITY_FAILED raises that error and leaves the transaction in the status it had.
  pub quality_failure_restores :
      (pipeline : Bytes → PipelineEnd) (image : Bytes) (m : Fields) (s : World)
      → settings.portrait_processing_enabled ≡ true
      → transaction_exists_at s t ≡ true
      → read_transaction_json env s t ≡ ok m
      → str_eq (status_text m) "" ≡ false
      → read_artifact env s t selected_original ≡ ok image
      → pipeline image ≡ failing (portrait "PORTRAIT_QUALITY_FAILED")
      → let (r, s') = process env settings t now (some pipeline) s in
        (r ≡ err (portrait "PORTRAIT_QUALITY_FAILED")) × (status_at env s' t ≡ status_at env s t)
  quality_failure_restores pipeline image m s on known e given found fails =
      let ends =
        opened (some pipeline) m s on known e
        ∙ (running_from (some pipeline) m s e
            ∙ (catch-err (run_pipeline env settings t now pipeline)
                  (failed env settings t (status_text m) now) (running m s)
                  (run_fails pipeline image m s found fails)
                ∙ quality_handled m s given (running_read m s e))) in
      (
        ap (λ (p : Result ArtifactReference × World). p.0) ends,
        ap (λ (p : Result ArtifactReference × World). status_at env p.1 t) ends
            ∙ (status_at-put (status_text m) (running_metadata m) (running m s)
                ∙ (sym (current_is m) ∙ sym (status_at-read s m e))),
      )

  -- Where portrait processing is enabled, the transaction's metadata can be read and its status is
  -- not terminal, a run of the processor without a configured model raises
  -- PORTRAIT_MODEL_UNAVAILABLE and leaves the transaction in the status PORTRAIT_PROCESSING.
  pub unavailable_model :
      (m : Fields) (s : World)
      → settings.portrait_processing_enabled ≡ true
      → transaction_exists_at s t ≡ true
      → read_transaction_json env s t ≡ ok m
      → is_terminal (status_at env s t) ≡ false
      → let (r, s') = process env settings t now none s in
        (r ≡ err (portrait "PORTRAIT_MODEL_UNAVAILABLE"))
        × (status_at env s' t ≡ TransactionStatus.portrait_processing)
  unavailable_model m s on known e unfinished =
      let ends = opened none m s on known e ∙ running_from none m s e in
      let free : is_kept env TransactionStatus.portrait_processing m ≡ false =
        not_kept m (sym (ap is_terminal (status_at-read s m e)) ∙ unfinished) in
      (
        ap (λ (p : Result ArtifactReference × World). p.0) ends,
        ap (λ (p : Result ArtifactReference × World). status_at env p.1 t) ends
            ∙ (status_at-set_status env t TransactionStatus.portrait_processing now m s e
                ∙ rw free refl),
      )
    where
      not_kept :
          (m : Fields)
          → is_terminal (current_status env m) ≡ false
          → is_kept env TransactionStatus.portrait_processing m ≡ false
      not_kept m h = rw h refl
