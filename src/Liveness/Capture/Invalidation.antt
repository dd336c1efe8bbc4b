-- ===== src/Liveness/Capture/Invalidation.antt =====
-- What invalidate_authorization leaves to be read.
use live_photo_llm.Prelude.{
  true, false, Option, none, some, ◌≡◌, refl, inl, inr, if◌then◌else◌, Bool-cases, is_some, ◌∙◌,
}
use live_photo_llm.State.{
  FilePath, path_eq, World, Content, decision_json, portrait_authorization, portrait_processed,
  vlm_result, portrait_processing,
}
use live_photo_llm.Transactions.Ids.{TxId}
use live_photo_llm.Transactions.Store.{read, remove, artifact_exists}
use live_photo_llm.Transactions.Store.Laws.{read-remove}
use live_photo_llm.Liveness.Capture.{invalidated, authorization_artifacts}

pub none_of_missing : (o : Option Content) → is_some o ≡ false → o ≡ none
none_of_missing none e = refl
none_of_missing (some c) e = cc

abbrev removed : World → TxId → FilePath → World
removed s t p = if artifact_exists s t p then remove s t p else s

module _ (s : World) (t : TxId) (p : FilePath) where
  read-removed_self : path_eq p p ≡ true → read (removed s t p) t p ≡ none
  read-removed_self e = elim (Bool-cases (artifact_exists s t p)) [
    | inl there ↦ rw there (rw read-remove (rw e))
    | inr missing ↦ rw missing (unfold artifact_exists in none_of_missing (read s t p) missing)
  ]

  read-removed : (q : FilePath) → path_eq p q ≡ false → read (removed s t p) t q ≡ read s t q
  read-removed q e = elim (Bool-cases (artifact_exists s t p)) [
    | inl there ↦ rw there (rw read-remove (rw e))
    | inr missing ↦ rw missing
  ]

  -- A path that is gone stays gone.
  read-removed-none : (q : FilePath) → read s t q ≡ none → read (removed s t p) t q ≡ none
  read-removed-none q e = elim (Bool-cases (artifact_exists s t p)) [
    | inl there ↦
        rw there
          (rw read-remove (elim (Bool-cases (path_eq p q)) [ inl c ↦ rw c | inr c ↦ rw c e ]))
    | inr missing ↦ rw missing e
  ]

module _ (s : World) (t : TxId) where
  abbrev step1 : World
  step1 = removed s t decision_json

  abbrev step2 : World
  step2 = removed step1 t portrait_processed

  abbrev step3 : World
  step3 = removed step2 t portrait_processing

  abbrev step4 : World
  step4 = removed step3 t portrait_authorization

  -- No decision, no portrait and no authorization is left.
  pub read-invalidated_decision :
      read (invalidated authorization_artifacts s t) t decision_json ≡ none
  read-invalidated_decision = read-removed-none step4 t vlm_result _ (
      read-removed-none step3 t portrait_authorization _ (
        read-removed-none step2 t portrait_processing _ (
          read-removed-none step1 t portrait_processed _
            (read-removed_self s t decision_json refl))))

  pub read-invalidated_portrait :
      read (invalidated authorization_artifacts s t) t portrait_processed ≡ none
  read-invalidated_portrait = read-removed-none step4 t vlm_result _ (
      read-removed-none step3 t portrait_authorization _ (
        read-removed-none step2 t portrait_processing _
          (read-removed_self step1 t portrait_processed refl)))

  pub read-invalidated_authorization :
      read (invalidated authorization_artifacts s t) t portrait_authorization ≡ none
  read-invalidated_authorization =
      read-removed-none step4 t vlm_result _ (read-removed_self step3 t portrait_authorization refl)

  -- Other files stay.
  pub read-invalidated :
      (q : FilePath)
      → path_eq decision_json q ≡ false
      → path_eq portrait_processed q ≡ false
      → path_eq portrait_processing q ≡ false
      → path_eq portrait_authorization q ≡ false
      → path_eq vlm_result q ≡ false
      → read (invalidated authorization_artifacts s t) t q ≡ read s t q
  read-invalidated q e1 e2 e3 e4 e5 =
      read-removed step4 t vlm_result q e5
      ∙ (read-removed step3 t portrait_authorization q e4
          ∙ (read-removed step2 t portrait_processing q e3
              ∙ (read-removed step1 t portrait_processed q e2
                  ∙ read-removed s t decision_json q e1)))
