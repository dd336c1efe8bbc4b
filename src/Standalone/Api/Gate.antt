-- ===== src/Standalone/Api/Gate.antt =====
-- What lets a call of the standalone endpoints through.
use live_photo_llm.Prelude.{
  ℕ, String, true, false, Option, ◌≡◌, ◌∙◌, refl, sym, ap, arith, str_eq, inl, inr, Bool-cases,
}
use live_photo_llm.Python.{Json, Fields, Env, Bytes}
use live_photo_llm.State.{World, Error, Result-cases, ok, err, vlm, vlm_result}
use live_photo_llm.State.Inversion.{bind-ok}
use live_photo_llm.Settings.{Settings, vlm_experiment_available}
use live_photo_llm.Transactions.Ids.{TxId}
use live_photo_llm.Transactions.Store.{ArtifactReference, read_json, validate_transaction_id}
use live_photo_llm.Liveness.Evaluation.{ServiceAnswer}
use live_photo_llm.Browser.Common.{Meanwhile}
use live_photo_llm.Browser.Attempt.{Upload}
use live_photo_llm.Browser.Portrait.{FaceBoxes}
use live_photo_llm.Standalone.Processor.{PipelineEnd}
use live_photo_llm.Standalone.Api.{
  guard_experiment, known_transaction, create_experiment, get_artifact, evaluate_liveness,
  portrait_of, is_eligible, process_portrait,
}

module _ (env : Env) (settings : Settings) where
  available_not_production :
      str_eq settings.app_env "production" ≡ true → vlm_experiment_available settings ≡ false
  unfolding vlm_experiment_available
  available_not_production h = ground (arith, h)

  -- In production the four standalone endpoints answer VLM_DISABLED and change nothing.
  pub standalone_disabled :
      (up : Upload) (generate : ℕ → String) (name kind : String) (before meanwhile : Meanwhile)
      (answer : ServiceAnswer) (request_id : String) (boxes : FaceBoxes)
      (model : Option (Json → Bytes → PipelineEnd)) (now : ℕ) (s : World)
      → str_eq settings.app_env "production" ≡ true
      → (create_experiment env settings up generate now s ≡ (err (vlm "VLM_DISABLED"), s))
        × (get_artifact env settings name kind s ≡ (err (vlm "VLM_DISABLED"), s))
        × (evaluate_liveness env settings name before meanwhile answer request_id now s
            ≡ (err (vlm "VLM_DISABLED"), s))
        × (process_portrait env settings name boxes model now s ≡ (err (vlm "VLM_DISABLED"), s))
  unfolding create_experiment get_artifact evaluate_liveness process_portrait guard_experiment
  standalone_disabled up generate name kind before meanwhile answer request_id boxes model now s h =
      let off = available_not_production h in (rw off refl, rw off refl, rw off refl, rw off refl)

  unreadable :
      (t : TxId) (boxes : FaceBoxes) (model : Option (Json → Bytes → PipelineEnd)) (now : ℕ)
      (ref : ArtifactReference) (x : Error) (s s' : World)
      → read_json env s t vlm_result ≡ err x
      → portrait_of env settings t boxes model now s ≡ (ok ref, s')
      → ⊥
  unreadable t boxes model now ref x s s' e h = ground (arith, e, h)

  ineligible :
      (t : TxId) (boxes : FaceBoxes) (model : Option (Json → Bytes → PipelineEnd)) (now : ℕ)
      (ref : ArtifactReference) (result : Fields) (s s' : World)
      → read_json env s t vlm_result ≡ ok result
      → is_eligible env settings result ≡ false
      → portrait_of env settings t boxes model now s ≡ (ok ref, s')
      → ⊥
  ineligible t boxes model now ref result s s' e refused h = ground (arith, e, refused, h)

  portrait_of-eligible :
      (t : TxId) (boxes : FaceBoxes) (model : Option (Json → Bytes → PipelineEnd)) (now : ℕ)
      (ref : ArtifactReference) (s s' : World)
      → portrait_of env settings t boxes model now s ≡ (ok ref, s')
      → (result : Fields) × (read_json env s t vlm_result ≡ ok result)
        × (is_eligible env settings result ≡ true)
  portrait_of-eligible t boxes model now ref s s' h =
      elim (Result-cases (read_json env s t vlm_result)) [
        | inl (result, e) ↦ elim (Bool-cases (is_eligible env settings result)) [
          | inl eligible ↦ (result, e, eligible)
          | inr refused ↦ absurd (ineligible t boxes model now ref result s s' e refused h)
        ]
        | inr (x, e) ↦ absurd (unreadable t boxes model now ref x s s' e h)
      ]

  known_transaction-ok :
      (name : String) (t : TxId) (s s' : World)
      → known_transaction env settings name s ≡ (ok t, s')
      → (validate_transaction_id name ≡ ok t) × (s' ≡ s)
  known_transaction-ok name t s s' h = elim (Result-cases (validate_transaction_id name)) [
    | inl (u, e) ↦ (ground (arith, h, e), ground (arith, h, e))
    | inr (x, e) ↦ absurd (ground (arith, h, e))
  ]

  -- The standalone portrait endpoint returns only where the experiment is available and the stored
  -- result of the model for the transaction named is eligible for a portrait.
  pub process_portrait-eligible :
      (name : String) (boxes : FaceBoxes) (model : Option (Json → Bytes → PipelineEnd)) (now : ℕ)
      (ref : ArtifactReference) (s s' : World)
      → process_portrait env settings name boxes model now s ≡ (ok ref, s')
      → (vlm_experiment_available settings ≡ true)
        × (t : TxId) × (validate_transaction_id name ≡ ok t)
        × (result : Fields) × (read_json env s t vlm_result ≡ ok result)
        × (is_eligible env settings result ≡ true)
  unfolding process_portrait guard_experiment
  process_portrait-eligible name boxes model now ref s s' h =
      elim (Bool-cases (vlm_experiment_available settings)) [
        | inr off ↦ absurd (disabled off)
        | inl on ↦
            let (t, s1, h1, k1) =
              bind-ok (known_transaction env settings name)
                (λ t. portrait_of env settings t boxes model now) s (sym (rw on refl) ∙ h) in
            let (valid, kept) = known_transaction-ok name t s s1 h1 in
            let (result, read, eligible) =
              portrait_of-eligible t boxes model now ref s s'
                (ap (portrait_of env settings t boxes model now) (sym kept) ∙ k1) in
            (on, t, valid, result, read, eligible)
      ]
    where
      disabled : vlm_experiment_available settings ≡ false → ⊥
      disabled off =
          let stops : process_portrait env settings name boxes model now s
              ≡ (err (vlm "VLM_DISABLED"), s) =
            rw off refl in
          absurd (cc (sym stops ∙ h))
