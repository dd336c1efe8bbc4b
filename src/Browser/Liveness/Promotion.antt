-- ===== src/Browser/Liveness/Promotion.antt =====
-- Which evaluations become the canonical decision.
use mathlib.Core.Path.{subst}
use live_photo_llm.Prelude.{
  ℕ, String, Bool, true, false, some, ◌≡◌, ◌∙◌, refl, sym, ap, inl, inr, arith, str_eq, eq_refl,
  ◌&&◌,
}
use live_photo_llm.Python.{Env, Fields, text, cons, nil, get, option_text}
use live_photo_llm.State.{
  capture_json, decision_json, evaluation, evaluation_claim, relative_path, document, World,
  Result-cases, ok, err, api, stale_evaluation,
}
use live_photo_llm.Settings.{Settings}
use live_photo_llm.Transactions.Status.{decision_ready}
use live_photo_llm.Transactions.Ids.{TxId}
use live_photo_llm.Transactions.Store.{
  put, remove, read_transaction_json, set_status, update_transaction_status, make_folder,
  lock_transaction,
}
use live_photo_llm.Transactions.Store.Laws.{file_laws}
use live_photo_llm.Transactions.Store.Statuses.{read-set_status}
use live_photo_llm.Transactions.Decisions.{
  DecisionOutcome, DecisionRecord, is_pass, build_decision, write_decision, dump_decision,
}
use live_photo_llm.Transactions.Decisions.RoundTrip.{
  IsWellFormed, read_decision-document, name_given, parse_outcome-outcome_value,
}
use live_photo_llm.Liveness.Policy.{map_classification_to_outcome}
use live_photo_llm.Liveness.Policy.Eligibility.{is_pass-outcome}
use live_photo_llm.Liveness.Capture.{CaptureKey, current_capture_key, liveness_identity}
use live_photo_llm.Liveness.Claims.{clear_claim}
use live_photo_llm.Liveness.Evaluation.{
  ExperimentResult, success_payload, persist_evaluation, vlm_schema_version,
}
use live_photo_llm.Liveness.Binding.{
  has_current_canonical_pass, is_canonical_pass, metadata_matches, decision_metadata_for,
  liveness_decision_source, liveness_decision_version,
}
use live_photo_llm.Liveness.Binding.Frame.{
  current_capture_key_frame, current_capture_key-make_folder,
}
use live_photo_llm.Browser.Liveness.{
  LivenessReply, key_is, stale_payload, liveness_finish, liveness_promote, outcome_in,
}

module _ (env : Env) (settings : Settings) (t : TxId) (identity : String) (payload : Fields)
    (fresh_id : String) (now : ℕ) where
  abbrev pub claim_cleared : World → World
  claim_cleared s = remove (make_folder t s) t (evaluation_claim identity)

  -- Where the capture evaluated is no longer the current one, the evaluation is kept marked stale,
  -- its claim is cleared, the handler raises STALE_EVALUATION, and nothing else of the state
  -- changes but that the folder exists.
  pub liveness_finish-stale :
      (s : World)
      → key_is env identity (current_capture_key env s t) ≡ false
      → liveness_finish env settings t identity payload fresh_id now s ≡ (
        err (api stale_evaluation),
        put (claim_cleared s) t (evaluation identity) (document (stale_payload payload)),
      )
  unfolding liveness_finish lock_transaction clear_claim
  liveness_finish-stale s e = rw (current_capture_key-make_folder env s t) (rw e)

  abbrev decision : DecisionOutcome → DecisionRecord
  decision outcome =
      build_decision fresh_id (env.isoformat now) t outcome liveness_decision_source
        liveness_decision_version (cons (text (relative_path (evaluation identity))) nil)
        (decision_metadata_for payload identity)

  abbrev promoted : DecisionOutcome → World → World
  promoted outcome s =
      put (put s t (evaluation identity) (document payload)) t decision_json
        (document (dump_decision (decision outcome)))

  -- What a promotion that returned has written.
  pub liveness_promote-ok :
      (s s' : World) (r : LivenessReply)
      → liveness_promote env settings t identity payload fresh_id now s ≡ (ok r, s')
      → (m : Fields) × (s' ≡ set_status env t decision_ready now m (promoted r.outcome s))
        × (outcome_in payload ≡ ok r.outcome)
  unfolding liveness_promote write_decision update_transaction_status persist_evaluation
  liveness_promote-ok s s' r h = elim (Result-cases (outcome_in payload)) [
    | inl (o, eo) ↦ elim (Result-cases (read_transaction_json env (promoted o s) t)) [
      | inl (m, em) ↦ (m, ground arith, ground arith)
      | inr (x, ex) ↦ absurd (ground arith)
    ]
    | inr (x, ex) ↦ absurd (ground arith)
  ]

and_self : (b : Bool) → (b && true && b) ≡ b
and_self true = refl
and_self false = refl

module _ (env : Env) (settings : Settings) (t : TxId) (key : CaptureKey) (r : ExperimentResult)
    (started fresh_id : String) (now : ℕ) where
  abbrev payload_r : Fields
  payload_r = success_payload env r key started

  abbrev outcome_r : DecisionOutcome
  outcome_r =
      map_classification_to_outcome (option_text r.classification) (option_text r.subject_count)
        (option_text r.secondary_person_state)

  outcome_in-success_payload : outcome_in payload_r ≡ ok outcome_r
  unfolding success_payload get
  outcome_in-success_payload = rw parse_outcome-outcome_value

  metadata-success_payload :
      str_eq r.schema vlm_schema_version ≡ true
      → metadata_matches env (decision_metadata_for payload_r (liveness_identity env key)) key
        ≡ is_pass outcome_r
  unfolding metadata_matches decision_metadata_for success_payload get
  metadata-success_payload e = rw e (
      simp eq_refl (
        sym (
          is_pass-outcome (option_text r.classification) (option_text r.subject_count)
            (option_text r.secondary_person_state))))

  decision_r : DecisionOutcome → DecisionRecord
  decision_r = decision env settings t (liveness_identity env key) payload_r fresh_id now

  abbrev after : DecisionOutcome → World → World
  after = promoted env settings t (liveness_identity env key) payload_r fresh_id now

  decision-IsWellFormed :
      (o : DecisionOutcome) → str_eq fresh_id "" ≡ false → IsWellFormed (decision_r o)
  unfolding decision_r
  decision-IsWellFormed o e = record {
    id_given = e;
    transaction_given = name_given t;
    texts_only = refl;
  }

  -- What a promoted evaluation leaves behind for a later check.
  is_canonical_pass-decision :
      (o : DecisionOutcome)
      → str_eq r.schema vlm_schema_version ≡ true
      → is_pass o ≡ is_pass outcome_r
      → is_canonical_pass env (some (decision_r o)) (some key) ≡ is_pass o
  unfolding decision_r is_canonical_pass
  is_canonical_pass-decision o e same =
      rw (metadata-success_payload e) (rw (← same) (and_self (is_pass o)))

  pass_after :
      (m : Fields) (s : World) (o : DecisionOutcome)
      → current_capture_key env s t ≡ some key
      → str_eq r.schema vlm_schema_version ≡ true
      → str_eq fresh_id "" ≡ false
      → is_pass o ≡ is_pass outcome_r
      → has_current_canonical_pass env (set_status env t decision_ready now m (after o s)) t
        ≡ is_pass o
  unfolding has_current_canonical_pass decision_r
  pass_after m s o ek es ei same =
      let w = set_status env t decision_ready now m (after o s) in
      let keep = read-set_status env t decision_ready now m (after o s) in
      rw
        (read_decision-document env w t (decision_r o) (decision-IsWellFormed o ei)
          (keep decision_json refl ∙ simp file_laws))
        (rw (current_capture_key_frame env s t w (keep capture_json refl ∙ simp file_laws))
          (rw ek (is_canonical_pass-decision o es same)))

  -- Where the answer of the model has the current schema, the capture is the current one and the
  -- fresh decision id is not empty, a promotion that returns makes the transaction have a current
  -- canonical PASS exactly where the reply says PASS, and the reply's outcome is the policy's
  -- outcome for the answer.
  pub liveness_promote-pass :
      (s s' : World) (reply : LivenessReply)
      → current_capture_key env s t ≡ some key
      → str_eq r.schema vlm_schema_version ≡ true
      → str_eq fresh_id "" ≡ false
      → liveness_promote env settings t (liveness_identity env key) payload_r fresh_id now s
        ≡ (ok reply, s')
      → (has_current_canonical_pass env s' t ≡ is_pass reply.outcome) × (reply.outcome ≡ outcome_r)
  liveness_promote-pass s s' reply ek es ei h =
      let (m, same, out) =
        liveness_promote-ok env settings t (liveness_identity env key) payload_r fresh_id now s s'
          reply h in
      let agrees : reply.outcome ≡ outcome_r = cc (out, outcome_in-success_payload) in
      (
        subst (λ w. has_current_canonical_pass env w t ≡ is_pass reply.outcome) (sym same)
            (pass_after m s reply.outcome ek es ei (ap is_pass agrees)),
        agrees,
      )
