-- ===== src/Browser/Liveness.antt =====
-- POST /browser/liveness: backend/app/api/v1/browser.py. The provider is called between two locked
-- blocks, and other requests may run meanwhile.
pub mod Promotion
pub mod SingleFlight
pub mod Superseded
use live_photo_llm.Prelude.{
  ℕ, String, Bool, true, false, Option, none, some, str_eq, if◌then◌else◌, not,
}
use live_photo_llm.Python.{
  Json, bool, text, arr, Items, nil, cons, Fields, get, get_or, set, Env, truthy, as_text,
  list_or_empty,
}
use live_photo_llm.Prelude.{List, [], ◌∷◌}
use Prim.Native.String.{◌++◌}
use live_photo_llm.State.{
  World, Exec, Result, ok, err, Error, api, vlm, value_error, capture_not_ready,
  liveness_unavailable, liveness_in_progress, stale_evaluation, pure, raise, lift, gets, asks,
  modify, skip, raise_if, when, or_raise, evaluation, relative_path, ◌>>=◌, ◌>>◌,
}
use live_photo_llm.Settings.{Settings}
use live_photo_llm.Transactions.Status.{decision_ready}
use live_photo_llm.Transactions.Ids.{TxId}
use live_photo_llm.Transactions.Store.{lock_transaction, update_transaction_status}
use live_photo_llm.Transactions.Decisions.{
  DecisionOutcome, parse_outcome, build_decision, write_decision,
}
use live_photo_llm.Integrations.Session.{Request, authorize}
use live_photo_llm.Liveness.Capture.{CaptureKey, current_capture_key, liveness_identity}
use live_photo_llm.Liveness.Claims.{evaluating, is_claimed, claim_ready, set_claim, clear_claim}
use live_photo_llm.Liveness.Evaluation.{
  ServiceAnswer, is_current_evaluation, read_evaluation, evaluate_capture, persist_evaluation,
  persist_error_evaluation,
}
use live_photo_llm.Liveness.Binding.{
  liveness_decision_source, liveness_decision_version, decision_metadata_for,
}
use live_photo_llm.Browser.Common.{Meanwhile, terminal_blocked}

pub record LivenessReply : Type 0 where
  pub classification : Json
  pub outcome : DecisionOutcome
  pub portrait_allowed : Json
  pub reason_codes : Items

-- What the first locked block ends in: an answer from the cache, or a claim.
pub data Claimed : Type 0 where
  cached : LivenessReply → Claimed
  claimed : Claimed

-- `DecisionOutcome(payload["outcome"])`
abbrev pub outcome_in : Fields → Result DecisionOutcome
outcome_in payload = elim (as_text (get "outcome" payload)) [
  | none ↦ err value_error
  | some s ↦ or_raise (parse_outcome s) value_error
]

abbrev pub reply_of : Fields → DecisionOutcome → LivenessReply
reply_of payload outcome = record {
  classification = get "classification" payload;
  outcome = outcome;
  portrait_allowed = get_or "portrait_allowed" (bool false) payload;
  reason_codes = list_or_empty (get "reason_codes" payload);
}

-- `dict(evaluation, stale=True, promoted=False)`
abbrev pub stale_payload : Fields → Fields
stale_payload payload = set "promoted" (bool false) (set "stale" (bool true) payload)

abbrev pub key_is : Env → String → Option CaptureKey → Bool
key_is env identity none = false
key_is env identity (some key) = str_eq (liveness_identity env key) identity

module _ (env : Env) (settings : Settings) where
  abbrev pub reuse : Fields → Exec Claimed
  reuse payload = do
    raise_if (truthy env (get "error" payload)) (api liveness_unavailable)
    outcome ← lift (outcome_in payload)
    pure (cached (reply_of payload outcome))

  abbrev pub establish : TxId → String → ℕ → Exec Claimed
  establish t identity now = do
    busy ← gets (λ s. is_claimed s t evaluating identity)
    ready ← gets (λ s. claim_ready env settings now s t evaluating identity)
    when busy
        (if ready then clear_claim t evaluating identity else raise (api liveness_in_progress))
    set_claim env t evaluating identity now
    pure claimed

  abbrev pub claim_or_reuse : TxId → String → ℕ → Option Fields → Exec Claimed
  claim_or_reuse t identity now none = establish t identity now
  claim_or_reuse t identity now (some payload) =
      if is_current_evaluation env payload then reuse payload else establish t identity now

  -- The first locked block: the cache, then the claim.
  unfoldable pub liveness_claim : TxId → String → ℕ → Exec Claimed
  liveness_claim t identity now = do
    lock_transaction t
    found ← gets (λ s. read_evaluation env s t identity)
    claim_or_reuse t identity now found

  -- `_write_liveness_decision_bound`
  unfoldable pub write_liveness_decision :
      TxId → DecisionOutcome → Fields → String → String → ℕ → Exec Unit
  unfolding write_decision
  write_liveness_decision t outcome payload identity fresh_id now = do
    write_decision t (
        build_decision fresh_id (env.isoformat now) t outcome liveness_decision_source
          liveness_decision_version (cons (text (relative_path (evaluation identity))) nil)
          (decision_metadata_for payload identity))
    update_transaction_status env t decision_ready now

  -- What is left once the capture is seen to be the current one still.
  unfoldable pub liveness_promote : TxId → String → Fields → String → ℕ → Exec LivenessReply
  unfolding persist_evaluation write_liveness_decision
  liveness_promote t identity payload fresh_id now = do
    persist_evaluation t identity payload
    raise_if (truthy env (get "error" payload)) (api liveness_unavailable)
    outcome ← lift (outcome_in payload)
    write_liveness_decision t outcome payload identity fresh_id now
    pure (reply_of payload outcome)

  -- The last locked block: a capture that was superseded is never promoted.
  unfoldable pub liveness_finish : TxId → String → Fields → String → ℕ → Exec LivenessReply
  unfolding persist_evaluation
  liveness_finish t identity payload fresh_id now = do
    lock_transaction t
    now_key ← gets (λ s. current_capture_key env s t)
    clear_claim t evaluating identity
    if key_is env identity now_key
        then liveness_promote t identity payload fresh_id now
        else persist_evaluation t identity (stale_payload payload) >> raise (api stale_evaluation)

  -- The `except VlmError` block: the error is cached for a capture that is still the current one.
  unfoldable pub liveness_failed : TxId → String → String → ℕ → Exec LivenessReply
  unfolding persist_error_evaluation
  liveness_failed t identity code now = do
    lock_transaction t
    now_key ← gets (λ s. current_capture_key env s t)
    clear_claim t evaluating identity
    elim now_key [
      | none ↦ skip
      | some key ↦
          when (str_eq (liveness_identity env key) identity)
            (persist_error_evaluation env t identity key code now)
    ]
    raise (vlm code)

  abbrev after_provider : TxId → String → String → ℕ → Result Fields → Exec LivenessReply
  after_provider t identity fresh_id now (ok payload) =
      liveness_finish t identity payload fresh_id now
  after_provider t identity fresh_id now (err (vlm code)) = liveness_failed t identity code now
  after_provider t identity fresh_id now (err e) = raise e

  abbrev after_claim :
      Meanwhile → ServiceAnswer → TxId → CaptureKey → String → ℕ → Claimed → Exec LivenessReply
  after_claim meanwhile answer t key fresh_id now (cached reply) = pure reply
  after_claim meanwhile answer t key fresh_id now claimed = do
    result ← gets (evaluate_capture env settings t key answer now)
    modify meanwhile
    after_provider t (liveness_identity env key) fresh_id now result

  unfoldable pub browser_liveness :
      Request → Meanwhile → Meanwhile → ServiceAnswer → String → Exec LivenessReply
  browser_liveness req before meanwhile answer fresh_id = do
    t ← authorize env req
    terminal_blocked env t
    found ← gets (λ s. current_capture_key env s t)
    key ← lift (or_raise found (api capture_not_ready))
    modify before
    outcome ← liveness_claim t (liveness_identity env key) req.now
    after_claim meanwhile answer t key fresh_id req.now outcome
