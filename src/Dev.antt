-- ===== src/Dev.antt =====
-- POST /dev/test-decision: backend/app/api/v1/dev.py.
pub mod Submission
use live_photo_llm.Prelude.{ℕ, String, Bool, true}
use live_photo_llm.Python.{Env, nil, end}
use live_photo_llm.State.{Exec, pure, ◌>>=◌, ◌>>◌}
use live_photo_llm.Transactions.Status.{decision_ready}
use live_photo_llm.Transactions.Ids.{TxId}
use live_photo_llm.Transactions.Store.{update_transaction_status}
use live_photo_llm.Transactions.Decisions.{
  DecisionOutcome, DecisionRecord, pass, build_decision, write_decision,
}
use live_photo_llm.Integrations.Session.{Request, authorize}

pub record TestDecisionReply : Type 0 where
  pub decision_id : String
  pub outcome : DecisionOutcome
  pub submission_ready : Bool

module _ (env : Env) where
  -- The decision that the endpoint builds, given the fresh id.
  abbrev pub test_record : TxId → String → ℕ → DecisionRecord
  test_record t fresh_id now =
      build_decision fresh_id (env.isoformat now) t pass "test-only" "m5.8-dev" nil end

  abbrev pub write_test_decision : String → ℕ → TxId → Exec TestDecisionReply
  write_test_decision fresh_id now t = do
    write_decision t (test_record t fresh_id now)
    update_transaction_status env t decision_ready now
    pure (record { decision_id = fresh_id; outcome = pass; submission_ready = true })

  unfoldable pub test_decision : Request → String → Exec TestDecisionReply
  test_decision req fresh_id = do t ← authorize env req; write_test_decision fresh_id req.now t
