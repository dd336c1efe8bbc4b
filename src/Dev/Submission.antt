-- ===== src/Dev/Submission.antt =====
-- What the decision of the test endpoint is worth to POST /browser/submit.
use mathlib.Core.Path.{subst}
use live_photo_llm.Prelude.{
  ℕ, String, true, false, Option, none, some, ◌≡◌, ◌∙◌, refl, sym, arith, str_eq, inl, inr,
}
use live_photo_llm.Python.{Env, Fields}
use live_photo_llm.State.{decision_json, document, World, Result-cases, ok}
use live_photo_llm.State.Inversion.{bind-ok}
use live_photo_llm.Transactions.Status.{decision_ready}
use live_photo_llm.Transactions.Ids.{TxId}
use live_photo_llm.Transactions.Store.{
  put, set_status, read_transaction_json, update_transaction_status,
}
use live_photo_llm.Transactions.Store.Laws.{file_laws}
use live_photo_llm.Transactions.Store.Statuses.{read-set_status}
use live_photo_llm.Transactions.Decisions.{dump_decision, write_decision}
use live_photo_llm.Transactions.Decisions.RoundTrip.{
  IsWellFormed, read_decision-document, name_given,
}
use live_photo_llm.Integrations.Session.{Request, authorize}
use live_photo_llm.Liveness.Capture.{CaptureKey, current_capture_key}
use live_photo_llm.Liveness.Binding.{has_current_canonical_pass, is_canonical_pass}
use live_photo_llm.Dev.{TestDecisionReply, test_record, write_test_decision, test_decision}

module _ (env : Env) (t : TxId) (fresh_id : String) (now : ℕ) where
  abbrev written : Fields → World → World
  written m s =
      set_status env t decision_ready now m
        (put s t decision_json (document (dump_decision (test_record env t fresh_id now))))

  write_inverts :
      (s s' : World) (r : TestDecisionReply)
      → write_test_decision env fresh_id now t s ≡ (ok r, s')
      → ((m : Fields) × (s' ≡ written m s)) × (r.submission_ready ≡ true)
  unfolding write_decision update_transaction_status
  write_inverts s s' r h =
      let w = put s t decision_json (document (dump_decision (test_record env t fresh_id now))) in
      elim (Result-cases (read_transaction_json env w t)) [
        | inl (m, e) ↦ ((m, ground arith), ground arith)
        | inr (x, e) ↦ absurd (ground arith)
      ]

  test_source :
      (key : Option CaptureKey)
      → is_canonical_pass env (some (test_record env t fresh_id now)) key ≡ false
  unfolding is_canonical_pass
  test_source none = refl
  test_source (some key) = refl

  test_record-IsWellFormed :
      str_eq fresh_id "" ≡ false → IsWellFormed (test_record env t fresh_id now)
  test_record-IsWellFormed e = record {
    id_given = e;
    transaction_given = name_given t;
    texts_only = refl;
  }

  no_pass_after :
      (m : Fields) (s : World)
      → str_eq fresh_id "" ≡ false
      → has_current_canonical_pass env (written m s) t ≡ false
  unfolding has_current_canonical_pass
  no_pass_after m s e =
      rw
        (read_decision-document env (written m s) t (test_record env t fresh_id now)
          (test_record-IsWellFormed e)
          (read-set_status env t decision_ready now m _ decision_json refl ∙ simp file_laws))
        (test_source (current_capture_key env (written m s) t))

-- Where the fresh id is not empty, a call of the test endpoint that returns says that a submission
-- is ready, and leaves the session's transaction without a current canonical PASS.
pub test_decision_not_ready :
    (env : Env) (req : Request) (fresh_id : String) (s s' : World) (r : TestDecisionReply)
    → test_decision env req fresh_id s ≡ (ok r, s')
    → str_eq fresh_id "" ≡ false
    → (r.submission_ready ≡ true)
      × ((t : TxId) × (s1 : World) × (authorize env req s ≡ (ok t, s1))
          × (has_current_canonical_pass env s' t ≡ false))
unfolding test_decision
test_decision_not_ready env req fresh_id s s' r h e =
    let (t, s1, who, done) =
      bind-ok (authorize env req) (write_test_decision env fresh_id req.now) s h in
    let ((m, same), ready) = write_inverts env t fresh_id req.now s1 s' r done in
    (
      ready,
      (
        t,
        s1,
        who,
        subst (λ w. has_current_canonical_pass env w t ≡ false) (sym same)
            (no_pass_after env t fresh_id req.now m s1 e),
      ),
    )
