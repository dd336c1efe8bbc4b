-- ===== src/Transactions/Decisions/RoundTrip.antt =====
-- A decision that was written reads back.
use mathlib.Core.Path.{subst}
use live_photo_llm.Prelude.{true, false, some, ◌≡◌, refl, str_eq, eq_iff, inl, inr, Bool-cases}
use live_photo_llm.Python.{Env, get, has_key}
use live_photo_llm.State.{World, decision_json, document}
use live_photo_llm.Transactions.Ids.{TxId, is_valid_transaction_id}
use live_photo_llm.Transactions.Store.{read, artifact_exists, read_json}
use live_photo_llm.Transactions.Decisions.{
  DecisionOutcome, outcome_value, parse_outcome, DecisionRecord, all_texts, validate_decision,
  dump_decision, read_decision, pass,
}

pub parse_outcome-outcome_value : (o : DecisionOutcome) → parse_outcome (outcome_value o) ≡ some o
parse_outcome-outcome_value pass = refl
parse_outcome-outcome_value _ = refl

-- The ids that the backend makes are not empty, and the evidence is a list of texts.
pub record IsWellFormed (d : DecisionRecord) : Type 0 where
  pub id_given : str_eq d.decision_id "" ≡ false
  pub transaction_given : str_eq d.transaction_id "" ≡ false
  pub texts_only : all_texts d.evidence_refs ≡ true

-- Validating the dump of a decision gives the decision, where its two ids are not empty and its
-- evidence is a list of texts.
pub validate-dump_decision :
    (d : DecisionRecord) → IsWellFormed d → validate_decision (dump_decision d) ≡ some d
unfolding validate_decision dump_decision get has_key
validate-dump_decision d h =
    rw h.id_given (rw h.transaction_given (rw parse_outcome-outcome_value (rw h.texts_only)))

pub read_decision-document :
    (env : Env) (s : World) (t : TxId) (d : DecisionRecord)
    → IsWellFormed d
    → read s t decision_json ≡ some (document (dump_decision d))
    → read_decision env s t ≡ some d
unfolding read_decision artifact_exists read_json
read_decision-document env s t d h e = rw e (validate-dump_decision d h)

-- The id of a transaction is not empty.
pub name_given : (t : TxId) → str_eq t.name "" ≡ false
unfolding is_valid_transaction_id
name_given t = elim (Bool-cases (str_eq t.name "")) [
  | inl e ↦
      let bad : is_valid_transaction_id "" ≡ true =
        subst (λ n. is_valid_transaction_id n ≡ true) ((eq_iff t.name "").0 e) t.is_valid in
      absurd (cc bad)
  | inr e ↦ e
]
