-- ===== src/Transactions/Decisions.antt =====
-- The canonical decision record: backend/app/transactions/decisions.py and
-- backend/app/domain/decision.py.
pub mod RoundTrip
use live_photo_llm.Prelude.{
  ℕ, String, Bool, true, false, Option, none, some, str_eq, if◌then◌else◌, not,
}
use live_photo_llm.Python.{
  Json, text, arr, obj, Items, nil, cons, Fields, end, field, get, has_key, Env,
}
use live_photo_llm.State.{FilePath, decision_json, World, Exec, Result, ok, err}
use live_photo_llm.Transactions.Ids.{TxId}
use live_photo_llm.Transactions.Store.{artifact_exists, read_json, write_json}

pub data DecisionOutcome : Type 0 where
  pass retry review fail : DecisionOutcome

abbrev pub outcome_value : DecisionOutcome → String
outcome_value pass = "PASS"
outcome_value retry = "RETRY"
outcome_value review = "REVIEW"
outcome_value fail = "FAIL"

-- `DecisionOutcome(s)`; `none` stands for ValueError.
abbrev pub parse_outcome : String → Option DecisionOutcome
parse_outcome s =
    if str_eq s "PASS"
    then some pass
    else if str_eq s "RETRY"
    then some retry
    else if str_eq s "REVIEW"
    then some review
    else if str_eq s "FAIL"
    then some fail
    else none

abbrev pub is_pass : DecisionOutcome → Bool
is_pass pass = true
is_pass _ = false

pub record DecisionRecord : Type 0 where
  pub decision_id : String
  pub transaction_id : String
  pub outcome : DecisionOutcome
  pub decided_at : String
  pub decision_source : String
  pub decision_version : String
  pub evidence_refs : Items
  pub metadata : Fields

abbrev ◌>>=?◌ : {A B : Type 0} → Option A → (A → Option B) → Option B
◌>>=?◌ none f = none
◌>>=?◌ (some a) f = f a

abbrev str_field : Json → Option String
str_field (text s) = some s
str_field _ = none

-- `Field(min_length=1)`
abbrev non_empty_field : Json → Option String
non_empty_field (text s) = if str_eq s "" then none else some s
non_empty_field _ = none

abbrev outcome_field : Json → Option DecisionOutcome
outcome_field (text s) = parse_outcome s
outcome_field _ = none

abbrev all_texts : Items → Bool
all_texts nil = true
all_texts (cons (text s) xs) = all_texts xs
all_texts (cons _ xs) = false

-- `list[str]`
abbrev texts_field : Json → Option Items
texts_field (arr xs) = if all_texts xs then some xs else none
texts_field _ = none

abbrev object_field : Json → Option Fields
object_field (obj f) = some f
object_field _ = none

-- A field with a default, where the key is missing.
abbrev defaulted : {A : Type 0} → String → Fields → A → (Json → Option A) → Option A
defaulted k f d parse = if has_key k f then parse (get k f) else some d

-- `DecisionRecord.model_validate`; `none` stands for ValidationError.
unfoldable pub validate_decision : Fields → Option DecisionRecord
validate_decision f = ◌>>=?◌ (non_empty_field (get "decision_id" f)) λ id.
    ◌>>=?◌ (non_empty_field (get "transaction_id" f)) λ tx.
      ◌>>=?◌ (outcome_field (get "outcome" f)) λ outcome.
        ◌>>=?◌ (str_field (get "decided_at" f)) λ at.
          ◌>>=?◌ (str_field (get "decision_source" f)) λ source.
            ◌>>=?◌ (str_field (get "decision_version" f)) λ version.
              ◌>>=?◌ (defaulted "evidence_refs" f nil texts_field) λ refs.
                ◌>>=?◌ (defaulted "metadata" f end object_field) λ metadata. some (record {
                  decision_id = id;
                  transaction_id = tx;
                  outcome = outcome;
                  decided_at = at;
                  decision_source = source;
                  decision_version = version;
                  evidence_refs = refs;
                  metadata = metadata;
                })

-- `record.model_dump(mode="json")`
unfoldable pub dump_decision : DecisionRecord → Fields
dump_decision d = field "decision_id" (text d.decision_id) (
    field "transaction_id" (text d.transaction_id) (
      field "outcome" (text (outcome_value d.outcome)) (
        field "decided_at" (text d.decided_at) (
          field "decision_source" (text d.decision_source) (
            field "decision_version" (text d.decision_version) (
              field "evidence_refs" (arr d.evidence_refs)
                (field "metadata" (obj d.metadata) end)))))))

-- `build_decision`, given the fresh id and the time.
abbrev pub build_decision :
    String → String → TxId → DecisionOutcome → String → String → Items → Fields → DecisionRecord
build_decision id now t outcome source version refs metadata = record {
  decision_id = id;
  transaction_id = t.name;
  outcome = outcome;
  decided_at = now;
  decision_source = source;
  decision_version = version;
  evidence_refs = refs;
  metadata = metadata;
}

unfoldable pub write_decision : TxId → DecisionRecord → Exec Unit
unfolding write_json
write_decision t d = write_json t decision_json (dump_decision d)

abbrev decision_of : Result Fields → Option DecisionRecord
decision_of (ok f) = validate_decision f
decision_of (err _) = none

abbrev outcome_is_pass : Option DecisionRecord → Bool
outcome_is_pass none = false
outcome_is_pass (some d) = is_pass d.outcome

module _ (env : Env) where
  unfoldable pub read_decision : World → TxId → Option DecisionRecord
  read_decision s t =
      if artifact_exists s t decision_json
      then decision_of (read_json env s t decision_json)
      else none

  unfoldable pub has_canonical_pass : World → TxId → Bool
  unfolding read_decision
  has_canonical_pass s t = outcome_is_pass (read_decision s t)
