-- ===== src/Transactions/Status.antt =====
-- The lifecycle states of a transaction: TransactionStatus of backend/app/transactions/store.py.
use live_photo_llm.Prelude.{
  String, Bool, true, false, Option, none, some, ◌≡◌, refl, str_eq, if◌then◌else◌, List, [], ◌∷◌,
}

pub data TransactionStatus : Type 0 where
  launched created capture_ready vlm_evaluated portrait_processing portrait_ready :
      TransactionStatus
  decision_ready submitted completed callback_failed : TransactionStatus
  attempt_limit_exceeded failed technical_error : TransactionStatus

-- `status.value`
abbrev pub value : TransactionStatus → String
value launched = "LAUNCHED"
value created = "CREATED"
value capture_ready = "CAPTURE_READY"
value vlm_evaluated = "VLM_EVALUATED"
value portrait_processing = "PORTRAIT_PROCESSING"
value portrait_ready = "PORTRAIT_READY"
value decision_ready = "DECISION_READY"
value submitted = "SUBMITTED"
value completed = "COMPLETED"
value callback_failed = "CALLBACK_FAILED"
value attempt_limit_exceeded = "ATTEMPT_LIMIT_EXCEEDED"
value failed = "FAILED"
value technical_error = "TECHNICAL_ERROR"

abbrev pub all_statuses : List TransactionStatus
all_statuses =
    launched ∷ created ∷ capture_ready ∷ vlm_evaluated ∷ portrait_processing ∷ portrait_ready
    ∷ decision_ready ∷ submitted ∷ completed ∷ callback_failed ∷ attempt_limit_exceeded ∷ failed
    ∷ technical_error ∷ []

abbrev find_status : String → List TransactionStatus → Option TransactionStatus
find_status s [] = none
find_status s (st ∷ rest) = if str_eq s (value st) then some st else find_status s rest

-- `TransactionStatus(s)`; `none` stands for ValueError.
unfoldable pub parse : String → Option TransactionStatus
parse s = find_status s all_statuses

abbrev or_technical_error : Option TransactionStatus → TransactionStatus
or_technical_error none = technical_error
or_technical_error (some st) = st

-- `TransactionStatus.from_value`
unfoldable pub from_value : String → TransactionStatus
unfolding parse
from_value s = or_technical_error (parse s)

-- Membership in TERMINAL_TRANSACTION_STATUSES.
abbrev pub is_terminal : TransactionStatus → Bool
is_terminal completed = true
is_terminal attempt_limit_exceeded = true
is_terminal failed = true
is_terminal _ = false

-- Reading back the value of a status gives the status.
pub from_value-value : (st : TransactionStatus) → from_value (value st) ≡ st
unfolding from_value
from_value-value launched = refl
from_value-value _ = refl
