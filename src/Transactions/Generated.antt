-- ===== src/Transactions/Generated.antt =====
-- Ids that the backend generates: backend/app/transactions/ids.py. The random suffixes, one for
-- each try, and the text of the time stamp are arguments.
pub mod Fresh
use Prim.Native.String.{◌++◌}
use live_photo_llm.Prelude.{ℕ, zero, suc, String}
use live_photo_llm.Python.{Fields}
use live_photo_llm.State.{Exec, Error, transaction_exists, storage_error, raise, catch}
use live_photo_llm.Transactions.Ids.{TxId}
use live_photo_llm.Transactions.Store.{create_transaction}

-- DEFAULT_MAX_ATTEMPTS
abbrev pub default_max_attempts : ℕ
default_max_attempts = 5

-- `generate_internal_transaction_id`
abbrev pub generate_internal_transaction_id : String → String → String
generate_internal_transaction_id timestamp suffix = "LP-" ++ timestamp ++ "-" ++ suffix

-- `except TransactionExistsError: continue`
abbrev pub or_next : Exec TxId → Error → Exec TxId
or_next next transaction_exists = next
or_next next e = raise e

-- The loop of `create_transaction_with_generated_id`, from the try with this number on.
unfoldable pub create_generated : (ℕ → String) → (String → Fields) → ℕ → ℕ → Exec TxId
unfolding create_transaction
create_generated generate metadata zero i = raise storage_error
create_generated generate metadata (suc left) i =
    let next = create_generated generate metadata left (suc i) in
    catch (create_transaction (generate i) (metadata (generate i))) (or_next next)

unfoldable pub create_transaction_with_generated_id : (ℕ → String) → (String → Fields) → Exec TxId
unfolding create_generated
create_transaction_with_generated_id generate metadata =
    create_generated generate metadata default_max_attempts 0
