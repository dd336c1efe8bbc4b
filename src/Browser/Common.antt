-- ===== src/Browser/Common.antt =====
-- What the handlers of backend/app/api/v1/browser.py share.
use live_photo_llm.Prelude.{ℕ, zero, suc, String, Bool, false, Option, none, some, if◌then◌else◌}
use live_photo_llm.Python.{Json, text, Fields, get, get_or, Env, str_of, truthy}
use live_photo_llm.State.{
  World, Exec, Result, ok, err, api, transaction_terminal, raise_if, asks, ◌>>=◌,
}
use live_photo_llm.Transactions.Status.{TransactionStatus, parse, is_terminal}
use live_photo_llm.Transactions.Ids.{TxId}
use live_photo_llm.Transactions.Store.{read_transaction_json}
use live_photo_llm.Integrations.Consumers.{ConsumerProfile, Registry, get_profile}

-- What other requests and the file system's other users do while a handler holds no lock.
abbrev pub Meanwhile : Type 0
Meanwhile = World → World

-- `_status_str` and its membership in the terminal values: a status that is no member of the enum
-- reads as TECHNICAL_ERROR, which is not terminal.
abbrev is_terminal_option : Option TransactionStatus → Bool
is_terminal_option none = false
is_terminal_option (some st) = is_terminal st

unfoldable pub status_blocks : Json → Bool
status_blocks (text s) = is_terminal_option (parse s)
status_blocks _ = false

module _ (env : Env) where
  -- `_terminal_blocked`
  unfoldable pub terminal_blocked : TxId → Exec Unit
  unfolding status_blocks
  terminal_blocked t = do
    metadata ← asks (λ s. read_transaction_json env s t)
    raise_if (status_blocks (get "status" metadata)) (api transaction_terminal)

  abbrev consumer_name : Result Fields → String
  consumer_name (err _) = "unknown"
  consumer_name (ok metadata) =
      let name = get_or "consumer_id" (text "unknown") metadata in
      if truthy env name then str_of env name else "unknown"

  -- `_consumer_for_tx`
  unfoldable pub consumer_for_tx : World → TxId → String
  consumer_for_tx s t = consumer_name (read_transaction_json env s t)

  abbrev profile_limit : Option ConsumerProfile → ℕ → ℕ
  profile_limit none default = default
  profile_limit (some p) default = elim p.max_attempts [ zero ↦ default | suc n ↦ suc n ]

  -- `_max_attempts_for_tx`
  unfoldable pub max_attempts_for_tx : Registry → World → TxId → ℕ → ℕ
  unfolding consumer_for_tx
  max_attempts_for_tx registry s t default =
      profile_limit (get_profile registry (consumer_for_tx s t)) default
