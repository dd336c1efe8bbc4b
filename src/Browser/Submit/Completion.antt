-- ===== src/Browser/Submit/Completion.antt =====
-- What a delivery leaves behind, and why it is not repeated.
use mathlib.Core.Path.{subst}
use live_photo_llm.Prelude.{ℕ, String, Option, some, ◌≡◌, ◌∙◌, refl, sym, arith, inl, inr}
use live_photo_llm.Python.{Env, Fields, Json, text}
use live_photo_llm.State.{
  World, ok, callback_state, transaction_json, document, FilePath, Result-cases,
}
use live_photo_llm.Settings.{Settings}
use live_photo_llm.Transactions.Status
use live_photo_llm.Transactions.Status.{value, parse, from_value}
use live_photo_llm.Transactions.Ids.{TxId}
use live_photo_llm.Transactions.Store.{
  read, put, read_transaction_json, set_status, stamp_status, update_transaction_status,
}
use live_photo_llm.Transactions.Store.Laws.{file_laws}
use live_photo_llm.Transactions.Store.Statuses.{read-set_status, read-set_status_terminal}
use live_photo_llm.Integrations.Consumers.{Registry}
use live_photo_llm.Integrations.Callback.{Network, ParsedUrl}
use live_photo_llm.Integrations.Index.{index_delete}
use live_photo_llm.Browser.Submit.{acknowledged_state, revoke_after_completion, record_success}

module _ (env : Env) (settings : Settings) (registry : Registry)
    (urlparse : String → Option ParsedUrl) (network : Network) (t : TxId) (now : ℕ) where
  -- Revoking the session touches no file.
  revoke_keeps :
      (s : World) (p : FilePath)
      → read (revoke_after_completion env settings registry urlparse network t s).1 t p ≡ read s t p
  unfolding revoke_after_completion read index_delete
  revoke_keeps s p = ground arith

  abbrev acknowledged : String → String → World → World
  acknowledged event_id url s =
      put s t callback_state (document (acknowledged_state event_id url (env.isoformat now)))

  -- The files of a transaction that was delivered.
  pub record IsDelivered (event_id url : String) (s : World) : Type 0 where
    pub metadata : Fields
    pub is_completed :
        read s t transaction_json
        ≡ some (document (stamp_status env (value Status.completed) (env.isoformat now) metadata))
    pub is_acknowledged :
        read s t callback_state
        ≡ some (document (acknowledged_state event_id url (env.isoformat now)))

  completed-IsDelivered :
      (event_id url : String) (m : Fields) (s : World)
      → IsDelivered event_id url
          (set_status env t Status.completed now m (acknowledged event_id url s))
  completed-IsDelivered event_id url m s = record {
    metadata = m;
    is_completed =
        read-set_status_terminal env t Status.completed now m (acknowledged event_id url s) refl;
    is_acknowledged =
        read-set_status env t Status.completed now m (acknowledged event_id url s) callback_state
          refl
        ∙ simp file_laws;
  }

  pub record_success-ok :
      (event_id url : String) (s s' : World) (v : Json)
      → record_success env settings registry urlparse network t event_id url now s ≡ (ok v, s')
      → IsDelivered event_id url s' × (v ≡ text url)
  unfolding record_success update_transaction_status completed-IsDelivered
  record_success-ok event_id url s s' v h =
      elim (Result-cases (read_transaction_json env (acknowledged event_id url s) t)) [
        | inl (m, e) ↦
            let w = set_status env t Status.completed now m (acknowledged event_id url s) in
            let d = completed-IsDelivered event_id url m s in
            let same : s' ≡ (revoke_after_completion env settings registry urlparse network t w).1 =
              ground arith in
            (
              subst (IsDelivered event_id url) (sym same) (record {
                metadata = m;
                is_completed = revoke_keeps w transaction_json ∙ d.is_completed;
                is_acknowledged = revoke_keeps w callback_state ∙ d.is_acknowledged;
              }),
              ground arith,
            )
        | inr (x, e) ↦ absurd (ground arith)
      ]
