-- ===== src/Browser/Submit/Repeat.antt =====
-- A submit after the delivery.
use live_photo_llm.Prelude.{ap, sym, ◌⊎◌, inl, inr, ℕ, String, true, Option, ◌≡◌, ◌∙◌, refl, arith}
use live_photo_llm.Python.{Env, Json, Fields, get, eq_text}
use live_photo_llm.State.{
  World, Result, Result-cases, ok, err, api, callback_state, transaction_json,
}
use live_photo_llm.State.{err, transaction_completed}
use live_photo_llm.Python.{dict_laws}
use live_photo_llm.State.Inversion.{bind-from, bind-err}
use live_photo_llm.Transactions.Status
use live_photo_llm.Transactions.Status.{value}
use live_photo_llm.Transactions.Store.{
  lock_transaction, read_json, read, stamp_status, artifact_exists,
}
use live_photo_llm.Integrations.Session.Access.{authorize-session}
use live_photo_llm.Browser.Submit.{submit_checks}
use live_photo_llm.Browser.Submit.Completion.{IsDelivered}
use live_photo_llm.Settings.{Settings}
use live_photo_llm.Transactions.Ids.{TxId}
use live_photo_llm.Transactions.Store.{read_transaction_json, make_folder}
use live_photo_llm.Integrations.Consumers.{Registry}
use live_photo_llm.Integrations.Callback.{Network, ParsedUrl}
use live_photo_llm.Integrations.Session.{Request, authorize}
use live_photo_llm.Integrations.Session.Access.{IsSession}
use live_photo_llm.Browser.Submit.Authorization.{submit_for, checked, submit_checks-keeps}
use live_photo_llm.Browser.Submit.Outcome.{submit_delivery-ok}
use live_photo_llm.Transactions.Decisions.{DecisionRecord}
use live_photo_llm.Browser.Submit.{
  submit_delivery, browser_submit, read_callback_state, read_portrait_with_integrity,
}

module _ (env : Env) (settings : Settings) (registry : Registry)
    (urlparse : String → Option ParsedUrl) (network : Network) where
  refused_when_completed :
      (t : TxId) (m : Fields) (s : World)
      → read_transaction_json env s t ≡ ok m
      → eq_text (get "status" m) (value Status.completed) ≡ true
      → submit_checks env settings registry urlparse network t s
        ≡ (err (api transaction_completed), s)
  unfolding submit_checks
  refused_when_completed t m s e h = ground (arith, e, h)

  completed_read :
      (t : TxId) (now : ℕ) (event_id url : String) (s : World)
      (d : IsDelivered env settings registry urlparse network t now event_id url s)
      → read_transaction_json env s t
        ≡ ok (stamp_status env (value Status.completed) (env.isoformat now) d.metadata)
  unfolding read_transaction_json read_json
  completed_read t now event_id url s d = rw d.is_completed refl

  kept_delivery :
      (t : TxId) (now : ℕ) (event_id url : String) (s s' : World)
      → read s' t callback_state ≡ read s t callback_state
      → read s' t transaction_json ≡ read s t transaction_json
      → IsDelivered env settings registry urlparse network t now event_id url s
      → IsDelivered env settings registry urlparse network t now event_id url s'
  kept_delivery t now event_id url s s' a b d = record {
    metadata = d.metadata;
    is_completed = b ∙ d.is_completed;
    is_acknowledged = a ∙ d.is_acknowledged;
  }

  -- Where a transaction has been delivered (COMPLETED and ACKNOWLEDGED), a submit in a session of
  -- the transaction raises TRANSACTION_COMPLETED.
  submit_once :
      (req : Request) (s : World) (t : TxId) (r : Fields) (now : ℕ) (event_id url : String)
      → IsSession env req s t r
      → IsDelivered env settings registry urlparse network t now event_id url s
      → browser_submit env settings registry urlparse network req s
        ≡ (err (api transaction_completed), make_folder t s)
  unfolding browser_submit lock_transaction read_transaction_json read_json read
  submit_once req s t r now event_id url session d =
      bind-from (authorize env req) (submit_for env settings registry urlparse network req) s
        (authorize-session env req s t r session)
      ∙ bind-err (submit_checks env settings registry urlparse network t)
          (λ v. submit_delivery env settings registry urlparse network t v req.now)
          (make_folder t s)
          (refused_when_completed t _ (make_folder t s) (completed_read t now event_id url s d)
            (simp dict_laws))

  abbrev recorded : World → TxId → Fields
  recorded s t = read_callback_state env settings registry urlparse network s t

  abbrev IsRecorded : World → TxId → Type 0
  IsRecorded s t = eq_text (get "state" (recorded s t)) "ACKNOWLEDGED" ≡ true

  recorded_frame :
      (t : TxId) (s s' : World)
      → read s' t callback_state ≡ read s t callback_state
      → recorded s' t ≡ recorded s t
  unfolding read_callback_state artifact_exists read_json
  recorded_frame t s s' e = rw e

  delivered-IsRecorded :
      (t : TxId) (now : ℕ) (event_id url : String) (s : World)
      → IsDelivered env settings registry urlparse network t now event_id url s
      → IsRecorded s t
  unfolding read_callback_state artifact_exists read_json get
  delivered-IsRecorded t now event_id url s d = rw d.is_acknowledged refl

  delivery_posts :
      (t : TxId) (d : DecisionRecord) (now : ℕ) (s : World)
      → IsRecorded s t
      → (submit_delivery env settings registry urlparse network t d now s).1.posts ≡ s.posts
  unfolding submit_delivery read_portrait_with_integrity
  delivery_posts t d now s h = ground (arith, h)

  submit_for_posts :
      (req : Request) (t : TxId) (s : World)
      → IsRecorded s t
      → (submit_for env settings registry urlparse network req t s).1.posts ≡ s.posts
  unfolding lock_transaction read
  submit_for_posts req t s h =
      let w = make_folder t s in
      let checks = submit_checks env settings registry urlparse network t in
      let kept = submit_checks-keeps env settings registry urlparse network t w in
      let old = ap (λ f. eq_text (get "state" f) "ACKNOWLEDGED") (recorded_frame t s w refl) ∙ h in
      elim (Result-cases (checks w).0) [
        | inl (d, e) ↦
            ap (λ (p : Result Json × World). p.1.posts)
              (bind-from checks
                (λ d. submit_delivery env settings registry urlparse network t d req.now) w
                (λ i. (e i, kept i)))
            ∙ delivery_posts t d req.now w old
        | inr (x, e) ↦
            ap (λ (p : Result Json × World). p.1.posts)
              (bind-err checks
                (λ d. submit_delivery env settings registry urlparse network t d req.now) w
                (λ i. (e i, kept i)))
      ]

  -- After a submit for a transaction returned, in any later state with the same callback and
  -- transaction files, another submit in a session of that transaction posts nothing; and it
  -- raises TRANSACTION_COMPLETED and changes nothing but the folder, unless the first one was
  -- itself answered from an acknowledged record.
  pub submit_twice :
      (req req' : Request) (s s1 s2 : World) (v : Json) (t : TxId) (r r' : Fields)
      → IsSession env req s t r
      → browser_submit env settings registry urlparse network req s ≡ (ok v, s1)
      → read s2 t callback_state ≡ read s1 t callback_state
      → read s2 t transaction_json ≡ read s1 t transaction_json
      → IsSession env req' s2 t r'
      → ((browser_submit env settings registry urlparse network req' s2).1.posts ≡ s2.posts)
        × ((eq_text (get "state" (recorded s t)) "ACKNOWLEDGED" ≡ true)
            ⊎ (browser_submit env settings registry urlparse network req' s2
                ≡ (err (api transaction_completed), make_folder t s2)))
  unfolding browser_submit read
  submit_twice req req' s s1 s2 v t r r' session h same_state same_metadata session' =
      let begun =
        sym (
          bind-from (authorize env req) (submit_for env settings registry urlparse network req) s
            (authorize-session env req s t r session))
        ∙ h in
      let (d, _, _, done) = checked env settings registry urlparse network req t s s1 v begun in
      let again =
        bind-from (authorize env req') (submit_for env settings registry urlparse network req') s2
          (authorize-session env req' s2 t r' session') in
      let posts : IsRecorded s2 t
          → (browser_submit env settings registry urlparse network req' s2).1.posts ≡ s2.posts =
        λ a. ap (λ (p : Result Json × World). p.1.posts) again ∙ submit_for_posts req' t s2 a in
      elim (submit_delivery-ok env settings registry urlparse network t d req.now (make_folder t s)
        s1 v done) [
          | inl (same, old, _) ↦
              let w = make_folder t s in
              let now_recorded =
                recorded_frame t w s2 (same_state ∙ ap (λ u. read u t callback_state) same) in
              (
                posts (ap (λ f. eq_text (get "state" f) "ACKNOWLEDGED") now_recorded ∙ old),
                inl (
                    ap (λ f. eq_text (get "state" f) "ACKNOWLEDGED")
                      (sym (recorded_frame t s w refl))
                    ∙ old),
              )
          | inr p ↦
              let (url, _, done, _, _) = p.is_posted.concluded in
              let later = kept_delivery t req.now _ url s1 s2 same_state same_metadata done in
              (
                posts (delivered-IsRecorded t req.now _ url s2 later),
                inr (submit_once req' s2 t r' req.now _ url session' later),
              )
        ]
